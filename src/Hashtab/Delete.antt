-- ===== src/Hashtab/Delete.antt =====
-- An item of a table in order is replaced by a deletion mark.
use a2ps.Prelude.{
  ℕ, ◌<◌, ◌≡◌, ◌≢◌, sym, ◌∙◌, ap, subst, inl, inr, arith, Bool-cases, true, false, Option-cases,
  none, get_or, set, length-set, length, if◌then◌else◌,
}
use a2ps.Hashtab.{Slot, empty, deleted, item, Keys, HashTable, matches}
use a2ps.Hashtab.Lookup.{
  Lawful, lookup, lookup-none, lookup-at, lookup-eq-some, lookup-eq-none, item_inj, empty-ne-item,
}
use a2ps.Hashtab.Find.{InOrder, matches-equal, equal-matches, only}
use a2ps.Hashtab.Change.{get_or-set_ne, item_after, still-Reached}
use a2ps.Hashtab.Insert.{changed}

module _ {ℓ} {A : Type ℓ} (keys : Keys A) (lawful : Lawful keys) (k : ℕ) (ht : HashTable A)
    (order : InOrder keys k ht) where
  -- Keys that are equal find the same.
  pub matches_trans :
      (q key b : A) → matches keys q key ≡ true → matches keys q b ≡ matches keys key b
  matches_trans q key b m =
      let to_equal = matches-equal keys lawful in
      let from_equal = equal-matches keys lawful in
      elim (Bool-cases (matches keys key b)) [
        | inl yes_key ↦
            from_equal q b (lawful.equal_trans q key b (to_equal q key m) (to_equal key b yes_key))
            ∙ sym yes_key
        | inr not_key ↦ elim (Bool-cases (matches keys q b)) [
          | inl yes_q ↦
              let bad = from_equal key b (
                lawful.equal_trans key q b (lawful.equal_symm q key (to_equal q key m))
                  (to_equal q b yes_q)) in
              cc
          | inr not_q ↦ not_q ∙ sym not_key
        ]
      ]

  -- Where nothing is found for a key, nothing is found for the keys that match it.
  pub lookup-same_none :
      (q key : A)
      → matches keys q key ≡ true
      → lookup keys key ht.ht_vec ≡ none
      → lookup keys q ht.ht_vec ≡ none
  lookup-same_none q key m h =
      lookup-none keys q ht.ht_vec
        (λ i b g. matches_trans q key b m ∙ lookup-eq-none keys key ht.ht_vec h i b g)

  module _ (key : A) (i : ℕ) (within : i < ht.ht_size) (a : A)
      (holds : get_or ht.ht_vec i empty ≡ item a) (matching : matches keys key a ≡ true) where
    in_vec : i < length ht.ht_vec
    in_vec = omega (arith, within, order.long)

    mark_used : ◌≢◌ {A = Slot A} deleted empty
    mark_used e = cc

    was_there :
        (j : ℕ) (b : A)
        → get_or (set ht.ht_vec i deleted) j empty ≡ item b
        → (i ≢ j) × (get_or ht.ht_vec j empty ≡ item b)
    was_there j b h = elim (item_after ht.ht_vec i deleted in_vec j b h) [
      | inl (_, e) ↦ cc
      | inr there ↦ there
    ]

    pub InOrder-delete :
        (fill lookups collisions : ℕ)
        → InOrder keys k (changed i deleted fill lookups collisions ht)
    InOrder-delete fill lookups collisions =
        let apart : i ≢ order.free = λ here.
          empty-ne-item (get_or ht.ht_vec i empty)
            (ap (λ n. get_or ht.ht_vec n empty) here ∙ order.is_free) holds in
        record {
          sized = record { few = order.sized.few; power = order.sized.power };
          long = length-set ht.ht_vec i deleted ∙ order.long;
          reached = λ j b h.
              still-Reached ht.ht_vec i deleted in_vec keys ht.ht_size mark_used b j
                (order.reached j b (was_there j b h).1);
          single = λ j j' b c h h'. order.single j j' b c (was_there j b h).1 (was_there j' c h').1;
          free = order.free;
          free_within = order.free_within;
          is_free = get_or-set_ne ht.ht_vec i order.free deleted empty apart ∙ order.is_free;
        }

    gone :
        (q : A)
        → matches keys q key ≡ true
        → (j : ℕ) (b : A) → get_or (set ht.ht_vec i deleted) j empty ≡ item b
        → matches keys q b ≡ false
    gone q m j b h =
        let (apart, g) = was_there j b h in
        elim (Bool-cases (matches keys q b)) [
          | inr differs ↦ differs
          | inl same ↦
              let same_key = sym (matches_trans q key b m) ∙ same in
              absurd
                (apart (sym (only keys lawful k ht order key i a holds matching j b g same_key)))
        ]

    kept_apart :
        (q b : A) (j : ℕ)
        → matches keys q key ≡ false
        → get_or ht.ht_vec j empty ≡ item b
        → matches keys q b ≡ true
        → i ≢ j
    kept_apart q b j m g mb here =
        let same : item a ≡ item b = sym holds ∙ ap (λ n. get_or ht.ht_vec n empty) here ∙ g in
        let to_equal = matches-equal keys lawful in
        let key_b =
          subst (λ x. keys.is_equal key x ≡ true) (item_inj same) (to_equal key a matching) in
        let bad =
          equal-matches keys lawful q key
            (lawful.equal_trans q b key (to_equal q b mb) (lawful.equal_symm key b key_b)) in
        let clash : true ≡ false = sym bad ∙ m in cc

    -- The keys that match the deleted one find nothing, and all others what they found.
    pub lookup-delete :
        (q : A)
        → lookup keys q (set ht.ht_vec i deleted)
          ≡ (if matches keys q key then none else lookup keys q ht.ht_vec)
    lookup-delete q = elim (Bool-cases (matches keys q key)) [
      | inl m ↦ lookup-none keys q (set ht.ht_vec i deleted) (gone q m) ∙ rw m
      | inr m ↦ elim (Option-cases (lookup keys q ht.ht_vec)) [
        | inl none_before ↦
            lookup-none keys q (set ht.ht_vec i deleted)
              (λ j b h. lookup-eq-none keys q ht.ht_vec none_before j b (was_there j b h).1)
            ∙ sym none_before
            ∙ rw m
        | inr (b, found) ↦
            let (j, g, mb) = lookup-eq-some keys q ht.ht_vec b found in
            let g' = get_or-set_ne ht.ht_vec i j deleted empty (kept_apart q b j m g mb) ∙ g in
            lookup-at keys q (set ht.ht_vec i deleted) j b g' mb (λ j' b' h' m'.
              only keys lawful k ht order q j b g mb j' b' (was_there j' b' h').1 m')
            ∙ sym found
            ∙ rw m
      ]
    ]
