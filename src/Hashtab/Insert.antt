-- ===== src/Hashtab/Insert.antt =====
-- hash_insert in a table that is in order and does not become full.
use a2ps.Prelude.{
  ℕ, ◌<◌, ◌≡◌, ◌≢◌, refl, sym, ◌∙◌, ap, subst, ◌⊎◌, inl, inr, arith, Bool-cases, true, false,
  Option-cases, some, get_or, set, length-set, length, if◌then◌else◌,
}
use a2ps.Hashtab.{Slot, empty, item, Keys, HashTable, matches, is_vacant}
use a2ps.Hashtab.Trace.{slot_of, Stops, StopsEmpty, StopsFound}
use a2ps.Hashtab.Lookup.{
  Lawful, lookup, lookup-none, lookup-at, lookup-eq-some, lookup-eq-none, item_inj, empty-ne-item,
}
use a2ps.Hashtab.Find.{InOrder, Reached, matches-equal, equal-matches, no_match, only}
use a2ps.Hashtab.Change.{
  index_cases, get_or-set_self, get_or-set_ne, item_after, still-Reached, now-Reached,
}

-- The table with a written slot, whatever is counted
abbrev pub changed {ℓ} : {A : Type ℓ} → ℕ → Slot A → ℕ → ℕ → ℕ → HashTable A → HashTable A
changed i s fill lookups collisions ht = record ht {
  ht_vec = set ht.ht_vec i s;
  ht_fill = fill;
  ht_lookups = lookups;
  ht_collisions = collisions;
}

module _ {ℓ} {A : Type ℓ} (keys : Keys A) (lawful : Lawful keys) (k : ℕ) (ht : HashTable A)
    (order : InOrder keys k ht) where
  -- A slot is still free when `i` was written, if there were two.
  pub still_free :
      (i spare : ℕ) (s : Slot A)
      → spare < ht.ht_size
      → spare ≢ order.free
      → get_or ht.ht_vec spare empty ≡ empty
      → (j : ℕ) × (j < ht.ht_size) × (get_or (set ht.ht_vec i s) j empty ≡ empty)
  still_free i spare s l other e = elim (index_cases i order.free) [
    | inr apart ↦ (
      order.free,
      order.free_within,
      get_or-set_ne ht.ht_vec i order.free s empty apart ∙ order.is_free,
    )
    | inl same ↦ (spare, l, get_or-set_ne ht.ht_vec i spare s empty (λ h. other (sym h ∙ same)) ∙ e)
  ]

  module _ (new : A) (i : ℕ) (within : i < ht.ht_size)
      (st : Stops keys ht.ht_vec ht.ht_size new i) where
    pub in_vec : i < length ht.ht_vec
    in_vec = omega (arith, within, order.long)

    -- The items that are equal to the new one are where it is written.
    replaced :
        (j : ℕ) (b : A) → get_or ht.ht_vec j empty ≡ item b → keys.is_equal new b ≡ true → j ≡ i
    replaced j b g e = by_stop st.stops
      where
        by_stop :
            StopsEmpty keys ht.ht_vec ht.ht_size new i st.stop
              ⊎ StopsFound keys ht.ht_vec ht.ht_size new i st.stop
            → j ≡ i
        by_stop (inl s) =
            let differs = no_match keys lawful k ht order new st.stop st.passes s.ends j b g in
            let same = equal-matches keys lawful new b e in cc
        by_stop (inr s) =
            let holds : get_or ht.ht_vec i empty ≡ item s.found =
              ap (λ x. get_or ht.ht_vec x empty) s.taken ∙ s.holds in
            only keys lawful k ht order new i s.found holds s.matching j b g
              (equal-matches keys lawful new b e)

    after-Reached :
        (j : ℕ) (a : A)
        → get_or (set ht.ht_vec i (item new)) j empty ≡ item a
        → Reached keys (set ht.ht_vec i (item new)) ht.ht_size a j
    after-Reached j a h =
        let used : item new ≢ empty = λ e. empty-ne-item (item new) e refl in
        elim (item_after ht.ht_vec i (item new) in_vec j a h) [
          | inl (here, e) ↦
              subst (λ n. Reached keys (set ht.ht_vec i (item new)) ht.ht_size a n) here
                (subst (λ x. Reached keys (set ht.ht_vec i (item new)) ht.ht_size x i) (item_inj e)
                  (now-Reached ht.ht_vec i (item new) in_vec keys ht.ht_size used new st))
          | inr (_, g) ↦
              still-Reached ht.ht_vec i (item new) in_vec keys ht.ht_size used a j
                (order.reached j a g)
        ]

    single_after :
        (j j' : ℕ) (a b : A)
        → get_or (set ht.ht_vec i (item new)) j empty ≡ item a
        → get_or (set ht.ht_vec i (item new)) j' empty ≡ item b
        → keys.is_equal a b ≡ true
        → j ≡ j'
    single_after j j' a b h h' same =
        let equals : A → A → Type 0 = λ x y. keys.is_equal x y ≡ true in
        elim (item_after ht.ht_vec i (item new) in_vec j a h) [
          | inl (here, e) ↦ elim (item_after ht.ht_vec i (item new) in_vec j' b h') [
            | inl (here', _) ↦ sym here ∙ here'
            | inr (_, g') ↦
                sym here ∙ sym (replaced j' b g' (subst (λ x. equals x b) (sym (item_inj e)) same))
          ]
          | inr (_, g) ↦ elim (item_after ht.ht_vec i (item new) in_vec j' b h') [
            | inl (here', e') ↦
                replaced j a g
                  (subst (λ x. equals x a) (sym (item_inj e')) (lawful.equal_symm a b same))
                ∙ here'
            | inr (_, g') ↦ order.single j j' a b g g' same
          ]
        ]

    pub InOrder-insert :
        (fill lookups collisions spare : ℕ)
        → spare < ht.ht_size
        → spare ≢ order.free
        → get_or ht.ht_vec spare empty ≡ empty
        → InOrder keys k (changed i (item new) fill lookups collisions ht)
    InOrder-insert fill lookups collisions spare l other e =
        let (f, f_within, f_free) = still_free i spare (item new) l other e in
        record {
          sized = record { few = order.sized.few; power = order.sized.power };
          long = length-set ht.ht_vec i (item new) ∙ order.long;
          reached = after-Reached;
          single = single_after;
          free = f;
          free_within = f_within;
          is_free = f_free;
        }

    -- What stood where the new item is written is equal to it.
    old_equal : (b : A) → get_or ht.ht_vec i empty ≡ item b → keys.is_equal new b ≡ true
    old_equal b g = by_stop st.stops
      where
        by_stop :
            StopsEmpty keys ht.ht_vec ht.ht_size new i st.stop
              ⊎ StopsFound keys ht.ht_vec ht.ht_size new i st.stop
            → keys.is_equal new b ≡ true
        by_stop (inl s) =
            let here : slot_of keys ht.ht_vec ht.ht_size new s.round ≡ item b =
              ap (λ x. get_or ht.ht_vec x empty) (sym s.taken) ∙ g in
            let no_item : is_vacant (item b) ≡ true =
              subst (λ x. is_vacant x ≡ true) here s.vacant in
            cc
        by_stop (inr s) =
            let same : item s.found ≡ item b =
              sym s.holds ∙ ap (λ x. get_or ht.ht_vec x empty) (sym s.taken) ∙ g in
            subst (λ x. keys.is_equal new x ≡ true) (item_inj same)
              (matches-equal keys lawful new s.found s.matching)

    differs :
        (q b : A)
        → matches keys q new ≡ false
        → matches keys q b ≡ true
        → get_or ht.ht_vec i empty ≡ item b
        → ⊥
    differs q b m mb g =
        let same = equal-matches keys lawful q new (
          lawful.equal_trans q b new (matches-equal keys lawful q b mb)
            (lawful.equal_symm new b (old_equal b g))) in
        let bad : true ≡ false = sym same ∙ m in cc

    -- The new item is found for the keys that match it, and what was found for all others.
    pub lookup-insert :
        (fill lookups collisions : ℕ)
        → InOrder keys k (changed i (item new) fill lookups collisions ht)
        → (q : A)
        → lookup keys q (set ht.ht_vec i (item new))
          ≡ (if matches keys q new then some new else lookup keys q ht.ht_vec)
    lookup-insert fill lookups collisions after q =
        let ht' = changed i (item new) fill lookups collisions ht in
        let written = get_or-set_self ht.ht_vec i (item new) empty in_vec in
        elim (Bool-cases (matches keys q new)) [
          | inl m ↦
              lookup-at keys q (set ht.ht_vec i (item new)) i new written m
                (only keys lawful k ht' after q i new written m)
              ∙ rw m
          | inr m ↦ elim (Option-cases (lookup keys q ht.ht_vec)) [
            | inl none_before ↦
                lookup-none keys q (set ht.ht_vec i (item new)) (λ j a h.
                  elim (item_after ht.ht_vec i (item new) in_vec j a h) [
                    | inl (_, e) ↦ subst (λ x. matches keys q x ≡ false) (item_inj e) m
                    | inr (_, g) ↦ lookup-eq-none keys q ht.ht_vec none_before j a g
                  ])
                ∙ sym none_before
                ∙ rw m
            | inr (b, found) ↦
                let (j, g, mb) = lookup-eq-some keys q ht.ht_vec b found in
                let apart : i ≢ j =
                  λ here. differs q b m mb (ap (λ n. get_or ht.ht_vec n empty) here ∙ g) in
                let g' = get_or-set_ne ht.ht_vec i j (item new) empty apart ∙ g in
                lookup-at keys q (set ht.ht_vec i (item new)) j b g' mb
                  (only keys lawful k ht' after q j b g' mb)
                ∙ sym found
                ∙ rw m
          ]
        ]
