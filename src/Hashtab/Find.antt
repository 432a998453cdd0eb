-- ===== src/Hashtab/Find.antt =====
-- What a search finds in a table that is in order.
use a2ps.Prelude.{
  ℕ, ◌+◌, ◌-◌, ◌*◌, ◌%◌, ◌^◌, ◌<◌, ◌≡◌, ◌≢◌, refl, sym, ◌∙◌, ap, subst, ◌⊎◌, inl, inr, arith,
  Bool-cases, true, false, List, none, some, ltb, ltb→lt, ltb→le, get_or, length, bit_or,
}
use a2ps.Hashtab.{
  Slot, empty, deleted, item, Keys, HashTable, matches, increment, is_vacant, item_of,
  hash_find_slot, hash_find_item,
}
use a2ps.Hashtab.Ends.{Sized, IsPassed, size_divides, find-Finds}
use a2ps.Hashtab.Trace.{place, slot_of, Stops, StopsEmpty, StopsFound, probe-Stops}
use a2ps.Hashtab.Lookup.{Lawful, lookup, lookup-none, lookup-at, empty-ne-item}

pub vacant_item {ℓ} : {A : Type ℓ} (s : Slot A) → is_vacant s ≡ true → item_of s ≡ none
vacant_item empty h = refl
vacant_item deleted h = refl
vacant_item (item a) h = cc

module _ {ℓ} {A : Type ℓ} (keys : Keys A) where
  -- The search for `a` comes to slot `i` before it comes to an empty one.
  abbrev pub Reached : List (Slot A) → ℕ → A → ℕ → Type ℓ
  Reached vec size a i =
      (t : ℕ) × (place keys vec size a t ≡ i)
      × ((t' : ℕ) → t' < t → slot_of keys vec size a t' ≢ empty)

  -- A table is in order: all its items can be reached, no two are equal, and a slot is free.
  pub record InOrder (k : ℕ) (ht : HashTable A) : Type ℓ where
    pub sized : Sized k ht
    pub long : length ht.ht_vec ≡ ht.ht_size
    pub reached :
        (i : ℕ) (a : A) → get_or ht.ht_vec i empty ≡ item a → Reached ht.ht_vec ht.ht_size a i
    pub single :
        (i j : ℕ) (a b : A)
        → get_or ht.ht_vec i empty ≡ item a
        → get_or ht.ht_vec j empty ≡ item b
        → keys.is_equal a b ≡ true
        → i ≡ j
    pub free : ℕ
    pub free_within : free < ht.ht_size
    pub is_free : get_or ht.ht_vec free empty ≡ empty

  module _ (lawful : Lawful keys) where
    pub matches-equal : (key a : A) → matches keys key a ≡ true → keys.is_equal key a ≡ true
    matches-equal key a m = elim (Bool-cases (keys.is_same key a)) [
      | inl e ↦ lawful.same-equal key a e
      | inr e ↦ rw e at m
    ]

    pub equal-matches : (key a : A) → keys.is_equal key a ≡ true → matches keys key a ≡ true
    equal-matches key a e = elim (Bool-cases (keys.is_same key a)) [ inl s ↦ rw s | inr s ↦ rw s e ]

    -- Equal items are searched for in the same slots.
    same_places :
        (vec : List (Slot A)) (size : ℕ) (a b : A) (t : ℕ)
        → keys.is_equal a b ≡ true
        → place keys vec size a t ≡ place keys vec size b t
    same_places vec size a b t e =
        ap (λ h. (h + t * increment keys a) % size) (lawful.hash_1-equal a b e)
        ∙ ap (λ h. (keys.hash_1 b + t * bit_or h 1) % size) (lawful.hash_2-equal a b e)

    module _ (k : ℕ) (ht : HashTable A) (order : InOrder k ht) (key : A) where
      -- All items that match are in one slot.
      pub only :
          (i : ℕ) (a : A)
          → get_or ht.ht_vec i empty ≡ item a
          → matches keys key a ≡ true
          → (j : ℕ) (b : A) → get_or ht.ht_vec j empty ≡ item b
          → matches keys key b ≡ true
          → j ≡ i
      only i a g m j b g' m' = order.single j i b a g' g (
          lawful.equal_trans b key a (lawful.equal_symm key b (matches-equal key b m'))
            (matches-equal key a m))

      -- A search that stops at an empty slot has no match.
      pub no_match :
          (stop : ℕ)
          → ((t : ℕ) → t < stop → IsPassed keys key (slot_of keys ht.ht_vec ht.ht_size key t))
          → slot_of keys ht.ht_vec ht.ht_size key stop ≡ empty
          → (j : ℕ) (b : A) → get_or ht.ht_vec j empty ≡ item b
          → matches keys key b ≡ false
      no_match stop passes e j b g =
          let (t, p, clear) = order.reached j b g in
          let at = slot_of keys ht.ht_vec ht.ht_size in
          elim (Bool-cases (matches keys key b)) [
            | inr differs ↦ differs
            | inl m ↦
                let same =
                  λ (n : ℕ). same_places ht.ht_vec ht.ht_size key b n (matches-equal key b m) in
                let holds : at key t ≡ item b =
                  ap (λ x. get_or ht.ht_vec x empty) (same t ∙ p) ∙ g in
                elim (Bool-cases (ltb t stop)) [
                  | inl before ↦ subst (IsPassed keys key) holds (passes t (ltb→lt t stop before))
                  | inr not_before ↦ elim (Bool-cases (ltb stop t)) [
                    | inl behind ↦ absurd (
                        clear stop (ltb→lt stop t behind)
                          (ap (λ x. get_or ht.ht_vec x empty) (sym (same stop)) ∙ e))
                    | inr not_behind ↦
                        let now : t ≡ stop =
                          omega (arith, ltb→le t stop not_before, ltb→le stop t not_behind) in
                        absurd (empty-ne-item (at key t) (ap (at key) now ∙ e) holds)
                  ]
                ]
          ]

      -- What is in the slot that a search leads to is what a look at all the slots finds.
      pub Stops-lookup :
          (i : ℕ)
          → Stops keys ht.ht_vec ht.ht_size key i
          → item_of (get_or ht.ht_vec i empty) ≡ lookup keys key ht.ht_vec
      Stops-lookup i s = by_case s.stops
        where
          by_case :
              StopsEmpty keys ht.ht_vec ht.ht_size key i s.stop
                ⊎ StopsFound keys ht.ht_vec ht.ht_size key i s.stop
              → item_of (get_or ht.ht_vec i empty) ≡ lookup keys key ht.ht_vec
          by_case (inl e) =
              ap (λ x. item_of (get_or ht.ht_vec x empty)) e.taken
              ∙ vacant_item (slot_of keys ht.ht_vec ht.ht_size key e.round) e.vacant
              ∙ sym (lookup-none keys key ht.ht_vec (no_match s.stop s.passes e.ends))
          by_case (inr f) =
              let holds : get_or ht.ht_vec i empty ≡ item f.found =
                ap (λ x. get_or ht.ht_vec x empty) f.taken ∙ f.holds in
              ap item_of holds
              ∙ sym (
                  lookup-at keys key ht.ht_vec i f.found holds f.matching
                    (only i f.found holds f.matching))

    -- The slot that a search leads to, and the table behind it
    pub found_slot :
        (k : ℕ) (ht : HashTable A)
        → InOrder k ht
        → (key : A)
        → (i : ℕ) × (n : ℕ) × (hash_find_slot keys ht key
            ≡ some (i, record ht { ht_lookups = ht.ht_lookups + 1; ht_collisions = n }))
          × (i < ht.ht_size)
          × Stops keys ht.ht_vec ht.ht_size key i
    unfolding hash_find_slot
    found_slot k ht order key =
        let (i, n, found, for) =
          find-Finds keys k ht key order.free order.sized order.free_within order.is_free in
        let first : keys.hash_1 key % ht.ht_size ≡ place keys ht.ht_vec ht.ht_size key 0 =
          let e : keys.hash_1 key ≡ keys.hash_1 key + 0 * increment keys key = omega arith in
          ap (λ h. h % ht.ht_size) e in
        (
          i,
          n,
          rw found refl,
          for.0,
          probe-Stops keys ht.ht_vec ht.ht_size key (2 ^ (64 - k)) (size_divides k ht order.sized)
              ht.ht_size (keys.hash_1 key) 0 none ht.ht_collisions i n first
              (λ t l. absurd (omega arith)) tt found,
        )

    -- In a table that is in order, hash_find_item ends, and returns what a look at all the slots
    -- finds; it changes nothing but the statistics. The comparison is an equivalence that the hash
    -- functions respect.
    pub hash_find_item-lookup :
        (k : ℕ) (ht : HashTable A)
        → InOrder k ht
        → (key : A)
        → (n : ℕ) × (hash_find_item keys ht key
            ≡ some (
              lookup keys key ht.ht_vec,
              record ht { ht_lookups = ht.ht_lookups + 1; ht_collisions = n },
            ))
    unfolding hash_find_item
    hash_find_item-lookup k ht order key =
        let (i, n, found, _, stops) = found_slot k ht order key in
        (
          n,
          rw found (
              ap (λ o. some (o, record ht { ht_lookups = ht.ht_lookups + 1; ht_collisions = n }))
                (Stops-lookup k ht order key i stops)),
        )
