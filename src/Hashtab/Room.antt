-- ===== src/Hashtab/Room.antt =====
-- How many slots are in use, and a deletion mark in a vacant one.
use a2ps.Prelude.{
  ℕ, zero, suc, ◌+◌, ◌<◌, ◌≤◌, ◌≡◌, ◌≢◌, refl, sym, ◌∙◌, ap, subst, inl, inr, arith, true, List, [],
  ◌∷◌, Option-cases, get_or, set, replicate, length-set, length,
}
use a2ps.Hashtab.{Slot, empty, deleted, item, Keys, HashTable, is_vacant}
use a2ps.Hashtab.Lookup.{Lawful, lookup, lookup-none, lookup-at, lookup-eq-some, lookup-eq-none}
use a2ps.Hashtab.Find.{InOrder, only}
use a2ps.Hashtab.Change.{get_or-set_self, get_or-set_ne, item_after, still-Reached}
use a2ps.Hashtab.Insert.{changed, still_free}

module _ {ℓ} {A : Type ℓ} where
  -- The slots that are not empty
  unfoldable pub used : List (Slot A) → ℕ
  used [] = 0
  used (empty ∷ vec) = used vec
  used (deleted ∷ vec) = suc (used vec)
  used (item a ∷ vec) = suc (used vec)

  pub used-le : (vec : List (Slot A)) → used vec ≤ length vec
  unfolding used
  used-le [] = omega arith
  used-le (empty ∷ vec) = omega (arith, used-le vec)
  used-le (deleted ∷ vec) = omega (arith, used-le vec)
  used-le (item a ∷ vec) = omega (arith, used-le vec)

  one_less : (s : Slot A) (vec : List (Slot A)) → used vec ≤ used (s ∷ vec)
  unfolding used
  one_less empty vec = omega arith
  one_less deleted vec = omega arith
  one_less (item a) vec = omega arith

  one_more : (s : Slot A) (vec : List (Slot A)) → used (s ∷ vec) ≤ suc (used vec)
  unfolding used
  one_more empty vec = omega arith
  one_more deleted vec = omega arith
  one_more (item a) vec = omega arith

  same_first :
      (s : Slot A) (vec vec' : List (Slot A))
      → used vec' ≤ suc (used vec)
      → used (s ∷ vec') ≤ suc (used (s ∷ vec))
  unfolding used
  same_first empty vec vec' h = h
  same_first deleted vec vec' h = omega arith
  same_first (item a) vec vec' h = omega arith

  pub used-set : (vec : List (Slot A)) (i : ℕ) (s : Slot A) → used (set vec i s) ≤ suc (used vec)
  used-set [] i s = omega arith
  used-set (x ∷ vec) zero s = omega (arith, one_more s vec, one_less x vec)
  used-set (x ∷ vec) (suc i) s = same_first x vec (set vec i s) (used-set vec i s)

  pub free_slot :
      (vec : List (Slot A))
      → used vec < length vec
      → (j : ℕ) × (j < length vec) × (get_or vec j empty ≡ empty)
  unfolding used
  free_slot [] h = absurd (omega arith)
  free_slot (empty ∷ vec) h = (0, omega arith, refl)
  free_slot (deleted ∷ vec) h =
      let (j, l, e) = free_slot vec (omega arith) in (suc j, omega arith, e)
  free_slot (item a ∷ vec) h =
      let (j, l, e) = free_slot vec (omega arith) in (suc j, omega arith, e)

pub used-replicate {ℓ} : (A : Type ℓ) (n : ℕ) → used {A = A} (replicate n empty) ≡ 0
unfolding used
used-replicate A zero = refl
used-replicate A (suc n) = used-replicate A n

mark-ne-empty {ℓ} : {A : Type ℓ} → ◌≢◌ {A = Slot A} deleted empty
mark-ne-empty e = cc

not_vacant {ℓ} : {A : Type ℓ} (a : A) → is_vacant (item a) ≡ true → ⊥
not_vacant a h = cc

module _ {ℓ} {A : Type ℓ} (keys : Keys A) (lawful : Lawful keys) (k : ℕ) (ht : HashTable A)
    (order : InOrder keys k ht) where
  -- With two slots to spare, there is a free one besides the one that is known.
  pub spare_slot :
      used ht.ht_vec + 1 < ht.ht_size
      → (j : ℕ) × (j < ht.ht_size) × (j ≢ order.free) × (get_or ht.ht_vec j empty ≡ empty)
  spare_slot room =
      let vec' = set ht.ht_vec order.free deleted in
      let long = length-set ht.ht_vec order.free deleted in
      let in_vec : order.free < length ht.ht_vec = omega (arith, order.free_within, order.long) in
      let (j, l, e) =
        free_slot vec' (omega (arith, long, order.long, used-set ht.ht_vec order.free deleted)) in
      let other : order.free ≢ j = λ here. mark-ne-empty (
        sym (get_or-set_self ht.ht_vec order.free deleted empty in_vec)
        ∙ ap (λ n. get_or vec' n empty) here
        ∙ e) in
      (
        j,
        omega (arith, long, order.long),
        λ h. other (sym h),
        sym (get_or-set_ne ht.ht_vec order.free j deleted empty other) ∙ e,
      )

  module _ (i : ℕ) (within : i < ht.ht_size)
      (vacant : is_vacant (get_or ht.ht_vec i empty) ≡ true) where
    in_vec : i < length ht.ht_vec
    in_vec = omega (arith, within, order.long)

    was_there :
        (j : ℕ) (b : A)
        → get_or (set ht.ht_vec i deleted) j empty ≡ item b
        → get_or ht.ht_vec j empty ≡ item b
    was_there j b h = elim (item_after ht.ht_vec i deleted in_vec j b h) [
      | inl (_, e) ↦ cc
      | inr (_, g) ↦ g
    ]

    pub InOrder-mark :
        (fill lookups collisions spare : ℕ)
        → spare < ht.ht_size
        → spare ≢ order.free
        → get_or ht.ht_vec spare empty ≡ empty
        → InOrder keys k (changed i deleted fill lookups collisions ht)
    InOrder-mark fill lookups collisions spare l other e =
        let (f, f_within, f_free) = still_free keys lawful k ht order i spare deleted l other e in
        record {
          sized = record { few = order.sized.few; power = order.sized.power };
          long = length-set ht.ht_vec i deleted ∙ order.long;
          reached = λ j b h.
              still-Reached ht.ht_vec i deleted in_vec keys ht.ht_size mark-ne-empty b j
                (order.reached j b (was_there j b h));
          single = λ j j' b c h h'. order.single j j' b c (was_there j b h) (was_there j' c h');
          free = f;
          free_within = f_within;
          is_free = f_free;
        }

    -- A mark in a vacant slot changes nothing that is found.
    pub lookup-mark : (q : A) → lookup keys q (set ht.ht_vec i deleted) ≡ lookup keys q ht.ht_vec
    lookup-mark q = elim (Option-cases (lookup keys q ht.ht_vec)) [
      | inl none_before ↦
          lookup-none keys q (set ht.ht_vec i deleted)
            (λ j b h. lookup-eq-none keys q ht.ht_vec none_before j b (was_there j b h))
          ∙ sym none_before
      | inr (b, found) ↦
          let (j, g, mb) = lookup-eq-some keys q ht.ht_vec b found in
          let apart : i ≢ j = λ here. not_vacant b (
            subst (λ s. is_vacant s ≡ true) (ap (λ n. get_or ht.ht_vec n empty) here ∙ g) vacant) in
          lookup-at keys q (set ht.ht_vec i deleted) j b
            (get_or-set_ne ht.ht_vec i j deleted empty apart ∙ g) mb
            (λ j' b' h' m'. only keys lawful k ht order q j b g mb j' b' (was_there j' b' h') m')
          ∙ sym found
    ]
