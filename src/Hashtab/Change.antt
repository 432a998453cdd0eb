-- ===== src/Hashtab/Change.antt =====
-- A slot of a table in order is written: an item that was searched for, or a deletion mark.
use a2ps.Prelude.{
  ℕ, zero, suc, ◌<◌, ◌≡◌, ◌≢◌, refl, sym, ◌∙◌, ap, ◌⊎◌, inl, inr, arith, List, [], ◌∷◌, get_or, set,
  length,
}
use a2ps.Hashtab.{Slot, empty, deleted, item, Keys}
use a2ps.Hashtab.Ends.{IsPassed}
use a2ps.Hashtab.Trace.{place, slot_of, Stops, StopsEmpty, StopsFound}
use a2ps.Hashtab.Find.{Reached}

pub index_cases : (i j : ℕ) → (i ≡ j) ⊎ (i ≢ j)
index_cases i j = ground arith

module _ {ℓ} {A : Type ℓ} where
  pub get_or-set_self :
      (xs : List A) (i : ℕ) (v d : A) → i < length xs → get_or (set xs i v) i d ≡ v
  get_or-set_self [] i v d h = absurd (omega arith)
  get_or-set_self (x ∷ xs) zero v d h = refl
  get_or-set_self (x ∷ xs) (suc i) v d h = get_or-set_self xs i v d (omega arith)

  pub get_or-set_ne :
      (xs : List A) (i j : ℕ) (v d : A) → i ≢ j → get_or (set xs i v) j d ≡ get_or xs j d
  get_or-set_ne [] i j v d h = refl
  get_or-set_ne (x ∷ xs) zero zero v d h = absurd (h refl)
  get_or-set_ne (x ∷ xs) zero (suc j) v d h = refl
  get_or-set_ne (x ∷ xs) (suc i) zero v d h = refl
  get_or-set_ne (x ∷ xs) (suc i) (suc j) v d h = get_or-set_ne xs i j v d (λ e. h (ap suc e))

passed-ne-empty {ℓ} :
    {A : Type ℓ} (keys : Keys A) (key : A) (s : Slot A) → IsPassed keys key s → s ≢ empty
passed-ne-empty keys key empty h e = h
passed-ne-empty keys key deleted h e = cc
passed-ne-empty keys key (item a) h e = cc

module _ {ℓ} {A : Type ℓ} (vec : List (Slot A)) (i : ℕ) (s : Slot A) (within : i < length vec) where
  -- A slot that is in use stays so.
  pub still_used :
      s ≢ empty → (j : ℕ) → get_or vec j empty ≢ empty → get_or (set vec i s) j empty ≢ empty
  still_used used j h e = elim (index_cases i j) [
    | inl same ↦ used (
        sym (get_or-set_self vec i s empty within)
        ∙ ap (λ n. get_or (set vec i s) n empty) same
        ∙ e)
    | inr other ↦ h (sym (get_or-set_ne vec i j s empty other) ∙ e)
  ]

  -- An item behind the change was written, or was there.
  pub item_after :
      (j : ℕ) (a : A)
      → get_or (set vec i s) j empty ≡ item a
      → ((i ≡ j) × (s ≡ item a)) ⊎ ((i ≢ j) × (get_or vec j empty ≡ item a))
  item_after j a h = elim (index_cases i j) [
    | inl same ↦ inl (
      same,
      sym (get_or-set_self vec i s empty within) ∙ ap (λ n. get_or (set vec i s) n empty) same ∙ h,
    )
    | inr other ↦ inr (other, sym (get_or-set_ne vec i j s empty other) ∙ h)
  ]

  module _ (keys : Keys A) (size : ℕ) where
    -- What was reached still is.
    pub still-Reached :
        s ≢ empty
        → (a : A) (j : ℕ) → Reached keys vec size a j
        → Reached keys (set vec i s) size a j
    still-Reached used a j (t, p, clear) =
        (t, p, λ t' l. still_used used (place keys vec size a t') (clear t' l))

    -- An item is reached where its search leads to.
    pub now-Reached :
        s ≢ empty → (key : A) → Stops keys vec size key i → Reached keys (set vec i s) size key i
    now-Reached used key st =
        let used_before = λ (t : ℕ) (l : t < st.stop).
          passed-ne-empty keys key (slot_of keys vec size key t) (st.passes t l) in
        now st.stops used_before
      where
        now :
            StopsEmpty keys vec size key i st.stop ⊎ StopsFound keys vec size key i st.stop
            → ((t : ℕ) → t < st.stop → slot_of keys vec size key t ≢ empty)
            → Reached keys (set vec i s) size key i
        now (inl e) before = (
          e.round,
          sym e.taken,
          λ t l. still_used used (place keys vec size key t) (before t (omega arith)),
        )
        now (inr f) before =
            (st.stop, sym f.taken, λ t l. still_used used (place keys vec size key t) (before t l))
