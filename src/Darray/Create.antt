-- ===== src/Darray/Create.antt =====
-- da_new, da_resize and da_clone.
use a2ps.Prelude.{
  ℕ, zero, suc, ap, ◌∷◌, replicate, ◌+◌, ◌<◌, ◌≡◌, refl, ◌⊎◌, inl, inr, Bool-cases, List, [], take,
  length-replicate, ◌==◌, ==_iff, ltb, not, ◌&&◌, false, arith, tests,
}
use Prim.Native.Nat.{Ordering}
use a2ps.Prelude.Outcome.{ok, exit, invalid_size, invalid_increment}
use a2ps.Darray.{Growth, Darray, da_new, da_resize, da_clone, is_steady}
use a2ps.Darray.Cells.{length-take_min, length-realloc, take-realloc}
use a2ps.Darray.Bounds.{IsValid, view}
use a2ps.Darray.Contents.{Holds}

module _ {A : Type 0} where
  -- da_new exits for the size 0, and for the increment 0 unless the array is of constant size;
  -- else it returns a valid array with no elements.
  pub da_new-Holds :
      (size : ℕ) (growth : Growth) (increment : ℕ) (cmp : A → A → Ordering) (fresh : A)
      → ((size ≡ 0) × (da_new size growth increment cmp fresh ≡ exit invalid_size))
        ⊎ ((increment ≡ 0)
            × (is_steady growth ≡ false)
            × (da_new size growth increment cmp fresh ≡ exit invalid_increment))
        ⊎ ((arr : Darray A) × (da_new size growth increment cmp fresh ≡ ok arr) × Holds arr [])
  unfolding da_new
  da_new-Holds size growth increment cmp fresh = elim (Bool-cases (size == 0)) [
    | inl none_given ↦ inl ((==_iff size 0).0 none_given, rw none_given)
    | inr given ↦ elim (Bool-cases (increment == 0 && not (is_steady growth))) [
      | inl stuck ↦ inr (inl (ground arith, ground arith, rw (given, stuck)))
      | inr grows ↦
          let created : Darray A = record {
            size = size;
            original_size = size;
            growth = growth;
            increment = increment;
            len = 0;
            content = replicate size fresh;
            cmp = cmp;
            fresh = fresh;
          } in
          inr (
            inr (
              created,
              rw (given, grows),
              (
                record {
                  fits = omega arith;
                  backed = omega (arith, length-replicate size fresh);
                  sized = ground arith;
                },
                refl,
              ),
            ))
    ]
  ]

  -- da_resize keeps the elements and the validity, whatever size it is given.
  pub da_resize-Holds :
      (arr : Darray A) (size : ℕ) → IsValid arr → Holds (da_resize arr size) (view arr)
  unfolding da_resize
  da_resize-Holds arr size v = elim (Bool-cases (ltb (arr.len + 1) size)) [
    | inl larger ↦ rw larger (
      record {
        fits = omega tests;
        backed = omega (arith, length-realloc arr.fresh size arr.content);
        sized = omega tests;
      },
      take-realloc arr.fresh arr.len size arr.content (omega tests)
          (omega (arith, v.fits, v.backed)),
    )
    | inr smaller ↦ rw smaller (v, refl)
  ]

  take-take : (n : ℕ) (xs : List A) → take n (take n xs) ≡ take n xs
  take-take zero xs = refl
  take-take (suc n) [] = refl
  take-take (suc n) (x ∷ xs) = ap (◌∷◌ x) (take-take n xs)

  -- The copy of a valid array has the same elements. It is not valid if the original has a free
  -- cell: it claims the size of the original, and is allocated for the elements only.
  pub da_clone_short :
      (arr : Darray A)
      → IsValid arr
      → arr.len < arr.size
      → (view (da_clone arr) ≡ view arr) × ¬ (IsValid (da_clone arr))
  unfolding da_clone
  da_clone_short arr v h = (
    take-take arr.len arr.content,
    λ w. absurd (omega (arith, w.backed, length-take_min arr.len arr.content, v.fits, v.backed)),
  )
