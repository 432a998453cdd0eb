-- ===== src/Darray/Unique.antt =====
-- da_unique against the removal of doubles from a list.
use a2ps.Prelude.{
  ℕ, zero, suc, ◌+◌, ◌-◌, ◌≤◌, ◌<◌, ◌≡◌, refl, ap, ◌∙◌, sym, inl, inr, Bool-cases, List, [], ◌∷◌,
  ◌++◌, length, length-append, get_or, lt→ltb, le→ltb, lt→leb, append_assoc, if◌then◌else◌, arith,
}
use Prim.Native.Nat.{Ordering}
use a2ps.Prelude.Outcome.{ok}
use a2ps.Darray.{Darray, is_eq, da_remove_at, removed}
use a2ps.Darray.Scan.{item, unique_from, da_unique}
use a2ps.Darray.Cells.{get_or-take, length-take_min}
use a2ps.Darray.Edits.{remove_at}
use a2ps.Darray.Bounds.{IsValid, view}
use a2ps.Darray.Contents.{Holds, removed-Holds}

module _ {A : Type 0} (cmp : A → A → Ordering) where
  -- The elements that are not equal to the element kept before them, which is `x` at first
  pub dedup_after : A → List A → List A
  dedup_after x [] = []
  dedup_after x (y ∷ ys) =
      let next = y ∷ dedup_after y ys in
      let same = dedup_after x ys in if is_eq (cmp x y) then same else next

  pub dedup : List A → List A
  dedup [] = []
  dedup (x ∷ xs) = x ∷ dedup_after x xs

module _ {A : Type 0} where
  pub get_or-length :
      (d : A) (pre : List A) (x : A) (rest : List A) → get_or (pre ++ x ∷ rest) (length pre) d ≡ x
  get_or-length d [] x rest = refl
  get_or-length d (y ∷ pre) x rest = get_or-length d pre x rest

  view-item :
      (arr : Darray A) (pre : List A) (x : A) (rest : List A)
      → view arr ≡ pre ++ x ∷ rest
      → length pre < arr.len
      → item arr (length pre) ≡ x
  view-item arr pre x rest e h = ground (
    arith,
    get_or-take arr.fresh arr.len arr.content (length pre),
    ap (λ xs. get_or xs (length pre) arr.fresh) e,
    get_or-length arr.fresh pre x rest,
  )

  remove_at-append :
      (pre : List A) (x : A) (rest : List A)
      → remove_at (pre ++ x ∷ rest) (length pre) ≡ pre ++ rest
  remove_at-append [] x rest = refl
  remove_at-append (y ∷ pre) x rest = ap (◌∷◌ y) (remove_at-append pre x rest)

  pub length-view : (arr : Darray A) → IsValid arr → length (view arr) ≡ arr.len
  length-view arr v = omega (arith, length-take_min arr.len arr.content, v.fits, v.backed)

  length-snoc : (pre : List A) (x : A) → length (pre ++ x ∷ []) ≡ length pre + 1
  length-snoc pre x = length-append pre (x ∷ [])

  unique_from_stops : (fuel c : ℕ) (arr : Darray A) → arr.len ≤ c → unique_from fuel c arr ≡ ok arr
  unfolding unique_from
  unique_from_stops zero c arr h = refl
  unique_from_stops (suc fuel) c arr h = rw (le→ltb c arr.len h)

  -- What the loop at `c` leaves of an array whose elements are `pre`, `x` and `rest`, with `x`
  -- before `c`
  abbrev Leaves : ℕ → ℕ → Darray A → List A → A → List A → Type 0
  Leaves fuel c arr pre x rest =
      (arr' : Darray A) × (unique_from fuel c arr ≡ ok arr')
      × Holds arr' (pre ++ x ∷ dedup_after arr.cmp x rest)

  module _ (fuel c : ℕ) (arr : Darray A) (pre : List A) (x : A) (v : IsValid arr)
      (p : c ≡ length pre + 1) where
    at_end : view arr ≡ pre ++ x ∷ [] → unique_from fuel c arr ≡ ok arr
    at_end e =
        unique_from_stops fuel c arr
          (omega (arith, length-view arr v, ap length e, length-snoc pre x))

    module _ (y : A) (ys : List A) (e : view arr ≡ pre ++ x ∷ y ∷ ys) where
      in_use : c < arr.len
      in_use = omega (arith, length-view arr v, ap length e, length-append pre (x ∷ y ∷ ys))

      regroup : view arr ≡ (pre ++ x ∷ []) ++ y ∷ ys
      regroup = e ∙ sym (append_assoc pre (x ∷ []) (y ∷ ys))

      kept_item : item arr (c - 1) ≡ x
      kept_item =
          let k : c - 1 ≡ length pre = omega arith in
          rw k (view-item arr pre x (y ∷ ys) e (omega (arith, in_use)))

      next_item : item arr c ≡ y
      next_item =
          let k : c ≡ length (pre ++ x ∷ []) = omega (arith, length-snoc pre x) in
          rw k
            (view-item arr (pre ++ x ∷ []) y ys regroup (omega (arith, in_use, length-snoc pre x)))

      after_removal : Holds (removed arr c) (pre ++ x ∷ ys)
      after_removal =
          let r = removed-Holds arr v c in_use in
          let k : c ≡ length (pre ++ x ∷ []) = omega (arith, length-snoc pre x) in
          (
            r.0,
            r.1
                ∙ ap (λ xs. remove_at xs c) regroup
                ∙ ap (remove_at ((pre ++ x ∷ []) ++ y ∷ ys)) k
                ∙ remove_at-append (pre ++ x ∷ []) y ys
                ∙ append_assoc pre (x ∷ []) ys,
          )

      remove_lem : da_remove_at arr c ≡ ok (removed arr c)
      unfolding da_remove_at
      remove_lem = rw (lt→leb c arr.len in_use)

  unique_from_lem :
      (fuel c : ℕ) (arr : Darray A) (pre : List A) (x : A) (rest : List A)
      → IsValid arr
      → view arr ≡ pre ++ x ∷ rest
      → c ≡ length pre + 1
      → length rest ≤ fuel
      → Leaves fuel c arr pre x rest
  unfolding unique_from dedup_after
  unique_from_lem fuel c arr pre x [] v e p h = (arr, at_end fuel c arr pre x v p e, (v, e))
  unique_from_lem zero c arr pre x (y ∷ ys) v e p h = elim h [ ]
  unique_from_lem (suc fuel) c arr pre x (y ∷ ys) v e p h =
      rw
        (
          lt→ltb c arr.len (in_use fuel c arr pre x v p y ys e),
          kept_item fuel c arr pre x v p y ys e,
          next_item fuel c arr pre x v p y ys e,
        )
        (elim (Bool-cases (is_eq (arr.cmp x y))) [
          | inl double ↦
              let r = after_removal fuel c arr pre x v p y ys e in
              rw (double, remove_lem fuel c arr pre x v p y ys e)
                (unique_from_lem fuel c (removed arr c) pre x ys r.0 r.1 p (omega arith))
          | inr new ↦
              let e' = regroup fuel c arr pre x v p y ys e in
              let (arr', q, g) =
                unique_from_lem fuel (suc c) arr (pre ++ x ∷ []) y ys v e'
                  (omega (arith, length-snoc pre x)) (omega arith) in
              rw new (arr', q, (g.0, g.1 ∙ append_assoc pre (x ∷ []) _))
        ])

  -- da_unique ends, keeps the array valid, and leaves the first of each run of elements that
  -- compare equal to it.
  pub da_unique-dedup :
      (arr : Darray A)
      → IsValid arr
      → (arr' : Darray A) × (da_unique arr ≡ ok arr') × Holds arr' (dedup arr.cmp (view arr))
  unfolding da_unique dedup
  da_unique-dedup arr v = from (view arr) refl
    where
      from :
          (xs : List A)
          → view arr ≡ xs
          → (arr' : Darray A) × (unique_from arr.len 1 arr ≡ ok arr')
            × Holds arr' (dedup arr.cmp xs)
      from [] e = (
        arr,
        unique_from_stops arr.len 1 arr (omega (arith, length-view arr v, ap length e)),
        (v, e),
      )
      from (x ∷ xs) e =
          unique_from_lem arr.len 1 arr [] x xs v e (omega arith)
            (omega (arith, length-view arr v, ap length e))
