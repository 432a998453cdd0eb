-- ===== src/Darray/Scan.antt =====
-- The routines of darray.c that read an array from its beginning: comparisons, searches and the
-- removal of doubles.
use a2ps.Prelude.{
  ℕ, zero, suc, ◌-◌, Bool, true, false, not, Option, none, some, ltb, ◌==◌, if◌then◌else◌, get_or,
}
use a2ps.Prelude.Outcome.{Outcome, ok, ◌>>=◌}
use a2ps.Darray.{Darray, is_eq, is_lt, da_remove_at}

-- `da_where (..) != -1`
abbrev pub is_found : Option ℕ → Bool
is_found none = false
is_found (some i) = true

module _ {A : Type 0} where
  abbrev pub item : Darray A → ℕ → A
  item arr i = get_or arr.content i arr.fresh

  -- `for (i = 1; i < len; i++)`, from `i` on for `r` rounds
  unfoldable pub is_sorted_from : Darray A → ℕ → ℕ → Bool
  is_sorted_from arr i zero = true
  is_sorted_from arr i (suc r) =
      let rest = is_sorted_from arr (suc i) r in
      if is_lt (arr.cmp (item arr i) (item arr (i - 1))) then false else rest

  unfoldable pub da_is_sorted : Darray A → Bool
  da_is_sorted arr = is_sorted_from arr 1 (arr.len - 1)

  -- The loop of da_equal and da_cmp_equal; `same` tells two elements equal.
  unfoldable pub equal_from : (A → A → Bool) → Darray A → Darray A → ℕ → ℕ → Bool
  equal_from same ar1 ar2 i zero = true
  equal_from same ar1 ar2 i (suc r) =
      let rest = equal_from same ar1 ar2 (suc i) r in
      if not (same (item ar1 i) (item ar2 i)) then false else rest

  -- `same` is the equality of pointers.
  unfoldable pub da_equal : (A → A → Bool) → Darray A → Darray A → Bool
  da_equal same ar1 ar2 =
      if not (ar1.len == ar2.len) then false else equal_from same ar1 ar2 0 ar1.len

  unfoldable pub da_cmp_equal : Darray A → Darray A → Bool
  da_cmp_equal ar1 ar2 =
      if not (ar1.len == ar2.len)
      then false
      else equal_from (λ x y. is_eq (ar1.cmp x y)) ar1 ar2 0 ar1.len

  unfoldable pub where_from : Darray A → A → ℕ → ℕ → Option ℕ
  where_from arr stuff i zero = none
  where_from arr stuff i (suc r) =
      let rest = where_from arr stuff (suc i) r in
      if is_eq (arr.cmp (item arr i) stuff) then some i else rest

  -- `none` is the result -1.
  unfoldable pub da_where : Darray A → A → Option ℕ
  da_where arr stuff = where_from arr stuff 0 arr.len

  unfoldable pub da_includes : Darray A → A → Bool
  da_includes arr stuff = is_found (da_where arr stuff)

  -- `while (c < len)`: a round advances `c` or takes an element out, so `len` rounds are enough.
  unfoldable pub unique_from : ℕ → ℕ → Darray A → Outcome (Darray A)
  unique_from zero c arr = ok arr
  unique_from (suc fuel) c arr =
      let next = unique_from fuel (suc c) arr in
      let shorter = da_remove_at arr c >>= unique_from fuel c in
      if ltb c arr.len
      then if is_eq (arr.cmp (item arr (c - 1)) (item arr c)) then shorter else next
      else ok arr

  unfoldable pub da_unique : Darray A → Outcome (Darray A)
  da_unique arr = unique_from arr.len 1 arr
