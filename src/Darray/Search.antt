-- ===== src/Darray/Search.antt =====
-- da_where and da_includes find the first equal element, da_is_sorted and the comparisons look at
-- every element in use.
use a2ps.Prelude.{
  ℕ, zero, suc, ◌+◌, ◌-◌, ◌≤◌, ◌<◌, ◌≡◌, refl, ◌↔◌, ◌⊎◌, inl, inr, Bool, true, false, Bool-cases,
  ==_iff, ◌==◌, not, none, some, arith,
}
use a2ps.Darray.{Darray, is_eq, is_lt}
use a2ps.Darray.Scan.{item, is_sorted_from, da_is_sorted, where_from, da_where, da_includes}

module _ {A : Type 0} (arr : Darray A) (stuff : A) where
  abbrev pub Hit : ℕ → Type 0
  Hit i = is_eq (arr.cmp (item arr i) stuff) ≡ true

  -- `i` is the first hit from `lo` on.
  abbrev pub FirstHit : ℕ → ℕ → Type 0
  FirstHit lo i = (lo ≤ i) × Hit i × ((j : ℕ) → lo ≤ j → j < i → ¬ (Hit j))

  abbrev pub NoHit : ℕ → ℕ → Type 0
  NoHit lo hi = (j : ℕ) → lo ≤ j → j < hi → ¬ (Hit j)

  NoHit-earlier :
      (i hi : ℕ) → is_eq (arr.cmp (item arr i) stuff) ≡ false → NoHit (suc i) hi → NoHit i hi
  NoHit-earlier i hi miss n j h k hit = elim (Bool-cases (i == j)) [
    | inl same ↦ let e : i ≡ j = (==_iff i j).0 same in cc
    | inr other ↦ n j (ground arith) k hit
  ]

  where_from_lem :
      (i r : ℕ)
      → ((k : ℕ) × (where_from arr stuff i r ≡ some k) × (k < i + r) × FirstHit i k)
        ⊎ ((where_from arr stuff i r ≡ none) × NoHit i (i + r))
  unfolding where_from
  where_from_lem i zero = inr (refl, λ j h k. absurd (omega arith))
  where_from_lem i (suc r) = elim (Bool-cases (is_eq (arr.cmp (item arr i) stuff))) [
    | inl hit ↦ inl (i, rw hit, omega arith, (omega arith, hit, λ j h k. absurd (omega arith)))
    | inr miss ↦ elim (where_from_lem (suc i) r) [
      | inl (k, e, b, f) ↦
          inl (k, rw miss e, omega arith, (omega arith, f.1, NoHit-earlier i k miss f.2))
      | inr (e, n) ↦
          inr (rw miss e, NoHit-earlier i (i + suc r) miss (λ j h k. n j h (omega arith)))
    ]
  ]

  -- da_where returns the index of the first element in use that compares equal, and then
  -- da_includes is true; if no element in use does, there is no index and da_includes is false.
  pub da_where-FirstHit :
      ((k : ℕ) × (da_where arr stuff ≡ some k)
        × (da_includes arr stuff ≡ true)
        × (k < arr.len)
        × FirstHit 0 k)
      ⊎ ((da_where arr stuff ≡ none) × (da_includes arr stuff ≡ false) × NoHit 0 arr.len)
  unfolding da_where da_includes
  da_where-FirstHit = elim (where_from_lem 0 arr.len) [
    | inl (k, e, b, f) ↦ inl (k, e, rw e, omega arith, f)
    | inr (e, n) ↦ inr (e, rw e, λ j h k. n j h (omega arith))
  ]

-- Some place from `lo` up to `hi` fails the test, or all pass it.
module _ (test : ℕ → Bool) where
  abbrev pub AllPass : ℕ → ℕ → Type 0
  AllPass lo hi = (j : ℕ) → lo ≤ j → j < hi → test j ≡ true

  AllPass-earlier : (i hi : ℕ) → test i ≡ true → AllPass (suc i) hi → AllPass i hi
  AllPass-earlier i hi here n j h k = elim (Bool-cases (i == j)) [
    | inl same ↦ let e : i ≡ j = (==_iff i j).0 same in cc
    | inr other ↦ n j (ground arith) k
  ]

module _ {A : Type 0} (arr : Darray A) where
  -- Two neighbours are in order.
  abbrev pub in_order : ℕ → Bool
  in_order i = not (is_lt (arr.cmp (item arr i) (item arr (i - 1))))

  is_sorted_from→AllPass : (i r : ℕ) → is_sorted_from arr i r ≡ true → AllPass in_order i (i + r)
  unfolding is_sorted_from
  is_sorted_from→AllPass i zero e = λ j h k. absurd (omega arith)
  is_sorted_from→AllPass i (suc r) e =
      elim (Bool-cases (is_lt (arr.cmp (item arr i) (item arr (i - 1))))) [
        | inl down ↦ cc (rw down at e)
        | inr up ↦
            AllPass-earlier in_order i (i + suc r) (rw up)
              (λ j h k. is_sorted_from→AllPass (suc i) r (rw up at e) j h (omega arith))
      ]

  AllPass→is_sorted_from : (i r : ℕ) → AllPass in_order i (i + r) → is_sorted_from arr i r ≡ true
  unfolding is_sorted_from
  AllPass→is_sorted_from i zero p = refl
  AllPass→is_sorted_from i (suc r) p = ground (
    arith,
    p i (omega arith) (omega arith),
    AllPass→is_sorted_from (suc i) r (λ j h k. p j (omega arith) (omega arith)),
  )

  -- da_is_sorted is true exactly when no element in use compares less than the one before it.
  pub da_is_sorted_iff : (da_is_sorted arr ≡ true) ↔ AllPass in_order 1 arr.len
  unfolding da_is_sorted
  da_is_sorted_iff = (
    λ e j h k. is_sorted_from→AllPass 1 (arr.len - 1) e j h (omega arith),
    λ p. AllPass→is_sorted_from 1 (arr.len - 1) (λ j h k. p j h (omega arith)),
  )
