-- ===== src/Darray/Cells.antt =====
-- The cells of an array: what a read sees after a write, a cut or a loop of copies.
use a2ps.Prelude.{
  ℕ, zero, suc, min, ◌+◌, ◌-◌, ◌≤◌, ◌<◌, ◌≡◌, refl, ◌∙◌, ◌&&◌, List, [], ◌∷◌, ◌++◌, ltb, leb, ◌==◌,
  if◌then◌else◌, length, get_or, set, take, replicate, length-append, length-set, length-replicate,
  arith,
}
use a2ps.Darray.{realloc, shift_up, shift_down, copy, move_up}

pub length-take_min {ℓ} :
    {A : Type ℓ} (n : ℕ) (xs : List A) → length (take n xs) ≡ min n (length xs)
length-take_min zero xs = omega arith
length-take_min (suc n) [] = omega arith
length-take_min (suc n) (x ∷ xs) = omega (arith, length-take_min n xs)

module _ {A : Type 0} (d : A) where
  pub get_or-set :
      (xs : List A) (i j : ℕ) (v : A)
      → get_or (set xs i v) j d ≡ (if i == j && ltb i (length xs) then v else get_or xs j d)
  get_or-set [] i j v = ground arith
  get_or-set (x ∷ xs) zero zero v = ground arith
  get_or-set (x ∷ xs) zero (suc j) v = ground arith
  get_or-set (x ∷ xs) (suc i) zero v = ground arith
  get_or-set (x ∷ xs) (suc i) (suc j) v = ground (arith, get_or-set xs i j v)

  pub get_or-take :
      (n : ℕ) (xs : List A) (i : ℕ)
      → get_or (take n xs) i d ≡ (if ltb i n then get_or xs i d else d)
  get_or-take zero xs i = ground arith
  get_or-take (suc n) [] i = ground arith
  get_or-take (suc n) (x ∷ xs) zero = ground arith
  get_or-take (suc n) (x ∷ xs) (suc i) = ground (arith, get_or-take n xs i)

  pub get_or-append :
      (xs ys : List A) (i : ℕ)
      → get_or (xs ++ ys) i d
        ≡ (if ltb i (length xs) then get_or xs i d else get_or ys (i - length xs) d)
  get_or-append [] ys i = ground arith
  get_or-append (x ∷ xs) ys zero = ground arith
  get_or-append (x ∷ xs) ys (suc i) = ground (arith, get_or-append xs ys i)

  pub get_or_ext :
      (xs ys : List A)
      → length xs ≡ length ys
      → ((i : ℕ) → i < length xs → get_or xs i d ≡ get_or ys i d)
      → xs ≡ ys
  get_or_ext [] [] e h = refl
  get_or_ext [] (y ∷ ys) e h = absurd (omega arith)
  get_or_ext (x ∷ xs) [] e h = absurd (omega arith)
  get_or_ext (x ∷ xs) (y ∷ ys) e h =
      let tails = get_or_ext xs ys (omega arith) (λ i k. h (suc i) (omega arith)) in
      let heads : x ≡ y = h 0 (omega arith) in cc

  pub length-realloc : (n : ℕ) (xs : List A) → length (realloc d xs n) ≡ n
  length-realloc n xs = omega (
    arith,
    length-append (take n xs) (replicate (n - length xs) d),
    length-replicate (n - length xs) d,
    length-take_min n xs,
  )

  pub get_or-realloc :
      (n : ℕ) (xs : List A) (i : ℕ)
      → i < n
      → i < length xs
      → get_or (realloc d xs n) i d ≡ get_or xs i d
  get_or-realloc n xs i h l = ground (
    arith,
    get_or-append (take n xs) (replicate (n - length xs) d) i,
    get_or-take n xs i,
    length-take_min n xs,
  )

  pub take-realloc :
      (k n : ℕ) (xs : List A) → k ≤ n → k ≤ length xs → take k (realloc d xs n) ≡ take k xs
  take-realloc k n xs h l =
      get_or_ext (take k (realloc d xs n)) (take k xs)
        (omega
          (arith, length-take_min k (realloc d xs n), length-take_min k xs, length-realloc n xs))
        (λ i m. ground (
          arith,
          get_or-take k (realloc d xs n) i,
          get_or-take k xs i,
          get_or-realloc n xs i,
          length-take_min k (realloc d xs n),
          length-realloc n xs,
        ))

  pub get_or-shift_up :
      (w r : ℕ) (xs : List A) (j : ℕ)
      → w + r < length xs
      → get_or (shift_up d w r xs) j d
        ≡ (if ltb w j && leb j (w + r) then get_or xs (j - 1) d else get_or xs j d)
  unfolding shift_up
  get_or-shift_up w zero xs j h = ground arith
  get_or-shift_up w (suc r) xs j h = ground (
    arith,
    get_or-shift_up w r (set xs (w + suc r) (get_or xs (w + r) d)) j,
    length-set xs (w + suc r) (get_or xs (w + r) d),
    get_or-set xs (w + suc r) j (get_or xs (w + r) d),
    get_or-set xs (w + suc r) (j - 1) (get_or xs (w + r) d),
  )

  pub length-shift_up : (w r : ℕ) (xs : List A) → length (shift_up d w r xs) ≡ length xs
  unfolding shift_up
  length-shift_up w zero xs = refl
  length-shift_up w (suc r) xs = length-shift_up w r _ ∙ length-set xs (w + suc r) _

  pub length-shift_down : (w r : ℕ) (xs : List A) → length (shift_down d w r xs) ≡ length xs
  unfolding shift_down
  length-shift_down w zero xs = refl
  length-shift_down w (suc r) xs = length-shift_down (suc w) r _ ∙ length-set xs w _

  pub length-copy : (at i r : ℕ) (from xs : List A) → length (copy d at i r from xs) ≡ length xs
  unfolding copy
  length-copy at i zero from xs = refl
  length-copy at i (suc r) from xs = length-copy at (suc i) r from _ ∙ length-set xs (at + i) _

  pub length-move_up : (by r : ℕ) (xs : List A) → length (move_up d by r xs) ≡ length xs
  unfolding move_up
  length-move_up by zero xs = refl
  length-move_up by (suc r) xs = length-move_up by r _ ∙ length-set xs (r + by) _

  pub get_or-shift_down :
      (w r : ℕ) (xs : List A) (j : ℕ)
      → w + r < length xs
      → get_or (shift_down d w r xs) j d
        ≡ (if leb w j && ltb j (w + r) then get_or xs (suc j) d else get_or xs j d)
  unfolding shift_down
  get_or-shift_down w zero xs j h = ground arith
  get_or-shift_down w (suc r) xs j h = ground (
    arith,
    get_or-shift_down (suc w) r (set xs w (get_or xs (suc w) d)) j,
    length-set xs w (get_or xs (suc w) d),
    get_or-set xs w j (get_or xs (suc w) d),
    get_or-set xs w (suc j) (get_or xs (suc w) d),
  )

  pub get_or-copy :
      (at i r : ℕ) (from xs : List A) (j : ℕ)
      → at + i + r ≤ length xs
      → get_or (copy d at i r from xs) j d
        ≡ (if leb (at + i) j && ltb j (at + i + r) then get_or from (j - at) d else get_or xs j d)
  unfolding copy
  get_or-copy at i zero from xs j h = ground arith
  get_or-copy at i (suc r) from xs j h = ground (
    arith,
    get_or-copy at (suc i) r from (set xs (at + i) (get_or from i d)) j,
    length-set xs (at + i) (get_or from i d),
    get_or-set xs (at + i) j (get_or from i d),
  )

  pub get_or-move_up :
      (by r : ℕ) (xs : List A) (j : ℕ)
      → r + by ≤ length xs
      → get_or (move_up d by r xs) j d
        ≡ (if leb by j && ltb j (by + r) then get_or xs (j - by) d else get_or xs j d)
  unfolding move_up
  get_or-move_up by zero xs j h = ground arith
  get_or-move_up by (suc r) xs j h = ground (
    arith,
    get_or-move_up by r (set xs (r + by) (get_or xs r d)) j,
    length-set xs (r + by) (get_or xs r d),
    get_or-set xs (r + by) j (get_or xs r d),
    get_or-set xs (r + by) (j - by) (get_or xs r d),
  )
