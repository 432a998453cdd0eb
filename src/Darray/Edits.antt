-- ===== src/Darray/Edits.antt =====
-- Insertion into lists and removal from them, and the cells that the loops of darray.c leave.
use a2ps.Prelude.{
  ℕ, zero, suc, ◌+◌, ◌-◌, ◌≤◌, ◌<◌, ◌≡◌, refl, List, [], ◌∷◌, ◌++◌, length, length-append, get_or,
  take, set, length-set, ltb, ◌==◌, if◌then◌else◌, arith,
}
use a2ps.Darray.{shift_up, shift_down, copy, move_up}
use a2ps.Darray.Cells.{
  get_or-set, get_or-take, get_or-append, get_or_ext, get_or-shift_up, get_or-shift_down,
  get_or-copy, get_or-move_up, length-take_min, length-shift_up, length-shift_down, length-copy,
  length-move_up,
}

-- Lists with one element more, or less, at a place
abbrev pub insert_at {ℓ} : {A : Type ℓ} → List A → ℕ → A → List A
insert_at xs zero x = x ∷ xs
insert_at [] (suc i) x = x ∷ []
insert_at (y ∷ xs) (suc i) x = y ∷ insert_at xs i x

abbrev pub remove_at {ℓ} : {A : Type ℓ} → List A → ℕ → List A
remove_at [] i = []
remove_at (y ∷ xs) zero = xs
remove_at (y ∷ xs) (suc i) = y ∷ remove_at xs i

module _ {A : Type 0} where
  length-insert_at : (xs : List A) (w : ℕ) (x : A) → length (insert_at xs w x) ≡ length xs + 1
  length-insert_at [] zero x = refl
  length-insert_at (y ∷ xs) zero x = omega arith
  length-insert_at [] (suc i) x = refl
  length-insert_at (y ∷ xs) (suc i) x = omega (arith, length-insert_at xs i x)

  get_or-insert_at :
      (d : A) (xs : List A) (w : ℕ) (x : A) (j : ℕ)
      → w ≤ length xs
      → get_or (insert_at xs w x) j d
        ≡ (if ltb j w then get_or xs j d else if j == w then x else get_or xs (j - 1) d)
  get_or-insert_at d xs zero x zero h = ground arith
  get_or-insert_at d xs zero x (suc j) h = ground arith
  get_or-insert_at d [] (suc w) x j h = elim h [ ]
  get_or-insert_at d (y ∷ xs) (suc w) x zero h = ground arith
  get_or-insert_at d (y ∷ xs) (suc w) x (suc zero) h =
      ground (arith, get_or-insert_at d xs w x zero)
  get_or-insert_at d (y ∷ xs) (suc w) x (suc (suc j)) h =
      ground (arith, get_or-insert_at d xs w x (suc j))

  length-remove_at : (xs : List A) (w : ℕ) → w < length xs → length (remove_at xs w) + 1 ≡ length xs
  length-remove_at [] w h = elim h [ ]
  length-remove_at (y ∷ xs) zero h = omega arith
  length-remove_at (y ∷ xs) (suc w) h = omega (arith, length-remove_at xs w)

  get_or-remove_at :
      (d : A) (xs : List A) (w j : ℕ)
      → w < length xs
      → get_or (remove_at xs w) j d ≡ (if ltb j w then get_or xs j d else get_or xs (suc j) d)
  get_or-remove_at d [] w j h = elim h [ ]
  get_or-remove_at d (y ∷ xs) zero j h = ground arith
  get_or-remove_at d (y ∷ xs) (suc w) zero h = ground arith
  get_or-remove_at d (y ∷ xs) (suc w) (suc j) h = ground (arith, get_or-remove_at d xs w j)

  get_or-single : (d x : A) (i : ℕ) → get_or (x ∷ []) i d ≡ (if i == 0 then x else d)
  get_or-single d x zero = ground arith
  get_or-single d x (suc i) = ground arith

  -- The cells that da_insert_at leaves
  pub take-insert :
      (d : A) (n w : ℕ) (xs : List A) (x : A)
      → w ≤ n
      → n < length xs
      → take (n + 1) (set (shift_up d w (n - w) xs) w x) ≡ insert_at (take n xs) w x
  take-insert d n w xs x h l =
      get_or_ext d _ _
        (omega (
          arith,
          length-take_min n xs,
          length-take_min (n + 1) (set (shift_up d w (n - w) xs) w x),
          length-insert_at (take n xs) w x,
          length-set (shift_up d w (n - w) xs) w x,
          length-shift_up d w (n - w) xs,
        ))
        (λ i m. ground (
          arith,
          get_or-take d (n + 1) (set (shift_up d w (n - w) xs) w x) i,
          length-take_min (n + 1) (set (shift_up d w (n - w) xs) w x),
          length-take_min n xs,
          get_or-set d (shift_up d w (n - w) xs) w i x,
          length-shift_up d w (n - w) xs,
          get_or-shift_up d w (n - w) xs i,
          get_or-insert_at d (take n xs) w x i,
          get_or-take d n xs i,
          get_or-take d n xs (i - 1),
        ))

  -- The cells that da_remove_at leaves
  pub take-remove :
      (d : A) (n w : ℕ) (xs : List A)
      → w < n
      → n ≤ length xs
      → take (n - 1) (shift_down d w (n - (w + 1)) xs) ≡ remove_at (take n xs) w
  take-remove d n w xs h l =
      get_or_ext d _ _
        (omega (
          arith,
          length-take_min n xs,
          length-take_min (n - 1) (shift_down d w (n - (w + 1)) xs),
          length-remove_at (take n xs) w,
          length-shift_down d w (n - (w + 1)) xs,
        ))
        (λ i m. ground (
          arith,
          get_or-take d (n - 1) (shift_down d w (n - (w + 1)) xs) i,
          length-take_min (n - 1) (shift_down d w (n - (w + 1)) xs),
          length-take_min n xs,
          length-shift_down d w (n - (w + 1)) xs,
          get_or-shift_down d w (n - (w + 1)) xs i,
          get_or-remove_at d (take n xs) w i,
          get_or-take d n xs i,
          get_or-take d n xs (suc i),
        ))

  -- The cells that da_append leaves
  pub take-set :
      (d : A) (n : ℕ) (xs : List A) (x : A)
      → n < length xs
      → take (n + 1) (set xs n x) ≡ take n xs ++ x ∷ []
  take-set d n xs x l =
      get_or_ext d _ _
        (omega (
          arith,
          length-take_min n xs,
          length-take_min (n + 1) (set xs n x),
          length-set xs n x,
          length-append (take n xs) (x ∷ []),
        ))
        (λ i m. ground (
          arith,
          get_or-take d (n + 1) (set xs n x) i,
          length-take_min (n + 1) (set xs n x),
          length-set xs n x,
          length-take_min n xs,
          get_or-set d xs n i x,
          get_or-append d (take n xs) (x ∷ []) i,
          get_or-single d x (i - n),
          get_or-take d n xs i,
        ))

  -- The cells that da_concat leaves
  pub take-concat :
      (d : A) (n k : ℕ) (from xs : List A)
      → n + k ≤ length xs
      → k ≤ length from
      → take (n + k) (copy d n 0 k from xs) ≡ take n xs ++ take k from
  take-concat d n k from xs l h =
      get_or_ext d _ _
        (omega (
          arith,
          length-take_min n xs,
          length-take_min k from,
          length-take_min (n + k) (copy d n 0 k from xs),
          length-copy d n 0 k from xs,
          length-append (take n xs) (take k from),
        ))
        (λ i m. ground (
          arith,
          get_or-take d (n + k) (copy d n 0 k from xs) i,
          length-copy d n 0 k from xs,
          length-take_min (n + k) (copy d n 0 k from xs),
          length-take_min n xs,
          get_or-copy d n 0 k from xs i,
          get_or-append d (take n xs) (take k from) i,
          get_or-take d n xs i,
          get_or-take d k from (i - n),
        ))

  -- The cells that da_prefix leaves
  pub take-prefix :
      (d : A) (n k : ℕ) (from xs : List A)
      → n + k ≤ length xs
      → k ≤ length from
      → take (n + k) (copy d 0 0 k from (move_up d k n xs)) ≡ take k from ++ take n xs
  take-prefix d n k from xs l h =
      get_or_ext d _ _
        (omega (
          arith,
          length-take_min n xs,
          length-take_min k from,
          length-move_up d k n xs,
          length-take_min (n + k) (copy d 0 0 k from (move_up d k n xs)),
          length-copy d 0 0 k from (move_up d k n xs),
          length-append (take k from) (take n xs),
        ))
        (λ i m. ground (
          arith,
          get_or-take d (n + k) (copy d 0 0 k from (move_up d k n xs)) i,
          length-copy d 0 0 k from (move_up d k n xs),
          length-move_up d k n xs,
          length-take_min (n + k) (copy d 0 0 k from (move_up d k n xs)),
          length-take_min k from,
          get_or-copy d 0 0 k from (move_up d k n xs) i,
          get_or-move_up d k n xs i,
          get_or-append d (take k from) (take n xs) i,
          get_or-take d k from i,
          get_or-take d n xs (i - k),
        ))
