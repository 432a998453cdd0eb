-- ===== src/Darray/Merging.antt =====
-- The merging of lists, and that the steps of da_merge do not change what comes out.
use a2ps.Prelude.{◌≡◌, refl, sym, Bool, true, false, not, List, [], ◌∷◌, some, if◌then◌else◌}
use Prim.Native.Nat.{Ordering}
use a2ps.Darray.{is_eq, is_lt}
use a2ps.Darray.Counter.{head}
use a2ps.Darray.Merge.{Policy, da_1_wins, da_2_wins, stays, doubles, enters}

not-true : (b : Bool) → not b ≡ true → b ≡ false
not-true true h = cc
not-true false h = refl

module _ {A : Type 0} (cmp : A → A → Ordering) where
  -- The smaller head comes first. Of equal heads the policy da_1_wins drops the second, and
  -- da_2_wins lets the first pass.
  unfoldable pub merge : Policy → List A → List A → List A
  merge policy [] ys = ys
  merge policy (x ∷ xs) [] = x ∷ xs
  merge da_1_wins (x ∷ xs) (y ∷ ys) =
      let first = x ∷ merge da_1_wins xs (y ∷ ys) in
      let second = y ∷ merge da_1_wins (x ∷ xs) ys in
      let drops = merge da_1_wins (x ∷ xs) ys in
      if is_lt (cmp x y) then first else if is_eq (cmp x y) then drops else second
  merge da_2_wins (x ∷ xs) (y ∷ ys) =
      let first = x ∷ merge da_2_wins xs (y ∷ ys) in
      let second = y ∷ merge da_2_wins (x ∷ xs) ys in
      if is_lt (cmp x y) then first else if is_eq (cmp x y) then first else second

  -- Each element compares less than the next.
  abbrev pub Ascends : List A → Type 0
  Ascends [] = Unit
  Ascends (y ∷ []) = Unit
  Ascends (y ∷ z ∷ zs) = (is_lt (cmp y z) ≡ true) × Ascends (z ∷ zs)

  pub Ascends-tail : (y : A) (ys : List A) → Ascends (y ∷ ys) → Ascends ys
  Ascends-tail y [] h = tt
  Ascends-tail y (z ∷ zs) h = h.1

  pub lt-not_eq : (o : Ordering) → is_lt o ≡ true → is_eq o ≡ false
  lt-not_eq Ordering.lt h = refl
  lt-not_eq Ordering.eq h = cc
  lt-not_eq Ordering.gt h = cc

  eq-not_lt : (o : Ordering) → is_eq o ≡ true → is_lt o ≡ false
  eq-not_lt Ordering.eq h = refl
  eq-not_lt Ordering.lt h = cc
  eq-not_lt Ordering.gt h = cc

  -- The three steps do not change what comes out.
  pub merge-leaves :
      (policy : Policy) (x : A) (xs ys : List A)
      → stays cmp (some x) (head ys) ≡ true
      → merge policy (x ∷ xs) ys ≡ x ∷ merge policy xs ys
  unfolding merge
  merge-leaves policy x [] [] h = refl
  merge-leaves policy x (z ∷ zs) [] h = refl
  merge-leaves da_1_wins x xs (y ∷ ys) h = rw h refl
  merge-leaves da_2_wins x xs (y ∷ ys) h = rw h refl

  pub merge-drops :
      (x y : A) (xs ys : List A)
      → is_eq (cmp x y) ≡ true
      → merge da_1_wins (x ∷ xs) (y ∷ ys) ≡ merge da_1_wins (x ∷ xs) ys
  unfolding merge
  merge-drops x y xs ys h = rw (eq-not_lt (cmp x y) h, h) refl

  pub merge-passes :
      (x y : A) (xs ys : List A)
      → is_eq (cmp x y) ≡ true
      → merge da_2_wins (x ∷ xs) (y ∷ ys) ≡ x ∷ merge da_2_wins xs (y ∷ ys)
  unfolding merge
  merge-passes x y xs ys h = rw (eq-not_lt (cmp x y) h, h) refl

  -- An element that was taken stands before what follows it in its list.
  merge-taken :
      (policy : Policy) (y : A) (post ys : List A)
      → Ascends (y ∷ ys)
      → merge policy (y ∷ post) ys ≡ y ∷ merge policy post ys
  merge-taken policy y post [] h = merge-leaves policy y post [] refl
  merge-taken policy y post (z ∷ zs) h = merge-leaves policy y post (z ∷ zs) h.0

  pub merge-takes :
      (policy : Policy) (y : A) (post ys : List A)
      → enters cmp (head post) (some y) ≡ true
      → doubles cmp (head post) (some y) ≡ false
      → Ascends (y ∷ ys)
      → merge policy post (y ∷ ys) ≡ merge policy (y ∷ post) ys
  unfolding merge
  merge-takes policy y [] ys e d h = sym (merge-taken policy y [] ys h)
  merge-takes da_1_wins y (x ∷ xs) ys e d h =
      rw (not-true (is_lt (cmp x y)) e, d) (sym (merge-taken da_1_wins y (x ∷ xs) ys h))
  merge-takes da_2_wins y (x ∷ xs) ys e d h =
      rw (not-true (is_lt (cmp x y)) e, d) (sym (merge-taken da_2_wins y (x ∷ xs) ys h))

  pub merge_nil : (policy : Policy) (xs : List A) → merge policy xs [] ≡ xs
  unfolding merge
  merge_nil policy [] = refl
  merge_nil policy (x ∷ xs) = refl
