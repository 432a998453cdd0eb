-- ===== src/Darray/Doubles.antt =====
-- The second loop of da_merge, for both policies.
use a2ps.Prelude.{
  ℕ, zero, suc, ◌+◌, ◌≤◌, ◌≡◌, ◌⊎◌, refl, sym, ◌∙◌, ap, subst, Bool, true, false, Bool-cases, inl,
  inr, List, [], ◌∷◌, ◌++◌, length, arith, if◌then◌else◌,
}
use Prim.Native.Nat.{Ordering}
use a2ps.Darray.{Darray}
use a2ps.Darray.Counter.{head, Side, next-Side, Between}
use a2ps.Darray.Merge.{Policy, da_1_wins, da_2_wins, doubles, skip_doubles}
use a2ps.Darray.Merging.{merge, Ascends, Ascends-tail, merge-drops, merge-passes}
use a2ps.Darray.Rounds.{Stage, test, test-heads, left_within, pass-Stage, Apart}

none_doubles :
    {A : Type 0} (cmp : A → A → Ordering) (xs ys : List A)
    → (length xs ≡ 0) ⊎ (length ys ≡ 0)
    → doubles cmp (head xs) (head ys) ≡ false
none_doubles cmp [] ys h = refl
none_doubles cmp (x ∷ xs) [] h = refl
none_doubles cmp (x ∷ xs) (y ∷ ys) h = absurd (omega arith)

module _ {A : Type 0} (cmp : A → A → Ordering) (a1 a2 : Darray A) (total : List A) where
  -- With da_1_wins the element of the second array is skipped.
  dropped :
      (c1 c2 : ℕ) (pre post ys : List A)
      → Between cmp a1 c1 pre post
      → Side a2 c2 ys
      → Ascends cmp ys
      → pre ++ merge cmp da_1_wins post ys ≡ total
      → doubles cmp (head post) (head ys) ≡ true
      → Stage cmp da_1_wins a2 total a1 c1 (suc c2)
  dropped c1 c2 pre [] ys l r a v e = cc
  dropped c1 c2 pre (x ∷ post) [] l r a v e = cc
  dropped c1 c2 pre (x ∷ post) (y ∷ ys) l r a v e = record {
    pre = pre;
    post = x ∷ post;
    ys = ys;
    left = l;
    right = next-Side a2 c2 y ys r;
    ascends = Ascends-tail cmp y ys a;
    value = ap (λ z. pre ++ z) (sym (merge-drops cmp x y post ys e)) ∙ v;
  }

  -- With da_2_wins the element of the first array is passed.
  passed :
      (c1 c2 : ℕ) (pre post ys : List A)
      → Between cmp a1 c1 pre post
      → Side a2 c2 ys
      → Ascends cmp ys
      → pre ++ merge cmp da_2_wins post ys ≡ total
      → doubles cmp (head post) (head ys) ≡ true
      → Stage cmp da_2_wins a2 total a1 (suc c1) c2
  passed c1 c2 pre [] ys l r a v e = cc
  passed c1 c2 pre (x ∷ post) [] l r a v e = cc
  passed c1 c2 pre (x ∷ post) (y ∷ ys) l r a v e =
      pass-Stage cmp da_2_wins a2 total a1 c1 c2 pre x post (y ∷ ys) l r a v
        (merge-passes cmp x y post ys e)

  pub skip_doubles-Apart :
      (policy : Policy) (r c1 c2 : ℕ)
      → Stage cmp policy a2 total a1 c1 c2
      → a1.len + a2.len ≤ c1 + c2 + r
      → Apart cmp policy a2 total a1 c1 c2 (skip_doubles a1 a2 policy r c1 c2)
  unfolding skip_doubles
  skip_doubles-Apart policy zero c1 c2 s h =
      let ended =
        none_doubles cmp s.post s.ys
          (inr (omega (arith, s.right.within, left_within cmp policy a2 total a1 c1 c2 s))) in
      (s, ended, omega arith, omega arith)
  skip_doubles-Apart da_1_wins (suc r) c1 c2 s h =
      let rest = skip_doubles a1 a2 da_1_wins r c1 (suc c2) in
      let heads = test-heads cmp da_1_wins a2 total doubles a1 c1 c2 s in
      let goal =
        λ (t : Bool). Apart cmp da_1_wins a2 total a1 c1 c2 (if t then rest else (c1, c2)) in
      elim (Bool-cases (test cmp da_1_wins a2 total doubles a1 c1 c2)) [
        | inr e ↦ subst goal (sym e) ((s, sym heads ∙ e, omega arith, omega arith))
        | inl e ↦
            let s' =
              dropped c1 c2 s.pre s.post s.ys s.left s.right s.ascends s.value (sym heads ∙ e) in
            let (t, apart, above1, above2) =
              skip_doubles-Apart da_1_wins r c1 (suc c2) s' (omega arith) in
            subst goal (sym e) ((t, apart, above1, omega arith))
      ]
  skip_doubles-Apart da_2_wins (suc r) c1 c2 s h =
      let rest = skip_doubles a1 a2 da_2_wins r (suc c1) c2 in
      let heads = test-heads cmp da_2_wins a2 total doubles a1 c1 c2 s in
      let goal =
        λ (t : Bool). Apart cmp da_2_wins a2 total a1 c1 c2 (if t then rest else (c1, c2)) in
      elim (Bool-cases (test cmp da_2_wins a2 total doubles a1 c1 c2)) [
        | inr e ↦ subst goal (sym e) ((s, sym heads ∙ e, omega arith, omega arith))
        | inl e ↦
            let s' =
              passed c1 c2 s.pre s.post s.ys s.left s.right s.ascends s.value (sym heads ∙ e) in
            let (t, apart, above1, above2) =
              skip_doubles-Apart da_2_wins r (suc c1) c2 s' (omega arith) in
            subst goal (sym e) ((t, apart, omega arith, above2))
      ]
