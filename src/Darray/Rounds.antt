-- ===== src/Darray/Rounds.antt =====
-- The loops of da_merge, step by step.
use a2ps.Prelude.{
  ℕ, zero, suc, ◌+◌, ◌≤◌, ◌<◌, ◌≡◌, refl, sym, ◌∙◌, ap, subst, Bool, true, false, Bool-cases, inl,
  inr, List, [], ◌∷◌, ◌++◌, Option, none, some, append_assoc, length, arith, if◌then◌else◌,
}
use Prim.Native.Nat.{Ordering}
use a2ps.Prelude.Outcome.{Outcome, ok, ◌>>=◌}
use a2ps.Darray.{Darray, da_insert_at}
use a2ps.Darray.Scan.{item}
use a2ps.Darray.Counter.{
  head, Side, item-Side, peek-Side, next-Side, Between, Between-Side, next-Between, insert-Between,
}
use a2ps.Darray.Merge.{Policy, peek, stays, doubles, enters, leave_smaller, take_others}
use a2ps.Darray.Merging.{merge, Ascends, Ascends-tail, lt-not_eq, merge-leaves, merge-takes}

differ : false ≡ true → ⊥
differ e = cc

module _ {A : Type 0} (cmp : A → A → Ordering) (policy : Policy) (a2 : Darray A)
    (total : List A) where
  -- Between two steps: what is merged, and what is to be merged, make `total`.
  pub record Stage (a1 : Darray A) (c1 c2 : ℕ) : Type 0 where
    pub pre : List A
    pub post : List A
    pub ys : List A
    pub left : Between cmp a1 c1 pre post
    pub right : Side a2 c2 ys
    pub ascends : Ascends cmp ys
    pub value : pre ++ merge cmp policy post ys ≡ total

  abbrev pub Test : Type 0
  Test = (A → A → Ordering) → Option A → Option A → Bool

  abbrev pub test : Test → Darray A → ℕ → ℕ → Bool
  test f a1 c1 c2 = f a1.cmp (peek a1 c1) (peek a2 c2)

  -- A test of a loop is one on the heads.
  pub test-heads :
      (f : Test) (a1 : Darray A) (c1 c2 : ℕ) (s : Stage a1 c1 c2)
      → test f a1 c1 c2 ≡ f cmp (head s.post) (head s.ys)
  test-heads f a1 c1 c2 s =
      ap (λ k. f k (peek a1 c1) (peek a2 c2)) s.left.same_cmp
      ∙ ap (λ x. f cmp x (peek a2 c2))
          (peek-Side a1 c1 s.post (Between-Side a1 c1 s.pre s.post s.left))
      ∙ ap (λ y. f cmp (head s.post) y) (peek-Side a2 c2 s.ys s.right)

  pub left_within : (a1 : Darray A) (c1 c2 : ℕ) (s : Stage a1 c1 c2) → c1 + length s.post ≡ a1.len
  left_within a1 c1 c2 s = (Between-Side a1 c1 s.pre s.post s.left).within

  -- An element of the first array is left where it is.
  pub pass-Stage :
      (a1 : Darray A) (c1 c2 : ℕ) (pre : List A) (x : A) (post ys : List A)
      → Between cmp a1 c1 pre (x ∷ post)
      → Side a2 c2 ys
      → Ascends cmp ys
      → pre ++ merge cmp policy (x ∷ post) ys ≡ total
      → merge cmp policy (x ∷ post) ys ≡ x ∷ merge cmp policy post ys
      → Stage a1 (suc c1) c2
  pass-Stage a1 c1 c2 pre x post ys l r a v e = record {
    pre = pre ++ x ∷ [];
    post = post;
    ys = ys;
    left = next-Between a1 c1 pre x post l;
    right = r;
    ascends = a;
    value = append_assoc pre (x ∷ []) (merge cmp policy post ys) ∙ ap (λ z. pre ++ z) (sym e) ∙ v;
  }

  left_smaller :
      (a1 : Darray A) (c1 c2 : ℕ) (pre post ys : List A)
      → Between cmp a1 c1 pre post
      → Side a2 c2 ys
      → Ascends cmp ys
      → pre ++ merge cmp policy post ys ≡ total
      → stays cmp (head post) (head ys) ≡ true
      → Stage a1 (suc c1) c2
  left_smaller a1 c1 c2 pre [] ys l r a v e = cc
  left_smaller a1 c1 c2 pre (x ∷ post) ys l r a v e =
      pass-Stage a1 c1 c2 pre x post ys l r a v (merge-leaves cmp policy x post ys e)

  -- What the first loop leaves
  abbrev pub Left : Darray A → ℕ → ℕ → ℕ → Type 0
  Left a1 c1 c2 d1 = Stage a1 d1 c2 × (test stays a1 d1 c2 ≡ false) × (c1 ≤ d1)

  none_stays : (post : List A) (y : Option A) → length post ≡ 0 → stays cmp (head post) y ≡ false
  none_stays [] y h = refl
  none_stays (x ∷ post) y h = absurd (omega arith)

  pub leave_smaller-Left :
      (a1 : Darray A) (r c1 c2 : ℕ)
      → Stage a1 c1 c2
      → a1.len ≤ c1 + r
      → Left a1 c1 c2 (leave_smaller a1 a2 r c1 c2)
  unfolding leave_smaller
  leave_smaller-Left a1 zero c1 c2 s h =
      let ended = none_stays s.post (head s.ys) (omega (arith, left_within a1 c1 c2 s)) in
      (s, test-heads stays a1 c1 c2 s ∙ ended, omega arith)
  leave_smaller-Left a1 (suc r) c1 c2 s h =
      let rest = leave_smaller a1 a2 r (suc c1) c2 in
      elim (Bool-cases (test stays a1 c1 c2)) [
        | inr e ↦ subst (λ t. Left a1 c1 c2 (if t then rest else c1)) (sym e) ((s, e, omega arith))
        | inl e ↦
            let s' =
              left_smaller a1 c1 c2 s.pre s.post s.ys s.left s.right s.ascends s.value
                (sym (test-heads stays a1 c1 c2 s) ∙ e) in
            let (t, ended, above) = leave_smaller-Left a1 r (suc c1) c2 s' (omega arith) in
            subst (λ t. Left a1 c1 c2 (if t then rest else c1)) (sym e) ((t, ended, omega arith))
      ]

  -- What the second loop leaves
  abbrev pub Apart : Darray A → ℕ → ℕ → ℕ × ℕ → Type 0
  Apart a1 c1 c2 (d1, d2) =
      (s : Stage a1 d1 d2) × (doubles cmp (head s.post) (head s.ys) ≡ false) × (c1 ≤ d1) × (c2 ≤ d2)

  -- What the third loop leaves: an element more in the first array for each that was taken
  abbrev pub Taken : Darray A → ℕ → ℕ → Outcome (Darray A × ℕ) → Type 0
  Taken a1 c1 c2 result =
      (b1 : Darray A) × (e2 : ℕ) × (result ≡ ok (b1, e2))
      × Stage b1 c1 e2
      × (c2 ≤ e2)
      × (b1.len + c2 ≡ a1.len + e2)
      × (test enters a1 c1 c2 ≡ true → c2 < e2)

  -- An element is taken.
  taken_one :
      (a1 : Darray A) (c1 c2 : ℕ) (pre post ys : List A)
      → Between cmp a1 c1 pre post
      → Side a2 c2 ys
      → Ascends cmp ys
      → pre ++ merge cmp policy post ys ≡ total
      → enters cmp (head post) (head ys) ≡ true
      → doubles cmp (head post) (head ys) ≡ false
      → (b1 : Darray A) × (da_insert_at a1 (item a2 c2) c1 ≡ ok b1)
        × ((s : Stage b1 c1 (suc c2)) × (doubles cmp (head s.post) (head s.ys) ≡ false))
        × (b1.len ≡ a1.len + 1)
  taken_one a1 c1 c2 pre post [] l r a v e d = absurd (differ (sym (no_enters post) ∙ e))
    where
      no_enters : (post : List A) → enters cmp (head post) none ≡ false
      no_enters [] = refl
      no_enters (x ∷ xs) = refl
  taken_one a1 c1 c2 pre post (y ∷ ys) l r a v e d =
      let (b1, done, l', more) = insert-Between a1 c1 pre post y l in
      let at_c2 = item-Side a2 c2 y ys r in
      (
        b1,
        ap (λ z. da_insert_at a1 z c1) at_c2 ∙ done,
        (
          record {
            pre = pre;
            post = y ∷ post;
            ys = ys;
            left = l';
            right = next-Side a2 c2 y ys r;
            ascends = Ascends-tail cmp y ys a;
            value = ap (λ z. pre ++ z) (sym (merge-takes cmp policy y post ys e d a)) ∙ v;
          },
          apart ys a,
        ),
        more,
      )
    where
      apart : (ys : List A) → Ascends cmp (y ∷ ys) → doubles cmp (some y) (head ys) ≡ false
      apart [] a = refl
      apart (z ∷ zs) a = lt-not_eq cmp (cmp y z) a.0

  none_enters : (post ys : List A) → length ys ≡ 0 → enters cmp (head post) (head ys) ≡ false
  none_enters [] [] h = refl
  none_enters (x ∷ post) [] h = refl
  none_enters post (y ∷ ys) h = absurd (omega arith)

  pub take_others-Taken :
      (a1 : Darray A) (r c1 c2 : ℕ) (s : Stage a1 c1 c2)
      → doubles cmp (head s.post) (head s.ys) ≡ false
      → a2.len ≤ c2 + r
      → Taken a1 c1 c2 (take_others a1 a2 r c1 c2)
  unfolding take_others
  take_others-Taken a1 zero c1 c2 s d h =
      let ended = none_enters s.post s.ys (omega (arith, s.right.within)) in
      (
        a1,
        c2,
        refl,
        s,
        omega arith,
        refl,
        λ e. absurd (differ (sym (test-heads enters a1 c1 c2 s ∙ ended) ∙ e)),
      )
  take_others-Taken a1 (suc r) c1 c2 s d h =
      let rest = da_insert_at a1 (item a2 c2) c1 >>= λ a1. take_others a1 a2 r c1 (suc c2) in
      elim (Bool-cases (test enters a1 c1 c2)) [
        | inr e ↦
            subst (λ t. Taken a1 c1 c2 (if t then rest else ok (a1, c2))) (sym e)
              ((a1, c2, refl, s, omega arith, refl, λ e'. absurd (differ (sym e ∙ e'))))
        | inl e ↦
            let (b1, done, (s', d'), more) =
              taken_one a1 c1 c2 s.pre s.post s.ys s.left s.right s.ascends s.value
                (sym (test-heads enters a1 c1 c2 s) ∙ e) d in
            let (b2, e2, later, t, above, balance, moved) =
              take_others-Taken b1 r c1 (suc c2) s' d' (omega arith) in
            subst (λ t. Taken a1 c1 c2 (if t then rest else ok (a1, c2))) (sym e)
              ((
                b2,
                e2,
                ap (λ o. o >>= λ a1. take_others a1 a2 r c1 (suc c2)) done ∙ later,
                t,
                omega arith,
                omega arith,
                λ e'. omega arith,
              ))
      ]
