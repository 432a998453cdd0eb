-- ===== src/Darray/Merged.antt =====
-- da_merge ends, and merges as lists are merged.
use a2ps.Prelude.{
  ℕ, zero, suc, ◌+◌, ◌-◌, ◌*◌, ◌<◌, ◌≡◌, ◌⊎◌, ◌≢◌, refl, sym, ◌∙◌, ap, subst, ◌==◌, ==_iff, Bool,
  true, false, not, ◌&&◌, Bool-cases, inl, inr, List, [], ◌∷◌, ◌++◌, length, arith, if◌then◌else◌,
}
use Prim.Native.Nat.{Ordering}
use a2ps.Prelude.Outcome.{Outcome, ok, ◌>>=◌}
use a2ps.Darray.{Darray}
use a2ps.Darray.Bounds.{IsValid, view}
use a2ps.Darray.Contents.{Holds}
use a2ps.Darray.Unique.{length-view}
use a2ps.Darray.Counter.{head, Grows, Between}
use a2ps.Darray.Merge.{
  Policy, stays, enters, leave_smaller, skip_doubles, merge_round, merge_rounds, da_merge,
}
use a2ps.Darray.Merging.{merge, Ascends, merge_nil}
use a2ps.Darray.Rounds.{Stage, test, test-heads, left_within, leave_smaller-Left, take_others-Taken}
use a2ps.Darray.Doubles.{skip_doubles-Apart}

both_ended :
    {A : Type 0} (cmp : A → A → Ordering) (xs ys : List A)
    → stays cmp (head xs) (head ys) ≡ false
    → enters cmp (head xs) (head ys) ≡ false
    → (length xs ≡ 0) × (length ys ≡ 0)
both_ended cmp [] [] h k = (refl, refl)
both_ended cmp [] (y ∷ ys) h k = cc
both_ended cmp (x ∷ xs) [] h k = cc
both_ended cmp (x ∷ xs) (y ∷ ys) h k = absurd (differ (sym (ap not h) ∙ k))
  where
    differ : true ≡ false → ⊥
    differ e = cc

and_left : (a b : Bool) → (a && b) ≡ true → a ≡ true
and_left true b h = refl
and_left false b h = cc

and_right : (a b : Bool) → (a && b) ≡ true → b ≡ true
and_right true b h = h
and_right false b h = cc

one_moved : (a b c d : ℕ) → (a == b && c == d) ≡ false → (a ≢ b) ⊎ (c ≢ d)
one_moved a b c d h = elim (Bool-cases (a == b)) [
  | inr e ↦ inl (ground arith)
  | inl e ↦ elim (Bool-cases (c == d)) [ inr k ↦ inr (ground arith) | inl k ↦ cc ]
]

module _ {A : Type 0} (cmp : A → A → Ordering) (policy : Policy) (a2 : Darray A)
    (total : List A) where
  abbrev Ends : Outcome (Darray A) → Type 0
  Ends result = (b1 : Darray A) × (result ≡ ok b1) × Holds b1 total

  -- How many rounds may be left
  abbrev left_over : Darray A → ℕ → ℕ → ℕ
  left_over a1 c1 c2 = a1.len - c1 + 2 * (a2.len - c2)

  -- Where a round leaves the counters, it finds both arrays at their end.
  stuck :
      (a1 : Darray A) (c1 c2 : ℕ) (s : Stage cmp policy a2 total a1 c1 c2)
      → test cmp policy a2 total stays a1 c1 c2 ≡ false
      → test cmp policy a2 total enters a1 c1 c2 ≡ false
      → (c1 ≡ a1.len) × (c2 ≡ a2.len)
  stuck a1 c1 c2 s h k =
      let (no_xs, no_ys) =
        both_ended cmp s.post s.ys (sym (test-heads cmp policy a2 total stays a1 c1 c2 s) ∙ h)
          (sym (test-heads cmp policy a2 total enters a1 c1 c2 s) ∙ k) in
      (omega (arith, left_within cmp policy a2 total a1 c1 c2 s), omega (arith, s.right.within))

  -- What a round leaves to the next
  record Round (a1 : Darray A) (c1 c2 : ℕ)
      (round : (Darray A → ℕ → ℕ → Outcome (Darray A)) → Outcome (Darray A)) : Type 0 where
    b1 : Darray A
    d1 : ℕ
    e2 : ℕ
    goes_on : (next : Darray A → ℕ → ℕ → Outcome (Darray A)) → round next ≡ next b1 d1 e2
    stage : Stage cmp policy a2 total b1 d1 e2
    fewer : left_over b1 d1 e2 < left_over a1 c1 c2

  merge_round-Round :
      (a1 : Darray A) (c1 c2 : ℕ) (s : Stage cmp policy a2 total a1 c1 c2)
      → ¬ ((c1 ≡ a1.len) × (c2 ≡ a2.len))
      → Round a1 c1 c2 (merge_round a1 a2 policy c1 c2)
  unfolding merge_round
  merge_round-Round a1 c1 c2 s going =
      let (s1, no_stay, above) =
        leave_smaller-Left cmp policy a2 total a1 (a1.len - c1) c1 c2 s (omega arith) in
      let c1' = leave_smaller a1 a2 (a1.len - c1) c1 c2 in
      let r = a1.len - c1' + (a2.len - c2) in
      let (s2, apart, above1, above2) =
        skip_doubles-Apart cmp a1 a2 total policy r c1' c2 s1 (omega arith) in
      let d = skip_doubles a1 a2 policy r c1' c2 in
      let (b1, e2, done, s3, above3, balance, moved) =
        take_others-Taken cmp policy a2 total a1 (a2.len - d.1) d.0 d.1 s2 apart (omega arith) in
      let in_first = left_within cmp policy a2 total a1 d.0 d.1 s2 in
      let in_second = s3.right.within in
      record {
        b1 = b1;
        d1 = d.0;
        e2 = e2;
        goes_on = λ next. ap (λ o. o >>= λ (a1, e2). next a1 d.0 e2) done;
        stage = s3;
        fewer = elim (Bool-cases (d.0 == c1 && d.1 == c2)) [
          | inr e ↦ omega (arith, in_first, in_second, one_moved d.0 c1 d.1 c2 e)
          | inl e ↦
              let same1 = (==_iff d.0 c1).0 (and_left (d.0 == c1) (d.1 == c2) e) in
              let same2 = (==_iff d.1 c2).0 (and_right (d.0 == c1) (d.1 == c2) e) in
              let at_start : c1' ≡ d.0 = omega arith in
              let no_stay' =
                subst (λ k. test cmp policy a2 total stays a1 d.0 k ≡ false) (sym same2)
                  (subst (λ k. test cmp policy a2 total stays a1 k c2 ≡ false) at_start no_stay) in
              elim (Bool-cases (test cmp policy a2 total enters a1 d.0 d.1)) [
                | inl k ↦ omega (arith, in_first, in_second, moved k)
                | inr k ↦
                    let (end1, end2) = stuck a1 d.0 d.1 s2 no_stay' k in
                    absurd (going (omega arith, omega arith))
              ]
        ];
      }

  merge_rounds-Ends :
      (fuel : ℕ) (a1 : Darray A) (c1 c2 : ℕ)
      → Stage cmp policy a2 total a1 c1 c2
      → left_over a1 c1 c2 < fuel
      → Ends (merge_rounds fuel a1 a2 policy c1 c2)
  unfolding merge_rounds
  merge_rounds-Ends zero a1 c1 c2 s h = absurd (omega arith)
  merge_rounds-Ends (suc fuel) a1 c1 c2 s h =
      let next = λ (a1 : Darray A) (d1 e2 : ℕ). merge_rounds fuel a1 a2 policy d1 e2 in
      let goal = λ (t : Bool). Ends (if t then ok a1 else merge_round a1 a2 policy c1 c2 next) in
      elim (Bool-cases (c1 == a1.len && c2 == a2.len)) [
        | inl e ↦
            let at1 = (==_iff c1 a1.len).0 (and_left (c1 == a1.len) (c2 == a2.len) e) in
            let at2 = (==_iff c2 a2.len).0 (and_right (c1 == a1.len) (c2 == a2.len) e) in
            subst goal (sym e) (
              (
                a1,
                refl,
                ended a1 s.pre s.post s.ys s.left s.value
                    (omega (arith, left_within cmp policy a2 total a1 c1 c2 s))
                    (omega (arith, s.right.within)),
              ))
        | inr e ↦
            let r = merge_round-Round a1 c1 c2 s (λ (p, q). both_equal e p q) in
            let (b1, done, holds) =
              merge_rounds-Ends fuel r.b1 r.d1 r.e2 r.stage (omega (arith, r.fewer)) in
            subst goal (sym e) ((b1, r.goes_on next ∙ done, holds))
      ]
    where
      ended :
          (a1 : Darray A) (pre post ys : List A)
          → Between cmp a1 c1 pre post
          → pre ++ merge cmp policy post ys ≡ total
          → length post ≡ 0
          → length ys ≡ 0
          → Holds a1 total
      ended a1 pre [] [] l v no_xs no_ys =
          (l.holds.0, l.holds.1 ∙ ap (λ z. pre ++ z) (sym (merge_nil cmp policy [])) ∙ v)
      ended a1 pre (x ∷ post) ys l v no_xs no_ys = absurd (omega arith)
      ended a1 pre [] (y ∷ ys) l v no_xs no_ys = absurd (omega arith)

      both_equal : (c1 == a1.len && c2 == a2.len) ≡ false → c1 ≡ a1.len → c2 ≡ a2.len → ⊥
      both_equal e p q = omega (arith, one_moved c1 a1.len c2 a2.len e)

module _ {A : Type 0} (a1 a2 : Darray A) (policy : Policy) where
  -- da_merge merges a valid array, which ascends strictly by the comparison of the first array,
  -- into a valid array that grows whenever it is full, as lists are merged, and keeps it valid: the
  -- smaller head comes first; of two equal heads the policy da_1_wins drops the second, and
  -- da_2_wins lets the first pass, so that both stay. The rounds are enough.
  pub da_merge-merge :
      IsValid a1
      → IsValid a2
      → Grows a1
      → Ascends a1.cmp (view a2)
      → (b1 : Darray A) × (da_merge a1 a2 policy ≡ ok b1)
        × Holds b1 (merge a1.cmp policy (view a1) (view a2))
  unfolding da_merge
  da_merge-merge v w g ascending =
      merge_rounds-Ends a1.cmp policy a2 (merge a1.cmp policy (view a1) (view a2))
        (a1.len + 2 * a2.len + 1) a1 0 0
        (record {
          pre = [];
          post = view a1;
          ys = view a2;
          left = record { holds = (v, refl); at = refl; grows = g; same_cmp = refl };
          right = record { valid = w; unread = refl; within = omega (arith, length-view a2 w) };
          ascends = ascending;
          value = refl;
        })
        (omega arith)
