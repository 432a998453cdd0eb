-- ===== src/Darray/Merge.antt =====
-- da_merge: the merging of a sorted array into another one.
use a2ps.Prelude.{
  ℕ, zero, suc, ◌+◌, ◌-◌, ◌*◌, Bool, true, false, not, ◌&&◌, Option, none, some, ltb, ◌==◌,
  if◌then◌else◌,
}
use Prim.Native.Nat.{Ordering}
use a2ps.Prelude.Outcome.{Outcome, ok, ◌>>=◌}
use a2ps.Darray.{Darray, is_eq, is_lt, da_insert_at}
use a2ps.Darray.Scan.{item}

pub data Policy : Type 0 where
  da_1_wins da_2_wins : Policy

module _ {A : Type 0} where
  -- The element at a counter that is not at the end
  abbrev pub peek : Darray A → ℕ → Option A
  peek arr c = if ltb c arr.len then some (item arr c) else none

  module _ (cmp : A → A → Ordering) where
    -- `c1 < a1->len && (c2 == a2->len || a1->cmp (..) < 0)`
    abbrev pub stays : Option A → Option A → Bool
    stays none y = false
    stays (some x) none = true
    stays (some x) (some y) = is_lt (cmp x y)

    -- `c1 < a1->len && c2 < a2->len && a1->cmp (..) == 0`
    abbrev pub doubles : Option A → Option A → Bool
    doubles none y = false
    doubles (some x) none = false
    doubles (some x) (some y) = is_eq (cmp x y)

    -- `c2 < a2->len && (c1 == a1->len || a1->cmp (..) >= 0)`
    abbrev pub enters : Option A → Option A → Bool
    enters x none = false
    enters none (some y) = true
    enters (some x) (some y) = not (is_lt (cmp x y))

  -- The three loops within a round, each with the number of its rounds at most
  unfoldable pub leave_smaller : Darray A → Darray A → ℕ → ℕ → ℕ → ℕ
  leave_smaller a1 a2 zero c1 c2 = c1
  leave_smaller a1 a2 (suc r) c1 c2 =
      let rest = leave_smaller a1 a2 r (suc c1) c2 in
      if stays a1.cmp (peek a1 c1) (peek a2 c2) then rest else c1

  unfoldable pub skip_doubles : Darray A → Darray A → Policy → ℕ → ℕ → ℕ → ℕ × ℕ
  skip_doubles a1 a2 policy zero c1 c2 = (c1, c2)
  skip_doubles a1 a2 da_1_wins (suc r) c1 c2 =
      let rest = skip_doubles a1 a2 da_1_wins r c1 (suc c2) in
      if doubles a1.cmp (peek a1 c1) (peek a2 c2) then rest else (c1, c2)
  skip_doubles a1 a2 da_2_wins (suc r) c1 c2 =
      let rest = skip_doubles a1 a2 da_2_wins r (suc c1) c2 in
      if doubles a1.cmp (peek a1 c1) (peek a2 c2) then rest else (c1, c2)

  unfoldable pub take_others : Darray A → Darray A → ℕ → ℕ → ℕ → Outcome (Darray A × ℕ)
  take_others a1 a2 zero c1 c2 = ok (a1, c2)
  take_others a1 a2 (suc r) c1 c2 =
      let rest = da_insert_at a1 (item a2 c2) c1 >>= λ a1. take_others a1 a2 r c1 (suc c2) in
      if enters a1.cmp (peek a1 c1) (peek a2 c2) then rest else ok (a1, c2)

  -- A round of the outer loop; what goes on behind it is `next`.
  unfoldable pub merge_round :
      Darray A
      → Darray A
      → Policy
      → ℕ
      → ℕ
      → (Darray A → ℕ → ℕ → Outcome (Darray A))
      → Outcome (Darray A)
  merge_round a1 a2 policy c1 c2 next =
      let c1' = leave_smaller a1 a2 (a1.len - c1) c1 c2 in
      let (d1, d2) = skip_doubles a1 a2 policy (a1.len - c1' + (a2.len - c2)) c1' c2 in
      take_others a1 a2 (a2.len - d2) d1 d2 >>= λ (a1, e2). next a1 d1 e2

  unfoldable pub merge_rounds : ℕ → Darray A → Darray A → Policy → ℕ → ℕ → Outcome (Darray A)
  merge_rounds zero a1 a2 policy c1 c2 = ok a1
  merge_rounds (suc fuel) a1 a2 policy c1 c2 =
      let round =
        merge_round a1 a2 policy c1 c2 (λ a1 d1 e2. merge_rounds fuel a1 a2 policy d1 e2) in
      if c1 == a1.len && c2 == a2.len then ok a1 else round

  -- A round leaves an element or takes one; one that is taken is left once.
  unfoldable pub da_merge : Darray A → Darray A → Policy → Outcome (Darray A)
  da_merge a1 a2 policy = merge_rounds (a1.len + 2 * a2.len + 1) a1 a2 policy 0 0
