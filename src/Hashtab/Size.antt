-- ===== src/Hashtab/Size.antt =====
-- The sizes of tables: round_up_2 and hash_init.
use native.Mathlib.Nat.{two-pow-succ, mod-eq_of_lt, pow-le-pow_right}
use a2ps.Prelude.{
  ℕ, zero, suc, ◌+◌, ◌*◌, ◌/◌, ◌%◌, ◌^◌, ◌<◌, ◌≤◌, ◌≡◌, ◌==◌, ==_iff, refl, sym, ◌∙◌, ap, subst,
  ◌⊎◌, inl, inr, arith, ltb, ltb→lt, ltb→le, Bool-cases, false, get_or, replicate,
}
use a2ps.Hashtab.{empty, round_from, round_up_2, hash_init}
use a2ps.Hashtab.Inverse.{even_or_odd}
use a2ps.Hashtab.Ends.{Sized}

-- `p` is the power of two that the rounds make of `rough`, from the power `q` on.
record Rounds (rough q p : ℕ) : Type 0 where
  exponent : ℕ
  power : p ≡ 2 ^ exponent
  above : (rough + 1) * q ≤ p
  below : ((rough ≡ 0) × (p ≡ q)) ⊎ (p ≤ 2 * rough * q)

halves :
    (rough m q p : ℕ)
    → (rough ≡ 2 * m) ⊎ (rough ≡ 2 * m + 1)
    → (m + 1) * (q + q) ≤ p
    → (rough + 1) * q ≤ p
halves rough m q p (inl e) h = omega (arith, h, ap (λ (t : ℕ). t * q) e)
halves rough m q p (inr e) h = omega (arith, h, ap (λ (t : ℕ). t * q) e)

rounds_below :
    (rough m q p : ℕ)
    → (rough ≡ 2 * m) ⊎ (rough ≡ 2 * m + 1)
    → 1 ≤ rough
    → ((m ≡ 0) × (p ≡ q + q)) ⊎ (p ≤ 2 * m * (q + q))
    → p ≤ 2 * rough * q
rounds_below rough m q p (inl e) one (inl h) = absurd (omega arith)
rounds_below rough m q p (inr e) one (inl h) =
    let single : rough ≡ 1 = omega arith in omega (arith, h.1, ap (λ (t : ℕ). t * q) single)
rounds_below rough m q p (inl e) one (inr h) = omega (arith, h, ap (λ (t : ℕ). t * q) e)
rounds_below rough m q p (inr e) one (inr h) = omega (arith, h, ap (λ (t : ℕ). t * q) e)

smaller :
    (rough m q big : ℕ)
    → (rough ≡ 2 * m) ⊎ (rough ≡ 2 * m + 1)
    → 2 * rough * q < big
    → 2 * m * (q + q) < big
smaller rough m q big (inl e) h = omega (arith, h, ap (λ (t : ℕ). t * q) e)
smaller rough m q big (inr e) h = omega (arith, h, ap (λ (t : ℕ). t * q) e)

double_small : (rough q big : ℕ) → 1 ≤ rough → 2 * rough * q < big → q * 2 < big
double_small (suc r) q big one h = omega arith
double_small zero q big one h = absurd (omega arith)

positive : (n : ℕ) → n == 0 ≡ false → 1 ≤ n
positive n h = ground arith

round_from-Rounds :
    (fuel rough j : ℕ)
    → rough ≤ fuel
    → 2 * rough * 2 ^ j < 2 ^ 64
    → Rounds rough (2 ^ j) (round_from fuel rough (2 ^ j))
round_from-Rounds zero rough j h small =
    let z : rough ≡ 0 = omega arith in
    record {
      exponent = j;
      power = refl;
      above = omega (arith, ap (λ (t : ℕ). t * 2 ^ j) z);
      below = inl (z, refl);
    }
round_from-Rounds (suc fuel) rough j h small = elim (Bool-cases (rough == 0)) [
  | inl e ↦
      let z = (==_iff rough 0).0 e in
      rw e (record {
        exponent = j;
        power = refl;
        above = omega (arith, ap (λ (t : ℕ). t * 2 ^ j) z);
        below = inl (z, refl);
      })
  | inr e ↦
      let one = positive rough e in
      let q = 2 ^ j in
      let q2 : 2 ^ suc j ≡ q + q = two-pow-succ j in
      let doubled : q * 2 % 2 ^ 64 ≡ 2 ^ suc j =
        mod-eq_of_lt (double_small rough q (2 ^ 64) one small) ∙ omega (arith, q2) in
      let split = even_or_odd rough in
      let r = round_from-Rounds fuel (rough / 2) (suc j) (omega arith) (
        subst (λ x. 2 * (rough / 2) * x < 2 ^ 64) (sym q2)
          (smaller rough (rough / 2) q (2 ^ 64) split small)) in
      let r' = subst (λ x. Rounds (rough / 2) x (round_from fuel (rough / 2) (2 ^ suc j))) q2 r in
      rw (e, doubled)
        (record {
          exponent = r'.exponent;
          power = r'.power;
          above = halves rough (rough / 2) q _ split r'.above;
          below = inr (rounds_below rough (rough / 2) q _ split one r'.below);
        })
]

at_most : (rough p : ℕ) → ((rough ≡ 0) × (p ≡ 1)) ⊎ (p ≤ 2 * rough * 1) → p ≤ 2 * rough + 1
at_most rough p h = omega arith

-- A size of less than 2 ^ 63 is rounded up to a power of two that is greater than it, and at most
-- twice as great, or 1 for no size.
pub round_up_2-power :
    (rough : ℕ)
    → rough < 2 ^ 63
    → (k : ℕ) × (round_up_2 rough ≡ 2 ^ k) × (rough < 2 ^ k) × (2 ^ k ≤ 2 * rough + 1)
unfolding round_up_2
round_up_2-power rough small =
    let r = round_from-Rounds rough rough 0 (omega arith) (omega arith) in
    let above = subst (λ p. (rough + 1) * 1 ≤ p) r.power r.above in
    (
      r.exponent,
      r.power,
      omega arith,
      subst (λ p. p ≤ 2 * rough + 1) r.power (at_most rough _ r.below),
    )

below_64 : (k n : ℕ) → 2 ^ k ≤ n → n < 2 ^ 64 → k ≤ 64
below_64 k n h small = elim (Bool-cases (ltb 64 k)) [
  | inl e ↦
      let far : 65 ≤ k = omega (arith, ltb→lt 64 k e) in
      let grows : 2 ^ 65 ≤ 2 ^ k = pow-le-pow_right (omega arith) far in absurd (omega arith)
  | inr e ↦ omega (arith, ltb→le 64 k e)
]

halved : (k : ℕ) → 1 < 2 ^ k → (j : ℕ) × (j ≤ k) × (2 ^ k / 2 ≡ 2 ^ j)
halved zero h = absurd (omega arith)
halved (suc k) h = (k, omega arith, omega (arith, two-pow-succ k))

pub get_or-replicate {ℓ} : {A : Type ℓ} (n i : ℕ) (a : A) → get_or (replicate n a) i a ≡ a
get_or-replicate zero i a = refl
get_or-replicate (suc n) zero a = refl
get_or-replicate (suc n) (suc i) a = get_or-replicate n i a

-- A new table, of a size less than 2 ^ 63, has a power of two of slots, at least one, and all of
-- them are empty.
pub hash_init-Sized {ℓ} :
    {A : Type ℓ} (size : ℕ)
    → size < 2 ^ 63
    → (k : ℕ) × Sized k (hash_init {A = A} size)
      × (0 < (hash_init {A = A} size).ht_size)
      × ((hash_init {A = A} size).ht_vec ≡ replicate (2 ^ k) empty)
unfolding hash_init
hash_init-Sized size small =
    let (k, e, above, below) = round_up_2-power size small in
    let few = below_64 k (2 * size + 1) below (omega arith) in
    elim (Bool-cases (ltb (128 * 1024) (round_up_2 size))) [
      | inl big ↦
          let large : 1 < 2 ^ k = subst (λ p. 1 < p) e (omega (arith, ltb→lt _ _ big)) in
          let (j, less, half) = halved k large in
          let size_is : round_up_2 size / 2 ≡ 2 ^ j = ap (λ p. p / 2) e ∙ half in
          (
            j,
            record { few = omega arith; power = rw big size_is },
            rw big (omega (arith, e)),
            rw (big, size_is),
          )
      | inr ok ↦ (k, record { few = few; power = rw ok e }, rw ok (omega (arith, e)), rw (ok, e))
    ]
