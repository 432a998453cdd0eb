-- ===== src/Hashtab/Inverse.antt =====
-- An odd step reaches every slot of a table whose size is a power of two.
use Prim.Native.Nat.{bit_or-bitwise}
use native.Mathlib.Nat.{two-pow-succ, add-mul-mod_self_right, mod-eq_of_lt, mod-lt, mod-add-div}
use a2ps.Prelude.{
  ℕ, zero, suc, ◌+◌, ◌-◌, ◌*◌, ◌/◌, ◌%◌, ◌^◌, ◌<◌, ◌≡◌, refl, sym, ◌∙◌, ap, ◌⊎◌, inl, inr, bit_or,
  arith,
}

pub bit_or-one_odd : (n : ℕ) → bit_or n 1 % 2 ≡ 1
bit_or-one_odd zero = refl
bit_or-one_odd (suc n) = omega (arith, bit_or-bitwise (suc n) 1)

pub even_or_odd : (n : ℕ) → (n ≡ 2 * (n / 2)) ⊎ (n ≡ 2 * (n / 2) + 1)
even_or_odd n = ground arith

even_step : (x q r p p2 : ℕ) → x ≡ 1 + q * p → q ≡ 2 * r → p2 ≡ p + p → x ≡ 1 + r * p2
even_step x q r p p2 e even twice =
    omega (arith, e, ap (λ (t : ℕ). t * p) even, ap (λ (t : ℕ). r * t) twice)

odd_step :
    (u h q r p p2 : ℕ) → u * h ≡ 1 + q * p → q + h ≡ 2 * r → p2 ≡ p + p → (u + p) * h ≡ 1 + r * p2
odd_step u h q r p p2 e even twice =
    omega (arith, e, ap (λ (t : ℕ). t * p) even, ap (λ (t : ℕ). r * t) twice)

-- An odd number has an inverse modulo every power of two.
inverse : (h k : ℕ) → h % 2 ≡ 1 → (u : ℕ) × (q : ℕ) × (u * h ≡ 1 + q * 2 ^ k)
inverse h zero odd = (1, h - 1, omega arith)
inverse h (suc k) odd =
    let (u, q, e) = inverse h k odd in
    let twice = two-pow-succ k in
    elim (even_or_odd q) [
      | inl even ↦ (u, q / 2, even_step (u * h) q (q / 2) (2 ^ k) (2 ^ suc k) e even twice)
      | inr odd_q ↦ (
        u + 2 ^ k,
        (q + h) / 2,
        odd_step u h q ((q + h) / 2) (2 ^ k) (2 ^ suc k) e (omega arith) twice,
      )
    ]

-- From `h1`, the product of the inverse and the distance leads to `e`.
land :
    (h1 h2 u q p e d : ℕ)
    → u * h2 ≡ 1 + q * p
    → h1 + d ≡ e + h1 * p
    → h1 + d * u * h2 ≡ e + (h1 + d * q) * p
land h1 h2 u q p e d inv far = omega (arith, ap (λ (t : ℕ). d * t) inv, far)

distance : (h1 e p : ℕ) → 0 < p → h1 + (e + h1 * (p - 1)) ≡ e + h1 * p
distance h1 e (suc p) h = let before : suc p - 1 ≡ p = omega arith in rw before (omega arith)
distance h1 e zero h = elim h [ ]

within :
    (h1 h2 t s w p e : ℕ)
    → h1 + (t + p * s) * h2 ≡ e + w * p
    → (h1 + t * h2) + s * h2 * p ≡ e + w * p
within h1 h2 t s w p e h = omega (arith, h)

pub reach :
    (h1 h2 k e : ℕ) → h2 % 2 ≡ 1 → e < 2 ^ k → (t : ℕ) × (t < 2 ^ k) × ((h1 + t * h2) % 2 ^ k ≡ e)
reach h1 h2 k e odd small =
    let p = 2 ^ k in
    let (u, q, inv) = inverse h2 k odd in
    let d = e + h1 * (p - 1) in
    let t = d * u % p in
    let s = d * u / p in
    let there = land h1 h2 u q p e d inv (distance h1 e p (omega arith)) in
    let split : h1 + (t + p * s) * h2 ≡ e + (h1 + d * q) * p =
      ap (λ x. h1 + x * h2) (mod-add-div (d * u) p) ∙ there in
    let reached = within h1 h2 t s (h1 + d * q) p e split in
    (
      t,
      mod-lt (d * u) (omega arith),
      sym (add-mul-mod_self_right (h1 + t * h2) (s * h2) p)
          ∙ ap (λ x. x % p) reached
          ∙ add-mul-mod_self_right e (h1 + d * q) p
          ∙ mod-eq_of_lt small,
    )
