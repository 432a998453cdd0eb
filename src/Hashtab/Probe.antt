-- ===== src/Hashtab/Probe.antt =====
-- The loop of hash_find_slot: the slots that it visits, and where it stops.
use native.Mathlib.Nat.{two-pow-succ, add-mul-mod_self_right, mod-add-div}
use a2ps.Prelude.{
  ℕ, zero, suc, ◌+◌, ◌-◌, ◌*◌, ◌/◌, ◌%◌, ◌^◌, ◌≤◌, ◌≡◌, refl, sym, ◌∙◌, ap, ◌⊎◌, inl, inr, arith,
  true, false, List, Option, some, get_or,
}
use a2ps.Hashtab.{
  Slot, empty, deleted, item, Keys, matches, increment, probe, first_deleted, vacant_slot,
}

pow_add : (a b : ℕ) → 2 ^ (a + b) ≡ 2 ^ a * 2 ^ b
pow_add zero b = let e : 0 + b ≡ b = omega arith in ap (λ n. 2 ^ n) e ∙ omega arith
pow_add (suc a) b =
    let e : suc a + b ≡ suc (a + b) = omega arith in
    ap (λ n. 2 ^ n) e
    ∙ omega (arith, two-pow-succ (a + b), pow_add a b, ap (λ t. t * 2 ^ b) (two-pow-succ a))

-- A power of two divides 2 ^ 64, to which the sums are reduced.
pub divides : (k : ℕ) → k ≤ 64 → 2 ^ 64 ≡ 2 ^ k * 2 ^ (64 - k)
divides k h = let e : 64 ≡ k + (64 - k) = omega arith in ap (λ n. 2 ^ n) e ∙ pow_add k (64 - k)

sums :
    (h1 h2 t i y a z s w big : ℕ)
    → i + s * y ≡ h1
    → a + big * z ≡ i + h2
    → big ≡ s * w
    → h1 + suc t * h2 ≡ (a + t * h2) + (y + w * z) * s
sums h1 h2 t i y a z s w big e f g = omega (arith, e, f, ap (λ x. x * z) g)

-- The slot of the next round, and of the rounds behind it
pub next_round :
    (h1 h2 t s w big : ℕ) → big ≡ s * w → ((h1 % s + h2) % big + t * h2) % s ≡ (h1 + suc t * h2) % s
next_round h1 h2 t s w big g =
    let a = (h1 % s + h2) % big in
    sym (
      ap (λ x. x % s)
        (sums h1 h2 t (h1 % s) (h1 / s) a ((h1 % s + h2) / big) s w big (mod-add-div h1 s)
          (mod-add-div (h1 % s + h2) big) g)
      ∙ add-mul-mod_self_right (a + t * h2) (h1 / s + w * ((h1 % s + h2) / big)) s)

pub Slot-cases {ℓ} :
    {A : Type ℓ} (slot : Slot A) → (slot ≡ empty) ⊎ (slot ≡ deleted) ⊎ ((a : A) × (slot ≡ item a))
Slot-cases empty = inl refl
Slot-cases deleted = inr (inl refl)
Slot-cases (item a) = inr (inr (a, refl))

module _ {ℓ} {A : Type ℓ} (keys : Keys A) (vec : List (Slot A)) (size : ℕ) (key : A) where
  -- The hash of the next round
  abbrev pub next : ℕ → ℕ
  next h1 = (h1 % size + increment keys key) % 2 ^ 64

  abbrev pub slot_at : ℕ → Slot A
  slot_at h1 = get_or vec (h1 % size) empty

  module _ (fuel h1 : ℕ) (d : Option ℕ) (n : ℕ) where
    pub probe-empty :
        slot_at h1 ≡ empty
        → probe keys vec size key (suc fuel) h1 d n ≡ some (vacant_slot d (h1 % size), n)
    unfolding probe
    probe-empty e = rw (e, probe)

    pub probe-deleted :
        slot_at h1 ≡ deleted
        → probe keys vec size key (suc fuel) h1 d n
          ≡ probe keys vec size key fuel (next h1) (first_deleted d (h1 % size)) n
    unfolding probe
    probe-deleted e = rw (e, probe)

    pub probe-matches :
        (a : A)
        → slot_at h1 ≡ item a
        → matches keys key a ≡ true
        → probe keys vec size key (suc fuel) h1 d n ≡ some (h1 % size, n)
    unfolding probe
    probe-matches a e m = rw (e, m, probe)

    pub probe-collides :
        (a : A)
        → slot_at h1 ≡ item a
        → matches keys key a ≡ false
        → probe keys vec size key (suc fuel) h1 d n
          ≡ probe keys vec size key fuel (next h1) d (n + 1)
    unfolding probe
    probe-collides a e m = rw (e, m, probe)
