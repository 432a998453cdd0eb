-- ===== src/Hashtab/Ends.antt =====
-- Where hash_find_slot ends, and where it does not.
use native.Mathlib.Nat.{mod-lt}
use a2ps.Prelude.{
  ℕ, zero, suc, ◌+◌, ◌-◌, ◌*◌, ◌%◌, ◌^◌, ◌<◌, ◌≤◌, ◌≡◌, refl, sym, ◌∙◌, ap, subst, ◌⊎◌, inl, inr,
  arith, Bool-cases, true, false, List, [], ◌∷◌, Option, none, some, get_or, length, All,
}
use a2ps.Hashtab.{
  Slot, empty, deleted, item, Keys, HashTable, matches, increment, probe, first_deleted,
  vacant_slot, hash_find_slot, is_vacant,
}
use a2ps.Hashtab.Inverse.{reach, bit_or-one_odd}
use a2ps.Hashtab.Probe.{
  Slot-cases, divides, next_round, next, slot_at, probe-empty, probe-deleted, probe-matches,
  probe-collides,
}

module _ {ℓ} {A : Type ℓ} (keys : Keys A) (vec : List (Slot A)) (size : ℕ) (key : A) where
  -- A slot for the key: vacant, or holding an item that is equal to it
  abbrev pub IsFor : ℕ → Type ℓ
  IsFor i =
      (i < size)
      × ((is_vacant (get_or vec i empty) ≡ true)
          ⊎ ((a : A) × (get_or vec i empty ≡ item a) × (matches keys key a ≡ true)))

  -- The deleted slot that was passed first, if any, is one.
  abbrev Passed : Option ℕ → Type 0
  Passed none = Unit
  Passed (some d) = (d < size) × (is_vacant (get_or vec d empty) ≡ true)

  first_deleted-Passed :
      (d : Option ℕ) (i : ℕ)
      → Passed d
      → i < size
      → get_or vec i empty ≡ deleted
      → Passed (first_deleted d i)
  first_deleted-Passed none i h l e = (l, ap is_vacant e)
  first_deleted-Passed (some d) i h l e = h

  vacant_slot-IsFor :
      (d : Option ℕ) (i : ℕ)
      → Passed d
      → i < size
      → get_or vec i empty ≡ empty
      → IsFor (vacant_slot d i)
  vacant_slot-IsFor none i h l e = (l, inl (ap is_vacant e))
  vacant_slot-IsFor (some d) i h l e = (h.0, inl h.1)

  -- What the loop returns
  abbrev pub Finds : Option (ℕ × ℕ) → Type ℓ
  Finds r = (i : ℕ) × (n : ℕ) × (r ≡ some (i, n)) × IsFor i

  module _ (w : ℕ) (big : 2 ^ 64 ≡ size * w) (some_slot : 0 < size) where
    -- The loop ends when it comes to an empty slot, if not before.
    probe-Finds :
        (t fuel h1 : ℕ) (d : Option ℕ) (n : ℕ)
        → t < fuel
        → Passed d
        → get_or vec ((h1 + t * increment keys key) % size) empty ≡ empty
        → Finds (probe keys vec size key fuel h1 d n)
    probe-Finds t zero h1 d n l p e = absurd (omega arith)
    probe-Finds zero (suc fuel) h1 d n l p e =
        let here : h1 + 0 * increment keys key ≡ h1 = omega arith in
        let e' = subst (λ x. get_or vec (x % size) empty ≡ empty) here e in
        (
          vacant_slot d (h1 % size),
          n,
          probe-empty keys vec size key fuel h1 d n e',
          vacant_slot-IsFor d (h1 % size) p (mod-lt h1 some_slot) e',
        )
    probe-Finds (suc t) (suc fuel) h1 d n l p e =
        let i = h1 % size in
        let later =
          subst (λ x. get_or vec x empty ≡ empty)
            (sym (next_round h1 (increment keys key) t size w (2 ^ 64) big)) e in
        elim (Slot-cases (slot_at keys vec size key h1)) [
          | inl none_here ↦ (
            vacant_slot d i,
            n,
            probe-empty keys vec size key fuel h1 d n none_here,
            vacant_slot-IsFor d i p (mod-lt h1 some_slot) none_here,
          )
          | inr (inl mark) ↦ subst Finds (sym (probe-deleted keys vec size key fuel h1 d n mark)) (
              probe-Finds t fuel (next keys vec size key h1) (first_deleted d i) n (omega arith)
                (first_deleted-Passed d i p (mod-lt h1 some_slot) mark) later)
          | inr (inr (a, holds)) ↦ elim (Bool-cases (matches keys key a)) [
            | inl m ↦ (
              i,
              n,
              probe-matches keys vec size key fuel h1 d n a holds m,
              (mod-lt h1 some_slot, inr (a, holds, m)),
            )
            | inr m ↦
                subst Finds (sym (probe-collides keys vec size key fuel h1 d n a holds m))
                  (probe-Finds t fuel (next keys vec size key h1) d (n + 1) (omega arith) p later)
          ]
        ]

-- A table of a power of two of slots
pub record Sized {ℓ} {A : Type ℓ} (k : ℕ) (ht : HashTable A) : Type 0 where
  pub few : k ≤ 64
  pub power : ht.ht_size ≡ 2 ^ k

pub size_divides {ℓ} :
    {A : Type ℓ} (k : ℕ) (ht : HashTable A) → Sized k ht → 2 ^ 64 ≡ ht.ht_size * 2 ^ (64 - k)
size_divides k ht sized = divides k sized.few ∙ ap (λ n. n * 2 ^ (64 - k)) (sym sized.power)

pub find-Finds {ℓ} :
    {A : Type ℓ} (keys : Keys A) (k : ℕ) (ht : HashTable A) (key : A) (free : ℕ)
    → Sized k ht
    → free < ht.ht_size
    → get_or ht.ht_vec free empty ≡ empty
    → Finds keys ht.ht_vec ht.ht_size key
        (probe keys ht.ht_vec ht.ht_size key ht.ht_size (keys.hash_1 key) none ht.ht_collisions)
find-Finds keys k ht key free sized l e =
    let w = 2 ^ (64 - k) in
    let (t, t_small, lands) =
      reach (keys.hash_1 key) (increment keys key) k free (bit_or-one_odd (keys.hash_2 key))
        (subst (λ n. free < n) sized.power l) in
    let lands' =
      subst (λ m. (keys.hash_1 key + t * increment keys key) % m ≡ free) (sym sized.power) lands in
    probe-Finds keys ht.ht_vec ht.ht_size key w (size_divides k ht sized) (omega arith) t ht.ht_size
      (keys.hash_1 key) none ht.ht_collisions (subst (λ m. t < m) (sym sized.power) t_small) tt
      (ap (λ x. get_or ht.ht_vec x empty) lands' ∙ e)

-- In a table whose size is a power of two, and that has an empty slot, the search for any key
-- ends: it leads to a slot of the table that is vacant, or holds an item equal to the key, and
-- changes nothing but the statistics.
pub hash_find_slot-ends {ℓ} :
    {A : Type ℓ} (keys : Keys A) (k : ℕ) (ht : HashTable A) (key : A) (free : ℕ)
    → Sized k ht
    → free < ht.ht_size
    → get_or ht.ht_vec free empty ≡ empty
    → (i : ℕ) × (n : ℕ) × (hash_find_slot keys ht key
        ≡ some (i, record ht { ht_lookups = ht.ht_lookups + 1; ht_collisions = n }))
      × IsFor keys ht.ht_vec ht.ht_size key i
unfolding hash_find_slot
hash_find_slot-ends keys k ht key free sized l e =
    let (i, n, found, for) = find-Finds keys k ht key free sized l e in (i, n, rw found refl, for)

-- A slot that gives the search for `key` no reason to stop
abbrev pub IsPassed {ℓ} : {A : Type ℓ} → Keys A → A → Slot A → Type 0
IsPassed keys key empty = ⊥
IsPassed keys key deleted = Unit
IsPassed keys key (item a) = matches keys key a ≡ false

get_or-IsPassed {ℓ} :
    {A : Type ℓ} (keys : Keys A) (key : A) (vec : List (Slot A)) (i : ℕ)
    → All (IsPassed keys key) vec
    → i < length vec
    → IsPassed keys key (get_or vec i empty)
get_or-IsPassed keys key [] i h l = absurd (omega arith)
get_or-IsPassed keys key (slot ∷ vec) zero h l = h.0
get_or-IsPassed keys key (slot ∷ vec) (suc i) h l = get_or-IsPassed keys key vec i h.1 (omega arith)

-- Where no slot is empty and no item is equal to the key, the search never ends, however many
-- rounds it is given: deletion marks count as room, but do not stop it.
pub probe-hangs {ℓ} :
    {A : Type ℓ} (keys : Keys A) (vec : List (Slot A)) (key : A) (fuel h1 : ℕ) (d : Option ℕ)
    (n : ℕ)
    → 0 < length vec
    → All (IsPassed keys key) vec
    → probe keys vec (length vec) key fuel h1 d n ≡ none
unfolding probe
probe-hangs keys vec key zero h1 d n l h = refl
probe-hangs keys vec key (suc fuel) h1 d n l h =
    let size = length vec in
    let passed = get_or-IsPassed keys key vec (h1 % size) h (mod-lt h1 l) in
    let go : (d' : Option ℕ) (n' : ℕ)
        → probe keys vec size key fuel (next keys vec size key h1) d' n' ≡ none =
      λ d' n'. probe-hangs keys vec key fuel (next keys vec size key h1) d' n' l h in
    elim (Slot-cases (slot_at keys vec size key h1)) [
      | inl e ↦ absurd (subst (IsPassed keys key) e passed)
      | inr (inl e) ↦
          probe-deleted keys vec size key fuel h1 d n e ∙ go (first_deleted d (h1 % size)) n
      | inr (inr (a, e)) ↦
          probe-collides keys vec size key fuel h1 d n a e (subst (IsPassed keys key) e passed)
          ∙ go d (n + 1)
    ]
