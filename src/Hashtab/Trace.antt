-- ===== src/Hashtab/Trace.antt =====
-- What the search for a key passed before it stopped.
use a2ps.Prelude.{
  ℕ, zero, suc, ◌+◌, ◌*◌, ◌%◌, ◌^◌, ◌<◌, ◌≤◌, ◌≡◌, refl, sym, ◌∙◌, ap, subst, ◌⊎◌, inl, inr, arith,
  Bool-cases, true, List, Option, none, some, ltb, ltb→lt, ltb→le, get_or,
}
use a2ps.Hashtab.{
  Slot, empty, deleted, item, Keys, matches, increment, probe, first_deleted, vacant_slot,
  is_vacant,
}
use a2ps.Hashtab.Probe.{
  Slot-cases, next_round, next, slot_at, probe-empty, probe-deleted, probe-matches, probe-collides,
}
use a2ps.Hashtab.Ends.{IsPassed}

abbrev fst_or : Option (ℕ × ℕ) → ℕ
fst_or none = 0
fst_or (some p) = p.0

some_fst : {i n i' n' : ℕ} → ◌≡◌ {A = Option (ℕ × ℕ)} (some (i, n)) (some (i', n')) → i ≡ i'
some_fst e = ap fst_or e

module _ {ℓ} {A : Type ℓ} (keys : Keys A) (vec : List (Slot A)) (size : ℕ) where
  -- The slot that the search for a key visits in round `t`
  abbrev pub place : A → ℕ → ℕ
  place key t = (keys.hash_1 key + t * increment keys key) % size

  abbrev pub slot_of : A → ℕ → Slot A
  slot_of key t = get_or vec (place key t) empty

  -- The search stopped at an empty slot and took `i`, a vacant slot on its way.
  pub record StopsEmpty (key : A) (i stop : ℕ) : Type ℓ where
    pub ends : slot_of key stop ≡ empty
    pub round : ℕ
    pub soon : round ≤ stop
    pub taken : i ≡ place key round
    pub vacant : is_vacant (slot_of key round) ≡ true

  -- The search stopped at an item that matches.
  pub record StopsFound (key : A) (i stop : ℕ) : Type ℓ where
    pub found : A
    pub holds : slot_of key stop ≡ item found
    pub matching : matches keys key found ≡ true
    pub taken : i ≡ place key stop

  pub record Stops (key : A) (i : ℕ) : Type ℓ where
    pub stop : ℕ
    pub passes : (t : ℕ) → t < stop → IsPassed keys key (slot_of key t)
    pub stops : StopsEmpty key i stop ⊎ StopsFound key i stop

  -- The deleted slot that was passed first stands on the way.
  abbrev OnWay : A → ℕ → Option ℕ → Type 0
  OnWay key s none = Unit
  OnWay key s (some d) = (t : ℕ) × (t < s) × (d ≡ place key t) × (is_vacant (slot_of key t) ≡ true)

  module _ (key : A) (w : ℕ) (big : 2 ^ 64 ≡ size * w) where
    abbrev Passes : ℕ → Type 0
    Passes s = (t : ℕ) → t < s → IsPassed keys key (slot_of key t)

    next-place :
        (h1 s : ℕ) → h1 % size ≡ place key s → next keys vec size key h1 % size ≡ place key (suc s)
    next-place h1 s e =
        let step = increment keys key in
        let h = keys.hash_1 key + s * step in
        let none_more : (h % size + step) % 2 ^ 64 + 0 * step ≡ (h % size + step) % 2 ^ 64 =
          omega arith in
        let one_more : h + 1 * step ≡ keys.hash_1 key + suc s * step = omega arith in
        ap (λ x. (x + step) % 2 ^ 64 % size) e
        ∙ ap (λ x. x % size) (sym none_more)
        ∙ next_round h step 0 size w (2 ^ 64) big
        ∙ ap (λ x. x % size) one_more

    Passes-suc : (s : ℕ) → Passes s → IsPassed keys key (slot_of key s) → Passes (suc s)
    Passes-suc s h p t l = elim (Bool-cases (ltb t s)) [
      | inl e ↦ h t (ltb→lt t s e)
      | inr e ↦
          let same : s ≡ t = omega (arith, ltb→le t s e) in
          subst (λ n. IsPassed keys key (slot_of key n)) same p
    ]

    OnWay-suc : (s : ℕ) (d : Option ℕ) → OnWay key s d → OnWay key (suc s) d
    OnWay-suc s none h = tt
    OnWay-suc s (some d) (t, l, h, v) = (t, omega arith, h, v)

    first_deleted-OnWay :
        (s : ℕ) (d : Option ℕ)
        → OnWay key s d
        → slot_of key s ≡ deleted
        → OnWay key (suc s) (first_deleted d (place key s))
    first_deleted-OnWay s none h e = (s, omega arith, refl, ap is_vacant e)
    first_deleted-OnWay s (some d) h e = OnWay-suc s (some d) h

    taken_at :
        (s : ℕ) (d : Option ℕ)
        → OnWay key s d
        → slot_of key s ≡ empty
        → StopsEmpty key (vacant_slot d (place key s)) s
    taken_at s none h e = record {
      ends = e;
      round = s;
      soon = omega arith;
      taken = refl;
      vacant = ap is_vacant e;
    }
    taken_at s (some d) (t, l, h, v) e = record {
      ends = e;
      round = t;
      soon = omega arith;
      taken = h;
      vacant = v;
    }

    pub probe-Stops :
        (fuel h1 s : ℕ) (d : Option ℕ) (n i n' : ℕ)
        → h1 % size ≡ place key s
        → Passes s
        → OnWay key s d
        → probe keys vec size key fuel h1 d n ≡ some (i, n')
        → Stops key i
    unfolding probe
    probe-Stops zero h1 s d n i n' e p o r = cc
    probe-Stops (suc fuel) h1 s d n i n' e p o r =
        let at_s = ap (λ x. get_or vec x empty) e in
        let rest = next keys vec size key h1 in
        elim (Slot-cases (slot_at keys vec size key h1)) [
          | inl c ↦
              let got = sym (probe-empty keys vec size key fuel h1 d n c) ∙ r in
              let there = taken_at s d o (sym at_s ∙ c) in
              record {
                stop = s;
                passes = p;
                stops = inl (
                    subst (λ x. StopsEmpty key x s) (ap (vacant_slot d) (sym e) ∙ some_fst got)
                      there);
              }
          | inr (inl c) ↦
              let here = sym at_s ∙ c in
              probe-Stops fuel rest (suc s) (first_deleted d (h1 % size)) n i n' (next-place h1 s e)
                (Passes-suc s p (subst (IsPassed keys key) (sym here) tt))
                (subst (λ x. OnWay key (suc s) (first_deleted d x)) (sym e)
                  (first_deleted-OnWay s d o here))
                (sym (probe-deleted keys vec size key fuel h1 d n c) ∙ r)
          | inr (inr (a, c)) ↦
              let here = sym at_s ∙ c in
              elim (Bool-cases (matches keys key a)) [
                | inl m ↦
                    let got = sym (probe-matches keys vec size key fuel h1 d n a c m) ∙ r in
                    record {
                      stop = s;
                      passes = p;
                      stops = inr (record {
                        found = a;
                        holds = here;
                        matching = m;
                        taken = sym (some_fst got) ∙ e;
                      });
                    }
                | inr m ↦
                    probe-Stops fuel rest (suc s) d (n + 1) i n' (next-place h1 s e)
                      (Passes-suc s p (subst (IsPassed keys key) (sym here) m)) (OnWay-suc s d o)
                      (sym (probe-collides keys vec size key fuel h1 d n a c m) ∙ r)
              ]
        ]
