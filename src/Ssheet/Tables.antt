-- ===== src/Ssheet/Tables.antt =====
-- The tables that words_finalize sets: the interval of a byte holds what begins with it.
use a2ps.Prelude.{
  ℕ, zero, suc, ◌+◌, ◌≤◌, ◌<◌, ◌≡◌, refl, sym, ◌∙◌, ap, subst, ◌==◌, ==_iff, ==_refl, Bool, true,
  false, Bool-cases, Option-cases, inl, inr, ◌⊎◌, List, [], ◌∷◌, Option, some, some_inj, length,
  arith, if◌then◌else◌,
}
use a2ps.Ssheet.{Rule, Words, first_byte, update, note_rule, index_from}
use a2ps.PsGen.Page.{is_null}
use a2ps.Ssheet.Search.{At}

-- The tables behind the loop of words_finalize, for one byte
min-stays :
    (c i lo : ℕ) (rs : List Rule) (w : Words)
    → w.min c ≡ some lo
    → (index_from i rs w).min c ≡ some lo
unfolding index_from
min-stays c i lo [] w h = h
min-stays c i lo (r ∷ rs) w h =
    min-stays c (suc i) lo rs (note_rule i r w) (kept (Bool-cases (c == first_byte r)))
  where
    kept :
        ((c == first_byte r) ≡ true) ⊎ ((c == first_byte r) ≡ false)
        → (note_rule i r w).min c ≡ some lo
    kept (inl e) =
        let same : c ≡ first_byte r = (==_iff c (first_byte r)).0 e in
        let set_already : is_null (w.min (first_byte r)) ≡ false =
          ap is_null (ap w.min (sym same) ∙ h) in
        ap (λ t. (if t then update (first_byte r) i w.min else w.min) c) set_already ∙ h
    kept (inr e) = elim (Bool-cases (is_null (w.min (first_byte r)))) [
      | inl z ↦ rw (z, e) h
      | inr z ↦ rw z h
    ]

-- An entry of a table behind an update
update-cases :
    (c i d x : ℕ) (table : ℕ → Option ℕ)
    → update c i table d ≡ some x
    → (table d ≡ some x) ⊎ (x ≡ i)
update-cases c i d x table h = elim (Bool-cases (d == c)) [
  | inl e ↦ inr (sym (some_inj (ap (λ t. if t then some i else table d) (sym e) ∙ h)))
  | inr e ↦ inl (ap (λ t. if t then some i else table d) (sym e) ∙ h)
]

update_self : (c i : ℕ) (table : ℕ → Option ℕ) → update c i table c ≡ some i
update_self c i table = rw (==_refl c) refl

note-min :
    (i : ℕ) (r : Rule) (w : Words) (c lo : ℕ)
    → (note_rule i r w).min c ≡ some lo
    → (w.min c ≡ some lo) ⊎ (lo ≡ i)
note-min i r w c lo h =
    let choice = λ (t : Bool). (if t then update (first_byte r) i w.min else w.min) c in
    elim (Bool-cases (is_null (w.min (first_byte r)))) [
      | inl z ↦ update-cases (first_byte r) i c lo w.min (ap choice (sym z) ∙ h)
      | inr z ↦ inl (ap choice (sym z) ∙ h)
    ]

note-min_self :
    (i : ℕ) (r : Rule) (w : Words) → (lo : ℕ) × ((note_rule i r w).min (first_byte r) ≡ some lo)
note-min_self i r w = elim (Option-cases (w.min (first_byte r))) [
  | inl z ↦ (i, rw z (update_self (first_byte r) i w.min))
  | inr (lo, z) ↦ (lo, rw z z)
]

pub max-bound :
    (c i x : ℕ) (rs : List Rule) (w : Words)
    → ((y : ℕ) → w.max c ≡ some y → y < i)
    → (index_from i rs w).max c ≡ some x
    → x < i + length rs
unfolding index_from
max-bound c i x [] w below h = omega (arith, below x h)
max-bound c i x (r ∷ rs) w below h =
    omega (arith, max-bound c (suc i) x rs (note_rule i r w) below' h)
  where
    below' : (y : ℕ) → (note_rule i r w).max c ≡ some y → y < suc i
    below' y e = elim (update-cases (first_byte r) i c y w.max e) [
      | inl old ↦ omega (arith, below y old)
      | inr new ↦ omega arith
    ]

max-grows :
    (c i x : ℕ) (rs : List Rule) (w : Words)
    → w.max c ≡ some x
    → x ≤ i
    → (y : ℕ) × ((index_from i rs w).max c ≡ some y) × (x ≤ y)
unfolding index_from
max-grows c i x [] w h l = (x, h, omega arith)
max-grows c i x (r ∷ rs) w h l = elim (Bool-cases (c == first_byte r)) [
  | inl e ↦
      let (y, at_c, above) = max-grows c (suc i) i rs (note_rule i r w) (rw e refl) (omega arith) in
      (y, at_c, omega arith)
  | inr e ↦ max-grows c (suc i) x rs (note_rule i r w) (rw e h) (omega arith)
]

-- The interval of a byte holds every rule that begins with it.
pub record Covers (w : Words) (c k : ℕ) : Type 0 where
  pub lo : ℕ
  pub hi : ℕ
  pub at_min : w.min c ≡ some lo
  pub at_max : w.max c ≡ some hi
  pub from : lo ≤ k
  pub to : k ≤ hi

pub index_from-Covers :
    (i k : ℕ) (r : Rule) (rs : List Rule) (w : Words)
    → At rs k r
    → ((x : ℕ) → w.min (first_byte r) ≡ some x → x ≤ i)
    → Covers (index_from i rs w) (first_byte r) (i + k)
unfolding index_from
index_from-Covers i k r [] w h below = cc
index_from-Covers i zero r (q ∷ rs) w h below =
    let c = first_byte r in
    let same : first_byte q ≡ c = ap first_byte (some_inj h) in
    let noted = note_rule i q w in
    let (x, at_x) = note-min_self i q w in
    let at_min : noted.min c ≡ some x = ap noted.min (sym same) ∙ at_x in
    let at_max : noted.max c ≡ some i =
      ap noted.max (sym same) ∙ update_self (first_byte q) i w.max in
    let (y, later_max, above) = max-grows c (suc i) i rs noted at_max (omega arith) in
    let low : x ≤ i = elim (note-min i q w c x at_min) [
      | inl old ↦ below x old
      | inr new ↦ omega arith
    ] in
    record {
      lo = x;
      hi = y;
      at_min = min-stays c (suc i) x rs noted at_min;
      at_max = later_max;
      from = omega arith;
      to = omega arith;
    }
index_from-Covers i (suc k) r (q ∷ rs) w h below =
    let e : suc i + k ≡ i + suc k = omega arith in
    subst (Covers (index_from (suc i) rs (note_rule i q w)) (first_byte r)) e
      (index_from-Covers (suc i) k r rs (note_rule i q w) h below')
  where
    below' : (x : ℕ) → (note_rule i q w).min (first_byte r) ≡ some x → x ≤ suc i
    below' x at_x = elim (note-min i q w (first_byte r) x at_x) [
      | inl old ↦ omega (arith, below x old)
      | inr new ↦ omega arith
    ]
