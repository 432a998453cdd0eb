-- ===== src/Ssheet/Tiles.antt =====
-- What an attempt takes of a line: a piece that begins at the current point, and register 0 on it.
use a2ps.Prelude.{
  ℕ, zero, suc, ◌+◌, ◌-◌, ◌≤◌, ◌<◌, ◌≡◌, refl, sym, ◌∙◌, ap, subst, Bool, true, false, ◌&&◌,
  Bool-cases, inl, inr, List, [], ◌∷◌, All, Option, none, some, length, drop, ◌==◌, some_inj,
  get_elem?, get_or, arith, if◌then◌else◌,
}
use a2ps.Buffer.{Buffer}
use a2ps.Ssheet.{Rule, Words, strprefix, rule_or, last_between, search_between, find_string}
use a2ps.Ssheet.Match.{Registers, Matcher, matched, Attempt, hit, miss, or_else, skip_bytes}

-- The text and the copy of it that is compared are as long as `len` says, and the copy is in
-- ASCII where the text is.
pub record IsText (b : Buffer) : Type 0 where
  pub measured : b.len ≡ length b.content
  pub paired : length b.value ≡ b.len
  pub cased : (i : ℕ) → get_or b.content i 0 < 128 → get_or (drop i b.value) 0 0 < 128

-- What the manual of re_match promises: a match lies in the text and is in register 0.
pub record IsMatcher (re_match : Matcher) : Type 0 where
  pub inside :
      (regex start n : ℕ) (text : List ℕ) (regs after : Registers)
      → re_match regex text start regs ≡ (matched n, after)
      → start + n ≤ length text
  pub whole :
      (regex start n : ℕ) (text : List ℕ) (regs after : Registers)
      → re_match regex text start regs ≡ (matched n, after)
      → after 0 ≡ (start, start + n)

-- No pattern matches the empty text.
abbrev pub Advances : Matcher → Type 0
Advances re_match =
    (regex start n : ℕ) (text : List ℕ) (regs after : Registers)
    → re_match regex text start regs ≡ (matched n, after)
    → 0 < n

-- An attempt at the current point: nothing changed, or at least one byte was taken.
pub data Tile {A : Type 0} (P : A → Type 0) (b : Buffer) : Attempt A → Type 0 where
  missed : (regs : Registers) → Tile P b (miss b regs)
  taken :
      (a : A) (n : ℕ) (regs : Registers)
      → P a
      → 0 < n
      → b.curr + n ≤ b.len
      → regs 0 ≡ (b.curr, b.curr + n)
      → Tile P b (hit a (skip_bytes n b) regs)

pub or_else-Tile :
    {A : Type 0} {P : A → Type 0} {b : Buffer} {a : Attempt A}
    (next : Buffer → Registers → Attempt A)
    → Tile P b a
    → ((regs : Registers) → Tile P b (next b regs))
    → Tile P b (or_else a next)
unfolding or_else
or_else-Tile next (missed regs) h = h regs
or_else-Tile next (taken a n regs p l e r) h = taken a n regs p l e r

pub and_left : (a b : Bool) → (a && b) ≡ true → a ≡ true
and_left true b h = refl
and_left false b h = cc

pub and_right : (a b : Bool) → (a && b) ≡ true → b ≡ true
and_right true b h = h
and_right false b h = cc

pub length-strprefix : (w s : List ℕ) → strprefix w s ≡ true → length w ≤ length s
unfolding strprefix
length-strprefix [] s h = omega arith
length-strprefix (c ∷ cs) [] h = cc
length-strprefix (c ∷ cs) (d ∷ ds) h =
    omega (arith, length-strprefix cs ds (and_right (c == d) (strprefix cs ds) h))

-- What a search finds is a rule of the list that passes the test.
abbrev pub Found : (Rule → Type 0) → (Rule → Bool) → Rule → Type 0
Found Q p r = Q r × (p r ≡ true)

get_elem?-All :
    (Q : Rule → Type 0) (rs : List Rule) (i : ℕ) {r : Rule}
    → All Q rs
    → get_elem? rs i ≡ some r
    → Q r
get_elem?-All Q [] i h e = cc
get_elem?-All Q (r ∷ rs) zero h e = subst Q (some_inj e) h.0
get_elem?-All Q (r ∷ rs) (suc i) h e = get_elem?-All Q rs i h.1 e

rule_or-Found :
    (Q : Rule → Type 0) (p : Rule → Bool) (q rest : Option Rule) {r : Rule}
    → ((x : Rule) → q ≡ some x → Q x)
    → (rest ≡ some r → Found Q p r)
    → rule_or p q rest ≡ some r
    → Found Q p r
rule_or-Found Q p none rest good other e = cc
rule_or-Found Q p (some q) rest {r} good other e = elim (Bool-cases (p q)) [
  | inl passes ↦
      let same : q ≡ r = some_inj (ap (λ t. if t then some q else rest) (sym passes) ∙ e) in
      subst (Found Q p) same (good q refl, passes)
  | inr fails ↦ other (ap (λ t. if t then some q else rest) (sym fails) ∙ e)
]

last_between-Found :
    (Q : Rule → Type 0) (p : Rule → Bool) (rs : List Rule) (lo n : ℕ) {r : Rule}
    → All Q rs
    → last_between p rs lo n ≡ some r
    → Found Q p r
unfolding last_between
last_between-Found Q p rs lo zero h e = cc
last_between-Found Q p rs lo (suc n) h e =
    rule_or-Found Q p (get_elem? rs (lo + n)) (last_between p rs lo n)
      (λ x there. get_elem?-All Q rs (lo + n) h there) (last_between-Found Q p rs lo n h) e

pub find_string-Found :
    (Q : Rule → Type 0) (p : Rule → Bool) (w : Words) (c : ℕ) {r : Rule}
    → All Q w.strings
    → find_string p w c ≡ some r
    → Found Q p r
unfolding find_string
find_string-Found Q p w c h e = search_between-Found (w.min c) (w.max c) e
  where
    search_between-Found :
        (lo hi : Option ℕ) {r : Rule} → search_between p w.strings lo hi ≡ some r → Found Q p r
    search_between-Found none hi e = cc
    search_between-Found (some lo) none e = cc
    search_between-Found (some lo) (some hi) e =
        last_between-Found Q p w.strings lo (suc hi - lo) h e
