-- ===== src/Ssheet/Attempts.antt =====
-- The attempts of sshread.c at the current point of a line: each takes a piece of it or nothing.
use a2ps.Prelude.{
  ℕ, zero, suc, ◌+◌, ◌-◌, ◌≤◌, ◌<◌, ◌≡◌, refl, Bool, true, false, le→ltb, Bool-cases, Option-cases,
  inl, inr, List, [], ◌∷◌, All, some, length, length-drop, length-take, take, get_or, ltb, arith,
}
use a2ps.Buffer.{Buffer}
use a2ps.Ssheet.{
  Fface, FacedString, Rule, Regexp, Words, Opening, opening_string, opening_regexp, Sequence,
  strprefix, find_string,
}
use a2ps.Ssheet.Match.{
  Registers, Matcher, MatchResult, matched, no_match, internal_error, Attempt, hit, skip_bytes,
  ahead, token_set_registers, try_regexp, try_regexps, strings_first, answer, match_operator,
  match_keyword, match_sequence, try_opening, Opened, is_operator, is_keyword, word_end,
  word_length,
}
use a2ps.Ssheet.Tiles.{
  IsText, IsMatcher, Advances, Tile, missed, taken, or_else-Tile, length-strprefix, and_left,
  find_string-Found,
}

-- A string that is not empty, with a right hand side of a kind
abbrev pub GoodRule : (List FacedString → Type 0) → Rule → Type 0
GoodRule Good r = Good r.rhs × (0 < length r.word)

abbrev pub GoodRegexp : (List FacedString → Type 0) → Regexp → Type 0
GoodRegexp Good r = Good r.rhs

abbrev pub GoodWords : (List FacedString → Type 0) → Words → Type 0
GoodWords Good w = All (GoodRule Good) w.strings × All (GoodRegexp Good) w.regexps

abbrev pub GoodOpening : (List FacedString → Type 0) → Opening → Type 0
GoodOpening Good (opening_string r) = GoodRule Good r
GoodOpening Good (opening_regexp r) = GoodRegexp Good r

-- The faces of a sequence are of a kind too.
pub record GoodSequence (Good : List FacedString → Type 0) (Fit : Fface → Type 0) (q : Sequence)
    : Type 0 where
  pub opening_good : GoodOpening Good q.opening
  pub face_fits : Fit q.face
  pub exceptions_good : GoodWords Good q.exceptions
  pub close_good : GoodWords Good q.close

module _ (re_match : Matcher) (m : IsMatcher re_match) (adv : Advances re_match) (b : Buffer)
    (t : IsText b) where
  length-text : length (take b.len b.value) ≡ b.len
  length-text = length-take b.len b.value (omega (arith, t.paired))

  answer-Tile :
      {A : Type 0} (P : A → Type 0) (a : A) (regex : ℕ) (regs : Registers)
      (r : MatchResult × Registers)
      → P a
      → re_match regex (take b.len b.value) b.curr regs ≡ r
      → Tile P b (answer a b r)
  answer-Tile P a regex regs (matched n, after) p e =
      taken a n after p (adv regex b.curr n (take b.len b.value) regs after e)
        (omega (arith, length-text, m.inside regex b.curr n (take b.len b.value) regs after e))
        (m.whole regex b.curr n (take b.len b.value) regs after e)
  answer-Tile P a regex regs (no_match, after) p e = missed after
  answer-Tile P a regex regs (internal_error, after) p e = missed after

  try_regexp-Tile :
      {A : Type 0} (P : A → Type 0) (a : A) (regex : ℕ) (regs : Registers)
      → P a
      → Tile P b (try_regexp re_match a regex b regs)
  unfolding try_regexp
  try_regexp-Tile P a regex regs p = answer-Tile P a regex regs _ p refl

  word-Tile :
      {A : Type 0} (P : A → Type 0) (a : A) (w : List ℕ) (regs : Registers)
      → P a
      → 0 < length w
      → strprefix w (ahead b) ≡ true
      → Tile P b (hit a (skip_bytes (length w) b) (token_set_registers b.curr (length w) regs))
  word-Tile P a w regs p l e =
      let fits : b.curr + length w ≤ b.len =
        omega (arith, t.paired, length-strprefix w (ahead b) e, length-drop b.curr b.value) in
      taken a (length w) _ p l fits refl

  module _ (Good : List FacedString → Type 0) where
    try_regexps-Tile :
        (rs : List Regexp) (regs : Registers)
        → All (GoodRegexp Good) rs
        → Tile Good b (try_regexps re_match rs b regs)
    unfolding try_regexps
    try_regexps-Tile [] regs h = missed regs
    try_regexps-Tile (r ∷ rs) regs h =
        or_else-Tile _ (try_regexps-Tile rs regs h.1)
          (λ regs. try_regexp-Tile Good r.rhs r.regex regs h.0)

    strings_first-Tile :
        (w : Words) (regs : Registers) (p : Rule → Bool) (c : ℕ)
        → GoodWords Good w
        → ((r : Rule) → p r ≡ true → strprefix r.word (ahead b) ≡ true)
        → Tile Good b (strings_first re_match (find_string p w c) w b regs)
    strings_first-Tile w regs p c h is_prefix = elim (Option-cases (find_string p w c)) [
      | inl e ↦ rw e (try_regexps-Tile w.regexps regs h.1)
      | inr (r, e) ↦
          let found = find_string-Found (GoodRule Good) p w c h.0 e in
          rw e (word-Tile Good r.rhs r.word regs found.0.0 found.0.1 (is_prefix r found.1))
    ]

    pub match_operator-Tile :
        (w : Words) (regs : Registers)
        → GoodWords Good w
        → Tile Good b (match_operator re_match w b regs)
    unfolding match_operator
    match_operator-Tile w regs h = strings_first-Tile w regs (is_operator (ahead b)) _ h (λ r e. e)

    -- A keyword is looked for only where the index is in the array.
    pub match_keyword-Tile :
        (w : Words) (alphabet : ℕ → Bool) (regs : Registers)
        → GoodWords Good w
        → get_or (ahead b) 0 0 < 128
        → (a : Attempt (List FacedString)) × (match_keyword re_match w alphabet b regs ≡ some a)
          × Tile Good b a
    unfolding match_keyword
    match_keyword-Tile w alphabet regs h ascii =
        let small : ltb 127 (get_or (ahead b) 0 0) ≡ false =
          le→ltb 127 (get_or (ahead b) 0 0) (omega arith) in
        (
          strings_first re_match
              (find_string (is_keyword alphabet (ahead b)) w (get_or (ahead b) 0 0)) w b regs,
          rw small refl,
          strings_first-Tile w regs (is_keyword alphabet (ahead b)) _ h
              (λ r e. and_left (strprefix r.word (ahead b)) _ e),
        )

    try_opening-Tile :
        (Fit : Fface → Type 0) (q : Sequence) (o : Opening) (regs : Registers)
        → GoodSequence Good Fit q
        → GoodOpening Good o
        → Tile
            (λ (x : Opened). GoodSequence Good Fit x.0 × Good x.1)
            b
            (try_opening re_match q o b regs)
    unfolding try_opening
    try_opening-Tile Fit q (opening_regexp r) regs g h =
        try_regexp-Tile (λ (x : Opened). GoodSequence Good Fit x.0 × Good x.1) (q, r.rhs) r.regex
          regs (g, h)
    try_opening-Tile Fit q (opening_string r) regs g h =
        elim (Bool-cases (strprefix r.word (ahead b))) [
          | inl e ↦ rw e (
              word-Tile (λ (x : Opened). GoodSequence Good Fit x.0 × Good x.1) (q, r.rhs) r.word
                regs (g, h.0) h.1 e)
          | inr e ↦ rw e (missed regs)
        ]

    pub match_sequence-Tile :
        (Fit : Fface → Type 0) (qs : List Sequence) (regs : Registers)
        → All (GoodSequence Good Fit) qs
        → Tile
            (λ (x : Opened). GoodSequence Good Fit x.0 × Good x.1)
            b
            (match_sequence re_match qs b regs)
    unfolding match_sequence
    match_sequence-Tile Fit [] regs h = missed regs
    match_sequence-Tile Fit (q ∷ qs) regs h =
        or_else-Tile _ (match_sequence-Tile Fit qs regs h.1)
          (λ regs. try_opening-Tile Fit q q.opening regs h.0 h.0.opening_good)

word_end-bounds :
    (alphabet : ℕ → Bool) (content : List ℕ) (curr n : ℕ)
    → (curr ≤ word_end alphabet content curr n) × (word_end alphabet content curr n ≤ curr + n)
unfolding word_end
word_end-bounds alphabet content curr zero = (omega arith, omega arith)
word_end-bounds alphabet content curr (suc n) =
    let (lower, upper) = word_end-bounds alphabet content (curr + 1) n in
    elim (Bool-cases (alphabet (get_or content curr 0))) [
      | inl e ↦ rw e ((omega arith, omega arith))
      | inr e ↦ rw e ((omega arith, omega arith))
    ]

-- A word is at least one byte, and ends in the line.
pub word_length-bounds :
    (alphabet : ℕ → Bool) (b : Buffer)
    → b.curr < b.len
    → (0 < word_length alphabet b) × (b.curr + word_length alphabet b ≤ b.len)
unfolding word_length
word_length-bounds alphabet b h =
    let (lower, upper) = word_end-bounds alphabet b.content (b.curr + 1) (b.len - (b.curr + 1)) in
    (omega arith, omega arith)
