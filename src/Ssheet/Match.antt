-- ===== src/Ssheet/Match.antt =====
-- The routines of sshread.c that look for a word, a keyword, an operator or a sequence at the
-- current point of the buffer.
use a2ps.Prelude.{
  ℕ, zero, suc, ◌+◌, ◌-◌, ◌==◌, Bool, not, ◌&&◌, List, [], ◌∷◌, Option, none, some, ltb, get_or,
  take, drop, length, if◌then◌else◌,
}
use a2ps.Buffer.{Buffer}
use a2ps.Ssheet.{
  Fface, FacedString, Rule, Regexp, Words, Opening, opening_string, opening_regexp, Sequence,
  strprefix, find_string,
}

-- struct re_registers: the start and the end of each group
abbrev pub Registers : Type 0
Registers = ℕ → ℕ × ℕ

-- What re_match returns: -2, -1, or the length of what was matched
pub data MatchResult : Type 0 where
  internal_error no_match : MatchResult
  matched : ℕ → MatchResult

-- re_match of a pattern against a text, from an offset on
abbrev pub Matcher : Type 0
Matcher = ℕ → List ℕ → ℕ → Registers → MatchResult × Registers

-- What an attempt leaves: the right hand side if it succeeded, and the buffer and the registers
pub record Attempt {ℓ} (A : Type ℓ) : Type ℓ where
  pub found : Option A
  pub buffer : Buffer
  pub registers : Registers

abbrev pub hit {ℓ} : {A : Type ℓ} → A → Buffer → Registers → Attempt A
hit a b regs = record { found = some a; buffer = b; registers = regs }

abbrev pub miss {ℓ} : {A : Type ℓ} → Buffer → Registers → Attempt A
miss b regs = record { found = none; buffer = b; registers = regs }

-- `if (attempt) return 1;`, with what follows it
unfoldable pub or_else {ℓ} : {A : Type ℓ} → Attempt A → (Buffer → Registers → Attempt A) → Attempt A
or_else a next = elim a.found [ some x ↦ a | none ↦ next a.buffer a.registers ]

abbrev pub skip_bytes : ℕ → Buffer → Buffer
skip_bytes n b = record b { curr = b.curr + n }

abbrev pub token_set_registers : ℕ → ℕ → Registers → Registers
token_set_registers start len regs i = if i == 0 then (start, start + len) else regs i

-- What begins at the current point
abbrev pub ahead : Buffer → List ℕ
ahead b = drop b.curr b.value

-- A string rule that matches: its word is taken.
abbrev pub take_rule : Rule → Buffer → Registers → Attempt (List FacedString)
take_rule r b regs =
    hit r.rhs (skip_bytes (length r.word) b) (token_set_registers b.curr (length r.word) regs)

-- The test of a keyword: no byte of the alphabet follows it.
abbrev pub is_keyword : (ℕ → Bool) → List ℕ → Rule → Bool
is_keyword alphabet string r =
    strprefix r.word string && not (alphabet (get_or string (length r.word) 0))

abbrev pub is_operator : List ℕ → Rule → Bool
is_operator string r = strprefix r.word string

-- Where the do-while loop of match_word ends; `n` bytes are left behind `curr`.
unfoldable pub word_end : (ℕ → Bool) → List ℕ → ℕ → ℕ → ℕ
word_end alphabet content curr zero = curr
word_end alphabet content curr (suc n) =
    let rest = word_end alphabet content (curr + 1) n in
    if alphabet (get_or content curr 0) then rest else curr

abbrev pub plain_rhs : Fface → List FacedString
plain_rhs face = record { string = none; reg_ref = 0; face = face } ∷ []

-- How many bytes match_word takes
unfoldable pub word_length : (ℕ → Bool) → Buffer → ℕ
unfolding word_end
word_length alphabet b = word_end alphabet b.content (b.curr + 1) (b.len - (b.curr + 1)) - b.curr

abbrev pub Opened : Type 0
Opened = Sequence × List FacedString

-- The answer of re_match for one pattern; `goes` is what its rule stands for.
abbrev pub answer {ℓ} : {A : Type ℓ} → A → Buffer → MatchResult × Registers → Attempt A
answer goes b (matched n, regs) = hit goes (skip_bytes n b) regs
answer goes b (no_match, regs) = miss b regs
answer goes b (internal_error, regs) = miss b regs

module _ (re_match : Matcher) where
  unfoldable pub try_regexp {ℓ} : {A : Type ℓ} → A → ℕ → Buffer → Registers → Attempt A
  try_regexp goes regex b regs = answer goes b (re_match regex (take b.len b.value) b.curr regs)

  -- The regexps, in reversed order
  unfoldable pub try_regexps : List Regexp → Buffer → Registers → Attempt (List FacedString)
  try_regexps [] b regs = miss b regs
  try_regexps (r ∷ rs) b regs =
      or_else (try_regexps rs b regs) (λ b regs. try_regexp r.rhs r.regex b regs)

  -- First the strings, then the regexps
  abbrev pub strings_first : Option Rule → Words → Buffer → Registers → Attempt (List FacedString)
  strings_first none words b regs = try_regexps words.regexps b regs
  strings_first (some r) words b regs = take_rule r b regs

  -- The index `(unsigned) *string` of a byte of 128 and more is far out of the array: none.
  unfoldable pub match_keyword :
      Words → (ℕ → Bool) → Buffer → Registers → Option (Attempt (List FacedString))
  match_keyword words alphabet b regs =
      let string = ahead b in
      let c = get_or string 0 0 in
      if ltb 127 c
      then none
      else some (strings_first (find_string (is_keyword alphabet string) words c) words b regs)

  unfoldable pub match_operator : Words → Buffer → Registers → Attempt (List FacedString)
  match_operator words b regs =
      let string = ahead b in
      strings_first (find_string (is_operator string) words (get_or string 0 0)) words b regs

  unfoldable pub try_opening : Sequence → Opening → Buffer → Registers → Attempt Opened
  try_opening q (opening_regexp r) b regs = try_regexp (q, r.rhs) r.regex b regs
  try_opening q (opening_string r) b regs =
      if strprefix r.word (ahead b)
      then hit (q, r.rhs) (skip_bytes (length r.word) b)
          (token_set_registers b.curr (length r.word) regs)
      else miss b regs

  -- The sequences, in reversed order
  unfoldable pub match_sequence : List Sequence → Buffer → Registers → Attempt Opened
  match_sequence [] b regs = miss b regs
  match_sequence (q ∷ qs) b regs =
      or_else (match_sequence qs b regs) (λ b regs. try_opening q q.opening b regs)
