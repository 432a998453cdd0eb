-- ===== src/Ssheet/Sample.antt =====
-- A small style sheet, with a matcher whose patterns are all one digit.
use a2ps.Prelude.{
  ℕ, zero, suc, ◌+◌, ◌<◌, ◌≡◌, refl, sym, ◌∙◌, ap, Bool, true, false, ◌&&◌, List, [], ◌∷◌, Option,
  none, some, length, get_elem?, ltb, ltb→lt, arith, if◌then◌else◌,
}
use a2ps.Ssheet.{
  Fface, plain_fface, FacedString, Rule, Regexp, Words, words_new, index_strings, index_from,
  Sequence, opening_string, StyleSheet,
}
use a2ps.Ssheet.Match.{Registers, MatchResult, matched, no_match, token_set_registers, plain_rhs}
use a2ps.Ssheet.Token.{Lexer}
use a2ps.Ssheet.Tiles.{IsMatcher, Advances, and_right}
use a2ps.Ssheet.Tokens.{GoodSheet}
use a2ps.Ssheet.Plainly.{unflagged}
use a2ps.Ssheet.Intervals.{indexed}

abbrev pub is_digit : ℕ → Bool
is_digit c = ltb 47 c && ltb c 58

abbrev pub is_letter : ℕ → Bool
is_letter c = ltb 96 c && ltb c 123

-- Every pattern is one digit.
abbrev pub one_byte_if : Bool → ℕ → Registers → MatchResult × Registers
one_byte_if digit start regs =
    if digit then (matched 1, token_set_registers start 1 regs) else (no_match, regs)

abbrev pub digit_answer : ℕ → Registers → Option ℕ → MatchResult × Registers
digit_answer start regs none = (no_match, regs)
digit_answer start regs (some c) = one_byte_if (is_digit c) start regs

abbrev pub match_digit : ℕ → List ℕ → ℕ → Registers → MatchResult × Registers
match_digit regex text start regs = digit_answer start regs (get_elem? text start)

-- What a digit that was matched tells
record Digit (text : List ℕ) (start n : ℕ) (after : Registers) : Type 0 where
  inside_text : start < length text
  one_byte : n ≡ 1
  register : after 0 ≡ (start, start + 1)

get_elem?-lt : (text : List ℕ) (i c : ℕ) → get_elem? text i ≡ some c → i < length text
get_elem?-lt [] i c h = cc
get_elem?-lt (x ∷ xs) zero c h = omega arith
get_elem?-lt (x ∷ xs) (suc i) c h = omega (arith, get_elem?-lt xs i c h)

abbrev pub length_of : MatchResult × Registers → ℕ
length_of (matched n, regs) = n
length_of (_, regs) = 0

match_digit-Digit :
    (regex start n : ℕ) (text : List ℕ) (regs after : Registers)
    → match_digit regex text start regs ≡ (matched n, after)
    → Digit text start n after
match_digit-Digit regex start n text regs after e = by_answer (get_elem? text start) refl e
  where
    taken :
        (c : ℕ) (digit : Bool)
        → get_elem? text start ≡ some c
        → one_byte_if digit start regs ≡ (matched n, after)
        → Digit text start n after
    taken c true at_c e = record {
      inside_text = get_elem?-lt text start c at_c;
      one_byte = sym (ap length_of e);
      register = sym (ap (λ (r : MatchResult × Registers). r.1 0) e);
    }
    taken c false at_c e = cc

    by_answer :
        (o : Option ℕ)
        → get_elem? text start ≡ o
        → digit_answer start regs o ≡ (matched n, after)
        → Digit text start n after
    by_answer none at_c e = cc
    by_answer (some c) at_c e = taken c (is_digit c) at_c e

pub match_digit-IsMatcher : IsMatcher match_digit
match_digit-IsMatcher = record {
  inside = λ regex start n text regs after e.
      let d = match_digit-Digit regex start n text regs after e in
      omega (arith, d.inside_text, d.one_byte);
  whole = λ regex start n text regs after e.
      let d = match_digit-Digit regex start n text regs after e in
      d.register ∙ ap (λ k. (start, start + k)) (sym d.one_byte);
}

pub match_digit-Advances : Advances match_digit
match_digit-Advances regex start n text regs after e =
    omega (arith, (match_digit-Digit regex start n text regs after e).one_byte)

-- The face numbers of keywords, strings and comments
abbrev pub keyword_rhs : List FacedString
keyword_rhs = plain_rhs (unflagged 1)

abbrev pub rule : List ℕ → List FacedString → Rule
rule word rhs = record { word = word; rhs = rhs }

abbrev pub words : List Rule → List Regexp → Words
words = indexed

-- `if` and `ifdef` are keywords, `+` and digits are operators, and strings stand in quotes, where
-- a backslash and a quote do not end them.
abbrev pub quote : Rule
quote = rule (b'"' ∷ []) (plain_rhs plain_fface)

abbrev pub quoted : Sequence
quoted = record {
  opening = opening_string quote;
  face = unflagged 7;
  exceptions = words (rule (b'\\' ∷ b'"' ∷ []) (plain_rhs (unflagged 7)) ∷ []) [];
  close = words (quote ∷ []) [];
}

abbrev pub keywords : List Rule
keywords =
    rule (b'i' ∷ b'f' ∷ []) keyword_rhs
    ∷ rule (b'i' ∷ b'f' ∷ b'd' ∷ b'e' ∷ b'f' ∷ []) keyword_rhs
    ∷ []

abbrev pub digit : Regexp
digit = record { regex = 0; rhs = plain_rhs (unflagged 6) }

abbrev pub sheet : StyleSheet
sheet = record {
  alpha1 = is_letter;
  alpha2 = is_letter;
  keywords = words keywords [];
  operators = words (rule (b'+' ∷ []) (plain_rhs (unflagged 2)) ∷ []) (digit ∷ []);
  sequences = quoted ∷ [];
}

letter_ascii : (c : ℕ) → is_letter c ≡ true → c < 128
letter_ascii c h = omega (arith, ltb→lt c 123 (and_right (ltb 96 c) (ltb c 123) h))

abbrev pub same : ℕ → ℕ
same c = c

abbrev pub no_alias : List ℕ → Option ℕ
no_alias name = none

abbrev pub start : Lexer
start = record {
  return_to_plain = false;
  sequence = none;
  plain_face = plain_fface;
  registers = λ i. (0, 0);
}

abbrev pub no_tags : ℕ → List ℕ
no_tags k = []

-- `if a+1`, and a string with a quote in it
abbrev pub lines : List (List ℕ)
lines =
    (b'i' ∷ b'f' ∷ b' ' ∷ b'a' ∷ b'+' ∷ b'1' ∷ [])
    ∷ (b'"' ∷ b'\\' ∷ b'"' ∷ b'b' ∷ b'"' ∷ b'c' ∷ [])
    ∷ []

pub decorates : (f : Fface) → f.flags ≡ 0 → plain_rhs f ≡ plain_rhs (unflagged f.face)
decorates f h = λ i. plain_rhs (record { face = f.face; flags = h i })

pub sheet-Good :
    (Good : List FacedString → Type 0) (Fit : Fface → Type 0)
    → ((face : ℕ) → Good (plain_rhs (unflagged face)))
    → ((f : Fface) → Fit f → Good (plain_rhs f))
    → ((face : ℕ) → Fit (unflagged face))
    → GoodSheet Good Fit sheet
unfolding index_strings index_from words_new
sheet-Good Good Fit good plain_good fit = record {
  plain_fits = fit 0;
  plain_good = plain_good;
  ascii = letter_ascii;
  keywords_good = (((good 1, ground arith), ((good 1, ground arith), tt)), tt);
  operators_good = (((good 2, ground arith), tt), (good 6, tt));
  sequences_good = (
    record {
      opening_good = (good 0, ground arith);
      face_fits = fit 7;
      exceptions_good = (((good 7, ground arith), tt), tt);
      close_good = (((good 0, ground arith), tt), tt);
    },
    tt,
  );
}
