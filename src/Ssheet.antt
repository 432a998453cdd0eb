-- ===== src/Ssheet.antt =====
-- src/sshread.c and src/ssheet.c: style sheets, what they recognise in a text, and its printing.
--
-- struct rule is two records: Rule, whose matcher is a string, and Regexp, whose matcher is a
-- compiled pattern. A pattern is a number, and re_match of the regular expressions is a parameter.
-- Registers hold the values of regoff_t converted to unsigned. Pointers into the strings of struct
-- words are indices. Alphabets are those of a sheet that was finalised. Strings hold no zero byte.
pub mod Match
pub mod Token
pub mod Print
pub mod Tiles
pub mod Attempts
pub mod Tokens
pub mod Loop
pub mod Ends
pub mod Plainly
pub mod Colours
pub mod Rounds
pub mod Painting
pub mod Search
pub mod Tables
pub mod Intervals
pub mod Longest
pub mod Sample
pub mod Tests
use a2ps.Prelude.{
  ℕ, zero, suc, ◌+◌, ◌-◌, ◌==◌, Bool, true, false, ◌&&◌, List, [], ◌∷◌, Option, none, some,
  get_elem?, get_or, if◌then◌else◌,
}
use a2ps.PsGen.Page.{is_null}

-- struct fface_s; the flags are their sum.
pub record Fface : Type 0 where
  pub face : ℕ
  pub flags : ℕ

-- `fface_squ`
abbrev pub fface_squ : Fface → Fface → Bool
fface_squ f g = f.face == g.face && f.flags == g.flags

abbrev pub plain_fface : Fface
plain_fface = record { face = 0; flags = 0 }

-- struct faced_string
pub record FacedString : Type 0 where
  pub string : Option (List ℕ)
  pub reg_ref : ℕ
  pub face : Fface

-- struct rule with no regex
pub record Rule : Type 0 where
  pub word : List ℕ
  pub rhs : List FacedString

-- struct rule with a regex
pub record Regexp : Type 0 where
  pub regex : ℕ
  pub rhs : List FacedString

-- struct words
pub record Words : Type 0 where
  pub strings : List Rule
  pub regexps : List Regexp
  pub min : ℕ → Option ℕ
  pub max : ℕ → Option ℕ

-- The rule that opens a sequence
pub data Opening : Type 0 where
  opening_string : Rule → Opening
  opening_regexp : Regexp → Opening

-- struct sequence
pub record Sequence : Type 0 where
  pub opening : Opening
  pub face : Fface
  pub exceptions : Words
  pub close : Words

-- The part of struct style_sheet that the reading of a text uses
pub record StyleSheet : Type 0 where
  pub alpha1 : ℕ → Bool
  pub alpha2 : ℕ → Bool
  pub keywords : Words
  pub operators : Words
  pub sequences : List Sequence

unfoldable pub words_new : Words
words_new = record { strings = []; regexps = []; min = λ c. none; max = λ c. none }

abbrev pub first_byte : Rule → ℕ
first_byte r = get_or r.word 0 0

-- `table[c] = i`
abbrev pub update : ℕ → ℕ → (ℕ → Option ℕ) → ℕ → Option ℕ
update c i table d = if d == c then some i else table d

-- The intervals behind the rule `content[i]`
abbrev pub note_rule : ℕ → Rule → Words → Words
note_rule i r w = record w {
  min = if is_null (w.min (first_byte r)) then update (first_byte r) i w.min else w.min;
  max = update (first_byte r) i w.max;
}

-- The loop of words_finalize over the strings from `content[i]` on, which are sorted then
unfoldable pub index_from : ℕ → List Rule → Words → Words
index_from i [] w = w
index_from i (r ∷ rs) w = index_from (suc i) rs (note_rule i r w)

unfoldable pub index_strings : Words → Words
unfolding index_from
index_strings w = index_from 0 w.strings w

unfoldable pub strprefix : List ℕ → List ℕ → Bool
strprefix [] s = true
strprefix (c ∷ cs) [] = false
strprefix (c ∷ cs) (d ∷ ds) = c == d && strprefix cs ds

-- The rule if it passes the test, and else `rest`
abbrev pub rule_or : (Rule → Bool) → Option Rule → Option Rule → Option Rule
rule_or p none rest = none
rule_or p (some r) rest = if p r then some r else rest

-- The last of the rules `content[lo]`, ..., `content[lo + n - 1]` that passes the test
unfoldable pub last_between : (Rule → Bool) → List Rule → ℕ → ℕ → Option Rule
last_between p strings lo zero = none
last_between p strings lo (suc n) =
    rule_or p (get_elem? strings (lo + n)) (last_between p strings lo n)

-- The loop from the maximum of a byte down to its minimum
abbrev pub search_between : (Rule → Bool) → List Rule → Option ℕ → Option ℕ → Option Rule
search_between p strings none hi = none
search_between p strings (some lo) none = none
search_between p strings (some lo) (some hi) = last_between p strings lo (suc hi - lo)

unfoldable pub find_string : (Rule → Bool) → Words → ℕ → Option Rule
find_string p w c = search_between p w.strings (w.min c) (w.max c)
