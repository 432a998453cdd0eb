-- ===== src/Ssheet/Loop.antt =====
-- One round of the loop of ssh_print_postscript.
use a2ps.Prelude.{
  ℕ, zero, suc, ◌<◌, ◌≡◌, refl, ◌∙◌, ap, ◌==◌, true, false, Bool-cases, inl, inr, List, [], ◌∷◌,
  map, Option, none, some, length, get_or, drop,
}
use a2ps.Buffer.{Buffer, buffer_get, buffer_fill, buffer_is_empty, finish_line, trim_formfeed}
use a2ps.PsGen.{Settings, Job}
use a2ps.Read.{set_lines}
use a2ps.Ssheet.{StyleSheet}
use a2ps.Ssheet.Match.{Matcher, skip_bytes}
use a2ps.Ssheet.Token.{Lexer, Lexed, GotToken, take_token, with_job, after_line, ssh_get_token}
use a2ps.Ssheet.Print.{Printing, print_rhs, print_tokens, with_next_job}
use a2ps.Ssheet.Tiles.{IsText}

-- `tolower` leaves ASCII in ASCII.
abbrev pub KeepsAscii : (ℕ → ℕ) → Type 0
KeepsAscii tolower = (c : ℕ) → c < 128 → tolower c < 128

pub length-map : (f : ℕ → ℕ) (xs : List ℕ) → length (map f xs) ≡ length xs
length-map f [] = refl
length-map f (x ∷ xs) = ap suc (length-map f xs)

get_or-drop : (i : ℕ) (xs : List ℕ) → get_or (drop i xs) 0 0 ≡ get_or xs i 0
get_or-drop zero [] = refl
get_or-drop zero (x ∷ xs) = refl
get_or-drop (suc i) [] = refl
get_or-drop (suc i) (x ∷ xs) = get_or-drop i xs

get_or-map :
    (f : ℕ → ℕ) (xs : List ℕ) (i : ℕ)
    → KeepsAscii f
    → get_or xs i 0 < 128
    → get_or (map f xs) i 0 < 128
get_or-map f [] i k h = h
get_or-map f (x ∷ xs) zero k h = k x h
get_or-map f (x ∷ xs) (suc i) k h = get_or-map f xs i k h

pub skip_bytes-IsText : (n : ℕ) (b : Buffer) → IsText b → IsText (skip_bytes n b)
skip_bytes-IsText n b t = record { measured = t.measured; paired = t.paired; cased = t.cased }

-- A line that was got is a text, with its copy in lower case or without.
pub buffer_get-IsText :
    (tolower : ℕ → ℕ) (b : Buffer) → KeepsAscii tolower → IsText (buffer_get tolower b)
unfolding buffer_get finish_line
buffer_get-IsText tolower b k =
    let full = buffer_fill b in
    let content = trim_formfeed full.obstack in
    elim (Bool-cases full.lower_case) [
      | inl e ↦ record {
        measured = refl;
        paired = rw e (length-map tolower content);
        cased =
            λ i h. rw (e, get_or-drop i (map tolower content)) (get_or-map tolower content i k h);
      }
      | inr e ↦ record {
        measured = refl;
        paired = rw e refl;
        cased = λ i h. rw (e, get_or-drop i content) h;
      }
    ]

module _ (re_match : Matcher) (tolower : ℕ → ℕ) (sheet : StyleSheet) (b : Buffer) (lx : Lexer)
    (j : Job) where
  pub get_token-left :
      buffer_is_empty b ≡ false
      → ssh_get_token re_match tolower sheet b lx j ≡ with_job j (take_token re_match sheet b lx)
  unfolding ssh_get_token
  get_token-left e = rw e

  pub get_token-line :
      buffer_is_empty b ≡ true
      → (buffer_get tolower b).len == 0 ≡ false
      → ssh_get_token re_match tolower sheet b lx j
        ≡ with_job
            (set_lines (buffer_get tolower b).line j)
            (take_token re_match sheet (buffer_get tolower b) lx)
  unfolding ssh_get_token after_line
  get_token-line e l = rw (e, l)

  pub get_token-end :
      buffer_is_empty b ≡ true
      → (buffer_get tolower b).len == 0 ≡ true
      → ssh_get_token re_match tolower sheet b lx j
        ≡ some (record {
          token = none;
          buffer = buffer_get tolower b;
          lexer = record lx { sequence = none; return_to_plain = false };
          job = set_lines (buffer_get tolower b).line j;
        })
  unfolding ssh_get_token after_line
  get_token-end e l = rw (e, l)

module _ (get_encoding_by_alias : List ℕ → Option ℕ) (s : Settings) (re_match : Matcher)
    (tolower : ℕ → ℕ) (sheet : StyleSheet) (fuel : ℕ) where
  abbrev loop : ℕ → Buffer → Lexer → Printing → Option (Lexer × Printing)
  loop = print_tokens get_encoding_by_alias s re_match tolower sheet

  abbrev next : Printing → Option GotToken → Option (Lexer × Printing)
  next p found = elim found [
    | none ↦ none
    | some got ↦ elim got.token [
      | none ↦ some (got.lexer, with_next_job got.job p)
      | some rhs ↦ loop fuel got.buffer got.lexer (
          print_rhs get_encoding_by_alias s got.buffer.content got.lexer.registers rhs
            (with_next_job got.job p))
    ]
  ]

  -- What a token leaves to the rest of the loop
  abbrev pub printed : Lexed → Job → Printing → Printing
  printed l j p =
      print_rhs get_encoding_by_alias s l.buffer.content l.lexer.registers l.rhs (with_next_job j p)

  -- A round with a token
  pub loop-token :
      (b : Buffer) (lx : Lexer) (p : Printing) (j : Job) (l : Lexed) (r : Option Lexed)
      → ssh_get_token re_match tolower sheet b lx p.job ≡ with_job j r
      → r ≡ some l
      → loop (suc fuel) b lx p ≡ loop fuel l.buffer l.lexer (printed l j p)
  unfolding print_tokens
  loop-token b lx p j l r e found = ap (next p) (e ∙ ap (with_job j) found)

  -- The last round
  pub loop-end :
      (b b' : Buffer) (lx lx' : Lexer) (p : Printing) (j : Job)
      → ssh_get_token re_match tolower sheet b lx p.job
        ≡ some (record { token = none; buffer = b'; lexer = lx'; job = j })
      → loop (suc fuel) b lx p ≡ some (lx', with_next_job j p)
  unfolding print_tokens
  loop-end b b' lx lx' p j e = ap (next p) e
