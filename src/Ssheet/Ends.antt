-- ===== src/Ssheet/Ends.antt =====
-- The loop of ssh_print_postscript ends: every token leaves less to read.
use a2ps.Prelude.{
  ℕ, zero, suc, ◌<◌, ◌≡◌, ◌∙◌, ◌==◌, Bool-cases, inl, inr, List, Option, none, some, leb→gt, arith,
}
use a2ps.Buffer.{Buffer, buffer_get, buffer_is_empty}
use a2ps.Buffer.Unread.{unread, buffer_get-le, buffer_get-curr}
use a2ps.PsGen.{Settings, Job}
use a2ps.Read.{set_lines}
use a2ps.Read.Ends.{positive}
use a2ps.Ssheet.{Fface, FacedString, StyleSheet}
use a2ps.Ssheet.Match.{Matcher, skip_bytes}
use a2ps.Ssheet.Token.{Lexer, Lexed, take_token, with_job, ssh_get_token}
use a2ps.Ssheet.Print.{Printing, print_tokens, ssh_print_postscript}
use a2ps.Ssheet.Tiles.{IsText, IsMatcher, Advances}
use a2ps.Ssheet.Tokens.{GoodSheet, GoodLexer, Lexes, lexes, take_token-Takes}
use a2ps.Ssheet.Loop.{
  KeepsAscii, skip_bytes-IsText, buffer_get-IsText, get_token-left, get_token-line, get_token-end,
  printed, loop-token, loop-end,
}

-- Any right hand side, and any face
abbrev pub AnyRhs : List FacedString → Type 0
AnyRhs rhs = Unit

abbrev pub AnyFace : Fface → Type 0
AnyFace f = Unit

module _ (get_encoding_by_alias : List ℕ → Option ℕ) (s : Settings) (re_match : Matcher)
    (tolower : ℕ → ℕ) (sheet : StyleSheet) (m : IsMatcher re_match) (adv : Advances re_match)
    (k : KeepsAscii tolower) (g : GoodSheet AnyRhs AnyFace sheet) where
  abbrev loop : ℕ → Buffer → Lexer → Printing → Option (Lexer × Printing)
  loop = print_tokens get_encoding_by_alias s re_match tolower sheet

  abbrev Ends : ℕ → Type 0
  Ends fuel =
      (b : Buffer) (lx : Lexer) (p : Printing)
      → IsText b
      → GoodLexer AnyRhs AnyFace lx
      → unread b < fuel
      → (r : Lexer × Printing) × (loop fuel b lx p ≡ some r)

  -- Behind a token there is less to read.
  behind_token :
      (fuel : ℕ) (b : Buffer) (l : Lexed) (p : Printing)
      → Ends fuel
      → IsText b
      → unread b < suc fuel
      → Lexes AnyRhs AnyFace b l
      → (r : Lexer × Printing) × (loop fuel l.buffer l.lexer p ≡ some r)
  behind_token fuel b l p ends t h (lexes rhs n lx good some_bytes in_line reg gl) =
      ends (skip_bytes n b) lx p (skip_bytes-IsText n b t) gl (omega arith)

  token_round :
      (fuel : ℕ) (b b' : Buffer) (lx : Lexer) (p : Printing) (j : Job)
      → Ends fuel
      → IsText b'
      → b'.curr < b'.len
      → GoodLexer AnyRhs AnyFace lx
      → unread b' < suc fuel
      → ssh_get_token re_match tolower sheet b lx p.job
        ≡ with_job j (take_token re_match sheet b' lx)
      → (r : Lexer × Printing) × (loop (suc fuel) b lx p ≡ some r)
  token_round fuel b b' lx p j ends t left gl h e =
      let (l, found, piece) = take_token-Takes re_match m adv sheet g b' t left lx gl in
      let after = printed get_encoding_by_alias s re_match tolower sheet fuel l j p in
      let (r, rest) = behind_token fuel b' l after ends t h piece in
      (
        r,
        loop-token get_encoding_by_alias s re_match tolower sheet fuel b lx p j l _ e found ∙ rest,
      )

  loop-Ends : (fuel : ℕ) → Ends fuel
  loop-Ends zero b lx p t gl h = absurd (omega arith)
  loop-Ends (suc fuel) b lx p t gl h =
      let b1 = buffer_get tolower b in
      elim (Bool-cases (buffer_is_empty b)) [
        | inr e ↦
            token_round fuel b b lx p p.job (loop-Ends fuel) t (leb→gt b.len b.curr e) gl h
              (get_token-left re_match tolower sheet b lx p.job e)
        | inl e ↦ elim (Bool-cases (b1.len == 0)) [
          | inl z ↦ (
            _,
            loop-end get_encoding_by_alias s re_match tolower sheet fuel b b1 lx _ p _
                (get_token-end re_match tolower sheet b lx p.job e z),
          )
          | inr z ↦
              token_round fuel b b1 lx p (set_lines b1.line p.job) (loop-Ends fuel)
                (buffer_get-IsText tolower b k)
                (omega (arith, positive b1.len z, buffer_get-curr tolower b)) gl
                (omega (arith, buffer_get-le tolower b))
                (get_token-line re_match tolower sheet b lx p.job e z)
        ]
      ]

  -- With a sheet whose first alphabet is in ASCII and whose strings are not empty, and patterns
  -- that never match the empty text, every text is printed: from a state in no sequence and a
  -- buffer whose line and copy have the length that it tells, the copy in ASCII where the line is,
  -- on strings and on streams whatever bytes they hold, the loop ends when it may go round once
  -- more than there are unread bytes. Of re_match it uses that a match lies in the text and is put
  -- in register 0, and of `tolower` that it keeps ASCII.
  pub ssh_print_postscript-ends :
      (fuel : ℕ) (b : Buffer) (lx : Lexer) (tags : ℕ → List ℕ) (j : Job)
      → IsText b
      → lx.sequence ≡ none
      → unread b < fuel
      → (r : Lexer × Printing) × (ssh_print_postscript get_encoding_by_alias s re_match tolower
            sheet fuel b lx tags j
          ≡ some r)
  unfolding ssh_print_postscript
  ssh_print_postscript-ends fuel b lx tags j t plain h =
      loop-Ends fuel b lx _ t (record { face_fits = tt; sequence_good = rw plain tt }) h
