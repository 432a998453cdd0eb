-- ===== src/Ssheet/Rounds.antt =====
-- A round of the loop of ssh_print_postscript with a sheet that only chooses faces.
use a2ps.Prelude.{
  ℕ, suc, ◌+◌, ◌<◌, ◌≡◌, sym, ◌∙◌, subst, false, List, All, Option, some, drop, arith,
}
use a2ps.Buffer.{Eol, Buffer}
use a2ps.Buffer.Lines.{Mark, IsPlain, Between, encode}
use a2ps.Buffer.Unread.{unread}
use a2ps.PsGen.{Settings, Job}
use a2ps.Ssheet.{StyleSheet}
use a2ps.Ssheet.Match.{Matcher, skip_bytes}
use a2ps.Ssheet.Token.{Lexer, Lexed, lexed, take_token, with_job, ssh_get_token}
use a2ps.Ssheet.Print.{Printing, bytes_from, print_rhs, print_tokens, with_next_job}
use a2ps.Ssheet.Tiles.{IsText, IsMatcher, Advances}
use a2ps.Ssheet.Tokens.{GoodSheet, GoodLexer, Lexes, lexes, take_token-Takes}
use a2ps.Ssheet.Loop.{skip_bytes-IsText, printed, loop-token}
use a2ps.Ssheet.Plainly.{Plainly, print_rhs-Plainly, drop-bytes_from}
use a2ps.Ssheet.Colours.{Decorates, IsUnflagged, Coloured, bytes-Coloured}

-- What the printing from `p` on leaves
pub record Painted (s : Settings) (n : ℕ) (text : List ℕ) (bodies : List (List ℕ)) (p : Printing)
    (result : Option (Lexer × Printing)) : Type 0 where
  pub lexer : Lexer
  pub last : Printing
  pub finished : result ≡ some (lexer, last)
  pub same_tags : last.tags ≡ p.tags
  pub coloured : Coloured s n text bodies p.job last.job

-- Between two tokens
pub record Going (eol : Eol) (m : Mark) (bodies : List (List ℕ)) (b : Buffer) (lx : Lexer)
    (p : Printing) : Type 0 where
  pub lines_plain : All (All IsPlain) bodies
  pub between : Between eol (encode m bodies) b
  pub is_text : IsText b
  pub good_lexer : GoodLexer Decorates IsUnflagged lx
  pub not_grabbing : p.grabbing_encoding ≡ false

module _ (get_encoding_by_alias : List ℕ → Option ℕ) (s : Settings) (re_match : Matcher)
    (tolower : ℕ → ℕ) (sheet : StyleSheet) (is_matcher : IsMatcher re_match)
    (adv : Advances re_match) (g : GoodSheet Decorates IsUnflagged sheet) (eol : Eol)
    (m : Mark) where
  abbrev loop : ℕ → Buffer → Lexer → Printing → Option (Lexer × Printing)
  loop = print_tokens get_encoding_by_alias s re_match tolower sheet

  abbrev Paints : ℕ → Type 0
  Paints fuel =
      (bodies : List (List ℕ)) (b : Buffer) (lx : Lexer) (p : Printing)
      → Going eol m bodies b lx p
      → unread b < fuel
      → Painted s b.line (drop b.curr b.content) bodies p (loop fuel b lx p)

  abbrev after : ℕ → Lexed → Job → Printing → Printing
  after = printed get_encoding_by_alias s re_match tolower sheet

  -- Behind a token, of which `p'` was printed from `p` on
  behind_token :
      (fuel : ℕ) (bodies : List (List ℕ)) (b : Buffer) (l : Lexed) (lx : Lexer) (p : Printing)
      → Paints fuel
      → Going eol m bodies b lx p
      → unread b < suc fuel
      → Lexes Decorates IsUnflagged b l
      → Painted s b.line
          (drop b.curr b.content)
          bodies
          p
          (loop fuel l.buffer l.lexer (after fuel l p.job p))
  behind_token fuel bodies b l lx p paints h enough
        (lexes rhs n lx' (face, whole) some_bytes in_line reg gl) =
      let bytes = bytes_from b.content b.curr n in
      let p1 = after fuel (lexed rhs (skip_bytes n b) lx') p.job p in
      let plainly =
        subst
          (λ rhs.
            Plainly s bytes face p
              (print_rhs get_encoding_by_alias s b.content lx'.registers rhs p))
          (sym whole)
          (print_rhs-Plainly get_encoding_by_alias s b.content lx'.registers b.curr n face p
            h.not_grabbing reg) in
      let rest =
        paints bodies (skip_bytes n b) lx' p1
          (record {
            lines_plain = h.lines_plain;
            between = h.between;
            is_text = skip_bytes-IsText n b h.is_text;
            good_lexer = gl;
            not_grabbing = plainly.not_grabbing;
          })
          (omega arith) in
      let unread_bytes = drop-bytes_from b.content b.curr n (omega (arith, h.is_text.measured)) in
      record {
        lexer = rest.lexer;
        last = rest.last;
        finished = rest.finished;
        same_tags = rest.same_tags ∙ plainly.same_tags;
        coloured =
            subst (λ text. Coloured s b.line text bodies p.job rest.last.job) (sym unread_bytes)
              (bytes-Coloured s b.line bytes (drop (b.curr + n) b.content) bodies face p.job
                rest.last.job
                (subst (λ j. Coloured s b.line (drop (b.curr + n) b.content) bodies j rest.last.job)
                  plainly.job_printed rest.coloured));
      }

  pub token_round :
      (fuel : ℕ) (bodies : List (List ℕ)) (b b' : Buffer) (lx : Lexer) (p : Printing) (j : Job)
      → Paints fuel
      → Going eol m bodies b' lx p
      → b'.curr < b'.len
      → unread b' < suc fuel
      → ssh_get_token re_match tolower sheet b lx p.job
        ≡ with_job j (take_token re_match sheet b' lx)
      → Painted s b'.line
          (drop b'.curr b'.content)
          bodies
          (with_next_job j p)
          (loop (suc fuel) b lx p)
  token_round fuel bodies b b' lx p j paints h left enough e =
      let (l, found, piece) =
        take_token-Takes re_match is_matcher adv sheet g b' h.is_text left lx h.good_lexer in
      let rest =
        behind_token fuel bodies b' l lx (with_next_job j p) paints
          (record {
            lines_plain = h.lines_plain;
            between = h.between;
            is_text = h.is_text;
            good_lexer = h.good_lexer;
            not_grabbing = h.not_grabbing;
          })
          enough piece in
      record {
        lexer = rest.lexer;
        last = rest.last;
        finished =
            loop-token get_encoding_by_alias s re_match tolower sheet fuel b lx p j l _ e found
            ∙ rest.finished;
        same_tags = rest.same_tags;
        coloured = rest.coloured;
      }
