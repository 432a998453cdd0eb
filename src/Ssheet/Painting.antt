-- ===== src/Ssheet/Painting.antt =====
-- Style sheets that only choose faces: the text is printed as it is.
use a2ps.Prelude.{
  ℕ, zero, suc, ◌≤◌, ◌<◌, ◌≡◌, refl, sym, ◌∙◌, ap, subst, ◌==◌, Bool, true, false, Bool-cases, inl,
  inr, List, [], ◌∷◌, All, Option, none, some, length, drop, get_or, leb→gt, leb→le, ne→==, arith,
}
use a2ps.Buffer.{
  Eol, Buffer, buffer_get, buffer_is_empty, buffer_stream_set, buffer_internal_set,
  buffer_set_lower_case,
}
use a2ps.Buffer.Lines.{
  Mark, Accepts, IsPlain, encode, encode-Clear, line_of, get_line-Gets, get_end-Gets,
}
use a2ps.Buffer.Unread.{unread, buffer_get-le, buffer_get-curr}
use a2ps.PsGen.{Settings, Job}
use a2ps.Read.{set_lines}
use a2ps.Read.Lines.{line_of-nonempty}
use a2ps.Ssheet.{StyleSheet}
use a2ps.Ssheet.Match.{Matcher}
use a2ps.Ssheet.Token.{Lexer, take_token, with_job, ssh_get_token}
use a2ps.Ssheet.Print.{Printing, print_tokens, with_next_job, ssh_print_postscript}
use a2ps.Ssheet.Tiles.{IsMatcher, Advances}
use a2ps.Ssheet.Tokens.{GoodSheet}
use a2ps.Ssheet.Loop.{
  KeepsAscii, buffer_get-IsText, get_token-left, get_token-line, get_token-end, loop-end,
}
use a2ps.Ssheet.Colours.{Decorates, IsUnflagged, Coloured, next_line, no_more}
use a2ps.Ssheet.Rounds.{Painted, Going, token_round}

drop_all : (n : ℕ) (xs : List ℕ) → length xs ≤ n → drop n xs ≡ []
drop_all zero [] h = refl
drop_all zero (x ∷ xs) h = absurd (omega arith)
drop_all (suc n) [] h = refl
drop_all (suc n) (x ∷ xs) h = drop_all n xs (omega arith)

pub empty_ascii : (i : ℕ) → get_or (drop i []) 0 0 < 128
empty_ascii zero = omega arith
empty_ascii (suc i) = omega arith

module _ (get_encoding_by_alias : List ℕ → Option ℕ) (s : Settings) (re_match : Matcher)
    (tolower : ℕ → ℕ) (sheet : StyleSheet) (is_matcher : IsMatcher re_match)
    (adv : Advances re_match) (k : KeepsAscii tolower) (g : GoodSheet Decorates IsUnflagged sheet)
    (eol : Eol) (m : Mark) (a : Accepts eol m) where
  abbrev loop : ℕ → Buffer → Lexer → Printing → Option (Lexer × Printing)
  loop = print_tokens get_encoding_by_alias s re_match tolower sheet

  abbrev Paints : ℕ → Type 0
  Paints fuel =
      (bodies : List (List ℕ)) (b : Buffer) (lx : Lexer) (p : Printing)
      → Going eol m bodies b lx p
      → unread b < fuel
      → Painted s b.line (drop b.curr b.content) bodies p (loop fuel b lx p)

  abbrev round :
      (fuel : ℕ) (bodies : List (List ℕ)) (b b' : Buffer) (lx : Lexer) (p : Printing) (j : Job)
      → Paints fuel
      → Going eol m bodies b' lx p
      → b'.curr < b'.len
      → unread b' < suc fuel
      → ssh_get_token re_match tolower sheet b lx p.job
        ≡ with_job j (take_token re_match sheet b' lx)
      → Painted s b'.line
          (drop b'.curr b'.content)
          bodies
          (with_next_job j p)
          (loop (suc fuel) b lx p)
  round = token_round get_encoding_by_alias s re_match tolower sheet is_matcher adv g eol m

  -- A line is got, and its first token is taken.
  line_round :
      (fuel : ℕ) (body : List ℕ) (bodies : List (List ℕ)) (b : Buffer) (lx : Lexer) (p : Printing)
      → Paints fuel
      → Going eol m (body ∷ bodies) b lx p
      → buffer_is_empty b ≡ true
      → unread b < suc fuel
      → Painted s b.line [] (body ∷ bodies) p (loop (suc fuel) b lx p)
  line_round fuel body bodies b lx p paints h e enough =
      let b1 = buffer_get tolower b in
      let got =
        get_line-Gets tolower eol m body (encode m bodies) b a h.lines_plain.0
          (encode-Clear m bodies h.lines_plain.1) h.between in
      let left : 0 < b1.len = omega (arith, line_of-nonempty body, got.2) in
      let start = buffer_get-curr tolower b in
      let rest =
        round fuel bodies b b1 lx p (set_lines b1.line p.job) paints
          (record {
            lines_plain = h.lines_plain.1;
            between = got.0;
            is_text = buffer_get-IsText tolower b k;
            good_lexer = h.good_lexer;
            not_grabbing = h.not_grabbing;
          })
          (omega arith) (omega (arith, buffer_get-le tolower b))
          (get_token-line re_match tolower sheet b lx p.job e (ne→== b1.len 0 (omega arith))) in
      let whole : drop b1.curr b1.content ≡ line_of body =
        ap (λ n. drop n b1.content) start ∙ got.1 in
      record {
        lexer = rest.lexer;
        last = rest.last;
        finished = rest.finished;
        same_tags = rest.same_tags;
        coloured = next_line (
            subst (λ n. Coloured s n (line_of body) bodies (set_lines n p.job) rest.last.job) got.3
              (subst
                (λ text. Coloured s b1.line text bodies (set_lines b1.line p.job) rest.last.job)
                whole rest.coloured));
      }

  last_round :
      (fuel : ℕ) (b : Buffer) (lx : Lexer) (p : Printing)
      → Going eol m [] b lx p
      → buffer_is_empty b ≡ true
      → Painted s b.line [] [] p (loop (suc fuel) b lx p)
  last_round fuel b lx p h e =
      let b1 = buffer_get tolower b in
      let got = get_end-Gets tolower eol b h.between in
      record {
        lexer = record lx { sequence = none; return_to_plain = false };
        last = with_next_job (set_lines b1.line p.job) p;
        finished =
            loop-end get_encoding_by_alias s re_match tolower sheet fuel b b1 lx _ p _
              (get_token-end re_match tolower sheet b lx p.job e (ap (λ n. n == 0) got.2));
        same_tags = refl;
        coloured =
            subst (λ n. Coloured s b.line [] [] p.job (set_lines n p.job)) (sym got.3) no_more;
      }

  between_lines :
      (fuel : ℕ) (bodies : List (List ℕ)) (b : Buffer) (lx : Lexer) (p : Printing)
      → Paints fuel
      → Going eol m bodies b lx p
      → buffer_is_empty b ≡ true
      → unread b < suc fuel
      → Painted s b.line [] bodies p (loop (suc fuel) b lx p)
  between_lines fuel [] b lx p paints h e enough = last_round fuel b lx p h e
  between_lines fuel (body ∷ bodies) b lx p paints h e enough =
      line_round fuel body bodies b lx p paints h e enough

  loop-Paints : (fuel : ℕ) → Paints fuel
  loop-Paints zero bodies b lx p h enough = absurd (omega arith)
  loop-Paints (suc fuel) bodies b lx p h enough = elim (Bool-cases (buffer_is_empty b)) [
    | inr e ↦
        round fuel bodies b b lx p p.job (loop-Paints fuel) h (leb→gt b.len b.curr e) enough
          (get_token-left re_match tolower sheet b lx p.job e)
    | inl e ↦
        let nothing =
          drop_all b.curr b.content (omega (arith, leb→le b.len b.curr e, h.is_text.measured)) in
        subst (λ text. Painted s b.line text bodies p (loop (suc fuel) b lx p)) (sym nothing)
          (between_lines fuel bodies b lx p (loop-Paints fuel) h e enough)
  ]

  -- A style sheet that only chooses faces leaves the text as it is: with right hand sides that are
  -- the whole match in a face with no flag, strings that are not empty, faces of sequences with no
  -- flag and a first alphabet in ASCII, and with patterns that never match the empty text, a
  -- stream of lines that hold neither `\n` nor `\r` and all end in a mark that the style of line
  -- ends takes is printed byte by byte, in order and in its own case, each byte in some face and
  -- each line under its number, and the tags stay. It begins in a plain face with no flag and in
  -- no sequence. The loop ends when it may go round once more than there are bytes. Of re_match it
  -- uses that a match lies in the text and is put in register 0, and of `tolower` that it keeps
  -- ASCII.
  pub ssh_print_postscript-Coloured :
      (fuel : ℕ) (bodies : List (List ℕ)) (lower : Bool) (lx : Lexer) (tags : ℕ → List ℕ) (j : Job)
      → All (All IsPlain) bodies
      → IsUnflagged lx.plain_face
      → lx.sequence ≡ none
      → length (encode m bodies) < fuel
      → (after : Lexer × Printing) × (ssh_print_postscript get_encoding_by_alias s re_match tolower
            sheet fuel
            (buffer_set_lower_case (buffer_stream_set (encode m bodies) eol) lower)
            lx
            tags
            j
          ≡ some after)
        × (after.1.tags ≡ tags)
        × Coloured s 0 [] bodies j after.1.job
  unfolding ssh_print_postscript buffer_internal_set
  ssh_print_postscript-Coloured fuel bodies lower lx tags j plain unflagged_face outside enough =
      let b = buffer_set_lower_case (buffer_stream_set (encode m bodies) eol) lower in
      let r =
        loop-Paints fuel bodies b lx _
          (record {
            lines_plain = plain;
            between = (refl, refl, refl, refl);
            is_text = record { measured = refl; paired = refl; cased = λ i h. empty_ascii i };
            good_lexer = record { face_fits = unflagged_face; sequence_good = rw outside tt };
            not_grabbing = refl;
          })
          (omega arith) in
      ((r.lexer, r.last), r.finished, r.same_tags, r.coloured)
