-- ===== src/Ssheet/Tests.antt =====
-- The theorems on the small style sheet.
use a2ps.Prelude.{◌≡◌, refl, true, List, [], ◌∷◌, some, arith}
use a2ps.Buffer.{Buffer, eol_auto, buffer_stream_set, buffer_internal_set, buffer_set_lower_case}
use a2ps.Buffer.Lines.{lf, encode}
use a2ps.PsGen.Tests.{settings, fresh}
use a2ps.Ssheet.{
  FacedString, words_new, index_strings, index_from, find_string, last_between, strprefix,
}
use a2ps.Ssheet.Match.{match_operator, match_keyword, Attempt, is_operator, is_keyword, ahead}
use a2ps.Ssheet.Token.{Lexer}
use a2ps.Ssheet.Print.{Printing, ssh_print_postscript}
use a2ps.Ssheet.Ends.{AnyRhs, AnyFace, ssh_print_postscript-ends}
use a2ps.Ssheet.Colours.{Decorates, IsUnflagged, Coloured}
use a2ps.Ssheet.Painting.{empty_ascii, ssh_print_postscript-Coloured}
use a2ps.Ssheet.Intervals.{indexed}
use a2ps.Ssheet.Longest.{TakesLongest, match_keyword-longest}
use a2ps.Ssheet.Sample.{
  is_letter, match_digit, keywords, sheet, same, no_alias, start, no_tags, lines,
  match_digit-IsMatcher, match_digit-Advances, sheet-Good, decorates,
}

ssh_print_postscript-ends_example :
    (r : Lexer × Printing) × (ssh_print_postscript no_alias settings match_digit same sheet 20
        (buffer_stream_set (encode lf lines) eol_auto)
        start
        no_tags
        fresh
      ≡ some r)
unfolding buffer_internal_set
ssh_print_postscript-ends_example =
    ssh_print_postscript-ends no_alias settings match_digit same sheet match_digit-IsMatcher
      match_digit-Advances (λ c h. h) (sheet-Good AnyRhs AnyFace (λ f. tt) (λ f h. tt) (λ f. tt)) 20
      (buffer_stream_set (encode lf lines) eol_auto) start no_tags fresh
      (record { measured = refl; paired = refl; cased = λ i h. empty_ascii i }) refl (ground arith)

ssh_print_postscript-Coloured_example :
    (after : Lexer × Printing) × (ssh_print_postscript no_alias settings match_digit same sheet 20
        (buffer_set_lower_case (buffer_stream_set (encode lf lines) eol_auto) true)
        start
        no_tags
        fresh
      ≡ some after)
    × (after.1.tags ≡ no_tags)
    × Coloured settings 0 [] lines fresh after.1.job
ssh_print_postscript-Coloured_example =
    ssh_print_postscript-Coloured no_alias settings match_digit same sheet match_digit-IsMatcher
      match_digit-Advances (λ c h. h)
      (sheet-Good Decorates IsUnflagged (λ f. (f, refl)) (λ f h. (f.face, decorates f h))
        (λ f. refl))
      eol_auto lf tt 20 lines true start no_tags fresh (ground arith) refl refl (ground arith)

-- The text `ifdef+`
abbrev ifdef : Buffer
ifdef = record (buffer_stream_set [] eol_auto) {
  content = b'i' ∷ b'f' ∷ b'd' ∷ b'e' ∷ b'f' ∷ b'+' ∷ [];
  value = b'i' ∷ b'f' ∷ b'd' ∷ b'e' ∷ b'f' ∷ b'+' ∷ [];
  len = 6;
}

match_keyword-longest_example :
    TakesLongest match_digit keywords [] ifdef start.registers
      (is_operator (ahead ifdef))
      (match_operator match_digit (indexed keywords []) ifdef start.registers)
    × ((a : Attempt (List FacedString)) × (match_keyword match_digit
            (indexed keywords [])
            is_letter
            ifdef
            start.registers
          ≡ some a)
        × TakesLongest match_digit keywords [] ifdef start.registers
            (is_keyword is_letter (ahead ifdef))
            a)
unfolding buffer_internal_set
match_keyword-longest_example =
    match_keyword-longest match_digit keywords [] ifdef start.registers (ground arith)
      (ground arith) is_letter

-- Both keywords fit as operators, and the longer one is taken.
takes_ifdef :
    (match_operator match_digit (indexed keywords []) ifdef start.registers).buffer.curr ≡ 5
unfolding match_operator find_string last_between strprefix index_strings index_from words_new
    buffer_internal_set
takes_ifdef = refl
