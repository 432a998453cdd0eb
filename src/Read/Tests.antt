-- ===== src/Read/Tests.antt =====
-- plain_print_postscript run on a text with overstrikes, and its theorems there.
use a2ps.Prelude.{ℕ, ◌≡◌, refl, List, [], ◌∷◌, map, some, arith}
use a2ps.Buffer.{Buffer, eol_auto, buffer_stream_set, buffer_internal_set}
use a2ps.Buffer.Lines.{crlf, encode}
use a2ps.PsGen.{Job}
use a2ps.PsGen.Tests.{settings, fresh}
use a2ps.Read.{plain_print_postscript, backspace, overstrike, read_char, over, keyword}
use a2ps.Read.Nroff.{Glyph, plain, stronger, underlined, greater_equal}
use a2ps.Read.Lines.{line_bytes, print_lines}
use a2ps.Read.Print.{plain_print_postscript-nroff}
use a2ps.Read.Ends.{plain_print_postscript-ends}

abbrev same : ℕ → ℕ
same c = c

-- A bold `a` and an underlined `b`; a `c`, no less than, and a form feed
abbrev page : List (List Glyph)
page =
    (stronger b'a' ∷ underlined b'b' ∷ []) ∷ (plain b'c' ∷ greater_equal ∷ plain b'\x0c' ∷ []) ∷ []

abbrev text : Buffer
text = buffer_stream_set (encode crlf (map line_bytes page)) eol_auto

plain_print_postscript-nroff_example :
    plain_print_postscript same settings 10 text fresh ≡ some (print_lines settings 1 page fresh)
plain_print_postscript-nroff_example =
    plain_print_postscript-nroff same eol_auto crlf settings page 10 fresh tt (ground arith)
      (ground arith)

plain_print_postscript-ends_example :
    (j' : Job) × (plain_print_postscript same settings 30 text fresh ≡ some j')
unfolding buffer_internal_set
plain_print_postscript-ends_example =
    plain_print_postscript-ends same settings 30 text fresh (omega arith)

-- An underscore and a backspace that end the text are a zero byte, underlined.
zero_byte : read_char 1 (b'_' ∷ backspace ∷ []) ≡ over 0 keyword 2
unfolding read_char overstrike
zero_byte = refl
