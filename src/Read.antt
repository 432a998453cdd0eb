-- ===== src/Read.antt =====
-- src/read.c: the printing of a text with no style, and the overstrikes of nroff in it.
--
-- A line ends with a zero byte, and so does every read behind its end. Bytes of 128 and more are
-- written by their value. The loop of plain_print_postscript runs on fuel, and has no result
-- without it.
pub mod Nroff
pub mod Lines
pub mod InLine
pub mod Print
pub mod Ends
pub mod Tests
use a2ps.Prelude.{
  ℕ, zero, suc, ◌+◌, ◌-◌, ◌%◌, ◌^◌, ◌==◌, Bool, ◌&&◌, ◌||◌, List, ◌∷◌, Option, none, some, get_or,
  drop, if◌then◌else◌,
}
use a2ps.Buffer.{Buffer, buffer_get, buffer_is_empty}
use a2ps.PsGen.{Settings, Job}
use a2ps.PsGen.Print.{ps_print_char}

-- enum face_e
abbrev pub plain_face : ℕ
plain_face = 0

abbrev pub keyword : ℕ
keyword = 1

abbrev pub keyword_strong : ℕ
keyword_strong = 2

abbrev pub label_strong : ℕ
label_strong = 4

abbrev pub symbol : ℕ
symbol = 6

abbrev pub backspace : ℕ
backspace = 8

-- `input[i]`
abbrev pub at : List ℕ → ℕ → ℕ
at input i = get_or input i 0

-- What the tests on an overstrike leave: the byte, its face, and how far `curr` moves
pub record Overstrike : Type 0 where
  pub c : ℕ
  pub face : ℕ
  pub skipped : ℕ

abbrev pub over : ℕ → ℕ → ℕ → Overstrike
over c face skipped = record { c = c; face = face; skipped = skipped }

-- `c == input[0]`, and so `n` more times behind backspaces
abbrev pub again : ℕ → ℕ → List ℕ → Bool
again zero c input = c == at input 0
again (suc n) c input = c == at input 0 && backspace == at input 1 && again n c (drop 2 input)

-- `c == '_'`
abbrev underline : List ℕ → Overstrike
underline input =
    if again 3 (at input 0) input
    then over (at input 0) label_strong 8
    else over (at input 0) keyword 2

-- The line stands in the header or the footer of a page of 66 lines; `lines` is a size_t.
abbrev pub in_margin : ℕ → Bool
in_margin lines = (lines + 3) % 2 ^ 64 % 66 == 0 || (lines + (2 ^ 64 - 4)) % 2 ^ 64 % 66 == 0

-- The symbols, the underscore behind its character, and what two characters leave in a margin
abbrev composed : ℕ → ℕ → List ℕ → Overstrike
composed lines c input =
    if (b'o' == c && b'+' == at input 0) || (b'+' == c && b'o' == at input 0)
    then over 197 symbol 2
    else if b'c' == c && b'O' == at input 0
    then over 227 symbol 2
    else if b'+' == c && b'_' == at input 0
    then over 177 symbol 2
    else if b'~' == c && b'>' == at input 0 && backspace == at input 1 && b'_' == at input 2
    then over 179 symbol 4
    else if b'~' == c && b'<' == at input 0 && backspace == at input 1 && b'_' == at input 2
    then over 163 symbol 4
    else if b'_' == at input 0
    then over c keyword 2
    else if in_margin lines
    then over c plain_face 2
    else over c plain_face 0

-- The tests behind `buffer->content[buffer->curr] == '\b'`
unfoldable pub overstrike : ℕ → ℕ → List ℕ → Overstrike
overstrike lines c input =
    if again 3 c input
    then over c label_strong 8
    else if again 2 c input
    then over c keyword_strong 6
    else if again 1 c input
    then over c keyword_strong 4
    else if again 0 c input
    then over c keyword_strong 2
    else if c == b'_'
    then underline input
    else composed lines c input

-- The character at the beginning of what is unread of a line
unfoldable pub read_char : ℕ → List ℕ → Overstrike
read_char lines unread =
    if at unread 1 == backspace
    then overstrike lines (at unread 0) (drop 2 unread)
    else over (at unread 0) plain_face 0

-- What plain_getc returns, `none` for EOF, with the buffer and the job behind the call
pub record Got : Type 0 where
  pub char : Option (ℕ × ℕ)
  pub buffer : Buffer
  pub job : Job

abbrev pub set_lines : ℕ → Job → Job
set_lines n j = record j { current_file = record j.current_file { lines = n } }

unfoldable pub take_char : Buffer → Job → Got
take_char b j =
    let o = read_char j.current_file.lines (drop b.curr b.content) in
    record {
      char = some (o.c, o.face);
      buffer = record b { curr = b.curr + 1 + o.skipped };
      job = j;
    }

-- The line that was got, and the end of the file if there was none
unfoldable pub after_get : Buffer → Job → Got
after_get b j =
    if b.len == 0
    then record { char = none; buffer = b; job = set_lines b.line j }
    else take_char b (set_lines b.line j)

module _ (tolower : ℕ → ℕ) where
  unfoldable pub plain_getc : Buffer → Job → Got
  plain_getc b j = if buffer_is_empty b then after_get (buffer_get tolower b) j else take_char b j

  unfoldable pub plain_print_postscript : Settings → ℕ → Buffer → Job → Option Job
  plain_print_postscript s zero b j = none
  plain_print_postscript s (suc fuel) b j =
      let got = plain_getc b j in
      elim got.char [
        | none ↦ some got.job
        | some (c, face) ↦ plain_print_postscript s fuel got.buffer (ps_print_char s c face got.job)
      ]
