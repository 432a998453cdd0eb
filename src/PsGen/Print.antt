-- ===== src/PsGen/Print.antt =====
-- The printing of characters: from check_binary_file to ps_print_string of psgen.c.
--
-- Bytes are numbers below 256. What ps_print_char keeps in a static variable is a field of the
-- state.
use a2ps.Prelude.{
  ℕ, ◌+◌, ◌*◌, ◌/◌, ◌%◌, ◌^◌, max, ◌==◌, ltb, leb, Bool, true, false, not, ◌&&◌, List, [], ◌∷◌,
  Option, none, some, if◌then◌else◌,
}
use a2ps.Prelude.Outcome.{Outcome, ok, exit, binary_file}
use a2ps.Escape.{Escaped, char_wx}
use a2ps.PsGen.{
  Settings, Job, Status, ◌▷◌, when, output, set_status, declared, escape_char, widths, open_string,
  no_number, line_number, text, change_face, change_string, show_face, end_line_face, show_string,
  end_line_string, tab_to,
}
use a2ps.PsGen.Page.{virtual_begin, virtual_end}

abbrev pub courier_wx : ℕ
courier_wx = 600

-- The face Symbol
abbrev pub symbol : ℕ
symbol = 6

-- Products of `unsigned` wrap at 2 ^ 32.
unfoldable pub is_binary : Status → Bool
is_binary st = ltb 120 st.chars && leb 40 (st.nonprinting_chars * 100 % 2 ^ 32 / st.chars)

unfoldable pub check_binary_file : Settings → Job → Outcome Job
check_binary_file s j =
    if is_binary j.status && not s.print_binaries then exit binary_file else ok j

-- The font of the string that ends is given unless it is known.
abbrev if_declared : Job → (Job → Job) → (Job → Job) → Job
if_declared j known unknown = if j.status.face_declared then known j else unknown j

abbrev pub next_line : Status → Status
next_line st = record st { line = st.line + 1; column = 0; wx = 0 }

unfoldable pub end_of_line : Job → Job
end_of_line j =
    if_declared j (output end_line_string)
      (λ j. j ▷ output (end_line_face j.status.face) ▷ set_status (declared true))
    ▷ set_status next_line

abbrev pub turn_to : ℕ → Status → Status
turn_to new_face st = record st { face = new_face; face_declared = false }

abbrev pub go_on_in : ℕ → Status → Status
go_on_in new_face st = record st {
  face = new_face;
  face_declared = st.face_declared && st.face == new_face;
}

-- `Is this a new font?`
unfoldable pub change_to : ℕ → Job → Job
change_to new_face j =
    if j.status.face == new_face
    then j
    else if_declared j (output change_string) (λ j. output (change_face j.status.face) j)
      ▷ set_status (turn_to new_face)

-- What is printed for a character or a pair: the bytes, the columns, the columns on a new line,
-- what is pending behind it, and the width, which the state at that time determines
pub record Glyph : Type 0 where
  pub buf : List ℕ
  pub nchars : ℕ
  pub refolded : ℕ
  pub pending : ℕ
  pub glyph_wx : Job → ℕ

module _ (s : Settings) where
  abbrev pub page_full : Job → Bool
  page_full j = leb s.linesperpage j.status.line

  abbrev pub line_full : Job → Bool
  line_full j = ltb s.wxperline j.status.wx

  abbrev pub is_numbering : Bool
  is_numbering = not (s.numbering == 0)

  abbrev pub numbered : Job → Job
  numbered j =
      if j.current_file.lines % s.numbering == 0
      then output (line_number j.current_file.lines) j
      else output no_number j

  -- `if (page_full)` of fold_line
  unfoldable pub break_page : Job → Job
  break_page j = j ▷ virtual_end s ▷ virtual_begin s ▷ set_status (declared false)

  -- The beginning of a line that goes on: its number is not printed.
  unfoldable pub begin_folded : ℕ → Job → Job
  begin_folded new_face j =
      if is_numbering
      then output no_number j
      else (j ▷ output open_string ▷ set_status (go_on_in new_face))

  unfoldable pub fold_line : ℕ → Job → Job
  fold_line new_face j =
      record j { lines_folded = j.lines_folded + 1 }
      ▷ end_of_line
      ▷ (λ j. when (page_full j) break_page j)
      ▷ begin_folded new_face

  abbrev pub started_page : ℕ → Status → Status
  started_page new_face st = record st {
    start_page = false;
    face = new_face;
    face_declared = false;
  }

  abbrev pub started_line : Status → Status
  started_line st = record st { start_line = false }

  -- The first line of a page
  unfoldable pub first_line : ℕ → Job → Job
  first_line new_face j = j ▷ virtual_begin s ▷ set_status (started_page new_face) ▷ λ j.
      if is_numbering then numbered j else output open_string j

  -- A line that is not the first of its page
  unfoldable pub other_line : ℕ → Job → Job
  other_line new_face j =
      if is_numbering then numbered j else (j ▷ output open_string ▷ set_status (go_on_in new_face))

  -- `Start a new line ?`
  unfoldable pub begin_line : ℕ → Job → Job
  begin_line new_face j =
      (if j.status.start_page then first_line new_face j else other_line new_face j)
      ▷ set_status started_line

  -- `case '\f'`
  unfoldable pub form_feed : Job → Job
  form_feed j =
      when (not j.status.start_line)
        (λ j. j ▷ end_of_line ▷ set_status (λ st. record st { start_line = true })) j
      ▷ (λ j. when j.status.start_page (virtual_begin s) j)
      ▷ virtual_end s
      ▷ set_status (λ st. record st { start_page = true })

  -- `case '\n'`
  unfoldable pub new_line : Job → Job
  new_line j =
      record j {
        current_file = record j.current_file { lines = j.current_file.lines + 1 };
        status = record j.status { start_line = true };
      }
      ▷ end_of_line
      ▷ λ j.
          when (page_full j)
            (λ j. j ▷ virtual_end s ▷ set_status (λ st. record st { start_page = true })) j

  abbrev pub in_cut : Job → Job
  in_cut = set_status (λ st. record st { is_in_cut = true })

  abbrev tab_stop : Status → ℕ
  tab_stop st = (max (st.wx / courier_wx) st.column / s.tabsize + 1) * s.tabsize

  abbrev pub at_tab_stop : Status → Status
  at_tab_stop st = record st { column = tab_stop st; wx = tab_stop st * courier_wx }

  unfoldable pub put_tab : Job → Job
  put_tab j =
      if_declared j (output show_string)
        (λ j. j ▷ output (show_face j.status.face) ▷ set_status (declared true))
      ▷ λ j. output (tab_to j.status.column) j

  -- `case '\t'`
  unfoldable pub tab : ℕ → Job → Job
  tab new_face j = j ▷ change_to new_face ▷ set_status at_tab_stop ▷ λ j.
      if line_full j
      then (if s.folding then (j ▷ fold_line new_face ▷ put_tab) else in_cut j)
      else put_tab j

  unfoldable pub emit : Glyph → Job → Job
  emit g j =
      j
      ▷ output (text g.buf)
      ▷ set_status (λ st. record st { chars = st.chars + g.nchars; mb_flag = g.pending })

  abbrev pub advance : Glyph → Job → Job
  advance g j =
      set_status (λ st. record st { wx = st.wx + g.glyph_wx j; column = st.column + g.nchars }) j

  abbrev pub restart : Glyph → Job → Job
  restart g j = set_status (λ st. record st { column = g.refolded; wx = g.glyph_wx j }) j

  unfoldable pub put_glyph : ℕ → Glyph → Job → Job
  put_glyph new_face g j = j ▷ advance g ▷ λ j.
      if line_full j
      then (if s.folding then (j ▷ fold_line new_face ▷ restart g ▷ emit g) else in_cut j)
      else emit g j

  abbrev pub count_escaped : Escaped → Status → Status
  count_escaped e st = record st {
    nonprinting_chars = if e.nonprinting then st.nonprinting_chars + 1 else st.nonprinting_chars;
  }

  unfoldable pub put_byte : ℕ → ℕ → Job → Job
  put_byte new_face c j =
      let e = escape_char s j [] c in
      j
      ▷ set_status (count_escaped e)
      ▷ put_glyph new_face (record {
        buf = e.res;
        nchars = e.columns;
        refolded = e.columns;
        pending = j.status.mb_flag;
        glyph_wx = λ j. char_wx s.unprintable_format (widths s j) c;
      })

  abbrev pub composite_of : Option ℕ → ℕ → ℕ
  composite_of none face = 0
  composite_of (some e) face = s.char_composite_wx e face

  unfoldable pub put_pair : ℕ → ℕ → Job → Job
  put_pair new_face c j =
      let first = escape_char s j [] j.status.mb_flag in
      let second = escape_char s j first.res c in
      j
      ▷ set_status (count_escaped first)
      ▷ set_status (count_escaped second)
      ▷ put_glyph new_face (record {
        buf = second.res;
        nchars = first.columns + second.columns;
        refolded = (first.columns + second.columns) * 2;
        pending = 0;
        glyph_wx = λ j. composite_of j.encoding j.status.face;
      })

  abbrev pub is_composite : Option ℕ → Bool
  is_composite none = false
  is_composite (some e) = s.composite_flag e

  -- `print: default:`
  unfoldable pub put_char : ℕ → ℕ → Job → Job
  put_char new_face c j = j ▷ change_to new_face ▷ λ j.
      if ltb 127 c && is_composite j.encoding && not (j.status.face == symbol)
      then (if j.status.mb_flag == 0
          then set_status (λ st. record st { mb_flag = c }) j
          else put_pair new_face c j)
      else put_byte new_face c j

  -- The switch over the character
  unfoldable pub dispatch : ℕ → ℕ → Job → Job
  dispatch c new_face j =
      if c == b'\x0c' && s.interpret
      then form_feed j
      else if c == b'\n'
      then new_line j
      else if c == b'\t' && s.interpret
      then tab new_face j
      else put_char new_face c j

  unfoldable pub ps_print_char : ℕ → ℕ → Job → Job
  ps_print_char c new_face j =
      if j.status.is_in_cut && not (c == b'\x0c') && not (c == b'\n')
      then j
      else (j
          ▷ set_status (λ st. record st { is_in_cut = false })
          ▷ (λ j. when j.status.start_line (begin_line new_face) j)
          ▷ dispatch c new_face)

  unfoldable pub ps_print_string : List ℕ → ℕ → Job → Job
  ps_print_string [] face j = j
  ps_print_string (c ∷ cs) face j = ps_print_string cs face (ps_print_char c face j)
