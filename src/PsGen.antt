-- ===== src/PsGen.antt =====
-- liba2ps/psgen.c: the state of the generator of PostScript, and what it writes.
--
-- What is written is a list of tokens, the latest first, each for one or several calls of output
-- with a fixed format. The texts of headers, footers and titles are given as expand_user_string
-- returns them, without values that are filled in later; the label of a page is left out.
-- Counters are natural numbers. Encodings and faces are numbers; no width is defined where no
-- encoding is set, so that such a font has the width 0 for every byte.
pub mod Page
pub mod Print
pub mod Files
pub mod Counters
pub mod View
pub mod Layout
pub mod Char
pub mod Room
pub mod Lines
pub mod Text
pub mod Align
pub mod Strings
pub mod Tests
use a2ps.Prelude.{
  ℕ, ◌+◌, ◌-◌, ◌==◌, Bool, true, false, not, ◌&&◌, ◌||◌, List, [], ◌∷◌, Option, none, some,
  if◌then◌else◌,
}
use a2ps.PageRange.{PageRange}
use a2ps.Escape.{UnprintableFormat, Escaped, ps_escape_char, char_exists, escape_text}

pub data Duplex : Type 0 where
  simplex duplex tumble : Duplex

-- The values of file_align_t; a number stands for itself.
pub data FileAlign : Type 0 where
  file_align_virtual file_align_rank file_align_page file_align_sheet : FileAlign
  file_align_number : ℕ → FileAlign

-- Where a marker is printed
pub data Place : Type 0 where
  water_mark right_header center_footer right_footer left_footer : Place
  center_title right_title left_title : Place

-- Output that does not touch the string that is being written
pub data Command : Type 0 where
  page_comment empty_page virtual_page encoding_begin encoding_end margin_shift : ℕ → Command
  page_setup rotated end_setup bounding_box graphics_save graphics_restore : Command
  page_restore footer title border no_mark : Command

-- The formats of the calls of output
pub data Token : Type 0 where
  open_string no_number : Token
  line_number : ℕ → Token
  text : List ℕ → Token
  change_face : ℕ → Token
  change_string : Token
  show_face close_face end_line_face : ℕ → Token
  show_string close_string end_line_string : Token
  tab_to : ℕ → Token
  mark_end : Place → Token
  command : Command → Token

-- What does not change while files are printed: options of the job, sizes computed by the
-- prolog, and the encodings
pub record Settings : Type 0 where
  pub interpret : Bool
  pub folding : Bool
  pub numbering : ℕ
  pub tabsize : ℕ
  pub linesperpage : ℕ
  pub wxperline : ℕ
  pub rows : ℕ
  pub columns : ℕ
  pub madir_rows : Bool
  pub unprintable_format : UnprintableFormat
  pub requested_encoding : ℕ
  pub faces_wx : ℕ → ℕ → ℕ → ℕ
  pub composite_flag : ℕ → Bool
  pub char_composite_wx : ℕ → ℕ → ℕ
  pub page_range : PageRange
  pub is_toc : Bool
  pub duplex_mode : Duplex
  pub margin : ℕ
  pub landscape : Bool
  pub debug : Bool
  pub has_border : Bool
  pub virtual_force : Bool
  pub print_binaries : Bool
  pub file_align : FileAlign
  pub marker : Place → List ℕ

-- struct file_job
pub record FileJob : Type 0 where
  pub first_sheet : ℕ
  pub sheets : ℕ
  pub last_sheet : ℕ
  pub first_page : ℕ
  pub pages : ℕ
  pub last_page : ℕ
  pub top_line : ℕ
  pub top_page : ℕ
  pub lines : ℕ

-- struct ps_status, as far as it changes, with the static `mb_flag` of ps_print_char
pub record Status : Type 0 where
  pub start_page : Bool
  pub start_line : Bool
  pub is_in_cut : Bool
  pub face : ℕ
  pub face_declared : Bool
  pub nonprinting_chars : ℕ
  pub chars : ℕ
  pub line : ℕ
  pub column : ℕ
  pub wx : ℕ
  pub mb_flag : ℕ

pub record Job : Type 0 where
  pub pages : ℕ
  pub virtual : ℕ
  pub sheets : ℕ
  pub lines_folded : ℕ
  pub encoding : Option ℕ
  pub saved_encoding : Option ℕ
  pub opened_encoding : Option ℕ
  pub current_file : FileJob
  pub status : Status
  pub to_void : Bool
  pub divertion : List Token

infixl 3 ◌▷◌
abbrev pub ◌▷◌ {ℓ κ} : {A : Type ℓ} {B : Type κ} → A → (A → B) → B
x ▷ f = f x

-- `if (c) f (job);`
unfoldable pub when : Bool → (Job → Job) → Job → Job
when c f j = if c then f j else j

unfoldable pub output : Token → Job → Job
output t j = record j { divertion = if j.to_void then j.divertion else t ∷ j.divertion }

abbrev pub output_to_void : Bool → Job → Job
output_to_void forget j = record j { to_void = forget }

abbrev pub set_status : (Status → Status) → Job → Job
set_status f j = record j { status = f j.status }

abbrev pub declared : Bool → Status → Status
declared flag st = record st { face_declared = flag }

-- The widths of the current encoding for the current face
abbrev pub widths_of : Settings → Option ℕ → ℕ → ℕ → ℕ
widths_of s none face c = 0
widths_of s (some e) face c = s.faces_wx e face c

abbrev pub widths : Settings → Job → ℕ → ℕ
widths s j = widths_of s j.encoding j.status.face

-- ps_escape_char of one byte into the buffer `res`
abbrev pub escape_char : Settings → Job → List ℕ → ℕ → Escaped
escape_char s j res c = ps_escape_char s.unprintable_format (char_exists (widths s j) c) res c

-- The bytes of a text that ps_escape_char counts as non-printing
unfoldable pub count_nonprinting : Settings → Job → List ℕ → ℕ
count_nonprinting s j [] = 0
count_nonprinting s j (c ∷ cs) =
    (if (escape_char s j [] c).nonprinting then 1 else 0) + count_nonprinting s j cs

abbrev pub is_empty : List ℕ → Bool
is_empty [] = true
is_empty (c ∷ cs) = false

abbrev pub counted : ℕ → Status → Status
counted n st = record st { nonprinting_chars = st.nonprinting_chars + n }

unfoldable pub output_marker : Settings → Place → Job → Job
output_marker s place j =
    j
    ▷ set_status (counted (count_nonprinting s j (s.marker place)))
    ▷ output (text (escape_text s.unprintable_format (widths s j) (s.marker place)))

-- A marker as a string, and the empty string where there is none
unfoldable pub output_mark : Settings → Place → Job → Job
output_mark s place j =
    if is_empty (s.marker place)
    then output (command no_mark) j
    else (j ▷ output open_string ▷ output_marker s place ▷ output (mark_end place))

unfoldable pub output_mark_if : Settings → Place → Job → Job
output_mark_if s place =
    when (not (is_empty (s.marker place)))
      (λ j. j ▷ output open_string ▷ output_marker s place ▷ output (mark_end place))
