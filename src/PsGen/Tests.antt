-- ===== src/PsGen/Tests.antt =====
-- psgen.c run on a small text, and its theorems there.
use a2ps.Prelude.{
  inl, inr, ◌%◌, ℕ, ◌≤◌, ◌≡◌, refl, true, false, List, [], ◌∷◌, Option, none, some, arith,
}
use a2ps.Escape.{space, char_wx, escape_text, ps_escape_char}
use a2ps.PageRange.{print_page, some_is_in}
use a2ps.PsGen.{
  Settings, Job, Place, simplex, file_align_page, file_align_number, widths_of, when, output,
  count_nonprinting, output_marker, output_mark, output_mark_if, right_header,
}
use a2ps.PsGen.Page.{
  ps_set_encoding, ps_end_encoding, ps_internal_switch_encoding, ps_push_encoding, ps_pop_encoding,
  file_job_synchronize_sheets, file_job_synchronize_pages, count_sheet, begin_setup, page_begin,
  write_footer, page_end, count_virtual, virtual_begin, write_title, virtual_end,
  virtual_empty_output, page_flush, page_empty_output, sheet_flush,
}
use a2ps.PsGen.Print.{
  end_of_line, change_to, break_page, begin_folded, fold_line, first_line, other_line, begin_line,
  form_feed, new_line, put_tab, tab, emit, put_glyph, put_byte, put_pair, put_char, dispatch,
  ps_print_char, ps_print_string, is_binary, check_binary_file,
}
use a2ps.PsGen.Align.{ps_begin_file-Begins}
use a2ps.PsGen.Files.{initialize_ps_status, close_line, ps_begin_file, ps_end_file}
use a2ps.Prelude.Outcome.{ok, ok_or}
use a2ps.PsGen.Strings.{Written, nothing}
use a2ps.PsGen.Strings.Files.{ps_end_file-Written}
use a2ps.PsGen.View.{view}
use a2ps.PsGen.Room.{HasRoom}
use a2ps.PsGen.Text.{ps_print_string-HasRoom}

program : Unit {0}
unfolding char_wx escape_text ps_escape_char print_page some_is_in when output count_nonprinting
    output_marker output_mark output_mark_if ps_set_encoding ps_end_encoding
    ps_internal_switch_encoding ps_push_encoding ps_pop_encoding file_job_synchronize_sheets
    file_job_synchronize_pages count_sheet begin_setup page_begin write_footer page_end
    count_virtual virtual_begin write_title virtual_end virtual_empty_output page_flush
    page_empty_output sheet_flush end_of_line change_to break_page begin_folded fold_line first_line
    other_line begin_line form_feed new_line put_tab tab emit put_glyph put_byte put_pair put_char
    dispatch ps_print_char ps_print_string is_binary check_binary_file initialize_ps_status
    close_line ps_begin_file ps_end_file
program = tt

abbrev no_marker : Place → List ℕ
no_marker right_header = b'h' ∷ []
no_marker _ = []

-- Two lines of three characters on a page, two pages on a sheet
abbrev pub settings : Settings
settings = record {
  interpret = true;
  folding = true;
  numbering = 0;
  tabsize = 8;
  linesperpage = 2;
  wxperline = 1800;
  rows = 1;
  columns = 2;
  madir_rows = true;
  unprintable_format = space;
  requested_encoding = 1;
  faces_wx = λ e f c. 600;
  composite_flag = λ e. false;
  char_composite_wx = λ e f. 1200;
  page_range = record { toc = false; intervals = [] };
  is_toc = false;
  duplex_mode = simplex;
  margin = 0;
  landscape = false;
  debug = false;
  has_border = false;
  virtual_force = false;
  print_binaries = false;
  file_align = file_align_page;
  marker = no_marker;
}

abbrev pub fresh : Job
fresh = record {
  pages = 0;
  virtual = 0;
  sheets = 0;
  lines_folded = 0;
  encoding = none;
  saved_encoding = some 1;
  opened_encoding = none;
  current_file = record {
    first_sheet = 0;
    sheets = 0;
    last_sheet = 0;
    first_page = 0;
    pages = 0;
    last_page = 0;
    top_line = 1;
    top_page = 0;
    lines = 1;
  };
  status = record {
    start_page = true;
    start_line = true;
    is_in_cut = false;
    face = 0;
    face_declared = false;
    nonprinting_chars = 0;
    chars = 0;
    line = 0;
    column = 0;
    wx = 0;
    mb_flag = 0;
  };
  to_void = false;
  divertion = [];
}

-- `abcd(\n` and a tab: the first line is folded, and the tab begins a page.
abbrev sample : List ℕ
sample = b'a' ∷ b'b' ∷ b'c' ∷ b'd' ∷ b'(' ∷ b'\n' ∷ b'\t' ∷ []

abbrev printed : Job
printed = ps_print_string settings sample 0 fresh

sample_pages : printed.pages ≡ 2
unfolding program
sample_pages = refl

sample_sheets : printed.sheets ≡ 1
unfolding program
sample_sheets = refl

sample_folded : printed.lines_folded ≡ 2
unfolding program
sample_folded = refl

narrow : (enc : Option ℕ) (face c : ℕ) → char_wx space (widths_of settings enc face) c ≤ 1800
unfolding char_wx
narrow none face c = omega arith
narrow (some e) face c = omega arith

fresh-HasRoom : HasRoom settings 1800 (view fresh)
unfolding view
fresh-HasRoom = record {
  line_room = omega arith;
  virtual_room = omega arith;
  page_room = inr (omega arith);
  page_begins = inl refl;
  cut_begins = inl refl;
  wx_room = inr (omega arith);
}

ps_print_string-HasRoom_example :
    HasRoom settings 1800 (view (ps_print_string settings sample 0 fresh))
ps_print_string-HasRoom_example =
    ps_print_string-HasRoom settings 1800 (omega arith) (omega arith) (omega arith)
      (λ j c. narrow j.encoding j.status.face c) (λ e face. omega arith) sample 0 fresh
      fresh-HasRoom

-- Files begin on the first of four pages.
abbrev aligned : Settings
aligned = record settings { file_align = file_align_number 4 }

ps_begin_file-Begins_example :
    ((ps_begin_file aligned false printed).virtual ≡ 0)
    × ((ps_begin_file aligned false printed).sheets % 4 ≡ 0)
ps_begin_file-Begins_example = ps_begin_file-Begins aligned printed (omega arith) (omega arith)

-- The first file, with the sample as its text, printed to its end
abbrev printed_file : Job
printed_file =
    ok_or fresh
      (ps_end_file settings (ps_print_string settings sample 0 (ps_begin_file settings true fresh)))

ends_well :
    ps_end_file settings (ps_print_string settings sample 0 (ps_begin_file settings true fresh))
    ≡ ok printed_file
unfolding program
ends_well = refl

ps_end_file-Written_example : Written false printed_file.divertion
ps_end_file-Written_example =
    ps_end_file-Written settings true sample 0 fresh printed_file nothing ends_well
