-- ===== src/PsGen/Page.antt =====
-- Encodings, sheets and virtual pages: ps_set_encoding up to require_fresh_page of psgen.c, and the
-- counters of fjobs.c.
use a2ps.Prelude.{
  ℕ, ◌+◌, ◌-◌, ◌*◌, ◌%◌, ◌==◌, Bool, true, false, not, ◌&&◌, ◌||◌, Option, none, some,
  if◌then◌else◌,
}
use a2ps.PageRange.{print_page}
use a2ps.PsGen.{
  Settings, Job, FileJob, Duplex, simplex, ◌▷◌, when, output, output_to_void, set_status, declared,
  output_mark, output_mark_if, command, page_comment, empty_page, virtual_page, encoding_begin,
  encoding_end, margin_shift, page_setup, rotated, end_setup, bounding_box, graphics_save,
  graphics_restore, page_restore, footer, title, border, is_empty, water_mark, right_header,
  center_footer, right_footer, left_footer, center_title, right_title, left_title,
}

abbrev pub set_encoding : Option ℕ → Job → Job
set_encoding enc j = record j { encoding = enc }

-- The key of NULL is never asked for.
unfoldable pub ps_set_encoding : Option ℕ → Job → Job
ps_set_encoding none j = record j { encoding = none; opened_encoding = none }
ps_set_encoding (some e) j =
    record j { encoding = some e; opened_encoding = some e } ▷ output (command (encoding_begin e))

abbrev pub end_of : Option ℕ → Job → Job
end_of none j = j
end_of (some e) j = output (command (encoding_end e)) j

unfoldable pub ps_end_encoding : Job → Job
ps_end_encoding j = record (end_of j.opened_encoding j) { encoding = none; opened_encoding = none }

abbrev pub is_same : Option ℕ → Option ℕ → Bool
is_same none none = true
is_same (some e) (some f) = e == f
is_same _ _ = false

abbrev pub is_null : Option ℕ → Bool
is_null none = true
is_null (some e) = false

unfoldable pub ps_internal_switch_encoding : Option ℕ → Job → Job
ps_internal_switch_encoding enc j =
    if is_same j.encoding enc
    then j
    else (if is_null j.opened_encoding
        then (j ▷ ps_end_encoding ▷ set_encoding enc)
        else (j ▷ ps_end_encoding ▷ ps_set_encoding enc))
      ▷ set_status (declared false)

unfoldable pub ps_push_encoding : Option ℕ → Job → Job
ps_push_encoding enc j = ps_internal_switch_encoding enc (record j { saved_encoding = j.encoding })

unfoldable pub ps_pop_encoding : Job → Job
ps_pop_encoding j = ps_internal_switch_encoding j.saved_encoding j

abbrev set_file : (FileJob → FileJob) → Job → Job
set_file f j = record j { current_file = f j.current_file }

abbrev first_or : ℕ → ℕ → ℕ
first_or first now = if first == 0 then now else first

unfoldable pub file_job_synchronize_sheets : Job → Job
file_job_synchronize_sheets j =
    set_file
      (λ file. record file {
        first_sheet = first_or file.first_sheet j.sheets;
        last_sheet = j.sheets;
        sheets = j.sheets - first_or file.first_sheet j.sheets + 1;
      })
      j

unfoldable pub file_job_synchronize_pages : Job → Job
file_job_synchronize_pages j =
    set_file
      (λ file. record file {
        first_page = first_or file.first_page j.pages;
        top_page = first_or file.top_page 1;
        last_page = j.pages;
        top_line = file.lines;
        pages = j.pages - first_or file.first_page j.pages + 1;
      })
      j

abbrev pub is_simplex : Duplex → Bool
is_simplex simplex = true
is_simplex _ = false

module _ (s : Settings) where
  abbrev pub prints : Job → Bool
  prints j = print_page s.page_range s.is_toc j.pages

  -- The counters of `page_begin`
  unfoldable pub count_sheet : Job → Job
  count_sheet j = record j {
    virtual = 1;
    sheets = if prints j then j.sheets + 1 else j.sheets;
    current_file = record j.current_file { top_page = j.current_file.pages + 1 };
  }

  abbrev pub binds : Job → Bool
  binds j = not (s.margin == 0) && (is_simplex s.duplex_mode || j.sheets % 2 == 1)

  -- From `Getting ready to delay the page label` to the end of the page setup
  unfoldable pub begin_setup : Job → Job
  begin_setup j =
      j
      ▷ output (command (page_comment j.sheets))
      ▷ output (command page_setup)
      ▷ when (binds j) (output (command (margin_shift s.margin)))
      ▷ when s.landscape (output (command rotated))
      ▷ output (command end_setup)

  unfoldable pub page_begin : Job → Job
  page_begin j =
      j
      ▷ count_sheet
      ▷ begin_setup
      ▷ when s.debug (output (command bounding_box))
      ▷ ps_set_encoding (some s.requested_encoding)
      ▷ output_mark_if s water_mark
      ▷ output (command graphics_save)
      ▷ λ j. ps_internal_switch_encoding j.saved_encoding j

  abbrev pub prints_footer : Bool
  prints_footer =
      not (is_empty (s.marker center_footer))
      || not (is_empty (s.marker left_footer))
      || not (is_empty (s.marker right_footer))

  -- `if (PRINT_FOOTER)`
  unfoldable pub write_footer : Job → Job
  write_footer j =
      j
      ▷ output_mark s center_footer
      ▷ output_mark s right_footer
      ▷ output_mark s left_footer
      ▷ output (command footer)

  unfoldable pub page_end : Job → Job
  page_end j =
      j
      ▷ output (command graphics_restore)
      ▷ ps_push_encoding (some s.requested_encoding)
      ▷ output_mark_if s right_header
      ▷ when prints_footer write_footer
      ▷ ps_end_encoding
      ▷ output (command page_restore)
      ▷ λ j. record j { virtual = 0 }

  -- `job->pages++`, and the choice of the pages that are printed
  unfoldable pub count_virtual : Job → Job
  count_virtual j = record j { pages = j.pages + 1 } ▷ λ j. record j {
    to_void = not (prints j);
    virtual = if prints j then j.virtual + 1 else j.virtual;
  }

  unfoldable pub virtual_begin : Job → Job
  virtual_begin j =
      j
      ▷ count_virtual
      ▷ (λ j. when (j.virtual == 1) page_begin j)
      ▷ (λ j. when (is_null j.encoding) (ps_set_encoding j.saved_encoding) j)
      ▷ file_job_synchronize_pages
      ▷ file_job_synchronize_sheets
      ▷ λ j. output (command (virtual_page (j.virtual - 1))) j

  abbrev pub prints_title : Bool
  prints_title =
      not (is_empty (s.marker center_title))
      || not (is_empty (s.marker left_title))
      || not (is_empty (s.marker right_title))

  -- `if (PRINT_TITLE)`
  unfoldable pub write_title : Job → Job
  write_title j =
      j
      ▷ ps_push_encoding (some s.requested_encoding)
      ▷ output_mark s center_title
      ▷ output_mark s right_title
      ▷ output_mark s left_title
      ▷ output (command title)
      ▷ ps_pop_encoding

  unfoldable pub virtual_end : Job → Job
  virtual_end j =
      j
      ▷ when prints_title write_title
      ▷ when s.has_border (output (command border))
      ▷ (λ j. when (j.virtual == s.columns * s.rows) page_end j)
      ▷ set_status (λ st. record st { line = 0 })

  unfoldable pub virtual_empty_output : Job → Job
  virtual_empty_output j =
      if s.virtual_force
      then (j ▷ virtual_begin ▷ virtual_end)
      else record j { pages = j.pages + 1; virtual = j.virtual + 1 } ▷ λ j.
          when (j.virtual == s.columns * s.rows) page_end j

  unfoldable pub page_flush : Job → Job
  page_flush j = j ▷ output_to_void false ▷ λ j. when (not (j.virtual == 0)) page_end j

  unfoldable pub page_empty_output : Job → Job
  page_empty_output j = record j { sheets = j.sheets + 1 } ▷ file_job_synchronize_sheets ▷ λ j.
      output (command (empty_page j.sheets)) j

  unfoldable pub sheet_flush : Job → Job
  sheet_flush j = j ▷ page_flush ▷ λ j.
      when (not (is_simplex s.duplex_mode) && not (j.sheets % 2 == 0)) page_empty_output j

  unfoldable pub require_fresh_page : Job → Job
  require_fresh_page j = when (not (j.virtual == 0)) page_flush j
