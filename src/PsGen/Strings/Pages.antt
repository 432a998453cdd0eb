-- ===== src/PsGen/Strings/Pages.antt =====
-- Sheets and virtual pages begin and end outside of strings.
use a2ps.Prelude.{ℕ, ◌+◌, false, not, Option, none, some}
use a2ps.PsGen.{Settings, declared, encoding_begin, encoding_end, border, empty_page}
use a2ps.PsGen.Page.{
  ps_set_encoding, ps_end_encoding, end_of, set_encoding, is_same, is_null,
  ps_internal_switch_encoding, ps_push_encoding, ps_pop_encoding, file_job_synchronize_sheets,
  file_job_synchronize_pages, count_sheet, begin_setup, binds, page_begin, write_footer, page_end,
  prints_footer, count_virtual, virtual_begin, write_title, prints_title, virtual_end,
  virtual_empty_output, page_flush, page_empty_output, sheet_flush, prints,
}
use a2ps.PsGen.Char.{if-cases}
use a2ps.PsGen.Strings.{
  IsWritten, Closes, output_to_void-IsWritten, set_status-IsWritten, when-Closes, command-Closes,
  mark-Closes, mark_if-Closes,
}

set_encoding-Closes : (enc : Option ℕ) → Closes (ps_set_encoding enc)
unfolding ps_set_encoding IsWritten
set_encoding-Closes none j h = h
set_encoding-Closes (some e) j h =
    command-Closes (encoding_begin e) (record j { encoding = some e; opened_encoding = some e }) h

end_of-Closes : (enc : Option ℕ) → Closes (end_of enc)
end_of-Closes none j h = h
end_of-Closes (some e) j h = command-Closes (encoding_end e) j h

end_encoding-Closes : Closes ps_end_encoding
unfolding ps_end_encoding IsWritten
end_encoding-Closes j h = end_of-Closes j.opened_encoding j h

plain_set-Closes : (enc : Option ℕ) → Closes (set_encoding enc)
unfolding IsWritten
plain_set-Closes enc j h = h

pub switch-Closes : (enc : Option ℕ) → Closes (ps_internal_switch_encoding enc)
unfolding ps_internal_switch_encoding
switch-Closes enc j h =
    if-cases (IsWritten false) (is_same j.encoding enc) _ _ (λ _. h)
      (λ _. set_status-IsWritten false (declared false) _ (
        if-cases (IsWritten false) (is_null j.opened_encoding) _ _
          (λ _. plain_set-Closes enc _ (end_encoding-Closes j h))
          (λ _. set_encoding-Closes enc _ (end_encoding-Closes j h))))

push-Closes : (enc : Option ℕ) → Closes (ps_push_encoding enc)
unfolding ps_push_encoding IsWritten
push-Closes enc j h = switch-Closes enc (record j { saved_encoding = j.encoding }) h

pop-Closes : Closes ps_pop_encoding
unfolding ps_pop_encoding
pop-Closes j h = switch-Closes j.saved_encoding j h

pub synchronize_sheets-Closes : Closes file_job_synchronize_sheets
unfolding file_job_synchronize_sheets IsWritten
synchronize_sheets-Closes j h = h

pub synchronize_pages-Closes : Closes file_job_synchronize_pages
unfolding file_job_synchronize_pages IsWritten
synchronize_pages-Closes j h = h

module _ (s : Settings) where
  count_sheet-Closes : Closes (count_sheet s)
  unfolding count_sheet IsWritten
  count_sheet-Closes j h = h

  begin_setup-Closes : Closes (begin_setup s)
  unfolding begin_setup
  begin_setup-Closes j h = command-Closes _ _ (
      when-Closes s.landscape _ (command-Closes _) _ (
        when-Closes (binds s j) _ (command-Closes _) _ (command-Closes _ _ (command-Closes _ j h))))

  page_begin-Closes : Closes (page_begin s)
  unfolding page_begin
  page_begin-Closes j h = switch-Closes _ _ (
      command-Closes _ _ (
        mark_if-Closes s _ _ (
          set_encoding-Closes _ _ (
            when-Closes s.debug _ (command-Closes _) _
              (begin_setup-Closes _ (count_sheet-Closes j h))))))

  write_footer-Closes : Closes (write_footer s)
  unfolding write_footer
  write_footer-Closes j h =
      command-Closes _ _ (mark-Closes s _ _ (mark-Closes s _ _ (mark-Closes s _ j h)))

  flushed-Closes : Closes (λ j. record j { virtual = 0 })
  unfolding IsWritten
  flushed-Closes j h = h

  pub page_end-Closes : Closes (page_end s)
  unfolding page_end
  page_end-Closes j h = flushed-Closes _ (
      command-Closes _ _ (
        end_encoding-Closes _ (
          when-Closes (prints_footer s) _ write_footer-Closes _
            (mark_if-Closes s _ _ (push-Closes _ _ (command-Closes _ j h))))))

  count_virtual-Closes : Closes (count_virtual s)
  unfolding count_virtual IsWritten
  count_virtual-Closes j h =
      output_to_void-IsWritten (not (prints s (record j { pages = j.pages + 1 }))) j h

  pub virtual_begin-Closes : Closes (virtual_begin s)
  unfolding virtual_begin
  virtual_begin-Closes j h = command-Closes _ _ (
      synchronize_sheets-Closes _ (
        synchronize_pages-Closes _ (
          when-Closes _ _ (set_encoding-Closes _) _
            (when-Closes _ _ page_begin-Closes _ (count_virtual-Closes j h)))))

  write_title-Closes : Closes (write_title s)
  unfolding write_title
  write_title-Closes j h = pop-Closes _ (
      command-Closes _ _
        (mark-Closes s _ _ (mark-Closes s _ _ (mark-Closes s _ _ (push-Closes _ j h)))))

  pub virtual_end-Closes : Closes (virtual_end s)
  unfolding virtual_end
  virtual_end-Closes j h =
      set_status-IsWritten false (λ st. record st { line = 0 }) _
        (when-Closes _ _ page_end-Closes _ (
          when-Closes s.has_border _ (command-Closes border) _
            (when-Closes (prints_title s) _ write_title-Closes j h)))

  counted-Closes : Closes (λ j. record j { pages = j.pages + 1; virtual = j.virtual + 1 })
  unfolding IsWritten
  counted-Closes j h = h

  pub virtual_empty_output-Closes : Closes (virtual_empty_output s)
  unfolding virtual_empty_output
  virtual_empty_output-Closes j h =
      if-cases (IsWritten false) s.virtual_force _ _
        (λ _. virtual_end-Closes _ (virtual_begin-Closes j h))
        (λ _. when-Closes _ _ page_end-Closes _ (counted-Closes j h))

  pub page_flush-Closes : Closes (page_flush s)
  unfolding page_flush
  page_flush-Closes j h = when-Closes _ _ page_end-Closes _ (output_to_void-IsWritten false j h)

  sheets-Closes : Closes (λ j. record j { sheets = j.sheets + 1 })
  unfolding IsWritten
  sheets-Closes j h = h

  pub page_empty_output-Closes : Closes (page_empty_output s)
  unfolding page_empty_output
  page_empty_output-Closes j h =
      command-Closes (empty_page _) _ (synchronize_sheets-Closes _ (sheets-Closes j h))

  pub sheet_flush-Closes : Closes (sheet_flush s)
  unfolding sheet_flush
  sheet_flush-Closes j h = when-Closes _ _ page_empty_output-Closes _ (page_flush-Closes j h)
