-- ===== src/PsGen/Files.antt =====
-- The beginning and the end of a file: initialize_ps_status of psstat.c, ps_switch_encoding,
-- ps_begin_file and ps_end_file of psgen.c.
--
-- The loops of ps_begin_file run on fuel, the number that they align to.
use a2ps.Prelude.{ℕ, zero, suc, ◌%◌, ◌==◌, Bool, true, false, not, some, if◌then◌else◌}
use a2ps.Prelude.Outcome.{Outcome}
use a2ps.PsGen.{
  Settings, Job, Status, ◌▷◌, when, output, set_status, open_string, close_face, close_string,
  FileAlign, file_align_virtual, file_align_rank, file_align_page, file_align_sheet,
  file_align_number,
}
use a2ps.PsGen.Page.{
  virtual_end, virtual_empty_output, page_flush, sheet_flush, page_empty_output, is_same,
  ps_internal_switch_encoding, file_job_synchronize_pages, file_job_synchronize_sheets,
}
use a2ps.PsGen.Print.{check_binary_file}

unfoldable pub initialize_ps_status : Status → Status
initialize_ps_status st = record st {
  start_page = true;
  start_line = true;
  is_in_cut = false;
  face = 0;
  face_declared = false;
  nonprinting_chars = 0;
  chars = 0;
  line = 0;
  column = 0;
  wx = 0;
}

-- The string that is being written, if any, is closed.
unfoldable pub close_line : Job → Job
close_line = λ j.
    when (not j.status.start_line)
      (λ j.
        if j.status.face_declared
        then output close_string j
        else output (close_face j.status.face) j)
      j

unfoldable pub ps_switch_encoding : ℕ → Job → Job
ps_switch_encoding enc j =
    if is_same j.encoding (some enc)
    then j
    else (j
        ▷ close_line
        ▷ ps_internal_switch_encoding (some enc)
        ▷ (λ j. record j { saved_encoding = some enc })
        ▷ λ j. when (not j.status.start_line) (output open_string) j)

-- `while (count % alignment != 0) step;` as long as there is fuel
unfoldable pub step_to_multiple : (Job → ℕ) → (Job → Job) → ℕ → ℕ → Job → Job
step_to_multiple count step zero alignment j = j
step_to_multiple count step (suc fuel) alignment j =
    let rest = step_to_multiple count step fuel alignment (step j) in
    if count j % alignment == 0 then j else rest

module _ (s : Settings) where
  -- `job->madir == madir_rows ? job->columns : job->rows`
  abbrev pub rank : ℕ
  rank = if s.madir_rows then s.columns else s.rows

  -- `while (job->pages % alignment != 0)`
  abbrev pub align_pages : ℕ → Job → Job
  align_pages alignment =
      step_to_multiple (λ j. j.pages) (virtual_empty_output s) alignment alignment

  -- `while (job->sheets % job->file_align != 0)`
  abbrev pub align_sheets : ℕ → Job → Job
  align_sheets alignment =
      step_to_multiple (λ j. j.sheets) (page_empty_output s) alignment alignment

  unfoldable pub align : FileAlign → Job → Job
  align file_align_virtual j = j
  align file_align_rank j = align_pages rank j
  align file_align_page j = page_flush s j
  align file_align_sheet j = sheet_flush s j
  align (file_align_number n) j = j ▷ page_flush s ▷ align_sheets n

  -- `is_first` tells that no file came before.
  unfoldable pub ps_begin_file : Bool → Job → Job
  ps_begin_file is_first j =
      j ▷ set_status initialize_ps_status ▷ λ j. if is_first then j else align s.file_align j

  unfoldable pub ps_end_file : Job → Outcome Job
  ps_end_file j =
      j
      ▷ close_line
      ▷ (λ j. when (not j.status.start_page) (virtual_end s) j)
      ▷ file_job_synchronize_pages
      ▷ file_job_synchronize_sheets
      ▷ check_binary_file s
