-- ===== src/PsGen/Strings/Files.antt =====
-- Files from their beginning to their end.
use a2ps.Prelude.{
  ℕ, zero, suc, ◌*◌, ◌+◌, ◌%◌, ◌≡◌, refl, sym, ◌∙◌, ap, subst, inl, inr, Bool, Bool-cases, true,
  false, not, ◌&&◌, ◌==◌, List, if◌then◌else◌,
}
use a2ps.Prelude.Outcome.{ok, exit, binary_file, ok_injective}
use a2ps.PsGen.{
  Settings, Job, Token, output, set_status, output_to_void, FileAlign, file_align_virtual,
  file_align_rank, file_align_page, file_align_sheet, file_align_number, close_string, close_face,
}
use a2ps.PsGen.Page.{
  virtual_begin, page_end, file_job_synchronize_sheets, virtual_empty_output, page_empty_output,
  page_flush, sheet_flush,
}
use a2ps.PsGen.Counters.{mask, page_end-flushed}
use a2ps.PsGen.Print.{ps_print_string, check_binary_file, is_binary}
use a2ps.PsGen.Char.{if-cases, when-cases}
use a2ps.PsGen.Files.{
  initialize_ps_status, close_line, step_to_multiple, align, ps_begin_file, ps_end_file, rank,
}
use a2ps.PsGen.Strings.{Written, IsWritten, output-IsWritten, set_status-IsWritten, when-Closes}
use a2ps.PsGen.Strings.Pages.{
  virtual_end-Closes, virtual_empty_output-Closes, page_flush-Closes, page_empty_output-Closes,
  synchronize_pages-Closes, synchronize_sheets-Closes,
}
use a2ps.PsGen.Strings.Text.{starts_line, virtual_end-starts, virtual_begin-starts}
use a2ps.PsGen.Strings.Runs.{IsOpen, IsClosed, IsClosed→IsOpen, ps_print_string-IsOpen}

starts-mask : (j : Job) → starts_line (mask j) ≡ starts_line j
unfolding mask
starts-mask j = refl

page_end-starts : (s : Settings) (j : Job) → starts_line (page_end s j) ≡ starts_line j
page_end-starts s j =
    sym (starts-mask (page_end s j)) ∙ ap starts_line (page_end-flushed s j) ∙ starts-mask j

abbrev Rests : (Job → Job) → Type 0
Rests f = (j : Job) → IsClosed j → IsClosed (f j)

module _ (s : Settings) where
  page_flush-starts : (j : Job) → starts_line (page_flush s j) ≡ starts_line j
  unfolding page_flush
  page_flush-starts j =
      when-cases (λ k. starts_line k ≡ starts_line j) (not (j.virtual == 0)) (page_end s)
        (output_to_void false j) (λ _. page_end-starts s (output_to_void false j)) (λ _. refl)

  page_flush-Rests : Rests (page_flush s)
  page_flush-Rests j h = record {
    outside = page_flush-Closes s j h.outside;
    fresh = page_flush-starts j ∙ h.fresh;
  }

  virtual_empty_output-starts : (j : Job) → starts_line (virtual_empty_output s j) ≡ starts_line j
  unfolding virtual_empty_output
  virtual_empty_output-starts j =
      let counted = record j { pages = j.pages + 1; virtual = j.virtual + 1 } in
      if-cases (λ k. starts_line k ≡ starts_line j) s.virtual_force _ _
        (λ _. virtual_end-starts s (virtual_begin s j) ∙ virtual_begin-starts s j)
        (λ _.
          when-cases (λ k. starts_line k ≡ starts_line j) (counted.virtual == s.columns * s.rows)
            (page_end s) counted (λ _. page_end-starts s counted) (λ _. refl))

  virtual_empty_output-Rests : Rests (virtual_empty_output s)
  virtual_empty_output-Rests j h = record {
    outside = virtual_empty_output-Closes s j h.outside;
    fresh = virtual_empty_output-starts j ∙ h.fresh;
  }

  page_empty_output-starts : (j : Job) → starts_line (page_empty_output s j) ≡ starts_line j
  unfolding page_empty_output file_job_synchronize_sheets output
  page_empty_output-starts j = refl

  page_empty_output-Rests : Rests (page_empty_output s)
  page_empty_output-Rests j h = record {
    outside = page_empty_output-Closes s j h.outside;
    fresh = page_empty_output-starts j ∙ h.fresh;
  }

  sheet_flush-Rests : Rests (sheet_flush s)
  unfolding sheet_flush
  sheet_flush-Rests j h =
      when-cases IsClosed _ (page_empty_output s) (page_flush s j)
        (λ _. page_empty_output-Rests _ (page_flush-Rests j h)) (λ _. page_flush-Rests j h)

  step_to_multiple-Rests :
      (count : Job → ℕ) (step : Job → Job)
      → Rests step
      → (fuel n : ℕ) → Rests (step_to_multiple count step fuel n)
  unfolding step_to_multiple
  step_to_multiple-Rests count step k zero n j h = h
  step_to_multiple-Rests count step k (suc fuel) n j h =
      if-cases IsClosed (count j % n == 0) _ _ (λ _. h)
        (λ _. step_to_multiple-Rests count step k fuel n (step j) (k j h))

  align-Rests : (a : FileAlign) → Rests (align s a)
  unfolding align
  align-Rests file_align_virtual j h = h
  align-Rests file_align_rank j h =
      step_to_multiple-Rests _ _ virtual_empty_output-Rests (rank s) (rank s) j h
  align-Rests file_align_page j h = page_flush-Rests j h
  align-Rests file_align_sheet j h = sheet_flush-Rests j h
  align-Rests (file_align_number n) j h =
      step_to_multiple-Rests _ _ page_empty_output-Rests n n _ (page_flush-Rests j h)

  initialized-IsClosed :
      (j : Job) → IsWritten false j → IsClosed (set_status initialize_ps_status j)
  unfolding initialize_ps_status
  initialized-IsClosed j h = record {
    outside = set_status-IsWritten false initialize_ps_status j h;
    fresh = refl;
  }

  ps_begin_file-IsClosed :
      (is_first : Bool) (j : Job) → IsWritten false j → IsClosed (ps_begin_file s is_first j)
  unfolding ps_begin_file
  ps_begin_file-IsClosed is_first j h =
      if-cases IsClosed is_first _ _ (λ _. initialized-IsClosed j h)
        (λ _. align-Rests s.file_align _ (initialized-IsClosed j h))

  close_line-IsWritten : (j : Job) → IsOpen j → IsWritten false (close_line j)
  unfolding close_line
  close_line-IsWritten j h =
      when-cases (IsWritten false) (not (starts_line j)) _ j
        (λ begun.
          let inside = subst (λ b. IsWritten b j) begun h.written in
          if-cases (IsWritten false) j.status.face_declared _ _
            (λ _. output-IsWritten close_string j inside)
            (λ _. output-IsWritten (close_face j.status.face) j inside))
        (λ fresh. subst (λ b. IsWritten b j) fresh h.written)

  checked : (j j' : Job) → check_binary_file s j ≡ ok j' → j ≡ j'
  unfolding check_binary_file
  checked j j' e = elim (Bool-cases (is_binary j.status && not s.print_binaries)) [
    | inl stops ↦ let e' : exit binary_file ≡ ok j' = rw stops at e in cc
    | inr goes ↦ ok_injective (rw goes at e)
  ]

  ps_end_file-IsWritten : (j j' : Job) → IsOpen j → ps_end_file s j ≡ ok j' → IsWritten false j'
  unfolding ps_end_file
  ps_end_file-IsWritten j j' h e = subst (IsWritten false) (checked _ j' e) (
      synchronize_sheets-Closes _ (
        synchronize_pages-Closes _
          (when-Closes _ _ (virtual_end-Closes s) _ (close_line-IsWritten j h))))

-- A dropped output leaves no string open.
IsWritten-false :
    (void : Bool) (ts : List Token) → Written false ts → Written (if void then false else false) ts
IsWritten-false true ts h = h
IsWritten-false false ts h = h

Written-false :
    (void : Bool) (ts : List Token) → Written (if void then false else false) ts → Written false ts
Written-false true ts h = h
Written-false false ts h = h

-- Where no string is open, a file whose text is printed from its beginning to its end leaves no
-- string open, and in between each string is closed before the next one begins, bytes and changes
-- of the font stand in strings only, and commands outside of them only: whatever the text and the
-- settings are, if the program does not stop because the file is binary.
pub ps_end_file-Written :
    (s : Settings) (is_first : Bool) (cs : List ℕ) (face : ℕ) (j j' : Job)
    → Written false j.divertion
    → ps_end_file s (ps_print_string s cs face (ps_begin_file s is_first j)) ≡ ok j'
    → Written false j'.divertion
unfolding IsWritten
ps_end_file-Written s is_first cs face j j' h e =
    let c = ps_begin_file-IsClosed s is_first j (IsWritten-false j.to_void j.divertion h) in
    Written-false j'.to_void j'.divertion
      (ps_end_file-IsWritten s _ j' (ps_print_string-IsOpen s cs face _ (IsClosed→IsOpen _ c)) e)
