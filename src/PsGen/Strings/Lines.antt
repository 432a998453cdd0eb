-- ===== src/PsGen/Strings/Lines.antt =====
-- The beginnings and ends of lines, and tabs: the string of each line.
use a2ps.Prelude.{ℕ, ◌+◌, true, false, ◌==◌}
use a2ps.PsGen.{
  Settings, Job, declared, open_string, no_number, line_number, change_face, change_string,
  show_face, end_line_face, show_string, end_line_string, tab_to,
}
use a2ps.PsGen.Print.{
  end_of_line, next_line, change_to, turn_to, break_page, is_numbering, numbered, go_on_in,
  begin_folded, fold_line, first_line, other_line, begin_line, started_page, started_line, put_tab,
}
use a2ps.PsGen.Char.{if-cases}
use a2ps.PsGen.Strings.{IsWritten, Closes, output-IsWritten, set_status-IsWritten, when-Closes}
use a2ps.PsGen.Strings.Pages.{virtual_begin-Closes, virtual_end-Closes}

pub end_of_line-IsWritten : (j : Job) → IsWritten true j → IsWritten false (end_of_line j)
unfolding end_of_line
end_of_line-IsWritten j h = set_status-IsWritten false next_line _ (
    if-cases (IsWritten false) j.status.face_declared _ _
      (λ _. output-IsWritten end_line_string j h)
      (λ _.
        set_status-IsWritten false (declared true) _
          (output-IsWritten (end_line_face j.status.face) j h)))

pub change_to-IsWritten : (f : ℕ) (j : Job) → IsWritten true j → IsWritten true (change_to f j)
unfolding change_to
change_to-IsWritten f j h =
    if-cases (IsWritten true) (j.status.face == f) _ _ (λ _. h)
      (λ _. set_status-IsWritten true (turn_to f) _ (
        if-cases (IsWritten true) j.status.face_declared _ _
          (λ _. output-IsWritten change_string j h)
          (λ _. output-IsWritten (change_face j.status.face) j h)))

module _ (s : Settings) where
  break_page-Closes : Closes (break_page s)
  unfolding break_page
  break_page-Closes j h =
      set_status-IsWritten false (declared false) _
        (virtual_begin-Closes s _ (virtual_end-Closes s j h))

  begin_folded-IsWritten :
      (f : ℕ) (j : Job) → IsWritten false j → IsWritten true (begin_folded s f j)
  unfolding begin_folded
  begin_folded-IsWritten f j h =
      if-cases (IsWritten true) (is_numbering s) _ _ (λ _. output-IsWritten no_number j h)
        (λ _. set_status-IsWritten true (go_on_in f) _ (output-IsWritten open_string j h))

  counted-IsWritten :
      (j : Job) → IsWritten true j → IsWritten true (record j { lines_folded = j.lines_folded + 1 })
  unfolding IsWritten
  counted-IsWritten j h = h

  pub fold_line-IsWritten : (f : ℕ) (j : Job) → IsWritten true j → IsWritten true (fold_line s f j)
  unfolding fold_line
  fold_line-IsWritten f j h =
      begin_folded-IsWritten f _
        (when-Closes _ _ break_page-Closes _ (end_of_line-IsWritten _ (counted-IsWritten j h)))

  numbered-IsWritten : (j : Job) → IsWritten false j → IsWritten true (numbered s j)
  numbered-IsWritten j h =
      if-cases (IsWritten true) _ _ _ (λ _. output-IsWritten (line_number j.current_file.lines) j h)
        (λ _. output-IsWritten no_number j h)

  first_line-IsWritten : (f : ℕ) (j : Job) → IsWritten false j → IsWritten true (first_line s f j)
  unfolding first_line
  first_line-IsWritten f j h =
      let begun = set_status-IsWritten false (started_page s f) _ (virtual_begin-Closes s j h) in
      if-cases (IsWritten true) (is_numbering s) _ _ (λ _. numbered-IsWritten _ begun)
        (λ _. output-IsWritten open_string _ begun)

  other_line-IsWritten : (f : ℕ) (j : Job) → IsWritten false j → IsWritten true (other_line s f j)
  unfolding other_line
  other_line-IsWritten f j h =
      if-cases (IsWritten true) (is_numbering s) _ _ (λ _. numbered-IsWritten j h)
        (λ _. set_status-IsWritten true (go_on_in f) _ (output-IsWritten open_string j h))

  pub begin_line-IsWritten :
      (f : ℕ) (j : Job) → IsWritten false j → IsWritten true (begin_line s f j)
  unfolding begin_line
  begin_line-IsWritten f j h = set_status-IsWritten true (started_line s) _ (
      if-cases (IsWritten true) j.status.start_page _ _ (λ _. first_line-IsWritten f j h)
        (λ _. other_line-IsWritten f j h))

  pub put_tab-IsWritten : (j : Job) → IsWritten true j → IsWritten true (put_tab s j)
  unfolding put_tab
  put_tab-IsWritten j h = output-IsWritten (tab_to _) _ (
      if-cases (IsWritten false) j.status.face_declared _ _ (λ _. output-IsWritten show_string j h)
        (λ _.
          set_status-IsWritten false (declared true) _
            (output-IsWritten (show_face j.status.face) j h)))
