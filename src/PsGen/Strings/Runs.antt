-- ===== src/PsGen/Strings/Runs.antt =====
-- A text, printed: its string is open exactly within a line.
use a2ps.Prelude.{ℕ, ◌+◌, ◌≡◌, refl, sym, ◌∙◌, subst, true, false, not, ◌&&◌, ◌==◌, List, [], ◌∷◌}
use a2ps.PsGen.{Settings, Job, Status, when, set_status}
use a2ps.PsGen.Page.{virtual_begin, virtual_end}
use a2ps.PsGen.Print.{
  end_of_line, page_full, begin_line, form_feed, new_line, dispatch, ps_print_char, ps_print_string,
}
use a2ps.PsGen.Char.{not-true, if-cases, when-cases}
use a2ps.PsGen.Strings.{IsWritten, set_status-IsWritten}
use a2ps.PsGen.Strings.Pages.{virtual_begin-Closes, virtual_end-Closes}
use a2ps.PsGen.Strings.Lines.{end_of_line-IsWritten, begin_line-IsWritten}
use a2ps.PsGen.Strings.Text.{
  starts_line, IsInside, end_of_line-starts, virtual_end-starts, virtual_begin-starts, tab-IsInside,
  put_char-IsInside,
}

-- A string is open exactly when a line has begun.
pub record IsOpen (j : Job) : Type 0 where
  pub written : IsWritten (not (starts_line j)) j

IsOpen-closed : (j : Job) → starts_line j ≡ true → IsWritten false j → IsOpen j
IsOpen-closed j e h = record { written = subst (λ b. IsWritten (not b) j) (sym e) h }

IsInside→IsOpen : (j : Job) → IsInside j → IsOpen j
IsInside→IsOpen j h = record { written = subst (λ b. IsWritten (not b) j) (sym h.begun) h.inside }

IsOpen→closed : (j : Job) → starts_line j ≡ true → IsOpen j → IsWritten false j
IsOpen→closed j e h = subst (λ b. IsWritten (not b) j) e h.written

IsOpen→IsInside : (j : Job) → starts_line j ≡ false → IsOpen j → IsInside j
IsOpen→IsInside j e h = record { inside = subst (λ b. IsWritten (not b) j) e h.written; begun = e }

set_status-IsOpen :
    (f : Status → Status) (j : Job)
    → (f j.status).start_line ≡ j.status.start_line
    → IsOpen j
    → IsOpen (set_status f j)
set_status-IsOpen f j e h = record {
  written =
      subst (λ b. IsWritten (not b) (set_status f j)) (sym e)
        (set_status-IsWritten (not (starts_line j)) f j h.written);
}

-- Between two lines
pub record IsClosed (j : Job) : Type 0 where
  pub outside : IsWritten false j
  pub fresh : starts_line j ≡ true

pub IsClosed→IsOpen : (j : Job) → IsClosed j → IsOpen j
IsClosed→IsOpen j h = IsOpen-closed j h.fresh h.outside

module _ (s : Settings) where
  -- The page ends behind the end of a line.
  page_over-IsOpen :
      (j : Job)
      → starts_line j ≡ true
      → IsWritten false j
      → IsOpen (set_status (λ st. record st { start_page = true }) (virtual_end s j))
  page_over-IsOpen j e h =
      set_status-IsOpen (λ st. record st { start_page = true }) (virtual_end s j) refl
        (IsOpen-closed _ (virtual_end-starts s j ∙ e) (virtual_end-Closes s j h))

  counted-IsWritten :
      (j : Job)
      → IsWritten true j
      → IsWritten true (record j {
        current_file = record j.current_file { lines = j.current_file.lines + 1 };
        status = record j.status { start_line = true };
      })
  unfolding IsWritten
  counted-IsWritten j h = h

  new_line-IsOpen : (j : Job) → IsInside j → IsOpen (new_line s j)
  unfolding new_line
  new_line-IsOpen j h =
      let counted = record j {
        current_file = record j.current_file { lines = j.current_file.lines + 1 };
        status = record j.status { start_line = true };
      } in
      let k = end_of_line-IsWritten counted (counted-IsWritten j h.inside) in
      let e : starts_line (end_of_line counted) ≡ true = end_of_line-starts counted in
      when-cases IsOpen (page_full s (end_of_line counted)) _ (end_of_line counted)
        (λ _. page_over-IsOpen (end_of_line counted) e k)
        (λ _. IsOpen-closed (end_of_line counted) e k)

  form_feed-IsOpen : (j : Job) → IsInside j → IsOpen (form_feed s j)
  unfolding form_feed
  form_feed-IsOpen j h =
      let close : Job → Job =
        λ j. set_status (λ st. record st { start_line = true }) (end_of_line j) in
      let closed = when (not j.status.start_line) close j in
      let c : IsClosed closed =
        when-cases IsClosed (not j.status.start_line) close j
          (λ _. record {
            outside =
                set_status-IsWritten false (λ st. record st { start_line = true }) (end_of_line j)
                  (end_of_line-IsWritten j h.inside);
            fresh = refl;
          })
          (λ e. absurd (not-true h.begun e)) in
      let p : IsClosed (when closed.status.start_page (virtual_begin s) closed) =
        when-cases IsClosed closed.status.start_page (virtual_begin s) closed
          (λ _. record {
            outside = virtual_begin-Closes s closed c.outside;
            fresh = virtual_begin-starts s closed ∙ c.fresh;
          })
          (λ _. c) in
      page_over-IsOpen _ p.fresh p.outside

  dispatch-IsOpen : (c f : ℕ) (j : Job) → IsInside j → IsOpen (dispatch s c f j)
  unfolding dispatch
  dispatch-IsOpen c f j h =
      if-cases IsOpen (c == b'\x0c' && s.interpret) _ _ (λ _. form_feed-IsOpen j h)
        (λ _.
          if-cases IsOpen (c == b'\n') _ _ (λ _. new_line-IsOpen j h)
            (λ _.
              if-cases IsOpen (c == b'\t' && s.interpret) _ _
                (λ _. IsInside→IsOpen _ (tab-IsInside s f j h))
                (λ _. IsInside→IsOpen _ (put_char-IsInside s f c j h))))

  begin_line-IsInside : (f : ℕ) (j : Job) → IsWritten false j → IsInside (begin_line s f j)
  unfolding begin_line
  begin_line-IsInside f j h = record { inside = begin_line-IsWritten s f j h; begun = refl }

  ps_print_char-IsOpen : (c f : ℕ) (j : Job) → IsOpen j → IsOpen (ps_print_char s c f j)
  unfolding ps_print_char
  ps_print_char-IsOpen c f j h =
      let j0 = set_status (λ st. record st { is_in_cut = false }) j in
      let h0 = set_status-IsOpen (λ st. record st { is_in_cut = false }) j refl h in
      if-cases IsOpen (j.status.is_in_cut && not (c == b'\x0c') && not (c == b'\n')) _ _ (λ _. h)
        (λ _.
          when-cases (λ k. IsOpen (dispatch s c f k)) j0.status.start_line (begin_line s f) j0
            (λ fresh. dispatch-IsOpen c f _ (begin_line-IsInside f j0 (IsOpen→closed j0 fresh h0)))
            (λ old. dispatch-IsOpen c f j0 (IsOpen→IsInside j0 old h0)))

  pub ps_print_string-IsOpen :
      (cs : List ℕ) (f : ℕ) (j : Job) → IsOpen j → IsOpen (ps_print_string s cs f j)
  unfolding ps_print_string
  ps_print_string-IsOpen [] f j h = h
  ps_print_string-IsOpen (c ∷ cs) f j h =
      ps_print_string-IsOpen cs f (ps_print_char s c f j) (ps_print_char-IsOpen c f j h)
