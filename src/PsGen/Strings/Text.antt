-- ===== src/PsGen/Strings/Text.antt =====
-- Characters are put into the string of their line.
use a2ps.Prelude.{ℕ, ◌+◌, ◌≡◌, refl, ◌∙◌, ap, Bool, true, false, not, ◌&&◌, ◌==◌, [], ltb}
use a2ps.PsGen.{Settings, Job, Status, output, set_status, escape_char, text}
use a2ps.PsGen.Page.{virtual_begin, virtual_end}
use a2ps.PsGen.Print.{
  end_of_line, change_to, break_page, page_full, is_numbering, begin_folded, fold_line, put_tab,
  tab, at_tab_stop, line_full, in_cut, Glyph, emit, advance, put_glyph, put_byte, put_pair,
  put_char, count_escaped, is_composite, symbol,
}
use a2ps.PsGen.View.{
  view, virtual_end-view, virtual_begin-view, end_of_line-view, change_to-view, put_tab-view,
}
use a2ps.PsGen.Char.{if-cases, when-cases}
use a2ps.PsGen.Strings.{IsWritten, output-IsWritten, set_status-IsWritten}
use a2ps.PsGen.Strings.Lines.{change_to-IsWritten, fold_line-IsWritten, put_tab-IsWritten}

abbrev pub starts_line : Job → Bool
starts_line j = j.status.start_line

pub end_of_line-starts : (j : Job) → starts_line (end_of_line j) ≡ starts_line j
unfolding view
end_of_line-starts j = ap (λ v. v.start_line) (end_of_line-view j)

change_to-starts : (f : ℕ) (j : Job) → starts_line (change_to f j) ≡ starts_line j
unfolding view
change_to-starts f j = ap (λ v. v.start_line) (change_to-view f j)

pub virtual_end-starts : (s : Settings) (j : Job) → starts_line (virtual_end s j) ≡ starts_line j
unfolding view
virtual_end-starts s j = ap (λ v. v.start_line) (virtual_end-view s j)

pub virtual_begin-starts :
    (s : Settings) (j : Job) → starts_line (virtual_begin s j) ≡ starts_line j
unfolding view
virtual_begin-starts s j = ap (λ v. v.start_line) (virtual_begin-view s j).2

put_tab-starts : (s : Settings) (j : Job) → starts_line (put_tab s j) ≡ starts_line j
unfolding view
put_tab-starts s j = ap (λ v. v.start_line) (put_tab-view s j)

-- The string of a line is open.
pub record IsInside (j : Job) : Type 0 where
  pub inside : IsWritten true j
  pub begun : starts_line j ≡ false

pub changed-IsWritten :
    (j k : Job) → IsWritten true k → starts_line k ≡ starts_line j → IsInside j → IsInside k
changed-IsWritten j k w e h = record { inside = w; begun = e ∙ h.begun }

change_to-IsInside : (f : ℕ) (j : Job) → IsInside j → IsInside (change_to f j)
change_to-IsInside f j h =
    changed-IsWritten j _ (change_to-IsWritten f j h.inside) (change_to-starts f j) h

pub set_status-IsInside :
    (f : Status → Status) (j : Job)
    → (f j.status).start_line ≡ j.status.start_line
    → IsInside j
    → IsInside (set_status f j)
set_status-IsInside f j e h = changed-IsWritten j _ (set_status-IsWritten true f j h.inside) e h

module _ (s : Settings) where
  begin_folded-starts : (f : ℕ) (j : Job) → starts_line (begin_folded s f j) ≡ starts_line j
  unfolding begin_folded output
  begin_folded-starts f j =
      if-cases (λ k. starts_line k ≡ starts_line j) (is_numbering s) _ _ (λ _. refl) (λ _. refl)

  break_page-starts : (j : Job) → starts_line (break_page s j) ≡ starts_line j
  unfolding break_page
  break_page-starts j = virtual_begin-starts s (virtual_end s j) ∙ virtual_end-starts s j

  fold_line-starts : (f : ℕ) (j : Job) → starts_line (fold_line s f j) ≡ starts_line j
  unfolding fold_line
  fold_line-starts f j =
      let counted = record j { lines_folded = j.lines_folded + 1 } in
      let ended = end_of_line counted in
      begin_folded-starts f _
      ∙ when-cases (λ k. starts_line k ≡ starts_line j) (page_full s ended) (break_page s) ended
          (λ _. break_page-starts ended ∙ end_of_line-starts counted)
          (λ _. end_of_line-starts counted)

  fold_line-IsInside : (f : ℕ) (j : Job) → IsInside j → IsInside (fold_line s f j)
  fold_line-IsInside f j h =
      changed-IsWritten j _ (fold_line-IsWritten s f j h.inside) (fold_line-starts f j) h

  put_tab-IsInside : (j : Job) → IsInside j → IsInside (put_tab s j)
  put_tab-IsInside j h =
      changed-IsWritten j _ (put_tab-IsWritten s j h.inside) (put_tab-starts s j) h

  in_cut-IsInside : (j : Job) → IsInside j → IsInside (in_cut s j)
  in_cut-IsInside j h = set_status-IsInside (λ st. record st { is_in_cut = true }) j refl h

  pub tab-IsInside : (f : ℕ) (j : Job) → IsInside j → IsInside (tab s f j)
  unfolding tab
  tab-IsInside f j h =
      let moved = set_status (at_tab_stop s) (change_to f j) in
      let k : IsInside moved =
        set_status-IsInside (at_tab_stop s) (change_to f j) refl (change_to-IsInside f j h) in
      if-cases IsInside (line_full s moved) _ _
        (λ _.
          if-cases IsInside s.folding _ _ (λ _. put_tab-IsInside _ (fold_line-IsInside f moved k))
            (λ _. in_cut-IsInside moved k))
        (λ _. put_tab-IsInside moved k)

  emit-IsInside : (g : Glyph) (j : Job) → IsInside j → IsInside (emit s g j)
  unfolding emit output
  emit-IsInside g j h =
      set_status-IsInside (λ st. record st { chars = st.chars + g.nchars; mb_flag = g.pending })
        (output (text g.buf) j) refl
        (changed-IsWritten j (output (text g.buf) j) (output-IsWritten (text g.buf) j h.inside) refl
          h)

  put_glyph-IsInside : (f : ℕ) (g : Glyph) (j : Job) → IsInside j → IsInside (put_glyph s f g j)
  unfolding put_glyph
  put_glyph-IsInside f g j h =
      let moved = advance s g j in
      let k : IsInside moved =
        set_status-IsInside
          (λ st. record st { wx = st.wx + g.glyph_wx j; column = st.column + g.nchars }) j refl h in
      if-cases IsInside (line_full s moved) _ _
        (λ _.
          if-cases IsInside s.folding _ _
            (λ _.
              let folded = fold_line s f moved in
              emit-IsInside g _ (
                set_status-IsInside
                  (λ st. record st { column = g.refolded; wx = g.glyph_wx folded }) folded refl
                  (fold_line-IsInside f moved k)))
            (λ _. in_cut-IsInside moved k))
        (λ _. emit-IsInside g moved k)

  pub put_char-IsInside : (f c : ℕ) (j : Job) → IsInside j → IsInside (put_char s f c j)
  unfolding put_char put_byte put_pair
  put_char-IsInside f c j h =
      let j' = change_to f j in
      let k = change_to-IsInside f j h in
      if-cases IsInside (ltb 127 c && is_composite s j'.encoding && not (j'.status.face == symbol))
        _ _
        (λ _.
          if-cases IsInside (j'.status.mb_flag == 0) _ _
            (λ _. set_status-IsInside (λ st. record st { mb_flag = c }) j' refl k)
            (λ _.
              let first = escape_char s j' [] j'.status.mb_flag in
              put_glyph-IsInside f _ _ (
                set_status-IsInside (count_escaped s (escape_char s j' first.res c)) _ refl
                  (set_status-IsInside (count_escaped s first) j' refl k))))
        (λ _.
          put_glyph-IsInside f _ _
            (set_status-IsInside (count_escaped s (escape_char s j' [] c)) j' refl k))
