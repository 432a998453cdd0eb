-- ===== src/PsGen/Text.antt =====
-- ps_print_char and ps_print_string, and the room on lines, pages and sheets.
use a2ps.Prelude.{
  ℕ, ◌<◌, ◌≤◌, ◌==◌, ◌≡◌, refl, inl, inr, Bool-cases, sym, ◌∙◌, Bool, true, false, not, ◌&&◌, List,
  [], ◌∷◌, Option, none, some, arith, ltb,
}
use a2ps.Escape.{Escaped, char_wx}
use a2ps.PsGen.{Settings, Job, set_status, widths, escape_char}
use a2ps.PsGen.Print.{
  change_to, begin_line, put_byte, put_pair, put_char, dispatch, ps_print_char, ps_print_string,
  composite_of, is_composite, count_escaped, symbol,
}
use a2ps.PsGen.View.{View, view, per_page, change_to-view}
use a2ps.PsGen.Room.{HasRoom, Fits→HasRoom, HasRoom→Fits}
use a2ps.PsGen.Char.{
  true-false, Fits, Within, if-cases, when-cases, Within→Fits, put_glyph-Fits, tab-Fits,
}
use a2ps.PsGen.Lines.{new_line-Fits, form_feed-Fits, begin_line-Within, begin_line-wx}

and-true : (a b : Bool) → (a && b) ≡ true → (a ≡ true) × (b ≡ true)
and-true true b h = (refl, h)
and-true false b h = cc

module _ (s : Settings) (w : ℕ) (lines : 0 < s.linesperpage) (pages : 0 < per_page s)
    (wide : s.wxperline ≤ w)
    (narrow : (j : Job) (c : ℕ) → char_wx s.unprintable_format (widths s j) c ≤ w)
    (narrow_pairs : (e face : ℕ) → s.char_composite_wx e face ≤ w) where
  counted-Within :
      (e : Escaped) (j : Job)
      → Within s w (view j)
      → Within s w (view (set_status (count_escaped s e) j))
  unfolding view
  counted-Within e j h = h

  put_byte-Fits : (f c : ℕ) (j : Job) → Within s w (view j) → Fits s w (view (put_byte s f c j))
  unfolding put_byte
  put_byte-Fits f c j h =
      put_glyph-Fits s w lines pages wide f _ _ (λ k. narrow k c)
        (counted-Within (escape_char s j [] c) j h)

  composite_of-narrow : (enc : Option ℕ) (face : ℕ) → composite_of s enc face ≤ w
  composite_of-narrow none face = omega arith
  composite_of-narrow (some e) face = narrow_pairs e face

  put_pair-Fits : (f c : ℕ) (j : Job) → Within s w (view j) → Fits s w (view (put_pair s f c j))
  unfolding put_pair
  put_pair-Fits f c j h =
      put_glyph-Fits s w lines pages wide f _ _ (λ k. composite_of-narrow k.encoding k.status.face)
        (counted-Within (escape_char s j (escape_char s j [] j.status.mb_flag).res c) _
          (counted-Within (escape_char s j [] j.status.mb_flag) j h))

  pending-view : (c : ℕ) (j : Job) → view (set_status (λ st. record st { mb_flag = c }) j) ≡ view j
  unfolding view
  pending-view c j = refl

  -- Only the first byte of a pair leaves the width as it was.
  put_char-Fits :
      (f c : ℕ) (j : Job)
      → Within s w (view j)
      → (ltb 127 c ≡ true → (view j).wx ≤ w)
      → Fits s w (view (put_char s f c j))
  unfolding put_char
  put_char-Fits f c j h x =
      let j' = change_to f j in
      let h' : Within s w (view j') = rw (change_to-view f j) h in
      if-cases (λ k. Fits s w (view k))
        (ltb 127 c && is_composite s j'.encoding && not (j'.status.face == symbol)) _ _
        (λ composite.
          if-cases (λ k. Fits s w (view k)) (j'.status.mb_flag == 0) _ _
            (λ first. rw (pending-view c j') (
              Within→Fits s w h'
                (rw (change_to-view f j) (x (and-true _ _ (and-true _ _ composite).0).0))))
            (λ second. put_pair-Fits f c j' h'))
        (λ single. put_byte-Fits f c j' h')

  dispatch-Fits :
      (c f : ℕ) (j : Job)
      → Within s w (view j)
      → (ltb 127 c ≡ true → (view j).wx ≤ w)
      → Fits s w (view (dispatch s c f j))
  unfolding dispatch
  dispatch-Fits c f j h x =
      if-cases (λ k. Fits s w (view k)) (c == b'\x0c' && s.interpret) _ _
        (λ feeds. form_feed-Fits s w lines pages wide j h)
        (λ _.
          if-cases (λ k. Fits s w (view k)) (c == b'\n') _ _
            (λ ends. new_line-Fits s w lines pages wide j h)
            (λ _.
              if-cases (λ k. Fits s w (view k)) (c == b'\t' && s.interpret) _ _
                (λ tabs. tab-Fits s w lines pages wide f j h) (λ _. put_char-Fits f c j h x)))

  cut_off-view :
      (j : Job)
      → view (set_status (λ st. record st { is_in_cut = false }) j)
        ≡ record (view j) { is_in_cut = false }
  unfolding view
  cut_off-view j = refl

  view-is_in_cut : (j : Job) → (view j).is_in_cut ≡ j.status.is_in_cut
  unfolding view
  view-is_in_cut j = refl

  view-start_line : (j : Job) → j.status.start_line ≡ (view j).start_line
  unfolding view
  view-start_line j = refl

  -- The text of a line that is cut is passed up to a byte that is not above 127.
  passed :
      (cut : Bool) (c : ℕ)
      → (cut && not (c == b'\x0c') && not (c == b'\n')) ≡ false
      → ltb 127 c ≡ true
      → cut ≡ false
  passed cut c h k = ground arith

  cut_off-Fits :
      (v : View) → Fits s w v → v.is_in_cut ≡ false → Fits s w (record v { is_in_cut = false })
  cut_off-Fits v h e = record {
    line_fits = h.line_fits;
    virtual_fits = h.virtual_fits;
    page_starts = h.page_starts;
    line_starts = h.line_starts;
    cut_starts = λ e. absurd (true-false e refl);
    wx_fits = λ _. h.wx_fits e;
  }

  started-Within :
      (v : View) → Fits s w v → v.start_line ≡ false → Within s w (record v { is_in_cut = false })
  started-Within v h e = record {
    line_fits = h.line_fits;
    virtual_fits = h.virtual_fits;
    page_started = h.line_starts e;
    line_started = e;
    not_in_cut = refl;
  }

  idle-not_in_cut : (v : View) → Fits s w v → v.start_line ≡ true → v.is_in_cut ≡ false
  idle-not_in_cut v h e = elim (Bool-cases v.is_in_cut) [
    | inl cut ↦ absurd (true-false e (h.cut_starts cut))
    | inr free ↦ free
  ]

  -- One byte keeps the room that the theorems below state.
  pub ps_print_char-Fits :
      (c f : ℕ) (j : Job) → Fits s w (view j) → Fits s w (view (ps_print_char s c f j))
  unfolding ps_print_char
  ps_print_char-Fits c f j h =
      let j0 = set_status (λ st. record st { is_in_cut = false }) j in
      if-cases (λ k. Fits s w (view k))
        (j.status.is_in_cut && not (c == b'\x0c') && not (c == b'\n')) _ _ (λ skips. h)
        (λ prints.
          when-cases (λ k. Fits s w (view (dispatch s c f k))) j0.status.start_line (begin_line s f)
            j0
            (λ fresh.
              let free = idle-not_in_cut (view j) h (sym (view-start_line j) ∙ fresh) in
              let h0 : Fits s w (view j0) = rw (cut_off-view j) (cut_off-Fits (view j) h free) in
              let open' : (view j0).is_in_cut ≡ false = rw (cut_off-view j) refl in
              dispatch-Fits c f (begin_line s f j0)
                (begin_line-Within s w lines pages wide f j0 h0 open')
                (λ _. rw (begin_line-wx s w lines pages wide f j0) (h0.wx_fits open')))
            (λ old.
              let h0 : Within s w (view j0) =
                rw (cut_off-view j) (started-Within (view j) h (sym (view-start_line j) ∙ old)) in
              dispatch-Fits c f j0 h0 (λ big.
                rw (cut_off-view j)
                  (h.wx_fits (view-is_in_cut j ∙ passed j.status.is_in_cut c prints big)))))

  ps_print_string-Fits :
      (cs : List ℕ) (f : ℕ) (j : Job)
      → Fits s w (view j)
      → Fits s w (view (ps_print_string s cs f j))
  unfolding ps_print_string
  ps_print_string-Fits [] f j h = h
  ps_print_string-Fits (c ∷ cs) f j h =
      ps_print_string-Fits cs f (ps_print_char s c f j) (ps_print_char-Fits c f j h)

  -- Where the line and the page have room, printing a text leaves room for a line on its page and
  -- for a page on its sheet, and the line is not wider than `w` unless it is being cut: if a page
  -- has at least one line and a sheet at least one page, and neither the width of the lines, nor
  -- that of a byte in its printed form, nor that of a pair exceeds `w`.
  pub ps_print_string-HasRoom :
      (cs : List ℕ) (f : ℕ) (j : Job)
      → HasRoom s w (view j)
      → HasRoom s w (view (ps_print_string s cs f j))
  ps_print_string-HasRoom cs f j h =
      Fits→HasRoom s w _ (ps_print_string-Fits cs f j (HasRoom→Fits s w _ h))
