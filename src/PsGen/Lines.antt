-- ===== src/PsGen/Lines.antt =====
-- The beginnings and ends of lines and pages, between and within which characters are placed.
use a2ps.Prelude.{ℕ, ◌+◌, ◌<◌, ◌≤◌, ◌≡◌, refl, sym, ◌∙◌, true, false, not, if◌then◌else◌, arith}
use a2ps.PsGen.{Settings, Job, ◌▷◌, when, output, set_status, open_string}
use a2ps.PsGen.Page.{virtual_begin, virtual_end}
use a2ps.PsGen.Print.{
  end_of_line, page_full, is_numbering, numbered, begin_line, first_line, other_line, form_feed,
  new_line, started_page, started_line,
}
use a2ps.PsGen.View.{
  View, view, per_page, ended, virtual_end-view, virtual_begin-view, end_of_line-view,
}
use a2ps.PsGen.Layout.{leb-false}
use a2ps.PsGen.Char.{Fits, Within, true-false, not-true, if-cases, when-cases}

module _ (s : Settings) (w : ℕ) (lines : 0 < s.linesperpage) (pages : 0 < per_page s)
    (wide : s.wxperline ≤ w) where
  -- Behind virtual_end the sheet has room for a page.
  Fits-new_page :
      (v : View)
      → v.virtual ≤ per_page s
      → v.start_line ≡ true
      → v.is_in_cut ≡ false
      → v.wx ≡ 0
      → Fits s w (record (ended s v) { start_page = true })
  Fits-new_page v h k c l = record {
    line_fits = lines;
    virtual_fits = ground (arith, pages);
    page_starts = λ e. ground (arith, pages);
    line_starts = λ e. absurd (true-false k e);
    cut_starts = λ e. absurd (true-false e c);
    wx_fits = λ e. omega (arith, l);
  }

  page_starts-view :
      (j : Job)
      → view (set_status (λ st. record st { start_page = true }) j)
        ≡ record (view j) { start_page = true }
  unfolding view
  page_starts-view j = refl

  end_page-Fits :
      (v : View) (j : Job)
      → view j ≡ v
      → v.virtual ≤ per_page s
      → v.start_line ≡ true
      → v.is_in_cut ≡ false
      → v.wx ≡ 0
      → Fits s w (view (set_status (λ st. record st { start_page = true }) (virtual_end s j)))
  end_page-Fits v j e h k c l =
      rw (page_starts-view (virtual_end s j), virtual_end-view s j, e) (Fits-new_page v h k c l)

  line_starts-view :
      (j : Job)
      → view (set_status (λ st. record st { start_line = true }) j)
        ≡ record (view j) { start_line = true }
  unfolding view
  line_starts-view j = refl

  counted-view :
      (j : Job)
      → view (record j {
        current_file = record j.current_file { lines = j.current_file.lines + 1 };
        status = record j.status { start_line = true };
      })
        ≡ record (view j) { start_line = true }
  unfolding view
  counted-view j = refl

  -- The line is over, and another may begin on this page.
  Fits-next_line :
      {v : View}
      → Within s w v
      → v.line + 1 < s.linesperpage
      → Fits s w (record v { start_line = true; line = v.line + 1; wx = 0 })
  Fits-next_line {v} h l = record {
    line_fits = l;
    virtual_fits = h.virtual_fits;
    page_starts = λ e. absurd (true-false e h.page_started);
    line_starts = λ e. absurd (true-false refl e);
    cut_starts = λ e. absurd (true-false e h.not_in_cut);
    wx_fits = λ e. omega arith;
  }

  view-line : (j : Job) → j.status.line ≡ (view j).line
  unfolding view
  view-line j = refl

  pub new_line-Fits : (j : Job) → Within s w (view j) → Fits s w (view (new_line s j))
  unfolding new_line
  new_line-Fits j h =
      let counted = record j {
        current_file = record j.current_file { lines = j.current_file.lines + 1 };
        status = record j.status { start_line = true };
      } in
      let j' = end_of_line counted in
      let v = record (view j) { start_line = true; line = (view j).line + 1; wx = 0 } in
      let e : view j' ≡ v = end_of_line-view counted ∙ rw (counted-view j) refl in
      when-cases (λ k. Fits s w (view k)) (page_full s j') _ j'
        (λ full. end_page-Fits v j' e (h.virtual_fits) refl (h.not_in_cut) refl)
        (λ room.
          rw e (Fits-next_line h (rw (view-line j', e) at (leb-false s lines pages _ _ room))))

  view-start_line : (j : Job) → j.status.start_line ≡ (view j).start_line
  unfolding view
  view-start_line j = refl

  view-start_page : (j : Job) → j.status.start_page ≡ (view j).start_page
  unfolding view
  view-start_page j = refl

  pub form_feed-Fits : (j : Job) → Within s w (view j) → Fits s w (view (form_feed s j))
  unfolding form_feed
  form_feed-Fits j h =
      let close : Job → Job =
        λ j. j ▷ end_of_line ▷ set_status (λ st. record st { start_line = true }) in
      let j1 = when (not j.status.start_line) close j in
      let v = record (view j) { start_line = true; line = (view j).line + 1; wx = 0 } in
      let e : view j1 ≡ v =
        when-cases (λ k. view k ≡ v) (not j.status.start_line) close j
          (λ open'. line_starts-view (end_of_line j) ∙ rw (end_of_line-view j) refl)
          (λ closed. absurd (not-true (view-start_line j ∙ h.line_started) closed)) in
      let e2 : view (when j1.status.start_page (virtual_begin s) j1) ≡ v =
        when-cases (λ k. view k ≡ v) j1.status.start_page (virtual_begin s) j1
          (λ started. absurd (true-false started (view-start_page j1 ∙ rw e (h.page_started))))
          (λ idle. e) in
      end_page-Fits v (when j1.status.start_page (virtual_begin s) j1) e2 (h.virtual_fits) refl
        (h.not_in_cut) refl

  prefix-view :
      (j : Job) → view (if is_numbering s then numbered s j else output open_string j) ≡ view j
  unfolding view output
  prefix-view j = ground arith

  other_line-view : (f : ℕ) (j : Job) → view (other_line s f j) ≡ view j
  unfolding view output other_line
  other_line-view f j = ground arith

  started_page-view :
      (f : ℕ) (j : Job)
      → view (set_status (started_page s f) j) ≡ record (view j) { start_page = false }
  unfolding view
  started_page-view f j = refl

  started_line-view :
      (j : Job) → view (set_status (started_line s) j) ≡ record (view j) { start_line = false }
  unfolding view
  started_line-view j = refl

  first_line-view :
      (f : ℕ) (j : Job)
      → (n : ℕ) × (n ≤ (view j).virtual + 1)
        × (view (first_line s f j) ≡ record (view j) { start_page = false; virtual = n })
  unfolding first_line
  first_line-view f j =
      let (n, l, e) = virtual_begin-view s j in
      (
        n,
        l,
        prefix-view (set_status (started_page s f) (virtual_begin s j))
            ∙ started_page-view f (virtual_begin s j)
            ∙ rw e refl,
      )

  start-Within :
      (k : Job) (v : View)
      → view k ≡ v
      → v.line < s.linesperpage
      → v.virtual ≤ per_page s
      → v.start_page ≡ false
      → v.is_in_cut ≡ false
      → Within s w (view (set_status (started_line s) k))
  start-Within k v e a b c d =
      rw (started_line-view k, e)
        (record {
          line_fits = a;
          virtual_fits = b;
          page_started = c;
          line_started = refl;
          not_in_cut = d;
        })

  pub begin_line-Within :
      (f : ℕ) (j : Job)
      → Fits s w (view j)
      → (view j).is_in_cut ≡ false
      → Within s w (view (begin_line s f j))
  unfolding begin_line
  begin_line-Within f j h c =
      if-cases (λ k. Within s w (view (set_status (started_line s) k))) j.status.start_page _ _
        (λ fresh.
          let (n, l, e) = first_line-view f j in
          let room = h.page_starts (sym (view-start_page j) ∙ fresh) in
          start-Within (first_line s f j) (record (view j) { start_page = false; virtual = n }) e
            (h.line_fits) (omega (arith, room, l)) refl c)
        (λ old.
          start-Within (other_line s f j) (view j) (other_line-view f j) (h.line_fits)
            (h.virtual_fits) (sym (view-start_page j) ∙ old) c)

  pub begin_line-wx : (f : ℕ) (j : Job) → (view (begin_line s f j)).wx ≡ (view j).wx
  unfolding begin_line
  begin_line-wx f j =
      if-cases (λ k. (view (set_status (started_line s) k)).wx ≡ (view j).wx) j.status.start_page _
        _ (λ fresh. rw (started_line-view (first_line s f j), (first_line-view f j).2))
        (λ old. rw (started_line-view (other_line s f j), other_line-view f j))
