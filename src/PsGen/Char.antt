-- ===== src/PsGen/Char.antt =====
-- A character or a tab that is placed, and the width of the line.
use a2ps.Prelude.{
  ℕ, ◌+◌, ◌<◌, ◌≤◌, ◌≡◌, refl, ◌∙◌, subst, Bool, true, false, not, if◌then◌else◌, arith, ltb,
}
use a2ps.PsGen.{Settings, Job, when, set_status}
use a2ps.PsGen.Print.{
  change_to, Glyph, fold_line, tab, put_glyph, line_full, in_cut, advance, restart, at_tab_stop,
}
use a2ps.PsGen.View.{View, view, per_page, change_to-view, put_tab-view, emit-view}
use a2ps.PsGen.Layout.{Folded, fold_line-view}

-- Between two characters: there is room for the line on its page and for the page on its sheet,
-- and a line that is not cut is not wider than `w`.
pub record Fits (s : Settings) (w : ℕ) (v : View) : Type 0 where
  pub line_fits : v.line < s.linesperpage
  pub virtual_fits : v.virtual ≤ per_page s
  pub page_starts : v.start_page ≡ true → v.virtual < per_page s
  pub line_starts : v.start_line ≡ false → v.start_page ≡ false
  pub cut_starts : v.is_in_cut ≡ true → v.start_line ≡ false
  pub wx_fits : v.is_in_cut ≡ false → v.wx ≤ w

-- Within a line: a character can be placed.
pub record Within (s : Settings) (w : ℕ) (v : View) : Type 0 where
  pub line_fits : v.line < s.linesperpage
  pub virtual_fits : v.virtual ≤ per_page s
  pub page_started : v.start_page ≡ false
  pub line_started : v.start_line ≡ false
  pub not_in_cut : v.is_in_cut ≡ false

pub true-false : {b : Bool} → b ≡ true → b ≡ false → ⊥
true-false h k = cc

pub not-true : {b : Bool} → b ≡ false → not b ≡ false → ⊥
not-true h k = cc

pub if-cases :
    (P : Job → Type 0) (b : Bool) (x y : Job)
    → (b ≡ true → P x)
    → (b ≡ false → P y)
    → P (if b then x else y)
if-cases P true x y h k = h refl
if-cases P false x y h k = k refl

pub when-cases :
    (P : Job → Type 0) (b : Bool) (f : Job → Job) (x : Job)
    → (b ≡ true → P (f x))
    → (b ≡ false → P x)
    → P (when b f x)
unfolding when
when-cases P true f x h k = h refl
when-cases P false f x h k = k refl

module _ (s : Settings) (w : ℕ) where
  pub Within→Fits : {v : View} → Within s w v → v.wx ≤ w → Fits s w v
  Within→Fits {v} h x = record {
    line_fits = h.line_fits;
    virtual_fits = h.virtual_fits;
    page_starts = λ e. absurd (true-false e h.page_started);
    line_starts = λ e. h.page_started;
    cut_starts = λ e. absurd (true-false e h.not_in_cut);
    wx_fits = λ e. x;
  }

  Within-wx : {v : View} → Within s w v → (x : ℕ) → Within s w (record v { wx = x })
  Within-wx {v} h x = record {
    line_fits = h.line_fits;
    virtual_fits = h.virtual_fits;
    page_started = h.page_started;
    line_started = h.line_started;
    not_in_cut = h.not_in_cut;
  }

  Fits-in_cut : {v : View} (x : ℕ) → Within s w v → Fits s w (record v { is_in_cut = true; wx = x })
  Fits-in_cut {v} x h = record {
    line_fits = h.line_fits;
    virtual_fits = h.virtual_fits;
    page_starts = λ e. absurd (true-false e h.page_started);
    line_starts = λ e. h.page_started;
    cut_starts = λ e. h.line_started;
    wx_fits = λ e. absurd (true-false refl e);
  }

  module _ (lines : 0 < s.linesperpage) (pages : 0 < per_page s) (wide : s.wxperline ≤ w) where
    Within-line :
        {v : View} (l n : ℕ)
        → Within s w v
        → l < s.linesperpage
        → n ≤ per_page s
        → Within s w (record v { line = l; wx = 0; virtual = n })
    Within-line {v} l n h k m = record {
      line_fits = k;
      virtual_fits = m;
      page_started = h.page_started;
      line_started = h.line_started;
      not_in_cut = h.not_in_cut;
    }

    fold_line-Within :
        (f x : ℕ) (j j' : Job)
        → view j' ≡ record (view j) { wx = x }
        → Within s w (view j)
        → Within s w (view (fold_line s f j')) × ((view (fold_line s f j')).wx ≤ w)
    fold_line-Within f x j j' e h =
        let (l, n, k, m, q) =
          subst (λ v. Folded s lines pages v (view (fold_line s f j'))) e
            (fold_line-view s lines pages f j' (rw e (h.virtual_fits))) in
        (rw q (Within-line l n h k m), rw q (omega arith))

    restart-view :
        (g : Glyph) (j : Job) → view (restart s g j) ≡ record (view j) { wx = g.glyph_wx j }
    unfolding view
    restart-view g j = refl

    advance-view :
        (g : Glyph) (j : Job)
        → view (advance s g j) ≡ record (view j) { wx = j.status.wx + g.glyph_wx j }
    unfolding view
    advance-view g j = refl

    in_cut-view : (j : Job) → view (in_cut s j) ≡ record (view j) { is_in_cut = true }
    unfolding view
    in_cut-view j = refl

    not_full : (x : ℕ) → ltb s.wxperline x ≡ false → x ≤ w
    not_full x h = ground (arith, wide)

    pub put_glyph-Fits :
        (f : ℕ) (g : Glyph) (j : Job)
        → ((j : Job) → g.glyph_wx j ≤ w)
        → Within s w (view j)
        → Fits s w (view (put_glyph s f g j))
    unfolding put_glyph
    put_glyph-Fits f g j narrow h =
        let j' = advance s g j in
        let x = j.status.wx + g.glyph_wx j in
        if-cases (λ k. Fits s w (view k)) (line_full s j') _ _
          (λ full.
            if-cases (λ k. Fits s w (view k)) s.folding _ _
              (λ folds.
                let folded = fold_line s f j' in
                rw (emit-view s g (restart s g folded), restart-view g folded)
                  (Within→Fits
                    (Within-wx ((fold_line-Within f x j j' (advance-view g j) h).0)
                      (g.glyph_wx folded))
                    (narrow folded)))
              (λ cuts. rw (in_cut-view j', advance-view g j) (Fits-in_cut x h)))
          (λ room.
            rw (emit-view s g j', advance-view g j) (Within→Fits (Within-wx h x) (not_full x room)))

    tab_stop-view :
        (j : Job)
        → view (set_status (at_tab_stop s) j) ≡ record (view j) { wx = (at_tab_stop s j.status).wx }
    unfolding view
    tab_stop-view j = refl

    pub tab-Fits : (f : ℕ) (j : Job) → Within s w (view j) → Fits s w (view (tab s f j))
    unfolding tab
    tab-Fits f j h =
        let changed = change_to f j in
        let j' = set_status (at_tab_stop s) changed in
        let x = (at_tab_stop s changed.status).wx in
        let e : view j' ≡ record (view j) { wx = x } =
          tab_stop-view changed ∙ rw (change_to-view f j) refl in
        if-cases (λ k. Fits s w (view k)) (line_full s j') _ _
          (λ full.
            if-cases (λ k. Fits s w (view k)) s.folding _ _
              (λ folds. rw (put_tab-view s (fold_line s f j')) (
                Within→Fits ((fold_line-Within f x j j' e h).0)
                  ((fold_line-Within f x j j' e h).1)))
              (λ cuts. rw (in_cut-view j', e) (Fits-in_cut x h)))
          (λ room. rw (put_tab-view s j', e) (Within→Fits (Within-wx h x) (not_full x room)))
