-- ===== src/PsGen/Layout.antt =====
-- Where the text goes on when a line is folded.
use a2ps.Prelude.{
  ℕ, ◌+◌, ◌<◌, ◌≤◌, ◌==◌, ◌≡◌, refl, ◌∙◌, ap, subst, inl, inr, Bool, false, Bool-cases,
  if◌then◌else◌, arith, leb,
}
use a2ps.PsGen.{Settings, Job, when, output, set_status, declared}
use a2ps.PsGen.Page.{virtual_begin, virtual_end}
use a2ps.PsGen.Print.{end_of_line, fold_line, break_page, begin_folded, page_full, is_numbering}
use a2ps.PsGen.View.{
  View, view, per_page, virtual_end-view, Begun, virtual_begin-view, next_line_of, end_of_line-view,
}

module _ (s : Settings) (lines : 0 < s.linesperpage) (pages : 0 < per_page s) where
  -- A line was folded: the text goes on at the beginning of a line, maybe of another page.
  abbrev pub Folded : View → View → Type 0
  Folded v v' =
      (l n : ℕ) × (l < s.linesperpage)
      × (n ≤ per_page s)
      × (v' ≡ record v { line = l; wx = 0; virtual = n })

  begin_folded-view : (f : ℕ) (j : Job) → view (begin_folded s f j) ≡ view j
  unfolding view begin_folded output
  begin_folded-view f j = elim (Bool-cases (is_numbering s)) [
    | inl numbers ↦ rw numbers
    | inr plain ↦ rw plain
  ]

  pub leb-false : (a b : ℕ) → leb a b ≡ false → b < a
  leb-false a b h = ground arith

  declared-view : (flag : Bool) (j : Job) → view (set_status (declared flag) j) ≡ view j
  unfolding view
  declared-view flag j = refl

  folded-view : (j : Job) → view (record j { lines_folded = j.lines_folded + 1 }) ≡ view j
  unfolding view
  folded-view j = refl

  begun_fits :
      (n m : ℕ) → m ≤ per_page s → n ≤ (if m == per_page s then 0 else m) + 1 → n ≤ per_page s
  begun_fits n m h l = ground arith

  break_page-view :
      (j : Job)
      → (view j).virtual ≤ per_page s
      → (n : ℕ) × (n ≤ per_page s)
        × (view (break_page s j) ≡ record (view j) { line = 0; virtual = n })
  unfolding break_page
  break_page-view j h =
      let k = virtual_begin s (virtual_end s j) in
      let (n, l, e) =
        subst (λ v. Begun s v (view k)) (virtual_end-view s j)
          (virtual_begin-view s (virtual_end s j)) in
      (n, begun_fits n (view j).virtual h l, declared-view false k ∙ e)

  -- Behind the end of a line the page goes on, or the next one begins.
  abbrev pub Broken : View → View → Type 0
  Broken v v' =
      (l n : ℕ) × (l < s.linesperpage)
      × (n ≤ per_page s)
      × (v' ≡ record v { line = l; virtual = n })

  pub break_if-view :
      (j : Job)
      → (view j).virtual ≤ per_page s
      → Broken (view j) (view (when (page_full s j) (break_page s) j))
  unfolding when view
  break_if-view j h = elim (Bool-cases (page_full s j)) [
    | inl full ↦ let (n, l, e) = break_page-view j h in rw full (0, n, lines, l, e)
    | inr room ↦ rw room (j.status.line, j.virtual, leb-false _ _ room, h, refl)
  ]

  -- A line with room below it, or on the next page
  pub fold_line-view :
      (f : ℕ) (j : Job) → (view j).virtual ≤ per_page s → Folded (view j) (view (fold_line s f j))
  unfolding fold_line
  fold_line-view f j h =
      let counted = record j { lines_folded = j.lines_folded + 1 } in
      let j1 = end_of_line counted in
      let e1 : view j1 ≡ next_line_of (view j) =
        end_of_line-view counted ∙ ap next_line_of (folded-view j) in
      let (l, n, k, m, e) =
        subst (λ v. Broken v (view (when (page_full s j1) (break_page s) j1))) e1
          (break_if-view j1 (rw e1 h)) in
      (l, n, k, m, begin_folded-view f _ ∙ e)
