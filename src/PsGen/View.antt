-- ===== src/PsGen/View.antt =====
-- The counters that say where the next character goes, and what the operations do to them.
use a2ps.Prelude.{
  ℕ, ◌+◌, ◌*◌, ◌≤◌, ◌==◌, ==_iff, ◌≡◌, refl, sym, ◌∙◌, ap, subst, inl, inr, Bool, Bool-cases,
  if◌then◌else◌, arith,
}
use a2ps.PsGen.{Settings, Job, when, output}
use a2ps.PsGen.Page.{virtual_begin, virtual_end, count_virtual, prints}
use a2ps.PsGen.Counters.{
  mask, begun, begun_virtual, ended_virtual, virtual_begin-begun, virtual_end-ended,
}
use a2ps.PsGen.Print.{end_of_line, change_to, put_tab, emit, Glyph}

pub record View : Type 0 where
  pub start_page : Bool
  pub start_line : Bool
  pub is_in_cut : Bool
  pub line : ℕ
  pub wx : ℕ
  pub virtual : ℕ

unfoldable pub view : Job → View
view j = record {
  start_page = j.status.start_page;
  start_line = j.status.start_line;
  is_in_cut = j.status.is_in_cut;
  line = j.status.line;
  wx = j.status.wx;
  virtual = j.virtual;
}

view-mask : (j : Job) → view (mask j) ≡ view j
unfolding view mask
view-mask j = refl

view-eq : (j k : Job) → mask j ≡ k → view j ≡ view k
view-eq j k e = sym (view-mask j) ∙ ap view {x = mask j} e

module _ (s : Settings) where
  abbrev pub per_page : ℕ
  per_page = s.columns * s.rows

  abbrev pub ended : View → View
  ended v = record v { line = 0; virtual = if v.virtual == per_page then 0 else v.virtual }

  ended_virtual-view : (j : Job) → view (ended_virtual s j) ≡ ended (view j)
  unfolding view ended_virtual when
  ended_virtual-view j = elim (Bool-cases (j.virtual == per_page)) [
    | inl full ↦ rw full
    | inr room ↦ rw room
  ]

  pub virtual_end-view : (j : Job) → view (virtual_end s j) ≡ ended (view j)
  virtual_end-view j =
      view-eq (virtual_end s j) (ended_virtual s (mask j)) (virtual_end-ended s j)
      ∙ ended_virtual-view (mask j)
      ∙ ap ended (view-mask j)

  -- A page was begun: at most one virtual page more is on the sheet.
  abbrev pub Begun : View → View → Type 0
  Begun v v' = (n : ℕ) × (n ≤ v.virtual + 1) × (v' ≡ record v { virtual = n })

  count_virtual-view : (j : Job) → Begun (view j) (view (count_virtual s j))
  unfolding view count_virtual
  count_virtual-view j = elim (Bool-cases (prints s (record j { pages = j.pages + 1 }))) [
    | inl printed ↦ (j.virtual + 1, omega arith, rw printed)
    | inr hidden ↦ (j.virtual, omega arith, rw hidden)
  ]

  when-begun : (j : Job) → view (when (j.virtual == 1) (begun s) j) ≡ view j
  unfolding view when
  when-begun j = elim (Bool-cases (j.virtual == 1)) [
    | inl one ↦ rw one (rw ((==_iff j.virtual 1).0 one))
    | inr other ↦ rw other
  ]

  begun_virtual-view : (j : Job) → Begun (view j) (view (begun_virtual s j))
  unfolding begun_virtual
  begun_virtual-view j =
      let (n, l, e) = count_virtual-view j in (n, l, when-begun (count_virtual s j) ∙ e)

  pub virtual_begin-view : (j : Job) → Begun (view j) (view (virtual_begin s j))
  virtual_begin-view j =
      let same = view-eq (virtual_begin s j) (begun_virtual s (mask j)) (virtual_begin-begun s j) in
      subst (λ v. Begun v (view (virtual_begin s j))) (view-mask j)
        (subst (Begun (view (mask j))) (sym same) (begun_virtual-view (mask j)))

abbrev pub next_line_of : View → View
next_line_of v = record v { line = v.line + 1; wx = 0 }

pub end_of_line-view : (j : Job) → view (end_of_line j) ≡ next_line_of (view j)
unfolding view end_of_line output
end_of_line-view j = elim (Bool-cases j.status.face_declared) [
  | inl known ↦ rw known
  | inr unknown ↦ rw unknown
]

pub change_to-view : (f : ℕ) (j : Job) → view (change_to f j) ≡ view j
unfolding view change_to output
change_to-view f j = elim (Bool-cases (j.status.face == f)) [
  | inl same ↦ rw same
  | inr other ↦ elim (Bool-cases j.status.face_declared) [
    | inl known ↦ rw (other, known)
    | inr unknown ↦ rw (other, unknown)
  ]
]

pub put_tab-view : (s : Settings) (j : Job) → view (put_tab s j) ≡ view j
unfolding view put_tab output
put_tab-view s j = elim (Bool-cases j.status.face_declared) [
  | inl known ↦ rw known
  | inr unknown ↦ rw unknown
]

pub emit-view : (s : Settings) (g : Glyph) (j : Job) → view (emit s g j) ≡ view j
unfolding view emit output
emit-view s g j = refl
