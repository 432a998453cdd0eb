-- ===== src/PsGen/Align.antt =====
-- ps_begin_file: where a file begins.
use a2ps.Prelude.{
  ℕ, zero, suc, ◌+◌, ◌*◌, ◌%◌, ◌<◌, ◌≤◌, ◌==◌, ==_iff, ◌⊎◌, ◌≡◌, refl, sym, ◌∙◌, ap, inl, inr, Bool,
  true, false, not, ◌&&◌, Bool-cases, arith,
}
use native.Mathlib.Nat.{mod-add-mod, mod_self, mod-eq_of_lt, mod-lt}
use a2ps.PsGen.{
  Duplex, simplex, duplex, tumble, Settings, Job, when, output, output_to_void, set_status,
  FileAlign, file_align_virtual, file_align_rank, file_align_page, file_align_sheet,
  file_align_number,
}
use a2ps.PsGen.Page.{
  virtual_begin, virtual_end, virtual_empty_output, page_flush, page_empty_output, sheet_flush,
  page_end, is_simplex, file_job_synchronize_sheets, count_virtual,
}
use a2ps.PsGen.Counters.{
  mask, page_end-flushed, begun_virtual, ended_virtual, virtual_begin-begun, virtual_end-ended,
}
use a2ps.PsGen.Char.{if-cases, when-cases}
use a2ps.PsGen.Files.{rank, step_to_multiple, align, ps_begin_file, initialize_ps_status}

nearer : (x n : ℕ) → x < n → (x + 1 == n) ≡ false → x + 1 < n
nearer x n h k = ground arith

still : (fuel n x : ℕ) → (x ≡ 0) ⊎ (n ≤ suc fuel + x) → (x == 0) ≡ false → n ≤ fuel + (x + 1)
still fuel n x h k = ground arith

-- One step more either reaches a multiple or comes one nearer to it.
mod-step : (m n : ℕ) → 0 < n → ((m + 1) % n ≡ 0) ⊎ ((m + 1) % n ≡ m % n + 1)
mod-step m n h =
    let next : (m + 1) % n ≡ (m % n + 1) % n = sym (mod-add-mod m n 1) in
    elim (Bool-cases (m % n + 1 == n)) [
      | inl last ↦ inl (next ∙ rw ((==_iff (m % n + 1) n).0 last) (mod_self n))
      | inr more ↦ inr (next ∙ mod-eq_of_lt (nearer (m % n) n (mod-lt m h) more))
    ]

-- With as much fuel as is missing to the next multiple the loop ends at a multiple.
step_to_multiple-mod :
    (count : Job → ℕ) (step : Job → Job) (n : ℕ)
    → 0 < n
    → ((j : Job) → count (step j) ≡ count j + 1)
    → (fuel : ℕ) (j : Job) → (count j % n ≡ 0) ⊎ (n ≤ fuel + count j % n)
    → count (step_to_multiple count step fuel n j) % n ≡ 0
unfolding step_to_multiple
step_to_multiple-mod count step n h k zero j (inl done) = done
step_to_multiple-mod count step n h k zero j (inr near) =
    absurd (omega (arith, mod-lt (count j) h, near))
step_to_multiple-mod count step n h k (suc fuel) j near = elim (Bool-cases (count j % n == 0)) [
  | inl done ↦ rw done ((==_iff (count j % n) 0).0 done)
  | inr more ↦ rw more (
      step_to_multiple-mod count step n h k fuel (step j) (elim (mod-step (count j) n h) [
        | inl reached ↦ inl (rw (k j) reached)
        | inr nearer' ↦ inr (rw (k j, nearer') (still fuel n (count j % n) near more))
      ]))
]

odd-next : (m m' : ℕ) → m' ≡ m + 1 → (b : Bool) → (not b && not (m % 2 == 0)) ≡ true → m' % 2 ≡ 0
odd-next m m' e b h = rw e (ground arith)

stays_even : (m : ℕ) (b : Bool) → (not b && not (m % 2 == 0)) ≡ false → b ≡ false → m % 2 ≡ 0
stays_even m b h k = ground arith

-- The next page is printed on the front side of a sheet.
abbrev pub IsFrontSide : Duplex → ℕ → Type 0
IsFrontSide simplex sheets = Unit
IsFrontSide duplex sheets = sheets % 2 ≡ 0
IsFrontSide tumble sheets = sheets % 2 ≡ 0

flushed-IsFrontSide : (d : Duplex) (m : ℕ) → (is_simplex d ≡ false → m % 2 ≡ 0) → IsFrontSide d m
flushed-IsFrontSide simplex m h = tt
flushed-IsFrontSide duplex m h = h refl
flushed-IsFrontSide tumble m h = h refl

module _ (s : Settings) where
  pages-mask : (j : Job) → (mask j).pages ≡ j.pages
  unfolding mask
  pages-mask j = refl

  virtual-mask : (j : Job) → (mask j).virtual ≡ j.virtual
  unfolding mask
  virtual-mask j = refl

  page_end-virtual : (j : Job) → (page_end s j).virtual ≡ 0
  page_end-virtual j =
      sym (virtual-mask (page_end s j)) ∙ ap (λ k. k.virtual) (page_end-flushed s j)

  page_flush-virtual : (j : Job) → (page_flush s j).virtual ≡ 0
  unfolding page_flush when
  page_flush-virtual j = elim (Bool-cases (j.virtual == 0)) [
    | inl none_left ↦ rw none_left ((==_iff j.virtual 0).0 none_left)
    | inr some_left ↦ rw some_left (page_end-virtual (output_to_void false j))
  ]

  page_end-pages : (j : Job) → (page_end s j).pages ≡ j.pages
  page_end-pages j =
      sym (pages-mask (page_end s j)) ∙ ap (λ k. k.pages) (page_end-flushed s j) ∙ pages-mask j

  virtual_end-pages : (j : Job) → (virtual_end s j).pages ≡ j.pages
  unfolding ended_virtual when
  virtual_end-pages j =
      sym (pages-mask (virtual_end s j))
      ∙ ap (λ k. k.pages) (virtual_end-ended s j)
      ∙ elim (Bool-cases ((mask j).virtual == s.columns * s.rows)) [
        | inl full ↦ rw full (pages-mask j)
        | inr room ↦ rw room (pages-mask j)
      ]

  virtual_begin-pages : (j : Job) → (virtual_begin s j).pages ≡ j.pages + 1
  unfolding begun_virtual when count_virtual
  virtual_begin-pages j =
      sym (pages-mask (virtual_begin s j))
      ∙ ap (λ k. k.pages) (virtual_begin-begun s j)
      ∙ elim (Bool-cases ((count_virtual s (mask j)).virtual == 1)) [
        | inl one ↦ rw one (ap (λ n. n + 1) (pages-mask j))
        | inr other ↦ rw other (ap (λ n. n + 1) (pages-mask j))
      ]

  virtual_empty_output-pages : (j : Job) → (virtual_empty_output s j).pages ≡ j.pages + 1
  unfolding virtual_empty_output
  virtual_empty_output-pages j =
      let counted = record j { pages = j.pages + 1; virtual = j.virtual + 1 } in
      if-cases (λ k. k.pages ≡ j.pages + 1) s.virtual_force _ _
        (λ forced. virtual_end-pages (virtual_begin s j) ∙ virtual_begin-pages j)
        (λ free.
          when-cases (λ k. k.pages ≡ j.pages + 1) (j.virtual + 1 == s.columns * s.rows) (page_end s)
            counted (λ full. page_end-pages counted) (λ room. refl))

  page_empty_output-sheets : (j : Job) → (page_empty_output s j).sheets ≡ j.sheets + 1
  unfolding page_empty_output file_job_synchronize_sheets output
  page_empty_output-sheets j = refl

  page_empty_output-virtual : (j : Job) → (page_empty_output s j).virtual ≡ j.virtual
  unfolding page_empty_output file_job_synchronize_sheets output
  page_empty_output-virtual j = refl

  step_to_multiple-virtual :
      (n fuel : ℕ) (j : Job)
      → (step_to_multiple (λ j. j.sheets) (page_empty_output s) fuel n j).virtual ≡ j.virtual
  unfolding step_to_multiple
  step_to_multiple-virtual n zero j = refl
  step_to_multiple-virtual n (suc fuel) j = elim (Bool-cases (j.sheets % n == 0)) [
    | inl done ↦ rw done
    | inr more ↦
        rw more
          (step_to_multiple-virtual n fuel (page_empty_output s j) ∙ page_empty_output-virtual j)
  ]

  -- Where a file may begin
  abbrev pub Begins : FileAlign → Job → Type 0
  Begins file_align_virtual j = Unit
  Begins file_align_rank j = j.pages % rank s ≡ 0
  Begins file_align_page j = j.virtual ≡ 0
  Begins file_align_sheet j = (j.virtual ≡ 0) × IsFrontSide s.duplex_mode j.sheets
  Begins (file_align_number n) j = (j.virtual ≡ 0) × (j.sheets % n ≡ 0)

  -- The number to align to is not 0.
  abbrev pub IsPositive : FileAlign → Type 0
  IsPositive (file_align_number n) = 0 < n
  IsPositive _ = Unit

  sheet_flush-Begins : (j : Job) → Begins file_align_sheet (sheet_flush s j)
  unfolding sheet_flush
  sheet_flush-Begins j =
      let k = page_flush s j in
      when-cases (Begins file_align_sheet)
        (not (is_simplex s.duplex_mode) && not (k.sheets % 2 == 0)) (page_empty_output s) k
        (λ odd. (
          page_empty_output-virtual k ∙ page_flush-virtual j,
          flushed-IsFrontSide s.duplex_mode (page_empty_output s k).sheets (λ _.
              odd-next k.sheets (page_empty_output s k).sheets (page_empty_output-sheets k)
                (is_simplex s.duplex_mode) odd),
        ))
        (λ even. (
          page_flush-virtual j,
          flushed-IsFrontSide s.duplex_mode k.sheets
              (stays_even k.sheets (is_simplex s.duplex_mode) even),
        ))

  align-Begins : (a : FileAlign) (j : Job) → 0 < rank s → IsPositive a → Begins a (align s a j)
  unfolding align
  align-Begins file_align_virtual j r p = tt
  align-Begins file_align_rank j r p =
      step_to_multiple-mod (λ j. j.pages) (virtual_empty_output s) (rank s) r
        virtual_empty_output-pages (rank s) j (inr (omega arith))
  align-Begins file_align_page j r p = page_flush-virtual j
  align-Begins file_align_sheet j r p = sheet_flush-Begins j
  align-Begins (file_align_number n) j r p = (
    step_to_multiple-virtual n n (page_flush s j) ∙ page_flush-virtual j,
    step_to_multiple-mod (λ j. j.sheets) (page_empty_output s) n p page_empty_output-sheets n
        (page_flush s j) (inr (omega arith)),
  )

  -- A file that is not the first begins where its alignment asks for it, and the loops that get
  -- there end: with `rank` the number of virtual pages is a multiple of those in a rank, with
  -- `page` no virtual page is on the sheet, with `sheet` the same and, on two sides, the next page
  -- is a front side, with a number the same and the number of pages is its multiple; `virtual`
  -- asks for nothing. The ranks hold at least one virtual page, and the number is not 0.
  pub ps_begin_file-Begins :
      (j : Job)
      → 0 < rank s
      → IsPositive s.file_align
      → Begins s.file_align (ps_begin_file s false j)
  unfolding ps_begin_file
  ps_begin_file-Begins j r p = align-Begins s.file_align (set_status initialize_ps_status j) r p
