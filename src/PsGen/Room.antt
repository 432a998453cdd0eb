-- ===== src/PsGen/Room.antt =====
-- The room that is left between two characters.
use a2ps.Prelude.{◌<◌, ◌≤◌, ◌≡◌, ◌⊎◌, inl, inr, refl, Bool, true, false, ℕ}
use a2ps.PsGen.{Settings}
use a2ps.PsGen.View.{View, per_page}
use a2ps.PsGen.Char.{Fits, true-false}

-- There is room for the line on its page, and for the page on its sheet; only a line that has begun
-- is cut, and only at the beginning of a line a page may still be to begin; a line that is not cut
-- is not wider than `w`.
pub record HasRoom (s : Settings) (w : ℕ) (v : View) : Type 0 where
  pub line_room : v.line < s.linesperpage
  pub virtual_room : v.virtual ≤ per_page s
  pub page_room : (v.start_page ≡ false) ⊎ (v.virtual < per_page s)
  pub page_begins : (v.start_line ≡ true) ⊎ (v.start_page ≡ false)
  pub cut_begins : (v.is_in_cut ≡ false) ⊎ (v.start_line ≡ false)
  pub wx_room : (v.is_in_cut ≡ true) ⊎ (v.wx ≤ w)

-- A condition on a flag, and the alternative
otherwise : {P : Type 0} (b : Bool) → (b ≡ true → P) → (b ≡ false) ⊎ P
otherwise true h = inr (h refl)
otherwise false h = inl refl

otherwise_not : {P : Type 0} (b : Bool) → (b ≡ false → P) → (b ≡ true) ⊎ P
otherwise_not true h = inl refl
otherwise_not false h = inr (h refl)

implied : {P : Type 0} {b : Bool} → (b ≡ false) ⊎ P → b ≡ true → P
implied (inl no_way) e = absurd (true-false e no_way)
implied (inr p) e = p

implied_not : {P : Type 0} {b : Bool} → (b ≡ true) ⊎ P → b ≡ false → P
implied_not (inl no_way) e = absurd (true-false no_way e)
implied_not (inr p) e = p

module _ (s : Settings) (w : ℕ) (v : View) where
  pub Fits→HasRoom : Fits s w v → HasRoom s w v
  Fits→HasRoom h = record {
    line_room = h.line_fits;
    virtual_room = h.virtual_fits;
    page_room = otherwise v.start_page h.page_starts;
    page_begins = otherwise_not v.start_line h.line_starts;
    cut_begins = otherwise v.is_in_cut h.cut_starts;
    wx_room = otherwise_not v.is_in_cut h.wx_fits;
  }

  pub HasRoom→Fits : HasRoom s w v → Fits s w v
  HasRoom→Fits h = record {
    line_fits = h.line_room;
    virtual_fits = h.virtual_room;
    page_starts = implied h.page_room;
    line_starts = implied_not h.page_begins;
    cut_starts = implied h.cut_begins;
    wx_fits = implied_not h.wx_room;
  }
