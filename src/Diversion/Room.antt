-- ===== src/Diversion/Room.antt =====
-- A dynamic string of a diversion has room for every text of less than DS_MARGIN bytes.
use a2ps.Prelude.{
  ℕ, ◌+◌, ◌*◌, ◌≤◌, ◌<◌, ◌≡◌, refl, Bool-cases, inl, inr, List, [], ◌∷◌, ◌++◌, Option, some, ltb,
  ltb→le, leb, leb→gt, le→leb, length, length-append, arith,
}
use a2ps.Diversion.{
  Dstring, ds_geometrical, ds_grow, store_content, ds_strccat, ds_unsafe_cat_vsprintf, ds_margin,
  min_content,
}

-- It grows by doubling, and the zero behind the content is in it.
pub record Roomy (s : Dstring) : Type 0 where
  pub doubles : s.growth ≡ ds_geometrical
  pub by_two : s.increment ≡ 2
  pub large : min_content ≤ s.size
  pub ends_inside : length s.content + 1 ≤ s.size

-- The content that was asked for is stored.
abbrev pub Stores : List ℕ → Option Dstring → Type 0
Stores content result = (s : Dstring) × (result ≡ some s) × Roomy s × (s.content ≡ content)

store_content-Stores :
    (content : List ℕ) (s : Dstring)
    → s.growth ≡ ds_geometrical
    → s.increment ≡ 2
    → min_content ≤ s.size
    → length content + 1 ≤ s.size
    → Stores content (store_content content s)
store_content-Stores content s doubles by_two large h = rw (le→leb (length content + 1) s.size h) (
  record s { content = content },
  refl,
  record { doubles = doubles; by_two = by_two; large = large; ends_inside = h },
  refl,
)

ds_grow-size : (s : Dstring) → Roomy s → (ds_grow s).size ≡ s.size * 2
ds_grow-size s r = rw (r.doubles, r.by_two) refl

grown-Stores :
    (content : List ℕ) (s : Dstring)
    → Roomy s
    → length content + 1 ≤ s.size * 2
    → Stores content (store_content content (ds_grow s))
grown-Stores content s r h =
    let twice = ds_grow-size s r in
    store_content-Stores content (ds_grow s) r.doubles r.by_two (omega (arith, twice, r.large))
      (omega arith)

pub ds_unsafe_cat_vsprintf-Stores :
    (s : Dstring) (text : List ℕ)
    → Roomy s
    → length text < ds_margin
    → Stores (s.content ++ text) (ds_unsafe_cat_vsprintf s text)
unfolding ds_unsafe_cat_vsprintf
ds_unsafe_cat_vsprintf-Stores s text r h =
    let long = length-append s.content text in
    elim (Bool-cases (ltb s.size (length s.content + ds_margin))) [
      | inl e ↦
          rw e (grown-Stores (s.content ++ text) s r (omega (arith, long, r.large, r.ends_inside)))
      | inr e ↦ rw e (
          store_content-Stores (s.content ++ text) s r.doubles r.by_two r.large
            (omega (arith, long, ltb→le s.size (length s.content + ds_margin) e)))
    ]

pub ds_strccat-Stores :
    (s : Dstring) (c : ℕ) → Roomy s → Stores (s.content ++ c ∷ []) (ds_strccat s c)
unfolding ds_strccat
ds_strccat-Stores s c r =
    let long = length-append s.content (c ∷ []) in
    elim (Bool-cases (leb s.size (length s.content + 2))) [
      | inl e ↦
          rw e
            (grown-Stores (s.content ++ c ∷ []) s r (omega (arith, long, r.large, r.ends_inside)))
      | inr e ↦ rw e (
          store_content-Stores (s.content ++ c ∷ []) s r.doubles r.by_two r.large
            (omega (arith, long, leb→gt s.size (length s.content + 2) e)))
    ]
