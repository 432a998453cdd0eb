-- ===== src/Escape/Width.antt =====
-- The width of a byte, against the bytes that the reader of the page sees.
use a2ps.Prelude.{
  ℕ, ◌+◌, ◌<◌, ◌≤◌, ◌≡◌, ◌≢◌, ◌⊎◌, inl, inr, refl, true, false, List, [], ◌∷◌, ltb, leb, ◌==◌,
  arith, ◌&&◌, Bool-cases,
}
use a2ps.Escape.{
  UnprintableFormat, space, octal, hexa, caret, emacs, question_mark, char_wx, char_exists,
  unprintable_wx,
}
use a2ps.Escape.Decode.{visible, visible_format}

-- The widths of bytes that the encoding has, added up
abbrev pub sum_wx : (ℕ → ℕ) → List ℕ → ℕ
sum_wx wx [] = 0
sum_wx wx (c ∷ cs) = wx c + sum_wx wx cs

sum_wx-format :
    (format : UnprintableFormat) (wx : ℕ → ℕ) (c : ℕ)
    → unprintable_wx format wx c ≡ sum_wx wx (visible_format format c)
sum_wx-format space wx c = omega arith
sum_wx-format question_mark wx c = omega arith
sum_wx-format octal wx c = omega arith
sum_wx-format hexa wx c = omega arith
sum_wx-format caret wx c = elim (Bool-cases (ltb 127 c)) [
  | inl meta ↦ rw meta (ground arith)
  | inr plain ↦ rw plain (ground arith)
]
sum_wx-format emacs wx c = elim (Bool-cases (ltb 127 c)) [
  | inl meta ↦ rw meta (ground arith)
  | inr plain ↦ rw plain (ground arith)
]

unprinted : (c : ℕ) → (c < 32) ⊎ (127 ≤ c) → (leb 32 c && ltb c 127) ≡ false
unprinted c h = ground arith

visible-true : (format : UnprintableFormat) (c : ℕ) → c ≢ 127 → visible format true c ≡ c ∷ []
visible-true format c h = ground arith

-- For every byte but a printable one that the encoding lacks, and 127 if the encoding has it, the
-- width is that of the bytes that the reader of the page sees.
pub char_wx-visible :
    (format : UnprintableFormat) (wx : ℕ → ℕ) (c : ℕ)
    → (char_exists wx c ≡ false → (c < 32) ⊎ (127 ≤ c))
    → (char_exists wx c ≡ true → c ≢ 127)
    → char_wx format wx c ≡ sum_wx wx (visible format (char_exists wx c) c)
unfolding char_wx
char_wx-visible format wx c h k = elim (Bool-cases (wx c == 0)) [
  | inl lacks ↦ rw lacks (rw (unprinted c (h (rw lacks refl))) (sum_wx-format format wx c))
  | inr has ↦ rw has (rw (visible-true format c (k (rw has refl))) (omega arith))
]
