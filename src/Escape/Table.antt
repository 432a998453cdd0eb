-- ===== src/Escape/Table.antt =====
-- ps_escape_char at every byte, by evaluation.
use a2ps.Prelude.{
  ℕ, zero, suc, ◌<◌, ◌≡◌, refl, Bool, true, false, not, ◌&&◌, ◌||◌, List, [], ◌∷◌, ◌==◌, leb,
  length, arith,
}
use a2ps.Escape.{UnprintableFormat, space, octal, hexa, caret, emacs, question_mark, ps_escape_char}
use a2ps.Escape.Decode.{Scan, in_text, after_backslash, in_octal, scan, run, visible}

unfoldable pub all_below : ℕ → (ℕ → Bool) → Bool
all_below zero p = true
all_below (suc n) p = p n && all_below n p

pub all_below_lem : (n : ℕ) (p : ℕ → Bool) (x : ℕ) → all_below n p ≡ true → x < n → p x ≡ true
unfolding all_below
all_below_lem zero p x h l = absurd (omega arith)
all_below_lem (suc n) p x h l = ground (arith, all_below_lem n p x)

unfoldable pub same_bytes : List ℕ → List ℕ → Bool
same_bytes [] [] = true
same_bytes (x ∷ xs) (y ∷ ys) = x == y && same_bytes xs ys
same_bytes _ _ = false

pub same_bytes→≡ : (xs ys : List ℕ) → same_bytes xs ys ≡ true → xs ≡ ys
unfolding same_bytes
same_bytes→≡ [] [] h = refl
same_bytes→≡ [] (y ∷ ys) h = cc
same_bytes→≡ (x ∷ xs) [] h = cc
same_bytes→≡ (x ∷ xs) (y ∷ ys) h = ground (arith, same_bytes→≡ xs ys)

abbrev pub is_text : Scan → Bool
is_text in_text = true
is_text after_backslash = false
is_text (in_octal v k) = false

pub is_text→≡ : (s : Scan) → is_text s ≡ true → s ≡ in_text
is_text→≡ in_text h = refl
is_text→≡ after_backslash h = cc
is_text→≡ (in_octal v k) h = cc

-- The escaped byte is read as its visible form, to its end, and takes as many columns. A byte
-- that the encoding has is asked for only from 32 on.
unfoldable pub fits : UnprintableFormat → Bool → ℕ → Bool
fits format exists' c =
    (exists' && not (leb 32 c))
    || (same_bytes (run in_text (ps_escape_char format exists' [] c).res).0
          (visible format exists' c)
        && is_text (run in_text (ps_escape_char format exists' [] c).res).1
        && (ps_escape_char format exists' [] c).columns == length (visible format exists' c))

pub fits_table :
    (format : UnprintableFormat) (exists' : Bool) → all_below 256 (fits format exists') ≡ true
unfolding all_below fits same_bytes run scan ps_escape_char
fits_table space true = refl
fits_table space false = refl
fits_table octal true = refl
fits_table octal false = refl
fits_table hexa true = refl
fits_table hexa false = refl
fits_table caret true = refl
fits_table caret false = refl
fits_table emacs true = refl
fits_table emacs false = refl
fits_table question_mark true = refl
fits_table question_mark false = refl
