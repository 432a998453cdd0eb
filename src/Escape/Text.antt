-- ===== src/Escape/Text.antt =====
-- Text that went through ps_escape_char, as a PostScript interpreter reads it.
use a2ps.Prelude.{
  ℕ, ◌+◌, ◌*◌, ◌<◌, ◌≤◌, ◌≡◌, refl, ap, ◌∙◌, Bool, true, false, not, ◌&&◌, ◌||◌, List, [], ◌∷◌,
  ◌++◌, All, leb, ==_iff, length, arith,
}
use a2ps.Escape.{
  space, octal, hexa, caret, emacs, question_mark, UnprintableFormat, ps_escape_char, char_exists,
  escape_text,
}
use a2ps.Escape.Decode.{Scan, in_text, scan, run, decode, decode-append, visible}
use a2ps.Escape.Table.{
  fits, fits_table, all_below, all_below_lem, same_bytes, same_bytes→≡, is_text→≡,
}

-- A byte that may be asked for: it is one, and it is no control character that the encoding has.
abbrev pub IsByte : Bool → ℕ → Type 0
IsByte exists' c = (c < 256) × (exists' ≡ true → 32 ≤ c)

fits-IsByte :
    (format : UnprintableFormat) (exists' : Bool) (c : ℕ)
    → IsByte exists' c
    → fits format exists' c ≡ true
fits-IsByte format exists' c h =
    all_below_lem 256 (fits format exists') c (fits_table format exists') h.0

and-true : (a b : Bool) → (a && b) ≡ true → (a ≡ true) × (b ≡ true)
and-true true b h = (refl, h)
and-true false b h = cc

or-false : (a b : Bool) → a ≡ false → (a || b) ≡ true → b ≡ true
or-false true b e h = cc
or-false false b e h = h

pair-eq : {x y : List ℕ} {s t : Scan} → x ≡ y → s ≡ t → (◌≡◌ {A = List ℕ × Scan} (x, s) (y, t))
pair-eq p q = rw (p, q) refl

-- For a byte that is no control character of the encoding, PostScript reads what ps_escape_char
-- leaves to its end: as the byte itself if it is printable ASCII or the encoding has it and it is
-- not 127, and else as its form in the format: a space, `?`, a backslash and three octal digits,
-- `\x` and two hexadecimal digits, or, behind `M-` if it is above 127, `^` or `C-` with the upper-
-- case letter of a control character or `?` for 127, and otherwise the byte without its high bit.
-- The columns are the length of that form.
pub ps_escape_char-visible :
    (format : UnprintableFormat) (exists' : Bool) (c : ℕ)
    → IsByte exists' c
    → let e = ps_escape_char format exists' [] c in
      (run in_text e.res ≡ (visible format exists' c, in_text))
      × (e.columns ≡ length (visible format exists' c))
unfolding fits
ps_escape_char-visible format exists' c h =
    let asked : (exists' && not (leb 32 c)) ≡ false = ground arith in
    let f = or-false _ _ asked (fits-IsByte format exists' c h) in
    let (first, columns) = and-true _ _ f in
    let (bytes, text) = and-true _ _ first in
    let e = ps_escape_char format exists' [] c in
    (
      pair-eq (same_bytes→≡ (run in_text e.res).0 _ bytes) (is_text→≡ (run in_text e.res).1 text),
      (==_iff e.columns _).0 columns,
    )

-- What a reader of the page should see of a text
abbrev pub visible_text : UnprintableFormat → (ℕ → ℕ) → List ℕ → List ℕ
visible_text format faces_wx [] = []
visible_text format faces_wx (c ∷ cs) =
    visible format (char_exists faces_wx c) c ++ visible_text format faces_wx cs

-- A text of bytes whose control characters are not in the encoding is read, by the rules of
-- PostScript strings, as the forms of its bytes, one after the other: the byte itself if it is
-- printable ASCII or the encoding has it and it is not 127, and else a space, `?`, a backslash and
-- three octal digits, `\x` and two hexadecimal digits, or, behind `M-` if it is above 127, `^` or
-- `C-` with the upper-case letter of a control character or `?` for 127, and otherwise the byte
-- without its high bit.
pub escape_text-visible :
    (format : UnprintableFormat) (faces_wx : ℕ → ℕ) (cs : List ℕ)
    → All (λ c. IsByte (char_exists faces_wx c) c) cs
    → decode in_text (escape_text format faces_wx cs) ≡ visible_text format faces_wx cs
unfolding escape_text decode
escape_text-visible format faces_wx [] h = refl
escape_text-visible format faces_wx (c ∷ cs) h =
    let e = (ps_escape_char format (char_exists faces_wx c) [] c).res in
    decode-append in_text e (escape_text format faces_wx cs)
    ∙ rw ((ps_escape_char-visible format (char_exists faces_wx c) c h.0).0) (
        ap (◌++◌ (visible format (char_exists faces_wx c) c))
          (escape_text-visible format faces_wx cs h.1))

merges : UnprintableFormat → Bool → ℕ → ℕ → Bool
merges format exists' c d =
    same_bytes
      (decode in_text (
        (ps_escape_char format true [] c).res
        ++ ((ps_escape_char format exists' [] (b'0' + d)).res ++ [])))
      ((c * 8 + d) ∷ [])

merges_table :
    (format : UnprintableFormat) (exists' : Bool)
    → all_below 32 (λ c. all_below 8 (merges format exists' c)) ≡ true
unfolding all_below merges same_bytes decode scan ps_escape_char
merges_table space true = refl
merges_table space false = refl
merges_table octal true = refl
merges_table octal false = refl
merges_table hexa true = refl
merges_table hexa false = refl
merges_table caret true = refl
merges_table caret false = refl
merges_table emacs true = refl
merges_table emacs false = refl
merges_table question_mark true = refl
merges_table question_mark false = refl

-- A control character that the encoding has and an octal digit behind it are read as one byte,
-- since `\%o` does not write three digits.
pub escape_text-merged :
    (format : UnprintableFormat) (faces_wx : ℕ → ℕ) (c d : ℕ)
    → c < 32
    → d < 8
    → char_exists faces_wx c ≡ true
    → decode in_text (escape_text format faces_wx (c ∷ (b'0' + d) ∷ [])) ≡ (c * 8 + d) ∷ []
unfolding escape_text merges
escape_text-merged format faces_wx c d l k e =
    let exists' = char_exists faces_wx (b'0' + d) in
    let row =
      all_below_lem 32 (λ c. all_below 8 (merges format exists' c)) c (merges_table format exists')
        l in
    rw e (same_bytes→≡ _ _ (all_below_lem 8 (merges format exists' c) d row k))
