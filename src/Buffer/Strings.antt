-- ===== src/Buffer/Strings.antt =====
-- The lines of a string, for each style of line ends.
use a2ps.Prelude.{
  ℕ, suc, ◌≢◌, ne→==, true, ◌+◌, ◌≡◌, refl, ◌∙◌, List, [], ◌∷◌, ◌++◌, All, length, append_assoc,
  append-nil, arith,
}
use a2ps.Buffer.{
  Eol, eol_n, eol_r, eol_rn, eol_nr, eol_auto, verdict, StringReading, string_get_line,
}
use a2ps.Buffer.Lines.{
  Mark, lf, cr, crlf, lfcr, mark_bytes, Accepts, Clear, verdict-IsPlain, IsPlain,
}

-- Bytes that are no line end and that bgetc can tell from EOF
abbrev pub IsText : ℕ → Type 0
IsText c = IsPlain c × (c ≢ 255)

pub string_get_line-body :
    (eol : Eol) (grown body : List ℕ) (offset : ℕ) (rest : List ℕ)
    → All IsText body
    → string_get_line eol grown offset (body ++ rest)
      ≡ string_get_line eol (grown ++ body) (offset + length body) rest
unfolding string_get_line
string_get_line-body eol grown [] offset rest h =
    let here : offset + 0 ≡ offset = omega arith in rw (append-nil grown, here)
string_get_line-body eol grown (c ∷ body) offset rest h =
    let count : offset + 1 + length body ≡ offset + suc (length body) = omega arith in
    rw (ne→== c 255 h.0.1, verdict-IsPlain eol c (body ++ rest) h.0.0, string_get_line)
      (string_get_line-body eol (grown ++ c ∷ []) body (offset + 1) rest h.1
        ∙ rw (append_assoc grown (c ∷ []) body, count))

-- The string read to the end of the mark
abbrev pub Ended : List ℕ → StringReading → Type 0
Ended grown r = (r.grown ≡ grown ++ b'\n' ∷ []) × (r.ended ≡ true)

pub string_get_line-mark :
    (eol : Eol) (m : Mark) (grown : List ℕ) (offset : ℕ) (rest : List ℕ)
    → Accepts eol m
    → Clear m rest
    → Ended grown (string_get_line eol grown offset (mark_bytes m ++ rest))
unfolding string_get_line verdict
string_get_line-mark eol_n lf grown offset rest a h = (refl, refl)
string_get_line-mark eol_r cr grown offset rest a h = (refl, refl)
string_get_line-mark eol_rn crlf grown offset rest a h = (refl, refl)
string_get_line-mark eol_nr lfcr grown offset rest a h = (refl, refl)
string_get_line-mark eol_auto lf grown offset rest a h = (refl, refl)
string_get_line-mark eol_auto cr grown offset rest a h = (refl, refl)
string_get_line-mark eol_auto crlf grown offset rest a h = (refl, refl)
string_get_line-mark eol_auto lfcr grown offset rest a h = (refl, refl)
string_get_line-mark _ _ grown offset rest a h = absurd a
