-- ===== src/Escape/Decode.antt =====
-- How a PostScript interpreter reads the bytes between `(` and `)`, and what the reader of the
-- page should see for a byte. Neither is code of the program.
use a2ps.Prelude.{
  ℕ, ◌+◌, ◌-◌, ◌*◌, ◌%◌, ◌≡◌, refl, ap, ◌∙◌, sym, Bool, not, ◌&&◌, ◌||◌, List, [], ◌∷◌, ◌++◌,
  append_assoc, ltb, leb, ◌==◌, if◌then◌else◌,
}
use a2ps.Escape.{
  UnprintableFormat, space, octal, hexa, caret, emacs, question_mark, octal3, hexa2, meta_prefix,
  without_meta,
}

-- `in_octal v k`: behind a backslash and digits of the value `v`, `k` more may follow.
pub data Scan : Type 0 where
  in_text after_backslash : Scan
  in_octal : ℕ → ℕ → Scan

abbrev pub is_octal : ℕ → Bool
is_octal c = leb b'0' c && leb c b'7'

-- The bytes that the string gets, and the state behind the byte that was read
abbrev pub Scanned : Type 0
Scanned = List ℕ × Scan

abbrev scan_text : ℕ → Scanned
scan_text c = if c == b'\\' then ([], after_backslash) else (c ∷ [], in_text)

abbrev named : ℕ → ℕ
named c =
    if c == b'n'
    then 10
    else if c == b'r'
    then 13
    else if c == b't'
    then 9
    else if c == b'b'
    then 8
    else if c == b'f'
    then 12
    else c

abbrev scan_octal : ℕ → ℕ → ℕ → Scanned
scan_octal v k c =
    if is_octal c
    then if k == 1
      then (((v * 8 + (c - b'0')) % 256) ∷ [], in_text)
      else ([], in_octal (v * 8 + (c - b'0')) (k - 1))
    else (v ∷ (scan_text c).0, (scan_text c).1)

unfoldable pub scan : Scan → ℕ → Scanned
scan in_text c = scan_text c
scan after_backslash c = if is_octal c then ([], in_octal (c - b'0') 2) else (named c ∷ [], in_text)
scan (in_octal v k) c = scan_octal v k c

abbrev pub flush : Scan → List ℕ
flush in_text = []
flush after_backslash = []
flush (in_octal v k) = v ∷ []

-- The bytes that the string gets, and the state at the end of the text
unfoldable pub run : Scan → List ℕ → Scanned
run s [] = ([], s)
run s (c ∷ cs) = let (out, s') = scan s c in let (outs, last) = run s' cs in (out ++ outs, last)

unfoldable pub decode : Scan → List ℕ → List ℕ
decode s [] = flush s
decode s (c ∷ cs) = let (out, s') = scan s c in out ++ decode s' cs

pub decode-append :
    (s : Scan) (xs ys : List ℕ) → decode s (xs ++ ys) ≡ (run s xs).0 ++ decode (run s xs).1 ys
unfolding decode run
decode-append s [] ys = refl
decode-append s (c ∷ xs) ys =
    ap (◌++◌ (scan s c).0) (decode-append (scan s c).1 xs ys)
    ∙ sym (append_assoc (scan s c).0 (run (scan s c).1 xs).0 _)

abbrev visible_control : List ℕ → ℕ → List ℕ
visible_control sign c =
    let c' = without_meta c in
    meta_prefix c
    ++ (if ltb c' 32
        then sign ++ (c' + 64) ∷ []
        else if c' == 127
        then sign ++ b'?' ∷ []
        else c' ∷ [])

-- A byte that the encoding lacks: a space, a question mark, `\` and three octal digits, `\x` and two
-- hexadecimal digits, or `^` or `C-` and the letter of a control character, in upper case, with `M-`
-- before a byte above 127. For `emacs` the manual and unprintable_format_to_string have the letter in
-- lower case.
abbrev pub visible_format : UnprintableFormat → ℕ → List ℕ
visible_format space c = b' ' ∷ []
visible_format question_mark c = b'?' ∷ []
visible_format octal c = b'\\' ∷ octal3 c
visible_format hexa c = b'\\' ∷ b'x' ∷ hexa2 c
visible_format caret c = visible_control (b'^' ∷ []) c
visible_format emacs c = visible_control (b'C' ∷ b'-' ∷ []) c

abbrev pub visible : UnprintableFormat → Bool → ℕ → List ℕ
visible format exists' c =
    if (leb 32 c && ltb c 127) || (exists' && not (c == 127))
    then c ∷ []
    else visible_format format c
