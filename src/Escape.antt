-- ===== src/Escape.antt =====
-- liba2ps/psgen.c (ps_escape_char) and encoding.c (char_WX): the form in which a byte stands in a
-- PostScript string, the columns that it takes and how wide it is.
--
-- `exists'` is encoding_char_exists for the current encoding and face, and `faces_wx` the widths
-- that the encoding has for the current face; a byte that the encoding lacks has the width 0.
pub mod Decode
pub mod Table
pub mod Text
pub mod Width
pub mod Tests
use a2ps.Prelude.{
  ℕ, zero, suc, ◌+◌, ◌-◌, ◌*◌, ◌/◌, ◌%◌, Bool, true, false, not, ◌&&◌, ◌||◌, List, [], ◌∷◌, ◌++◌,
  ltb, leb, ◌==◌, if◌then◌else◌,
}

pub data UnprintableFormat : Type 0 where
  caret space question_mark octal hexa emacs : UnprintableFormat

-- The digit of `%o` and `%x`
abbrev pub digit : ℕ → ℕ
digit d = if ltb d 10 then b'0' + d else b'a' + (d - 10)

-- `%03o` and `%02x` of a byte
abbrev pub octal3 : ℕ → List ℕ
octal3 c = digit (c / 64) ∷ digit (c / 8 % 8) ∷ digit (c % 8) ∷ []

abbrev pub hexa2 : ℕ → List ℕ
hexa2 c = digit (c / 16) ∷ digit (c % 16) ∷ []

-- `%o` of a byte
abbrev pub octal_short : ℕ → List ℕ
octal_short c =
    if ltb c 8
    then digit c ∷ []
    else if ltb c 64
    then digit (c / 8) ∷ digit (c % 8) ∷ []
    else octal3 c

-- What ps_escape_char leaves: the buffer, the columns, and whether the byte counts as
-- non-printing
pub record Escaped : Type 0 where
  pub res : List ℕ
  pub columns : ℕ
  pub nonprinting : Bool

abbrev escaped : List ℕ → ℕ → Bool → Escaped
escaped res columns nonprinting = record { res = res; columns = columns; nonprinting = nonprinting }

abbrev pub is_special : ℕ → Bool
is_special c = c == b'(' || c == b')' || c == b'\\'

-- `if (c is special) STRCCAT (res, '\\'); STRCCAT (res, c);`
abbrev pub with_backslash : ℕ → List ℕ
with_backslash c = if is_special c then b'\\' ∷ c ∷ [] else c ∷ []

-- `M-`, and the byte without its high bit
abbrev pub meta_prefix : ℕ → List ℕ
meta_prefix c = if ltb 127 c then b'M' ∷ b'-' ∷ [] else []

abbrev pub meta_columns : ℕ → ℕ
meta_columns c = if ltb 127 c then 2 else 0

abbrev pub without_meta : ℕ → ℕ
without_meta c = if ltb 127 c then c % 128 else c

-- `case caret` and `case Emacs`, which differ in what stands for Control
abbrev pub control_form : List ℕ → ℕ → List ℕ → ℕ → Escaped
control_form control columns res c =
    let c' = without_meta c in
    let res' = res ++ meta_prefix c in
    let len = meta_columns c in
    if ltb c' b' '
    then escaped (res' ++ control ++ with_backslash (c' + b'@')) (len + columns + 1) true
    else if c' == 127
    then escaped (res' ++ control ++ b'?' ∷ []) (len + columns + 1) true
    else escaped (res' ++ with_backslash c') (len + 1) true

-- The switch over `job->unprintable_format`; sprintf starts the buffer anew.
abbrev pub escape_format : UnprintableFormat → List ℕ → ℕ → Escaped
escape_format octal res c = escaped (b'\\' ∷ b'\\' ∷ octal3 c) 4 true
escape_format hexa res c = escaped (b'\\' ∷ b'\\' ∷ b'x' ∷ hexa2 c) 4 true
escape_format question_mark res c = escaped (res ++ b'?' ∷ []) 1 true
escape_format space res c = escaped (res ++ b' ' ∷ []) 1 true
escape_format caret res c = control_form (b'^' ∷ []) 1 res c
escape_format emacs res c = control_form (b'C' ∷ b'-' ∷ []) 2 res c

unfoldable pub ps_escape_char : UnprintableFormat → Bool → List ℕ → ℕ → Escaped
ps_escape_char format exists' res c =
    if leb b' ' c && ltb c 127
    then escaped (res ++ with_backslash c) 1 false
    else if exists' && (ltb 127 c || ltb c 32)
    then escaped (res ++ b'\\' ∷ octal_short c) 1 false
    else escape_format format res c

-- `_WX_ (c)` in the formats of a byte that the encoding lacks
abbrev pub unprintable_wx : UnprintableFormat → (ℕ → ℕ) → ℕ → ℕ
unprintable_wx hexa wx c = wx b'\\' + wx b'x' + wx (digit (c / 16)) + wx (digit (c % 16))
unprintable_wx octal wx c =
    wx b'\\' + wx (digit (c / 64)) + wx (digit (c / 8 % 8)) + wx (digit (c % 8))
unprintable_wx space wx c = wx b' '
unprintable_wx question_mark wx c = wx b'?'
unprintable_wx caret wx c =
    let c' = without_meta c in
    (if ltb 127 c then wx b'M' + wx b'-' else 0)
    + (if c' == 127
        then wx b'^' + wx b'?'
        else if ltb c' b' '
        then wx b'^' + wx (c' + b'@')
        else wx c')
unprintable_wx emacs wx c =
    let c' = without_meta c in
    (if ltb 127 c then wx b'M' + wx b'-' else 0)
    + (if c' == 127
        then wx b'C' + wx b'-' + wx b'?'
        else if ltb c' b' '
        then wx b'C' + wx b'-' + wx (c' + b'@')
        else wx c')

unfoldable pub char_wx : UnprintableFormat → (ℕ → ℕ) → ℕ → ℕ
char_wx format faces_wx c = if faces_wx c == 0 then unprintable_wx format faces_wx c else faces_wx c

-- string_WX
unfoldable pub string_wx : UnprintableFormat → (ℕ → ℕ) → List ℕ → ℕ
string_wx format faces_wx [] = 0
string_wx format faces_wx (c ∷ cs) = char_wx format faces_wx c + string_wx format faces_wx cs

-- encoding_char_exists
abbrev pub char_exists : (ℕ → ℕ) → ℕ → Bool
char_exists faces_wx c = not (faces_wx c == 0)

-- The loop of output_marker over a text without the marks of values that are known later
unfoldable pub escape_text : UnprintableFormat → (ℕ → ℕ) → List ℕ → List ℕ
escape_text format faces_wx [] = []
escape_text format faces_wx (c ∷ cs) =
    (ps_escape_char format (char_exists faces_wx c) [] c).res ++ escape_text format faces_wx cs
