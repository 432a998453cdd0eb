-- ===== src/Read/Lines.antt =====
-- The lines of a stream, printed with the faces of their overstrikes.
use a2ps.Prelude.{
  ℕ, ◌+◌, ◌<◌, ◌≡◌, refl, sym, ◌==◌, ne→==, Bool-cases, inl, inr, false, List, [], ◌∷◌, ◌++◌, map,
  All, All-append, length, append_assoc, arith, if◌then◌else◌,
}
use a2ps.Buffer.Lines.{IsPlain, line_of, ends_in_formfeed}
use a2ps.PsGen.{Settings, Job}
use a2ps.PsGen.Print.{ps_print_char}
use a2ps.Read.{at, over, backspace, read_char, set_lines}
use a2ps.Read.Nroff.{
  read_char-newline, Glyph, plain, strong, stronger, strongest, heaviest, underlined,
  underlined_after, underlined_heaviest, circled_plus, plus_circled, copyright, plus_minus,
  greater_equal, less_equal, written, shown, skips, IsGlyph, read_char-written,
}

-- The bytes of a line
abbrev pub line_bytes : List Glyph → List ℕ
line_bytes [] = []
line_bytes (g ∷ gs) = written g ++ line_bytes gs

-- The line as plain_getc reads it: with its end, unless a form feed swallowed it
abbrev pub read_line : List Glyph → List Glyph
read_line gs = if ends_in_formfeed (line_bytes gs) then gs else gs ++ plain b'\n' ∷ []

-- What is printed for the characters of a line
abbrev pub print_glyphs : Settings → List Glyph → Job → Job
print_glyphs s [] j = j
print_glyphs s (g ∷ gs) j = print_glyphs s gs (ps_print_char s (shown g).0 (shown g).1 j)

-- Lines from number `n` on; the number of the line behind the last is set as well.
abbrev pub print_lines : Settings → ℕ → List (List Glyph) → Job → Job
print_lines s n [] j = set_lines n j
print_lines s n (gs ∷ lines) j =
    print_lines s (n + 1) lines (print_glyphs s (read_line gs) (set_lines n j))

-- How often plain_getc is called: once for a character, and once for the end
abbrev pub calls : List (List Glyph) → ℕ
calls [] = 1
calls (gs ∷ lines) = length (read_line gs) + calls lines

-- What plain_getc needs of a character: it is read back, and is not taken for a part of the last.
pub record Reads (g : Glyph) : Type 0 where
  pub reads :
      (lines : ℕ) (more : List ℕ)
      → at more 0 == backspace ≡ false
      → read_char lines (written g ++ more) ≡ over (shown g).0 (shown g).1 (skips g)
  pub begins : (more : List ℕ) → at (written g ++ more) 0 == backspace ≡ false

written-begins :
    (g : Glyph) (more : List ℕ) → IsGlyph g → at (written g ++ more) 0 == backspace ≡ false
written-begins (plain c) more h = ne→== c backspace h.1
written-begins (strong c) more h = ne→== c backspace h.1
written-begins (stronger c) more h = ne→== c backspace h.1
written-begins (strongest c) more h = ne→== c backspace h.1
written-begins (heaviest c) more h = ne→== c backspace h.1
written-begins (underlined_after c) more h = ne→== c backspace h.0.1
written-begins (underlined c) more h = refl
written-begins (underlined_heaviest c) more h = refl
written-begins circled_plus more h = refl
written-begins plus_circled more h = refl
written-begins copyright more h = refl
written-begins plus_minus more h = refl
written-begins greater_equal more h = refl
written-begins less_equal more h = refl

IsGlyph-Reads : (g : Glyph) → IsGlyph g → Reads g
IsGlyph-Reads g h = record {
  reads = λ lines more e. read_char-written lines g more h e;
  begins = λ more. written-begins g more h;
}

newline-Reads : Reads (plain b'\n')
newline-Reads = record { reads = read_char-newline; begins = λ more. refl }

All-Reads : (gs : List Glyph) → All IsGlyph gs → All Reads gs
All-Reads [] h = tt
All-Reads (g ∷ gs) h = (IsGlyph-Reads g h.0, All-Reads gs h.1)

pub read_line-Reads : (gs : List Glyph) → All IsGlyph gs → All Reads (read_line gs)
read_line-Reads gs h = elim (Bool-cases (ends_in_formfeed (line_bytes gs))) [
  | inl e ↦ rw e (All-Reads gs h)
  | inr e ↦ rw e (All-append Reads gs (plain b'\n' ∷ []) (All-Reads gs h) (newline-Reads, tt))
]

line_bytes-append : (gs hs : List Glyph) → line_bytes (gs ++ hs) ≡ line_bytes gs ++ line_bytes hs
line_bytes-append [] hs = refl
line_bytes-append (g ∷ gs) hs =
    rw (line_bytes-append gs hs) (sym (append_assoc (written g) (line_bytes gs) (line_bytes hs)))

pub line_bytes-read_line : (gs : List Glyph) → line_of (line_bytes gs) ≡ line_bytes (read_line gs)
line_bytes-read_line gs = elim (Bool-cases (ends_in_formfeed (line_bytes gs))) [
  | inl e ↦ rw e
  | inr e ↦ rw e (sym (line_bytes-append gs (plain b'\n' ∷ [])))
]

written-IsPlain : (g : Glyph) → IsGlyph g → All IsPlain (written g)
written-IsPlain (plain c) h = ground arith
written-IsPlain (strong c) h = ground arith
written-IsPlain (stronger c) h = ground arith
written-IsPlain (strongest c) h = ground arith
written-IsPlain (heaviest c) h = ground arith
written-IsPlain (underlined c) h = ground arith
written-IsPlain (underlined_after c) h = ground arith
written-IsPlain (underlined_heaviest c) h = ground arith
written-IsPlain circled_plus h = ground arith
written-IsPlain plus_circled h = ground arith
written-IsPlain copyright h = ground arith
written-IsPlain plus_minus h = ground arith
written-IsPlain greater_equal h = ground arith
written-IsPlain less_equal h = ground arith

pub line_bytes-IsPlain : (gs : List Glyph) → All IsGlyph gs → All IsPlain (line_bytes gs)
line_bytes-IsPlain [] h = tt
line_bytes-IsPlain (g ∷ gs) h =
    All-append IsPlain (written g) (line_bytes gs) (written-IsPlain g h.0)
      (line_bytes-IsPlain gs h.1)

pub line_of-nonempty : (body : List ℕ) → 0 < length (line_of body)
line_of-nonempty [] = omega arith
line_of-nonempty (c ∷ body) = elim (Bool-cases (ends_in_formfeed (c ∷ body))) [
  | inl e ↦ rw e (omega arith)
  | inr e ↦ rw e (omega arith)
]

pub map-line_bytes-IsPlain :
    (lines : List (List Glyph)) → All (All IsGlyph) lines → All (All IsPlain) (map line_bytes lines)
map-line_bytes-IsPlain [] h = tt
map-line_bytes-IsPlain (gs ∷ lines) h =
    (line_bytes-IsPlain gs h.0, map-line_bytes-IsPlain lines h.1)
