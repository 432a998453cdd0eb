-- ===== src/Read/Nroff.antt =====
-- The characters as nroff overstrikes them, and what plain_getc takes them for.
use a2ps.Prelude.{
  ℕ, suc, ◌≡◌, ◌≢◌, refl, ◌==◌, ne→==, ==_refl, Bool, ◌&&◌, true, false, List, [], ◌∷◌, ◌++◌,
  length, arith,
}
use a2ps.Buffer.Lines.{IsPlain}
use a2ps.Read.{
  backspace, at, over, overstrike, read_char, plain_face, keyword, keyword_strong, label_strong,
  symbol,
}

-- `strong` and `strongest` are printed over themselves, the underlined ones over an underscore.
pub data Glyph : Type 0 where
  plain strong stronger strongest heaviest : ℕ → Glyph
  underlined underlined_after underlined_heaviest : ℕ → Glyph
  circled_plus plus_circled copyright plus_minus greater_equal less_equal : Glyph

abbrev pub written : Glyph → List ℕ
written (plain c) = c ∷ []
written (strong c) = c ∷ backspace ∷ c ∷ []
written (stronger c) = c ∷ backspace ∷ c ∷ backspace ∷ c ∷ []
written (strongest c) = c ∷ backspace ∷ c ∷ backspace ∷ c ∷ backspace ∷ c ∷ []
written (heaviest c) = c ∷ backspace ∷ c ∷ backspace ∷ c ∷ backspace ∷ c ∷ backspace ∷ c ∷ []
written (underlined c) = b'_' ∷ backspace ∷ c ∷ []
written (underlined_after c) = c ∷ backspace ∷ b'_' ∷ []
written (underlined_heaviest c) =
    b'_' ∷ backspace ∷ c ∷ backspace ∷ c ∷ backspace ∷ c ∷ backspace ∷ c ∷ []
written circled_plus = b'o' ∷ backspace ∷ b'+' ∷ []
written plus_circled = b'+' ∷ backspace ∷ b'o' ∷ []
written copyright = b'c' ∷ backspace ∷ b'O' ∷ []
written plus_minus = b'+' ∷ backspace ∷ b'_' ∷ []
written greater_equal = b'~' ∷ backspace ∷ b'>' ∷ backspace ∷ b'_' ∷ []
written less_equal = b'~' ∷ backspace ∷ b'<' ∷ backspace ∷ b'_' ∷ []

-- The byte and the face that stand for it
abbrev pub shown : Glyph → ℕ × ℕ
shown (plain c) = (c, plain_face)
shown (strong c) = (c, keyword_strong)
shown (stronger c) = (c, keyword_strong)
shown (strongest c) = (c, keyword_strong)
shown (heaviest c) = (c, label_strong)
shown (underlined c) = (c, keyword)
shown (underlined_after c) = (c, keyword)
shown (underlined_heaviest c) = (c, label_strong)
shown circled_plus = (197, symbol)
shown plus_circled = (197, symbol)
shown copyright = (227, symbol)
shown plus_minus = (177, symbol)
shown greater_equal = (179, symbol)
shown less_equal = (163, symbol)

abbrev pub IsChar : ℕ → Type 0
IsChar c = IsPlain c × (c ≢ backspace)

-- No line end and no backspace; an underlined character is no underscore, and a plus before its
-- underscore is the symbol.
abbrev pub IsGlyph : Glyph → Type 0
IsGlyph (plain c) = IsChar c
IsGlyph (strong c) = IsChar c
IsGlyph (stronger c) = IsChar c
IsGlyph (strongest c) = IsChar c
IsGlyph (heaviest c) = IsChar c
IsGlyph (underlined c) = IsChar c × (c ≢ b'_')
IsGlyph (underlined_after c) = IsChar c × (c ≢ b'_') × (c ≢ b'+')
IsGlyph (underlined_heaviest c) = IsChar c × (c ≢ b'_')
IsGlyph _ = Unit

abbrev pub skips : Glyph → ℕ
skips (plain c) = 0
skips (strong c) = 2
skips (stronger c) = 4
skips (strongest c) = 6
skips (heaviest c) = 8
skips (underlined c) = 2
skips (underlined_after c) = 2
skips (underlined_heaviest c) = 8
skips circled_plus = 2
skips plus_circled = 2
skips copyright = 2
skips plus_minus = 2
skips greater_equal = 4
skips less_equal = 4

pub length-written : (g : Glyph) → length (written g) ≡ suc (skips g)
length-written (plain c) = refl
length-written (strong c) = refl
length-written (stronger c) = refl
length-written (strongest c) = refl
length-written (heaviest c) = refl
length-written (underlined c) = refl
length-written (underlined_after c) = refl
length-written (underlined_heaviest c) = refl
length-written circled_plus = refl
length-written plus_circled = refl
length-written copyright = refl
length-written plus_minus = refl
length-written greater_equal = refl
length-written less_equal = refl

flip : (a b : ℕ) → a == b ≡ false → b == a ≡ false
flip a b h = ground arith

and-false : (b : Bool) → (b && false) ≡ false
and-false true = refl
and-false false = refl

pub read_char-written :
    (lines : ℕ) (g : Glyph) (more : List ℕ)
    → IsGlyph g
    → at more 0 == backspace ≡ false
    → read_char lines (written g ++ more) ≡ over (shown g).0 (shown g).1 (skips g)
unfolding read_char overstrike
read_char-written lines (plain c) more h e = rw e
read_char-written lines (strong c) more h e = rw (==_refl c, flip _ _ e)
read_char-written lines (stronger c) more h e = rw (==_refl c, flip _ _ e)
read_char-written lines (strongest c) more h e = rw (==_refl c, flip _ _ e)
read_char-written lines (heaviest c) more h e = rw (==_refl c) refl
read_char-written lines (underlined c) more h e =
    rw (flip _ _ (ne→== c b'_' h.1), ==_refl c, flip _ _ e)
read_char-written lines (underlined_after c) more h e = rw (
  ne→== c b'_' h.1,
  flip _ _ (ne→== c b'+' h.2),
  and-false (b'o' == c),
  and-false (b'c' == c),
  and-false (b'~' == c),
)
read_char-written lines (underlined_heaviest c) more h e =
    rw (flip _ _ (ne→== c b'_' h.1), ==_refl c)
read_char-written lines circled_plus more h e = refl
read_char-written lines plus_circled more h e = refl
read_char-written lines copyright more h e = refl
read_char-written lines plus_minus more h e = refl
read_char-written lines greater_equal more h e = refl
read_char-written lines less_equal more h e = refl

-- The end of a line is read as it is.
pub read_char-newline :
    (lines : ℕ) (more : List ℕ)
    → at more 0 == backspace ≡ false
    → read_char lines (b'\n' ∷ more) ≡ over b'\n' plain_face 0
unfolding read_char
read_char-newline lines more e = rw e
