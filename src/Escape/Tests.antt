-- ===== src/Escape/Tests.antt =====
-- ps_escape_char run on small texts, and its theorems there.
use a2ps.Prelude.{
  inr, ℕ, ◌+◌, ◌*◌, ◌≡◌, refl, false, List, [], ◌∷◌, ltb, leb, ◌==◌, ◌&&◌, ◌||◌, if◌then◌else◌,
  arith,
}
use a2ps.Escape.{caret, octal, emacs, ps_escape_char, char_wx, string_wx, char_exists, escape_text}
use a2ps.Escape.Decode.{in_text, scan, run, decode, visible}
use a2ps.Escape.Width.{sum_wx, char_wx-visible}
use a2ps.Escape.Text.{visible_text, ps_escape_char-visible, escape_text-visible, escape_text-merged}

program : Unit {0}
unfolding ps_escape_char char_wx string_wx escape_text scan run decode
program = tt

-- An encoding that has the printable characters, the byte 7 and the bytes from 160 on
abbrev latin : ℕ → ℕ
latin c = if c == 7 || (leb 32 c && ltb c 127) || leb 160 c then 600 else 0

abbrev text : List ℕ
text = b'(' ∷ 9 ∷ 233 ∷ 130 ∷ b'1' ∷ []

text_escaped :
    escape_text caret latin text
    ≡ b'\\' ∷ b'(' ∷ b'^' ∷ b'I' ∷ b'\\' ∷ b'3' ∷ b'5' ∷ b'1' ∷ b'M' ∷ b'-' ∷ b'^' ∷ b'B' ∷ b'1'
      ∷ []
unfolding program
text_escaped = refl

text_wx : string_wx caret latin text ≡ 5400
unfolding program
text_wx = refl

ps_escape_char-visible_example :
    let e = ps_escape_char emacs false [] 130 in
    (run in_text e.res ≡ (b'M' ∷ b'-' ∷ b'C' ∷ b'-' ∷ b'B' ∷ [], in_text)) × (e.columns ≡ 5)
ps_escape_char-visible_example = ps_escape_char-visible emacs false 130 (ground arith, ground arith)

escape_text-visible_example :
    decode in_text (escape_text octal latin text) ≡ visible_text octal latin text
escape_text-visible_example = escape_text-visible octal latin text (ground arith)

escape_text-merged_example :
    decode in_text (escape_text octal latin (7 ∷ (b'0' + 1) ∷ [])) ≡ (7 * 8 + 1) ∷ []
escape_text-merged_example = escape_text-merged octal latin 7 1 (omega arith) (omega arith) refl

char_wx-visible_example :
    char_wx caret latin 130 ≡ sum_wx latin (visible caret (char_exists latin 130) 130)
char_wx-visible_example =
    char_wx-visible caret latin 130 (λ e. inr (ground arith)) (λ e. ground arith)
