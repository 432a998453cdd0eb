-- ===== src/Read/InLine.antt =====
-- A line that is being read, character by character.
use a2ps.Prelude.{
  ℕ, zero, suc, ◌+◌, ◌-◌, ◌<◌, ◌≡◌, refl, sym, ◌∙◌, ap, ◌==◌, le→leb, lt→leb, true, false, Option,
  List, [], ◌∷◌, ◌++◌, some, none, length, length-append, length-drop, drop, arith,
}
use a2ps.Buffer.{Eol, Buffer, buffer_is_empty}
use a2ps.Buffer.Lines.{Between}
use a2ps.PsGen.{Settings, Job}
use a2ps.PsGen.Print.{ps_print_char}
use a2ps.Read.{at, backspace, take_char, plain_getc, plain_print_postscript, Got}
use a2ps.Read.Nroff.{Glyph, written, shown, skips, length-written}
use a2ps.Read.Lines.{Reads}

-- A line is being read: `text` is unread of it, and `rest` of the stream.
pub record InLine (eol : Eol) (rest text : List ℕ) (b : Buffer) : Type 0 where
  pub between : Between eol rest b
  pub unread : drop b.curr b.content ≡ text
  pub measured : b.len ≡ length b.content

drop-nil : (n : ℕ) → drop {A = ℕ} n [] ≡ []
drop-nil zero = refl
drop-nil (suc n) = refl

drop-drop : (n m : ℕ) (xs : List ℕ) → drop (n + m) xs ≡ drop m (drop n xs)
drop-drop zero m xs = let e : 0 + m ≡ m = omega arith in ap (λ k. drop k xs) e
drop-drop (suc n) m [] =
    let e : suc n + m ≡ suc (n + m) = omega arith in ap (λ k. drop k []) e ∙ sym (drop-nil m)
drop-drop (suc n) m (x ∷ xs) =
    let e : suc n + m ≡ suc (n + m) = omega arith in ap (λ k. drop k (x ∷ xs)) e ∙ drop-drop n m xs

drop-length-append : (n : ℕ) (xs ys : List ℕ) → length xs ≡ n → drop n (xs ++ ys) ≡ ys
drop-length-append zero [] ys h = refl
drop-length-append (suc n) (x ∷ xs) ys h = drop-length-append n xs ys (omega arith)
drop-length-append zero (x ∷ xs) ys h = absurd (omega arith)
drop-length-append (suc n) [] ys h = absurd (omega arith)

module _ (eol : Eol) (rest : List ℕ) (b : Buffer) where
  length-unread : (text : List ℕ) → InLine eol rest text b → length text ≡ b.len - b.curr
  length-unread text h =
      ap length (sym h.unread)
      ∙ length-drop b.curr b.content
      ∙ ap (λ n. n - b.curr) (sym h.measured)

  pub InLine-not_empty :
      (text : List ℕ) → 0 < length text → InLine eol rest text b → buffer_is_empty b ≡ false
  InLine-not_empty text l h = lt→leb b.curr b.len (omega (arith, length-unread text h))

  pub InLine-empty : InLine eol rest [] b → buffer_is_empty b ≡ true
  InLine-empty h = le→leb b.len b.curr (omega (arith, length-unread [] h))

abbrev pub next : Settings → (Buffer → Job → Option Job) → Got → Option Job
next s loop got = elim got.char [
  | none ↦ some got.job
  | some (c, face) ↦ loop got.buffer (ps_print_char s c face got.job)
]

-- The loop goes on in the same way from where plain_getc does the same.
pub same_loop :
    (tolower : ℕ → ℕ) (s : Settings) (fuel : ℕ) (b b' : Buffer) (j j' : Job)
    → plain_getc tolower b j ≡ plain_getc tolower b' j'
    → plain_print_postscript tolower s fuel b j ≡ plain_print_postscript tolower s fuel b' j'
unfolding plain_print_postscript
same_loop tolower s zero b b' j j' h = refl
same_loop tolower s (suc fuel) b b' j j' h = ap (next s (plain_print_postscript tolower s fuel)) h

-- The buffer behind a glyph
abbrev pub behind : Glyph → Buffer → Buffer
behind g b = record b { curr = b.curr + 1 + skips g }

module _ (tolower : ℕ → ℕ) (eol : Eol) (rest : List ℕ) (b : Buffer) (g : Glyph)
    (more : List ℕ) where
  pub InLine-behind : InLine eol rest (written g ++ more) b → InLine eol rest more (behind g b)
  InLine-behind h =
      let step : b.curr + 1 + skips g ≡ b.curr + suc (skips g) = omega arith in
      record {
        between = h.between;
        unread =
            ap (λ n. drop n b.content) step
            ∙ drop-drop b.curr (suc (skips g)) b.content
            ∙ ap (drop (suc (skips g))) h.unread
            ∙ drop-length-append (suc (skips g)) (written g) more (length-written g);
        measured = h.measured;
      }

  pub getc-glyph :
      (j : Job)
      → Reads g
      → at more 0 == backspace ≡ false
      → InLine eol rest (written g ++ more) b
      → plain_getc tolower b j ≡ record { char = some (shown g); buffer = behind g b; job = j }
  unfolding plain_getc take_char
  getc-glyph j r e h =
      let long = length-append (written g) more in
      let some_left : 0 < length (written g ++ more) = omega (arith, long, length-written g) in
      rw (
        InLine-not_empty eol rest b (written g ++ more) some_left h,
        h.unread,
        r.reads j.current_file.lines more e,
      )
