-- ===== src/Read/Print.antt =====
-- The loop of plain_print_postscript over the lines of a stream.
use a2ps.Prelude.{
  ℕ, suc, ◌+◌, ◌-◌, ◌≤◌, ◌<◌, ◌≡◌, refl, ◌∙◌, ap, subst, ◌==◌, ne→==, true, false, Option, List, [],
  ◌∷◌, map, All, some, none, length, arith,
}
use a2ps.Buffer.{Eol, Buffer, buffer_get, buffer_stream_set, buffer_internal_set, finish_line}
use a2ps.Buffer.Lines.{
  Mark, Accepts, encode, encode-Clear, line_of, Gets, get_line-Gets, get_end-Gets,
}
use a2ps.PsGen.{Settings, Job}
use a2ps.PsGen.Print.{ps_print_char}
use a2ps.Read.{at, backspace, after_get, plain_getc, plain_print_postscript, set_lines}
use a2ps.Read.Nroff.{Glyph, shown, IsGlyph}
use a2ps.Read.Lines.{
  line_bytes, read_line, print_glyphs, print_lines, calls, Reads, read_line-Reads,
  line_bytes-read_line, line_bytes-IsPlain, line_of-nonempty, map-line_bytes-IsPlain,
}
use a2ps.Read.InLine.{
  InLine, InLine-not_empty, InLine-empty, same_loop, InLine-behind, getc-glyph, behind, next,
}

-- What is left when a line was printed to its end
record Ended (eol : Eol) (rest : List ℕ) (n : ℕ) (loop : Buffer → Job → Option Job) (j : Job)
    (result : Option Job) : Type 0 where
  last : Buffer
  at_end : InLine eol rest [] last
  counted : last.line ≡ n
  goes_on : result ≡ loop last j

module _ (tolower : ℕ → ℕ) (eol : Eol) (rest : List ℕ) (s : Settings) (fuel : ℕ) where
  line_bytes-begins : (gs : List Glyph) → All Reads gs → at (line_bytes gs) 0 == backspace ≡ false
  line_bytes-begins [] h = refl
  line_bytes-begins (g ∷ gs) h = h.0.begins (line_bytes gs)

  loop-glyphs :
      (gs : List Glyph) (b : Buffer) (j : Job)
      → All Reads gs
      → InLine eol rest (line_bytes gs) b
      → Ended eol rest b.line
          (plain_print_postscript tolower s fuel)
          (print_glyphs s gs j)
          (plain_print_postscript tolower s (length gs + fuel) b j)
  unfolding plain_print_postscript
  loop-glyphs [] b j r h =
      let e : 0 + fuel ≡ fuel = omega arith in
      record {
        last = b;
        at_end = h;
        counted = refl;
        goes_on = ap (λ k. plain_print_postscript tolower s k b j) e;
      }
  loop-glyphs (g ∷ gs) b j r h =
      let e : suc (length gs) + fuel ≡ suc (length gs + fuel) = omega arith in
      let got =
        getc-glyph tolower eol rest b g (line_bytes gs) j r.0 (line_bytes-begins gs r.1) h in
      let later =
        loop-glyphs gs (behind g b) (ps_print_char s (shown g).0 (shown g).1 j) r.1
          (InLine-behind tolower eol rest b g (line_bytes gs) h) in
      record {
        last = later.last;
        at_end = later.at_end;
        counted = later.counted;
        goes_on =
            ap (λ k. plain_print_postscript tolower s k b j) e
            ∙ ap (next s (plain_print_postscript tolower s (length gs + fuel))) got
            ∙ later.goes_on;
      }

module _ (tolower : ℕ → ℕ) (eol : Eol) where
  -- Behind a line, plain_getc gets the next one.
  getc-empty :
      (rest : List ℕ) (b : Buffer) (j : Job)
      → InLine eol rest [] b
      → plain_getc tolower b j ≡ after_get (buffer_get tolower b) j
  unfolding plain_getc
  getc-empty rest b j h = rw (InLine-empty eol rest b h)

  got-InLine :
      (gs : List Glyph) (rest : List ℕ) (b : Buffer)
      → Gets tolower eol (line_of (line_bytes gs)) rest b
      → InLine eol rest (line_bytes (read_line gs)) (buffer_get tolower b)
  unfolding buffer_get finish_line
  got-InLine gs rest b g = record {
    between = g.0;
    unread = g.1 ∙ line_bytes-read_line gs;
    measured = refl;
  }

  after_get-line :
      (gs : List Glyph) (rest : List ℕ) (b : Buffer) (j : Job)
      → Gets tolower eol (line_of (line_bytes gs)) rest b
      → after_get (buffer_get tolower b) j
        ≡ plain_getc tolower (buffer_get tolower b) (set_lines (buffer_get tolower b).line j)
  unfolding plain_getc after_get
  after_get-line gs rest b j g =
      let inside = got-InLine gs rest b g in
      let left : 0 < length (line_bytes (read_line gs)) =
        subst (λ l. 0 < length l) (line_bytes-read_line gs) (line_of-nonempty (line_bytes gs)) in
      let len =
        ne→== (buffer_get tolower b).len 0 (omega (arith, line_of-nonempty (line_bytes gs), g.2)) in
      rw (len, InLine-not_empty eol rest (buffer_get tolower b) _ left inside)

  -- Behind the last line, plain_getc tells the end.
  after_get-end :
      (b : Buffer) (j : Job)
      → Gets tolower eol [] [] b
      → after_get (buffer_get tolower b) j
        ≡ record { char = none; buffer = buffer_get tolower b; job = set_lines (b.line + 1) j }
  unfolding after_get
  after_get-end b j g =
      let none_left : (buffer_get tolower b).len == 0 ≡ true = ap (λ n. n == 0) g.2 in
      rw none_left
        (ap (λ n. record { char = none; buffer = buffer_get tolower b; job = set_lines n j }) g.3)

  module _ (m : Mark) (s : Settings) (a : Accepts eol m) where
    loop-lines :
        (lines : List (List Glyph)) (fuel : ℕ) (b : Buffer) (j : Job)
        → All (All IsGlyph) lines
        → InLine eol (encode m (map line_bytes lines)) [] b
        → plain_print_postscript tolower s (calls lines + fuel) b j
          ≡ some (print_lines s (b.line + 1) lines j)
    unfolding plain_print_postscript after_get
    loop-lines [] fuel b j ps h =
        let e : 1 + fuel ≡ suc fuel = omega arith in
        ap (λ k. plain_print_postscript tolower s k b j) e
        ∙ ap (next s (plain_print_postscript tolower s fuel))
            (getc-empty [] b j h ∙ after_get-end b j (get_end-Gets tolower eol b h.between))
    loop-lines (gs ∷ lines) fuel b j ps h =
        let rest = encode m (map line_bytes lines) in
        let clear = encode-Clear m (map line_bytes lines) (map-line_bytes-IsPlain lines ps.1) in
        let plain_bytes = line_bytes-IsPlain gs ps.0 in
        let g = get_line-Gets tolower eol m (line_bytes gs) rest b a plain_bytes clear h.between in
        let b1 = buffer_get tolower b in
        let calls_left : (length (read_line gs) + calls lines) + fuel
            ≡ length (read_line gs) + (calls lines + fuel) =
          omega arith in
        let ended =
          loop-glyphs tolower eol rest s (calls lines + fuel) (read_line gs) b1
            (set_lines b1.line j) (read_line-Reads gs ps.0) (got-InLine gs rest b g) in
        ap (λ k. plain_print_postscript tolower s k b j) calls_left
        ∙ same_loop tolower s (length (read_line gs) + (calls lines + fuel)) b b1 j
            (set_lines b1.line j) (getc-empty _ b j h ∙ after_get-line gs rest b j g)
        ∙ ended.goes_on
        ∙ loop-lines lines fuel ended.last (print_glyphs s (read_line gs) (set_lines b1.line j))
            ps.1 ended.at_end
        ∙ ap
            (λ n.
              some
                (print_lines s (n + 1) lines (print_glyphs s (read_line gs) (set_lines b1.line j))))
            ended.counted
        ∙ ap
            (λ n.
              some (print_lines s (n + 1) lines (print_glyphs s (read_line gs) (set_lines n j))))
            g.3

-- A stream of lines of characters, overstruck as nroff does and none of them a line end or a
-- backspace, whose lines end in a mark that the style of line ends takes, is printed character by
-- character, each as its byte and in its face, under the number of its line: if an underlined
-- character is no underscore and one before its underscore no plus. With one call of plain_getc
-- for each character, for each end of a line that no form feed swallowed, and for the end of the
-- stream, the loop ends.
pub plain_print_postscript-nroff :
    (tolower : ℕ → ℕ) (eol : Eol) (m : Mark) (s : Settings) (lines : List (List Glyph)) (fuel : ℕ)
    (j : Job)
    → Accepts eol m
    → All (All IsGlyph) lines
    → calls lines ≤ fuel
    → plain_print_postscript tolower s fuel
        (buffer_stream_set (encode m (map line_bytes lines)) eol)
        j
      ≡ some (print_lines s 1 lines j)
unfolding buffer_internal_set
plain_print_postscript-nroff tolower eol m s lines fuel j a ps enough =
    let b = buffer_stream_set (encode m (map line_bytes lines)) eol in
    let e : fuel ≡ calls lines + (fuel - calls lines) = omega arith in
    ap (λ k. plain_print_postscript tolower s k b j) e
    ∙ loop-lines tolower eol m s a lines (fuel - calls lines) b j ps
        (record { between = (refl, refl, refl, refl); unread = refl; measured = refl })
