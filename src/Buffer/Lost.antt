-- ===== src/Buffer/Lost.antt =====
-- Bytes that the lines lose: the byte 255 in strings, and the last byte behind a form feed.
use a2ps.Prelude.{
  ℕ, suc, drop, some, ltb, ◌≤◌, true, false, ◌+◌, ◌-◌, ◌≡◌, refl, ap, ◌∙◌, sym, List, [], ◌∷◌, ◌++◌,
  All, All-append, length, length-append, get_or, take, append_assoc, append-nil, arith, lt→ltb,
  leb, le→leb,
}
use a2ps.Buffer.{
  Eol, finish_line, Buffer, stream_get_line, string_get_line, buffer_fill, trim_formfeed,
  buffer_get, buffer_stream_set, buffer_internal_set, reading,
}
use a2ps.Buffer.Dump.{buffer_sample_get, sample_size}
use a2ps.Buffer.Strings.{IsText, string_get_line-body, string_get_line-mark}
use a2ps.Buffer.Saved.{buffer_sample_get-stream}
use a2ps.Buffer.Lines.{
  Mark, lf, cr, crlf, lfcr, mark_bytes, Accepts, Clear, line_of, gets, get_line-mark,
  trim_formfeed-line, IsPlain, get_line-body, take-length-append,
}

drop-length-append : (xs ys : List ℕ) → drop (length xs) (xs ++ ys) ≡ ys
drop-length-append [] ys = refl
drop-length-append (x ∷ xs) ys = drop-length-append xs ys

drop-first : (cs : List ℕ) (c : ℕ) (rest : List ℕ) → drop (suc (length cs)) (cs ++ c ∷ rest) ≡ rest
drop-first [] c rest = refl
drop-first (d ∷ cs) c rest = drop-first cs c rest

cut-append :
    (xs ys : List ℕ) (n : ℕ) → length xs ≡ n → (take n (xs ++ ys) ≡ xs) × (drop n (xs ++ ys) ≡ ys)
cut-append xs ys n h =
    let d : drop (length xs) (xs ++ ys) ≡ ys = drop-length-append xs ys in
    rw (← h) (take-length-append xs ys, d)

mark-tail : (m : Mark) (tail : List ℕ) → 1 ≤ length (mark_bytes m ++ tail)
mark-tail lf tail = omega arith
mark-tail cr tail = omega arith
mark-tail crlf tail = omega arith
mark-tail lfcr tail = omega arith

module _ (tolower : ℕ → ℕ) (eol : Eol) (m : Mark) (body next tail after later : List ℕ)
    (a : Accepts eol m) (clear_tail : Clear m tail) (clear_later : Clear m later)
    (h : All IsText body) (p : All IsText next) (q : All IsPlain after) where
  abbrev string : List ℕ
  string = body ++ 255 ∷ (next ++ (mark_bytes m ++ tail))

  abbrev stream : List ℕ
  stream = after ++ (mark_bytes m ++ later)

  -- A buffer that has the string up to `offset` and this stream to read
  abbrev position : ℕ → List ℕ → Buffer → Buffer
  position offset rest b = record b {
    buf = some string;
    bufoffset = offset;
    stream = some rest;
    obstack = [];
    eol = eol;
  }

  within : (offset : ℕ) → offset ≤ length body → ltb offset (length string) ≡ true
  within offset l =
      lt→ltb offset (length string)
        (omega (arith, length-append body (255 ∷ (next ++ (mark_bytes m ++ tail)))))

  within_next : ltb (suc (length body)) (length string) ≡ true
  within_next = lt→ltb (suc (length body)) (length string) (
      omega (
        arith,
        length-append body (255 ∷ (next ++ (mark_bytes m ++ tail))),
        length-append next (mark_bytes m ++ tail),
        mark-tail m tail,
      ))

  -- The first call stops in the string at the byte 255, and ends the line in the stream.
  first_line :
      (b : Buffer)
      → buffer_fill (position 0 stream b)
        ≡ record (position (suc (length body)) later b) { obstack = (body ++ after) ++ b'\n' ∷ [] }
  unfolding buffer_fill string_get_line
  first_line b =
      let count : 0 + length body + 1 ≡ suc (length body) = omega arith in
      rw (
        within 0 (omega arith),
        string_get_line-body eol [] body 0 (255 ∷ (next ++ (mark_bytes m ++ tail))) h,
        get_line-body eol body after (mark_bytes m ++ later) q,
        get_line-mark eol m (body ++ after) later a clear_later,
        count,
      )

  -- The second call finds the rest of the string.
  next_line :
      (b : Buffer)
      → (buffer_fill (position (suc (length body)) later b)).obstack ≡ next ++ b'\n' ∷ []
  unfolding buffer_fill
  next_line b =
      let mark =
        string_get_line-mark eol m next (suc (length body) + length next) tail a clear_tail in
      rw (
        within_next,
        drop-first body 255 (next ++ (mark_bytes m ++ tail)),
        string_get_line-body eol [] next (suc (length body)) (mark_bytes m ++ tail) p,
        mark.1,
        mark.0,
      )

  -- The first 512 bytes of a stream are a text without line ends, the byte 255, a second such
  -- text, both without that byte, a mark that the style of line ends takes, and a tail; behind
  -- them stand a third text without line ends, the mark again, and the rest, and neither the tail
  -- nor the rest can be taken for a part of the mark. After the sample was taken, the first call
  -- of buffer_get leaves the first text joined to the third as one line, and the second call goes
  -- back to the second text: the byte is lost, and the lines come out of order, each ended by one
  -- `\n`, or by its form feed alone if it ends in one.
  pub buffer_get_255 :
      length string ≡ sample_size
      → gets tolower 2 (buffer_sample_get (buffer_stream_set (string ++ stream) eol)).0
        ≡ line_of (body ++ after) ∷ line_of next ∷ []
  unfolding gets buffer_get buffer_internal_set finish_line
  buffer_get_255 full =
      let b = buffer_stream_set (string ++ stream) eol in
      let (taken, left) = cut-append string stream sample_size full in
      let start : (buffer_sample_get b).0 ≡ position 0 stream b =
        ap (λ s. s.0) (buffer_sample_get-stream (string ++ stream) b refl) ∙ cc (taken, left) in
      let first = record (position (suc (length body)) later b) {
        obstack = (body ++ after) ++ b'\n' ∷ [];
      } in
      let between_lines = finish_line tolower first in
      ap (gets tolower 2) start
      ∙ ap
          (λ filled.
            (finish_line tolower filled).content ∷ gets tolower 1 (finish_line tolower filled))
          (first_line b)
      ∙ two_lines (trim_formfeed-line (body ++ after))
          (ap trim_formfeed (next_line between_lines) ∙ trim_formfeed-line next)
    where
      two_lines :
          {x x' y y' : List ℕ}
          → x ≡ x'
          → y ≡ y'
          → ◌≡◌ {A = List (List ℕ)} (x ∷ y ∷ []) (x' ∷ y' ∷ [])
      two_lines f g = cc (f, g)

get_line-unended :
    (eol : Eol) (body : List ℕ)
    → All IsPlain body
    → stream_get_line eol [] body ≡ reading body [] false
unfolding stream_get_line
get_line-unended eol body h =
    ap (stream_get_line eol []) (sym (append-nil body)) ∙ get_line-body eol [] body [] h

get_or-behind : (body more : List ℕ) (x d : ℕ) → get_or (body ++ x ∷ more) (length body) d ≡ x
get_or-behind [] more x d = refl
get_or-behind (y ∷ body) more x d = get_or-behind body more x d

trim_formfeed-last :
    (body : List ℕ) (c : ℕ) → trim_formfeed (body ++ b'\x0c' ∷ c ∷ []) ≡ body ++ b'\x0c' ∷ []
unfolding trim_formfeed
trim_formfeed-last body c =
    let text = body ++ b'\x0c' ∷ c ∷ [] in
    let n : length text ≡ length body + 2 = length-append body (b'\x0c' ∷ c ∷ []) in
    let before : length body + 2 - 2 ≡ length body = omega arith in
    let cut : length body + 2 - 1 ≡ length (body ++ b'\x0c' ∷ []) =
      omega (arith, length-append body (b'\x0c' ∷ [])) in
    let two : leb 2 (length body + 2) ≡ true = le→leb 2 (length body + 2) (omega arith) in
    rw (n, before, cut, two, get_or-behind body (c ∷ []) b'\x0c' 0)
      (ap (take (length (body ++ b'\x0c' ∷ []))) (sym (append_assoc body (b'\x0c' ∷ []) (c ∷ [])))
        ∙ take-length-append (body ++ b'\x0c' ∷ []) (c ∷ []))

-- The last line of a stream, with no end but with a form feed before its last byte, loses that
-- byte, whatever byte it is but a line end.
pub buffer_get_unended_formfeed :
    (tolower : ℕ → ℕ) (eol : Eol) (body : List ℕ) (c : ℕ)
    → All IsPlain body
    → IsPlain c
    → (buffer_get tolower (buffer_stream_set (body ++ b'\x0c' ∷ c ∷ []) eol)).content
      ≡ body ++ b'\x0c' ∷ []
unfolding buffer_get buffer_fill buffer_internal_set
buffer_get_unended_formfeed tolower eol body c h p =
    rw
      (get_line-unended eol (body ++ b'\x0c' ∷ c ∷ [])
        (All-append IsPlain body (b'\x0c' ∷ c ∷ []) h ((ground arith, ground arith), (p, tt))))
      (trim_formfeed-last body c)
