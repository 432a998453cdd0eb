-- ===== src/Buffer/Sample.antt =====
-- buffer_sample_get: the sample is read again as the string before the stream.
use a2ps.Prelude.{
  ℕ, zero, suc, ◌+◌, ◌≤◌, ◌≡◌, ◌≢◌, refl, ap, ◌∙◌, ◌⊎◌, inl, inr, true, false, Bool-cases, List, [],
  ◌∷◌, ◌++◌, All, none, some, ◌<◌, length, take, drop, ◌==◌, if◌then◌else◌, ne→==, arith, ltb,
  ltb→lt, ltb→le, lt→ltb, le→ltb,
}
use native.Mathlib.Numerals.{add-one}
use a2ps.Buffer.{
  Eol, eol_r, eol_n, Buffer, verdict, plain, ends, reading, Reading, stream_get_line,
  string_get_line, buffer_fill, trim_formfeed, finish_line, buffer_get, buffer_stream_set,
  buffer_internal_set,
}
use a2ps.Buffer.Dump.{buffer_sample_get, sample_size}
use a2ps.Buffer.Saved.{take-drop, drop-end, buffer_sample_get-stream}
use a2ps.Buffer.Lines.{gets}

-- The styles whose line ends are one byte
abbrev pub IsSingle : Eol → Type 0
IsSingle eol_n = Unit
IsSingle eol_r = Unit
IsSingle _ = ⊥

-- Where the line ends are one byte the verdict does not look ahead.
verdict-single :
    (eol : Eol) (c : ℕ) (rest : List ℕ)
    → IsSingle eol
    → ((more : List ℕ) → verdict eol c more ≡ plain)
      ⊎ ((more : List ℕ) → verdict eol c more ≡ ends false)
unfolding verdict
verdict-single eol_n c rest s = elim (Bool-cases (c == b'\n')) [
  | inl end ↦ inr (λ more. rw (verdict, end))
  | inr other ↦ inl (λ more. ground arith)
]
verdict-single eol_r c rest s = elim (Bool-cases (c == b'\r')) [
  | inl end ↦ inr (λ more. ground arith)
  | inr other ↦ inl (λ more. ground arith)
]
verdict-single _ c rest s = absurd s

-- The reading of a text goes on behind its first part if the line does not end there.
abbrev continue : Eol → Reading → List ℕ → Reading
continue eol r ys =
    let longer = stream_get_line eol r.grown ys in
    if r.ended then reading r.grown (r.rest ++ ys) true else longer

get_line-append :
    (eol : Eol) (grown xs ys : List ℕ)
    → IsSingle eol
    → stream_get_line eol grown (xs ++ ys) ≡ continue eol (stream_get_line eol grown xs) ys
unfolding stream_get_line
get_line-append eol grown [] ys s = refl
get_line-append eol grown (c ∷ xs) ys s = elim (verdict-single eol c xs s) [
  | inl p ↦ rw (p (xs ++ ys), p xs, stream_get_line) (get_line-append eol (grown ++ c ∷ []) xs ys s)
  | inr e ↦ rw (e (xs ++ ys), e xs, stream_get_line)
]

get_line-unended :
    (eol : Eol) (grown xs : List ℕ)
    → (stream_get_line eol grown xs).ended ≡ false
    → (stream_get_line eol grown xs).rest ≡ []
unfolding stream_get_line
get_line-unended eol grown [] h = refl
get_line-unended eol grown (c ∷ xs) h = ground (arith, get_line-unended eol (grown ++ c ∷ []) xs)

drop-cons :
    (n : ℕ) (string : List ℕ) (c : ℕ) (cs : List ℕ)
    → drop n string ≡ c ∷ cs
    → drop (suc n) string ≡ cs
drop-cons zero [] c cs e = cc
drop-cons zero (x ∷ string) c cs e = cc
drop-cons (suc n) [] c cs e = cc
drop-cons (suc n) (x ∷ string) c cs e = drop-cons n string c cs e

drop-nil : (n : ℕ) (string : List ℕ) → drop n string ≡ [] → drop (suc n) string ≡ []
drop-nil zero [] e = refl
drop-nil zero (x ∷ string) e = cc
drop-nil (suc n) [] e = refl
drop-nil (suc n) (x ∷ string) e = drop-nil n string e

-- A string without the byte 255 is read as the stream of the same bytes.
string_get_line-stream :
    (eol : Eol) (string grown : List ℕ) (offset : ℕ) (cs : List ℕ)
    → IsSingle eol
    → drop offset string ≡ cs
    → All (λ c. c ≢ 255) cs
    → let s = string_get_line eol grown offset cs in
      let r = stream_get_line eol grown cs in
      (s.grown ≡ r.grown) × (s.ended ≡ r.ended) × (drop s.offset string ≡ r.rest)
unfolding string_get_line stream_get_line
string_get_line-stream eol string grown offset [] s d h =
    (refl, refl, rw add-one (drop-nil offset string d))
string_get_line-stream eol string grown offset (c ∷ cs) s d h = elim (verdict-single eol c cs s) [
  | inl p ↦
      rw (ne→== c 255 h.0, string_get_line, p cs, stream_get_line)
        (string_get_line-stream eol string (grown ++ c ∷ []) (offset + 1) cs s
          (rw add-one (drop-cons offset string c cs d)) h.1)
  | inr e ↦
      rw (ne→== c 255 h.0, string_get_line, e cs, stream_get_line)
        (refl, refl, rw add-one (drop-cons offset string c cs d))
]

-- A buffer between two lines, with a string read up to `offset`, and a stream behind it
abbrev mixed : Eol → List ℕ → ℕ → List ℕ → Buffer → Buffer
mixed eol sample offset rest b = record b {
  buf = some sample;
  bufoffset = offset;
  stream = some rest;
  obstack = [];
  eol = eol;
}

All-drop {ℓ κ} : {A : Type ℓ} (P : A → Type κ) (n : ℕ) (xs : List A) → All P xs → All P (drop n xs)
All-drop P zero xs h = h
All-drop P (suc n) [] h = h
All-drop P (suc n) (x ∷ xs) h = All-drop P n xs h.1

-- What buffer_fill makes of it: the first line of the string and the stream together
abbrev Fills : Eol → List ℕ → ℕ → List ℕ → Buffer → Buffer → Type 0
Fills eol sample offset rest b filled =
    let r = stream_get_line eol [] (drop offset sample ++ rest) in
    (offset' : ℕ) × (rest' : List ℕ) × (filled
      ≡ record (mixed eol sample offset' rest' b) { obstack = r.grown })
    × (drop offset' sample ++ rest' ≡ r.rest)

module _ (eol : Eol) (sample : List ℕ) (offset : ℕ) (rest : List ℕ) (b : Buffer) (s : IsSingle eol)
    (h : All (λ c. c ≢ 255) sample) where
  buffer_fill-passed :
      length sample ≤ offset
      → Fills eol sample offset rest b (buffer_fill (mixed eol sample offset rest b))
  unfolding buffer_fill
  buffer_fill-passed l = rw (drop-end offset sample l) (
    offset,
    (stream_get_line eol [] rest).rest,
    rw (le→ltb offset (length sample) l),
    rw (drop-end offset sample l),
  )

  buffer_fill-within :
      offset < length sample
      → Fills eol sample offset rest b (buffer_fill (mixed eol sample offset rest b))
  unfolding buffer_fill
  buffer_fill-within l =
      let same =
        string_get_line-stream eol sample [] offset (drop offset sample) s refl
          (All-drop _ offset sample h) in
      rw (get_line-append eol [] (drop offset sample) rest s)
        (elim (Bool-cases (stream_get_line eol [] (drop offset sample)).ended) [
          | inl done ↦ (
            (string_get_line eol [] offset (drop offset sample)).offset,
            rest,
            rw (lt→ltb offset (length sample) l, same.0, same.1, done),
            rw (done, same.2),
          )
          | inr open' ↦ (
            (string_get_line eol [] offset (drop offset sample)).offset,
            (stream_get_line eol (stream_get_line eol [] (drop offset sample)).grown rest).rest,
            rw (lt→ltb offset (length sample) l, same.0, same.1, open'),
            rw (open', same.2, get_line-unended eol [] (drop offset sample) open'),
          )
        ])

  buffer_fill-mixed : Fills eol sample offset rest b (buffer_fill (mixed eol sample offset rest b))
  buffer_fill-mixed = elim (Bool-cases (ltb offset (length sample))) [
    | inl within ↦ buffer_fill-within (ltb→lt offset (length sample) within)
    | inr passed ↦ buffer_fill-passed (ltb→le offset (length sample) passed)
  ]

-- A buffer between two lines that has a stream only
abbrev streamed : Eol → List ℕ → Buffer → Buffer
streamed eol text b = record b { buf = none; stream = some text; obstack = []; eol = eol }

gets-mixed :
    (tolower : ℕ → ℕ) (eol : Eol) (sample : List ℕ) (n offset : ℕ) (rest text : List ℕ)
    (b b' : Buffer)
    → IsSingle eol
    → All (λ c. c ≢ 255) sample
    → drop offset sample ++ rest ≡ text
    → gets tolower n (mixed eol sample offset rest b) ≡ gets tolower n (streamed eol text b')
unfolding gets buffer_get buffer_fill
gets-mixed tolower eol sample zero offset rest text b b' s h e = refl
gets-mixed tolower eol sample (suc n) offset rest text b b' s h e =
    let (offset', rest', f, r) = buffer_fill-mixed eol sample offset rest b s h in
    let line = stream_get_line eol [] (drop offset sample ++ rest) in
    let left =
      finish_line tolower (record (mixed eol sample offset' rest' b) { obstack = line.grown }) in
    let right = finish_line tolower (record (streamed eol line.rest b') { obstack = line.grown }) in
    rw (← e) (
      ap (λ full. (finish_line tolower full).content ∷ gets tolower n (finish_line tolower full)) f
      ∙ ap (◌∷◌ (trim_formfeed line.grown))
          (gets-mixed tolower eol sample n offset' rest' line.rest left right s h r))

-- For the styles whose line ends are one byte, and a stream whose first 512 bytes do not hold the
-- byte 255: after the sample was taken the calls of buffer_get leave the same lines as without.
pub gets-sample :
    (tolower : ℕ → ℕ) (n : ℕ) (s : List ℕ) (eol : Eol)
    → IsSingle eol
    → All (λ c. c ≢ 255) (take sample_size s)
    → gets tolower n (buffer_sample_get (buffer_stream_set s eol)).0
      ≡ gets tolower n (buffer_stream_set s eol)
unfolding buffer_internal_set
gets-sample tolower n s eol single h =
    let b = buffer_stream_set s eol in
    ap (λ taken. gets tolower n taken.0) (buffer_sample_get-stream s b refl)
    ∙ gets-mixed tolower eol (take sample_size s) n 0 (drop sample_size s) s b b single h
        (take-drop sample_size s)
