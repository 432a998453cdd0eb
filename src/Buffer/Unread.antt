-- ===== src/Buffer/Unread.antt =====
-- How much a buffer holds that was not read: buffer_get makes no more of it.
use a2ps.Prelude.{
  ℕ, suc, ◌+◌, ◌-◌, ◌≤◌, ◌≡◌, refl, ap, subst, sym, ◌==◌, leb, ltb, Bool, Bool-cases, true, false,
  inl, inr, List, [], ◌∷◌, ◌++◌, get_or, ◌&&◌, Option, none, some, length, length-append,
  length-drop, length-take, drop, arith, ◌⊎◌, ltb→lt,
}
use a2ps.Buffer.{
  Eol, Verdict, plain, ends, verdict, Buffer, Reading, StringReading, buffer_get, buffer_fill,
  finish_line, trim_formfeed, stream_get_line, string_get_line, read_string, read_stream, skip_if,
  reading, string_reading, eaten_bytes,
}

-- The bytes of a string or a stream that may be missing
abbrev pub bytes_of : Option (List ℕ) → List ℕ
bytes_of none = []
bytes_of (some s) = s

Verdict-cases : (v : Verdict) → (v ≡ plain) ⊎ ((eaten : Bool) × (v ≡ ends eaten))
Verdict-cases plain = inl refl
Verdict-cases (ends eaten) = inr (eaten, refl)

length-snoc : (xs : List ℕ) (x : ℕ) → length (xs ++ x ∷ []) ≡ suc (length xs)
length-snoc xs x = omega (arith, length-append xs (x ∷ []))

module _ (eol : Eol) (c : ℕ) (cs : List ℕ) (grown : List ℕ) where
  stream-plain :
      verdict eol c cs ≡ plain
      → stream_get_line eol grown (c ∷ cs) ≡ stream_get_line eol (grown ++ c ∷ []) cs
  unfolding stream_get_line
  stream-plain e = rw (e, stream_get_line)

  stream-ends :
      (eaten : Bool)
      → verdict eol c cs ≡ ends eaten
      → stream_get_line eol grown (c ∷ cs) ≡ reading (grown ++ b'\n' ∷ []) (skip_if eaten cs) true
  unfolding stream_get_line
  stream-ends eaten e = rw (e, stream_get_line)

  module _ (offset : ℕ) where
    string-eof :
        c == 255 ≡ true
        → string_get_line eol grown offset (c ∷ cs) ≡ string_reading grown (offset + 1) false
    unfolding string_get_line
    string-eof e = rw (e, string_get_line)

    string-plain :
        c == 255 ≡ false
        → verdict eol c cs ≡ plain
        → string_get_line eol grown offset (c ∷ cs)
          ≡ string_get_line eol (grown ++ c ∷ []) (offset + 1) cs
    unfolding string_get_line
    string-plain e p = rw (e, p, string_get_line)

    string-ends :
        (eaten : Bool)
        → c == 255 ≡ false
        → verdict eol c cs ≡ ends eaten
        → string_get_line eol grown offset (c ∷ cs)
          ≡ string_reading (grown ++ b'\n' ∷ []) (offset + eaten_bytes eaten) true
    unfolding string_get_line
    string-ends eaten e p = rw (e, p, string_get_line)

length-skip_if : (eaten : Bool) (cs : List ℕ) → length (skip_if eaten cs) ≤ length cs
length-skip_if true cs = omega (arith, length-drop 1 cs)
length-skip_if false cs = omega arith

eaten_bytes-positive : (eaten : Bool) → 1 ≤ eaten_bytes eaten
eaten_bytes-positive true = omega arith
eaten_bytes-positive false = omega arith

-- What a reading of a stream leaves is not longer than what was there,
abbrev StreamFits : ℕ → Reading → Type 0
StreamFits n r = length r.grown + length r.rest ≤ n

-- and that of `cs` bytes of a string from `offset` on.
abbrev StringFits : ℕ → ℕ → ℕ → StringReading → Type 0
StringFits grown cs offset r = length r.grown + (offset + cs - r.offset) ≤ grown + cs

stream_get_line-le :
    (eol : Eol) (grown cs : List ℕ)
    → StreamFits (length grown + length cs) (stream_get_line eol grown cs)
unfolding stream_get_line
stream_get_line-le eol grown [] = omega arith
stream_get_line-le eol grown (c ∷ cs) = elim (Verdict-cases (verdict eol c cs)) [
  | inl e ↦
      subst (StreamFits _) (sym (stream-plain eol c cs grown e))
        (omega (arith, stream_get_line-le eol (grown ++ c ∷ []) cs, length-snoc grown c))
  | inr (eaten, e) ↦
      subst (StreamFits _) (sym (stream-ends eol c cs grown eaten e))
        (omega (arith, length-skip_if eaten cs, length-snoc grown b'\n'))
]

string_get_line-le :
    (eol : Eol) (grown cs : List ℕ) (offset : ℕ)
    → StringFits (length grown) (length cs) offset (string_get_line eol grown offset cs)
unfolding string_get_line
string_get_line-le eol grown [] offset = omega arith
string_get_line-le eol grown (c ∷ cs) offset =
    let fits = StringFits (length grown) (suc (length cs)) offset in
    elim (Bool-cases (c == 255)) [
      | inl e ↦ subst fits (sym (string-eof eol c cs grown offset e)) (omega arith)
      | inr e ↦ elim (Verdict-cases (verdict eol c cs)) [
        | inl p ↦ subst fits (sym (string-plain eol c cs grown offset e p)) (
            omega (
              arith,
              string_get_line-le eol (grown ++ c ∷ []) cs (offset + 1),
              length-snoc grown c,
            ))
        | inr (eaten, p) ↦
            subst fits (sym (string-ends eol c cs grown offset eaten e p))
              (omega (arith, length-snoc grown b'\n', eaten_bytes-positive eaten))
      ]
    ]

-- What is to be read of the string and the stream
abbrev pub to_come : Buffer → ℕ
to_come b = length (bytes_of b.buf) - b.bufoffset + length (bytes_of b.stream) + length b.obstack

-- What is unread: of the line, of the string and of the stream
abbrev pub unread : Buffer → ℕ
unread b = b.len - b.curr + to_come b

read_string-le :
    (b : Buffer) (o : Option (List ℕ)) → b.buf ≡ o → to_come (read_string b o).0 ≤ to_come b
read_string-le b none h = omega arith
read_string-le b (some string) h =
    let long : length (bytes_of b.buf) ≡ length string = ap (λ o. length (bytes_of o)) h in
    elim (Bool-cases (ltb b.bufoffset (length string))) [
      | inl e ↦ rw e (
          omega (
            arith,
            long,
            ltb→lt _ _ e,
            length-drop b.bufoffset string,
            string_get_line-le b.eol b.obstack (drop b.bufoffset string) b.bufoffset,
          ))
      | inr e ↦ rw e (omega arith)
    ]

read_stream-le :
    (b : Buffer) (ended : Bool) (o : Option (List ℕ))
    → b.stream ≡ o
    → to_come (read_stream b ended o) ≤ to_come b
read_stream-le b ended none h = omega arith
read_stream-le b true (some stream) h = omega arith
read_stream-le b false (some stream) h =
    let long : length (bytes_of b.stream) ≡ length stream = ap (λ o. length (bytes_of o)) h in
    omega (arith, long, stream_get_line-le b.eol b.obstack stream)

buffer_fill-le : (b : Buffer) → to_come (buffer_fill b) ≤ to_come b
unfolding buffer_fill
buffer_fill-le b =
    let (b', ended) = read_string b b.buf in
    omega (
      arith,
      read_string-le b b.buf refl,
      read_stream-le (read_string b b.buf).0 (read_string b b.buf).1 (read_string b b.buf).0.stream
          refl,
    )

length-trim_formfeed : (content : List ℕ) → length (trim_formfeed content) ≤ length content
unfolding trim_formfeed
length-trim_formfeed content =
    let n = length content in
    elim (Bool-cases (leb 2 n && get_or content (n - 2) 0 == b'\x0c')) [
      | inl e ↦ rw e (omega (arith, length-take (n - 1) content (omega arith)))
      | inr e ↦ rw e (omega arith)
    ]

module _ (tolower : ℕ → ℕ) where
  -- A line is got: it and what is still to come are what was to come.
  pub buffer_get-le : (b : Buffer) → unread (buffer_get tolower b) ≤ to_come b
  unfolding buffer_get finish_line
  buffer_get-le b = omega (arith, buffer_fill-le b, length-trim_formfeed (buffer_fill b).obstack)

  pub buffer_get-curr : (b : Buffer) → (buffer_get tolower b).curr ≡ 0
  unfolding buffer_get finish_line
  buffer_get-curr b = refl
