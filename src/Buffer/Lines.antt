-- ===== src/Buffer/Lines.antt =====
-- The lines of a stream, for each style of line ends.
use a2ps.Prelude.{
  ℕ, zero, suc, ◌+◌, ◌-◌, ◌≡◌, ◌≢◌, refl, ap, subst, ◌∙◌, sym, Bool, true, false, List, [], ◌∷◌,
  ◌++◌, map, All, none, some, length, length-append, get_or, take, append_assoc, append-nil, ◌==◌,
  if◌then◌else◌, ne→==, arith,
}
use a2ps.Buffer.{
  Eol, eol_r, eol_n, eol_rn, eol_nr, eol_auto, Buffer, verdict, plain, next_is, reading,
  stream_get_line, buffer_fill, trim_formfeed, buffer_get, buffer_stream_set, buffer_internal_set,
}

-- The four ways to end a line
pub data Mark : Type 0 where
  lf cr crlf lfcr : Mark

abbrev pub mark_bytes : Mark → List ℕ
mark_bytes lf = b'\n' ∷ []
mark_bytes cr = b'\r' ∷ []
mark_bytes crlf = b'\r' ∷ b'\n' ∷ []
mark_bytes lfcr = b'\n' ∷ b'\r' ∷ []

-- The style takes this mark for the end of a line.
abbrev pub Accepts : Eol → Mark → Type 0
Accepts eol_n lf = Unit
Accepts eol_r cr = Unit
Accepts eol_rn crlf = Unit
Accepts eol_nr lfcr = Unit
Accepts eol_auto m = Unit
Accepts _ _ = ⊥

abbrev pub IsPlain : ℕ → Type 0
IsPlain c = (c ≢ b'\n') × (c ≢ b'\r')

-- The text of these lines, each with the mark behind it
abbrev pub encode : Mark → List (List ℕ) → List ℕ
encode m [] = []
encode m (body ∷ bodies) = body ++ (mark_bytes m ++ encode m bodies)

-- What follows cannot be taken for a part of the mark.
abbrev pub Clear : Mark → List ℕ → Type 0
Clear lf rest = next_is b'\r' rest ≡ false
Clear cr rest = next_is b'\n' rest ≡ false
Clear crlf rest = Unit
Clear lfcr rest = Unit

pub verdict-IsPlain : (eol : Eol) (c : ℕ) (rest : List ℕ) → IsPlain c → verdict eol c rest ≡ plain
unfolding verdict
verdict-IsPlain eol c rest h = rw (ne→== c b'\n' h.0, ne→== c b'\r' h.1)

pub get_line-body :
    (eol : Eol) (grown body rest : List ℕ)
    → All IsPlain body
    → stream_get_line eol grown (body ++ rest) ≡ stream_get_line eol (grown ++ body) rest
unfolding stream_get_line
get_line-body eol grown [] rest h = rw (append-nil grown)
get_line-body eol grown (c ∷ body) rest h =
    rw (verdict-IsPlain eol c (body ++ rest) h.0, stream_get_line)
      (get_line-body eol (grown ++ c ∷ []) body rest h.1 ∙ rw (append_assoc grown (c ∷ []) body))

pub get_line-mark :
    (eol : Eol) (m : Mark) (grown rest : List ℕ)
    → Accepts eol m
    → Clear m rest
    → stream_get_line eol grown (mark_bytes m ++ rest) ≡ reading (grown ++ b'\n' ∷ []) rest true
unfolding stream_get_line verdict
get_line-mark eol_n lf grown rest a h = refl
get_line-mark eol_r cr grown rest a h = refl
get_line-mark eol_rn crlf grown rest a h = refl
get_line-mark eol_nr lfcr grown rest a h = refl
get_line-mark eol_auto lf grown rest a h = rw h
get_line-mark eol_auto cr grown rest a h = rw h
get_line-mark eol_auto crlf grown rest a h = refl
get_line-mark eol_auto lfcr grown rest a h = refl
get_line-mark _ _ grown rest a h = absurd a

pub encode-Clear :
    (m : Mark) (bodies : List (List ℕ)) → All (All IsPlain) bodies → Clear m (encode m bodies)
encode-Clear lf [] h = refl
encode-Clear cr [] h = refl
encode-Clear crlf bodies h = tt
encode-Clear lfcr bodies h = tt
encode-Clear lf ([] ∷ bodies) h = refl
encode-Clear cr ([] ∷ bodies) h = refl
encode-Clear lf ((c ∷ body) ∷ bodies) h = ne→== c b'\r' h.0.0.1
encode-Clear cr ((c ∷ body) ∷ bodies) h = ne→== c b'\n' h.0.0.0

-- The line that ends in a form feed loses its end.
abbrev pub ends_in_formfeed : List ℕ → Bool
ends_in_formfeed [] = false
ends_in_formfeed (c ∷ []) = c == b'\x0c'
ends_in_formfeed (c ∷ d ∷ body) = ends_in_formfeed (d ∷ body)

abbrev pub line_of : List ℕ → List ℕ
line_of body = if ends_in_formfeed body then body else body ++ b'\n' ∷ []

last_byte :
    (c : ℕ) (body more : List ℕ)
    → ends_in_formfeed (c ∷ body) ≡ (get_or ((c ∷ body) ++ more) (length body) 0 == b'\x0c')
last_byte c [] more = refl
last_byte c (d ∷ body) more = last_byte d body more

pub take-length-append : (xs ys : List ℕ) → take (length xs) (xs ++ ys) ≡ xs
take-length-append [] ys = refl
take-length-append (x ∷ xs) ys = ap (◌∷◌ x) (take-length-append xs ys)

pub trim_formfeed-line : (body : List ℕ) → trim_formfeed (body ++ b'\n' ∷ []) ≡ line_of body
unfolding trim_formfeed
trim_formfeed-line [] = refl
trim_formfeed-line (c ∷ body) =
    let n : length ((c ∷ body) ++ b'\n' ∷ []) ≡ suc (suc (length body)) =
      omega (arith, length-append body (b'\n' ∷ [])) in
    let before : suc (suc (length body)) - 2 ≡ length body = omega arith in
    let cut : suc (suc (length body)) - 1 ≡ length (c ∷ body) = omega arith in
    rw (n, before, cut, last_byte c body (b'\n' ∷ []), take-length-append (c ∷ body) (b'\n' ∷ []))
      (ground arith)

-- What a stream buffer holds between two lines
abbrev pub Between : Eol → List ℕ → Buffer → Type 0
Between eol text b = (b.buf ≡ none) × (b.stream ≡ some text) × (b.obstack ≡ []) × (b.eol ≡ eol)

abbrev between : Eol → List ℕ → Buffer → Buffer
between eol text b = record b { buf = none; stream = some text; obstack = []; eol = eol }

Between-eq : (eol : Eol) (text : List ℕ) (b : Buffer) → Between eol text b → b ≡ between eol text b
Between-eq eol text b h =
    λ i. record b { buf = h.0 i; stream = h.1 i; obstack = h.2 i; eol = h.3 i }

-- What one call of buffer_get does to `b`: this line, one more line counted, and `rest` to come
abbrev pub Gets : (ℕ → ℕ) → Eol → List ℕ → List ℕ → Buffer → Type 0
Gets tolower eol line rest b =
    Between eol rest (buffer_get tolower b)
    × ((buffer_get tolower b).content ≡ line)
    × ((buffer_get tolower b).len ≡ length line)
    × ((buffer_get tolower b).line ≡ b.line + 1)

pub get_line-Gets :
    (tolower : ℕ → ℕ) (eol : Eol) (m : Mark) (body rest : List ℕ) (b : Buffer)
    → Accepts eol m
    → All IsPlain body
    → Clear m rest
    → Between eol (body ++ (mark_bytes m ++ rest)) b
    → Gets tolower eol (line_of body) rest b
unfolding buffer_get buffer_fill
get_line-Gets tolower eol m body rest b a p c h =
    subst (Gets tolower eol (line_of body) rest) (sym (Between-eq eol _ b h)) (
      rw
        (
          get_line-body eol [] body (mark_bytes m ++ rest) p,
          get_line-mark eol m body rest a c,
          trim_formfeed-line body,
        )
        ((refl, refl, refl, refl), refl, refl, refl))

pub get_end-Gets :
    (tolower : ℕ → ℕ) (eol : Eol) (b : Buffer) → Between eol [] b → Gets tolower eol [] [] b
unfolding buffer_get buffer_fill stream_get_line trim_formfeed
get_end-Gets tolower eol b h =
    subst (Gets tolower eol [] []) (sym (Between-eq eol [] b h))
      ((refl, refl, refl, refl), refl, refl, refl)

-- `n` calls of buffer_get, and the lines that they leave in turn
unfoldable pub gets : (ℕ → ℕ) → ℕ → Buffer → List (List ℕ)
gets tolower zero b = []
gets tolower (suc n) b = (buffer_get tolower b).content ∷ gets tolower n (buffer_get tolower b)

gets-encode :
    (tolower : ℕ → ℕ) (eol : Eol) (m : Mark) (bodies : List (List ℕ)) (b : Buffer)
    → Accepts eol m
    → All (All IsPlain) bodies
    → Between eol (encode m bodies) b
    → gets tolower (length bodies + 1) b ≡ map line_of bodies ++ [] ∷ []
unfolding gets
gets-encode tolower eol m [] b a p h = rw (get_end-Gets tolower eol b h).1
gets-encode tolower eol m (body ∷ bodies) b a p h =
    let g =
      get_line-Gets tolower eol m body (encode m bodies) b a p.0 (encode-Clear m bodies p.1) h in
    let count : suc (length bodies) + 1 ≡ suc (length bodies + 1) = omega arith in
    let later = gets-encode tolower eol m bodies (buffer_get tolower b) a p.1 g.0 in
    rw count (cc (g.1, later))

-- A stream of lines that hold neither `\n` nor `\r` and all end in a mark that the style of line
-- ends takes: the calls of buffer_get return the lines in order, each ended by one `\n`, or by
-- its form feed alone if it ends in one; the call behind the last line returns nothing, and so
-- tells the end.
pub buffer_get-encode :
    (tolower : ℕ → ℕ) (eol : Eol) (m : Mark) (bodies : List (List ℕ))
    → Accepts eol m
    → All (All IsPlain) bodies
    → gets tolower (length bodies + 1) (buffer_stream_set (encode m bodies) eol)
      ≡ map line_of bodies ++ [] ∷ []
unfolding buffer_internal_set
buffer_get-encode tolower eol m bodies a p =
    gets-encode tolower eol m bodies _ a p (refl, refl, refl, refl)
