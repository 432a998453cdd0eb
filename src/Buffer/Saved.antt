-- ===== src/Buffer/Saved.antt =====
-- buffer_sample_get and buffer_save: what their loops put into the two files.
use a2ps.Prelude.{
  ℕ, zero, suc, false, true, ne→==, ◌+◌, ◌≤◌, ◌<◌, ◌≡◌, refl, ap, ◌∙◌, List, [], ◌∷◌, ◌++◌, some,
  length, ◌==◌, length-append, length-drop, get_or, take, drop, append_assoc, append-nil, ltb,
  lt→ltb, arith,
}
use native.Mathlib.Numerals.{add-one}
use a2ps.Buffer.{Eol, Buffer, buffer_stream_set, buffer_internal_set}
use a2ps.Buffer.Dump.{
  Sampling, sampling, store, sample_loop, sample_size, buffer_sample_get, save_string, streams_copy,
  buffer_save,
}

pub take-drop {ℓ} : {A : Type ℓ} (n : ℕ) (xs : List A) → take n xs ++ drop n xs ≡ xs
take-drop zero xs = refl
take-drop (suc n) [] = refl
take-drop (suc n) (x ∷ xs) = ap (◌∷◌ x) (take-drop n xs)

take-all : (xs : List ℕ) → take (length xs) xs ≡ xs
take-all [] = refl
take-all (x ∷ xs) = ap (◌∷◌ x) (take-all xs)

drop-behind : (xs : List ℕ) → drop (suc (length xs)) xs ≡ []
drop-behind [] = refl
drop-behind (x ∷ xs) = drop-behind xs

-- A cell is written right behind the others.
store-end : (cells : List ℕ) (c : ℕ) → store cells (length cells) c ≡ cells ++ c ∷ []
store-end cells c = rw (take-all cells, drop-behind cells)

abbrev sampled : List ℕ → List ℕ → List ℕ → List ℕ → Sampling
sampled cells out taken rest =
    sampling (cells ++ taken) (out ++ taken) rest (length (cells ++ taken))

snoc_assoc : (xs : List ℕ) (x : ℕ) (ys : List ℕ) → (xs ++ x ∷ []) ++ ys ≡ xs ++ x ∷ ys
snoc_assoc xs x ys = append_assoc xs (x ∷ []) ys

-- With `n` cells free the loop takes `n` bytes, or all that there are.
sample_loop-take :
    (n : ℕ) (cells out stream : List ℕ)
    → length cells + n ≡ sample_size
    → sample_loop cells out (length cells) stream
      ≡ sampled cells out (take n stream) (drop n stream)
unfolding sample_loop
sample_loop-take zero cells out [] h = rw (append-nil cells, append-nil out)
sample_loop-take zero cells out (c ∷ cs) h =
    let full : ltb (length cells) sample_size ≡ false = ground arith in
    rw (full, append-nil cells, append-nil out)
sample_loop-take (suc n) cells out [] h = rw (append-nil cells, append-nil out)
sample_loop-take (suc n) cells out (c ∷ cs) h =
    let free : ltb (length cells) sample_size ≡ true = lt→ltb _ _ (omega arith) in
    let count : length (cells ++ c ∷ []) ≡ length cells + 1 = length-append cells (c ∷ []) in
    let step = sample_loop-take n (cells ++ c ∷ []) (out ++ c ∷ []) cs (omega (arith, h, count)) in
    rw (free, store-end cells c, ← count, step, snoc_assoc cells c, snoc_assoc out c)

-- The buffer holds the first bytes of the stream as its string, and the file has them too.
pub buffer_sample_get-stream :
    (s : List ℕ) (b : Buffer)
    → b.stream ≡ some s
    → buffer_sample_get b ≡ (
      record b { buf = some (take sample_size s); stream = some (drop sample_size s) },
      take sample_size s,
    )
unfolding buffer_sample_get
buffer_sample_get-stream s b e =
    rw (e, sample_loop-take sample_size [] [] s refl, take-all (take sample_size s))

drop-get_or :
    (string : List ℕ) (cur : ℕ)
    → cur < length string
    → drop cur string ≡ get_or string cur 0 ∷ drop (suc cur) string
drop-get_or [] cur h = absurd (omega arith)
drop-get_or (x ∷ string) zero h = refl
drop-get_or (x ∷ string) (suc cur) h = drop-get_or string cur (omega arith)

pub drop-end : (n : ℕ) (string : List ℕ) → length string ≤ n → drop n string ≡ []
drop-end zero [] h = refl
drop-end zero (x ∷ string) h = elim h [ ]
drop-end (suc n) [] h = refl
drop-end (suc n) (x ∷ string) h = drop-end n string (omega arith)

save_string-drop :
    (string : List ℕ) (left cur : ℕ) (out : List ℕ)
    → cur + left ≡ length string
    → save_string string left cur out ≡ out ++ drop cur string
unfolding save_string
save_string-drop string zero cur out h = rw (drop-end cur string (omega arith), append-nil out)
save_string-drop string (suc left) cur out h =
    let byte = get_or string cur 0 in
    save_string-drop string left (cur + 1) (out ++ byte ∷ []) (omega arith)
    ∙ snoc_assoc out byte (drop (cur + 1) string)
    ∙ ap (◌++◌ out) (rw (drop-get_or string cur (omega arith), add-one))

-- Every round but the last takes a byte at least.
streams_copy-append :
    (bufsiz fuel : ℕ) (stream out : List ℕ)
    → 0 < bufsiz
    → length stream < fuel
    → streams_copy bufsiz fuel stream out ≡ some (out ++ stream)
unfolding streams_copy
streams_copy-append bufsiz zero stream out b h = absurd (omega arith)
streams_copy-append zero (suc fuel) stream out b h = absurd (omega arith)
streams_copy-append (suc k) (suc fuel) [] out b h = rw (append-nil out)
streams_copy-append (suc k) (suc fuel) (c ∷ cs) out b h =
    let some_read : (suc (length (take k cs)) == 0) ≡ false = ne→== _ _ (omega arith) in
    rw some_read (
      streams_copy-append (suc k) fuel (drop k cs) (out ++ c ∷ take k cs) b
        (omega (arith, length-drop k cs))
      ∙ ap some (append_assoc out (c ∷ take k cs) (drop k cs))
      ∙ ap (λ r. some (out ++ c ∷ r)) (take-drop k cs))

-- After the sample was taken of a stream, the buffer has as its string what was written to the
-- file of the sample, the first 512 bytes of the stream or all of it; and buffer_save ends, where
-- BUFSIZ is positive and the fuel exceeds the length of the stream, and writes the whole stream.
pub buffer_save-sample :
    (bufsiz fuel : ℕ) (s : List ℕ) (eol : Eol)
    → 0 < bufsiz
    → length s < fuel
    → let (b, file) = buffer_sample_get (buffer_stream_set s eol) in
      (file ≡ take sample_size s) × (b.buf ≡ some file) × (buffer_save bufsiz fuel b ≡ some s)
unfolding buffer_save buffer_internal_set
buffer_save-sample bufsiz fuel s eol pos enough =
    rw (buffer_sample_get-stream s (buffer_stream_set s eol) refl) (
      refl,
      refl,
      rw (save_string-drop (take sample_size s) (length (take sample_size s)) 0 [] (omega arith)) (
          streams_copy-append bufsiz fuel (drop sample_size s) (take sample_size s) pos
            (omega (arith, length-drop sample_size s))
          ∙ ap some (take-drop sample_size s)),
    )
