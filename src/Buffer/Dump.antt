-- ===== src/Buffer/Dump.antt =====
-- src/buffer.c (buffer_sample_get, buffer_save) and liba2ps/routines.c (streams_copy): the sample of
-- a stream and the dump of a buffer, and the files that they write.
use a2ps.Prelude.{
  ℕ, zero, suc, ◌+◌, List, [], ◌∷◌, ◌++◌, Option, none, some, ltb, ◌==◌, if◌then◌else◌, length,
  get_or, take, drop,
}
use a2ps.Buffer.{Buffer}

abbrev pub sample_size : ℕ
sample_size = 512

-- What the loop of buffer_sample_get leaves: `sample_buffer` as the list of the cells that were
-- written, the file, the unread bytes of the stream, and `cur`
pub record Sampling : Type 0 where
  pub sample_buffer : List ℕ
  pub out : List ℕ
  pub rest : List ℕ
  pub cur : ℕ

abbrev pub sampling : List ℕ → List ℕ → List ℕ → ℕ → Sampling
sampling sample_buffer out rest cur = record {
  sample_buffer = sample_buffer;
  out = out;
  rest = rest;
  cur = cur;
}

-- `sample_buffer[cur] = c`
abbrev pub store : List ℕ → ℕ → ℕ → List ℕ
store cells cur c = take cur cells ++ c ∷ drop (suc cur) cells

-- `for (; (cur < SAMPLE_SIZE) && ((c = sgetc (buffer)) != EOF); cur++)`
unfoldable pub sample_loop : List ℕ → List ℕ → ℕ → List ℕ → Sampling
sample_loop cells out cur [] = sampling cells out [] cur
sample_loop cells out cur (c ∷ cs) =
    let next = sample_loop (store cells cur c) (out ++ c ∷ []) (cur + 1) cs in
    if ltb cur sample_size then next else sampling cells out (c ∷ cs) cur

-- The string becomes the first `cur` cells of the sample; the file goes with it.
abbrev pub sample_of : Buffer → Option (List ℕ) → Buffer × List ℕ
sample_of b none = (b, [])
sample_of b (some stream) =
    let s = sample_loop [] [] 0 stream in
    (record b { buf = some (take s.cur s.sample_buffer); stream = some s.rest }, s.out)

unfoldable pub buffer_sample_get : Buffer → Buffer × List ℕ
buffer_sample_get b = sample_of b b.stream

-- `for (cur = 0; cur < buffer->bufsize; cur++) putc (buffer->buf[cur], out);`, where `left` is
-- `bufsize - cur`
unfoldable pub save_string : List ℕ → ℕ → ℕ → List ℕ → List ℕ
save_string string zero cur out = out
save_string string (suc left) cur out =
    save_string string left (cur + 1) (out ++ get_or string cur 0 ∷ [])

-- liba2ps/routines.c, streams_copy: fread gives `bufsiz` bytes, or what is left of the stream.
unfoldable pub streams_copy : ℕ → ℕ → List ℕ → List ℕ → Option (List ℕ)
streams_copy bufsiz zero stream out = none
streams_copy bufsiz (suc fuel) stream out =
    let block = take bufsiz stream in
    let later = streams_copy bufsiz fuel (drop bufsiz stream) (out ++ block) in
    if length block == 0 then some out else later

abbrev pub save_buf : Option (List ℕ) → List ℕ
save_buf none = []
save_buf (some string) = save_string string (length string) 0 []

abbrev pub save_stream : ℕ → ℕ → List ℕ → Option (List ℕ) → Option (List ℕ)
save_stream bufsiz fuel out none = some out
save_stream bufsiz fuel out (some stream) = streams_copy bufsiz fuel stream out

-- What buffer_save writes to its file; `bufsiz` is BUFSIZ of the C library.
unfoldable pub buffer_save : ℕ → ℕ → Buffer → Option (List ℕ)
buffer_save bufsiz fuel b = save_stream bufsiz fuel (save_buf b.buf) b.stream
