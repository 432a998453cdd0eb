-- ===== src/Buffer/Tests.antt =====
-- buffer.c run on small inputs, and its theorems there.
use a2ps.Prelude.{ℕ, zero, suc, some, ◌+◌, ◌≡◌, refl, List, [], ◌∷◌, ◌++◌, map, take, arith, length}
use a2ps.Buffer.{
  eol_n, eol_rn, eol_auto, buffer_internal_set, buffer_stream_set, buffer_string_set, verdict,
  stream_get_line, string_get_line, buffer_fill, trim_formfeed, buffer_get,
}
use a2ps.Buffer.Dump.{
  buffer_sample_get, buffer_save, sample_size, sample_loop, save_string, streams_copy,
}
use a2ps.Buffer.Lines.{crlf, encode, line_of, gets, buffer_get-encode}
use a2ps.Buffer.Sample.{gets-sample}
use a2ps.Buffer.Saved.{buffer_save-sample}
use a2ps.Buffer.Lost.{buffer_get_255, buffer_get_unended_formfeed}

program : Unit {0}
unfolding buffer_internal_set verdict stream_get_line string_get_line buffer_fill trim_formfeed
    buffer_get gets buffer_sample_get buffer_save sample_loop save_string streams_copy
program = tt

abbrev same : ℕ → ℕ
same c = c

abbrev text : List ℕ
text = b'a' ∷ b'\r' ∷ b'\n' ∷ b'b' ∷ b'\n' ∷ b'c' ∷ []

-- `a\r\nb\nc` in three styles
auto_lines :
    gets same 4 (buffer_stream_set text eol_auto)
    ≡ (b'a' ∷ b'\n' ∷ []) ∷ (b'b' ∷ b'\n' ∷ []) ∷ (b'c' ∷ []) ∷ [] ∷ []
unfolding program
auto_lines = refl

pc_lines :
    gets same 3 (buffer_string_set text eol_rn)
    ≡ (b'a' ∷ b'\n' ∷ []) ∷ (b'b' ∷ b'\n' ∷ b'c' ∷ []) ∷ [] ∷ []
unfolding program
pc_lines = refl

unix_lines :
    gets same 4 (buffer_string_set text eol_n)
    ≡ (b'a' ∷ b'\r' ∷ b'\n' ∷ []) ∷ (b'b' ∷ b'\n' ∷ []) ∷ (b'c' ∷ []) ∷ [] ∷ []
unfolding program
unix_lines = refl

abbrev bodies : List (List ℕ)
bodies = (b'a' ∷ []) ∷ [] ∷ (b'b' ∷ b'\x0c' ∷ []) ∷ []

buffer_get-encode_example :
    gets same (length bodies + 1) (buffer_stream_set (encode crlf bodies) eol_auto)
    ≡ map line_of bodies ++ [] ∷ []
buffer_get-encode_example = buffer_get-encode same eol_auto crlf bodies tt (ground arith)

gets-sample_example :
    gets same 4 (buffer_sample_get (buffer_stream_set text eol_n)).0
    ≡ gets same 4 (buffer_stream_set text eol_n)
gets-sample_example = gets-sample same 4 text eol_n tt (ground arith)

-- BUFSIZ of the GNU C library
abbrev bufsiz : ℕ
bufsiz = 8192

buffer_save-sample_example :
    let (b, file) = buffer_sample_get (buffer_stream_set text eol_n) in
    (file ≡ take sample_size text) × (b.buf ≡ some file) × (buffer_save bufsiz 7 b ≡ some text)
buffer_save-sample_example = buffer_save-sample bufsiz 7 text eol_n (ground arith) (ground arith)

-- Three blocks
copied :
    streams_copy 2 6 (b'a' ∷ b'b' ∷ b'c' ∷ b'd' ∷ b'e' ∷ []) []
    ≡ some (b'a' ∷ b'b' ∷ b'c' ∷ b'd' ∷ b'e' ∷ [])
unfolding program
copied = refl

abbrev repeat : ℕ → ℕ → List ℕ → List ℕ
repeat zero c cs = cs
repeat (suc n) c cs = c ∷ repeat n c cs

-- `a`, the byte 255, `b`, a line end and 507 times `x` are the sample; `c` and a line end follow.
abbrev cut_line : List ℕ
cut_line = b'a' ∷ 255 ∷ b'b' ∷ b'\r' ∷ b'\n' ∷ repeat 507 b'x' []

buffer_get_255_example :
    gets same 2
      (buffer_sample_get (buffer_stream_set (cut_line ++ b'c' ∷ b'\r' ∷ b'\n' ∷ []) eol_auto)).0
    ≡ (b'a' ∷ b'c' ∷ b'\n' ∷ []) ∷ (b'b' ∷ b'\n' ∷ []) ∷ []
buffer_get_255_example =
    buffer_get_255 same eol_auto crlf (b'a' ∷ []) (b'b' ∷ []) (repeat 507 b'x' []) (b'c' ∷ []) [] tt
      tt tt (ground arith) (ground arith) (ground arith) refl

buffer_get_unended_formfeed_example :
    (buffer_get same (buffer_stream_set (b'a' ∷ b'\x0c' ∷ b'b' ∷ []) eol_n)).content
    ≡ b'a' ∷ b'\x0c' ∷ []
buffer_get_unended_formfeed_example =
    buffer_get_unended_formfeed same eol_n (b'a' ∷ []) b'b' (ground arith) (ground arith)
