-- ===== src/Buffer.antt =====
-- src/buffer.c and buffer.h: reading the input line by line, from a string, a stream, or a string
-- and then a stream.
--
-- A stream is the list of the bytes that getc will return; pushing one byte back is always
-- possible after one was read. `char` is signed, as on the platforms the program is built for, so
-- that bgetc cannot tell the byte 255 of a string from EOF. `tolower` depends on the locale and is
-- a parameter. The obstack is the object that is being grown; strings end where their list ends.
pub mod Lines
pub mod Dump
pub mod Sample
pub mod Saved
pub mod Strings
pub mod Lost
pub mod Unread
pub mod Tests
use a2ps.Prelude.{
  ℕ, zero, suc, ◌+◌, ◌-◌, Bool, true, false, not, ◌&&◌, List, [], ◌∷◌, ◌++◌, map, Option, none,
  some, ltb, leb, ◌==◌, if◌then◌else◌, length, get_or, take, drop,
}

pub data Eol : Type 0 where
  eol_r eol_n eol_rn eol_nr eol_auto : Eol

pub record Buffer : Type 0 where
  pub buf : Option (List ℕ)
  pub bufoffset : ℕ
  pub stream : Option (List ℕ)
  pub pipe_p : Bool
  pub content : List ℕ
  pub eol : Eol
  pub lower_case : Bool
  pub value : List ℕ
  pub line : ℕ
  pub allocsize : ℕ
  pub len : ℕ
  pub curr : ℕ
  pub obstack : List ℕ

unfoldable pub buffer_internal_set : Option (List ℕ) → Option (List ℕ) → Bool → Eol → Buffer
buffer_internal_set stream buf pipe_p eol = record {
  buf = buf;
  bufoffset = 0;
  stream = stream;
  pipe_p = pipe_p;
  content = [];
  eol = eol;
  lower_case = false;
  value = [];
  line = 0;
  allocsize = 0;
  len = 0;
  curr = 0;
  obstack = [];
}

abbrev pub buffer_stream_set : List ℕ → Eol → Buffer
buffer_stream_set stream eol = buffer_internal_set (some stream) none false eol

abbrev pub buffer_pipe_set : List ℕ → Eol → Buffer
buffer_pipe_set stream eol = buffer_internal_set (some stream) none true eol

abbrev pub buffer_string_set : List ℕ → Eol → Buffer
buffer_string_set string eol = buffer_internal_set none (some string) false eol

abbrev pub buffer_set_lower_case : Buffer → Bool → Buffer
buffer_set_lower_case b lower_case = record b { lower_case = lower_case }

-- What a byte does where the next byte is known: it is plain, or it ends the line, and then the
-- next byte may belong to the end.
pub data Verdict : Type 0 where
  plain : Verdict
  ends : Bool → Verdict

-- `(d = getc ()) == c`, behind which any other byte is pushed back
abbrev pub next_is : ℕ → List ℕ → Bool
next_is c [] = false
next_is c (d ∷ cs) = d == c

-- `case '\n'`
abbrev pub newline_verdict : Eol → List ℕ → Verdict
newline_verdict eol_r rest = plain
newline_verdict eol_rn rest = plain
newline_verdict eol_auto rest = ends (next_is b'\r' rest)
newline_verdict eol_n rest = ends false
newline_verdict eol_nr rest = if next_is b'\r' rest then ends true else plain

-- `case '\r'`
abbrev pub return_verdict : Eol → List ℕ → Verdict
return_verdict eol_n rest = plain
return_verdict eol_nr rest = plain
return_verdict eol_r rest = ends false
return_verdict eol_auto rest = ends (next_is b'\n' rest)
return_verdict eol_rn rest = if next_is b'\n' rest then ends true else plain

unfoldable pub verdict : Eol → ℕ → List ℕ → Verdict
verdict eol c rest =
    if c == b'\n'
    then newline_verdict eol rest
    else if c == b'\r'
    then return_verdict eol rest
    else plain

abbrev pub skip_if : Bool → List ℕ → List ℕ
skip_if eaten cs = if eaten then drop 1 cs else cs

-- What a reading loop leaves: the obstack, the unread bytes, and whether the line is complete
pub record Reading : Type 0 where
  pub grown : List ℕ
  pub rest : List ℕ
  pub ended : Bool

abbrev pub reading : List ℕ → List ℕ → Bool → Reading
reading grown rest ended = record { grown = grown; rest = rest; ended = ended }

unfoldable pub stream_get_line : Eol → List ℕ → List ℕ → Reading
stream_get_line eol grown [] = reading grown [] false
stream_get_line eol grown (c ∷ cs) = elim (verdict eol c cs) [
  | plain ↦ stream_get_line eol (grown ++ c ∷ []) cs
  | ends eaten ↦ reading (grown ++ b'\n' ∷ []) (skip_if eaten cs) true
]

-- The same for a string: `offset` counts the bytes that bgetc has passed, and its end too.
pub record StringReading : Type 0 where
  pub grown : List ℕ
  pub offset : ℕ
  pub ended : Bool

abbrev pub string_reading : List ℕ → ℕ → Bool → StringReading
string_reading grown offset ended = record { grown = grown; offset = offset; ended = ended }

abbrev pub eaten_bytes : Bool → ℕ
eaten_bytes eaten = if eaten then 2 else 1

-- bgetc returns the byte 255 as EOF.
unfoldable pub string_get_line : Eol → List ℕ → ℕ → List ℕ → StringReading
string_get_line eol grown offset [] = string_reading grown (offset + 1) false
string_get_line eol grown offset (c ∷ cs) = elim (c == 255) [
  | true ↦ string_reading grown (offset + 1) false
  | false ↦ elim (verdict eol c cs) [
    | plain ↦ string_get_line eol (grown ++ c ∷ []) (offset + 1) cs
    | ends eaten ↦ string_reading (grown ++ b'\n' ∷ []) (offset + eaten_bytes eaten) true
  ]
]

-- `if (buffer->buf && buffer->bufoffset < buffer->bufsize)`; the flag is `line_ended_p`.
abbrev pub read_string : Buffer → Option (List ℕ) → Buffer × Bool
read_string b none = (b, false)
read_string b (some string) =
    let r = string_get_line b.eol b.obstack b.bufoffset (drop b.bufoffset string) in
    if ltb b.bufoffset (length string)
    then (record b { obstack = r.grown; bufoffset = r.offset }, r.ended)
    else (b, false)

-- `if (buffer->stream && !line_ended_p)`
abbrev pub read_stream : Buffer → Bool → Option (List ℕ) → Buffer
read_stream b line_ended none = b
read_stream b line_ended (some stream) =
    let r = stream_get_line b.eol b.obstack stream in
    if line_ended then b else record b { obstack = r.grown; stream = some r.rest }

unfoldable pub buffer_fill : Buffer → Buffer
buffer_fill b = let (b', ended) = read_string b b.buf in read_stream b' ended b'.stream

-- A form feed before the end of the line swallows it.
unfoldable pub trim_formfeed : List ℕ → List ℕ
trim_formfeed content =
    let n = length content in
    if leb 2 n && get_or content (n - 2) 0 == b'\x0c' then take (n - 1) content else content

-- buffer_get from `obstack_object_size` on
unfoldable pub finish_line : (ℕ → ℕ) → Buffer → Buffer
finish_line tolower full =
    let content = trim_formfeed full.obstack in
    record full {
      obstack = [];
      content = content;
      len = length content;
      line = full.line + 1;
      allocsize =
          if full.lower_case && leb full.allocsize (length content)
          then length content + 1
          else full.allocsize;
      value = if full.lower_case then map tolower content else content;
      curr = 0;
    }

unfoldable pub buffer_get : (ℕ → ℕ) → Buffer → Buffer
unfolding finish_line
buffer_get tolower b = finish_line tolower (buffer_fill b)

abbrev pub buffer_is_empty : Buffer → Bool
buffer_is_empty b = leb b.len b.curr
