-- ===== src/Ssheet/Print.antt =====
-- ssh_print_postscript of sshread.c, and ps_print_buffer of psgen.c.
--
-- The tags of the job and `bufenc` are lists: no bound is checked when they grow. Reads behind
-- the end of a line find zero. get_encoding_by_alias is a parameter.
use a2ps.Prelude.{
  ℕ, zero, suc, ◌+◌, ◌-◌, ◌/◌, ◌%◌, ◌^◌, ◌==◌, Bool, true, false, not, ◌&&◌, List, [], ◌∷◌, ◌++◌,
  Option, none, some, get_or, take, drop, if◌then◌else◌,
}
use a2ps.Buffer.{Buffer}
use a2ps.PsGen.{Settings, Job}
use a2ps.PsGen.Files.{ps_switch_encoding}
use a2ps.PsGen.Print.{ps_print_string}
use a2ps.Ssheet.{Fface, fface_squ, plain_fface, FacedString, StyleSheet}
use a2ps.Ssheet.Match.{Registers, Matcher}
use a2ps.Ssheet.Token.{Lexer, ssh_get_token}

-- `buffer[start]`, ..., `buffer[start + n - 1]`
abbrev pub bytes_from : List ℕ → ℕ → ℕ → List ℕ
bytes_from buffer start zero = []
bytes_from buffer start (suc n) = get_or buffer start 0 ∷ bytes_from buffer (start + 1) n

unfoldable pub ps_print_buffer : Settings → List ℕ → ℕ → ℕ → ℕ → Job → Job
ps_print_buffer s buffer start end face =
    ps_print_string s (bytes_from buffer start (end - start)) face

-- enum fflag_e: the flag number `k` is 2 ^ k.
abbrev pub has_flag : ℕ → Fface → Bool
has_flag k f = f.flags / 2 ^ k % 2 == 1

abbrev pub invisible : ℕ
invisible = 0

abbrev pub encoding_flag : ℕ
encoding_flag = 9

-- The variables of ssh_print_postscript, with the job and its tags 1 to 4; ff_Tag1 has number 1.
pub record Printing : Type 0 where
  pub job : Job
  pub fface : Fface
  pub tags : ℕ → List ℕ
  pub bufenc : List ℕ
  pub grabbing_encoding : Bool

abbrev pub set_tag : ℕ → List ℕ → (ℕ → List ℕ) → ℕ → List ℕ
set_tag k text tags i = if i == k then text else tags i

-- What is done for each of the flags ff_Tag1 to ff_Tag4 that is set
abbrev pub for_tags : Fface → (ℕ → (ℕ → List ℕ) → ℕ → List ℕ) → (ℕ → List ℕ) → ℕ → List ℕ
for_tags f change tags =
    let one = if has_flag 1 f then change 1 tags else tags in
    let two = if has_flag 2 f then change 2 one else one in
    let three = if has_flag 3 f then change 3 two else two in
    if has_flag 4 f then change 4 three else three

abbrev pub reset_tag : ℕ → (ℕ → List ℕ) → ℕ → List ℕ
reset_tag k = set_tag k []

abbrev pub append_tag : List ℕ → ℕ → (ℕ → List ℕ) → ℕ → List ℕ
append_tag text k tags = set_tag k (tags k ++ text) tags

-- What strncat copies
abbrev pub until_zero : List ℕ → List ℕ
until_zero [] = []
until_zero (c ∷ cs) = let rest = until_zero cs in if c == 0 then [] else c ∷ rest

-- `token_end (i) - token_start (i)`, as unsigned
abbrev pub span : ℕ × ℕ → ℕ
span (start, end) = (end + (2 ^ 32 - start)) % 2 ^ 32

-- GRAB_TAG, and the string in its place if there is one
abbrev pub grabbed : Option (List ℕ) → List ℕ → ℕ × ℕ → List ℕ
grabbed (some string) content register = string
grabbed none content register = until_zero (take (span register) (drop register.0 content))

abbrev pub grab_encoding : List ℕ → Printing → Printing
grab_encoding text p = record p { grabbing_encoding = true; bufenc = p.bufenc ++ text }

-- `some information to grab`
unfoldable pub grab : List ℕ → Printing → Printing
grab text p =
    let p' = record p { tags = for_tags p.fface (append_tag text) p.tags } in
    if has_flag encoding_flag p.fface then grab_encoding text p' else p'

module _ (s : Settings) where
  abbrev pub print_text : Option (List ℕ) → List ℕ → ℕ × ℕ → ℕ → Job → Job
  print_text (some string) content register face = ps_print_string s string face
  print_text none content (start, end) face = ps_print_buffer s content start end face

  -- `If not invisible, give it to liba2ps for printing.`
  unfoldable pub show_text : Option (List ℕ) → List ℕ → ℕ × ℕ → Printing → Printing
  show_text string content register p =
      if has_flag invisible p.fface
      then p
      else record p { job = print_text string content register p.fface.face p.job }

abbrev pub with_next_job : Job → Printing → Printing
with_next_job j p = record p { job = j }

module _ (get_encoding_by_alias : List ℕ → Option ℕ) where
  abbrev pub switch_to : Option ℕ → Job → Job
  switch_to none j = j
  switch_to (some e) j = ps_switch_encoding e j

  -- `Grabbing of the encoding name is completed`
  unfoldable pub end_grabbing : Printing → Printing
  end_grabbing p = record p {
    job = switch_to (get_encoding_by_alias p.bufenc) p.job;
    bufenc = [];
    grabbing_encoding = false;
  }

  -- `Is a new face ?`
  unfoldable pub turn_face : Fface → Printing → Printing
  turn_face f p =
      if fface_squ p.fface f
      then p
      else (let p' = record p { tags = for_tags f reset_tag p.tags } in
          let p'' =
            if p'.grabbing_encoding && not (has_flag encoding_flag f)
            then end_grabbing p'
            else p' in
          record p'' { fface = f })

  module _ (s : Settings) where
    -- The body of the loop over the right hand side
    unfoldable pub print_piece : List ℕ → Registers → FacedString → Printing → Printing
    print_piece content regs d p =
        let register = regs d.reg_ref in
        let turned = turn_face d.face p in
        let after = grab (grabbed d.string content register) turned in
        show_text s d.string content register after

    unfoldable pub print_rhs : List ℕ → Registers → List FacedString → Printing → Printing
    print_rhs content regs [] p = p
    print_rhs content regs (d ∷ ds) p = print_rhs content regs ds (print_piece content regs d p)

    module _ (re_match : Matcher) (tolower : ℕ → ℕ) where
      -- The loop over the tokens: it leaves the static variables too. There is no result without
      -- fuel, and none behind a read far out of an array.
      unfoldable pub print_tokens :
          StyleSheet → ℕ → Buffer → Lexer → Printing → Option (Lexer × Printing)
      print_tokens sheet zero b lx p = none
      print_tokens sheet (suc fuel) b lx p =
          elim (ssh_get_token re_match tolower sheet b lx p.job) [
            | none ↦ none
            | some got ↦ elim got.token [
              | none ↦ some (got.lexer, with_next_job got.job p)
              | some rhs ↦
                  print_tokens sheet fuel got.buffer got.lexer
                    (print_rhs got.buffer.content got.lexer.registers rhs (with_next_job got.job p))
            ]
          ]

      unfoldable pub ssh_print_postscript :
          StyleSheet → ℕ → Buffer → Lexer → (ℕ → List ℕ) → Job → Option (Lexer × Printing)
      ssh_print_postscript sheet fuel b lx tags j = print_tokens sheet fuel b lx (record {
        job = j;
        fface = plain_fface;
        tags = tags;
        bufenc = [];
        grabbing_encoding = false;
      })
