-- ===== src/Ssheet/Token.antt =====
-- ssh_get_token of sshread.c, with its static variables.
use a2ps.Prelude.{ℕ, Bool, true, false, Option, none, some, List, ◌==◌, get_or, if◌then◌else◌}
use a2ps.Buffer.{Buffer, buffer_get, buffer_is_empty}
use a2ps.PsGen.{Job}
use a2ps.Read.{set_lines}
use a2ps.Ssheet.{Fface, FacedString, Sequence, StyleSheet, plain_fface}
use a2ps.Ssheet.Match.{
  Registers, Matcher, Attempt, plain_rhs, skip_bytes, token_set_registers, word_length,
  match_keyword, match_operator, match_sequence, Opened,
}

-- The static variables of ssh_get_token, the face in the only string of plain_rhs, which is shared
-- by all plain tokens and written over, and the registers
pub record Lexer : Type 0 where
  pub return_to_plain : Bool
  pub sequence : Option Sequence
  pub plain_face : Fface
  pub registers : Registers

-- What a call leaves; there is no token at the end of the file.
pub record GotToken : Type 0 where
  pub token : Option (List FacedString)
  pub buffer : Buffer
  pub lexer : Lexer
  pub job : Job

-- The same before the job is known
pub record Lexed : Type 0 where
  pub rhs : List FacedString
  pub buffer : Buffer
  pub lexer : Lexer

abbrev pub lexed : List FacedString → Buffer → Lexer → Lexed
lexed rhs b lx = record { rhs = rhs; buffer = b; lexer = lx }

abbrev pub set_registers : Registers → Lexer → Lexer
set_registers regs lx = record lx { registers = regs }

abbrev pub set_plain_face : Fface → Lexer → Lexer
set_plain_face face lx = record lx { plain_face = face }

-- `if (attempt) { ...; return 1; }`, and else what follows it
abbrev pub on_found :
    Attempt (List FacedString) → (Lexer → Lexer) → Lexer → (Buffer → Registers → Lexed) → Lexed
on_found a then_set lx otherwise = elim a.found [
  | some x ↦ lexed x a.buffer (then_set (set_registers a.registers lx))
  | none ↦ otherwise a.buffer a.registers
]

abbrev pub keep : Lexer → Lexer
keep lx = lx

-- `return_to_plain = true`
abbrev pub leave : Lexer → Lexer
leave lx = record lx { return_to_plain = true }

abbrev pub close_sequence : Lexer → Lexer
close_sequence lx = record lx { return_to_plain = true; sequence = none }

-- A plain token was taken.
abbrev pub plain_lexed : Fface → ℕ → Buffer → Registers → Lexer → Lexed
plain_lexed face n b regs lx =
    lexed (plain_rhs face) (skip_bytes n b)
      (set_plain_face face (set_registers (token_set_registers b.curr n regs) lx))

-- `if (return_to_plain)`
unfoldable pub returned : Lexer → Lexer
returned lx =
    if lx.return_to_plain
    then record lx { return_to_plain = false; plain_face = plain_fface }
    else lx

abbrev pub with_job : Job → Option Lexed → Option GotToken
with_job j none = none
with_job j (some l) =
    some (record { token = some l.rhs; buffer = l.buffer; lexer = l.lexer; job = j })

module _ (re_match : Matcher) where
  -- `end of sequence ?`
  abbrev pub close_or_go_on : Sequence → Lexer → Buffer → Registers → Lexed
  close_or_go_on q lx b regs =
      on_found (match_operator re_match q.close b regs) close_sequence lx
        (λ b regs. plain_lexed q.face 1 b regs lx)

  -- `if (sequence)`
  unfoldable pub in_sequence : Sequence → Buffer → Lexer → Lexed
  in_sequence q b lx =
      on_found (match_operator re_match q.exceptions b lx.registers) keep lx (close_or_go_on q lx)

  -- The operators, and else one byte in the face that plain_rhs has
  unfoldable pub operator_token : StyleSheet → Buffer → Registers → Lexer → Lexed
  operator_token sheet b regs lx =
      on_found (match_operator re_match sheet.operators b regs) leave lx
        λ b regs. plain_lexed lx.plain_face 1 b regs lx

  -- A byte of the first alphabet that begins no keyword
  unfoldable pub word_token : StyleSheet → Buffer → Registers → Lexer → Lexed
  word_token sheet b regs lx =
      on_found (match_operator re_match sheet.operators b regs) leave lx
        λ b regs. plain_lexed plain_fface (word_length sheet.alpha2 b) b regs lx

  abbrev pub behind_keyword :
      StyleSheet → Lexer → Option (Attempt (List FacedString)) → Option Lexed
  behind_keyword sheet lx none = none
  behind_keyword sheet lx (some a) = some (on_found a leave lx λ b regs. word_token sheet b regs lx)

  -- What stands where no sequence begins
  unfoldable pub in_plain : StyleSheet → Buffer → Registers → Lexer → Option Lexed
  in_plain sheet b regs lx =
      if sheet.alpha1 (get_or b.content b.curr 0)
      then behind_keyword sheet lx (match_keyword re_match sheet.keywords sheet.alpha2 b regs)
      else some (operator_token sheet b regs lx)

  abbrev pub behind_sequence : StyleSheet → Lexer → Attempt Opened → Option Lexed
  behind_sequence sheet lx a = elim a.found [
    | some (q, rhs) ↦
        some (lexed rhs a.buffer (record lx { sequence = some q; registers = a.registers }))
    | none ↦ in_plain sheet a.buffer a.registers lx
  ]

  -- Not in a sequence
  unfoldable pub out_of_sequence : StyleSheet → Buffer → Lexer → Option Lexed
  out_of_sequence sheet b lx =
      behind_sequence sheet lx (match_sequence re_match sheet.sequences b lx.registers)

  abbrev pub token_behind : StyleSheet → Buffer → Lexer → Option Sequence → Option Lexed
  token_behind sheet b lx none = out_of_sequence sheet b lx
  token_behind sheet b lx (some q) = some (in_sequence q b lx)

  -- The token at the current point; none is a read far out of an array.
  unfoldable pub take_token : StyleSheet → Buffer → Lexer → Option Lexed
  take_token sheet b lx = token_behind sheet b (returned lx) (returned lx).sequence

  -- The line that was got, or the end of the file
  unfoldable pub after_line : StyleSheet → Buffer → Lexer → Job → Option GotToken
  after_line sheet b lx j =
      let j' = set_lines b.line j in
      if b.len == 0
      then some (record {
        token = none;
        buffer = b;
        lexer = record lx { sequence = none; return_to_plain = false };
        job = j';
      })
      else with_job j' (take_token sheet b lx)

  unfoldable pub ssh_get_token : (ℕ → ℕ) → StyleSheet → Buffer → Lexer → Job → Option GotToken
  ssh_get_token tolower sheet b lx j =
      if buffer_is_empty b
      then after_line sheet (buffer_get tolower b) lx j
      else with_job j (take_token sheet b lx)
