-- ===== src/Ssheet/Tokens.antt =====
-- The tokens of ssh_get_token: each is a piece of the line that begins at the current point.
use a2ps.Prelude.{
  ℕ, ◌+◌, ◌≤◌, ◌<◌, ◌≡◌, refl, ◌∙◌, ap, true, Bool-cases, inl, inr, List, All, Option, none, some,
  get_or, arith,
}
use a2ps.Buffer.{Buffer}
use a2ps.Ssheet.{Fface, FacedString, Words, Sequence, StyleSheet, plain_fface}
use a2ps.Ssheet.Match.{
  Registers, Matcher, Attempt, skip_bytes, plain_rhs, word_length, match_operator, Opened,
}
use a2ps.Ssheet.Token.{
  Lexer, Lexed, lexed, on_found, set_registers, keep, leave, close_sequence, plain_lexed,
  close_or_go_on, in_sequence, operator_token, word_token, in_plain, behind_sequence,
  out_of_sequence, returned, token_behind, take_token,
}
use a2ps.Ssheet.Tiles.{IsText, IsMatcher, Advances, Tile, missed, taken}
use a2ps.Ssheet.Attempts.{
  GoodWords, GoodSequence, match_operator-Tile, match_keyword-Tile, match_sequence-Tile,
  word_length-bounds,
}

-- What a sheet may do: `Good` tells its right hand sides, `Fit` the faces of its sequences, and a
-- plain token in such a face is good. The first alphabet is in ASCII.
pub record GoodSheet (Good : List FacedString → Type 0) (Fit : Fface → Type 0) (sheet : StyleSheet)
    : Type 0 where
  pub plain_fits : Fit plain_fface
  pub plain_good : (f : Fface) → Fit f → Good (plain_rhs f)
  pub ascii : (c : ℕ) → sheet.alpha1 c ≡ true → c < 128
  pub keywords_good : GoodWords Good sheet.keywords
  pub operators_good : GoodWords Good sheet.operators
  pub sequences_good : All (GoodSequence Good Fit) sheet.sequences

abbrev pub AllIn {ℓ} : {A : Type ℓ} → (A → Type 0) → Option A → Type 0
AllIn P none = Unit
AllIn P (some a) = P a

pub record GoodLexer (Good : List FacedString → Type 0) (Fit : Fface → Type 0) (lx : Lexer)
    : Type 0 where
  pub face_fits : Fit lx.plain_face
  pub sequence_good : AllIn (GoodSequence Good Fit) lx.sequence

-- A token: `n` bytes of the line, on which register 0 is set
pub data Lexes (Good : List FacedString → Type 0) (Fit : Fface → Type 0) (b : Buffer)
    : Lexed → Type 0 where
  lexes :
      (rhs : List FacedString) (n : ℕ) (lx : Lexer)
      → Good rhs
      → 0 < n
      → b.curr + n ≤ b.len
      → lx.registers 0 ≡ (b.curr, b.curr + n)
      → GoodLexer Good Fit lx
      → Lexes Good Fit b (lexed rhs (skip_bytes n b) lx)

module _ {Good : List FacedString → Type 0} {Fit : Fface → Type 0} (b : Buffer) where
  on_found-Lexes :
      {a : Attempt (List FacedString)} (then_set : Lexer → Lexer) (lx : Lexer)
      (otherwise : Buffer → Registers → Lexed)
      → Tile Good b a
      → ((regs : Registers) → (then_set (set_registers regs lx)).registers ≡ regs)
      → ((regs : Registers) → GoodLexer Good Fit (then_set (set_registers regs lx)))
      → ((regs : Registers) → Lexes Good Fit b (otherwise b regs))
      → Lexes Good Fit b (on_found a then_set lx otherwise)
  on_found-Lexes then_set lx otherwise (missed regs) kept good other = other regs
  on_found-Lexes then_set lx otherwise (taken rhs n regs p l e r) kept good other =
      lexes rhs n (then_set (set_registers regs lx)) p l e
        (ap (λ (f : Registers). f 0) (kept regs) ∙ r) (good regs)

  plain-Lexes :
      (f : Fface) (n : ℕ) (regs : Registers) (lx : Lexer)
      → Good (plain_rhs f)
      → Fit f
      → 0 < n
      → b.curr + n ≤ b.len
      → GoodLexer Good Fit lx
      → Lexes Good Fit b (plain_lexed f n b regs lx)
  plain-Lexes f n regs lx p fit l e g =
      lexes (plain_rhs f) n _ p l e refl
        (record { face_fits = fit; sequence_good = g.sequence_good })

module _ {Good : List FacedString → Type 0} {Fit : Fface → Type 0} (re_match : Matcher)
    (m : IsMatcher re_match) (adv : Advances re_match) (sheet : StyleSheet)
    (g : GoodSheet Good Fit sheet) (b : Buffer) (t : IsText b) (left : b.curr < b.len) where
  operator_Tile :
      (w : Words) (regs : Registers)
      → GoodWords Good w
      → Tile Good b (match_operator re_match w b regs)
  operator_Tile w regs h = match_operator-Tile re_match m adv b t Good w regs h

  plain_byte :
      (f : Fface) (regs : Registers) (lx : Lexer)
      → Fit f
      → GoodLexer Good Fit lx
      → Lexes Good Fit b (plain_lexed f 1 b regs lx)
  plain_byte f regs lx fit h =
      plain-Lexes b f 1 regs lx (g.plain_good f fit) fit (omega arith) (omega arith) h

  close_or_go_on-Lexes :
      (regs : Registers) (q : Sequence) (lx : Lexer)
      → GoodSequence Good Fit q
      → GoodLexer Good Fit lx
      → Lexes Good Fit b (close_or_go_on re_match q lx b regs)
  close_or_go_on-Lexes regs q lx gq h =
      on_found-Lexes b close_sequence lx (λ b regs. plain_lexed q.face 1 b regs lx)
        (operator_Tile q.close regs gq.close_good) (λ regs. refl)
        (λ regs. record { face_fits = h.face_fits; sequence_good = tt })
        (λ regs. plain_byte q.face regs lx gq.face_fits h)

  in_sequence-Lexes :
      (q : Sequence) (lx : Lexer)
      → GoodSequence Good Fit q
      → GoodLexer Good Fit lx
      → Lexes Good Fit b (in_sequence re_match q b lx)
  unfolding in_sequence
  in_sequence-Lexes q lx gq h =
      on_found-Lexes b keep lx (close_or_go_on re_match q lx)
        (operator_Tile q.exceptions lx.registers gq.exceptions_good) (λ regs. refl)
        (λ regs. record { face_fits = h.face_fits; sequence_good = h.sequence_good })
        (λ regs. close_or_go_on-Lexes regs q lx gq h)

  -- `leave` keeps a lexer good.
  left_good :
      (lx : Lexer) (regs : Registers)
      → GoodLexer Good Fit lx
      → GoodLexer Good Fit (leave (set_registers regs lx))
  left_good lx regs h = record { face_fits = h.face_fits; sequence_good = h.sequence_good }

  operator_token-Lexes :
      (regs : Registers) (lx : Lexer)
      → GoodLexer Good Fit lx
      → Lexes Good Fit b (operator_token re_match sheet b regs lx)
  unfolding operator_token
  operator_token-Lexes regs lx h =
      on_found-Lexes b leave lx (λ b regs. plain_lexed lx.plain_face 1 b regs lx)
        (operator_Tile sheet.operators regs g.operators_good) (λ regs. refl)
        (λ regs. left_good lx regs h) (λ regs. plain_byte lx.plain_face regs lx h.face_fits h)

  word_token-Lexes :
      (regs : Registers) (lx : Lexer)
      → GoodLexer Good Fit lx
      → Lexes Good Fit b (word_token re_match sheet b regs lx)
  unfolding word_token
  word_token-Lexes regs lx h =
      let (some_bytes, in_line) = word_length-bounds sheet.alpha2 b left in
      on_found-Lexes b leave lx
        (λ b regs. plain_lexed plain_fface (word_length sheet.alpha2 b) b regs lx)
        (operator_Tile sheet.operators regs g.operators_good) (λ regs. refl)
        (λ regs. left_good lx regs h)
        (λ regs.
          plain-Lexes b plain_fface (word_length sheet.alpha2 b) regs lx
            (g.plain_good plain_fface g.plain_fits) g.plain_fits some_bytes in_line h)

  -- There is a token, and it is a piece of the line.
  abbrev pub Takes : Option Lexed → Type 0
  Takes r = (l : Lexed) × (r ≡ some l) × Lexes Good Fit b l

  in_plain-Takes :
      (regs : Registers) (lx : Lexer)
      → GoodLexer Good Fit lx
      → Takes (in_plain re_match sheet b regs lx)
  unfolding in_plain
  in_plain-Takes regs lx h = elim (Bool-cases (sheet.alpha1 (get_or b.content b.curr 0))) [
    | inr e ↦ rw e ((_, refl, operator_token-Lexes regs lx h))
    | inl e ↦
        let small = t.cased b.curr (g.ascii (get_or b.content b.curr 0) e) in
        let (a, found, tile) =
          match_keyword-Tile re_match m adv b t Good sheet.keywords sheet.alpha2 regs
            g.keywords_good small in
        rw (e, found)
          ((
            _,
            refl,
            on_found-Lexes b leave lx (λ b regs. word_token re_match sheet b regs lx) tile
                (λ regs. refl) (λ regs. left_good lx regs h) (λ regs. word_token-Lexes regs lx h),
          ))
  ]

  behind_sequence-Takes :
      {a : Attempt Opened} (lx : Lexer)
      → GoodLexer Good Fit lx
      → Tile (λ (x : Opened). GoodSequence Good Fit x.0 × Good x.1) b a
      → Takes (behind_sequence re_match sheet lx a)
  behind_sequence-Takes lx h (missed regs) = in_plain-Takes regs lx h
  behind_sequence-Takes lx h (taken (q, rhs) n regs (gq, p) l e r) = (
    _,
    refl,
    lexes rhs n (record lx { sequence = some q; registers = regs }) p l e r
        (record { face_fits = h.face_fits; sequence_good = gq }),
  )

  out_of_sequence-Takes :
      (lx : Lexer) → GoodLexer Good Fit lx → Takes (out_of_sequence re_match sheet b lx)
  unfolding out_of_sequence
  out_of_sequence-Takes lx h = behind_sequence-Takes lx h (
      match_sequence-Tile re_match m adv b t Good Fit sheet.sequences lx.registers g.sequences_good)

  returned-GoodLexer : (lx : Lexer) → GoodLexer Good Fit lx → GoodLexer Good Fit (returned lx)
  unfolding returned
  returned-GoodLexer lx h = elim (Bool-cases lx.return_to_plain) [
    | inl e ↦ rw e (record { face_fits = g.plain_fits; sequence_good = h.sequence_good })
    | inr e ↦ rw e (record { face_fits = h.face_fits; sequence_good = h.sequence_good })
  ]

  token_behind-Takes :
      (lx : Lexer) (o : Option Sequence)
      → GoodLexer Good Fit lx
      → AllIn (GoodSequence Good Fit) o
      → Takes (token_behind re_match sheet b lx o)
  token_behind-Takes lx none h gq = out_of_sequence-Takes lx h
  token_behind-Takes lx (some q) h gq = (_, refl, in_sequence-Lexes q lx gq h)

  -- Where something of the line is left, there is a token.
  pub take_token-Takes :
      (lx : Lexer) → GoodLexer Good Fit lx → Takes (take_token re_match sheet b lx)
  unfolding take_token
  take_token-Takes lx h =
      let h' = returned-GoodLexer lx h in
      token_behind-Takes (returned lx) (returned lx).sequence h' h'.sequence_good
