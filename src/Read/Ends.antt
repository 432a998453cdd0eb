-- ===== src/Read/Ends.antt =====
-- The loop of plain_print_postscript ends: every call of plain_getc leaves less to read.
use a2ps.Prelude.{
  ℕ, zero, suc, ◌<◌, ◌≡◌, refl, ◌∙◌, ap, ◌==◌, tests, Bool-cases, Option-cases, false, inl, inr,
  Option, none, some, arith, ◌⊎◌, leb→gt, lt→leb,
}
use a2ps.Buffer.{Buffer, buffer_get, buffer_is_empty}
use a2ps.Buffer.Unread.{unread, buffer_get-le, buffer_get-curr}
use a2ps.PsGen.{Settings, Job}
use a2ps.PsGen.Print.{ps_print_char}
use a2ps.Read.{take_char, after_get, plain_getc, plain_print_postscript, set_lines, Got}

pub positive : (n : ℕ) → n == 0 ≡ false → 0 < n
positive n h = ground arith

abbrev next : Settings → (Buffer → Job → Option Job) → Got → Option (ℕ × ℕ) → Option Job
next s loop got char = elim char [
  | none ↦ some got.job
  | some (c, face) ↦ loop got.buffer (ps_print_char s c face got.job)
]

fewer :
    {x : ℕ × ℕ} (got : Got) (b : Buffer)
    → (got.char ≡ none) ⊎ (unread got.buffer < unread b)
    → got.char ≡ some x
    → unread got.buffer < unread b
fewer got b (inl h) e = cc
fewer got b (inr h) e = h

module _ (tolower : ℕ → ℕ) where
  take_char-lt :
      (b : Buffer) (j : Job) → buffer_is_empty b ≡ false → unread (take_char b j).buffer < unread b
  unfolding take_char
  take_char-lt b j e = omega (tests, leb→gt b.len b.curr e)

  -- plain_getc tells the end or leaves less to read.
  plain_getc-lt :
      (b : Buffer) (j : Job)
      → ((plain_getc tolower b j).char ≡ none) ⊎ (unread (plain_getc tolower b j).buffer < unread b)
  unfolding plain_getc after_get
  plain_getc-lt b j =
      let b1 = buffer_get tolower b in
      elim (Bool-cases (buffer_is_empty b)) [
        | inr e ↦ rw e (inr (take_char-lt b j e))
        | inl e ↦ elim (Bool-cases (b1.len == 0)) [
          | inl z ↦ rw (e, z) (inl refl)
          | inr p ↦
              let left =
                lt→leb b1.curr b1.len
                  (omega (arith, positive b1.len p, buffer_get-curr tolower b)) in
              rw (e, p)
                (inr (
                  omega
                    (arith, take_char-lt b1 (set_lines b1.line j) left, buffer_get-le tolower b)))
        ]
      ]

  -- Every text is printed: on strings and on streams, whatever bytes they hold and in whatever
  -- state the buffer is, the loop ends when it may go round once more than there are unread bytes.
  pub plain_print_postscript-ends :
      (s : Settings) (fuel : ℕ) (b : Buffer) (j : Job)
      → unread b < fuel
      → (j' : Job) × (plain_print_postscript tolower s fuel b j ≡ some j')
  unfolding plain_print_postscript
  plain_print_postscript-ends s zero b j h = absurd (omega arith)
  plain_print_postscript-ends s (suc fuel) b j h =
      let got = plain_getc tolower b j in
      elim (Option-cases got.char) [
        | inl e ↦ (got.job, ap (next s (plain_print_postscript tolower s fuel) got) e)
        | inr ((c, face), e) ↦
            let less = fewer got b (plain_getc-lt b j) e in
            let (j', ends') =
              plain_print_postscript-ends s fuel got.buffer (ps_print_char s c face got.job)
                (omega arith) in
            (j', ap (next s (plain_print_postscript tolower s fuel) got) e ∙ ends')
      ]
