-- ===== src/Ssheet/Plainly.antt =====
-- The printing of a token whose right hand side is the whole match in a face with no flag.
use a2ps.Prelude.{
  ℕ, zero, suc, ◌+◌, ◌-◌, ◌≤◌, ◌≡◌, refl, ◌∙◌, ap, subst, ◌==◌, ==_iff, true, false, Bool-cases,
  inl, inr, List, [], ◌∷◌, ◌++◌, ◌<◌, Option, none, length, get_or, drop, arith,
}
use a2ps.PsGen.{Settings}
use a2ps.PsGen.Print.{ps_print_string}
use a2ps.Ssheet.{Fface, fface_squ}
use a2ps.Ssheet.Match.{Registers, plain_rhs}
use a2ps.Ssheet.Tiles.{and_left, and_right}
use a2ps.Ssheet.Print.{
  Printing, bytes_from, ps_print_buffer, grab, show_text, turn_face, print_piece, print_rhs,
  grabbed,
}

-- A face with no flag
abbrev pub unflagged : ℕ → Fface
unflagged face = record { face = face; flags = 0 }

-- What such a token changes: the bytes are printed, and nothing is grabbed.
pub record Plainly (s : Settings) (text : List ℕ) (face : ℕ) (p p' : Printing) : Type 0 where
  pub job_printed : p'.job ≡ ps_print_string s text face p.job
  pub same_tags : p'.tags ≡ p.tags
  pub not_grabbing : p'.grabbing_encoding ≡ false

fface_squ-eq : (f g : Fface) → fface_squ f g ≡ true → f ≡ g
fface_squ-eq f g e =
    let same_face = (==_iff f.face g.face).0 (and_left (f.face == g.face) (f.flags == g.flags) e) in
    let same_flags =
      (==_iff f.flags g.flags).0 (and_right (f.face == g.face) (f.flags == g.flags) e) in
    λ i. record { face = same_face i; flags = same_flags i }

-- The face is turned to, and nothing else changes.
record Turned (face : ℕ) (p p' : Printing) : Type 0 where
  turned_to : p'.fface ≡ unflagged face
  same_job : p'.job ≡ p.job
  kept_tags : p'.tags ≡ p.tags
  kept_grabbing : p'.grabbing_encoding ≡ false

module _ (get_encoding_by_alias : List ℕ → Option ℕ) where
  turn_face-Turned :
      (face : ℕ) (p : Printing)
      → p.grabbing_encoding ≡ false
      → Turned face p (turn_face get_encoding_by_alias (unflagged face) p)
  unfolding turn_face
  turn_face-Turned face p h = elim (Bool-cases (fface_squ p.fface (unflagged face))) [
    | inl e ↦ rw e (record {
      turned_to = fface_squ-eq p.fface (unflagged face) e;
      same_job = refl;
      kept_tags = refl;
      kept_grabbing = h;
    })
    | inr e ↦
        rw (e, h)
          (record { turned_to = refl; same_job = refl; kept_tags = refl; kept_grabbing = refl })
  ]

  show-Plainly :
      (s : Settings) (content : List ℕ) (start end face : ℕ) (text : List ℕ) (p p' : Printing)
      → Turned face p p'
      → Plainly s
          (bytes_from content start (end - start))
          face
          p
          (show_text s none content (start, end) (grab text p'))
  unfolding show_text grab ps_print_buffer
  show-Plainly s content start end face text p p' t = rw t.turned_to (record {
    job_printed = ap (ps_print_string s (bytes_from content start (end - start)) face) t.same_job;
    same_tags = t.kept_tags;
    not_grabbing = t.kept_grabbing;
  })

  pub print_rhs-Plainly :
      (s : Settings) (content : List ℕ) (regs : Registers) (start n face : ℕ) (p : Printing)
      → p.grabbing_encoding ≡ false
      → regs 0 ≡ (start, start + n)
      → Plainly s
          (bytes_from content start n)
          face
          p
          (print_rhs get_encoding_by_alias s content regs (plain_rhs (unflagged face)) p)
  unfolding print_rhs print_piece
  print_rhs-Plainly s content regs start n face p h r =
      let turned = turn_face get_encoding_by_alias (unflagged face) p in
      let shown =
        show-Plainly s content start (start + n) face (grabbed none content (start, start + n)) p
          turned (turn_face-Turned face p h) in
      let long : start + n - start ≡ n = omega arith in
      rw r (
        subst
          (λ k. Plainly s (bytes_from content start k) face p (
            show_text s none content (start, start + n)
              (grab (grabbed none content (start, start + n)) turned)))
          long shown)

drop-get_or :
    (content : List ℕ) (start : ℕ)
    → start < length content
    → drop start content ≡ get_or content start 0 ∷ drop (suc start) content
drop-get_or [] start h = absurd (omega arith)
drop-get_or (c ∷ cs) zero h = refl
drop-get_or (c ∷ cs) (suc start) h = drop-get_or cs start (omega arith)

-- What is unread is the bytes of a piece, and what is unread behind them.
pub drop-bytes_from :
    (content : List ℕ) (start n : ℕ)
    → start + n ≤ length content
    → drop start content ≡ bytes_from content start n ++ drop (start + n) content
drop-bytes_from content start zero h =
    let e : start ≡ start + 0 = omega arith in ap (λ k. drop k content) e
drop-bytes_from content start (suc n) h =
    let e : suc start + n ≡ start + suc n = omega arith in
    let one : suc start ≡ start + 1 = omega arith in
    drop-get_or content start (omega arith)
    ∙ ap (◌∷◌ (get_or content start 0)) (
        drop-bytes_from content (suc start) n (omega arith)
        ∙ ap (λ k. bytes_from content k n ++ drop (suc start + n) content) one
        ∙ ap (λ k. bytes_from content (start + 1) n ++ drop k content) e)
