-- ===== src/Diversion/Pieces.antt =====
-- The pieces of a diversion, and what they and the values between them make.
use a2ps.Prelude.{
  ℕ, ◌≡◌, ◌≢◌, refl, sym, ◌∙◌, ap, subst, ne→==, List, [], ◌∷◌, ◌++◌, append_assoc, append-nil, All,
  All-append, Option, some,
}
use a2ps.Diversion.{Derivation, before_zero, behind_zero, dump_pieces}

abbrev pub NoZero : List ℕ → Type 0
NoZero = All (λ c. c ≢ 0)

-- A content with its derivations, and what they make when `value` is what they stand for
pub data Pieces (value : Derivation → List ℕ) : List ℕ → List Derivation → List ℕ → Type 0 where
  last : (t : List ℕ) → NoZero t → Pieces value t [] t
  piece :
      (t : List ℕ) (d : Derivation) {content : List ℕ} {ds : List Derivation} {out : List ℕ}
      → NoZero t
      → Pieces value content ds out
      → Pieces value (t ++ 0 ∷ content) (d ∷ ds) (t ++ (value d ++ out))

before_zero-NoZero : (t : List ℕ) → NoZero t → before_zero t ≡ t
before_zero-NoZero [] h = refl
before_zero-NoZero (c ∷ cs) h = rw (ne→== c 0 h.0) (ap (◌∷◌ c) (before_zero-NoZero cs h.1))

before_zero-append : (t rest : List ℕ) → NoZero t → before_zero (t ++ 0 ∷ rest) ≡ t
before_zero-append [] rest h = refl
before_zero-append (c ∷ cs) rest h =
    rw (ne→== c 0 h.0) (ap (◌∷◌ c) (before_zero-append cs rest h.1))

behind_zero-append : (t rest : List ℕ) → NoZero t → behind_zero (t ++ 0 ∷ rest) ≡ rest
behind_zero-append [] rest h = refl
behind_zero-append (c ∷ cs) rest h = rw (ne→== c 0 h.0) (behind_zero-append cs rest h.1)

module _ {value : Derivation → List ℕ} where
  -- A text goes to the last piece.
  pub text-Pieces :
      {content : List ℕ} {ds : List Derivation} {out : List ℕ} (t : List ℕ)
      → NoZero t
      → Pieces value content ds out
      → Pieces value (content ++ t) ds (out ++ t)
  text-Pieces t h (last u k) = last (u ++ t) (All-append (λ c. c ≢ 0) u t k h)
  text-Pieces t h (piece u d {content} {ds} {out} k rest) =
      let moved = piece u d k (text-Pieces t h rest) in
      let same_out : u ++ (value d ++ (out ++ t)) ≡ (u ++ (value d ++ out)) ++ t =
        ap (λ x. u ++ x) (sym (append_assoc (value d) out t))
        ∙ sym (append_assoc u (value d ++ out) t) in
      subst (λ c. Pieces value c (d ∷ ds) ((u ++ (value d ++ out)) ++ t))
        (sym (append_assoc u (0 ∷ content) t))
        (subst (Pieces value (u ++ 0 ∷ (content ++ t)) (d ∷ ds)) same_out moved)

  -- A derivation begins a piece.
  pub derivation-Pieces :
      {content : List ℕ} {ds : List Derivation} {out : List ℕ} (d : Derivation)
      → Pieces value content ds out
      → Pieces value (content ++ 0 ∷ []) (ds ++ d ∷ []) (out ++ value d)
  derivation-Pieces d (last u k) =
      subst (Pieces value (u ++ 0 ∷ []) (d ∷ [])) (ap (λ x. u ++ x) (append-nil (value d)))
        (piece u d k (last [] tt))
  derivation-Pieces e (piece u d {content} {ds} {out} k rest) =
      let moved = piece u d k (derivation-Pieces e rest) in
      let same_out : u ++ (value d ++ (out ++ value e)) ≡ (u ++ (value d ++ out)) ++ value e =
        ap (λ x. u ++ x) (sym (append_assoc (value d) out (value e)))
        ∙ sym (append_assoc u (value d ++ out) (value e)) in
      subst (λ c. Pieces value c (d ∷ (ds ++ e ∷ [])) ((u ++ (value d ++ out)) ++ value e))
        (sym (append_assoc u (0 ∷ content) (0 ∷ [])))
        (subst (Pieces value (u ++ 0 ∷ (content ++ 0 ∷ [])) (d ∷ (ds ++ e ∷ []))) same_out moved)

  -- The dump of the pieces
  pub dump_pieces-Pieces :
      {content : List ℕ} {ds : List Derivation} {out : List ℕ} (read : Derivation → Option (List ℕ))
      → Pieces value content ds out
      → All (λ d. read d ≡ some (value d)) ds
      → dump_pieces read content ds ≡ some out
  unfolding dump_pieces
  dump_pieces-Pieces read (last u k) h = ap some (before_zero-NoZero u k)
  dump_pieces-Pieces read (piece u d {content} {ds} {out} k rest) h =
      let later = dump_pieces-Pieces read rest h.1 in
      rw (before_zero-append u content k, behind_zero-append u content k, h.0, later) refl
