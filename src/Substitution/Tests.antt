-- ===== src/Substitution/Tests.antt =====
-- xstrrpl run on the example of its comment, and its theorem there.
use a2ps.Prelude.{ℕ, ◌+◌, ◌≤◌, ◌≡◌, refl, List, [], ◌∷◌, none, some, length, arith}
use a2ps.Substitution.{
  Pair, longest, is_prefix, first_match, replace, xstrrpl, allocated, pairs_of, xvstrrpl,
}
use a2ps.Substitution.Replaces.{Replaces, xstrrpl-Replaces}

program : Unit {0}
unfolding longest is_prefix first_match replace xstrrpl pairs_of xvstrrpl
program = tt

abbrev digits : List ℕ
digits = b'1' ∷ b'2' ∷ b'3' ∷ b'4' ∷ []

abbrev pairs : List Pair
pairs = (b'1' ∷ [], b'1' ∷ b'1' ∷ []) ∷ (b'3' ∷ [], b'3' ∷ b'3' ∷ b'3' ∷ []) ∷ (b'4' ∷ [], []) ∷ []

substituted : xstrrpl digits pairs ≡ some (b'1' ∷ b'1' ∷ b'2' ∷ b'3' ∷ b'3' ∷ b'3' ∷ [])
unfolding program
substituted = refl

-- The same by xvstrrpl, and an argument without a partner
collected :
    xvstrrpl digits (
      (b'1' ∷ [])
      ∷ (b'1' ∷ b'1' ∷ [])
      ∷ (b'3' ∷ [])
      ∷ (b'3' ∷ b'3' ∷ b'3' ∷ [])
      ∷ (b'4' ∷ [])
      ∷ []
      ∷ [])
    ≡ some (xstrrpl digits pairs)
unfolding program
collected = refl

no_partner : xvstrrpl digits ((b'1' ∷ []) ∷ []) ≡ some none
unfolding program
no_partner = refl

xstrrpl-Replaces_example :
    (out : List ℕ) × (xstrrpl digits pairs ≡ some out)
    × Replaces pairs digits out
    × (length out + 1 ≤ allocated digits pairs)
xstrrpl-Replaces_example = xstrrpl-Replaces digits pairs (omega arith)
