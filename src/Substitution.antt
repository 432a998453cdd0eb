-- ===== src/Substitution.antt =====
-- src/liba2ps/xstrrpl.c: substitutions in a string.
--
-- Strings are lists of bytes without the zero that ends them, and `subst` is the list of the pairs
-- before its null pointer. The loop runs on fuel, and has no result without it.
pub mod Replaces
pub mod Tests
use a2ps.Prelude.{
  ℕ, zero, suc, ◌+◌, ◌*◌, ◌%◌, ◌==◌, max, Bool, true, false, ◌&&◌, List, [], ◌∷◌, ◌++◌, Option,
  none, some, length, drop,
}

-- A string, and what replaces it
abbrev pub Pair : Type 0
Pair = List ℕ × List ℕ

-- `max`
unfoldable pub longest : List Pair → ℕ
longest [] = 0
longest (pair ∷ subst) = max (length pair.1) (longest subst)

-- `!strncmp (subst[i][0], string, strlen (subst[i][0]))`
unfoldable pub is_prefix : List ℕ → List ℕ → Bool
is_prefix [] string = true
is_prefix (c ∷ pattern) [] = false
is_prefix (c ∷ pattern) (d ∷ string) = c == d && is_prefix pattern string

-- The loop over `subst`: the first pair that can be used here
unfoldable pub first_match : List Pair → List ℕ → Option Pair
first_match [] string = none
first_match (pair ∷ subst) string = elim (is_prefix pair.0 string) [
  | true ↦ some pair
  | false ↦ first_match subst string
]

-- `while (*string)`; `res` is what was written up to `cp`.
unfoldable pub replace : List Pair → ℕ → List ℕ → List ℕ → Option (List ℕ)
replace subst fuel res [] = some res
replace subst zero res (c ∷ string) = none
replace subst (suc fuel) res (c ∷ string) = elim (first_match subst (c ∷ string)) [
  | some (pattern, by) ↦ replace subst fuel (res ++ by) (drop (length pattern) (c ∷ string))
  | none ↦ replace subst fuel (res ++ c ∷ []) string
]

unfoldable pub xstrrpl : List ℕ → List Pair → Option (List ℕ)
xstrrpl string subst = replace subst (length string) [] string

-- The bytes that are allocated for the result
abbrev pub allocated : List ℕ → List Pair → ℕ
allocated string subst = length string * (longest subst + 1) + 1

abbrev add_pair : Pair → Option (List Pair) → Option (List Pair)
add_pair pair none = none
add_pair pair (some pairs) = some (pair ∷ pairs)

-- The arguments before the null pointer, in pairs; there are less than 100 of these.
unfoldable pub pairs_of : List (List ℕ) → Option (List Pair)
pairs_of [] = some []
pairs_of (pattern ∷ []) = none
pairs_of (pattern ∷ by ∷ args) = add_pair (pattern, by) (pairs_of args)

-- What xstrrpl returns, which is no null pointer
abbrev not_null : Option (List ℕ) → Option (Option (List ℕ))
not_null none = none
not_null (some res) = some (some res)

-- With an argument that has no partner, the null pointer is returned, `some none`.
unfoldable pub xvstrrpl : List ℕ → List (List ℕ) → Option (Option (List ℕ))
xvstrrpl string args = elim (pairs_of args) [
  | none ↦ some none
  | some pairs ↦ not_null (xstrrpl string pairs)
]
