-- ===== src/Substitution/Replaces.antt =====
-- What the result of the substitutions is, and that it fits.
use native.Mathlib.Nat.{mul-le-mul_right}
use a2ps.Prelude.{
  ℕ, zero, suc, ◌+◌, ◌*◌, ◌<◌, ◌≤◌, ◌≡◌, refl, sym, ◌∙◌, ap, subst, inl, inr, arith, ==_iff, ◌==◌,
  Bool-cases, true, false, List, [], ◌∷◌, ◌++◌, append_assoc, append-nil, Option, Option-cases,
  none, some, some_inj, length, length-append, length-drop, drop, All,
}
use a2ps.Substitution.{Pair, longest, is_prefix, first_match, replace, xstrrpl, allocated}

-- From left to right: where no string of a pair stands, the byte is kept, and elsewhere the first
-- of the pairs whose string stands there is used.
pub data Replaces (pairs : List Pair) : List ℕ → List ℕ → Type 0 where
  done : Replaces pairs [] []
  kept :
      (c : ℕ) {string out : List ℕ}
      → All (λ pair. is_prefix pair.0 (c ∷ string) ≡ false) pairs
      → Replaces pairs string out
      → Replaces pairs (c ∷ string) (c ∷ out)
  replaced :
      (pattern by : List ℕ) {string out : List ℕ} (before after : List Pair)
      → pairs ≡ before ++ (pattern, by) ∷ after
      → All (λ pair. is_prefix pair.0 (pattern ++ string) ≡ false) before
      → Replaces pairs string out
      → Replaces pairs (pattern ++ string) (by ++ out)

split_prefix :
    (pattern string : List ℕ)
    → is_prefix pattern string ≡ true
    → string ≡ pattern ++ drop (length pattern) string
unfolding is_prefix
split_prefix [] string h = refl
split_prefix (c ∷ pattern) [] h = cc
split_prefix (c ∷ pattern) (d ∷ string) h = elim (Bool-cases (c == d)) [
  | inl e ↦
      let rest : is_prefix pattern string ≡ true = rw (e, is_prefix) at h in
      ap (λ x. x ∷ string) (sym ((==_iff c d).0 e))
      ∙ ap (λ t. c ∷ t) (split_prefix pattern string rest)
  | inr e ↦ let bad : false ≡ true = rw (e, is_prefix) at h in cc
]

-- Where the loop over the pairs stops
first_match-some :
    (pairs : List Pair) (string : List ℕ) (pair : Pair)
    → first_match pairs string ≡ some pair
    → (before : List Pair) × (after : List Pair) × (pairs ≡ before ++ pair ∷ after)
      × All (λ p. is_prefix p.0 string ≡ false) before
      × (is_prefix pair.0 string ≡ true)
      × (length pair.1 ≤ longest pairs)
unfolding first_match longest
first_match-some [] string pair h = cc
first_match-some (p ∷ pairs) string pair h = elim (Bool-cases (is_prefix p.0 string)) [
  | inl e ↦
      let same : p ≡ pair = some_inj (rw (e, first_match) at h) in
      (
        [],
        pairs,
        ap (λ x. x ∷ pairs) same,
        tt,
        subst (λ x. is_prefix x.0 string ≡ true) same e,
        omega (arith, ap (λ x. length x.1) same),
      )
  | inr e ↦
      let (before, after, split, differ, fits, short) =
        first_match-some pairs string pair (rw (e, first_match) at h) in
      (p ∷ before, after, ap (λ x. p ∷ x) split, (e, differ), fits, omega arith)
]

first_match-none :
    (pairs : List Pair) (string : List ℕ)
    → first_match pairs string ≡ none
    → All (λ p. is_prefix p.0 string ≡ false) pairs
unfolding first_match
first_match-none [] string h = tt
first_match-none (p ∷ pairs) string h = elim (Bool-cases (is_prefix p.0 string)) [
  | inl e ↦ let bad : some p ≡ none = rw (e, first_match) at h in cc
  | inr e ↦ (e, first_match-none pairs string (rw (e, first_match) at h))
]

-- What the loop leaves of `string`, behind what was written before
record Leaves (pairs : List Pair) (res string : List ℕ) (r : Option (List ℕ)) : Type 0 where
  out : List ℕ
  left : r ≡ some (res ++ out)
  replaces : Replaces pairs string out
  fits : length out ≤ length string * (longest pairs + 1)

abbrev pub NonEmpty : List Pair → Type 0
NonEmpty pairs = All (λ pair. 0 < length pair.0) pairs

All-behind :
    (P : Pair → Type 0) (before after : List Pair) (pair : Pair)
    → All P (before ++ pair ∷ after)
    → P pair
All-behind P [] after pair h = h.0
All-behind P (p ∷ before) after pair h = All-behind P before after pair h.1

room_for :
    (n m by out most : ℕ) → m < n → by ≤ most → out ≤ m * (most + 1) → by + out ≤ n * (most + 1)
room_for n m by out most l short h =
    let grows : suc m * (most + 1) ≤ n * (most + 1) = mul-le-mul_right (most + 1) l in
    omega (arith, grows)

replace-Leaves :
    (pairs : List Pair) (fuel : ℕ) (res string : List ℕ)
    → NonEmpty pairs
    → length string ≤ fuel
    → Leaves pairs res string (replace pairs fuel res string)
unfolding replace
replace-Leaves pairs fuel res [] ne l = record {
  out = [];
  left = ap some (sym (append-nil res));
  replaces = done;
  fits = omega arith;
}
replace-Leaves pairs zero res (c ∷ string) ne l = absurd (omega arith)
replace-Leaves pairs (suc fuel) res (c ∷ string) ne l =
    elim (Option-cases (first_match pairs (c ∷ string))) [
      | inl e ↦
          let rest = replace-Leaves pairs fuel (res ++ c ∷ []) string ne (omega arith) in
          record {
            out = c ∷ rest.out;
            left = rw (e, replace) (rest.left ∙ ap some (append_assoc res (c ∷ []) rest.out));
            replaces = kept c (first_match-none pairs (c ∷ string) e) rest.replaces;
            fits = omega (arith, rest.fits);
          }
      | inr ((pattern, by), e) ↦
          let (before, after, split, differ, stands, short) =
            first_match-some pairs (c ∷ string) (pattern, by) e in
          let some_byte =
            All-behind (λ pair. 0 < length pair.0) before after (pattern, by)
              (subst NonEmpty split ne) in
          let tail = drop (length pattern) (c ∷ string) in
          let cut = length-drop (length pattern) (c ∷ string) in
          let whole : c ∷ string ≡ pattern ++ tail = split_prefix pattern (c ∷ string) stands in
          let rest = replace-Leaves pairs fuel (res ++ by) tail ne (omega arith) in
          record {
            out = by ++ rest.out;
            left = rw (e, replace) (rest.left ∙ ap some (append_assoc res by rest.out));
            replaces =
                subst (λ s. Replaces pairs s (by ++ rest.out)) (sym whole)
                  (replaced pattern by before after split
                    (subst (λ s. All (λ p. is_prefix p.0 s ≡ false) before) whole differ)
                    rest.replaces);
            fits =
                subst (λ n. n ≤ length (c ∷ string) * (longest pairs + 1))
                  (sym (length-append by rest.out))
                  (room_for (length (c ∷ string)) (length tail) (length by) (length rest.out)
                    (longest pairs) (omega arith) short rest.fits);
          }
    ]

-- Where no pair replaces the empty string, the substitutions end: from left to right, the first
-- pair whose string stands at a place is used there, and a byte is kept where none does; and the
-- result, with the zero that ends it, fits in what was allocated.
pub xstrrpl-Replaces :
    (string : List ℕ) (pairs : List Pair)
    → NonEmpty pairs
    → (out : List ℕ) × (xstrrpl string pairs ≡ some out)
      × Replaces pairs string out
      × (length out + 1 ≤ allocated string pairs)
unfolding xstrrpl
xstrrpl-Replaces string pairs ne =
    let r = replace-Leaves pairs (length string) [] string ne (omega arith) in
    (r.out, r.left, r.replaces, omega (arith, r.fits))
