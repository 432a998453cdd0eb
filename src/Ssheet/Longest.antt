-- ===== src/Ssheet/Longest.antt =====
-- Which string match_operator and match_keyword take: the longest that fits.
use a2ps.Prelude.{
  ℕ, zero, suc, ◌≤◌, ◌<◌, ◌≡◌, refl, sym, ◌∙◌, ap, subst, ◌==◌, ==_iff, Bool, true, false,
  Bool-cases, inl, inr, List, [], ◌∷◌, All, Option, none, some, some_inj, length, get_or, ltb,
  ltb→lt, arith, if◌then◌else◌,
}
use a2ps.Buffer.{Buffer}
use a2ps.Ssheet.{FacedString, Rule, Regexp, first_byte, strprefix, find_string}
use a2ps.Ssheet.Match.{
  Registers, Matcher, Attempt, ahead, take_rule, is_keyword, is_operator, try_regexps,
  strings_first, match_keyword, match_operator,
}
use a2ps.Ssheet.Tiles.{and_left, and_right}
use a2ps.Ssheet.Search.{At, Last, NonePasses, Search, found, nothing}
use a2ps.Ssheet.Intervals.{indexed, indexed-regexps, find_string-Search}

-- `strcmp (u, v) <= 0`
abbrev pub word_le : List ℕ → List ℕ → Bool
word_le [] v = true
word_le (c ∷ cs) [] = false
word_le (c ∷ cs) (d ∷ ds) = if c == d then word_le cs ds else ltb c d

-- The order in which rule_cmp sorts the strings
abbrev pub IsSorted : List Rule → Type 0
IsSorted [] = Unit
IsSorted (r ∷ rs) = All (λ q. word_le r.word q.word ≡ true) rs × IsSorted rs

abbrev pub IsNonEmpty : Rule → Type 0
IsNonEmpty r = 0 < length r.word

All-At : (P : Rule → Type 0) (rs : List Rule) (k : ℕ) (q : Rule) → All P rs → At rs k q → P q
All-At P [] k q h e = cc
All-At P (r ∷ rs) zero q h e = subst P (some_inj e) h.0
All-At P (r ∷ rs) (suc k) q h e = All-At P rs k q h.1 e

sorted-le :
    (rs : List Rule) (i k : ℕ) (r q : Rule)
    → IsSorted rs
    → At rs i r
    → At rs k q
    → i < k
    → word_le r.word q.word ≡ true
sorted-le [] i k r q s at_i at_k l = cc
sorted-le (x ∷ rs) zero zero r q s at_i at_k l = absurd (omega arith)
sorted-le (x ∷ rs) zero (suc k) r q s at_i at_k l =
    subst (λ y. word_le y.word q.word ≡ true) (some_inj at_i)
      (All-At (λ z. word_le x.word z.word ≡ true) rs k q s.0 at_k)
sorted-le (x ∷ rs) (suc i) zero r q s at_i at_k l = absurd (omega arith)
sorted-le (x ∷ rs) (suc i) (suc k) r q s at_i at_k l =
    sorted-le rs i k r q s.1 at_i at_k (omega arith)

-- Of two words that a text begins with, the smaller one is not longer.
prefix-le :
    (u v s : List ℕ)
    → strprefix u s ≡ true
    → strprefix v s ≡ true
    → word_le u v ≡ true
    → length u ≤ length v
unfolding strprefix
prefix-le [] v s hu hv h = omega arith
prefix-le (c ∷ cs) [] s hu hv h = cc
prefix-le (c ∷ cs) (d ∷ ds) [] hu hv h = cc
prefix-le (c ∷ cs) (d ∷ ds) (x ∷ xs) hu hv h =
    let same_c = (==_iff c x).0 (and_left (c == x) (strprefix cs xs) hu) in
    let same_d = (==_iff d x).0 (and_left (d == x) (strprefix ds xs) hv) in
    let same : c == d ≡ true = (==_iff c d).1 (omega arith) in
    let rest : word_le cs ds ≡ true =
      ap (λ t. if t then word_le cs ds else ltb c d) (sym same) ∙ h in
    let shorter = prefix-le cs ds xs (and_right (c == x) _ hu) (and_right (d == x) _ hv) rest in
    omega arith

-- The rule is one of them and fits, and no rule that fits is longer.
pub record Longest (p : Rule → Bool) (rs : List Rule) (r : Rule) : Type 0 where
  pub place : ℕ
  pub there : At rs place r
  pub fits : p r ≡ true
  pub longest : (k : ℕ) (q : Rule) → At rs k q → p q ≡ true → length q.word ≤ length r.word

module _ (p : Rule → Bool) (text : List ℕ) (rs : List Rule) (sorted : IsSorted rs)
    (is_prefix : (r : Rule) → p r ≡ true → strprefix r.word text ≡ true) where
  Last-Longest : (r : Rule) → Last p rs r → Longest p rs r
  Last-Longest r h = record {
    place = h.place;
    there = h.there;
    fits = h.passes;
    longest = λ k q at_k e. earlier k q at_k e;
  }
    where
      same_rule : (k : ℕ) (q : Rule) → At rs k q → k ≡ h.place → length q.word ≤ length r.word
      same_rule k q at_k e =
          let here : At rs h.place q = subst (λ i. At rs i q) e at_k in
          let same : q ≡ r = some_inj (sym here ∙ h.there) in
          omega (arith, ap (λ (x : Rule). length x.word) same)

      differ : false ≡ true → ⊥
      differ e = cc

      later : (k : ℕ) → k == h.place ≡ false → ltb k h.place ≡ false → h.place < k
      later k other l = ground arith

      earlier : (k : ℕ) (q : Rule) → At rs k q → p q ≡ true → length q.word ≤ length r.word
      earlier k q at_k e = elim (Bool-cases (k == h.place)) [
        | inl same ↦ same_rule k q at_k ((==_iff k h.place).0 same)
        | inr other ↦ elim (Bool-cases (ltb k h.place)) [
          | inl l ↦
              prefix-le q.word r.word text (is_prefix q e) (is_prefix r h.passes)
                (sorted-le rs k h.place q r sorted at_k h.there (ltb→lt k h.place l))
          | inr l ↦ absurd (differ (sym (h.later_fail k q (later k other l) at_k) ∙ e))
        ]
      ]

-- A word that is not empty and that the text begins with begins as the text does.
first_byte-prefix :
    (r : Rule) (text : List ℕ)
    → 0 < length r.word
    → strprefix r.word text ≡ true
    → first_byte r ≡ get_or text 0 0
unfolding strprefix
first_byte-prefix r text l h = first_of r.word text l h
  where
    first_of :
        (w text : List ℕ) → 0 < length w → strprefix w text ≡ true → get_or w 0 0 ≡ get_or text 0 0
    first_of [] text l h = absurd (omega arith)
    first_of (c ∷ cs) [] l h = cc
    first_of (c ∷ cs) (d ∷ ds) l h = (==_iff c d).0 (and_left (c == d) (strprefix cs ds) h)

-- The longest string that fits is taken, and the regexps are tried only where none fits.
pub data TakesLongest (re_match : Matcher) (rs : List Rule) (regexps : List Regexp) (b : Buffer)
    (regs : Registers) (p : Rule → Bool) : Attempt (List FacedString) → Type 0 where
  longest_string :
      (r : Rule) → Longest p rs r → TakesLongest re_match rs regexps b regs p (take_rule r b regs)
  no_string :
      NonePasses p rs
      → TakesLongest re_match rs regexps b regs p (try_regexps re_match regexps b regs)

module _ (re_match : Matcher) (rs : List Rule) (regexps : List Regexp) (b : Buffer)
    (regs : Registers) (sorted : IsSorted rs) (nonempty : All IsNonEmpty rs) where
  -- What a search found is taken.
  take_found :
      (p : Rule → Bool) (o : Option Rule)
      → ((r : Rule) → p r ≡ true → strprefix r.word (ahead b) ≡ true)
      → Search p rs o
      → TakesLongest re_match rs regexps b regs p
          (strings_first re_match o (indexed rs regexps) b regs)
  take_found p o is_prefix (found r h) =
      longest_string r (Last-Longest p (ahead b) rs sorted is_prefix r h)
  take_found p o is_prefix (nothing h) =
      subst (λ rules. TakesLongest re_match rs regexps b regs p (try_regexps re_match rules b regs))
        (sym (indexed-regexps rs regexps)) (no_string h)

  strings-TakesLongest :
      (p : Rule → Bool)
      → ((r : Rule) → p r ≡ true → strprefix r.word (ahead b) ≡ true)
      → TakesLongest re_match rs regexps b regs p (
          strings_first re_match
            (find_string p (indexed rs regexps) (get_or (ahead b) 0 0))
            (indexed rs regexps)
            b
            regs)
  strings-TakesLongest p is_prefix = take_found p _ is_prefix (
      find_string-Search p rs regexps (get_or (ahead b) 0 0) (λ k r at_k e.
        first_byte-prefix r (ahead b) (All-At IsNonEmpty rs k r nonempty at_k) (is_prefix r e)))

  -- With strings that rule_cmp has sorted and none of which is empty, indexed as words_finalize
  -- does, match_operator takes the longest string that the text at the current point begins with,
  -- and match_keyword the longest behind which no byte of the alphabet stands; where there is none
  -- they try the regexps. match_keyword has this result where the byte at the current point is
  -- below 128, and none, for the read out of the array, where it is not.
  pub match_keyword-longest :
      (alphabet : ℕ → Bool)
      → TakesLongest re_match rs regexps b regs
          (is_operator (ahead b))
          (match_operator re_match (indexed rs regexps) b regs)
        × ((a : Attempt (List FacedString)) × (match_keyword re_match
                (indexed rs regexps)
                alphabet
                b
                regs
              ≡ (if ltb 127 (get_or (ahead b) 0 0) then none else some a))
            × TakesLongest re_match rs regexps b regs (is_keyword alphabet (ahead b)) a)
  unfolding match_keyword match_operator
  match_keyword-longest alphabet = (
    strings-TakesLongest (is_operator (ahead b)) (λ r e. e),
    (
      _,
      refl,
      strings-TakesLongest (is_keyword alphabet (ahead b))
          (λ r e. and_left (strprefix r.word (ahead b)) _ e),
    ),
  )
