-- ===== src/Ssheet/Search.antt =====
-- The search between two indices finds the last rule that passes the test.
use a2ps.Prelude.{
  ℕ, zero, suc, ◌+◌, ◌≤◌, ◌<◌, ◌≡◌, refl, sym, ◌∙◌, subst, ◌==◌, ==_iff, Bool, true, false,
  Bool-cases, inl, inr, ◌⊎◌, List, [], ◌∷◌, Option, none, some, some_inj, length, get_elem?, arith,
  if◌then◌else◌,
}
use a2ps.Ssheet.{Rule, rule_or, last_between}

-- `content[i]` is the rule `r`.
abbrev pub At : List Rule → ℕ → Rule → Type 0
At rs i r = get_elem? rs i ≡ some r

-- The last rule that passes the test, and where it is
pub record Last (p : Rule → Bool) (rs : List Rule) (r : Rule) : Type 0 where
  pub place : ℕ
  pub there : At rs place r
  pub passes : p r ≡ true
  pub later_fail : (k : ℕ) (q : Rule) → place < k → At rs k q → p q ≡ false

abbrev pub NonePasses : (Rule → Bool) → List Rule → Type 0
NonePasses p rs = (k : ℕ) (q : Rule) → At rs k q → p q ≡ false

-- What a search has to tell
pub data Search (p : Rule → Bool) (rs : List Rule) : Option Rule → Type 0 where
  found : (r : Rule) → Last p rs r → Search p rs (some r)
  nothing : NonePasses p rs → Search p rs none

get_elem?-below : (rs : List Rule) (i : ℕ) → i < length rs → (r : Rule) × At rs i r
get_elem?-below [] i h = absurd (omega arith)
get_elem?-below (r ∷ rs) zero h = (r, refl)
get_elem?-below (r ∷ rs) (suc i) h = get_elem?-below rs i (omega arith)

-- Which rules may pass: those in the interval
abbrev pub Outside : (Rule → Bool) → List Rule → ℕ → ℕ → Type 0
Outside p rs lo hi = (k : ℕ) (q : Rule) → At rs k q → (k < lo) ⊎ (hi ≤ k) → p q ≡ false

-- Without the rule `content[hi]`, which fails
narrowed :
    (p : Rule → Bool) (rs : List Rule) (lo hi : ℕ) (r : Rule)
    → Outside p rs lo (suc hi)
    → At rs hi r
    → p r ≡ false
    → Outside p rs lo hi
narrowed p rs lo hi r out there e k q at_k side = elim (Bool-cases (k == hi)) [
  | inl same ↦
      let here : At rs hi q = subst (λ i. At rs i q) ((==_iff k hi).0 same) at_k in
      subst (λ x. p x ≡ false) (some_inj (sym there ∙ here)) e
  | inr other ↦ out k q at_k (elim side [ inl l ↦ inl l | inr l ↦ inr (ground arith) ])
]

pub last_between-Search :
    (p : Rule → Bool) (rs : List Rule) (lo n : ℕ)
    → lo + n ≤ length rs
    → Outside p rs lo (lo + n)
    → Search p rs (last_between p rs lo n)
unfolding last_between
last_between-Search p rs lo zero h out = nothing (λ k q at_k. out k q at_k (sides k))
  where
    sides : (k : ℕ) → (k < lo) ⊎ (lo + 0 ≤ k)
    sides k = ground arith
last_between-Search p rs lo (suc n) h out =
    let (r, there) = get_elem?-below rs (lo + n) (omega arith) in
    let rest = last_between p rs lo n in
    let past : lo + suc n ≡ suc (lo + n) = omega arith in
    let out' : Outside p rs lo (suc (lo + n)) = subst (Outside p rs lo) past out in
    subst (λ o. Search p rs (rule_or p o rest)) (sym there)
      (elim (Bool-cases (p r)) [
        | inl e ↦
            subst (λ t. Search p rs (if t then some r else rest)) (sym e)
              (found r (record {
                place = lo + n;
                there = there;
                passes = e;
                later_fail = λ k q l at_k. out' k q at_k (inr (omega arith));
              }))
        | inr e ↦
            subst (λ t. Search p rs (if t then some r else rest)) (sym e)
              (last_between-Search p rs lo n (omega arith)
                (narrowed p rs lo (lo + n) r out' there e))
      ])
