-- ===== src/PageRange/Select.antt =====
-- print_page against what an interval covers, and what set_string leaves in a page range.
use a2ps.Prelude.{
  ℕ, ◌≤◌, ◌≡◌, refl, ap, ◌↔◌, ◌≢◌, ◌⊎◌, inl, inr, Bool, true, false, ◌&&◌, ◌||◌, List, [], ◌∷◌, All,
  All-append, Any, Option, none, some, Bool-cases, arith, ltb, ◌==◌, if◌then◌else◌, Option-cases,
  some_inj, subst,
}
use a2ps.Prelude.Outcome.{ok, exit, ok_injective, ◌>>=◌, Outcome}
use a2ps.Prelude.Decimal.{skip_digits, atoi}
use a2ps.PageRange.{
  is_set, Interval, interval_new, interval_is_in, PageRange, print_page, some_is_in, page_range_new,
  first_number, add_single, add_or_exit, set_string, parse_token, parse_tokens, after_min,
  upper_bound, toc_token, add_pages_interval, page_range_reset, tokens,
}
use a2ps.PageRange.Tokens.{Valid, spec_text, set_string-spec_text}

-- The pages of an interval: from the lower bound on, and up to the upper one unless only the
-- lower one is given.
abbrev pub Covers : ℕ → Interval → Type 0
Covers n i = (i.min ≤ n) × (((i.min ≢ 0) × (i.max ≡ 0)) ⊎ (n ≤ i.max))

interval_is_in_iff : (n : ℕ) (i : Interval) → (interval_is_in i n ≡ true) ↔ Covers n i
unfolding interval_is_in
interval_is_in_iff n i = (λ h. ground arith, λ c. ground arith)

some_is_in→Any : (n : ℕ) (is : List Interval) → some_is_in is n ≡ true → Any (Covers n) is
unfolding some_is_in
some_is_in→Any n [] h = cc
some_is_in→Any n (i ∷ is) h = elim (Bool-cases (interval_is_in i n)) [
  | inl here ↦ inl ((interval_is_in_iff n i).0 here)
  | inr away ↦ inr (some_is_in→Any n is (rw away at h))
]

Any→some_is_in : (n : ℕ) (is : List Interval) → Any (Covers n) is → some_is_in is n ≡ true
unfolding some_is_in
Any→some_is_in n [] s = absurd s
Any→some_is_in n (i ∷ is) (inl c) = rw ((interval_is_in_iff n i).1 c)
Any→some_is_in n (i ∷ is) (inr s) = ground (arith, Any→some_is_in n is s)

-- The reasons for which a page is printed.
abbrev pub Printed : PageRange → Bool → ℕ → Type 0
Printed pr is_toc n =
    ((pr.toc ≡ true) × (is_toc ≡ true))
    ⊎ ((pr.intervals ≡ []) × (pr.toc ≡ false))
    ⊎ Any (Covers n) pr.intervals

print_page→Printed :
    (toc is_toc : Bool) (is : List Interval) (n : ℕ)
    → print_page (record { intervals = is; toc = toc }) is_toc n ≡ true
    → Printed (record { intervals = is; toc = toc }) is_toc n
unfolding print_page
print_page→Printed true true is n h = inl (refl, refl)
print_page→Printed true false [] n h = inr (inr (some_is_in→Any n [] h))
print_page→Printed true false (i ∷ is) n h = inr (inr (some_is_in→Any n (i ∷ is) h))
print_page→Printed false is_toc [] n h = inr (inl (refl, refl))
print_page→Printed false is_toc (i ∷ is) n h = inr (inr (some_is_in→Any n (i ∷ is) h))

Printed→print_page :
    (pr : PageRange) (is_toc : Bool) (n : ℕ) → Printed pr is_toc n → print_page pr is_toc n ≡ true
unfolding print_page
Printed→print_page pr is_toc n (inl (t, f)) = rw (t, f)
Printed→print_page pr is_toc n (inr (inl (e, f))) = rw (f, e)
Printed→print_page pr is_toc n (inr (inr s)) = ground (arith, Any→some_is_in n pr.intervals s)

-- A page is printed exactly when it belongs to the table of contents and that was asked for, or
-- nothing at all was asked for, or some interval covers it.
pub print_page_iff :
    (pr : PageRange) (is_toc : Bool) (n : ℕ) → (print_page pr is_toc n ≡ true) ↔ Printed pr is_toc n
print_page_iff pr is_toc n =
    (print_page→Printed pr.toc is_toc pr.intervals n, Printed→print_page pr is_toc n)

-- The option's text, and then the question whether page `n` is to be printed
abbrev pub selects : List ℕ → Bool → ℕ → Outcome Bool
selects text is_toc n = set_string page_range_new (some text) >>= λ pr. ok (print_page pr is_toc n)

-- After one option that lists valid intervals, at least one, page `n` is printed exactly when one
-- of them covers it.
pub selects-spec_text :
    (is : List Interval) (is_toc : Bool) (n : ℕ)
    → All Valid is
    → is ≢ []
    → (selects (spec_text is) is_toc n ≡ ok true) ↔ Any (Covers n) is
selects-spec_text is is_toc n v given = rw (set_string-spec_text page_range_new is v) (
    let pr = record page_range_new { intervals = is } in
    (
      λ h. elim (print_page→Printed false is_toc is n (ok_injective h)) [
        | inl (t, _) ↦ cc
        | inr (inl (e, _)) ↦ absurd (given e)
        | inr (inr s) ↦ s
      ],
      λ s. ap ok (Printed→print_page pr is_toc n (inr (inr s))),
    ))

-- The invariant of a page range: every interval is open above or not empty.
abbrev pub IsValid : PageRange → Type 0
IsValid pr = All Valid pr.intervals

abbrev pub IfOk : Outcome PageRange → Type 0
IfOk (ok pr) = IsValid pr
IfOk (exit e) = Unit {0}

if-IfOk : (b : Bool) (x y : Outcome PageRange) → IfOk x → IfOk y → IfOk (if b then x else y)
if-IfOk true x y p q = p
if-IfOk false x y p q = q

add_pages_interval-IsValid :
    (pr pr' : PageRange) (lo hi : ℕ)
    → IsValid pr
    → add_pages_interval pr lo hi ≡ some pr'
    → IsValid pr'
unfolding add_pages_interval
add_pages_interval-IsValid pr pr' lo hi v h = elim (Bool-cases (is_set hi && ltb hi lo)) [
  | inl empty ↦ cc (rw empty at h)
  | inr fits ↦
      subst IsValid (some_inj (rw fits at h))
        (All-append Valid pr.intervals (interval_new lo hi ∷ []) v (ground arith, tt))
]

module _ (pr : PageRange) (v : IsValid pr) where
  add_or_exit-IfOk : (lo hi : ℕ) → IfOk (add_or_exit pr lo hi)
  add_or_exit-IfOk lo hi = elim (Option-cases (add_pages_interval pr lo hi)) [
    | inl refused ↦ rw (refused, add_or_exit) tt
    | inr (pr', added) ↦ rw (added, add_or_exit) (add_pages_interval-IsValid pr pr' lo hi v added)
  ]

  add_single-IfOk : (lo : ℕ) → IfOk (add_single pr lo)
  add_single-IfOk lo = elim (Option-cases (add_pages_interval pr lo lo)) [
    | inl refused ↦ rw (refused, add_single) v
    | inr (pr', added) ↦ rw (added, add_single) (add_pages_interval-IsValid pr pr' lo lo v added)
  ]

  upper_bound-IfOk : (lo : ℕ) (cp rest : List ℕ) → IfOk (upper_bound pr lo cp rest)
  unfolding upper_bound
  upper_bound-IfOk lo cp [] = add_or_exit-IfOk lo (atoi cp)
  upper_bound-IfOk lo cp (c ∷ rest) = tt

  toc_token-IfOk : (cp : List ℕ) → IfOk (toc_token pr cp)
  unfolding toc_token
  toc_token-IfOk (o ∷ c ∷ []) = if-IfOk (o == b'o' && c == b'c') _ _ v tt
  toc_token-IfOk [] = tt
  toc_token-IfOk (o ∷ []) = tt
  toc_token-IfOk (o ∷ c ∷ d ∷ r) = tt

  after_min-IfOk : (lo : ℕ) (rest : List ℕ) → IfOk (after_min pr lo rest)
  unfolding after_min
  after_min-IfOk lo [] = add_single-IfOk lo
  after_min-IfOk lo (c ∷ cp) =
      if-IfOk (c == b':' || c == b'-') _ _ (upper_bound-IfOk lo cp (skip_digits cp))
        (if-IfOk (c == b't') _ _ (toc_token-IfOk cp) tt)

-- What a chain leaves, if its first part and then the rest keep the invariant.
bind-IfOk :
    (m : Outcome PageRange) (f : PageRange → Outcome PageRange)
    → IfOk m
    → ((pr : PageRange) → IsValid pr → IfOk (f pr))
    → IfOk (m >>= f)
bind-IfOk (ok pr) f v g = g pr v
bind-IfOk (exit e) f v g = tt

parse_token-IfOk : (pr : PageRange) (t : List ℕ) → IsValid pr → IfOk (parse_token pr t)
unfolding parse_token
parse_token-IfOk pr t v = after_min-IfOk pr v (first_number t) (skip_digits t)

parse_tokens-IfOk : (ts : List (List ℕ)) (pr : PageRange) → IsValid pr → IfOk (parse_tokens pr ts)
unfolding parse_tokens
parse_tokens-IfOk [] pr v = v
parse_tokens-IfOk (t ∷ ts) pr v =
    bind-IfOk (parse_token pr t) (λ pr'. parse_tokens pr' ts) (parse_token-IfOk pr t v)
      (parse_tokens-IfOk ts)

-- Whatever the text of the option is, and whatever options came before it: if the program goes
-- on, the page range has valid intervals only.
pub set_string-IsValid :
    (pr pr' : PageRange) (text : Option (List ℕ))
    → IsValid pr
    → set_string pr text ≡ ok pr'
    → IsValid pr'
unfolding set_string
set_string-IsValid pr pr' none v h = subst IsValid (ok_injective h) v
set_string-IsValid pr pr' (some s) v h =
    subst IfOk h (parse_tokens-IfOk (tokens [] s) (page_range_reset pr) v)
