-- ===== src/PageRange/Tokens.antt =====
-- a2ps_page_range_set_string on the texts that interval_self_print writes.
use a2ps.Prelude.{
  ℕ, ◌≤◌, ◌≡◌, refl, ap, ◌∙◌, sym, ◌⊎◌, inl, inr, true, false, List, [], ◌∷◌, ◌++◌, All, All-append,
  map, some, ◌==◌, ==_iff, append_assoc, append-nil, Bool-cases, arith,
}
use a2ps.Prelude.Decimal.{
  skip_digits, atoi, read_digits, print_nat, Digits, nil, cons, print_nat-Digits, atoi-print_nat,
  skip_digits-append, print_nat_cons, Stops,
}
use a2ps.Prelude.Outcome.{ok}
use a2ps.PageRange.{
  Interval, interval_new, interval_self_print, PageRange, add_or_exit, tokens, upper_bound,
  keep_token, is_separator, parse_token, parse_tokens, set_string, first_number, after_min,
  add_pages_interval,
}

-- An interval that add_pages_interval takes: open above, or not empty.
abbrev pub Valid : Interval → Type 0
Valid i = (i.max ≡ 0) ⊎ (i.min ≤ i.max)

abbrev pub append : PageRange → Interval → PageRange
append pr i = record pr { intervals = pr.intervals ++ i ∷ [] }

add_pages_interval-Valid :
    (pr : PageRange) (i : Interval)
    → Valid i
    → add_pages_interval pr i.min i.max ≡ some (append pr i)
unfolding add_pages_interval
add_pages_interval-Valid pr i v = ground arith

first_number-print_nat :
    (n : ℕ) (rest : List ℕ) → Stops rest → first_number (print_nat n ++ rest) ≡ n
first_number-print_nat n rest s =
    let (c, cs, e, d) = print_nat_cons n in
    let here : atoi (print_nat n ++ rest) ≡ n = atoi-print_nat n rest s in
    let there : atoi (c ∷ (cs ++ rest)) ≡ n = rw e at here in rw (e, d) there

skip_print_nat : (n : ℕ) (rest : List ℕ) → Stops rest → skip_digits (print_nat n ++ rest) ≡ rest
skip_print_nat n rest s = skip_digits-append rest (print_nat-Digits n) s

-- A token `n` followed by what is no digit.
parse_token-print_nat :
    (pr : PageRange) (n : ℕ) (rest : List ℕ)
    → Stops rest
    → parse_token pr (print_nat n ++ rest) ≡ after_min pr n rest
unfolding parse_token
parse_token-print_nat pr n rest s = rw (first_number-print_nat n rest s, skip_print_nat n rest s)

after_min-single : (pr : PageRange) (n : ℕ) → after_min pr n [] ≡ ok (append pr (interval_new n n))
unfolding after_min
after_min-single pr n = rw (add_pages_interval-Valid pr (interval_new n n) (inr (omega arith)))

-- A printed number alone is read as the interval of this one page.
pub parse_token-single :
    (pr : PageRange) (n : ℕ) → parse_token pr (print_nat n) ≡ ok (append pr (interval_new n n))
parse_token-single pr n =
    rw (sym (append-nil (print_nat n)), parse_token-print_nat pr n [] tt) (after_min-single pr n)

after_min-upper :
    (pr : PageRange) (i : Interval)
    → Valid i
    → after_min pr i.min (b'-' ∷ print_nat i.max) ≡ ok (append pr i)
unfolding after_min upper_bound
after_min-upper pr i v = rw (
  sym (append-nil (print_nat i.max)),
  skip_print_nat i.max [] tt,
  atoi-print_nat i.max [] tt,
  add_pages_interval-Valid pr i v,
  add_or_exit,
)

after_min-open :
    (pr : PageRange) (n : ℕ) → after_min pr n (b'-' ∷ []) ≡ ok (append pr (interval_new n 0))
unfolding after_min upper_bound add_pages_interval skip_digits read_digits
after_min-open pr n = ground arith

parse_token-dash :
    (pr : PageRange) (rest : List ℕ) → parse_token pr (b'-' ∷ rest) ≡ after_min pr 0 (b'-' ∷ rest)
unfolding parse_token skip_digits
parse_token-dash pr rest = refl

-- A printed interval is read back as itself.
pub parse_token-self_print :
    (pr : PageRange) (i : Interval)
    → Valid i
    → parse_token pr (interval_self_print i) ≡ ok (append pr i)
unfolding interval_self_print
parse_token-self_print pr i v = elim (Bool-cases (i.min == 0)) [
  | inl closed ↦
      rw (closed, parse_token-dash pr (print_nat i.max))
        (rw (sym ((==_iff i.min 0).0 closed)) (after_min-upper pr i v))
  | inr below ↦ elim (Bool-cases (i.max == 0)) [
    | inl endless ↦
        rw (below, endless, parse_token-print_nat pr i.min (b'-' ∷ []) refl)
          (after_min-open pr i.min
            ∙ ap (λ m. ok (append pr (interval_new i.min m))) (sym ((==_iff i.max 0).0 endless)))
    | inr above ↦
        rw (below, above, parse_token-print_nat pr i.min (b'-' ∷ print_nat i.max) refl)
          (after_min-upper pr i v)
  ]
]

-- Bytes that strtok leaves in a token.
abbrev pub IsWord : List ℕ → Type 0
IsWord w = All (λ c. is_separator c ≡ false) w

pub tokens-append :
    (t w : List ℕ) (c : ℕ) (rest : List ℕ)
    → IsWord w
    → is_separator c ≡ true
    → tokens t (w ++ c ∷ rest) ≡ keep_token (t ++ w) (tokens [] rest)
unfolding tokens
tokens-append t [] c rest h s = rw (s, tokens, append-nil t)
tokens-append t (x ∷ w) c rest h s =
    rw (h.0, tokens) (tokens-append (t ++ x ∷ []) w c rest h.1 s ∙ rw (append_assoc t (x ∷ []) w))

pub tokens-word : (t w : List ℕ) → IsWord w → tokens t w ≡ keep_token (t ++ w) []
unfolding tokens
tokens-word t [] h = rw (append-nil t)
tokens-word t (x ∷ w) h =
    rw (h.0, tokens) (tokens-word (t ++ x ∷ []) w h.1 ∙ rw (append_assoc t (x ∷ []) w))

pub print_nat-IsWord : (n : ℕ) → IsWord (print_nat n)
print_nat-IsWord n = go (print_nat-Digits n)
  where
    go : {ds : List ℕ} → Digits ds → IsWord ds
    go nil = tt
    go (cons {c} h d) = (ground arith, go d)

pub interval_self_print-IsWord : (i : Interval) → IsWord (interval_self_print i)
unfolding interval_self_print
interval_self_print-IsWord i = elim (Bool-cases (i.min == 0)) [
  | inl closed ↦ rw closed (refl, print_nat-IsWord i.max)
  | inr below ↦ elim (Bool-cases (i.max == 0)) [
    | inl endless ↦
        rw (below, endless) (All-append _ (print_nat i.min) _ (print_nat-IsWord i.min) (refl, tt))
    | inr above ↦
        rw (below, above)
          (All-append _ (print_nat i.min) _ (print_nat-IsWord i.min) (refl, print_nat-IsWord i.max))
  ]
]

-- The user's way to write intervals, `-2, 4-5, 20-, `.
abbrev pub spec_text : List Interval → List ℕ
spec_text [] = []
spec_text (i ∷ is) = interval_self_print i ++ b',' ∷ b' ' ∷ spec_text is

pub interval_self_print_cons :
    (i : Interval) → (c : ℕ) × (cs : List ℕ) × (interval_self_print i ≡ c ∷ cs)
unfolding interval_self_print
interval_self_print_cons i = elim (Bool-cases (i.min == 0)) [
  | inl closed ↦ (b'-', print_nat i.max, rw closed)
  | inr below ↦
      let (c, cs, e, d) = print_nat_cons i.min in
      elim (Bool-cases (i.max == 0)) [
        | inl endless ↦ (c, cs ++ b'-' ∷ [], rw (below, endless, e))
        | inr above ↦ (c, cs ++ b'-' ∷ print_nat i.max, rw (below, above, e))
      ]
]

keep_token-self_print :
    (i : Interval) (ts : List (List ℕ))
    → keep_token (interval_self_print i) ts ≡ interval_self_print i ∷ ts
keep_token-self_print i ts = let (c, cs, e) = interval_self_print_cons i in rw e

tokens_blank : (cs : List ℕ) → tokens [] (b' ' ∷ cs) ≡ tokens [] cs
unfolding tokens
tokens_blank cs = refl

tokens-spec_text : (is : List Interval) → tokens [] (spec_text is) ≡ map interval_self_print is
tokens-spec_text [] = unfold tokens in refl
tokens-spec_text (i ∷ is) =
    tokens-append [] (interval_self_print i) b',' (b' ' ∷ spec_text is)
      (interval_self_print-IsWord i) refl
    ∙ keep_token-self_print i _
    ∙ ap (◌∷◌ (interval_self_print i)) (tokens_blank (spec_text is) ∙ tokens-spec_text is)

pub parse_tokens-self_print :
    (pr : PageRange) (is : List Interval)
    → All Valid is
    → parse_tokens pr (map interval_self_print is)
      ≡ ok (record pr { intervals = pr.intervals ++ is })
unfolding parse_tokens
parse_tokens-self_print pr [] v = rw (append-nil pr.intervals)
parse_tokens-self_print pr (i ∷ is) v =
    rw (parse_token-self_print pr i v.0)
      (parse_tokens-self_print (append pr i) is v.1 ∙ rw (append_assoc pr.intervals (i ∷ []) is))

-- For intervals that are open above or not empty, the text that lists them in the way that they
-- are printed, with a comma and a blank behind each, is read back as these intervals: they are
-- added, in order, behind those that earlier options gave, and the request for the table of
-- contents is reset.
pub set_string-spec_text :
    (pr : PageRange) (is : List Interval)
    → All Valid is
    → set_string pr (some (spec_text is))
      ≡ ok (record { intervals = pr.intervals ++ is; toc = false })
unfolding set_string
set_string-spec_text pr is v =
    rw (tokens-spec_text is) (parse_tokens-self_print (record pr { toc = false }) is v)
