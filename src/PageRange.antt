-- ===== src/PageRange.antt =====
-- liba2ps/prange.c: the pages that the user asks for, as intervals.
--
-- `int` values are natural numbers here: the parser reads digits only, and atoi is defined for
-- values below 2 ^ 31, which is also the range of the page numbers that are cast to `int`.
-- A bound 0 stands for an open end, as in the source.
pub mod Tokens
pub mod Select
pub mod Offset
pub mod Stale
pub mod Tests
use a2ps.Prelude.{
  ℕ, ◌+◌, ◌-◌, ◌%◌, ◌^◌, Bool, true, false, not, ◌&&◌, ◌||◌, List, [], ◌∷◌, ◌++◌, Option, none,
  some, ltb, leb, ◌==◌, if◌then◌else◌,
}
use a2ps.Prelude.Decimal.{is_digit, skip_digits, atoi, print_nat}
use a2ps.Prelude.Outcome.{Outcome, ok, exit, invalid_interval, ◌>>=◌}

pub record Interval : Type 0 where
  pub min : ℕ
  pub max : ℕ

abbrev pub interval_new : ℕ → ℕ → Interval
interval_new lo hi = record { min = lo; max = hi }

-- `interval->min` as a truth value
abbrev pub is_set : ℕ → Bool
is_set n = not (n == 0)

unfoldable pub interval_self_print : Interval → List ℕ
interval_self_print i =
    if is_set i.min && is_set i.max
    then print_nat i.min ++ b'-' ∷ print_nat i.max
    else if is_set i.min
    then print_nat i.min ++ b'-' ∷ []
    else b'-' ∷ print_nat i.max

unfoldable pub interval_is_in : Interval → ℕ → Bool
interval_is_in i num =
    if is_set i.min && is_set i.max
    then leb i.min num && leb num i.max
    else if is_set i.min
    then leb i.min num
    else leb num i.max

-- `size_t` subtraction
abbrev pub sub64 : ℕ → ℕ → ℕ
sub64 a b = (a + 2 ^ 64 - b) % 2 ^ 64

-- The first page that is still to come
unfoldable pub remaining_min : Interval → ℕ → ℕ
remaining_min i offset = if is_set i.min && leb i.min offset then 1 else sub64 i.min offset

-- The text that `interval_to_buffer` appends to its buffer
unfoldable pub interval_to_buffer : Interval → ℕ → List ℕ
interval_to_buffer i offset =
    let lo = remaining_min i offset in
    if is_set i.max && ltb i.max offset
    then []
    else if lo == i.max
    then print_nat lo
    else if is_set lo && is_set i.max
    then print_nat lo ++ b'-' ∷ print_nat (sub64 i.max offset)
    else if is_set lo
    then print_nat lo ++ b'-' ∷ []
    else b'1' ∷ b'-' ∷ print_nat (sub64 i.max offset)

unfoldable pub interval_applies_above : Interval → ℕ → Bool
interval_applies_above i offset = not (leb i.min offset && i.max == 0)

pub record PageRange : Type 0 where
  pub intervals : List Interval
  pub toc : Bool

abbrev pub page_range_new : PageRange
page_range_new = record { intervals = []; toc = false }

abbrev pub page_range_reset : PageRange → PageRange
page_range_reset pr = record pr { toc = false }

-- `none` is the return value `false`.
unfoldable pub add_pages_interval : PageRange → ℕ → ℕ → Option PageRange
add_pages_interval pr lo hi =
    if is_set hi && ltb hi lo
    then none
    else some (record pr { intervals = pr.intervals ++ interval_new lo hi ∷ [] })

-- The loop of `page_range_to_buffer`; the flag is `put_a_comma`.
unfoldable pub to_buffer_from : Bool → List Interval → ℕ → List ℕ
to_buffer_from comma [] offset = []
to_buffer_from comma (i ∷ is) offset =
    (if interval_applies_above i offset
      then (if comma then b',' ∷ [] else []) ++ interval_to_buffer i offset
      else [])
    ++ to_buffer_from (comma || interval_applies_above i offset) is offset

unfoldable pub page_range_to_buffer : PageRange → ℕ → List ℕ
page_range_to_buffer pr offset = to_buffer_from false pr.intervals offset

abbrev pub is_empty : List Interval → Bool
is_empty [] = true
is_empty (_ ∷ _) = false

-- Some interval is open above from a page before the offset.
unfoldable pub all_open : List Interval → ℕ → Bool
all_open [] offset = false
all_open (i ∷ is) offset = (ltb i.min offset && i.max == 0) || all_open is offset

unfoldable pub page_range_applies_above : PageRange → ℕ → Bool
page_range_applies_above pr offset =
    if is_empty pr.intervals then false else not (all_open pr.intervals offset)

abbrev pub is_separator : ℕ → Bool
is_separator c = c == b',' || c == b' ' || c == b'\t'

abbrev pub keep_token : List ℕ → List (List ℕ) → List (List ℕ)
keep_token [] ts = ts
keep_token (c ∷ t) ts = (c ∷ t) ∷ ts

-- The tokens that `strtok (.., ", \t")` returns in turn; the first argument is the token begun.
unfoldable pub tokens : List ℕ → List ℕ → List (List ℕ)
tokens t [] = keep_token t []
tokens t (c ∷ cs) = elim (is_separator c) [
  | true ↦ keep_token t (tokens [] cs)
  | false ↦ tokens (t ++ c ∷ []) cs
]

-- `add_pages_interval (job, min, min)`, whose result is ignored
abbrev pub add_single : PageRange → ℕ → Outcome PageRange
add_single pr lo = ok (elim (add_pages_interval pr lo lo) [ none ↦ pr | some pr' ↦ pr' ])

abbrev pub add_or_exit : PageRange → ℕ → ℕ → Outcome PageRange
add_or_exit pr lo hi = elim (add_pages_interval pr lo hi) [
  | none ↦ exit invalid_interval
  | some pr' ↦ ok pr'
]

-- `case ':'` and `case '-'`: the upper bound, then the end of the token
unfoldable pub upper_bound : PageRange → ℕ → List ℕ → List ℕ → Outcome PageRange
upper_bound pr lo cp [] = add_or_exit pr lo (atoi cp)
upper_bound pr lo cp (_ ∷ _) = exit invalid_interval

-- `case 't'`, behind the letter: the number read before it is forgotten
unfoldable pub toc_token : PageRange → List ℕ → Outcome PageRange
toc_token pr (o ∷ c ∷ []) =
    if o == b'o' && c == b'c' then ok (record pr { toc = true }) else exit invalid_interval
toc_token pr _ = exit invalid_interval

-- The switch on the character behind the first number
unfoldable pub after_min : PageRange → ℕ → List ℕ → Outcome PageRange
after_min pr lo [] = add_single pr lo
after_min pr lo (c ∷ cp) =
    if c == b':' || c == b'-'
    then upper_bound pr lo cp (skip_digits cp)
    else if c == b't'
    then toc_token pr cp
    else exit invalid_interval

-- `if (isdigit (*cp)) min = atoi (cp)`
abbrev pub first_number : List ℕ → ℕ
first_number [] = 0
first_number (c ∷ cs) = if is_digit c then atoi (c ∷ cs) else 0

unfoldable pub parse_token : PageRange → List ℕ → Outcome PageRange
parse_token pr t = after_min pr (first_number t) (skip_digits t)

unfoldable pub parse_tokens : PageRange → List (List ℕ) → Outcome PageRange
parse_tokens pr [] = ok pr
parse_tokens pr (t ∷ ts) = parse_token pr t >>= λ pr'. parse_tokens pr' ts

-- `none` is the null string.
unfoldable pub set_string : PageRange → Option (List ℕ) → Outcome PageRange
set_string pr none = ok (page_range_reset pr)
set_string pr (some s) = parse_tokens (page_range_reset pr) (tokens [] s)

-- The loop of `print_page`
unfoldable pub some_is_in : List Interval → ℕ → Bool
some_is_in [] num = false
some_is_in (i ∷ is) num = interval_is_in i num || some_is_in is num

-- `is_toc` is the flag of the current file.
unfoldable pub print_page : PageRange → Bool → ℕ → Bool
print_page pr is_toc num =
    if pr.toc && is_toc
    then true
    else if is_empty pr.intervals && not pr.toc
    then true
    else some_is_in pr.intervals num
