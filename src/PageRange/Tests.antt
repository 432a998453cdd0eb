-- ===== src/PageRange/Tests.antt =====
-- prange.c run on small inputs, and its theorems at concrete page ranges.
use a2ps.Prelude.{ℕ, ◌-◌, ◌^◌, ◌≡◌, refl, ◌↔◌, true, false, List, [], ◌∷◌, ◌++◌, Any, some, arith}
use a2ps.Prelude.Decimal.{print_nat, read_digits, skip_digits}
use a2ps.Prelude.Outcome.{ok, exit, invalid_interval}
use a2ps.PageRange.{
  Interval, interval_new, interval_to_buffer, interval_is_in, PageRange, page_range_new,
  page_range_to_buffer, set_string, print_page, interval_self_print, remaining_min,
  interval_applies_above, add_pages_interval, to_buffer_from, tokens, upper_bound, toc_token,
  after_min, parse_token, parse_tokens, some_is_in, page_range_applies_above, all_open,
}
use a2ps.PageRange.Tokens.{spec_text, set_string-spec_text}
use a2ps.PageRange.Select.{
  IsValid, Covers, Printed, selects, print_page_iff, selects-spec_text, set_string-IsValid,
}
use a2ps.PageRange.Stale.{to_buffer_open_below, to_buffer_finished}

program : Unit {0}
unfolding print_nat read_digits skip_digits interval_is_in interval_self_print remaining_min
    interval_to_buffer interval_applies_above add_pages_interval to_buffer_from page_range_to_buffer
    tokens upper_bound toc_token after_min parse_token parse_tokens set_string some_is_in print_page
    page_range_applies_above all_open
program = tt

-- `-2, 4, 10-15, 20-`, the format that the source documents
abbrev documented : List ℕ
documented =
    b'-' ∷ b'2' ∷ b',' ∷ b' ' ∷ b'4' ∷ b',' ∷ b'1' ∷ b'0' ∷ b'-' ∷ b'1' ∷ b'5' ∷ b',' ∷ b'2' ∷ b'0'
    ∷ b'-' ∷ []

documented_set :
    set_string page_range_new (some documented)
    ≡ ok (record {
      intervals = interval_new 0 2 ∷ interval_new 4 4 ∷ interval_new 10 15 ∷ interval_new 20 0 ∷ [];
      toc = false;
    })
unfolding program
documented_set = refl

-- `5-2`
empty_refused : set_string page_range_new (some (b'5' ∷ b'-' ∷ b'2' ∷ [])) ≡ exit invalid_interval
unfolding program
empty_refused = refl

-- `toc`, and `3toc`, whose number is dropped
toc_set :
    set_string page_range_new (some (b't' ∷ b'o' ∷ b'c' ∷ []))
    ≡ ok (record { intervals = []; toc = true })
unfolding program
toc_set = refl

numbered_toc_set :
    set_string page_range_new (some (b'3' ∷ b't' ∷ b'o' ∷ b'c' ∷ []))
    ≡ ok (record { intervals = []; toc = true })
unfolding program
numbered_toc_set = refl

abbrev given : List Interval
given = interval_new 2 4 ∷ interval_new 7 7 ∷ interval_new 9 0 ∷ []

abbrev given_range : PageRange
given_range = record { intervals = given; toc = false }

-- A comment of the source says `1-2` here.
three_five : interval_to_buffer (interval_new 3 5) 4 ≡ b'1' ∷ b'-' ∷ b'1' ∷ []
unfolding program
three_five = refl

set_string-spec_text_example :
    set_string page_range_new (some (spec_text given))
    ≡ ok (record { intervals = given; toc = false })
set_string-spec_text_example = set_string-spec_text page_range_new given (omega arith)

print_page_iff_example : (print_page given_range false 3 ≡ true) ↔ Printed given_range false 3
print_page_iff_example = print_page_iff given_range false 3

selects-spec_text_example : (selects (spec_text given) false 3 ≡ ok true) ↔ Any (Covers 3) given
selects-spec_text_example = selects-spec_text given false 3 (omega arith) (λ e. cc e)

set_string-IsValid_example :
    IsValid (record { intervals = given ++ interval_new 1 1 ∷ []; toc = false })
set_string-IsValid_example =
    set_string-IsValid given_range
      (record { intervals = given ++ interval_new 1 1 ∷ []; toc = false }) (some (b'1' ∷ []))
      (omega arith) (unfold program in refl)

to_buffer_open_below_example :
    interval_to_buffer (interval_new 0 5) 2 ≡ print_nat (2 ^ 64 - 2) ++ b'-' ∷ print_nat 3
to_buffer_open_below_example =
    to_buffer_open_below (interval_new 0 5) 2 refl (omega arith) (omega arith) (omega arith)

to_buffer_finished_example :
    interval_to_buffer (interval_new 2 5) 5 ≡ print_nat 1 ++ b'-' ∷ print_nat 0
to_buffer_finished_example =
    to_buffer_finished (interval_new 2 5) (omega arith) (omega arith) (omega arith)
