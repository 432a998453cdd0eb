-- ===== src/PageRange/Stale.antt =====
-- page_range_to_buffer where the interval has no lower bound, or ends exactly at the offset.
use a2ps.Prelude.{ℕ, ◌-◌, ◌≤◌, ◌<◌, ◌^◌, ◌≡◌, ◌∷◌, ◌++◌, arith}
use a2ps.Prelude.Decimal.{print_nat}
use a2ps.PageRange.{Interval, interval_to_buffer, remaining_min}

-- For the first pages up to `max`, `-max`, once at least one page but not all `max` are done, the
-- text has the wrapped difference 2 ^ 64 - offset for its lower bound, not 1.
pub to_buffer_open_below :
    (i : Interval) (offset : ℕ)
    → i.min ≡ 0
    → 1 ≤ offset
    → offset ≤ i.max
    → i.max < 2 ^ 31
    → interval_to_buffer i offset ≡ print_nat (2 ^ 64 - offset) ++ b'-' ∷ print_nat (i.max - offset)
unfolding interval_to_buffer remaining_min
to_buffer_open_below i offset e h k r = ground arith

-- An interval of several pages whose last page is `offset`, all of whose pages are done, is
-- written as `1-0`.
pub to_buffer_finished :
    (i : Interval)
    → 1 ≤ i.min
    → i.min < i.max
    → i.max < 2 ^ 31
    → interval_to_buffer i i.max ≡ print_nat 1 ++ b'-' ∷ print_nat 0
unfolding interval_to_buffer remaining_min
to_buffer_finished i h k r = ground arith
