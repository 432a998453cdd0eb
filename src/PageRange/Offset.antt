-- ===== src/PageRange/Offset.antt =====
-- page_range_to_buffer: the page range that a delegate is given once `offset` pages are done.
use a2ps.Prelude.{ℕ, ◌-◌, ◌≤◌, ◌<◌, ◌^◌, ◌≡◌, ◌⊎◌, ◌==◌, if◌then◌else◌}
use a2ps.PageRange.{Interval, interval_new, remaining_min, PageRange}

-- An interval with a lower bound that still has pages to come after the first `offset`.
pub record Pending (offset : ℕ) (i : Interval) : Type 0 where
  pub from_one : 1 ≤ i.min
  pub min_in_range : i.min < 2 ^ 31
  pub max_in_range : i.max < 2 ^ 31
  pub offset_in_range : offset < 2 ^ 31
  pub left : ((i.max ≡ 0) × (offset < i.min)) ⊎ ((i.min ≤ i.max) × (offset < i.max))

-- The interval in the numbering that starts behind `offset`
abbrev pub shift : ℕ → Interval → Interval
shift offset i = interval_new (remaining_min i offset) (if i.max == 0 then 0 else i.max - offset)
