-- ===== src/Reading/Dates.antt =====
-- `week_bounds` of `feeds/queries.py`. A date is its proleptic ordinal, as `date.toordinal`
-- counts: day 1 is a Monday.
use Prim.Native.Nat.{◌%◌}
use daily_firehose.Common.{ℕ, ◌+◌, ◌-◌, ◌≤◌, ◌≡◌, arith}

abbrev pub weekday : ℕ → ℕ
weekday day = (day + 6) % 7

unfoldable pub week_bounds : ℕ → ℕ × ℕ
week_bounds day = (day - weekday day, day - weekday day + 6)

-- Every date lies in its week, which starts on a Monday, and all the dates of a week have the
-- same bounds: the weeks partition the calendar.
week_bounds-week_bounds :
    (day other : ℕ)
    → 1 ≤ day
    → (week_bounds day).0 ≤ other
    → other ≤ (week_bounds day).1
    → (week_bounds other ≡ week_bounds day)
      × ((week_bounds day).0 ≤ day)
      × (day ≤ (week_bounds day).1)
      × (weekday (week_bounds day).0 ≡ 0)
unfolding week_bounds
week_bounds-week_bounds day other positive from to =
    let start : other - weekday other ≡ day - weekday day = omega arith in
    (ground (arith, start), omega arith, omega arith, omega arith)
