-- ===== src/Refresh/Fence/Bounds.antt =====
-- How long `_retry_delay` waits.
use daily_firehose.Common.{
  ℕ, ◌+◌, ◌*◌, ◌^◌, ◌≤◌, min, ◌≡◌, arith, minute, doubling_delay_uncapped, doubling_delay-bounds,
  doubling_delay_mono,
}
use daily_firehose.Refresh.Fence.{retry_delay}

-- The delay after `n + 1` failures in a row is five minutes doubled `n` times, cut at a day: the
-- bound of sixteen on the exponent never changes it. It is at least five minutes, at most a day,
-- and never falls as the failures grow.
pub retry_delay_schedule :
    (n m : ℕ)
    → n ≤ m
    → (retry_delay (n + 1) ≡ min (5 * minute * 2 ^ n) (1440 * minute))
      × (5 * minute ≤ retry_delay n)
      × (retry_delay n ≤ 1440 * minute)
      × (retry_delay n ≤ retry_delay m)
unfolding retry_delay
retry_delay_schedule n m h = (
  doubling_delay_uncapped (5 * minute) (1440 * minute) n (omega arith),
  (doubling_delay-bounds (5 * minute) (1440 * minute) n (omega arith)).0,
  (doubling_delay-bounds (5 * minute) (1440 * minute) n (omega arith)).1,
  doubling_delay_mono (5 * minute) (1440 * minute) n m h,
)
