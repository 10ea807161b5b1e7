-- ===== src/Delivery/Backoff/Bounds.antt =====
-- How long `_delivery_retry_delay` waits.
use daily_firehose.Common.{
  ℕ, ◌+◌, ◌*◌, ◌^◌, ◌≤◌, min, ◌≡◌, arith, minute, doubling_delay_uncapped, doubling_delay-bounds,
  doubling_delay_mono,
}
use daily_firehose.Delivery.Backoff.{delivery_retry_delay}

-- The delay after `n + 1` attempts is five minutes doubled `n` times, cut at six hours: the bound
-- of sixteen on the exponent never changes it. It is at least five minutes, and never falls as
-- the attempts grow.
delivery_retry_delay_schedule :
    (n m : ℕ)
    → n ≤ m
    → (delivery_retry_delay (n + 1) ≡ min (5 * minute * 2 ^ n) (360 * minute))
      × (5 * minute ≤ delivery_retry_delay n)
      × (delivery_retry_delay n ≤ 360 * minute)
      × (delivery_retry_delay n ≤ delivery_retry_delay m)
unfolding delivery_retry_delay
delivery_retry_delay_schedule n m h = (
  doubling_delay_uncapped (5 * minute) (360 * minute) n (omega arith),
  (doubling_delay-bounds (5 * minute) (360 * minute) n (omega arith)).0,
  (doubling_delay-bounds (5 * minute) (360 * minute) n (omega arith)).1,
  doubling_delay_mono (5 * minute) (360 * minute) n m h,
)
