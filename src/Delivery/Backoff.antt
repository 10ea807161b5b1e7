-- ===== src/Delivery/Backoff.antt =====
-- `_delivery_retry_delay` of feeds/services.py, in microseconds.
pub mod Bounds
use daily_firehose.Common.{ℕ, ◌-◌, ◌*◌, ◌^◌, min, max, minute}

-- _DELIVERY_BACKOFF_BASE, _DELIVERY_BACKOFF_CAP, _DELIVERY_ATTEMPT_LEASE
abbrev pub backoff_base : ℕ
backoff_base = 5 * minute

abbrev pub backoff_cap : ℕ
backoff_cap = 360 * minute

abbrev pub attempt_lease : ℕ
attempt_lease = 15 * minute

-- `attempts - 1` stops at 0 here, which `max(attempts - 1, 0)` does there.
pub delivery_retry_delay : ℕ → ℕ
delivery_retry_delay attempts = min (backoff_base * 2 ^ min (max (attempts - 1) 0) 16) backoff_cap
