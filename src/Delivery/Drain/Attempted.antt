-- ===== src/Delivery/Drain/Attempted.antt =====
-- That a drain attempts what is due.
use daily_firehose.Common.{ℕ, ◌+◌, ◌≡◌, ◌≢◌, Bool, true, List, any, All, ◌==◌, ◌&&◌}
use daily_firehose.Delivery.Row.{Article, LinkdingDelivery, Store, succeeded, is_retryable}
use daily_firehose.Delivery.Drain.{DeliveryTally, same_time}

-- A row with this key that passes a further test.
abbrev pub row_with : ℕ → (LinkdingDelivery → Bool) → LinkdingDelivery → Bool
row_with m test r = r.id == m && test r

-- The table has the delivery with one attempt more.
abbrev pub HasAttempt : List LinkdingDelivery → LinkdingDelivery → Type 0
HasAttempt rows d = any (row_with d.id (λ r. r.attempts == d.attempts + 1)) rows ≡ true

-- The rows of keys that a list does not name pass the tests that they passed.
abbrev pub LeavesOthers : List (LinkdingDelivery × Article) → Store → Store → Type 0
LeavesOthers rows before after =
    (m : ℕ) (test : LinkdingDelivery → Bool)
    → All (λ e. m ≢ e.0.id) rows
    → any (row_with m test) after.deliveries ≡ any (row_with m test) before.deliveries

-- the test of a claim beside the key
abbrev as_read : LinkdingDelivery → LinkdingDelivery → Bool
as_read d r = is_retryable r.state && same_time r.next_attempt_at d.next_attempt_at

-- Every attempted delivery is counted once by its outcome.
abbrev pub IsBalanced : DeliveryTally → Type 0
IsBalanced t = t.attempted ≡ t.succeeded + t.transient + t.permanent
