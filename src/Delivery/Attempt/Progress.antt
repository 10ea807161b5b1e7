-- ===== src/Delivery/Attempt/Progress.antt =====
-- A delivery cannot be retried for ever.
use daily_firehose.Common.{
  ℕ, zero, suc, ◌+◌, ◌≤◌, ◌<◌, ◌≡◌, true, false, Result, ok, err, arith, if◌then◌else◌, Bool-cases,
  inl, inr, ◌⊎◌, some,
}
use daily_firehose.Delivery.Row.{Article, LinkdingDelivery, Store, is_retryable}
use daily_firehose.Delivery.Json.{Fields}
use daily_firehose.Delivery.Remote.{Exc, Env}
use daily_firehose.Delivery.Backoff.{delivery_retry_delay}
use daily_firehose.Delivery.Exchange.{deliver_bookmark}
use daily_firehose.Delivery.Attempt.{
  Settings, begin_attempt, record_failure, record_success, record_outcome,
  attempt_linkding_delivery,
}

record_failure-retryable :
    (max_attempts now : ℕ) (e : Exc) (d : LinkdingDelivery)
    → is_retryable (record_failure max_attempts now e d).state ≡ true
    → (d.attempts < max_attempts)
      × ((record_failure max_attempts now e d).next_attempt_at
          ≡ some (now + delivery_retry_delay d.attempts))
unfolding record_failure
record_failure-retryable max_attempts now e d h = ground arith

module _ {W : Type 0} (env : Env W) (settings : Settings) where
  -- Repeated attempts at one delivery, each as long as the delivery is still owed.
  pub retry_until_settled :
      ℕ → Article → LinkdingDelivery → Store → W → (LinkdingDelivery × Store) × W
  retry_until_settled zero article d store w = ((d, store), w)
  retry_until_settled (suc rounds) article d store w =
      let ((d', store'), w') = attempt_linkding_delivery env settings article d store w in
      let rest = retry_until_settled rounds article d' store' w' in
      if is_retryable d.state then rest else ((d, store), w)

  record_outcome_attempts :
      (now : ℕ) (outcome : Result Exc Fields) (d : LinkdingDelivery)
      → ((record_outcome env settings now outcome d).attempts ≡ d.attempts)
        × (is_retryable (record_outcome env settings now outcome d).state ≡ true
            → d.attempts < settings.max_attempts)
  unfolding record_outcome record_success record_failure
  record_outcome_attempts now (ok bookmark) d = ground arith
  record_outcome_attempts now (err e) d = ground arith

  attempt_attempts :
      (article : Article) (d : LinkdingDelivery) (store : Store) (w : W)
      → ((attempt_linkding_delivery env settings article d store w).0.0.attempts ≡ d.attempts + 1)
        × (is_retryable (attempt_linkding_delivery env settings article d store w).0.0.state ≡ true
            → d.attempts + 1 < settings.max_attempts)
  unfolding attempt_linkding_delivery begin_attempt
  attempt_attempts article d store w =
      let (now, w1) = env.now w in
      let begun = begin_attempt now d in
      let (outcome, w2) = deliver_bookmark env settings.base_url settings.token article begun w1 in
      record_outcome_attempts now outcome begun

  -- An owed delivery has attempts left.
  abbrev HasRoom : LinkdingDelivery → Type 0
  HasRoom d =
      (d.attempts ≤ settings.max_attempts)
      × ((is_retryable d.state ≡ false) ⊎ (d.attempts < settings.max_attempts))

  attempt-HasRoom :
      (article : Article) (d : LinkdingDelivery) (store : Store) (w : W)
      → d.attempts < settings.max_attempts
      → HasRoom (attempt_linkding_delivery env settings article d store w).0.0
  attempt-HasRoom article d store w k =
      let (counted, owed) = attempt_attempts article d store w in
      (
        omega arith,
        elim (Bool-cases
            (is_retryable (attempt_linkding_delivery env settings article d store w).0.0.state)) [
              | inl e ↦ inr (omega (arith, owed e))
              | inr e ↦ inl e
            ],
      )

  retry-settles :
      (rounds : ℕ) (article : Article) (d : LinkdingDelivery) (store : Store) (w : W)
      → settings.max_attempts ≤ d.attempts + rounds
      → HasRoom d
      → (is_retryable (retry_until_settled rounds article d store w).0.0.state ≡ false)
        × ((retry_until_settled rounds article d store w).0.0.attempts ≤ settings.max_attempts)
  unfolding retry_until_settled
  retry-settles zero article d store w h (top, inl e) = (e, top)
  retry-settles zero article d store w h (top, inr e) = absurd (omega arith)
  retry-settles (suc rounds) article d store w h (top, room) =
      let ((d', store'), w') = attempt_linkding_delivery env settings article d store w in
      let (counted, owed) = attempt_attempts article d store w in
      let next = λ (k : d.attempts < settings.max_attempts).
        retry-settles rounds article d' store' w' (omega arith)
          (attempt-HasRoom article d store w k) in
      ground (arith, next)

  -- Whatever the environment answers, a delivery that has had fewer attempts than the maximum, and is
  -- attempted as long as it is owed, is settled (succeeded or permanently failed) once the rounds and
  -- the attempts already made reach the maximum, and it is never attempted past the maximum.
  pub retries_settle :
      (rounds : ℕ) (article : Article) (d : LinkdingDelivery) (store : Store) (w : W)
      → settings.max_attempts ≤ d.attempts + rounds
      → d.attempts < settings.max_attempts
      → (is_retryable (retry_until_settled rounds article d store w).0.0.state ≡ false)
        × ((retry_until_settled rounds article d store w).0.0.attempts ≤ settings.max_attempts)
  retries_settle rounds article d store w h k =
      retry-settles rounds article d store w h (omega arith, inr k)
