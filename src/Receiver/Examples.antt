-- ===== src/Receiver/Examples.antt =====
-- A witness: two pairs of one day, ten days old, and a newer one.
use Prim.Native.Nat.{◌/◌}
use daily_firehose.Common.{ℕ, ◌≡◌, refl, String, [], ◌∷◌}
use daily_firehose.Receiver.{
  StoredPair, Calendar, days, retention_partition, split_newest, split_earliest, place_pairs, tier,
  add_candidate, choose_all,
}
use daily_firehose.Receiver.Kept.{IsRetention, retention_partition-IsRetention}

abbrev calendar : Calendar
calendar = record {
  date = λ t. t / days 1;
  iso_week = λ t. (t / days 365, t / days 7);
  year_month = λ t. (t / days 365, t / days 30);
}

abbrev pair : String → ℕ → ℕ → StoredPair
pair id at sequence = record { backup_id = id; retention_at = at; receipt_sequence = sequence }

abbrev first : StoredPair
first = pair "a" (days 90) 1

abbrev second : StoredPair
second = pair "b" (days 90) 2

abbrev latest : StoredPair
latest = pair "c" (days 100) 3

partitioned :
    retention_partition calendar (days 100) (first ∷ second ∷ latest ∷ [])
    ≡ (latest ∷ first ∷ [], second ∷ [])
unfolding retention_partition split_newest split_earliest place_pairs tier add_candidate choose_all
partitioned = refl

retention_partition-IsRetention_example :
    let (keep, delete) = retention_partition calendar (days 100) (first ∷ second ∷ latest ∷ []) in
    IsRetention calendar (days 100) (first ∷ second ∷ latest ∷ []) keep delete
retention_partition-IsRetention_example =
    retention_partition-IsRetention calendar (days 100) first (second ∷ latest ∷ [])
