-- ===== src/Receiver.antt =====
-- `retention_partition` of `scripts/postgres_backup_receiver.py`. Times are microseconds; the
-- calendar's functions are the fields of `Calendar`.
use daily_firehose.Common.{
  ℕ, ◌+◌, ◌*◌, String, Bool, true, false, ◌&&◌, Option, none, some, List, [], ◌∷◌, ◌++◌, leb, ◌==◌,
  if◌then◌else◌,
}
pub mod Examples
pub mod Kept
pub mod Order
pub mod Retention

-- `StoredPair`, without the names of its files, which its `backup_id` determines
pub record StoredPair : Type 0 where
  pub backup_id : String
  pub retention_at : ℕ
  pub receipt_sequence : ℕ

-- the keys of `bucket_candidates`
pub data Bucket : Type 0 where
  day : ℕ → Bucket
  week month : ℕ → ℕ → Bucket

-- `date()`, `isocalendar()` as far as the week, and the year and month
pub record Calendar : Type 0 where
  pub date : ℕ → ℕ
  pub iso_week : ℕ → ℕ × ℕ
  pub year_month : ℕ → ℕ × ℕ

pub data Tier : Type 0 where
  recent expired : Tier
  bucketed : Bucket → Tier

abbrev pub days : ℕ → ℕ
days n = n * 86400000000

abbrev pub week_of : ℕ × ℕ → Bucket
week_of (year, number) = week year number

abbrev pub month_of : ℕ × ℕ → Bucket
month_of (year, number) = month year number

-- `setdefault`'s comparison of two keys
abbrev pub same_bucket : Bucket → Bucket → Bool
same_bucket (day a) (day b) = a == b
same_bucket (week a b) (week c d) = (a == c) && (b == d)
same_bucket (month a b) (month c d) = (a == c) && (b == d)
same_bucket (day a) (week c d) = false
same_bucket (day a) (month c d) = false
same_bucket (week a b) (day c) = false
same_bucket (week a b) (month c d) = false
same_bucket (month a b) (day c) = false
same_bucket (month a b) (week c d) = false

-- the first pair with the highest sequence, and the others in their order
abbrev pub newest_with :
    StoredPair
    → List StoredPair
    → Option (StoredPair × List StoredPair)
    → StoredPair × List StoredPair
newest_with p rest none = (p, rest)
newest_with p rest (some (m, others)) =
    if leb m.receipt_sequence p.receipt_sequence then (p, rest) else (m, p ∷ others)

unfoldable pub split_newest : List StoredPair → Option (StoredPair × List StoredPair)
split_newest [] = none
split_newest (p ∷ rest) = some (newest_with p rest (split_newest rest))

-- the first pair with the lowest sequence, and the others in their order
abbrev pub earliest_with :
    StoredPair
    → List StoredPair
    → Option (StoredPair × List StoredPair)
    → StoredPair × List StoredPair
earliest_with p rest none = (p, rest)
earliest_with p rest (some (m, others)) =
    if leb p.receipt_sequence m.receipt_sequence then (p, rest) else (m, p ∷ others)

unfoldable pub split_earliest : List StoredPair → Option (StoredPair × List StoredPair)
split_earliest [] = none
split_earliest (p ∷ rest) = some (earliest_with p rest (split_earliest rest))

-- the variables of `retention_partition`
pub record Partition : Type 0 where
  pub keep : List StoredPair
  pub delete : List StoredPair
  pub candidates : List (Bucket × List StoredPair)

-- `bucket_candidates.setdefault(bucket, []).append(pair)`
unfoldable pub add_candidate :
    Bucket → StoredPair → List (Bucket × List StoredPair) → List (Bucket × List StoredPair)
add_candidate bucket p [] = (bucket, p ∷ []) ∷ []
add_candidate bucket p ((key, pairs) ∷ rest) =
    let later = add_candidate bucket p rest in
    if same_bucket key bucket then (key, pairs ++ p ∷ []) ∷ rest else (key, pairs) ∷ later

abbrev pub placed : StoredPair → Partition → Tier → Partition
placed p s recent = record s { keep = s.keep ++ p ∷ [] }
placed p s expired = record s { delete = s.delete ++ p ∷ [] }
placed p s (bucketed bucket) = record s { candidates = add_candidate bucket p s.candidates }

abbrev pub chosen : Partition → Option (StoredPair × List StoredPair) → Partition
chosen s none = s
chosen s (some (earliest, others)) = record s {
  keep = s.keep ++ earliest ∷ [];
  delete = s.delete ++ others;
}

-- the loop over the buckets
unfoldable pub choose_all : List (Bucket × List StoredPair) → Partition → Partition
choose_all [] s = s
choose_all ((key, pairs) ∷ rest) s = choose_all rest (chosen s (split_earliest pairs))

module _ (calendar : Calendar) (current : ℕ) where
  -- a negative age is at most any number of days as well
  unfoldable pub tier : StoredPair → Tier
  tier p =
      if leb current (p.retention_at + days 7)
      then recent
      else if leb current (p.retention_at + days 30)
      then bucketed (day (calendar.date p.retention_at))
      else if leb current (p.retention_at + days 90)
      then bucketed (week_of (calendar.iso_week p.retention_at))
      else if leb current (p.retention_at + days 365)
      then bucketed (month_of (calendar.year_month p.retention_at))
      else expired

  -- the loop over the pairs
  unfoldable pub place_pairs : List StoredPair → Partition → Partition
  place_pairs [] s = s
  place_pairs (p ∷ rest) s = place_pairs rest (placed p s (tier p))

  abbrev pub partition_from :
      Option (StoredPair × List StoredPair) → List StoredPair × List StoredPair
  partition_from none = ([], [])
  partition_from (some (newest, others)) =
      let s = place_pairs others (record { keep = newest ∷ []; delete = []; candidates = [] }) in
      let t = choose_all s.candidates s in (t.keep, t.delete)

  unfoldable pub retention_partition : List StoredPair → List StoredPair × List StoredPair
  retention_partition pairs = partition_from (split_newest pairs)
