-- ===== src/Receiver/Retention.antt =====
-- What `retention_partition` of `scripts/postgres_backup_receiver.py` keeps and deletes.
use daily_firehose.Common.{
  ℕ, ◌+◌, ◌≡◌, refl, ◌∙◌, Bool, Option, none, some, List, [], ◌∷◌, ◌++◌, count, leb, Bool-cases,
  inl, inr, arith,
}
use daily_firehose.Receiver.{
  StoredPair, Bucket, Calendar, Tier, recent, expired, bucketed, same_bucket, newest_with,
  split_newest, earliest_with, split_earliest, Partition, add_candidate, placed, chosen, choose_all,
  tier, place_pairs, partition_from, retention_partition,
}

module _ (test : StoredPair → Bool) where
  count-++ : (xs ys : List StoredPair) → count test (xs ++ ys) ≡ count test xs + count test ys
  count-++ [] ys = omega arith
  count-++ (x ∷ xs) ys = omega (arith, count-++ xs ys)

  abbrev count_candidates : List (Bucket × List StoredPair) → ℕ
  count_candidates [] = 0
  count_candidates ((key, pairs) ∷ rest) = count test pairs + count_candidates rest

  abbrev count_split : Option (StoredPair × List StoredPair) → ℕ
  count_split none = 0
  count_split (some (p, others)) = count test (p ∷ others)

  newest_with-count :
      (p : StoredPair) (rest : List StoredPair) (o : Option (StoredPair × List StoredPair))
      → count_split o ≡ count test rest
      → count_split (some (newest_with p rest o)) ≡ count test (p ∷ rest)
  newest_with-count p rest none h = refl
  newest_with-count p rest (some (m, others)) h =
      elim (Bool-cases (leb m.receipt_sequence p.receipt_sequence)) [
        | inl q ↦ rw q refl
        | inr q ↦ rw q (omega (arith, h))
      ]

  earliest_with-count :
      (p : StoredPair) (rest : List StoredPair) (o : Option (StoredPair × List StoredPair))
      → count_split o ≡ count test rest
      → count_split (some (earliest_with p rest o)) ≡ count test (p ∷ rest)
  earliest_with-count p rest none h = refl
  earliest_with-count p rest (some (m, others)) h =
      elim (Bool-cases (leb p.receipt_sequence m.receipt_sequence)) [
        | inl q ↦ rw q refl
        | inr q ↦ rw q (omega (arith, h))
      ]

  split_newest-count :
      (pairs : List StoredPair) → count_split (split_newest pairs) ≡ count test pairs
  unfolding split_newest
  split_newest-count [] = refl
  split_newest-count (p ∷ rest) =
      newest_with-count p rest (split_newest rest) (split_newest-count rest)

  split_earliest-count :
      (pairs : List StoredPair) → count_split (split_earliest pairs) ≡ count test pairs
  unfolding split_earliest
  split_earliest-count [] = refl
  split_earliest-count (p ∷ rest) =
      earliest_with-count p rest (split_earliest rest) (split_earliest-count rest)

  add_candidate-count :
      (bucket : Bucket) (p : StoredPair) (candidates : List (Bucket × List StoredPair))
      → count_candidates (add_candidate bucket p candidates)
        ≡ count_candidates candidates + count test (p ∷ [])
  unfolding add_candidate
  add_candidate-count bucket p [] = omega arith
  add_candidate-count bucket p ((key, pairs) ∷ rest) = elim (Bool-cases (same_bucket key bucket)) [
    | inl q ↦ rw q (omega (arith, count-++ pairs (p ∷ [])))
    | inr q ↦ rw q (omega (arith, add_candidate-count bucket p rest))
  ]

  abbrev total : Partition → ℕ
  total s = count test s.keep + count test s.delete

  placed-count :
      (p : StoredPair) (s : Partition) (t : Tier)
      → total (placed p s t) + count_candidates (placed p s t).candidates
        ≡ total s + count_candidates s.candidates + count test (p ∷ [])
  placed-count p s recent = omega (arith, count-++ s.keep (p ∷ []))
  placed-count p s expired = omega (arith, count-++ s.delete (p ∷ []))
  placed-count p s (bucketed b) = omega (arith, add_candidate-count b p s.candidates)

  chosen-count :
      (s : Partition) (o : Option (StoredPair × List StoredPair))
      → total (chosen s o) ≡ total s + count_split o
  chosen-count s none = omega arith
  chosen-count s (some (e, others)) =
      omega (arith, count-++ s.keep (e ∷ []), count-++ s.delete others)

  choose_all-count :
      (candidates : List (Bucket × List StoredPair)) (s : Partition)
      → total (choose_all candidates s) ≡ total s + count_candidates candidates
  unfolding choose_all
  choose_all-count [] s = omega arith
  choose_all-count ((key, pairs) ∷ rest) s = omega (
    arith,
    choose_all-count rest (chosen s (split_earliest pairs)),
    chosen-count s (split_earliest pairs),
    split_earliest-count pairs,
  )

  module _ (calendar : Calendar) (current : ℕ) where
    place_pairs-count :
        (pairs : List StoredPair) (s : Partition)
        → let after = place_pairs calendar current pairs s in
          total after + count_candidates after.candidates
          ≡ total s + count_candidates s.candidates + count test pairs
    unfolding place_pairs
    place_pairs-count [] s = omega arith
    place_pairs-count (p ∷ rest) s = omega (
      arith,
      place_pairs-count rest (placed p s (tier calendar current p)),
      placed-count p s (tier calendar current p),
    )

    partition_from-count :
        (o : Option (StoredPair × List StoredPair))
        → let (keep, delete) = partition_from calendar current o in
          count test keep + count test delete ≡ count_split o
    partition_from-count none = omega arith
    partition_from-count (some (newest, others)) =
        let start : Partition = record { keep = newest ∷ []; delete = []; candidates = [] } in
        let s = place_pairs calendar current others start in
        omega (arith, choose_all-count s.candidates s, place_pairs-count others start)

    -- Every pair is either kept or deleted, once.
    pub retention_partition-count :
        (pairs : List StoredPair)
        → let (keep, delete) = retention_partition calendar current pairs in
          count test keep + count test delete ≡ count test pairs
    unfolding retention_partition
    retention_partition-count pairs =
        partition_from-count (split_newest pairs) ∙ split_newest-count pairs
