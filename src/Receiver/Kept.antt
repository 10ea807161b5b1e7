-- ===== src/Receiver/Kept.antt =====
-- Why `retention_partition` of `scripts/postgres_backup_receiver.py` deletes a pair.
use daily_firehose.Common.{
  ℕ, ◌+◌, ◌≤◌, ◌≡◌, refl, sym, ap, ◌∙◌, ◌⊎◌, Bool, Option, none, some, List, [], ◌∷◌, ◌++◌,
  ++_assoc, All, All-++, All-weaken, All-both, Bool-cases, count, inl, inr,
}
use daily_firehose.Receiver.Retention.{retention_partition-count}
use daily_firehose.Receiver.Order.{
  same_bucket-eq, AllSplit, split_earliest-All, IsEarliest, split_earliest-IsEarliest,
  split_newest-IsNewest,
}
use daily_firehose.Receiver.{
  StoredPair, Bucket, Calendar, Tier, recent, expired, bucketed, same_bucket, newest_with,
  split_newest, split_earliest, Partition, add_candidate, placed, chosen, choose_all, tier,
  place_pairs, partition_from, retention_partition,
}

-- `p` is one of `pairs`.
pub record IsIn (p : StoredPair) (pairs : List StoredPair) : Type 0 where
  pub front : List StoredPair
  pub back : List StoredPair
  pub split : pairs ≡ front ++ p ∷ back

IsIn-++ : (p : StoredPair) (xs ys : List StoredPair) → IsIn p xs → IsIn p (xs ++ ys)
IsIn-++ p xs ys i = record {
  front = i.front;
  back = i.back ++ ys;
  split = ap (λ l. l ++ ys) i.split ∙ ++_assoc i.front (p ∷ i.back) ys;
}

module _ (calendar : Calendar) (current : ℕ) where
  -- A pair of the same bucket that was received no later is kept.
  pub record IsCovered (keep : List StoredPair) (p : StoredPair) : Type 0 where
    pub bucket : Bucket
    pub falls : tier calendar current p ≡ bucketed bucket
    pub earlier : StoredPair
    pub kept : IsIn earlier keep
    pub same : tier calendar current earlier ≡ bucketed bucket
    pub order : earlier.receipt_sequence ≤ p.receipt_sequence

  -- Why a pair may be deleted: it is older than a year, or it is covered.
  abbrev pub MayDelete : List StoredPair → StoredPair → Type 0
  MayDelete keep p = (tier calendar current p ≡ expired) ⊎ IsCovered keep p

  MayDelete-++ :
      (keep more : List StoredPair) (p : StoredPair) → MayDelete keep p → MayDelete (keep ++ more) p
  MayDelete-++ keep more p (inl old) = inl old
  MayDelete-++ keep more p (inr c) = inr (record {
    bucket = c.bucket;
    falls = c.falls;
    earlier = c.earlier;
    kept = IsIn-++ c.earlier keep more c.kept;
    same = c.same;
    order = c.order;
  })

  abbrev InBucket : Bucket × List StoredPair → Type 0
  InBucket (bucket, pairs) = All (λ p. tier calendar current p ≡ bucketed bucket) pairs

  add_candidate-InBucket :
      (bucket : Bucket) (p : StoredPair) (candidates : List (Bucket × List StoredPair))
      → tier calendar current p ≡ bucketed bucket
      → All InBucket candidates
      → All InBucket (add_candidate bucket p candidates)
  unfolding add_candidate
  add_candidate-InBucket bucket p [] h good = ((h, tt), tt)
  add_candidate-InBucket bucket p ((key, pairs) ∷ rest) h good =
      elim (Bool-cases (same_bucket key bucket)) [
        | inl q ↦
            let here = h ∙ ap bucketed (sym (same_bucket-eq key bucket q)) in
            rw q (All-++ _ pairs (p ∷ []) good.0 (here, tt), good.1)
        | inr q ↦ rw q (good.0, add_candidate-InBucket bucket p rest h good.1)
      ]

  -- The state of the loop over the pairs.
  record IsSorted (newest : StoredPair) (s : Partition) : Type 0 where
    pub kept : IsIn newest s.keep
    pub old : All (λ p. tier calendar current p ≡ expired) s.delete
    pub grouped : All InBucket s.candidates

  placed-IsSorted :
      (newest p : StoredPair) (s : Partition) (t : Tier)
      → tier calendar current p ≡ t
      → IsSorted newest s
      → IsSorted newest (placed p s t)
  placed-IsSorted newest p s recent h i = record {
    kept = IsIn-++ newest s.keep (p ∷ []) i.kept;
    old = i.old;
    grouped = i.grouped;
  }
  placed-IsSorted newest p s expired h i = record {
    kept = i.kept;
    old = All-++ _ s.delete (p ∷ []) i.old (h, tt);
    grouped = i.grouped;
  }
  placed-IsSorted newest p s (bucketed b) h i = record {
    kept = i.kept;
    old = i.old;
    grouped = add_candidate-InBucket b p s.candidates h i.grouped;
  }

  place_pairs-IsSorted :
      (newest : StoredPair) (pairs : List StoredPair) (s : Partition)
      → IsSorted newest s
      → IsSorted newest (place_pairs calendar current pairs s)
  unfolding place_pairs
  place_pairs-IsSorted newest [] s i = i
  place_pairs-IsSorted newest (p ∷ rest) s i =
      place_pairs-IsSorted newest rest (placed p s (tier calendar current p))
        (placed-IsSorted newest p s (tier calendar current p) refl i)

  -- The state of the loop over the buckets.
  pub record IsRetained (newest : StoredPair) (keep delete : List StoredPair) : Type 0 where
    pub kept : IsIn newest keep
    pub deleted : All (MayDelete keep) delete

  chosen-IsRetained :
      (newest : StoredPair) (key : Bucket) (pairs : List StoredPair) (s : Partition)
      (o : Option (StoredPair × List StoredPair))
      → AllSplit (λ p. tier calendar current p ≡ bucketed key) o
      → IsEarliest o pairs
      → IsRetained newest s.keep s.delete
      → IsRetained newest (chosen s o).keep (chosen s o).delete
  chosen-IsRetained newest key pairs s none group early i = i
  chosen-IsRetained newest key pairs s (some (e, others)) group early i = record {
    kept = IsIn-++ newest s.keep (e ∷ []) i.kept;
    deleted =
        All-++ _ s.delete others
          (All-weaken _ _ s.delete (λ p h. MayDelete-++ s.keep (e ∷ []) p h) i.deleted)
          (All-both _ _ _ others
            (λ p falls order. inr (record {
              bucket = key;
              falls = falls;
              earlier = e;
              kept = record { front = s.keep; back = []; split = refl };
              same = group.0;
              order = order;
            }))
            group.1 early.0);
  }

  choose_all-IsRetained :
      (newest : StoredPair) (candidates : List (Bucket × List StoredPair)) (s : Partition)
      → All InBucket candidates
      → IsRetained newest s.keep s.delete
      → IsRetained newest (choose_all candidates s).keep (choose_all candidates s).delete
  unfolding choose_all
  choose_all-IsRetained newest [] s grouped i = i
  choose_all-IsRetained newest ((key, pairs) ∷ rest) s grouped i =
      choose_all-IsRetained newest rest (chosen s (split_earliest pairs)) grouped.1 (
        chosen-IsRetained newest key pairs s (split_earliest pairs)
          (split_earliest-All (λ p. tier calendar current p ≡ bucketed key) pairs grouped.0)
          (split_earliest-IsEarliest pairs) i)

  partition_from-IsRetained :
      (newest : StoredPair) (others : List StoredPair)
      → let (keep, delete) = partition_from calendar current (some (newest, others)) in
        IsRetained newest keep delete
  partition_from-IsRetained newest others =
      let start : Partition = record { keep = newest ∷ []; delete = []; candidates = [] } in
      let first : IsSorted newest start = record {
        kept = record { front = []; back = []; split = refl };
        old = tt;
        grouped = tt;
      } in
      let i = place_pairs-IsSorted newest others start first in
      let s = place_pairs calendar current others start in
      choose_all-IsRetained newest s.candidates s i.grouped
        (record { kept = i.kept; deleted = All-weaken _ _ s.delete (λ p h. inl h) i.old })

  -- The newest pair is kept, and why each deleted pair may be.
  pub record IsRetention (pairs keep delete : List StoredPair) : Type 0 where
    pub newest : StoredPair
    pub highest : All (λ p. p.receipt_sequence ≤ newest.receipt_sequence) pairs
    pub retained : IsRetained newest keep delete
    pub counts : (test : StoredPair → Bool) → count test keep + count test delete ≡ count test pairs

  -- Of some pairs one with the highest sequence is kept. A pair is deleted only if its tier is the
  -- expired one, or if it falls in a bucket of which a pair with a sequence that is no higher is kept.
  -- Each pair is either kept or deleted, once: any test holds of as many pairs before as after.
  pub retention_partition-IsRetention :
      (p : StoredPair) (rest : List StoredPair)
      → let (keep, delete) = retention_partition calendar current (p ∷ rest) in
        IsRetention (p ∷ rest) keep delete
  unfolding retention_partition split_newest
  retention_partition-IsRetention p rest =
      let (newest, others) = newest_with p rest (split_newest rest) in
      record {
        newest = newest;
        highest = split_newest-IsNewest (p ∷ rest);
        retained = partition_from-IsRetained newest others;
        counts = λ test. retention_partition-count test calendar current (p ∷ rest);
      }
