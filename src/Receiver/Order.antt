-- ===== src/Receiver/Order.antt =====
-- The newest and the earliest of some pairs, for `scripts/postgres_backup_receiver.py`.
use mathlib.Core.Path.{subst}
use daily_firehose.Common.{
  ◌≤◌, ◌≡◌, refl, sym, ap, true, Option, none, some, List, [], ◌∷◌, leb, leb→le, ==_iff, All,
  All-weaken, if_then, if_else, Bool-cases, inl, inr, arith,
}
use daily_firehose.Receiver.{
  StoredPair, Bucket, day, week, month, same_bucket, newest_with, split_newest, earliest_with,
  split_earliest,
}

pub same_bucket-eq : (a b : Bucket) → same_bucket a b ≡ true → a ≡ b
same_bucket-eq (day a) (day b) h = ap day ((==_iff a b).0 h)
same_bucket-eq (week a b) (week c d) h =
    let first = (==_iff a c).0 (ground (arith, h)) in
    let second = (==_iff b d).0 (ground (arith, h)) in λ i. week (first i) (second i)
same_bucket-eq (month a b) (month c d) h =
    let first = (==_iff a c).0 (ground (arith, h)) in
    let second = (==_iff b d).0 (ground (arith, h)) in λ i. month (first i) (second i)
same_bucket-eq (day a) (week c d) h = cc
same_bucket-eq (day a) (month c d) h = cc
same_bucket-eq (week a b) (day c) h = cc
same_bucket-eq (week a b) (month c d) h = cc
same_bucket-eq (month a b) (day c) h = cc
same_bucket-eq (month a b) (week c d) h = cc

-- What a split says of all the pairs, and the order of its first.
module _ {κ} (P : StoredPair → Type κ) where
  abbrev pub AllSplit : Option (StoredPair × List StoredPair) → Type κ
  AllSplit none = Unit
  AllSplit (some (p, others)) = P p × All P others

  earliest_with-All :
      (p : StoredPair) (rest : List StoredPair) (o : Option (StoredPair × List StoredPair))
      → P p
      → All P rest
      → AllSplit o
      → AllSplit (some (earliest_with p rest o))
  earliest_with-All p rest none h k l = (h, k)
  earliest_with-All p rest (some (m, others)) h k l =
      elim (Bool-cases (leb p.receipt_sequence m.receipt_sequence)) [
        | inl q ↦ rw q (h, k)
        | inr q ↦ rw q (l.0, (h, l.1))
      ]

  pub split_earliest-All : (pairs : List StoredPair) → All P pairs → AllSplit (split_earliest pairs)
  unfolding split_earliest
  split_earliest-All [] h = tt
  split_earliest-All (p ∷ rest) h =
      earliest_with-All p rest (split_earliest rest) h.0 h.1 (split_earliest-All rest h.1)

abbrev pub NoLater : StoredPair → List StoredPair → Type 0
NoLater e pairs = All (λ p. e.receipt_sequence ≤ p.receipt_sequence) pairs

abbrev pub IsEarliest : Option (StoredPair × List StoredPair) → List StoredPair → Type 0
IsEarliest none pairs = pairs ≡ []
IsEarliest (some (e, others)) pairs = NoLater e others × NoLater e pairs

earliest_with-IsEarliest :
    (p : StoredPair) (rest : List StoredPair) (o : Option (StoredPair × List StoredPair))
    → IsEarliest o rest
    → IsEarliest (some (earliest_with p rest o)) (p ∷ rest)
earliest_with-IsEarliest p rest none h =
    let none_left : NoLater p rest = subst (NoLater p) (sym h) tt in
    (none_left, (omega arith, none_left))
earliest_with-IsEarliest p rest (some (m, others)) h =
    elim (Bool-cases (leb p.receipt_sequence m.receipt_sequence)) [
      | inl q ↦
          let below = leb→le p.receipt_sequence m.receipt_sequence q in
          let all : NoLater p rest = All-weaken _ _ rest (λ x k. omega (arith, below, k)) h.1 in
          subst (λ o. IsEarliest (some o) (p ∷ rest)) (sym (if_then _ q)) (all, (omega arith, all))
      | inr q ↦
          let above : m.receipt_sequence ≤ p.receipt_sequence = ground (arith, q) in
          subst (λ o. IsEarliest (some o) (p ∷ rest)) (sym (if_else _ q))
            ((above, h.0), (above, h.1))
    ]

pub split_earliest-IsEarliest : (pairs : List StoredPair) → IsEarliest (split_earliest pairs) pairs
unfolding split_earliest
split_earliest-IsEarliest [] = refl
split_earliest-IsEarliest (p ∷ rest) =
    earliest_with-IsEarliest p rest (split_earliest rest) (split_earliest-IsEarliest rest)

abbrev pub IsNewest : Option (StoredPair × List StoredPair) → List StoredPair → Type 0
IsNewest none pairs = pairs ≡ []
IsNewest (some (n, others)) pairs = All (λ p. p.receipt_sequence ≤ n.receipt_sequence) pairs

newest_with-IsNewest :
    (p : StoredPair) (rest : List StoredPair) (o : Option (StoredPair × List StoredPair))
    → IsNewest o rest
    → IsNewest (some (newest_with p rest o)) (p ∷ rest)
newest_with-IsNewest p rest none h =
    (omega arith, subst (All (λ x. x.receipt_sequence ≤ p.receipt_sequence)) (sym h) tt)
newest_with-IsNewest p rest (some (m, others)) h =
    elim (Bool-cases (leb m.receipt_sequence p.receipt_sequence)) [
      | inl q ↦
          let below = leb→le m.receipt_sequence p.receipt_sequence q in
          subst (λ o. IsNewest (some o) (p ∷ rest)) (sym (if_then _ q))
            (omega arith, All-weaken _ _ rest (λ x k. omega (arith, below, k)) h)
      | inr q ↦ subst (λ o. IsNewest (some o) (p ∷ rest)) (sym (if_else _ q)) (ground (arith, q), h)
    ]

pub split_newest-IsNewest : (pairs : List StoredPair) → IsNewest (split_newest pairs) pairs
unfolding split_newest
split_newest-IsNewest [] = refl
split_newest-IsNewest (p ∷ rest) =
    newest_with-IsNewest p rest (split_newest rest) (split_newest-IsNewest rest)
