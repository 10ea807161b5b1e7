-- ===== src/Monitor/Freshness.antt =====
-- The severity of a check against its receipts.
use daily_firehose.Common.{
  ℕ, ◌-◌, ◌≤◌, max, Option, none, some, List, ◌∷◌, leb, Bool-cases, inl, inr, arith,
}
use daily_firehose.Monitor.{
  Severity, missed, critical, containment, classify_receipt_age, receipts_until, later_of, newest,
  age_at, inspect_receipts,
}

abbrev pub rank : Severity → ℕ
rank Severity.ok = 0
rank missed = 1
rank critical = 2
rank containment = 3

-- An older receipt is never classified as less severe, and none as the most severe.
rank-classify_receipt_age :
    (a b : ℕ)
    → a ≤ b
    → (rank (classify_receipt_age (some a)) ≤ rank (classify_receipt_age (some b)))
      × (rank (classify_receipt_age (some b)) ≤ rank (classify_receipt_age none))
unfolding classify_receipt_age
rank-classify_receipt_age a b h = (ground arith, ground arith)

rank-later_of :
    (now t : ℕ) (o : Option ℕ)
    → rank (classify_receipt_age (age_at now (later_of t o)))
      ≤ rank (classify_receipt_age (age_at now o))
rank-later_of now t none = (rank-classify_receipt_age (now - t) (now - t) (omega arith)).1
rank-later_of now t (some u) = (rank-classify_receipt_age (now - max t u) (now - u) (omega arith)).0

-- One more receipt, valid or not, past or future, never makes a check more severe.
inspect_receipts-rank :
    (now : ℕ) (receipt : Option ℕ) (receipts : List (Option ℕ))
    → rank (inspect_receipts now (receipt ∷ receipts)).severity
      ≤ rank (inspect_receipts now receipts).severity
unfolding inspect_receipts receipts_until newest
inspect_receipts-rank now none receipts = omega arith
inspect_receipts-rank now (some t) receipts = elim (Bool-cases (leb t now)) [
  | inl q ↦ rw q (rank-later_of now t (newest (receipts_until now receipts)))
  | inr q ↦ rw q (omega arith)
]
