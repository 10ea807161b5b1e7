-- ===== src/Refresh/Cycle/Counts.antt =====
-- The aggregates of a refresh, as the API, the command and the worker report them.
use mathlib.Core.Path.{subst}
use daily_firehose.Common.{
  ℕ, zero, suc, ◌+◌, ◌<◌, ◌≤◌, ◌≡◌, refl, sym, ap, ◌∙◌, Bool, true, false, List, [], ◌∷◌, ◌++◌,
  length, arith, ◌⊎◌, inl, inr, Bool-cases,
}
use daily_firehose.Refresh.Outcome.{RefreshResult, Status, status}
use daily_firehose.Refresh.Cycle.{
  RefreshTally, refresh_tally, CycleCounts, no_counts, count_status, count_cycle,
}

-- Each result is counted once by its status, and all but the skipped are attempts.
abbrev pub IsCounted : CycleCounts → Type 0
IsCounted c =
    (c.checked ≡ c.succeeded + c.failed + c.skipped + c.superseded)
    × (c.checked ≡ c.attempted + c.skipped)

count_status-IsCounted : (s : Status) (c : CycleCounts) → IsCounted c → IsCounted (count_status s c)
unfolding count_status
count_status-IsCounted Status.succeeded c h = omega arith
count_status-IsCounted _ c h = omega arith

count_cycle-IsCounted :
    (stopped : ℕ → Bool) (c : CycleCounts) (results : List RefreshResult)
    → IsCounted c
    → IsCounted (count_cycle stopped c results).0
unfolding count_cycle
count_cycle-IsCounted stopped c [] h = h
count_cycle-IsCounted stopped c (r ∷ rest) h =
    let counts = count_status (status r) c in
    let counted = count_status-IsCounted (status r) c h in
    ground (arith, counted, count_cycle-IsCounted stopped counts rest counted)

-- What a tally says of the results, as counts of a cycle.
abbrev pub as_counts : RefreshTally → CycleCounts
as_counts t = record {
  checked = t.checked;
  attempted = length t.attempted;
  succeeded = t.succeeded;
  failed = length t.failures;
  skipped = length t.skipped;
  superseded = length t.superseded;
}

abbrev add_counts : CycleCounts → CycleCounts → CycleCounts
add_counts a b = record {
  checked = a.checked + b.checked;
  attempted = a.attempted + b.attempted;
  succeeded = a.succeeded + b.succeeded;
  failed = a.failed + b.failed;
  skipped = a.skipped + b.skipped;
  superseded = a.superseded + b.superseded;
}

checked-count_status : (s : Status) (c : CycleCounts) → (count_status s c).checked ≡ c.checked + 1
unfolding count_status
checked-count_status Status.succeeded c = refl
checked-count_status _ c = refl

add_counts-nil : (c : CycleCounts) → c ≡ add_counts c (as_counts (refresh_tally []))
unfolding refresh_tally
add_counts-nil c = ground arith

add_counts-cons :
    (c : CycleCounts) (r : RefreshResult) (rest : List RefreshResult)
    → add_counts (count_status (status r) c) (as_counts (refresh_tally rest))
      ≡ add_counts c (as_counts (refresh_tally (r ∷ rest)))
unfolding count_status refresh_tally
add_counts-cons c r rest = ground arith

-- The stop is not requested by any of the first results, up to a number of them.
abbrev pub NotStopped : (ℕ → Bool) → ℕ → Type 0
NotStopped stopped n = (k : ℕ) → 0 < k → k ≤ n → stopped k ≡ false

NotStopped-suc :
    (stopped : ℕ → Bool) (n : ℕ)
    → stopped 1 ≡ false
    → NotStopped (λ k. stopped (k + 1)) n
    → NotStopped stopped (n + 1)
NotStopped-suc stopped n first others zero positive few = absurd (omega arith)
NotStopped-suc stopped n first others (suc zero) positive few = first
NotStopped-suc stopped n first others (suc (suc j)) positive few =
    let again : suc j + 1 ≡ suc (suc j) = omega arith in
    subst (λ k. stopped k ≡ false) again (others (suc j) (omega arith) (omega arith))

-- The counting stops at the last of `seen`, the first result by which the stop is requested.
abbrev pub StopsAfter : (ℕ → Bool) → List RefreshResult → Type 0
StopsAfter stopped seen =
    (last : ℕ) × (length seen ≡ last + 1) × (stopped (last + 1) ≡ true) × NotStopped stopped last

-- What a cycle has counted: some first results, up to the stop or to the end.
abbrev pub Counts : (ℕ → Bool) → CycleCounts → CycleCounts × Bool → List RefreshResult → Type 0
Counts stopped c ended results =
    (seen rest : List RefreshResult) × (results ≡ seen ++ rest)
    × (ended.0 ≡ add_counts c (as_counts (refresh_tally seen)))
    × (((ended.1 ≡ true) × StopsAfter stopped seen)
        ⊎ ((ended.1 ≡ false) × (rest ≡ []) × NotStopped stopped (length seen)))

later-Counts :
    (stopped : ℕ → Bool) (c : CycleCounts) (r : RefreshResult) (rest : List RefreshResult)
    (ended : CycleCounts × Bool)
    → stopped 1 ≡ false
    → Counts (λ k. stopped (k + 1)) (count_status (status r) c) ended rest
    → Counts stopped c ended (r ∷ rest)
later-Counts stopped c r rest ended first (seen, left, split, sum, ends) = (
  r ∷ seen,
  left,
  ap (λ (l : List RefreshResult). r ∷ l) split,
  sum ∙ add_counts-cons c r seen,
  elim ends [
    | inl (flag, (last, long, asked, none)) ↦
        inl (flag, (last + 1, omega (arith, long), asked, NotStopped-suc stopped last first none))
    | inr (flag, over, none) ↦ inr (
      flag,
      over,
      let long : length seen + 1 ≡ length (r ∷ seen) = omega arith in
          subst (NotStopped stopped) long (NotStopped-suc stopped (length seen) first none),
    )
  ],
)

count_cycle-Counts :
    (asked stopped : ℕ → Bool) (c : CycleCounts)
    → ((k : ℕ) → asked (c.checked + k) ≡ stopped k)
    → (results : List RefreshResult) → Counts stopped c (count_cycle asked c results) results
unfolding count_cycle
count_cycle-Counts asked stopped c same [] =
    ([], [], refl, add_counts-nil c, inr (refl, refl, (λ k positive few. absurd (omega arith))))
count_cycle-Counts asked stopped c same (r ∷ rest) =
    let counts = count_status (status r) c in
    let number : counts.checked ≡ c.checked + 1 = checked-count_status (status r) c in
    let here : asked counts.checked ≡ stopped 1 = ap asked number ∙ same 1 in
    elim (Bool-cases (asked counts.checked)) [
      | inl q ↦ rw q (
        r ∷ [],
        rest,
        refl,
        add_counts-nil counts ∙ add_counts-cons c r [],
        inl (refl, (0, omega arith, sym here ∙ q, (λ k positive few. absurd (omega arith)))),
      )
      | inr q ↦ rw q (
          later-Counts stopped c r rest (count_cycle asked counts rest) (sym here ∙ q) (
            count_cycle-Counts asked (λ k. stopped (k + 1)) counts
              (λ k.
                let shifted : counts.checked + k ≡ c.checked + (k + 1) = omega (arith, number) in
                ap asked shifted ∙ same (k + 1))
              rest))
    ]

-- A worker cycle counts its first results, each once by its status, as the tally of the other
-- adapters does for the same results, and all but the skipped ones as attempts. A cycle that reports
-- that it was stopped counts up to and including the first result by which the stop was requested,
-- and one that does not counts all of them, with no stop requested by any.
pub cycle-tally :
    (stopped : ℕ → Bool) (results : List RefreshResult)
    → let (counts, was_stopped) = count_cycle stopped no_counts results in
      (seen rest : List RefreshResult) × (results ≡ seen ++ rest)
      × (counts ≡ as_counts (refresh_tally seen))
      × IsCounted counts
      × (((was_stopped ≡ true) × StopsAfter stopped seen)
          ⊎ ((was_stopped ≡ false) × (rest ≡ []) × NotStopped stopped (length seen)))
cycle-tally stopped results =
    let (seen, rest, split, sum, ends) =
      count_cycle-Counts stopped stopped no_counts
        (λ k. let same : 0 + k ≡ k = omega arith in ap stopped same) results in
    (
      seen,
      rest,
      split,
      sum ∙ zero_counts (as_counts (refresh_tally seen)),
      count_cycle-IsCounted stopped no_counts results (omega arith),
      ends,
    )
  where
    zero_counts : (c : CycleCounts) → add_counts no_counts c ≡ c
    zero_counts c = ground arith
