-- ===== src/Jobs/Ownership/Exclusive.antt =====
-- Which claims of a job (feeds/jobs.py) are granted.
use daily_firehose.Common.{
  ℕ, ◌≤◌, ◌≡◌, refl, eq_iff, String, Bool, true, false, ◌&&◌, ◌||◌, List, [], ◌∷◌, ◌++◌, map, any,
  count, ◌==◌, if◌then◌else◌, Result, ok, err, arith, Bool-cases, inl, inr, ◌⊎◌,
}
use daily_firehose.Jobs.Row.{Status, JobRun, is_running, runs_as}
use daily_firehose.Jobs.Ownership.{
  AcquireError, job_already_running, is_live, interrupt, reclaim, new_run, acquire_job, beat,
  Counts, finished,
}

pub count-none {ℓ} :
    {A : Type ℓ} (test : A → Bool) (xs : List A) → any test xs ≡ false → count test xs ≡ 0
count-none test [] h = refl
count-none test (x ∷ xs) h = ground (arith, count-none test xs)

pub any-none {ℓ} :
    {A : Type ℓ} (test : A → Bool) (xs : List A) → count test xs ≡ 0 → any test xs ≡ false
any-none test [] h = refl
any-none test (x ∷ xs) h = ground (arith, any-none test xs)

pub count-map_le {ℓ} :
    {A : Type ℓ} (test : A → Bool) (f : A → A) (xs : List A)
    → ((x : A) → test x ≡ false → test (f x) ≡ false)
    → count test (map f xs) ≤ count test xs
count-map_le test f [] keeps = omega arith
count-map_le test f (x ∷ xs) keeps = ground (arith, count-map_le test f xs keeps, keeps x)

pub count-map_none {ℓ} :
    {A : Type ℓ} (test : A → Bool) (f : A → A) (xs : List A)
    → ((x : A) → test (f x) ≡ false)
    → count test (map f xs) ≡ 0
count-map_none test f [] never = refl
count-map_none test f (x ∷ xs) never = ground (arith, count-map_none test f xs never, never x)

abbrev pub reclaimed : ℕ → String → JobRun → JobRun
reclaimed now name r = if runs_as name r then interrupt now r else r

abbrev pub is_held : ℕ → ℕ → String → JobRun → Bool
is_held now lease name r = runs_as name r && is_live now lease r

-- The loop refuses at a live run of the name, and interrupts the others.
reclaim_lem :
    (now lease : ℕ) (name : String) (rows : List JobRun)
    → reclaim now lease name rows ≡ (
        if any (is_held now lease name) rows
        then err job_already_running
        else ok (map (reclaimed now name) rows))
unfolding reclaim
reclaim_lem now lease name [] = refl
reclaim_lem now lease name (r ∷ rest) =
    let later = reclaim_lem now lease name rest in
    elim (Bool-cases (any (is_held now lease name) rest)) [
      | inl j ↦ ground (arith, j, later)
      | inr j ↦ ground (arith, j, later)
    ]

pub reclaimed-idle :
    (now : ℕ) (name : String) (r : JobRun) → runs_as name (reclaimed now name r) ≡ false
unfolding interrupt
reclaimed-idle now name r = ground arith

module _ (now lease : ℕ) (meanwhile : List JobRun) (id : ℕ)
    (name correlation_id owner : String) where
  abbrev pub run : JobRun
  run = new_run id now name correlation_id owner

  abbrev pub acquired : List JobRun → Result AcquireError JobRun × List JobRun
  acquired rows = acquire_job now lease meanwhile id name correlation_id owner rows

  abbrev pub kept : List JobRun → List JobRun
  kept rows = meanwhile ++ map (reclaimed now name) rows

  pub acquire_lem :
      (rows : List JobRun)
      → (((any (is_held now lease name) rows || any (runs_as name) (kept rows)) ≡ true)
          × (acquired rows ≡ (err job_already_running, meanwhile ++ rows)))
        ⊎ ((any (is_held now lease name) rows ≡ false)
            × (any (runs_as name) (kept rows) ≡ false)
            × (acquired rows ≡ (ok run, run ∷ kept rows)))
  unfolding acquire_job new_run
  acquire_lem rows = elim (Bool-cases (any (is_held now lease name) rows)) [
    | inl q ↦ inl (ground (arith, q), rw (acquire_job, reclaim_lem now lease name rows, q) refl)
    | inr q ↦ elim (Bool-cases (any (runs_as name) (kept rows))) [
      | inl k ↦
          inl (ground (arith, q, k), rw (acquire_job, reclaim_lem now lease name rows, q, k) refl)
      | inr k ↦ inr (q, k, rw (acquire_job, reclaim_lem now lease name rows, q, k) refl)
    ]
  ]

-- A job is granted exactly if no run of its name has sent a heartbeat within the lease: the new
-- run is then the only running one of that name. Otherwise it is refused, and no row changes.
-- No other worker's claim overlaps this one.
pub acquire-grants :
    (now lease id : ℕ) (name correlation_id owner : String) (rows : List JobRun)
    → let result = acquire_job now lease [] id name correlation_id owner rows in
      ((any (is_held now lease name) rows ≡ true) × (result ≡ (err job_already_running, rows)))
      ⊎ ((any (is_held now lease name) rows ≡ false)
          × (result.0 ≡ ok (new_run id now name correlation_id owner))
          × (count (runs_as name) result.1 ≡ 1))
unfolding new_run
acquire-grants now lease id name correlation_id owner rows =
    let none_left =
      count-map_none (runs_as name) (reclaimed now name) rows (reclaimed-idle now name) in
    elim (acquire_lem now lease [] id name correlation_id owner rows) [
      | inl (q, e) ↦ inl (ground (arith, q, any-none (runs_as name) _ none_left), e)
      | inr (q, k, e) ↦
          inr (q, rw e refl, rw e (ground (arith, none_left, (eq_iff name name).1 refl)))
    ]

pub beat-idle :
    (id now : ℕ) (name : String) (r : JobRun)
    → runs_as name r ≡ false
    → runs_as name (beat id now r) ≡ false
unfolding beat
beat-idle id now name r h = ground arith

pub finished-idle :
    (id now : ℕ) (status : Status) (counts : Counts) (code message name : String) (r : JobRun)
    → is_running status ≡ false
    → runs_as name r ≡ false
    → runs_as name (if r.id == id then finished now status counts code message r else r) ≡ false
unfolding finished
finished-idle id now status counts code message name r h k = ground arith
