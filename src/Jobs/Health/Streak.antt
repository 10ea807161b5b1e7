-- ===== src/Jobs/Health/Streak.antt =====
-- What the status page says of a worker's own runs.
use daily_firehose.Common.{
  ℕ, zero, suc, ◌-◌, min, ◌≡◌, refl, String, Bool, true, false, ◌&&◌, not, some, List, [], ◌∷◌,
  filter, take, map, ltb, ◌==◌, ==-self, if◌then◌else◌, eq_iff, All, arith, insert_by, All-sort_by,
  All-filter_of, sort_by,
}
use daily_firehose.Jobs.Row.{Status, running, JobRun, is_running, is_failed}
use daily_firehose.Jobs.Ownership.{new_run, Counts, finished, finish_job}
use daily_firehose.Jobs.Health.{
  newer, has_name, leading_failures, consecutive_failures, Limits, job_health, last_success,
}

-- The run started last of the job's runs.
abbrev pub IsNewest : JobRun → List JobRun → Type 0
IsNewest run rows = All (λ r. newer run r ≡ true) rows

insert_by-first {ℓ} :
    {A : Type ℓ} (before : A → A → Bool) (x : A) (xs : List A)
    → All (λ y. before x y ≡ true) xs
    → insert_by before x xs ≡ x ∷ xs
unfolding insert_by
insert_by-first before x [] h = refl
insert_by-first before x (y ∷ rest) h = rw (h.0) refl

-- The newest row stands first, whatever else the filter keeps.
sort_by-newest :
    (test : JobRun → Bool) (run : JobRun) (rows : List JobRun)
    → IsNewest run rows
    → test run ≡ true
    → sort_by newer (filter test (run ∷ rows)) ≡ run ∷ sort_by newer (filter test rows)
unfolding sort_by
sort_by-newest test run rows h q =
    let older =
      All-sort_by (λ r. newer run r ≡ true) newer (filter test rows)
        (All-filter_of (λ r. newer run r ≡ true) test rows h) in
    rw q (insert_by-first newer run (sort_by newer (filter test rows)) older)

leading_failures-take :
    (n : ℕ) (rows : List JobRun)
    → leading_failures (map (λ r. r.status) (take n rows))
      ≡ min n (leading_failures (map (λ r. r.status) rows))
unfolding leading_failures
leading_failures-take zero rows = omega arith
leading_failures-take (suc n) [] = omega arith
leading_failures-take (suc n) (r ∷ rest) = ground (arith, leading_failures-take n rest)

finish_other :
    (id now : ℕ) (status : Status) (counts : Counts) (code message : String) (rows : List JobRun)
    → All (λ r. (r.id == id) ≡ false) rows
    → finish_job id now status counts code message rows ≡ rows
unfolding finish_job
finish_other id now status counts code message [] h = refl
finish_other id now status counts code message (r ∷ rest) h =
    rw (h.0, finish_other id now status counts code message rest h.1) refl

finished-IsNewest :
    (now : ℕ) (status : Status) (counts : Counts) (code message : String) (run : JobRun)
    (rows : List JobRun)
    → IsNewest run rows
    → IsNewest (finished now status counts code message run) rows
unfolding finished newer
finished-IsNewest now status counts code message run [] h = tt
finished-IsNewest now status counts code message run (r ∷ rest) h =
    (h.0, finished-IsNewest now status counts code message run rest h.1)

finish_own :
    (now : ℕ) (status : Status) (counts : Counts) (code message : String) (run : JobRun)
    (rows : List JobRun)
    → All (λ r. (r.id == run.id) ≡ false) rows
    → finish_job run.id now status counts code message (run ∷ rows)
      ≡ finished now status counts code message run ∷ rows
unfolding finish_job
finish_own now status counts code message run rows others =
    rw (==-self run.id, finish_other run.id now status counts code message rows others) refl

abbrev has_ended : String → JobRun → Bool
has_ended name r = has_name name r && not (is_running r.status)

has_ended-finished :
    (now : ℕ) (status : Status) (counts : Counts) (code message : String) (run : JobRun)
    → is_running status ≡ false
    → has_ended run.name (finished now status counts code message run) ≡ true
unfolding finished
has_ended-finished now status counts code message run ends =
    rw ((eq_iff run.name run.name).1 refl, ends) refl

streak_of :
    (run : JobRun) (rest : List JobRun)
    → leading_failures (map (λ r. r.status) (take 50 (run ∷ rest))) ≡ (
        if is_failed run.status
        then min 50 (suc (leading_failures (map (λ r. r.status) (take 50 rest))))
        else 0)
unfolding leading_failures
streak_of run rest = ground (arith, leading_failures-take 49 rest, leading_failures-take 50 rest)

-- A worker ends its run, the newest of its job. If it failed, the streak of failures is one longer
-- than before the run, up to the fifty rows that are read; any other end resets it to 0.
pub finish-streak :
    (now : ℕ) (status : Status) (counts : Counts) (code message : String) (run : JobRun)
    (rows : List JobRun)
    → is_running status ≡ false
    → IsNewest run rows
    → All (λ r. (r.id == run.id) ≡ false) rows
    → consecutive_failures run.name (finish_job run.id now status counts code message (run ∷ rows))
      ≡ (if is_failed status then min 50 (suc (consecutive_failures run.name rows)) else 0)
unfolding consecutive_failures finished
finish-streak now status counts code message run rows ends newest others =
    let ended = finished now status counts code message run in
    let rest = sort_by newer (filter (has_ended run.name) rows) in
    let sorted =
      sort_by-newest (has_ended run.name) ended rows
        (finished-IsNewest now status counts code message run rows newest)
        (has_ended-finished now status counts code message run ends) in
    rw (finish_own now status counts code message run rows others, sorted) (streak_of ended rest)

-- A worker that claims a job, whose runs all started before, is at once what the status page
-- reports: running, and stale exactly if its only heartbeat, the claim, is older than the limit.
-- The last success and the streak of failures stay those of the runs before.
claim-healthy :
    (rounded : ℕ → ℕ) (limits : Limits) (id now later : ℕ) (name correlation_id owner : String)
    (rows : List JobRun)
    → IsNewest (new_run id now name correlation_id owner) rows
    → let run = new_run id now name correlation_id owner in
      let health = job_health rounded limits later name (run ∷ rows) in
      (health.status ≡ some running)
      × (health.correlation_id ≡ correlation_id)
      × (health.stale ≡ ltb limits.heartbeat_age (later - now))
      × (health.last_success_at ≡ last_success name rows)
      × (health.consecutive_failures ≡ consecutive_failures name rows)
unfolding job_health new_run last_success consecutive_failures
claim-healthy rounded limits id now later name correlation_id owner rows newest =
    let run = new_run id now name correlation_id owner in
    let named = (eq_iff name name).1 refl in
    rw (sort_by-newest (has_name name) run rows newest named, named) (refl, refl, refl, refl, refl)
