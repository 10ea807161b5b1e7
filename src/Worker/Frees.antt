-- ===== src/Worker/Frees.antt =====
-- However a cycle ends, it leaves the job free.
use mathlib.Core.Path.{subst}
use daily_firehose.Common.{
  ℕ, ◌≡◌, sym, filter, All, All-map, Bool-cases, refl, ◌∙◌, String, Bool, true, false, some, List,
  [], ◌∷◌, map, any, count, ==_iff, inl, inr, arith, ok,
}
use daily_firehose.Refresh.Cycle.{no_counts, count_cycle}
use daily_firehose.Jobs.Row.{Status, JobRun, is_running, runs_as}
use daily_firehose.Jobs.Ownership.{
  new_run, acquire_job, beat, heartbeat, Counts, finished, finish_job,
}
use daily_firehose.Jobs.Ownership.Exclusive.{
  is_held, reclaimed, kept, acquire_lem, count-map_none, reclaimed-idle, beat-idle, finished-idle,
  acquire-grants, any-none,
}
use daily_firehose.Worker.{
  Cycle, refresh_job, as_job_counts, end_status, end_error, heartbeats, cycle_status, finish_cycle,
  cycle,
}

-- No run of the job but the one of the cycle is running.
abbrev Alone : ℕ → List JobRun → Type 0
Alone id rows = All (λ r. runs_as refresh_job r ≡ true → r.id ≡ id) rows

-- The running runs of the job.
abbrev pub running : List JobRun → List JobRun
running rows = filter (runs_as refresh_job) rows

Alone-running : (id : ℕ) (rows : List JobRun) → Alone id rows → Alone id (running rows)
Alone-running id [] h = tt
Alone-running id (r ∷ rest) h = elim (Bool-cases (runs_as refresh_job r)) [
  | inl q ↦ rw q (h.0, Alone-running id rest h.1)
  | inr q ↦ rw q (Alone-running id rest h.1)
]

running-Alone : (id : ℕ) (rows : List JobRun) → Alone id (running rows) → Alone id rows
running-Alone id [] h = tt
running-Alone id (r ∷ rest) h = elim (Bool-cases (runs_as refresh_job r)) [
  | inl q ↦
      let both : (runs_as refresh_job r ≡ true → r.id ≡ id) × Alone id (running rest) = rw q at h in
      (both.0, running-Alone id rest both.1)
  | inr q ↦ ((λ runs. cc), running-Alone id rest (rw q at h))
]

idle-Alone : (id : ℕ) (rows : List JobRun) → any (runs_as refresh_job) rows ≡ false → Alone id rows
idle-Alone id [] h = tt
idle-Alone id (r ∷ rest) h =
    let here : runs_as refresh_job r ≡ false = ground (arith, h) in
    let further : any (runs_as refresh_job) rest ≡ false = ground (arith, h) in
    ((λ runs. cc), idle-Alone id rest further)

beat_id : (id t : ℕ) (r : JobRun) → (beat id t r).id ≡ r.id
unfolding beat
beat_id id t r = ground arith

heartbeat-Alone : (id t : ℕ) (rows : List JobRun) → Alone id rows → Alone id (heartbeat id t rows)
unfolding heartbeat
heartbeat-Alone id t rows h =
    All-map (λ r. runs_as refresh_job r ≡ true → r.id ≡ id)
      (λ r. runs_as refresh_job r ≡ true → r.id ≡ id) (beat id t) rows
      (λ r k runs. beat_id id t r ∙ elim (Bool-cases (runs_as refresh_job r)) [
        | inl q ↦ k q
        | inr q ↦ let idle = beat-idle id t refresh_job r q in cc
      ])
      h

-- The other processes leave the running runs of the job as they are.
abbrev pub LeavesRunning : (ℕ → List JobRun → List JobRun) → Type 0
LeavesRunning others = (t : ℕ) (rows : List JobRun) → running (others t rows) ≡ running rows

others-Alone :
    (others : ℕ → List JobRun → List JobRun)
    → LeavesRunning others
    → (id t : ℕ) (rows : List JobRun) → Alone id rows
    → Alone id (others t rows)
others-Alone others leaves id t rows h =
    running-Alone id (others t rows)
      (subst (λ found. Alone id found) (sym (leaves t rows)) (Alone-running id rows h))

heartbeats-Alone :
    (others : ℕ → List JobRun → List JobRun)
    → LeavesRunning others
    → (id : ℕ) (ts : List ℕ) (rows : List JobRun) → Alone id rows
    → Alone id (heartbeats others id ts rows)
unfolding heartbeats
heartbeats-Alone others leaves id [] rows h = h
heartbeats-Alone others leaves id (t ∷ rest) rows h =
    heartbeats-Alone others leaves id rest (heartbeat id t (others t rows))
      (heartbeat-Alone id t (others t rows) (others-Alone others leaves id t rows h))

finish_job-Alone :
    (id now : ℕ) (status : Status) (counts : Counts) (code message : String) (rows : List JobRun)
    → is_running status ≡ false
    → Alone id rows
    → count (runs_as refresh_job) (finish_job id now status counts code message rows) ≡ 0
unfolding finish_job finished
finish_job-Alone id now status counts code message [] ends h = refl
finish_job-Alone id now status counts code message (r ∷ rest) ends h =
    let others = finish_job-Alone id now status counts code message rest ends h.1 in
    elim (Bool-cases (runs_as refresh_job r)) [
      | inl runs ↦ rw ((==_iff r.id id).1 (h.0 runs), ends) (ground (arith, others))
      | inr idle ↦
          let still = finished-idle id now status counts code message refresh_job r ends idle in
          rw still (omega (arith, others))
    ]

end_status_ends : (stopped raised : Bool) → is_running (end_status stopped raised) ≡ false
end_status_ends true raised = refl
end_status_ends false true = refl
end_status_ends false false = refl

finish_cycle-Alone :
    (c : Cycle) (id : ℕ) (rows : List JobRun)
    → LeavesRunning c.others
    → Alone id rows
    → count (runs_as refresh_job) (finish_cycle c id rows) ≡ 0
unfolding finish_cycle cycle_status
finish_cycle-Alone c id rows leaves h =
    let beaten = heartbeats c.others id c.beats_at rows in
    let (counts, was_stopped) = count_cycle c.stopped no_counts c.results in
    finish_job-Alone id c.ended_at (cycle_status c) (as_job_counts counts)
      (end_error (cycle_status c)).0 (end_error (cycle_status c)).1 (c.others c.ended_at beaten)
      (end_status_ends was_stopped c.raised)
      (others-Alone c.others leaves id c.ended_at beaten
        (heartbeats-Alone c.others leaves id c.beats_at rows h))

idle-held :
    (now lease : ℕ) (rows : List JobRun)
    → any (runs_as refresh_job) rows ≡ false
    → any (is_held now lease refresh_job) rows ≡ false
idle-held now lease [] h = refl
idle-held now lease (r ∷ rest) h =
    let here : runs_as refresh_job r ≡ false = ground (arith, h) in
    let further : any (runs_as refresh_job) rest ≡ false = ground (arith, h) in
    rw (here, idle-held now lease rest further) refl

free_job :
    (now lease id : ℕ) (correlation_id owner : String) (rows : List JobRun)
    → count (runs_as refresh_job) rows ≡ 0
    → (acquire_job now lease [] id refresh_job correlation_id owner rows).0
      ≡ ok (new_run id now refresh_job correlation_id owner)
free_job now lease id correlation_id owner rows idle =
    let free = idle-held now lease rows (any-none (runs_as refresh_job) rows idle) in
    elim (acquire-grants now lease id refresh_job correlation_id owner rows) [
      | inl (q, e) ↦ cc (q, free)
      | inr (q, granted, one) ↦ granted
    ]

new_id :
    (id now : ℕ) (correlation_id owner : String)
    → (new_run id now refresh_job correlation_id owner).id ≡ id
unfolding new_run
new_id id now correlation_id owner = refl

-- A cycle that finds no live run of the job claims it, where no other claim overlaps. If until its
-- end no other process starts, takes over or ends a run of the job, then, however the cycle ends,
-- after every feed, stopped between two or by an exception, no run of the job is running any more:
-- the next claim need not wait for a lease to expire, and is granted at any time.
pub cycle-frees :
    (c : Cycle) (lease id : ℕ) (correlation_id owner : String) (rows : List JobRun) (later next : ℕ)
    (next_correlation next_owner : String)
    → LeavesRunning c.others
    → any (is_held c.started_at lease refresh_job) rows ≡ false
    → let (status, after) = cycle c lease id correlation_id owner rows in
      (status ≡ some (cycle_status c))
      × (count (runs_as refresh_job) after ≡ 0)
      × ((acquire_job later lease [] next refresh_job next_correlation next_owner after).0
          ≡ ok (new_run next later refresh_job next_correlation next_owner))
unfolding cycle
cycle-frees c lease id correlation_id owner rows later next next_correlation next_owner leaves
      free =
    let quiet = any-none (runs_as refresh_job) (map (reclaimed c.started_at refresh_job) rows) (
      count-map_none (runs_as refresh_job) (reclaimed c.started_at refresh_job) rows
        (reclaimed-idle c.started_at refresh_job)) in
    elim (acquire_lem c.started_at lease [] id refresh_job correlation_id owner rows) [
      | inl (q, e) ↦ ground (arith, q, free, quiet)
      | inr (q, k, e) ↦
          let idle = finish_cycle-Alone c id _ leaves (
            (λ runs. new_id id c.started_at correlation_id owner),
            idle-Alone id (kept c.started_at lease [] id refresh_job correlation_id owner rows) k,
          ) in
          rw e (refl, idle, free_job later lease next next_correlation next_owner _ idle)
    ]
