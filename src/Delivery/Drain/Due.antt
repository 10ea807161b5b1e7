-- ===== src/Delivery/Drain/Due.antt =====
-- The deliveries that `deliver_pending_saved_articles` of feeds/services.py works through: what holds
-- of every row, and of every two rows, holds of its list.
use daily_firehose.Common.{
  ℕ, zero, suc, ◌≡◌, ◌≢◌, refl, sym, true, Option, none, some, List, [], ◌∷◌, filter, any, take,
  All, All-weaken, All-take, Bool-cases, inl, inr, Option-cases, Bool, arith, ==-self, ◌≤◌, is_some,
  le→leb,
}
use daily_firehose.Delivery.Row.{Article, LinkdingDelivery, Store, is_retryable}
use daily_firehose.Delivery.Drain.{
  same_time, claimable, is_due, due_by, scheduled_before, insert_due, by_schedule, article_of,
  join_articles, due_deliveries,
}

-- No two rows have one key.
abbrev pub DistinctRows : List LinkdingDelivery → Type 0
DistinctRows [] = Unit
DistinctRows (d ∷ rest) = All (λ e. e.id ≢ d.id) rest × DistinctRows rest

abbrev pub Distinct : List (LinkdingDelivery × Article) → Type 0
Distinct [] = Unit
Distinct ((d, article) ∷ rest) = All (λ e. e.0.id ≢ d.id) rest × Distinct rest

All-filter_due {κ} :
    (P Q : LinkdingDelivery → Type κ) (now : ℕ) (rows : List LinkdingDelivery)
    → ((d : LinkdingDelivery) → is_due now d ≡ true → P d → Q d)
    → All P rows
    → All Q (filter (is_due now) rows)
All-filter_due P Q now [] step h = tt
All-filter_due P Q now (d ∷ rest) step h = elim (Bool-cases (is_due now d)) [
  | inl q ↦ rw q (step d q h.0, All-filter_due P Q now rest step h.1)
  | inr q ↦ rw q (All-filter_due P Q now rest step h.1)
]

filter-DistinctRows :
    (now : ℕ) (rows : List LinkdingDelivery)
    → DistinctRows rows
    → DistinctRows (filter (is_due now) rows)
filter-DistinctRows now [] h = tt
filter-DistinctRows now (d ∷ rest) h = elim (Bool-cases (is_due now d)) [
  | inl q ↦ rw q (
    All-filter_due (λ e. e.id ≢ d.id) (λ e. e.id ≢ d.id) now rest (λ e due p. p) h.0,
    filter-DistinctRows now rest h.1,
  )
  | inr q ↦ rw q (filter-DistinctRows now rest h.1)
]

All-insert_due {κ} :
    (P : LinkdingDelivery → Type κ) (d : LinkdingDelivery) (rows : List LinkdingDelivery)
    → P d
    → All P rows
    → All P (insert_due d rows)
unfolding insert_due
All-insert_due P d [] h k = (h, tt)
All-insert_due P d (e ∷ rest) h k = elim (Bool-cases (scheduled_before d e)) [
  | inl q ↦ rw (q, insert_due) (h, k)
  | inr q ↦ rw (q, insert_due) (k.0, All-insert_due P d rest h k.1)
]

insert_due-DistinctRows :
    (d : LinkdingDelivery) (rows : List LinkdingDelivery)
    → All (λ e. e.id ≢ d.id) rows
    → DistinctRows rows
    → DistinctRows (insert_due d rows)
unfolding insert_due
insert_due-DistinctRows d [] h k = (tt, tt)
insert_due-DistinctRows d (e ∷ rest) h k = elim (Bool-cases (scheduled_before d e)) [
  | inl q ↦ rw (q, insert_due) (h, k)
  | inr q ↦
      rw (q, insert_due)
        (
          All-insert_due (λ x. x.id ≢ e.id) d rest (λ same. h.0 (sym same)) k.0,
          insert_due-DistinctRows d rest h.1 k.1,
        )
]

All-by_schedule {κ} :
    (P : LinkdingDelivery → Type κ) (rows : List LinkdingDelivery)
    → All P rows
    → All P (by_schedule rows)
unfolding by_schedule
All-by_schedule P [] h = tt
All-by_schedule P (d ∷ rest) h =
    All-insert_due P d (by_schedule rest) h.0 (All-by_schedule P rest h.1)

by_schedule-DistinctRows :
    (rows : List LinkdingDelivery) → DistinctRows rows → DistinctRows (by_schedule rows)
unfolding by_schedule
by_schedule-DistinctRows [] h = tt
by_schedule-DistinctRows (d ∷ rest) h =
    insert_due-DistinctRows d (by_schedule rest) (All-by_schedule (λ e. e.id ≢ d.id) rest h.0)
      (by_schedule-DistinctRows rest h.1)

All-join_articles {κ} :
    (P : LinkdingDelivery → Type κ) (store : Store) (rows : List LinkdingDelivery)
    → All P rows
    → All (λ e. P e.0) (join_articles store rows)
unfolding join_articles
All-join_articles P store [] h = tt
All-join_articles P store (d ∷ rest) h = elim (Option-cases (article_of store d)) [
  | inl q ↦ rw (q, join_articles) (All-join_articles P store rest h.1)
  | inr (a, q) ↦ rw (q, join_articles) (h.0, All-join_articles P store rest h.1)
]

join_articles-Distinct :
    (store : Store) (rows : List LinkdingDelivery)
    → DistinctRows rows
    → Distinct (join_articles store rows)
unfolding join_articles
join_articles-Distinct store [] h = tt
join_articles-Distinct store (d ∷ rest) h = elim (Option-cases (article_of store d)) [
  | inl q ↦ rw (q, join_articles) (join_articles-Distinct store rest h.1)
  | inr (a, q) ↦
      rw (q, join_articles)
        (All-join_articles (λ e. e.id ≢ d.id) store rest h.0, join_articles-Distinct store rest h.1)
]

take-Distinct :
    (n : ℕ) (rows : List (LinkdingDelivery × Article)) → Distinct rows → Distinct (take n rows)
take-Distinct zero rows h = tt
take-Distinct (suc n) [] h = tt
take-Distinct (suc n) ((d, a) ∷ rest) h =
    (All-take (λ e. e.0.id ≢ d.id) n rest h.0, take-Distinct n rest h.1)

joined-Distinct :
    (now : ℕ) (store : Store)
    → DistinctRows store.deliveries
    → Distinct (join_articles store (by_schedule (filter (is_due now) store.deliveries)))
joined-Distinct now store h =
    join_articles-Distinct store (by_schedule (filter (is_due now) store.deliveries)) (
      by_schedule-DistinctRows (filter (is_due now) store.deliveries)
        (filter-DistinctRows now store.deliveries h))

pub due_deliveries-Distinct :
    (now : ℕ) (limit : Option ℕ) (store : Store)
    → DistinctRows store.deliveries
    → Distinct (due_deliveries now limit store)
unfolding due_deliveries
due_deliveries-Distinct now none store h = joined-Distinct now store h
due_deliveries-Distinct now (some n) store h = take-Distinct n _ (joined-Distinct now store h)

-- A due row is claimable as it was read.
same_self : (now : ℕ) (o : Option ℕ) → due_by now o ≡ true → same_time o o ≡ true
same_self now none h = cc
same_self now (some t) h = ==-self t

due-claimable : (now : ℕ) (d : LinkdingDelivery) → is_due now d ≡ true → claimable d d ≡ true
unfolding is_due claimable
due-claimable now d h =
    let retryable : is_retryable d.state ≡ true = ground (arith, h) in
    let due : due_by now d.next_attempt_at ≡ true = ground (arith, h) in
    rw (==-self d.id, retryable, same_self now d.next_attempt_at due) refl

-- The row stands in the table.
abbrev Stands : List LinkdingDelivery → LinkdingDelivery → Type 0
Stands rows d = claimable d d ≡ true → any (claimable d) rows ≡ true

all_stand : (rows : List LinkdingDelivery) → All (Stands rows) rows
all_stand [] = tt
all_stand (d ∷ rest) = (
  (λ h. rw h refl),
  All-weaken (Stands rest) (Stands (d ∷ rest)) rest (λ e stands h. ground (arith, stands h))
      (all_stand rest),
)

joined-claimable :
    (now : ℕ) (store : Store)
    → All
        (λ e. any (claimable e.0) store.deliveries ≡ true)
        (join_articles store (by_schedule (filter (is_due now) store.deliveries)))
joined-claimable now store =
    let P = λ (e : LinkdingDelivery). any (claimable e) store.deliveries ≡ true in
    All-join_articles P store (by_schedule (filter (is_due now) store.deliveries)) (
      All-by_schedule P (filter (is_due now) store.deliveries) (
        All-filter_due (Stands store.deliveries) P now store.deliveries
          (λ d q stands. stands (due-claimable now d q)) (all_stand store.deliveries)))

-- Every delivery of the list can be claimed as it was read.
pub due_deliveries-claimable :
    (now : ℕ) (limit : Option ℕ) (store : Store)
    → All (λ e. any (claimable e.0) store.deliveries ≡ true) (due_deliveries now limit store)
unfolding due_deliveries
due_deliveries-claimable now none store = joined-claimable now store
due_deliveries-claimable now (some n) store =
    All-take (λ e. any (claimable e.0) store.deliveries ≡ true) n _ (joined-claimable now store)

-- The delivery is owed and due at a time, and its article is there.
abbrev pub IsOwed : ℕ → Store → LinkdingDelivery → Type 0
IsOwed now store d =
    (is_retryable d.state ≡ true)
    × ((t : ℕ) × (d.next_attempt_at ≡ some t) × (t ≤ now))
    × (is_some (article_of store d) ≡ true)

module _ {κ} (P : LinkdingDelivery → Type κ) where
  All-uninserted :
      (d : LinkdingDelivery) (rows : List LinkdingDelivery)
      → All P (insert_due d rows)
      → P d × All P rows
  unfolding insert_due
  All-uninserted d [] h = h
  All-uninserted d (e ∷ rest) h = elim (Bool-cases (scheduled_before d e)) [
    | inl q ↦ rw (q, insert_due) at h
    | inr q ↦
        let both : P e × All P (insert_due d rest) = rw (q, insert_due) at h in
        let further = All-uninserted d rest both.1 in (further.0, (both.0, further.1))
  ]

  All-unscheduled : (rows : List LinkdingDelivery) → All P (by_schedule rows) → All P rows
  unfolding by_schedule
  All-unscheduled [] h = tt
  All-unscheduled (d ∷ rest) h =
      let both = All-uninserted d (by_schedule rest) h in (both.0, All-unscheduled rest both.1)

  All-unjoined :
      (store : Store) (rows : List LinkdingDelivery)
      → All (λ e. P e.0) (join_articles store rows)
      → All (λ d. is_some (article_of store d) ≡ true → P d) rows
  unfolding join_articles
  All-unjoined store [] h = tt
  All-unjoined store (d ∷ rest) h = elim (Option-cases (article_of store d)) [
    | inl q ↦ ((λ there. cc (rw q at there)), All-unjoined store rest (rw (q, join_articles) at h))
    | inr (a, q) ↦
        let both : P d × All (λ e. P e.0) (join_articles store rest) = rw (q, join_articles) at h in
        ((λ there. both.0), All-unjoined store rest both.1)
  ]

  All-unfiltered :
      (test : LinkdingDelivery → Bool) (rows : List LinkdingDelivery)
      → All P (filter test rows)
      → All (λ d. test d ≡ true → P d) rows
  All-unfiltered test [] h = tt
  All-unfiltered test (d ∷ rest) h = elim (Bool-cases (test d)) [
    | inl q ↦
        let both : P d × All P (filter test rest) = rw q at h in
        ((λ passes. both.0), All-unfiltered test rest both.1)
    | inr q ↦ ((λ passes. cc), All-unfiltered test rest (rw q at h))
  ]

owed_is_due :
    (now : ℕ) (store : Store) (d : LinkdingDelivery) → IsOwed now store d → is_due now d ≡ true
unfolding is_due
owed_is_due now store d (retryable, (t, q, reached), there) =
    rw (retryable, q) (le→leb t now reached)

-- What holds of the whole list holds of every delivery that is owed and due.
pub All-IsOwed {κ} :
    (P : LinkdingDelivery → Type κ) (now : ℕ) (store : Store)
    → All (λ e. P e.0) (due_deliveries now none store)
    → All (λ d. IsOwed now store d → P d) store.deliveries
unfolding due_deliveries
All-IsOwed P now store h =
    let Q = λ (d : LinkdingDelivery). is_some (article_of store d) ≡ true → P d in
    let due = filter (is_due now) store.deliveries in
    All-weaken (λ d. is_due now d ≡ true → Q d) (λ d. IsOwed now store d → P d) store.deliveries
      (λ d step owed. step (owed_is_due now store d owed) owed.2)
      (All-unfiltered Q (is_due now) store.deliveries
        (All-unscheduled Q due (All-unjoined P store (by_schedule due) h)))
