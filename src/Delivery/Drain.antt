-- ===== src/Delivery/Drain.antt =====
-- `_claim_delivery` and `deliver_pending_saved_articles` of feeds/services.py. `others` is what
-- other processes have committed between the list of due rows and the claim of one of them.
pub mod Attempted
pub mod Claim
pub mod Due
pub mod Tally
use daily_firehose.Common.{
  ℕ, zero, suc, ◌+◌, String, Bool, true, false, ◌&&◌, ◌||◌, Option, none, some, List, [], ◌∷◌, map,
  leb, ltb, ◌==◌, if◌then◌else◌, filter, any, take,
}
use daily_firehose.Delivery.Row.{
  State, Article, SavedArticle, LinkdingDelivery, Store, queued, succeeded, transient_failed,
  permanent_failed, is_retryable,
}
use daily_firehose.Delivery.Backoff.{attempt_lease}
use daily_firehose.Delivery.Remote.{Env}
use daily_firehose.Delivery.Attempt.{Settings, attempt_linkding_delivery}

-- SQL's `=` on a nullable column, against a value that Python holds: `field=None` is IS NULL
abbrev pub same_time : Option ℕ → Option ℕ → Bool
same_time none none = true
same_time (some a) (some b) = a == b
same_time none (some b) = false
same_time (some a) none = false

-- the filter of the claim
unfoldable pub claimable : LinkdingDelivery → LinkdingDelivery → Bool
claimable read row =
    row.id == read.id
    && is_retryable row.state
    && same_time row.next_attempt_at read.next_attempt_at

unfoldable pub lease_row : LinkdingDelivery → ℕ → LinkdingDelivery → LinkdingDelivery
lease_row read now row =
    if claimable read row
    then record row { next_attempt_at = some (now + attempt_lease); updated_at = now }
    else row

-- `update` answers the number of rows; the key makes it 0 or 1
unfoldable pub claim_delivery : LinkdingDelivery → ℕ → Store → Bool × Store
unfolding claimable lease_row
claim_delivery read now store = (
  any (claimable read) store.deliveries,
  record store { deliveries = map (lease_row read now) store.deliveries },
)

-- `next_attempt_at__lte=now`; NULL is never at most anything
abbrev pub due_by : ℕ → Option ℕ → Bool
due_by now none = false
due_by now (some t) = leb t now

unfoldable pub is_due : ℕ → LinkdingDelivery → Bool
is_due now d = is_retryable d.state && due_by now d.next_attempt_at

-- `order_by("next_attempt_at", "id")`
abbrev pub schedule_of : LinkdingDelivery → ℕ
schedule_of d = elim d.next_attempt_at [ none ↦ 0 | some t ↦ t ]

unfoldable pub scheduled_before : LinkdingDelivery → LinkdingDelivery → Bool
scheduled_before a b =
    ltb (schedule_of a) (schedule_of b) || (schedule_of a == schedule_of b && leb a.id b.id)

unfoldable pub insert_due : LinkdingDelivery → List LinkdingDelivery → List LinkdingDelivery
insert_due d [] = d ∷ []
insert_due d (e ∷ rest) =
    let later = insert_due d rest in if scheduled_before d e then d ∷ e ∷ rest else e ∷ later

unfoldable pub by_schedule : List LinkdingDelivery → List LinkdingDelivery
unfolding insert_due scheduled_before
by_schedule [] = []
by_schedule (d ∷ rest) = insert_due d (by_schedule rest)

abbrev limited {ℓ} : {A : Type ℓ} → Option ℕ → List A → List A
limited none xs = xs
limited (some n) xs = take n xs

find_row {ℓ} : {A : Type ℓ} → (A → Bool) → List A → Option A
find_row fits [] = none
find_row fits (row ∷ rows) = if fits row then some row else find_row fits rows

-- `delivery.saved_article.article`
unfoldable pub article_of : Store → LinkdingDelivery → Option Article
unfolding find_row
article_of store d = elim (find_row (λ s. s.id == d.saved_article) store.saved_articles) [
  | none ↦ none
  | some saved ↦ find_row (λ a. a.id == saved.article) store.articles
]

abbrev with_article {ℓ} :
    {A : Type ℓ} → Option Article → A → List (A × Article) → List (A × Article)
with_article none d rest = rest
with_article (some article) d rest = (d, article) ∷ rest

-- `select_related` of columns that are never NULL is an inner join
unfoldable pub join_articles : Store → List LinkdingDelivery → List (LinkdingDelivery × Article)
unfolding article_of
join_articles store [] = []
join_articles store (d ∷ rest) = with_article (article_of store d) d (join_articles store rest)

unfoldable pub due_deliveries : ℕ → Option ℕ → Store → List (LinkdingDelivery × Article)
unfolding is_due by_schedule join_articles
due_deliveries now limit store =
    limited limit (join_articles store (by_schedule (filter (is_due now) store.deliveries)))

pub record DeliveryTally : Type 0 where
  pub attempted : ℕ
  pub succeeded : ℕ
  pub transient : ℕ
  pub permanent : ℕ

abbrev pub no_deliveries : DeliveryTally
no_deliveries = record { attempted = 0; succeeded = 0; transient = 0; permanent = 0 }

unfoldable pub tally_state : State → DeliveryTally → DeliveryTally
tally_state State.succeeded t = record t {
  attempted = t.attempted + 1;
  succeeded = t.succeeded + 1;
}
tally_state transient_failed t = record t {
  attempted = t.attempted + 1;
  transient = t.transient + 1;
}
tally_state queued t = record t { attempted = t.attempted + 1; permanent = t.permanent + 1 }
tally_state permanent_failed t = record t {
  attempted = t.attempted + 1;
  permanent = t.permanent + 1;
}

module _ {W : Type 0} (env : Env W) (settings : Settings) (others : W → Store → Store) where
  -- one round of the loop: the claim, and the attempt if the claim wins
  unfoldable pub drain_one :
      LinkdingDelivery → Article → DeliveryTally × Store → W → (DeliveryTally × Store) × W
  unfolding claim_delivery tally_state
  drain_one d article (tally, store) w =
      let (now, w1) = env.now w in
      let (claimed, store') = claim_delivery d now (others w store) in
      let ((d', store''), w2) = attempt_linkding_delivery env settings article d store' w1 in
      if claimed then ((tally_state d'.state tally, store''), w2) else ((tally, store'), w1)

  unfoldable pub drain_all :
      List (LinkdingDelivery × Article) → DeliveryTally × Store → W → (DeliveryTally × Store) × W
  unfolding drain_one
  drain_all [] acc w = (acc, w)
  drain_all ((d, article) ∷ rest) acc w =
      let (acc', w') = drain_one d article acc w in drain_all rest acc' w'

  unfoldable pub deliver_pending_saved_articles : Option ℕ → Store → W → (DeliveryTally × Store) × W
  unfolding due_deliveries drain_all
  deliver_pending_saved_articles limit store w =
      let (now, w1) = env.now w in
      drain_all (due_deliveries now limit store) (no_deliveries, store) w1
