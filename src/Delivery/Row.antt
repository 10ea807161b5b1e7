-- ===== src/Delivery/Row.antt =====
-- `SavedArticle` and `LinkdingDelivery` of feeds/models.py, with the two check constraints of the
-- delivery table. A time is a number of microseconds since the epoch; a blank `error_class` is
-- `none`. `SavedArticle.notes` and `interest_score` are left out: the delivery code never
-- reads or writes them.
use daily_firehose.Common.{ℕ, String, Bool, true, false, ◌&&◌, ◌||◌, Option, List, is_some, is_none}

pub data State : Type 0 where
  queued succeeded transient_failed permanent_failed : State

pub data ErrorClass : Type 0 where
  not_configured timeout connection rate_limited server_error auth : ErrorClass
  client_error invalid_response url_mismatch unexpected unknown : ErrorClass

pub record Article : Type 0 where
  pub id : ℕ
  pub feed : ℕ
  pub category : Option ℕ  -- the category of the article's feed
  pub url : String
  pub title : String
  pub summary : String

pub record SavedArticle : Type 0 where
  pub id : ℕ
  pub user : ℕ
  pub article : ℕ
  pub url : String
  pub title : String
  pub feed : Option ℕ
  pub category : Option ℕ
  pub linkding_saved : Bool
  pub linkding_error : String
  pub saved_at : ℕ
  pub updated_at : ℕ

pub record LinkdingDelivery : Type 0 where
  pub id : ℕ
  pub saved_article : ℕ  -- the primary key of the `SavedArticle`
  pub url : String
  pub state : State
  pub attempts : ℕ
  pub last_attempt_at : Option ℕ
  pub next_attempt_at : Option ℕ
  pub delivered_at : Option ℕ
  pub bookmark_id : String
  pub error_class : Option ErrorClass
  pub error_message : String
  pub created_at : ℕ
  pub updated_at : ℕ

-- `state in RETRYABLE_STATES`
abbrev pub is_retryable : State → Bool
is_retryable queued = true
is_retryable transient_failed = true
is_retryable succeeded = false
is_retryable permanent_failed = false

-- The check constraint `linkding_delivery_state_fields_agree`.
abbrev fields_agree : State → Option ℕ → Option ℕ → Option ErrorClass → Bool
fields_agree succeeded delivered next class = is_some delivered && is_none next && is_none class
fields_agree queued delivered next class = is_none delivered && is_some next
fields_agree transient_failed delivered next class = is_none delivered && is_some next
fields_agree permanent_failed delivered next class = is_none delivered && is_none next

abbrev pub state_fields_agree : LinkdingDelivery → Bool
state_fields_agree d = fields_agree d.state d.delivered_at d.next_attempt_at d.error_class

abbrev may_lack_class : State → Bool
may_lack_class queued = true
may_lack_class succeeded = true
may_lack_class transient_failed = false
may_lack_class permanent_failed = false

-- The check constraint `linkding_delivery_failure_is_classified`.
abbrev pub failure_is_classified : LinkdingDelivery → Bool
failure_is_classified d = may_lack_class d.state || is_some d.error_class

-- What the table accepts.
abbrev pub meets_constraints : LinkdingDelivery → Bool
meets_constraints d = state_fields_agree d && failure_is_classified d

-- The rows that the delivery code reads and writes.
pub record Store : Type 0 where
  pub articles : List Article
  pub newsletters : List ℕ  -- the articles that have a `NewsletterIssue`
  pub saved_articles : List SavedArticle
  pub deliveries : List LinkdingDelivery
  pub next_id : ℕ
