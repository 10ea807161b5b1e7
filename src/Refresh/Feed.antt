-- ===== src/Refresh/Feed.antt =====
-- The models `Feed` and `Article` of feeds/models.py, and the rows that one refresh works on: the
-- feed's own row and its articles. A refresh touches no other feed's rows.
use daily_firehose.Common.{ℕ, String, Bool, Option, List}

pub record Feed : Type 0 where
  pub id : ℕ
  pub title : String
  pub feed_url : String
  pub site_url : String
  pub description : String
  pub category : Option ℕ
  pub is_active : Bool
  pub last_fetched_at : Option ℕ
  pub last_attempt_at : Option ℕ
  pub last_error_code : String
  pub last_error_message : String
  pub consecutive_failures : ℕ
  pub next_retry_at : Option ℕ
  pub refresh_generation : ℕ
  pub created_at : ℕ
  pub updated_at : ℕ

pub record Article : Type 0 where
  pub id : ℕ
  pub feed : ℕ
  pub title : String
  pub url : String
  pub guid : String
  pub author : String
  pub summary : String
  pub published_at : ℕ
  pub fetched_at : ℕ
  pub updated_at : ℕ

-- `next_id` is the key of the next article.
pub record FeedStore : Type 0 where
  pub feed : Feed
  pub articles : List Article
  pub next_id : ℕ
