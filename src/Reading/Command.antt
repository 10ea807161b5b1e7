-- ===== src/Reading/Command.antt =====
-- The commands of `feeds/commands.py` that change what is read, and `articles_between` and
-- `mark_articles_read` of `feeds/queries.py`.
use daily_firehose.Common.{
  ℕ, String, Bool, true, false, ◌&&◌, ◌||◌, not, Option, none, some, List, [], ◌∷◌, filter, leb,
  ◌==◌, if◌then◌else◌, Result, ok, err,
}
use daily_firehose.Delivery.Save.{update_or_create}
use daily_firehose.Refresh.Feed.{Article}
use daily_firehose.Reading.Row.{
  ReadScope, ArticleReadState, BulkReadMarker, ReadStore, is_feed_scope, clean, is_clean,
}
use daily_firehose.Reading.Query.{names_feed}
use daily_firehose.Reading.Query.Resolve.{is_state_of}
pub mod Effect

abbrev pub in_feed : Option ℕ → Article → Bool
in_feed none a = true
in_feed (some f) a = a.feed == f

-- the selection, without its order
unfoldable pub articles_between : (ℕ → ℕ) → ℕ → ℕ → Option ℕ → List Article → List Article
articles_between local_date start end feed articles =
    filter
      (λ a.
        leb start (local_date a.fetched_at) && leb (local_date a.fetched_at) end && in_feed feed a)
      articles

-- one row of the upsert, and `ArticleReadState.objects.update_or_create`
unfoldable pub set_state : ℕ → ℕ → Bool → Article → List ArticleReadState → List ArticleReadState
set_state user now is_read a states =
    (update_or_create (is_state_of user a) (λ s. record s { is_read = is_read; updated_at = now })
      (record { user = user; article = a.id; is_read = is_read; updated_at = now }) states).0

unfoldable pub mark_articles_read :
    ℕ → ℕ → List Article → List ArticleReadState → List ArticleReadState
mark_articles_read user now [] states = states
mark_articles_read user now (a ∷ rest) states =
    mark_articles_read user now rest (set_state user now true a states)

unfoldable pub mark_article_read : ℕ → ℕ → Article → Bool → ReadStore → ReadStore
mark_article_read user now a is_read store = record store {
  read_states = set_state user now is_read a store.read_states;
}

abbrev pub same_scope : ReadScope → ReadScope → Bool
same_scope ReadScope.day ReadScope.day = true
same_scope ReadScope.week ReadScope.week = true
same_scope ReadScope.month ReadScope.month = true
same_scope ReadScope.feed ReadScope.feed = true
same_scope s t = false

abbrev pub same_number : Option ℕ → Option ℕ → Bool
same_number none none = true
same_number (some a) (some b) = a == b
same_number a b = false

-- the lookup of `BulkReadMarker.objects.update_or_create`
abbrev pub same_marker : BulkReadMarker → BulkReadMarker → Bool
same_marker m n =
    (n.user == m.user)
    && same_scope n.scope m.scope
    && same_number n.feed m.feed
    && same_number n.period_start m.period_start
    && same_number n.period_end m.period_end

-- its effect: `marked_read_at` is `auto_now_add`, so that a new row takes the time of its insert,
-- whatever the defaults say, and only a row that is there takes the time of the command
unfoldable pub record_marker : ℕ → BulkReadMarker → List BulkReadMarker → List BulkReadMarker
record_marker inserted_at m markers =
    (update_or_create (same_marker m) (λ n. record n { marked_read_at = m.marked_read_at })
      (record m { marked_read_at = inserted_at }) markers).0

-- The clock is read for the mark, then for the read states, then for a new marker.
pub record Times : Type 0 where
  pub marked_read_at : ℕ
  pub updated_at : ℕ
  pub inserted_at : ℕ

-- the transaction: the read states and the marker that explains them
unfoldable pub commit_marker : Times → BulkReadMarker → List Article → ReadStore → ReadStore
commit_marker times m articles store = record store {
  read_states = mark_articles_read m.user times.updated_at articles store.read_states;
  markers = record_marker times.inserted_at m store.markers;
}

abbrev pub period_marker : ℕ → ReadScope → ℕ → ℕ → ℕ → BulkReadMarker
period_marker user scope start end now = record {
  user = user;
  scope = scope;
  feed = none;
  period_start = some start;
  period_end = some end;
  marked_read_at = now;
}

abbrev pub feed_marker : ℕ → ℕ → ℕ → BulkReadMarker
feed_marker user feed now = record {
  user = user;
  scope = ReadScope.feed;
  feed = some feed;
  period_start = none;
  period_end = none;
  marked_read_at = now;
}

abbrev pub fetched_by : ℕ → List Article → List Article
fetched_by now articles = filter (λ a. leb a.fetched_at now) articles

-- `full_clean`, then the transaction
abbrev pub cleaned :
    Times → BulkReadMarker → List Article → ReadStore → Result (List (String × String)) ReadStore
cleaned times m articles store =
    if is_clean (clean m) then ok (commit_marker times m articles store) else err (clean m)

unfoldable pub mark_period_read :
    (ℕ → ℕ) → ℕ → ReadScope → ℕ → ℕ → Times → ReadStore → Result (List (String × String)) ReadStore
mark_period_read local_date user scope start end times store =
    cleaned times (period_marker user scope start end times.marked_read_at)
      (fetched_by times.marked_read_at (articles_between local_date start end none store.articles))
      store

unfoldable pub mark_feed_read :
    ℕ → ℕ → Times → ReadStore → Result (List (String × String)) ReadStore
mark_feed_read user feed times store =
    cleaned times (feed_marker user feed times.marked_read_at)
      (fetched_by times.marked_read_at (filter (λ a. a.feed == feed) store.articles)) store
