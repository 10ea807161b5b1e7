-- ===== src/Reading/Query.antt =====
-- The read test and the pages of `feeds/queries.py`. `local_date` is Django's conversion of a time
-- to a date of the current time zone, which the `__date` lookups and `localtime(...).date()` share.
use daily_firehose.Common.{
  ℕ, suc, ◌+◌, min, max, Bool, true, false, not, ◌&&◌, ◌||◌, Option, none, some, List, [], ◌∷◌, map,
  filter, any, take, length, leb, ltb, ◌==◌, if◌then◌else◌, Result, ok, err, String,
}
use daily_firehose.Refresh.Feed.{Article}
use daily_firehose.Reading.Row.{ArticleReadState, BulkReadMarker, ReadStore, is_feed_scope}
pub mod Resolve
pub mod Page

abbrev pub widen : ℕ → Option (ℕ × ℕ) → Option (ℕ × ℕ)
widen t none = some (t, t)
widen t (some (earliest, latest)) = some (min t earliest, max t latest)

-- `Min("fetched_at")` and `Max("fetched_at")`; both are NULL for no article
unfoldable pub bounds : List Article → Option (ℕ × ℕ)
bounds [] = none
bounds (a ∷ rest) = widen a.fetched_at (bounds rest)

abbrev pub names_feed : Option ℕ → Article → Bool
names_feed none a = false
names_feed (some f) a = a.feed == f

-- a comparison with NULL is never true
abbrev pub on_or_before : Option ℕ → ℕ → Bool
on_or_before none d = false
on_or_before (some s) d = leb s d

abbrev pub on_or_after : Option ℕ → ℕ → Bool
on_or_after none d = false
on_or_after (some e) d = leb d e

abbrev pub same : Bool → Bool → Bool
same true b = b
same false b = not b

abbrev pub has_state : ℕ → Bool → Article → ArticleReadState → Bool
has_state user is_read a s = (s.user == user) && (s.article == a.id) && same s.is_read is_read

-- `_explicit_state_predicate`
unfoldable pub explicit_state : ℕ → Bool → ReadStore → Article → Bool
explicit_state user is_read store a = any (has_state user is_read a) store.read_states

pub record ArticlePage : Type 0 where
  pub cards : List Article
  pub has_more : Bool
  pub limit : ℕ

unfoldable pub saved_predicate : ℕ → ReadStore → Article → Bool
saved_predicate user store a = any (λ s. (s.0 == user) && (s.1 == a.id)) store.saves

module _ (local_date : ℕ → ℕ) where
  abbrev pub may_cover : ℕ → ℕ → List Article → BulkReadMarker → Bool
  may_cover earliest latest articles m =
      if is_feed_scope m.scope
      then any (names_feed m.feed) articles
      else on_or_before m.period_start (local_date latest)
        && on_or_after m.period_end (local_date earliest)

  abbrev pub is_candidate : ℕ → List Article → Option (ℕ × ℕ) → BulkReadMarker → Bool
  is_candidate user articles none m = false
  is_candidate user articles (some (earliest, latest)) m =
      (m.user == user) && leb earliest m.marked_read_at && may_cover earliest latest articles m

  -- `_covering_markers`
  unfoldable pub covering_markers : ℕ → List Article → ReadStore → List BulkReadMarker
  covering_markers user articles store =
      filter (is_candidate user articles (bounds articles)) store.markers

  -- `scope_matches & Q(fetched_at__lte=marker.marked_read_at)`
  unfoldable pub covers : Article → BulkReadMarker → Bool
  covers a m =
      (if is_feed_scope m.scope
        then names_feed m.feed a
        else on_or_before m.period_start (local_date a.fetched_at)
          && on_or_after m.period_end (local_date a.fetched_at))
      && leb a.fetched_at m.marked_read_at

  -- `_bulk_read_predicate`
  unfoldable pub bulk_read : ℕ → List Article → ReadStore → Article → Bool
  bulk_read user articles store a = any (covers a) (covering_markers user articles store)

  unfoldable pub read_predicate : ℕ → List Article → ReadStore → Article → Bool
  read_predicate user articles store a =
      (explicit_state user true store a || bulk_read user articles store a)
      && not (explicit_state user false store a)

  unfoldable pub read_article_ids : ℕ → List Article → ReadStore → List ℕ
  read_article_ids user articles store =
      map (λ a. a.id) (filter (read_predicate user articles store) articles)

  unfoldable pub visible_articles : ℕ → List Article → ReadStore → List Article
  visible_articles user articles store =
      filter (λ a. not (read_predicate user articles store a || saved_predicate user store a))
        articles

  -- the page of a queryset in its order; a card is its article, neither read nor saved
  unfoldable pub article_card_page : ℕ → List Article → ℕ → ReadStore → Result String ArticlePage
  article_card_page user articles limit store =
      let rows = take (limit + 1) (visible_articles user articles store) in
      if ltb limit 1
      then err "limit must be at least 1"
      else ok
          (record { cards = take limit rows; has_more = ltb limit (length rows); limit = limit })
