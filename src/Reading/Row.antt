-- ===== src/Reading/Row.antt =====
-- The rows that decide what is read: `ArticleReadState` and `BulkReadMarker` of `feeds/models.py`.
use daily_firehose.Common.{
  ℕ, String, Bool, true, false, ◌&&◌, Option, none, some, List, [], ◌∷◌, ◌++◌, leb, ltb, is_some,
  is_none, if◌then◌else◌,
}
use daily_firehose.Refresh.Feed.{Article}
pub mod Shape

pub data ReadScope : Type 0 where
  day week month feed : ReadScope

pub record ArticleReadState : Type 0 where
  pub user : ℕ
  pub article : ℕ
  pub is_read : Bool
  pub updated_at : ℕ

pub record BulkReadMarker : Type 0 where
  pub user : ℕ
  pub scope : ReadScope
  pub feed : Option ℕ
  pub period_start : Option ℕ
  pub period_end : Option ℕ
  pub marked_read_at : ℕ

-- The tables. A save is the pair of its user and its article.
pub record ReadStore : Type 0 where
  pub articles : List Article
  pub read_states : List ArticleReadState
  pub markers : List BulkReadMarker
  pub saves : List (ℕ × ℕ)

abbrev pub is_feed_scope : ReadScope → Bool
is_feed_scope feed = true
is_feed_scope _ = false

abbrev pub in_order : Option ℕ → Option ℕ → Bool
in_order (some start) (some end) = leb start end
in_order start end = false

-- `bulk_marker_valid_scope_shape`
abbrev pub has_valid_shape : BulkReadMarker → Bool
has_valid_shape m =
    if is_feed_scope m.scope
    then is_some m.feed && is_none m.period_start && is_none m.period_end
    else is_none m.feed
      && is_some m.period_start
      && is_some m.period_end
      && in_order m.period_start m.period_end

abbrev when : Bool → String × String → List (String × String)
when true message = message ∷ []
when false message = []

abbrev period_reversed : Option ℕ → Option ℕ → Bool
period_reversed (some start) (some end) = ltb end start
period_reversed start end = false

-- `BulkReadMarker.clean`: the errors it raises, none for a marker that passes
unfoldable pub clean : BulkReadMarker → List (String × String)
clean m =
    if is_feed_scope m.scope
    then when (is_none m.feed) ("feed", "Feed markers require a feed.")
      ++ when (is_some m.period_start) ("period_start", "Feed markers cannot have period dates.")
      ++ when (is_some m.period_end) ("period_end", "Feed markers cannot have period dates.")
    else when (is_some m.feed) ("feed", "Period markers cannot have a feed.")
      ++ when (is_none m.period_start) ("period_start", "Period markers require both dates.")
      ++ when (is_none m.period_end) ("period_end", "Period markers require both dates.")
      ++ when (period_reversed m.period_start m.period_end)
          ("period_end", "Period end must not precede period start.")

abbrev pub is_clean : List (String × String) → Bool
is_clean [] = true
is_clean (e ∷ rest) = false
