-- ===== src/Refresh/Apply.antt =====
-- `_apply_article_reconciliation` of feeds/services.py, on a table with the column limits and the
-- two unique constraints of the model `Article`: a write that would break one raises, and so does
-- one to a missing row.
pub mod Rows
pub mod Writes
use daily_firehose.Common.{
  ℕ, ◌+◌, String, Bool, true, false, not, ◌&&◌, ◌||◌, Option, none, some, List, [], ◌∷◌, ◌++◌, map,
  any, ltb, str_eq, text_length, ◌==◌, if◌then◌else◌, Result, ok, err, ◌>>=◌,
}
use daily_firehose.Refresh.Feed.{Article}
use daily_firehose.Refresh.Fence.{RefreshError, integrity, data_error, other}
use daily_firehose.Refresh.Plan.{ArticleWrite}

-- The articles of one feed, in the order of their keys, and the key of the next one.
pub record ArticleTable : Type 0 where
  pub rows : List Article
  pub next_id : ℕ

-- a text is longer than its column, which the database refuses with a `DataError`
unfoldable pub is_too_long : ArticleWrite → Bool
is_too_long w =
    ltb 500 (text_length w.defaults.title)
    || ltb 1000 (text_length w.url)
    || ltb 1000 (text_length w.guid)
    || ltb 255 (text_length w.defaults.author)

-- another row has the guid or the URL
unfoldable pub clashes : ℕ → String → String → Article → Bool
clashes id guid url a = not (a.id == id) && (str_eq a.guid guid || str_eq a.url url)

unfoldable pub written : ℕ → ArticleWrite → Article → Article
written now w a = record a {
  guid = w.guid;
  url = w.url;
  title = w.defaults.title;
  author = w.defaults.author;
  summary = w.defaults.summary;
  published_at = w.defaults.published_at;
  updated_at = now;
}

unfoldable pub created : ℕ → ℕ → ℕ → ArticleWrite → Article
created id feed now w = record {
  id = id;
  feed = feed;
  title = w.defaults.title;
  url = w.url;
  guid = w.guid;
  author = w.defaults.author;
  summary = w.defaults.summary;
  published_at = w.defaults.published_at;
  fetched_at = now;
  updated_at = now;
}

-- `article.save(update_fields=...)` at the row with the article's key
unfoldable pub update_article :
    ℕ → ArticleWrite → Article → ArticleTable → Result RefreshError ArticleTable
update_article now w a table =
    if is_too_long w
    then err data_error
    else if any (clashes a.id w.guid w.url) table.rows
    then err integrity
    else if any (λ r. r.id == a.id) table.rows
    then ok
        (record table { rows = map (λ r. if r.id == a.id then written now w r else r) table.rows })
    else err other

-- `Article.objects.create(...)`
unfoldable pub create_article :
    ℕ → ℕ → ArticleWrite → ArticleTable → Result RefreshError ArticleTable
create_article feed now w table =
    if is_too_long w
    then err data_error
    else if any (clashes table.next_id w.guid w.url) table.rows
    then err integrity
    else ok (record {
      rows = table.rows ++ created table.next_id feed now w ∷ [];
      next_id = table.next_id + 1;
    })

abbrev apply_write :
    ℕ → ℕ → Option Article → ArticleWrite → ArticleTable → Result RefreshError ArticleTable
apply_write feed now none w table = create_article feed now w table
apply_write feed now (some a) w table = update_article now w a table

abbrev counted : Option Article → ℕ × ℕ → ℕ × ℕ
counted none (created, updated) = (created + 1, updated)
counted (some a) (created, updated) = (created, updated + 1)

-- the loop; `clock` is the reading of the clock at each write, `done` the counts so far
unfoldable pub apply_writes :
    ℕ
    → (ℕ → ℕ)
    → List ArticleWrite
    → ℕ × ℕ
    → ArticleTable
    → Result RefreshError ((ℕ × ℕ) × ArticleTable)
apply_writes feed clock [] done table = ok (done, table)
apply_writes feed clock (w ∷ rest) done table =
    apply_write feed (clock w.position) w.article w table
    >>= apply_writes feed clock rest (counted w.article done)

unfoldable pub apply_article_reconciliation :
    ℕ → (ℕ → ℕ) → List ArticleWrite → ArticleTable → Result RefreshError ((ℕ × ℕ) × ArticleTable)
apply_article_reconciliation feed clock writes table = apply_writes feed clock writes (0, 0) table
