-- ===== src/Refresh/Plan.antt =====
-- `_plan_article_reconciliation` of feeds/services.py.
pub mod Planned
pub mod Sorted
pub mod Conflict
pub mod Lookup
use Prim.Native.Nat.{Ordering}
use Prim.Native.String.{compare}
use daily_firehose.Common.{
  ℕ, zero, suc, ◌+◌, String, Bool, true, false, not, ◌&&◌, ◌||◌, Option, none, some, List, [], ◌∷◌,
  any, str_eq, truthy, or_else, ltb, leb, ◌==◌, if◌then◌else◌, Result, ok, err, ◌>>=◌,
}
use daily_firehose.Refresh.Feed.{Article}
use daily_firehose.Refresh.Fence.{RefreshError, identity_conflict}
use daily_firehose.Refresh.Entry.{Entry, TimeValue, entry_article_url, entry_time, aware_datetime}

-- `defaults` of an `_ArticleWrite`.
pub record Defaults : Type 0 where
  pub title : String
  pub author : String
  pub summary : String
  pub published_at : ℕ

pub record ArticleWrite : Type 0 where
  pub position : ℕ
  pub article : Option Article
  pub guid : String
  pub url : String
  pub defaults : Defaults

-- the last row that fits, which is what a dictionary built over the rows keeps
unfoldable pub last_match : (Article → Bool) → List Article → Option Article
last_match fits [] = none
last_match fits (a ∷ rest) = elim (last_match fits rest) [
  | some b ↦ some b
  | none ↦ if fits a then some a else none
]

-- `by_guid.get(guid)` and `by_url.get(url)`
abbrev pub by_guid : String → List Article → Option Article
by_guid guid = last_match (λ a. str_eq a.guid guid)

abbrev pub by_url : String → List Article → Option Article
by_url url = last_match (λ a. str_eq a.url url)

-- `guid_match or url_match`, or the conflict of two different rows
unfoldable pub match_article :
    Option Article → Option Article → Result RefreshError (Option Article)
match_article none found = ok found
match_article (some a) none = ok (some a)
match_article (some a) (some b) = if a.id == b.id then ok (some a) else err identity_conflict

-- `reserved_guids`, `reserved_urls` and `reserved_articles` are read off the writes made so far,
-- which add one to each set
abbrev reserves_article : Article → ArticleWrite → Bool
reserves_article a w = elim w.article [ none ↦ false | some b ↦ b.id == a.id ]

abbrev is_reserved : Option Article → List ArticleWrite → Bool
is_reserved none writes = false
is_reserved (some a) writes = any (reserves_article a) writes

unfoldable pub reserved : String → String → Option Article → List ArticleWrite → Bool
reserved guid url article writes =
    any (λ w. str_eq w.guid guid || str_eq w.url url) writes || is_reserved article writes

-- the write of one entry
abbrev pub article_write :
    (TimeValue → Option ℕ) → ℕ → ℕ → Entry → String → String → Option Article → ArticleWrite
article_write convert now position entry guid url article = record {
  position = position;
  article = article;
  guid = guid;
  url = url;
  defaults = record {
    title = or_else entry.title url;
    author = entry.author;
    summary = entry.summary;
    published_at = aware_datetime convert now (entry_time entry);
  };
}

-- the write is appended unless an earlier one has its guid, its URL or its article
abbrev pub reserve : ArticleWrite → List ArticleWrite → Result RefreshError (List ArticleWrite)
reserve w writes =
    if reserved w.guid w.url w.article writes then err identity_conflict else ok (w ∷ writes)

module _ (convert : TimeValue → Option ℕ) (clock : ℕ → ℕ) (snapshot : List Article) where
  -- the body of the loop
  unfoldable pub plan_entry :
      ℕ → Entry → List ArticleWrite → Result RefreshError (List ArticleWrite)
  plan_entry position entry writes =
      let url = entry_article_url entry in
      let guid = or_else entry.id url in
      let planned = match_article (by_guid guid snapshot) (by_url url snapshot) >>= λ article.
      reserve (article_write convert (clock position) position entry guid url article) writes in
      if truthy url then planned else ok writes

  -- the loop; the writes are collected newest first
  unfoldable pub plan_entries :
      ℕ → List Entry → List ArticleWrite → Result RefreshError (List ArticleWrite)
  plan_entries position [] writes = ok writes
  plan_entries position (entry ∷ rest) writes =
      plan_entry position entry writes >>= plan_entries (position + 1) rest

-- The sort key `(article is None, pk or guid, url, position)`.
abbrev text_before : String → String → Bool → Bool
text_before s t later = elim (compare s t) [
  | Ordering.lt ↦ true
  | Ordering.eq ↦ later
  | Ordering.gt ↦ false
]

abbrev number_before : ℕ → ℕ → Bool → Bool
number_before m n later = ltb m n || (m == n && later)

abbrev key_before : Option Article → String → Option Article → String → Bool → Bool
key_before (some a) g (some b) h later = number_before a.id b.id later
key_before (some a) g none h later = true
key_before none g (some b) h later = false
key_before none g none h later = text_before g h later

unfoldable pub write_before : ArticleWrite → ArticleWrite → Bool
write_before v w =
    key_before v.article v.guid w.article w.guid
      (text_before v.url w.url (leb v.position w.position))

unfoldable pub insert_write : ArticleWrite → List ArticleWrite → List ArticleWrite
insert_write w [] = w ∷ []
insert_write w (v ∷ rest) =
    let later = insert_write w rest in if write_before w v then w ∷ v ∷ rest else v ∷ later

unfoldable pub sort_writes : List ArticleWrite → List ArticleWrite
sort_writes [] = []
sort_writes (w ∷ rest) = insert_write w (sort_writes rest)

unfoldable pub plan_article_reconciliation :
    (TimeValue → Option ℕ)
    → (ℕ → ℕ)
    → List Article
    → List Entry
    → Result RefreshError (List ArticleWrite)
plan_article_reconciliation convert clock snapshot entries =
    plan_entries convert clock snapshot 0 entries [] >>= λ writes. ok (sort_writes writes)
