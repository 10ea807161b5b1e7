-- ===== src/Opml/Import.antt =====
-- `import_opml` of `feeds/services.py` on the table of `Feed` rows. The categories are those that
-- `_category_from_name` answered for the plan's names, and `less` is `<` on texts.
pub mod Again
pub mod Refines
pub mod Rows
pub mod Sorted
use daily_firehose.Common.{
  ℕ, ◌+◌, String, Bool, true, false, not, ◌&&◌, ◌||◌, Option, none, some, List, [], ◌∷◌, map,
  str_eq, sort_by, if◌then◌else◌, Result, ok, err,
}
use daily_firehose.Refresh.Feed.{Feed}
use daily_firehose.Opml.{OpmlFeed, ImportError, Env, parse_opml}

-- `next_id` is the key of the next feed.
pub record FeedTable : Type 0 where
  pub feeds : List Feed
  pub next_id : ℕ

pub record ImportResult : Type 0 where
  pub created : ℕ
  pub updated : ℕ
  pub skipped : ℕ

unfoldable pub find_feed : String → List Feed → Option Feed
find_feed url [] = none
find_feed url (f ∷ rest) = if str_eq f.feed_url url then some f else find_feed url rest

-- the row of a new feed, with the model's defaults
abbrev pub new_feed : ℕ → ℕ → Option ℕ → OpmlFeed → Feed
new_feed id now category p = record {
  id = id;
  title = p.title;
  feed_url = p.feed_url;
  site_url = p.site_url;
  description = "";
  category = category;
  is_active = true;
  last_fetched_at = none;
  last_attempt_at = none;
  last_error_code = "";
  last_error_message = "";
  consecutive_failures = 0;
  next_retry_at = none;
  refresh_generation = 0;
  created_at = now;
  updated_at = now;
}

abbrev pub with_defaults : ℕ → Option ℕ → OpmlFeed → Feed → Feed
with_defaults now category p f =
    if str_eq f.feed_url p.feed_url
    then record f {
      title = p.title;
      site_url = p.site_url;
      category = category;
      is_active = true;
      updated_at = now;
    }
    else f

abbrev pub created_or_updated : ℕ → Option ℕ → OpmlFeed → FeedTable → Option Feed → Bool × FeedTable
created_or_updated now category p table none = (
  true,
  record {
    feeds = new_feed table.next_id now category p ∷ table.feeds;
    next_id = table.next_id + 1;
  },
)
created_or_updated now category p table (some f) =
    (false, record table { feeds = map (with_defaults now category p) table.feeds })

-- `Feed.objects.update_or_create`: whether the row was created, and the table
unfoldable pub update_or_create : ℕ → Option ℕ → OpmlFeed → FeedTable → Bool × FeedTable
update_or_create now category p table =
    created_or_updated now category p table (find_feed p.feed_url table.feeds)

-- the order of the sorting key, `<` on tuples
unfoldable pub key_less : (String → String → Bool) → OpmlFeed → OpmlFeed → Bool
key_less less a b =
    less a.category_name b.category_name
    || (str_eq a.category_name b.category_name
        && (less a.feed_url b.feed_url
            || (str_eq a.feed_url b.feed_url
                && (less a.title b.title
                    || (str_eq a.title b.title && less a.site_url b.site_url)))))

unfoldable pub ordered_feeds : (String → String → Bool) → List OpmlFeed → List OpmlFeed
ordered_feeds less plan = sort_by (λ a b. not (key_less less b a)) plan

abbrev pub counted : Bool → ImportResult → ImportResult
counted true r = record r { created = r.created + 1 }
counted false r = record r { updated = r.updated + 1 }

-- the categories of the plan's names, and the clock's reading at each write
module _ (categories : String → Option ℕ) (now : OpmlFeed → ℕ) where
  -- the loop over the plan
  unfoldable pub import_feeds : List OpmlFeed → ImportResult → FeedTable → ImportResult × FeedTable
  import_feeds [] result table = (result, table)
  import_feeds (p ∷ rest) result table =
      let (was_created, later) = update_or_create (now p) (categories p.category_name) p table in
      import_feeds rest (counted was_created result) later

  abbrev pub import_plan :
      (String → String → Bool)
      → FeedTable
      → Result ImportError (List OpmlFeed × ℕ)
      → Result ImportError ImportResult × FeedTable
  import_plan less table (err e) = (err e, table)
  import_plan less table (ok (plan, skipped)) =
      let (result, later) =
        import_feeds (ordered_feeds less plan)
          (record { created = 0; updated = 0; skipped = skipped }) table in
      (ok result, later)

  unfoldable pub import_opml :
      Env
      → (String → String → Bool)
      → List ℕ
      → FeedTable
      → Result ImportError ImportResult × FeedTable
  import_opml env less content table = import_plan less table (parse_opml env content)
