-- ===== src/Reading/Examples.antt =====
-- Witnesses: two articles, a week's mark and a reader who set one article back to unread.
use Prim.Native.Nat.{◌/◌}
use daily_firehose.Common.{
  ℕ, ◌≤◌, ◌≡◌, true, false, ◌&&◌, ◌||◌, none, List, [], ◌∷◌, refl, take, length, ltb, ◌==◌,
  if◌then◌else◌, All, arith, ok,
}
use daily_firehose.Refresh.Feed.{Article}
use daily_firehose.Reading.Row.{ReadScope, ReadStore, clean, is_clean, has_valid_shape}
use daily_firehose.Reading.Row.Shape.{clean-has_valid_shape}
use daily_firehose.Reading.Query.{
  ArticlePage, read_predicate, saved_predicate, visible_articles, article_card_page,
}
use daily_firehose.Reading.Query.Resolve.{is_read_by, state_of, read_predicate-is_read_by}
use daily_firehose.Reading.Query.Page.{article_card_page-visible}
use daily_firehose.Reading.Command.{
  Times, articles_between, mark_article_read, mark_period_read, fetched_by, period_marker,
}
use daily_firehose.Reading.Command.Effect.{
  mark_period_read-reads, mark_period_read-late, mark_article_read-sets,
}

abbrev local_date : ℕ → ℕ
local_date t = t / 100

never_back : (s t : ℕ) → s ≤ t → local_date s ≤ local_date t
never_back s t h = omega arith

abbrev article : ℕ → ℕ → Article
article id fetched_at = record {
  id = id;
  feed = 7;
  title = "A launch";
  url = "https://example.org/launch";
  guid = "launch";
  author = "";
  summary = "";
  published_at = 0;
  fetched_at = fetched_at;
  updated_at = fetched_at;
}

abbrev articles : List Article
articles = article 1 110 ∷ article 2 890 ∷ []

abbrev store : ReadStore
store = record {
  articles = articles;
  read_states = record { user = 3; article = 1; is_read = false; updated_at = 900 } ∷ [];
  markers = period_marker 3 ReadScope.week 1 7 850 ∷ [];
  saves = [];
}

read_predicate-is_read_by_example :
    All
      (λ a. read_predicate local_date 3 articles store a ≡ is_read_by local_date 3 store a)
      articles
read_predicate-is_read_by_example =
    read_predicate-is_read_by local_date never_back 3 store articles (tt, tt)

article_card_page-visible_example :
    let visible = visible_articles local_date 3 articles store in
    (page : ArticlePage) × (article_card_page local_date 3 articles 1 store ≡ ok page)
    × (page.cards ≡ take 1 visible)
    × (page.has_more ≡ ltb 1 (length visible))
    × (length page.cards ≤ 1)
    × All
        (λ a. (read_predicate local_date 3 articles store a || saved_predicate 3 store a) ≡ false)
        page.cards
article_card_page-visible_example =
    article_card_page-visible local_date 3 store articles 1 (omega arith)

abbrev clock : Times
clock = record { marked_read_at = 950; updated_at = 960; inserted_at = 970 }

mark_period_read-reads_example :
    (after : ReadStore) × (mark_period_read local_date 3 ReadScope.day 1 1 clock store ≡ ok after)
    × All
        (λ x. is_read_by local_date 3 after x ≡ true)
        (fetched_by 950 (articles_between local_date 1 1 none store.articles))
    × ((x : Article) → is_read_by local_date 4 after x ≡ is_read_by local_date 4 store x)
mark_period_read-reads_example =
    mark_period_read-reads local_date 3 1 1 clock ReadScope.day store 4 refl (omega arith)
      (λ e. omega (arith, e))

mark_period_read-late_example :
    (after : ReadStore) × (mark_period_read local_date 3 ReadScope.day 8 9
        (record clock { inserted_at = 990 })
        store
      ≡ ok after)
    × (is_read_by local_date 3 after (article 5 955) ≡ true)
    × (state_of 3 (article 5 955) after.read_states ≡ none)
unfolding articles_between
mark_period_read-late_example =
    mark_period_read-late local_date 3 8 9 (record clock { inserted_at = 990 }) ReadScope.day store
      (article 5 955) refl refl (omega arith) (omega arith) (omega arith) (omega arith) refl refl

mark_article_read-sets_example :
    is_read_by local_date 3 (mark_article_read 3 960 (article 2 890) false store) (article 2 890)
    ≡ (if (3 == 3) && (2 == 2) then false else is_read_by local_date 3 store (article 2 890))
mark_article_read-sets_example =
    mark_article_read-sets local_date 3 960 (article 2 890) false store 3 (article 2 890)

clean-has_valid_shape_example :
    is_clean (clean (period_marker 3 ReadScope.week 7 1 850))
    ≡ has_valid_shape (period_marker 3 ReadScope.week 7 1 850)
clean-has_valid_shape_example = clean-has_valid_shape (period_marker 3 ReadScope.week 7 1 850)
