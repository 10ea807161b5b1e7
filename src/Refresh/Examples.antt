-- ===== src/Refresh/Examples.antt =====
-- A refresh of one feed with two articles, and the theorems at it.
use daily_firehose.Common.{
  ℕ, ◌+◌, ◌*◌, ◌^◌, ◌≤◌, ◌++◌, length, text_length, min, minute, ◌≡◌, refl, true, false, none, some,
  List, [], ◌∷◌, String, arith, any, ◌⊎◌, All, Result, ok, err, ◌==◌,
}
use daily_firehose.Refresh.Feed.{Feed, Article, FeedStore}
use daily_firehose.Refresh.Outcome.{RefreshResult, default_result}
use daily_firehose.Refresh.Fence.{RefreshError, data_error, retry_delay}
use daily_firehose.Refresh.Fence.Bounds.{retry_delay_schedule}
use daily_firehose.Refresh.Entry.{Entry, entry_article_url, entry_time, aware_datetime}
use daily_firehose.Refresh.Plan.{
  ArticleWrite, insert_write, write_before, plan_article_reconciliation, plan_entries, plan_entry,
  match_article, last_match, reserved, sort_writes,
}
use daily_firehose.Refresh.Plan.Planned.{Planned}
use daily_firehose.Refresh.Plan.Sorted.{plan-Planned}
use daily_firehose.Refresh.Apply.{ArticleTable, is_too_long, apply_article_reconciliation}
use daily_firehose.Refresh.Apply.Writes.{Placed, apply-Placed}
use daily_firehose.Refresh.Run.{Env, Parsed}
use daily_firehose.Refresh.Run.Settled.{table_of}
use daily_firehose.Refresh.Cycle.{skipped_result, no_counts, count_cycle, refresh_tally}
use daily_firehose.Refresh.Cycle.Counts.{IsCounted, StopsAfter, NotStopped, as_counts, cycle-tally}

abbrev planet : Feed
planet = record {
  id = 1;
  title = "Planet";
  feed_url = "https://planet.example/feed";
  site_url = "";
  description = "";
  category = none;
  is_active = true;
  last_fetched_at = none;
  last_attempt_at = none;
  last_error_code = "timeout";
  last_error_message = "Feed request timed out.";
  consecutive_failures = 2;
  next_retry_at = some 900;
  refresh_generation = 4;
  created_at = 0;
  updated_at = 0;
}

abbrev old_story : Article
old_story = record {
  id = 10;
  feed = 1;
  title = "Old";
  url = "https://planet.example/old";
  guid = "g-old";
  author = "";
  summary = "";
  published_at = 5;
  fetched_at = 6;
  updated_at = 6;
}

abbrev store : FeedStore
store = record { feed = planet; articles = old_story ∷ []; next_id = 11 }

abbrev entry : String → String → Entry
entry id link = record {
  id = id;
  link = link;
  links = [];
  title = "A title";
  author = "";
  summary = "";
  published_parsed = none;
  updated_parsed = none;
  published = none;
  updated = none;
}

-- the old story under a new address, and a new one
abbrev document : Parsed
document = record {
  bozo = false;
  info = none;
  entries =
      entry "g-new" "https://planet.example/new"
      ∷ entry "g-old" "https://planet.example/moved"
      ∷ [];
}

abbrev world : (ℕ → FeedStore → FeedStore) → Env ℕ Parsed
world others = record {
  now = λ w. (w, w + 1);
  monotonic = λ w. (w, w + 1);
  readings = λ w i. w;
  fetch = λ url w. (ok document, w + 10);
  parse = λ d. some d;
  convert = λ v. none;
  others = others;
}

abbrev alone : Env ℕ Parsed
alone = world (λ w s. s)

abbrev plan : Result RefreshError (List ArticleWrite)
plan = plan_article_reconciliation (λ v. none) (λ i. 100) (old_story ∷ []) document.entries

abbrev writes : List ArticleWrite
writes =
    record {
      position = 1;
      article = some old_story;
      guid = "g-old";
      url = "https://planet.example/moved";
      defaults = record { title = "A title"; author = ""; summary = ""; published_at = 100 };
    }
    ∷ record {
      position = 0;
      article = none;
      guid = "g-new";
      url = "https://planet.example/new";
      defaults = record { title = "A title"; author = ""; summary = ""; published_at = 100 };
    }
    ∷ []

plan_made : plan ≡ ok writes
unfolding plan_article_reconciliation plan_entries plan_entry match_article last_match reserved
    sort_writes entry_article_url entry_time aware_datetime insert_write write_before
plan_made = refl

writes_fit : any is_too_long writes ≡ false
unfolding is_too_long text_length
writes_fit = refl

retry_delay_schedule_example :
    (retry_delay 3 ≡ min (5 * minute * 2 ^ 2) (1440 * minute))
    × (5 * minute ≤ retry_delay 2)
    × (retry_delay 2 ≤ 1440 * minute)
    × (retry_delay 2 ≤ retry_delay 9)
retry_delay_schedule_example = retry_delay_schedule 2 9 (omega arith)

plan-Planned_example : Planned (old_story ∷ []) writes
plan-Planned_example =
    plan-Planned (λ v. none) (λ i. 100) (old_story ∷ []) document.entries writes (tt, tt) plan_made

apply-Placed_example :
    ((any is_too_long writes ≡ true)
      × (apply_article_reconciliation 1 (λ i. 100) writes (table_of store) ≡ err data_error))
    ⊎ ((any is_too_long writes ≡ false)
        × ((result : (ℕ × ℕ) × ArticleTable) × (apply_article_reconciliation 1
                (λ i. 100)
                writes
                (table_of store)
              ≡ ok result)
            × All (Placed result.1.rows) writes
            × (result.0.0 + result.0.1 ≡ 2)))
apply-Placed_example =
    apply-Placed 1 (λ i. 100) writes (table_of store) plan-Planned_example (omega arith)

-- three results, with the stop requested by the second
abbrev yielded : List RefreshResult
yielded = skipped_result planet ∷ default_result planet ∷ default_result planet ∷ []

cycle-tally_example :
    let (counts, was_stopped) = count_cycle (λ n. n == 2) no_counts yielded in
    (seen rest : List RefreshResult) × (yielded ≡ seen ++ rest)
    × (counts ≡ as_counts (refresh_tally seen))
    × IsCounted counts
    × (((was_stopped ≡ true) × StopsAfter (λ n. n == 2) seen)
        ⊎ ((was_stopped ≡ false) × (rest ≡ []) × NotStopped (λ n. n == 2) (length seen)))
cycle-tally_example = cycle-tally (λ n. n == 2) yielded
