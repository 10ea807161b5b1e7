-- ===== src/Refresh/Plan/Conflict.antt =====
-- The only exception of the plan.
use daily_firehose.Common.{
  ℕ, ◌+◌, ◌≡◌, Option, none, some, List, [], ◌∷◌, arith, Bool-cases, inl, inr, Result, ok, err,
  >>=-eq-err, truthy, or_else, String,
}
use daily_firehose.Refresh.Feed.{Article}
use daily_firehose.Refresh.Fence.{RefreshError, identity_conflict}
use daily_firehose.Refresh.Entry.{Entry, TimeValue, entry_article_url}
use daily_firehose.Refresh.Plan.{
  ArticleWrite, by_guid, by_url, match_article, article_write, reserve, plan_entry, plan_entries,
  sort_writes, plan_article_reconciliation,
}

match_article-err :
    (g u : Option Article) (e : RefreshError) → match_article g u ≡ err e → e ≡ identity_conflict
unfolding match_article
match_article-err none u e h = cc
match_article-err (some a) none e h = cc
match_article-err (some a) (some b) e h = ground arith

reserve-err :
    (w : ArticleWrite) (writes : List ArticleWrite) (e : RefreshError)
    → reserve w writes ≡ err e
    → e ≡ identity_conflict
reserve-err w writes e h = ground arith

module _ (convert : TimeValue → Option ℕ) (clock : ℕ → ℕ) (snapshot : List Article) where
  plan_entry-err :
      (position : ℕ) (entry : Entry) (writes : List ArticleWrite) (e : RefreshError)
      → plan_entry convert clock snapshot position entry writes ≡ err e
      → e ≡ identity_conflict
  unfolding plan_entry
  plan_entry-err position entry writes e h = elim (Bool-cases (truthy url)) [
    | inr q ↦ cc (rw q at h)
    | inl q ↦ elim (>>=-eq-err matched write (rw q at h)) [
      | inl p ↦ match_article-err (by_guid guid snapshot) (by_url url snapshot) e p
      | inr (article, p, k) ↦
          reserve-err (article_write convert (clock position) position entry guid url article)
            writes e k
    ]
  ]
    where
      url : String
      url = entry_article_url entry

      guid : String
      guid = or_else entry.id url

      matched : Result RefreshError (Option Article)
      matched = match_article (by_guid guid snapshot) (by_url url snapshot)

      write : Option Article → Result RefreshError (List ArticleWrite)
      write article =
          reserve (article_write convert (clock position) position entry guid url article) writes

  plan_entries-err :
      (position : ℕ) (entries : List Entry) (writes : List ArticleWrite) (e : RefreshError)
      → plan_entries convert clock snapshot position entries writes ≡ err e
      → e ≡ identity_conflict
  unfolding plan_entries
  plan_entries-err position [] writes e h = cc
  plan_entries-err position (entry ∷ rest) writes e h =
      elim (>>=-eq-err (plan_entry convert clock snapshot position entry writes)
        (plan_entries convert clock snapshot (position + 1) rest) h) [
          | inl p ↦ plan_entry-err position entry writes e p
          | inr (next, p, k) ↦ plan_entries-err (position + 1) rest next e k
        ]

pub plan-err :
    (convert : TimeValue → Option ℕ) (clock : ℕ → ℕ) (snapshot : List Article)
    (entries : List Entry) (e : RefreshError)
    → plan_article_reconciliation convert clock snapshot entries ≡ err e
    → e ≡ identity_conflict
unfolding plan_article_reconciliation
plan-err convert clock snapshot entries e h =
    elim (>>=-eq-err (plan_entries convert clock snapshot 0 entries [])
      (λ writes. ok (sort_writes writes)) h) [
        | inl p ↦ plan_entries-err convert clock snapshot 0 entries [] e p
        | inr (writes, p, k) ↦ cc
      ]
