-- ===== src/Refresh/Plan/Sorted.antt =====
-- Sorting a plan keeps what makes it fit the snapshot.
use mathlib.Core.Path.{subst}
use daily_firehose.Common.{
  ℕ, ◌≡◌, sym, Option, none, some, List, [], ◌∷◌, All, Bool-cases, inl, inr, ok, >>=-eq-ok,
}
use daily_firehose.Refresh.Feed.{Article}
use daily_firehose.Refresh.Entry.{Entry, TimeValue}
use daily_firehose.Refresh.Plan.{
  ArticleWrite, plan_entries, write_before, insert_write, sort_writes, plan_article_reconciliation,
}
use daily_firehose.Refresh.Plan.Lookup.{UniqueRows}
use daily_firehose.Refresh.Plan.Planned.{
  Fits, OtherArticle, Apart, AllApart, Planned, plan_entries-Planned,
}

Apart-sym : (v w : ArticleWrite) → Apart v w → Apart w v
Apart-sym v w h = record {
  guids = λ e. h.guids (sym e);
  urls = λ e. h.urls (sym e);
  articles = other_sym v.article w.article h.articles;
}
  where
    other_sym : (a b : Option Article) → OtherArticle a b → OtherArticle b a
    other_sym none none k = tt
    other_sym none (some b) k = tt
    other_sym (some a) none k = tt
    other_sym (some a) (some b) k = λ e. k (sym e)

All-insert_write {κ} :
    (P : ArticleWrite → Type κ) (w : ArticleWrite) (writes : List ArticleWrite)
    → P w
    → All P writes
    → All P (insert_write w writes)
unfolding insert_write
All-insert_write P w [] h k = (h, tt)
All-insert_write P w (v ∷ rest) h k = elim (Bool-cases (write_before w v)) [
  | inl q ↦ rw (q, insert_write) (h, k)
  | inr q ↦ rw (q, insert_write) (k.0, All-insert_write P w rest h k.1)
]

insert_write-AllApart :
    (w : ArticleWrite) (writes : List ArticleWrite)
    → All (Apart w) writes
    → AllApart writes
    → AllApart (insert_write w writes)
unfolding insert_write
insert_write-AllApart w [] h k = (tt, tt)
insert_write-AllApart w (v ∷ rest) h k = elim (Bool-cases (write_before w v)) [
  | inl q ↦ rw (q, insert_write) (h, k)
  | inr q ↦
      rw (q, insert_write)
        (
          All-insert_write (Apart v) w rest (Apart-sym w v h.0) k.0,
          insert_write-AllApart w rest h.1 k.1,
        )
]

All-sort_writes {κ} :
    (P : ArticleWrite → Type κ) (writes : List ArticleWrite)
    → All P writes
    → All P (sort_writes writes)
unfolding sort_writes
All-sort_writes P [] h = tt
All-sort_writes P (w ∷ rest) h =
    All-insert_write P w (sort_writes rest) h.0 (All-sort_writes P rest h.1)

sort_writes-AllApart :
    (writes : List ArticleWrite) → AllApart writes → AllApart (sort_writes writes)
unfolding sort_writes
sort_writes-AllApart [] h = tt
sort_writes-AllApart (w ∷ rest) h =
    insert_write-AllApart w (sort_writes rest) (All-sort_writes (Apart w) rest h.0)
      (sort_writes-AllApart rest h.1)

-- A plan that is made from a snapshot with unique keys, guids and URLs holds writes that share no
-- guid, no URL and no article with one another. None has the guid or the URL of a row other than
-- its own, and each row that a write is for is in the snapshot.
pub plan-Planned :
    (convert : TimeValue → Option ℕ) (clock : ℕ → ℕ) (snapshot : List Article)
    (entries : List Entry) (writes : List ArticleWrite)
    → UniqueRows snapshot
    → plan_article_reconciliation convert clock snapshot entries ≡ ok writes
    → Planned snapshot writes
unfolding plan_article_reconciliation
plan-Planned convert clock snapshot entries writes unique e =
    let (found, planned, sorted) =
      >>=-eq-ok (plan_entries convert clock snapshot 0 entries []) (λ ws. ok (sort_writes ws)) e in
    let same : sort_writes found ≡ writes = cc in
    let (fit, apart) =
      plan_entries-Planned convert clock snapshot unique 0 entries [] found planned (tt, tt) in
    subst (Planned snapshot) same
      (All-sort_writes (Fits snapshot) found fit, sort_writes-AllApart found apart)
