-- ===== src/Reading/Command/Effect.antt =====
-- What a command makes read.
use daily_firehose.Common.{
  ℕ, ◌≤◌, ◌<◌, ◌≡◌, ◌≢◌, refl, ◌∙◌, Bool, true, false, ◌&&◌, none, some, List, [], ◌∷◌, any, ◌==◌,
  ==-self, ne→==_false, le→ltb_false, if◌then◌else◌, All, All-weaken, Bool-cases, inl, inr, arith,
  ok,
}
use daily_firehose.Delivery.Save.{update_or_create}
use daily_firehose.Refresh.Feed.{Article}
use daily_firehose.Reading.Row.{
  ReadScope, ArticleReadState, BulkReadMarker, ReadStore, is_feed_scope, clean,
}
use daily_firehose.Reading.Query.{covers}
use daily_firehose.Reading.Query.Resolve.{is_state_of, state_of, is_read_by}
use daily_firehose.Reading.Command.{
  articles_between, set_state, mark_articles_read, mark_article_read, same_marker, record_marker,
  Times, commit_marker, period_marker, fetched_by, mark_period_read,
}

abbrev updated : ℕ → Bool → ArticleReadState → ArticleReadState
updated now is_read s = record s { is_read = is_read; updated_at = now }

-- Setting the state of one article changes what is found for it and its reader only.
state_of-set_state :
    (user now : ℕ) (is_read : Bool) (a : Article) (states : List ArticleReadState) (reader : ℕ)
    (x : Article)
    → state_of reader x (set_state user now is_read a states)
      ≡ (if (user == reader) && (a.id == x.id) then some is_read else state_of reader x states)
unfolding set_state update_or_create
state_of-set_state user now is_read a [] reader x = ground arith
state_of-set_state user now is_read a (s ∷ rest) reader x =
    let later = state_of-set_state user now is_read a rest reader x in
    elim (Bool-cases (is_state_of user a s)) [
      | inl q ↦ ground (arith, q)
      | inr q ↦
          rw (state_of, set_state, q)
            (elim (Bool-cases (is_state_of reader x s)) [
              | inl k ↦ rw k (ground (arith, q, k))
              | inr k ↦ rw k later
            ])
    ]

abbrev holds_id : Article → Article → Bool
holds_id x a = a.id == x.id

state_of-mark_articles_read :
    (user now : ℕ) (articles : List Article) (states : List ArticleReadState) (reader : ℕ)
    (x : Article)
    → state_of reader x (mark_articles_read user now articles states) ≡ (
        if (user == reader) && any (holds_id x) articles
        then some true
        else state_of reader x states)
unfolding mark_articles_read
state_of-mark_articles_read user now [] states reader x = ground arith
state_of-mark_articles_read user now (a ∷ rest) states reader x = ground (
  arith,
  state_of-mark_articles_read user now rest (set_state user now true a states) reader x,
  state_of-set_state user now true a states reader x,
)

All-holds_id : (articles : List Article) → All (λ x. any (holds_id x) articles ≡ true) articles
All-holds_id [] = tt
All-holds_id (a ∷ rest) = (
  ground arith,
  All-weaken _ (λ x. any (holds_id x) (a ∷ rest) ≡ true) rest (λ x h. ground (arith, h))
      (All-holds_id rest),
)

any-update_or_create {ℓ} :
    {A : Type ℓ} (test fits : A → Bool) (update : A → A) (new : A) (rows : List A)
    → ((x : A) → fits x ≡ true → test (update x) ≡ test x)
    → test new ≡ false
    → any test (update_or_create fits update new rows).0 ≡ any test rows
unfolding update_or_create
any-update_or_create test fits update new [] keeps idle = ground (arith, idle)
any-update_or_create test fits update new (x ∷ rest) keeps idle = elim (Bool-cases (fits x)) [
  | inl q ↦ rw (q, keeps x q) refl
  | inr q ↦ rw (q, any-update_or_create test fits update new rest keeps idle) refl
]

-- For another reader a bulk mark changes nothing.
commit_marker-other :
    (local_date : ℕ → ℕ) (times : Times) (m : BulkReadMarker) (articles : List Article)
    (store : ReadStore) (reader : ℕ) (x : Article)
    → m.user ≢ reader
    → is_read_by local_date reader (commit_marker times m articles store) x
      ≡ is_read_by local_date reader store x
unfolding commit_marker record_marker covers
commit_marker-other local_date times m articles store reader x other =
    let test : BulkReadMarker → Bool = λ n. (n.user == reader) && covers local_date x n in
    let apart = ne→==_false m.user reader other in
    let unmarked =
      any-update_or_create test (same_marker m)
        (λ n. record n { marked_read_at = m.marked_read_at })
        (record m { marked_read_at = times.inserted_at }) store.markers
        (λ n h. ground (arith, h, apart)) (ground (arith, apart)) in
    let unset =
      state_of-mark_articles_read m.user times.updated_at articles store.read_states reader x in
    rw (unset, apart, unmarked) refl

commit_marker-reads :
    (local_date : ℕ → ℕ) (times : Times) (m : BulkReadMarker) (articles : List Article)
    (store : ReadStore)
    → All
        (λ x. is_read_by local_date m.user (commit_marker times m articles store) x ≡ true)
        articles
unfolding commit_marker
commit_marker-reads local_date times m articles store =
    All-weaken (λ x. any (holds_id x) articles ≡ true) _ articles
      (λ x held.
        rw
          (
            state_of-mark_articles_read m.user times.updated_at articles store.read_states m.user x,
            ==-self m.user,
            held,
          )
          refl)
      (All-holds_id articles)

-- Marking a day, a week or a month whose dates are in order is never refused. Every article that
-- was fetched on those dates, until the mark, is then read by the reader, also one that the reader
-- had set to unread; for another reader nothing changes.
pub mark_period_read-reads :
    (local_date : ℕ → ℕ) (user start end : ℕ) (times : Times) (scope : ReadScope)
    (store : ReadStore) (reader : ℕ)
    → is_feed_scope scope ≡ false
    → start ≤ end
    → user ≢ reader
    → (after : ReadStore) × (mark_period_read local_date user scope start end times store
        ≡ ok after)
      × All
          (λ x. is_read_by local_date user after x ≡ true)
          (fetched_by times.marked_read_at
            (articles_between local_date start end none store.articles))
      × ((x : Article)
          → is_read_by local_date reader after x ≡ is_read_by local_date reader store x)
unfolding mark_period_read clean
mark_period_read-reads local_date user start end times scope store reader bulk ordered other =
    let m = period_marker user scope start end times.marked_read_at in
    let articles =
      fetched_by times.marked_read_at (articles_between local_date start end none store.articles) in
    (
      commit_marker times m articles store,
      rw (bulk, le→ltb_false end start ordered) refl,
      commit_marker-reads local_date times m articles store,
      λ x. commit_marker-other local_date times m articles store reader x other,
    )

any-created {ℓ} :
    {A : Type ℓ} (test fits : A → Bool) (update : A → A) (new : A) (rows : List A)
    → any fits rows ≡ false
    → test new ≡ true
    → any test (update_or_create fits update new rows).0 ≡ true
unfolding update_or_create
any-created test fits update new [] absent k = ground (arith, k)
any-created test fits update new (x ∷ rest) absent k =
    let here : fits x ≡ false = ground (arith, absent) in
    let further : any fits rest ≡ false = ground (arith, absent) in
    rw here (ground (arith, any-created test fits update new rest further k))

-- A reader marks a period for the first time. An article of the period that is fetched after the
-- time of the mark, but before the marker's row is inserted, is then read, although it has no
-- explicit state and is not among the articles that the mark selected.
pub mark_period_read-late :
    (local_date : ℕ → ℕ) (user start end : ℕ) (times : Times) (scope : ReadScope)
    (store : ReadStore) (x : Article)
    → is_feed_scope scope ≡ false
    → any (same_marker (period_marker user scope start end times.marked_read_at)) store.markers
      ≡ false
    → start ≤ local_date x.fetched_at
    → local_date x.fetched_at ≤ end
    → times.marked_read_at < x.fetched_at
    → x.fetched_at ≤ times.inserted_at
    → state_of user x store.read_states ≡ none
    → any (holds_id x) (
        fetched_by times.marked_read_at (articles_between local_date start end none store.articles))
      ≡ false
    → (after : ReadStore) × (mark_period_read local_date user scope start end times store
        ≡ ok after)
      × (is_read_by local_date user after x ≡ true)
      × (state_of user x after.read_states ≡ none)
unfolding mark_period_read commit_marker record_marker covers clean
mark_period_read-late local_date user start end times scope store x bulk new from to late early
      unset absent =
    let m = period_marker user scope start end times.marked_read_at in
    let articles =
      fetched_by times.marked_read_at (articles_between local_date start end none store.articles) in
    let ordered : start ≤ end = omega arith in
    let inserted = record m { marked_read_at = times.inserted_at } in
    let test : BulkReadMarker → Bool = λ n. (n.user == user) && covers local_date x n in
    let marked =
      any-created test (same_marker m) (λ n. record n { marked_read_at = m.marked_read_at })
        inserted store.markers new (ground (arith, bulk, ==-self user)) in
    let still =
      state_of-mark_articles_read user times.updated_at articles store.read_states user x in
    let unmarked : state_of user x
          (mark_articles_read user times.updated_at articles store.read_states)
        ≡ none =
      still ∙ rw (==-self user, absent, unset) refl in
    (
      commit_marker times m articles store,
      rw (bulk, le→ltb_false end start ordered) refl,
      rw (unmarked, marked) refl,
      unmarked,
    )

-- Setting an article's state is final for its reader, whatever markers cover it, and changes
-- nothing for another reader or another article.
pub mark_article_read-sets :
    (local_date : ℕ → ℕ) (user now : ℕ) (a : Article) (is_read : Bool) (store : ReadStore)
    (reader : ℕ) (x : Article)
    → let after = mark_article_read user now a is_read store in
      is_read_by local_date reader after x ≡ (
        if (user == reader) && (a.id == x.id)
        then is_read
        else is_read_by local_date reader store x)
unfolding mark_article_read
mark_article_read-sets local_date user now a is_read store reader x =
    rw (state_of-set_state user now is_read a store.read_states reader x)
      (elim (Bool-cases ((user == reader) && (a.id == x.id))) [
        | inl q ↦ rw q refl
        | inr q ↦ rw q refl
      ])
