-- ===== src/Refresh/Plan/Planned.antt =====
-- A plan that is made fits the snapshot: no write can break a unique constraint.
use mathlib.Core.Path.{subst}
use daily_firehose.Common.{
  ℕ, ◌+◌, ◌≡◌, ◌≢◌, refl, sym, ◌∙◌, Bool, true, false, Option, none, some, List, [], ◌∷◌, any,
  arith, All, Bool-cases, Option-cases, inl, inr, ◌⊎◌, ◌==◌, str_eq, eq_iff, String, All-weaken,
  All-both, Result, ok, err, ◌>>=◌, >>=-eq-ok, truthy, or_else, ◌||◌,
}
use daily_firehose.Refresh.Feed.{Article}
use daily_firehose.Refresh.Fence.{RefreshError}
use daily_firehose.Refresh.Entry.{Entry, TimeValue, entry_article_url}
use daily_firehose.Refresh.Plan.{
  ArticleWrite, last_match, by_guid, by_url, match_article, reserves_article, is_reserved, reserved,
  reserve, article_write, plan_entry, plan_entries,
}
use daily_firehose.Refresh.Plan.Lookup.{
  Separate, UniqueRows, str_eq-false, str_ne, last_match-others, last_match-none,
  last_match-present,
}

-- The row is the one that the write is for.
abbrev pub is_own : Option Article → Article → Bool
is_own none r = false
is_own (some a) r = r.id == a.id

-- The row does not stand in the way of the write.
abbrev pub Free : ArticleWrite → Article → Type 0
Free w r = (is_own w.article r ≡ true) ⊎ ((r.guid ≢ w.guid) × (r.url ≢ w.url))

-- The row that the write is for is there.
abbrev pub IsThere : Option Article → List Article → Type 0
IsThere none rows = Unit
IsThere (some a) rows = any (λ r. r.id == a.id) rows ≡ true

abbrev pub Fits : List Article → ArticleWrite → Type 0
Fits rows w = All (Free w) rows × IsThere w.article rows

-- Two writes that share no guid, no URL and no article.
abbrev pub OtherArticle : Option Article → Option Article → Type 0
OtherArticle none b = Unit
OtherArticle (some a) none = Unit
OtherArticle (some a) (some b) = a.id ≢ b.id

pub record Apart (v w : ArticleWrite) : Type 0 where
  pub guids : v.guid ≢ w.guid
  pub urls : v.url ≢ w.url
  pub articles : OtherArticle v.article w.article

abbrev pub AllApart : List ArticleWrite → Type 0
AllApart [] = Unit
AllApart (w ∷ rest) = All (Apart w) rest × AllApart rest

guid_free :
    (g : String) (x y : Article) → Separate x y → str_eq y.guid g ≡ true → str_eq x.guid g ≡ false
guid_free g x y s h = str_ne x.guid g (λ e. s.guids (e ∙ sym ((eq_iff y.guid g).0 h)))

url_free :
    (u : String) (x y : Article) → Separate x y → str_eq y.url u ≡ true → str_eq x.url u ≡ false
url_free u x y s h = str_ne x.url u (λ e. s.urls (e ∙ sym ((eq_iff y.url u).0 h)))

-- what the lookup by guid and the lookup by URL leave of the other rows
abbrev Other : Option Article → (Article → Bool) → Article → Type 0
Other found fits r = (is_own found r ≡ true) ⊎ (fits r ≡ false)

module _ (snapshot : List Article) (unique : UniqueRows snapshot) where
  lookup-others :
      (fits : Article → Bool)
      → ((x y : Article) → Separate x y → fits y ≡ true → fits x ≡ false)
      → All (Other (last_match fits snapshot) fits) snapshot
  lookup-others fits apart = elim (Option-cases (last_match fits snapshot)) [
    | inl q ↦ rw q (
        All-weaken (λ r. fits r ≡ false) (Other none fits) snapshot (λ r p. inr p)
          (last_match-none fits snapshot q))
    | inr (a, q) ↦ rw q (last_match-others fits apart snapshot a unique q)
  ]

  lookup-IsThere : (fits : Article → Bool) → IsThere (last_match fits snapshot) snapshot
  lookup-IsThere fits = elim (Option-cases (last_match fits snapshot)) [
    | inl q ↦ rw q tt
    | inr (a, q) ↦ rw q (last_match-present fits snapshot a q)
  ]

match_own :
    (g u article : Option Article) (r : Article)
    → match_article g u ≡ ok article
    → (is_own g r ≡ true) ⊎ (is_own u r ≡ true)
    → is_own article r ≡ true
unfolding match_article
match_own none u article r e h = ground arith
match_own (some a) none article r e h = ground arith
match_own (some a) (some b) article r e h = ground arith

match-IsThere :
    (rows : List Article) (g u article : Option Article)
    → match_article g u ≡ ok article
    → IsThere g rows
    → IsThere u rows
    → IsThere article rows
unfolding match_article
match-IsThere rows none u article e h k =
    let same : u ≡ article = ground arith in subst (λ o. IsThere o rows) same k
match-IsThere rows (some a) none article e h k =
    let same : some a ≡ article = ground arith in subst (λ o. IsThere o rows) same h
match-IsThere rows (some a) (some b) article e h k =
    let same : some a ≡ article = ground arith in subst (λ o. IsThere o rows) same h

match-Free :
    (guid url : String) (g u article : Option Article) (r : Article)
    → match_article g u ≡ ok article
    → Other g (λ a. str_eq a.guid guid) r
    → Other u (λ a. str_eq a.url url) r
    → (is_own article r ≡ true) ⊎ ((r.guid ≢ guid) × (r.url ≢ url))
match-Free guid url g u article r e (inl p) k = inl (match_own g u article r e (inl p))
match-Free guid url g u article r e (inr p) (inl q) = inl (match_own g u article r e (inr q))
match-Free guid url g u article r e (inr p) (inr q) =
    inr (str_eq-false r.guid guid p, str_eq-false r.url url q)

or_false : (a b : Bool) → (a || b) ≡ false → (a ≡ false) × (b ≡ false)
or_false a b h = ground arith

unreserved_other :
    (a : Article) (o : Option Article)
    → elim o [ none ↦ false | some b ↦ b.id == a.id ] ≡ false
    → OtherArticle (some a) o
unreserved_other a none h = tt
unreserved_other a (some b) h = λ e. ground arith

not_reserved_article :
    (article : Option Article) (v : ArticleWrite) (writes : List ArticleWrite)
    → is_reserved article (v ∷ writes) ≡ false
    → OtherArticle article v.article × (is_reserved article writes ≡ false)
not_reserved_article none v writes h = (tt, h)
not_reserved_article (some a) v writes h =
    let (own, rest) = or_false (reserves_article a v) (any (reserves_article a) writes) h in
    (unreserved_other a v.article own, rest)

reserved-Apart :
    (w : ArticleWrite) (writes : List ArticleWrite)
    → reserved w.guid w.url w.article writes ≡ false
    → All (Apart w) writes
unfolding reserved
reserved-Apart w [] h = tt
reserved-Apart w (v ∷ rest) h =
    let (texts, articles) =
      or_false (any (λ v. str_eq v.guid w.guid || str_eq v.url w.url) (v ∷ rest))
        (is_reserved w.article (v ∷ rest)) h in
    let (own, others) =
      or_false (str_eq v.guid w.guid || str_eq v.url w.url)
        (any (λ v. str_eq v.guid w.guid || str_eq v.url w.url) rest) texts in
    let (guids, urls) = or_false (str_eq v.guid w.guid) (str_eq v.url w.url) own in
    let (other, more) = not_reserved_article w.article v rest articles in
    (
      record {
        guids = λ e. str_eq-false v.guid w.guid guids (sym e);
        urls = λ e. str_eq-false v.url w.url urls (sym e);
        articles = other;
      },
      reserved-Apart w rest (rw (others, more)),
    )

-- The invariant of the loop: the writes made so far fit the snapshot and stand apart.
abbrev pub Planned : List Article → List ArticleWrite → Type 0
Planned snapshot writes = All (Fits snapshot) writes × AllApart writes

module _ (convert : TimeValue → Option ℕ) (clock : ℕ → ℕ) (snapshot : List Article)
    (unique : UniqueRows snapshot) where
  -- one more write
  reserve-Planned :
      (w : ArticleWrite) (writes result : List ArticleWrite)
      → match_article (by_guid w.guid snapshot) (by_url w.url snapshot) ≡ ok w.article
      → reserve w writes ≡ ok result
      → Planned snapshot writes
      → Planned snapshot result
  reserve-Planned w writes result matched e (fit, apart) =
      elim (Bool-cases (reserved w.guid w.url w.article writes)) [
        | inl q ↦ cc (rw q at e)
        | inr q ↦
            let same : (w ∷ writes) ≡ result = cc (rw q at e) in
            subst (Planned snapshot) same (
              (
                (
                  All-both (Other (by_guid w.guid snapshot) (λ a. str_eq a.guid w.guid))
                      (Other (by_url w.url snapshot) (λ a. str_eq a.url w.url)) (Free w) snapshot
                      (λ r.
                        match-Free w.guid w.url (by_guid w.guid snapshot) (by_url w.url snapshot)
                          w.article r matched)
                      (lookup-others snapshot unique (λ a. str_eq a.guid w.guid) (guid_free w.guid))
                      (lookup-others snapshot unique (λ a. str_eq a.url w.url) (url_free w.url)),
                  match-IsThere snapshot (by_guid w.guid snapshot) (by_url w.url snapshot) w.article
                      matched (lookup-IsThere snapshot unique (λ a. str_eq a.guid w.guid))
                      (lookup-IsThere snapshot unique (λ a. str_eq a.url w.url)),
                ),
                fit,
              ),
              (reserved-Apart w writes q, apart),
            )
      ]

  plan_entry-Planned :
      (position : ℕ) (entry : Entry) (writes result : List ArticleWrite)
      → plan_entry convert clock snapshot position entry writes ≡ ok result
      → Planned snapshot writes
      → Planned snapshot result
  unfolding plan_entry
  plan_entry-Planned position entry writes result e h = elim (Bool-cases (truthy url)) [
    | inl q ↦ made (match_article (by_guid guid snapshot) (by_url url snapshot)) refl (rw q at e)
    | inr q ↦ let same : writes ≡ result = cc (rw q at e) in subst (Planned snapshot) same h
  ]
    where
      url : String
      url = entry_article_url entry

      guid : String
      guid = or_else entry.id url

      write : Option Article → ArticleWrite
      write = article_write convert (clock position) position entry guid url

      made :
          (m : Result RefreshError (Option Article))
          → match_article (by_guid guid snapshot) (by_url url snapshot) ≡ m
          → (m >>= λ article. reserve (write article) writes) ≡ ok result
          → Planned snapshot result
      made (ok article) matched k = reserve-Planned (write article) writes result matched k h
      made (err x) matched k = cc

  pub plan_entries-Planned :
      (position : ℕ) (entries : List Entry) (writes result : List ArticleWrite)
      → plan_entries convert clock snapshot position entries writes ≡ ok result
      → Planned snapshot writes
      → Planned snapshot result
  unfolding plan_entries
  plan_entries-Planned position [] writes result e h =
      let same : writes ≡ result = cc in subst (Planned snapshot) same h
  plan_entries-Planned position (entry ∷ rest) writes result e h =
      let (next, planned, more) =
        >>=-eq-ok (plan_entry convert clock snapshot position entry writes)
          (plan_entries convert clock snapshot (position + 1) rest) e in
      plan_entries-Planned (position + 1) rest next result more
        (plan_entry-Planned position entry writes next planned h)
