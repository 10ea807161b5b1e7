-- ===== src/Opml/Import/Rows.antt =====
-- What one `update_or_create` of `import_opml` (`feeds/services.py`) does to the subscriptions.
use mathlib.Core.Path.{subst}
use daily_firehose.Common.{
  ℕ, ◌≡◌, refl, sym, ap, String, Bool, true, false, Option, none, some, List, [], ◌∷◌, map, str_eq,
  eq_iff, is_none, if◌then◌else◌, Bool-cases, Option-cases, other_text, inl, inr, arith,
}
use daily_firehose.Refresh.Feed.{Feed}
use daily_firehose.Opml.{OpmlFeed}
use daily_firehose.Opml.Import.{FeedTable, find_feed, with_defaults, update_or_create}

-- What a reader sees of a feed.
pub record Subscription : Type 0 where
  pub title : String
  pub site_url : String
  pub category : Option ℕ
  pub is_active : Bool

abbrev pub subscription_of : Option Feed → Option Subscription
subscription_of none = none
subscription_of (some f) = some (record {
  title = f.title;
  site_url = f.site_url;
  category = f.category;
  is_active = f.is_active;
})

-- The abstract table: a map from URLs to subscriptions.
abbrev pub subscriptions : FeedTable → String → Option Subscription
subscriptions table url = subscription_of (find_feed url table.feeds)

-- The subscription that a plan's feed asks for.
abbrev pub wanted : Option ℕ → OpmlFeed → Subscription
wanted category p = record {
  title = p.title;
  site_url = p.site_url;
  category = category;
  is_active = true;
}

module _ (now : ℕ) (category : Option ℕ) (p : OpmlFeed) where
  with_defaults-feed_url : (f : Feed) → (with_defaults now category p f).feed_url ≡ f.feed_url
  with_defaults-feed_url f = elim (Bool-cases (str_eq f.feed_url p.feed_url)) [
    | inl q ↦ rw q refl
    | inr q ↦ rw q refl
  ]

  other_rows :
      (url : String) (rows : List Feed)
      → str_eq p.feed_url url ≡ false
      → find_feed url (map (with_defaults now category p) rows) ≡ find_feed url rows
  unfolding find_feed
  other_rows url [] other = refl
  other_rows url (f ∷ rest) other =
      rw (with_defaults-feed_url f) (elim (Bool-cases (str_eq f.feed_url url)) [
        | inl q ↦
            let same = (eq_iff f.feed_url url).0 q in
            let not_own : str_eq f.feed_url p.feed_url ≡ false =
              subst (λ u. str_eq u p.feed_url ≡ false) (sym same)
                (other_text p.feed_url url other) in
            rw (q, not_own) refl
        | inr q ↦ rw q (other_rows url rest other)
      ])

  own_row :
      (rows : List Feed) (f : Feed)
      → find_feed p.feed_url rows ≡ some f
      → subscription_of (find_feed p.feed_url (map (with_defaults now category p) rows))
        ≡ some (wanted category p)
  unfolding find_feed
  own_row [] f h = cc
  own_row (g ∷ rest) f h =
      rw (with_defaults-feed_url g) (elim (Bool-cases (str_eq g.feed_url p.feed_url)) [
        | inl q ↦ rw q refl
        | inr q ↦ rw q (own_row rest f (ground (arith, h, q)))
      ])

  -- The row of the URL holds what the plan asks for, and the other URLs' rows are as they were; the
  -- row was created if there was none.
  pub update_or_create-subscriptions :
      (table : FeedTable) (url : String)
      → subscriptions (update_or_create now category p table).1 url
        ≡ (if str_eq p.feed_url url then some (wanted category p) else subscriptions table url)
  unfolding update_or_create find_feed
  update_or_create-subscriptions table url =
      elim (Option-cases (find_feed p.feed_url table.feeds)) [
        | inl q ↦
            rw q
              (elim (Bool-cases (str_eq p.feed_url url)) [ inl k ↦ rw k refl | inr k ↦ rw k refl ])
        | inr (f, q) ↦ rw q (elim (Bool-cases (str_eq p.feed_url url)) [
          | inl k ↦ rw k (
              subst
                (λ u.
                  subscription_of (find_feed u (map (with_defaults now category p) table.feeds))
                  ≡ some (wanted category p))
                ((eq_iff p.feed_url url).0 k) (own_row table.feeds f q))
          | inr k ↦ rw k (ap subscription_of (other_rows url table.feeds k))
        ])
      ]

  pub update_or_create-created :
      (table : FeedTable)
      → (update_or_create now category p table).0 ≡ is_none (subscriptions table p.feed_url)
  unfolding update_or_create
  update_or_create-created table = elim (Option-cases (find_feed p.feed_url table.feeds)) [
    | inl q ↦ rw q refl
    | inr (f, q) ↦ rw q refl
  ]
