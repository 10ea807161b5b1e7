-- ===== src/Opml/Import/Refines.antt =====
-- `import_opml` of `feeds/services.py` as an operation on a map from URLs to subscriptions.
use daily_firehose.Common.{
  length-sort_by, ℕ, ◌+◌, ◌≡◌, refl, sym, ap, ◌∙◌, String, Bool, true, false, not, Option, none,
  some, List, [], ◌∷◌, str_eq, eq_iff, other_text, is_none, length, count, if◌then◌else◌,
  Bool-cases, inl, inr, arith, Result, ok, err,
}
use mathlib.Core.Path.{subst}
use daily_firehose.Opml.{OpmlFeed, ImportError, Env, find_url, parse_opml}
use daily_firehose.Opml.Merge.{UniqueUrls}
use daily_firehose.Opml.Plan.{parse_opml-IsPlanOf}
use daily_firehose.Opml.Import.{
  FeedTable, ImportResult, update_or_create, ordered_feeds, key_less, counted, import_feeds,
  import_plan, import_opml,
}
use daily_firehose.Opml.Import.Rows.{
  Subscription, subscriptions, wanted, update_or_create-subscriptions, update_or_create-created,
}
use daily_firehose.Opml.Import.Sorted.{
  find_url-absent, find_url-sort_by, UniqueUrls-sort_by, count-sort_by,
}

module _ (categories : String → Option ℕ) where
  abbrev pub chosen : Option OpmlFeed → Option Subscription → Option Subscription
  chosen none kept = kept
  chosen (some p) kept = some (wanted (categories p.category_name) p)

  -- The abstract import: the plan's map of subscriptions laid over the map that there was.
  abbrev pub overlay : List OpmlFeed → (String → Option Subscription) → String → Option Subscription
  overlay plan before url = chosen (find_url url plan) (before url)

  -- the feeds of a plan that the map does not have
  abbrev pub absent : (String → Option Subscription) → List OpmlFeed → ℕ
  absent before plan = count (λ p. is_none (before p.feed_url)) plan

  module _ (now : OpmlFeed → ℕ) where
    abbrev after_one : OpmlFeed → FeedTable → FeedTable
    after_one p table = (update_or_create (now p) (categories p.category_name) p table).1

    after_one-other :
        (p : OpmlFeed) (table : FeedTable) (url : String)
        → str_eq p.feed_url url ≡ false
        → subscriptions (after_one p table) url ≡ subscriptions table url
    after_one-other p table url other =
        update_or_create-subscriptions (now p) (categories p.category_name) p table url
        ∙ rw other refl

    absent-after_one :
        (p : OpmlFeed) (table : FeedTable) (rest : List OpmlFeed)
        → find_url p.feed_url rest ≡ none
        → absent (subscriptions (after_one p table)) rest ≡ absent (subscriptions table) rest
    absent-after_one p table [] fresh = refl
    absent-after_one p table (q ∷ rest) fresh =
        let (apart, later) = find_url-absent p.feed_url q rest fresh in
        rw
          (
            after_one-other p table q.feed_url (other_text q.feed_url p.feed_url apart),
            absent-after_one p table rest later,
          )
          refl

    counted_lem :
        (b : Bool) (r : ImportResult)
        → ((counted b r).created ≡ r.created + (if b then 1 else 0))
          × ((counted b r).created + (counted b r).updated ≡ r.created + r.updated + 1)
          × ((counted b r).skipped ≡ r.skipped)
    counted_lem true r = (refl, omega arith, refl)
    counted_lem false r = (omega arith, omega arith, refl)

    -- The loop lays the plan over the table, one row per feed.
    import_feeds-overlay :
        (plan : List OpmlFeed) (result : ImportResult) (table : FeedTable) (url : String)
        → UniqueUrls plan
        → subscriptions (import_feeds categories now plan result table).1 url
          ≡ overlay plan (subscriptions table) url
    unfolding import_feeds find_url
    import_feeds-overlay [] result table url unique = refl
    import_feeds-overlay (p ∷ rest) result table url (fresh, unique) =
        import_feeds-overlay rest _ (after_one p table) url unique
        ∙ elim (Bool-cases (str_eq p.feed_url url)) [
          | inl k ↦
              let missing : find_url url rest ≡ none =
                subst (λ u. find_url u rest ≡ none) ((eq_iff p.feed_url url).0 k) fresh in
              rw (missing, k)
                (update_or_create-subscriptions (now p) (categories p.category_name) p table url
                  ∙ rw k refl)
          | inr k ↦ rw k (ap (chosen (find_url url rest)) (after_one-other p table url k))
        ]

    import_feeds-created :
        (plan : List OpmlFeed) (result : ImportResult) (table : FeedTable)
        → UniqueUrls plan
        → let after = (import_feeds categories now plan result table).0 in
          (after.created ≡ result.created + absent (subscriptions table) plan)
          × (after.created + after.updated ≡ result.created + result.updated + length plan)
          × (after.skipped ≡ result.skipped)
    unfolding import_feeds
    import_feeds-created [] result table unique = (omega arith, omega arith, refl)
    import_feeds-created (p ∷ rest) result table (fresh, unique) =
        let made = update_or_create (now p) (categories p.category_name) p table in
        let (more, total, kept) = import_feeds-created rest (counted made.0 result) made.1 unique in
        let (one, each, same) = counted_lem made.0 result in
        let number : Bool → ℕ = λ b. if b then 1 else 0 in
        let new =
          ap number (update_or_create-created (now p) (categories p.category_name) p table) in
        (
          omega (arith, more, one, new, absent-after_one p table rest fresh),
          omega (arith, total, each),
          kept ∙ same,
        )

    -- `after` is the plan laid over `table`, and the result counts it.
    pub record LaidOver (plan : List OpmlFeed) (table : FeedTable) (result : ImportResult)
        (after : FeedTable) : Type 0 where
      pub overlaid :
          (url : String) → subscriptions after url ≡ overlay plan (subscriptions table) url
      pub created : result.created ≡ absent (subscriptions table) plan
      pub total : result.created + result.updated ≡ length plan

    import_plan-LaidOver :
        (less : String → String → Bool) (table : FeedTable) (plan : List OpmlFeed)
        (start : ImportResult)
        → UniqueUrls plan
        → (start.created ≡ 0) × (start.updated ≡ 0)
        → let (result, after) = import_feeds categories now (ordered_feeds less plan) start table in
          LaidOver plan table result after × (result.skipped ≡ start.skipped)
    unfolding ordered_feeds
    import_plan-LaidOver less table plan start unique (zero_created, zero_updated) =
        let order = λ (a b : OpmlFeed). not (key_less less b a) in
        let sorted = UniqueUrls-sort_by order plan unique in
        let (more, total, kept) =
          import_feeds-created (ordered_feeds less plan) start table sorted in
        (
          record {
            overlaid = λ url.
                import_feeds-overlay (ordered_feeds less plan) start table url sorted
                ∙ ap (λ o. chosen o (subscriptions table url))
                    (find_url-sort_by order url plan unique);
            created = omega (
              arith,
              more,
              zero_created,
              count-sort_by order (λ p. is_none (subscriptions table p.feed_url)) plan,
            );
            total = omega (arith, total, zero_created, zero_updated, length-sort_by order plan);
          },
          kept,
        )

    -- What an import answers, and the table after it: the error of a document that is refused, with
    -- the table as it was, or the import of the document's plan.
    abbrev pub Refines :
        Env → List ℕ → FeedTable → Result ImportError ImportResult × FeedTable → Type 0
    Refines env content table (err e, after) = (parse_opml env content ≡ err e) × (after ≡ table)
    Refines env content table (ok result, after) =
        (plan : List OpmlFeed) × (parse_opml env content ≡ ok (plan, result.skipped))
        × UniqueUrls plan
        × LaidOver plan table result after

    import_plan-Refines :
        (env : Env) (less : String → String → Bool) (content : List ℕ) (table : FeedTable)
        (parsed : Result ImportError (List OpmlFeed × ℕ))
        → parse_opml env content ≡ parsed
        → Refines env content table (import_plan categories now less table parsed)
    import_plan-Refines env less content table (err e) h = (h, refl)
    import_plan-Refines env less content table (ok (plan, skipped)) h =
        let (children, body, document, one, of) = parse_opml-IsPlanOf env content plan skipped h in
        let start : ImportResult = record { created = 0; updated = 0; skipped = skipped } in
        let (import, kept) = import_plan-LaidOver less table plan start of.unique (refl, refl) in
        (plan, h ∙ ap (λ n. ok (plan, n)) (sym kept), of.unique, import)

    -- Importing a document lays its plan over the map from URLs to subscriptions: the plan's feeds
    -- have the plan's fields and are active, whatever the order of the writes, and no other feed
    -- changes. The result counts as created the feeds that were absent, as updated the others of the
    -- plan, and as skipped the document's duplicates. A document that is refused changes nothing.
    pub import_opml-Refines :
        (env : Env) (less : String → String → Bool) (content : List ℕ) (table : FeedTable)
        → Refines env content table (import_opml categories now env less content table)
    unfolding import_opml
    import_opml-Refines env less content table =
        import_plan-Refines env less content table (parse_opml env content) refl
