-- ===== src/Opml/Import/Again.antt =====
-- A second import of the same document (`import_opml` of `feeds/services.py`).
use mathlib.Core.Path.{subst}
use daily_firehose.Common.{
  ℕ, ◌+◌, ◌≡◌, refl, sym, ap, ◌∙◌, String, Bool, false, Option, none, some, List, [], ◌∷◌, str_eq,
  eq_iff, is_none, length, count, All, All-weaken, Bool-cases, inl, inr, arith, Result, ok, err,
}
use daily_firehose.Opml.{OpmlFeed, ImportError, Env, find_url, parse_opml}
use daily_firehose.Opml.Merge.{UniqueUrls, find_url_self}
use daily_firehose.Opml.Import.{FeedTable, ImportResult, import_opml}
use daily_firehose.Opml.Import.Rows.{Subscription, subscriptions}
use daily_firehose.Opml.Import.Refines.{
  chosen, overlay, absent, Refines, LaidOver, import_opml-Refines,
}

found_later :
    (f p : OpmlFeed) (rest : List OpmlFeed)
    → find_url f.feed_url rest ≡ none
    → find_url p.feed_url rest ≡ some p
    → find_url p.feed_url (f ∷ rest) ≡ some p
unfolding find_url
found_later f p rest fresh h = elim (Bool-cases (str_eq f.feed_url p.feed_url)) [
  | inl q ↦
      let missing : find_url p.feed_url rest ≡ none =
        subst (λ u. find_url u rest ≡ none) ((eq_iff f.feed_url p.feed_url).0 q) fresh in
      cc
  | inr q ↦ rw q h
]

found_in_plan :
    (plan : List OpmlFeed) → UniqueUrls plan → All (λ p. find_url p.feed_url plan ≡ some p) plan
found_in_plan [] unique = tt
found_in_plan (f ∷ rest) (fresh, unique) = (
  find_url_self f rest,
  All-weaken _ _ rest (λ p h. found_later f p rest fresh h) (found_in_plan rest unique),
)

count_none :
    (test : OpmlFeed → Bool) (xs : List OpmlFeed) → All (λ x. test x ≡ false) xs → count test xs ≡ 0
count_none test [] h = refl
count_none test (x ∷ xs) (p, h) = rw p (omega (arith, count_none test xs h))

module _ (categories : String → Option ℕ) (now later_now : OpmlFeed → ℕ) where
  chosen_twice :
      (o : Option OpmlFeed) (m : Option Subscription)
      → chosen categories o (chosen categories o m) ≡ chosen categories o m
  chosen_twice none m = refl
  chosen_twice (some p) m = refl

  -- A second import, of a table that is the plan laid over another.
  pub record IsAgain (after : FeedTable) (total skipped : ℕ)
      (outcome : Result ImportError ImportResult × FeedTable) : Type 0 where
    pub result : ImportResult
    pub answered : outcome.0 ≡ ok result
    pub none_created : result.created ≡ 0
    pub all_updated : result.updated ≡ total
    pub skipped_again : result.skipped ≡ skipped
    pub unchanged : (url : String) → subscriptions outcome.1 url ≡ subscriptions after url

  nothing_absent :
      (plan : List OpmlFeed) (before : String → Option Subscription) (after : FeedTable)
      → UniqueUrls plan
      → ((url : String) → subscriptions after url ≡ overlay categories plan before url)
      → absent categories (subscriptions after) plan ≡ 0
  nothing_absent plan before after unique laid =
      count_none (λ p. is_none (subscriptions after p.feed_url)) plan
        (All-weaken _ _ plan (λ p h. ap is_none (laid p.feed_url) ∙ rw h refl)
          (found_in_plan plan unique))

  second :
      (env : Env) (content : List ℕ) (table after : FeedTable) (result : ImportResult)
      (plan : List OpmlFeed)
      → parse_opml env content ≡ ok (plan, result.skipped)
      → UniqueUrls plan
      → LaidOver categories now plan table result after
      → (outcome : Result ImportError ImportResult × FeedTable)
      → Refines categories later_now env content after outcome
      → IsAgain after (result.created + result.updated) result.skipped outcome
  second env content table after result plan parsed unique first (err e, t) (q, same) = cc
  second env content table after result plan parsed unique first (ok r, t) (other, q, u, import) =
      let made : List OpmlFeed × ℕ = (other, r.skipped) in
      let asked : List OpmlFeed × ℕ = (plan, result.skipped) in
      let same : made ≡ asked = cc in
      let plans : other ≡ plan = ap (λ x. x.0) same in
      let none_new : absent categories (subscriptions after) other ≡ 0 =
        subst (λ l. absent categories (subscriptions after) l ≡ 0) (sym plans)
          (nothing_absent plan (subscriptions table) after unique first.overlaid) in
      let size : length other ≡ length plan = ap length plans in
      record {
        result = r;
        answered = refl;
        none_created = import.created ∙ none_new;
        all_updated = omega (arith, import.total, import.created, none_new, size, first.total);
        skipped_again = ap (λ x. x.1) same;
        unchanged = λ url.
            import.overlaid url
            ∙ ap (λ l. overlay categories l (subscriptions after) url) plans
            ∙ ap (chosen categories (find_url url plan)) (first.overlaid url)
            ∙ chosen_twice (find_url url plan) (subscriptions table url)
            ∙ sym (first.overlaid url);
      }

  -- A document that is imported again, with the same categories, is accepted again: it creates no
  -- feed, counts every feed of its plan as updated and the same duplicates as skipped, and every
  -- subscription stays as the first import left it.
  pub import_opml-again :
      (env : Env) (less : String → String → Bool) (content : List ℕ) (table after : FeedTable)
      (result : ImportResult)
      → import_opml categories now env less content table ≡ (ok result, after)
      → IsAgain after
          (result.created + result.updated)
          result.skipped
          (import_opml categories later_now env less content after)
  import_opml-again env less content table after result h =
      let (plan, parsed, unique, first) =
        subst (Refines categories now env content table) h
          (import_opml-Refines categories now env less content table) in
      second env content table after result plan parsed unique first
        (import_opml categories later_now env less content after)
        (import_opml-Refines categories later_now env less content after)
