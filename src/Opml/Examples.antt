-- ===== src/Opml/Examples.antt =====
-- Witnesses: a document with a category, a feed in it, and the same feed again.
use daily_firehose.Common.{
  Bool, ◌≤◌, truthy, filter, arith, ℕ, ◌≡◌, refl, String, true, false, Option, none, some, List, [],
  ◌∷◌, str_eq, if◌then◌else◌, insert_by, sort_by, ok,
}
use daily_firehose.Opml.{
  Element, element, Elements, nil, cons, OpmlFeed, Env, find_url, add_feed, count_outline,
  opml_attribute, visit_children, validated, validated_opml_feed, category_named, child_category,
  bodies, opml_max_outlines, parse_opml,
}
use daily_firehose.Refresh.Feed.{Feed}
use daily_firehose.Opml.Export.{Catalog, export_opml, exported, place_all, placed_in, export_order}
use daily_firehose.Opml.Export.Read.{ReadsWords, IsImportable}
use daily_firehose.Opml.Export.Nodes.{IsNamed, outlines}
use daily_firehose.Opml.Export.Roundtrip.{IsExport, parse_opml-export_opml}
use daily_firehose.Opml.Plan.{IsPlanOf, IsDocument, parse_opml-IsPlanOf}
use daily_firehose.Opml.Import.{
  FeedTable, ImportResult, find_feed, update_or_create, ordered_feeds, import_feeds, import_opml,
  new_feed,
}
use daily_firehose.Opml.Import.Refines.{Refines, import_opml-Refines}
use daily_firehose.Opml.Import.Again.{IsAgain, import_opml-again}

abbrev feed_outline : Element
feed_outline =
    element "outline" (("text", "Planet") ∷ ("xmlurl", "https://planet.example/feed") ∷ []) nil

abbrev document : Element
document = element "opml" [] (
    cons (element "head" [] nil) (
      cons
        (element "body" [] (
          cons
            (element "outline" (("text", "News") ∷ []) (cons feed_outline (cons feed_outline nil)))
            nil))
        nil))

abbrev env : Env
env = record {
  lower = λ s. s;
  strip = λ s. s;
  last_part = λ s. s;
  scheme = λ s. some "https";
  clean_feed = λ t u s. true;
  clean_category = λ n s. true;
  slugify = λ s. s;
  decode = λ bytes. some "<opml>";
  has_declaration = λ s. false;
  from_string = λ s. some document;
}

abbrev content : List ℕ
content = 60 ∷ 62 ∷ []

abbrev planet : OpmlFeed
planet = record {
  title = "Planet";
  feed_url = "https://planet.example/feed";
  site_url = "";
  category_name = "News";
}

parsed : parse_opml env content ≡ ok (planet ∷ [], 1)
unfolding parse_opml bodies visit_children count_outline opml_attribute validated
    validated_opml_feed category_named child_category add_feed find_url
parsed = refl

parse_opml-IsPlanOf_example :
    (children body : Elements) × IsDocument env content children
    × (bodies env children ≡ body ∷ [])
    × IsPlanOf env (planet ∷ []) 1 body
parse_opml-IsPlanOf_example = parse_opml-IsPlanOf env content (planet ∷ []) 1 parsed

abbrev table : FeedTable
table = record { feeds = []; next_id = 5 }

abbrev category : String → Option ℕ
category name = if str_eq name "News" then some 2 else none

abbrev after : FeedTable
after = record { feeds = new_feed 5 100 (some 2) planet ∷ []; next_id = 6 }

abbrev result : ImportResult
result = record { created = 1; updated = 0; skipped = 1 }

imported : import_opml category (λ p. 100) env (λ a b. false) content table ≡ (ok result, after)
unfolding import_opml insert_by sort_by parse_opml bodies visit_children count_outline
    opml_attribute validated validated_opml_feed category_named child_category add_feed find_url
    import_feeds ordered_feeds update_or_create find_feed
imported = refl

import_opml-Refines_example :
    Refines category
      (λ p. 100)
      env
      content
      table
      (import_opml category (λ p. 100) env (λ a b. false) content table)
import_opml-Refines_example =
    import_opml-Refines category (λ p. 100) env (λ a b. false) content table

import_opml-again_example :
    IsAgain category
      (λ p. 100)
      (λ p. 200)
      after
      1
      1
      (import_opml category (λ p. 200) env (λ a b. false) content after)
import_opml-again_example =
    import_opml-again category (λ p. 100) (λ p. 200) env (λ a b. false) content table after result
      imported

abbrev stored : ℕ → String → String → Option ℕ → Bool → Feed
stored id url title category active = record {
  id = id;
  title = title;
  feed_url = url;
  site_url = "";
  description = "";
  category = category;
  is_active = active;
  last_fetched_at = none;
  last_attempt_at = none;
  last_error_code = "";
  last_error_message = "";
  consecutive_failures = 0;
  next_retry_at = none;
  refresh_generation = 0;
  created_at = 0;
  updated_at = 0;
}

-- two feeds of one category, one without, and one that is not active
abbrev feeds : List Feed
feeds =
    stored 1 "https://a.example" "A" none true
    ∷ stored 2 "https://b.example" "B" (some 7) true
    ∷ stored 3 "https://c.example" "C" (some 7) true
    ∷ stored 4 "https://d.example" "D" none false
    ∷ []

abbrev catalog : Catalog
catalog = record { name = λ id. "News"; slug = λ id. "news"; less = λ a b. false }

abbrev lowered : String → String
lowered s = if str_eq s "xmlUrl" then "xmlurl" else if str_eq s "htmlUrl" then "htmlurl" else s

abbrev reader : Env
reader = record env { lower = lowered; from_string = λ s. some (export_opml catalog feeds) }

reads_words : ReadsWords reader
reads_words = record {
  outline = refl;
  head = refl;
  body = refl;
  opml = refl;
  text = refl;
  title = refl;
  type = refl;
  xml_url = refl;
  html_url = refl;
  blank = refl;
}

importable :
    (f : Feed)
    → (truthy f.title ≡ true) × (truthy f.feed_url ≡ true) × (f.site_url ≡ "")
    → IsImportable reader f
importable f (title, feed_url, site) = record {
  title = title;
  feed_url = feed_url;
  stripped = refl;
  site_stripped = refl;
  web = refl;
  site_web = rw site refl;
  clean = refl;
}

news : IsNamed reader "News"
news = record { some_name = refl; not_blank = refl; clean = refl }

few : outlines reader reads_words catalog (exported catalog feeds) ≤ opml_max_outlines
unfolding exported place_all placed_in insert_by sort_by export_order
few = omega arith

parse_opml-export_opml_example :
    (plan : List OpmlFeed) × (parse_opml reader content ≡ ok (plan, 0))
    × IsExport reader reads_words catalog (filter (λ f. f.is_active) feeds) plan
parse_opml-export_opml_example =
    parse_opml-export_opml reader reads_words catalog feeds content
      (record {
        source = "<opml>";
        decoded = refl;
        plain = refl;
        parsed = refl;
        some_bytes = omega arith;
        bounded = omega arith;
      })
      ((refl, (refl, (refl, tt))), ((refl, (refl, tt)), ((refl, tt), (tt, tt))))
      (
        (importable (stored 1 "https://a.example" "A" none true) (refl, refl, refl), tt),
        (
          (importable (stored 2 "https://b.example" "B" (some 7) true) (refl, refl, refl), news),
          (
            (importable (stored 3 "https://c.example" "C" (some 7) true) (refl, refl, refl), news),
            tt,
          ),
        ),
      )
      few
