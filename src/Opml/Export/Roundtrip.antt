-- ===== src/Opml/Export/Roundtrip.antt =====
-- An export read back: `export_opml` and `_parse_opml` of `feeds/services.py`.
use daily_firehose.Common.{
  ℕ, ◌+◌, ◌≤◌, ◌<◌, ◌≡◌, refl, ap, ◌∙◌, String, Bool, false, not, ◌||◌, none, some, List, [], ◌∷◌,
  length, ◌==◌, ltb, str_eq, if_then, if_else, All, All-sort_by, All-unsorted, length-sort_by,
  filter, sort_by, arith, ok,
}
use daily_firehose.Refresh.Feed.{Feed}
use daily_firehose.Opml.{
  Element, OpmlFeed, Env, Walk, find_url, opml_max_bytes, opml_max_outlines, bodies, parse_root,
  parse_source, parse_opml,
}
use daily_firehose.Opml.Merge.{UniqueUrls}
use daily_firehose.Opml.Export.{Catalog, export_order, exported, export_opml}
use daily_firehose.Opml.Export.Read.{ReadsWords}
use daily_firehose.Opml.Export.Nodes.{contents, outlines, IsReadable, nodes-read}
use daily_firehose.Opml.Export.Listed.{
  Distinct, Distinct-filter, Distinct-sort_by, IsListed, as_read, place_all-HasAll,
  place_all-Readable, HasAll,
}

-- The bytes of a document, as the XML library writes and reads them.
pub record IsWritten (env : Env) (root : Element) (content : List ℕ) : Type 0 where
  pub source : String
  pub decoded : env.decode content ≡ some source
  pub plain : env.has_declaration source ≡ false
  pub parsed : env.from_string source ≡ some root
  pub some_bytes : 0 < length content
  pub bounded : length content ≤ opml_max_bytes

all_absent : (feeds : List Feed) → All (λ f. find_url f.feed_url [] ≡ none) feeds
unfolding find_url
all_absent [] = tt
all_absent (f ∷ rest) = (refl, all_absent rest)

module _ (env : Env) (words : ReadsWords env) (catalog : Catalog) where
  abbrev is_active : Feed → Bool
  is_active f = f.is_active

  abbrev order : Feed → Feed → Bool
  order f g = not (export_order catalog g f)

  exported-HasAll :
      (feeds : List Feed)
      → Distinct feeds
      → HasAll env words catalog
          (sort_by order (filter is_active feeds))
          []
          (contents env words catalog (exported catalog feeds))
  unfolding exported
  exported-HasAll feeds distinct =
      place_all-HasAll env words catalog (sort_by order (filter is_active feeds)) []
        (Distinct-sort_by order (filter is_active feeds) (Distinct-filter is_active feeds distinct))
        (all_absent (sort_by order (filter is_active feeds))) tt

  exported-Readable :
      (feeds : List Feed)
      → All (IsListed env words catalog) (filter is_active feeds)
      → All (IsReadable env words catalog) (exported catalog feeds)
  unfolding exported
  exported-Readable feeds listed =
      place_all-Readable env words catalog (sort_by order (filter is_active feeds)) []
        (All-sort_by (IsListed env words catalog) order (filter is_active feeds) listed) tt

  abbrev plan_of : List Feed → Walk
  plan_of feeds = record {
    feeds = contents env words catalog (exported catalog feeds);
    duplicate_count = 0;
    outline_count = 0 + outlines env words catalog (exported catalog feeds);
  }

  body-read :
      (feeds : List Feed)
      → Distinct feeds
      → All (IsListed env words catalog) (filter is_active feeds)
      → outlines env words catalog (exported catalog feeds) ≤ opml_max_outlines
      → parse_root env (some (export_opml catalog feeds)) ≡ ok (plan_of feeds)
  unfolding export_opml bodies
  body-read feeds distinct listed few =
      if_then _ (ap (λ t. str_eq t "opml") words.opml)
      ∙ rw (words.head, words.body)
          (nodes-read env words catalog (exported catalog feeds) start
            (exported-Readable feeds listed) (exported-HasAll feeds distinct).unique
            (omega (arith, few)))
    where
      start : Walk
      start = record { feeds = []; duplicate_count = 0; outline_count = 0 }

  -- The plan of a document: each of the feeds under its URL, and no other.
  pub record IsExport (feeds : List Feed) (plan : List OpmlFeed) : Type 0 where
    pub holds : All (λ f. find_url f.feed_url plan ≡ some (as_read env words catalog f)) feeds
    pub unique : UniqueUrls plan
    pub counted : length plan ≡ length feeds

  -- What is exported is read back: if the feeds have distinct URLs, and an import accepts the fields
  -- of the active ones and the names of their categories, and there are at most 1000 outlines, and
  -- the document that is written has at most 1 MiB, and the XML library reads what it wrote, then
  -- the exported document is accepted, with nothing skipped, and its plan has each active feed under
  -- its URL with its title, site and category's name, and no other feed.
  pub parse_opml-export_opml :
      (feeds : List Feed) (content : List ℕ)
      → IsWritten env (export_opml catalog feeds) content
      → Distinct feeds
      → All (IsListed env words catalog) (filter is_active feeds)
      → outlines env words catalog (exported catalog feeds) ≤ opml_max_outlines
      → (plan : List OpmlFeed) × (parse_opml env content ≡ ok (plan, 0))
        × IsExport (filter is_active feeds) plan
  unfolding parse_opml
  parse_opml-export_opml feeds content written distinct listed few =
      let plan = contents env words catalog (exported catalog feeds) in
      let all = exported-HasAll feeds distinct in
      let read : parse_source env (env.decode content) ≡ ok (plan_of feeds) =
        ap (parse_source env) written.decoded
        ∙ if_else _ written.plain
        ∙ ap (parse_root env) written.parsed
        ∙ body-read feeds distinct listed few in
      let size : ((length content == 0) || ltb opml_max_bytes (length content)) ≡ false =
        ground (arith, written.some_bytes, written.bounded) in
      (
        plan,
        if_else _ size ∙ rw read refl,
        record {
          holds =
              All-unsorted (λ f. find_url f.feed_url plan ≡ some (as_read env words catalog f))
                order (filter is_active feeds) all.holds;
          unique = all.unique;
          counted = omega (arith, all.counted, length-sort_by order (filter is_active feeds));
        },
      )
