-- ===== src/Opml/Plan.antt =====
-- The plan that `_parse_opml` of `feeds/services.py` makes of a document, by the document's feed
-- outlines.
use mathlib.Core.Path.{subst}
use daily_firehose.Common.{
  ℕ, ◌+◌, ◌≤◌, ◌≡◌, refl, String, false, ◌||◌, Option, none, some, List, [], ◌∷◌, length, ltb, ◌==◌,
  str_eq, All, Bool-cases, if_true, if_false, inl, inr, arith, ok, >>=-eq-ok,
}
use daily_firehose.Opml.{
  Element, element, Elements, OpmlFeed, Env, Walk, find_url, opml_max_outlines, opml_max_bytes,
  xml_local_name, visit_children, bodies, visit_body, parse_root, parse_source, parse_opml,
}
use daily_firehose.Opml.Visit.{leaves, outline_total, described, visit_children-Visited}
use daily_firehose.Opml.Merge.{UniqueUrls}

module _ (env : Env) where
  -- `feeds` and `skipped` are the plan of a document with one body.
  pub record IsPlanOf (feeds : List OpmlFeed) (skipped : ℕ) (body : Elements) : Type 0 where
    -- every feed outline of the body describes a feed
    pub found : List OpmlFeed
    pub all_described : described env (leaves env body "") ≡ ok found
    -- the plan is the map of these feeds by their URLs, and feeds with one URL are the same
    pub lookup : (url : String) → find_url url feeds ≡ find_url url found
    pub agree : All (λ p. find_url p.feed_url feeds ≡ some p) found
    pub unique : UniqueUrls feeds
    -- and the rest of them are counted as skipped
    pub counted : length feeds + skipped ≡ length found
    -- the outlines are at most 1000, the categories among them included
    pub few : outline_total body ≤ opml_max_outlines

  visited_body :
      (body : Elements) (walk : Walk)
      → visit_children env body "" 1 (record { feeds = []; duplicate_count = 0; outline_count = 0 })
        ≡ ok walk
      → IsPlanOf walk.feeds walk.duplicate_count body
  unfolding find_url
  visited_body body walk h =
      let start : Walk = record { feeds = []; duplicate_count = 0; outline_count = 0 } in
      let v = visit_children-Visited env body "" 1 start walk h in
      record {
        found = v.found;
        all_described = v.all_described;
        lookup = λ url. v.merged.lookup url;
        agree = v.merged.agree;
        unique = v.merged.unique tt;
        counted = omega (arith, v.merged.counted);
        few = omega (arith, v.numbered, v.within (omega arith));
      }

  visit_body-IsPlanOf :
      (found : List Elements) (walk : Walk)
      → visit_body env found ≡ ok walk
      → (body : Elements) × (found ≡ body ∷ []) × IsPlanOf walk.feeds walk.duplicate_count body
  visit_body-IsPlanOf [] walk h = cc
  visit_body-IsPlanOf (body ∷ []) walk h = (body, refl, visited_body body walk h)
  visit_body-IsPlanOf (body ∷ other ∷ rest) walk h = cc

  -- The document that some bytes are.
  pub record IsDocument (content : List ℕ) (children : Elements) : Type 0 where
    pub source : String
    pub decoded : env.decode content ≡ some source
    pub plain : env.has_declaration source ≡ false
    pub tag : String
    pub attrs : List (String × String)
    pub parsed : env.from_string source ≡ some (element tag attrs children)

  parsed_root :
      (content : List ℕ) (source : String) (o : Option Element) (walk : Walk)
      → env.decode content ≡ some source
      → env.has_declaration source ≡ false
      → env.from_string source ≡ o
      → parse_root env o ≡ ok walk
      → (children body : Elements) × IsDocument content children
        × (bodies env children ≡ body ∷ [])
        × IsPlanOf walk.feeds walk.duplicate_count body
  parsed_root content source none walk d k f h = cc
  parsed_root content source (some (element tag attrs children)) walk d k f h =
      elim (Bool-cases (str_eq (xml_local_name env tag) "opml")) [
        | inr q ↦ let e = if_false _ q h in cc
        | inl q ↦
            let (body, one, plan) =
              visit_body-IsPlanOf (bodies env children) walk (if_true _ q h) in
            (
              children,
              body,
              record {
                source = source;
                decoded = d;
                plain = k;
                tag = tag;
                attrs = attrs;
                parsed = f;
              },
              one,
              plan,
            )
      ]

  parsed_source :
      (content : List ℕ) (o : Option String) (walk : Walk)
      → env.decode content ≡ o
      → parse_source env o ≡ ok walk
      → (children body : Elements) × IsDocument content children
        × (bodies env children ≡ body ∷ [])
        × IsPlanOf walk.feeds walk.duplicate_count body
  parsed_source content none walk d h = cc
  parsed_source content (some source) walk d h = elim (Bool-cases (env.has_declaration source)) [
    | inl q ↦ let e = if_true _ q h in cc
    | inr q ↦ parsed_root content source (env.from_string source) walk d q refl (if_false _ q h)
  ]

  -- If `parse_opml` accepts a document, the document has one body, each of its feed outlines, at any
  -- depth, describes a valid feed, and outlines with one URL describe the same feed. The plan is the
  -- map of these feeds by URL, with no URL twice, and the skipped outlines are the others. There are
  -- at most 1000 outlines, the categories included.
  pub parse_opml-IsPlanOf :
      (content : List ℕ) (feeds : List OpmlFeed) (skipped : ℕ)
      → parse_opml env content ≡ ok (feeds, skipped)
      → (children body : Elements) × IsDocument content children
        × (bodies env children ≡ body ∷ [])
        × IsPlanOf feeds skipped body
  unfolding parse_opml
  parse_opml-IsPlanOf content feeds skipped h =
      elim (Bool-cases ((length content == 0) || ltb opml_max_bytes (length content))) [
        | inl q ↦ let e = if_true _ q h in cc
        | inr q ↦
            let (walk, p, e) =
              >>=-eq-ok (parse_source env (env.decode content)) _ (if_false _ q h) in
            let made : List OpmlFeed × ℕ = (walk.feeds, walk.duplicate_count) in
            let asked : List OpmlFeed × ℕ = (feeds, skipped) in
            let same : made ≡ asked = cc in
            subst
              (λ r.
                (children body : Elements) × IsDocument content children
                × (bodies env children ≡ body ∷ [])
                × IsPlanOf r.0 r.1 body)
              same (parsed_source content (env.decode content) walk refl p)
      ]
