-- ===== src/Opml/Export/Read.antt =====
-- Reading back the outlines that `export_opml` (`feeds/services.py`) writes.
use daily_firehose.Common.{
  ℕ, ◌+◌, ◌≤◌, ◌≡◌, refl, sym, ap, ◌∙◌, String, true, none, List, [], ◌∷◌, ◌++◌, map, length,
  eq_iff, truthy, or_else, if_then, Bool-cases, inl, inr, arith, ok, ◌>>=◌,
}
use daily_firehose.Refresh.Feed.{Feed}
use daily_firehose.Opml.{
  element, nil, OpmlFeed, Env, Walk, find_url, add_feed, count_outline, opml_max_outlines,
  opml_attribute, feed_url_of, label_of, validated, web_scheme, web_site, validated_opml_feed,
  visit_children, visit_child,
}
use daily_firehose.Opml.Export.{feed_attributes}

-- The text functions keep the words that the export writes.
pub record ReadsWords (env : Env) : Type 0 where
  pub outline : env.lower (env.last_part "outline") ≡ "outline"
  pub head : env.lower (env.last_part "head") ≡ "head"
  pub body : env.lower (env.last_part "body") ≡ "body"
  pub opml : env.lower (env.last_part "opml") ≡ "opml"
  pub text : env.lower "text" ≡ "text"
  pub title : env.lower "title" ≡ "title"
  pub type : env.lower "type" ≡ "type"
  pub xml_url : env.lower "xmlUrl" ≡ "xmlurl"
  pub html_url : env.lower "htmlUrl" ≡ "htmlurl"
  pub blank : env.strip "" ≡ ""

-- A stored feed whose fields an import accepts.
pub record IsImportable (env : Env) (f : Feed) : Type 0 where
  pub title : truthy f.title ≡ true
  pub feed_url : truthy f.feed_url ≡ true
  pub stripped : env.strip f.feed_url ≡ f.feed_url
  pub site_stripped : env.strip f.site_url ≡ f.site_url
  pub web : web_scheme env "Feed URLs must use HTTP or HTTPS." (env.scheme f.feed_url) ≡ ok tt
  pub site_web : web_site env f.site_url ≡ ok tt
  pub clean : env.clean_feed f.title f.feed_url f.site_url ≡ true

-- What the import reads of a feed under a category's name.
abbrev pub opml_of : String → Feed → OpmlFeed
opml_of name f = record {
  title = f.title;
  feed_url = f.feed_url;
  site_url = f.site_url;
  category_name = name;
}

-- what reading `feeds` under a name adds to the walk
abbrev pub read_into : String → List Feed → Walk → Walk
read_into name feeds walk = record walk {
  feeds = walk.feeds ++ map (opml_of name) feeds;
  outline_count = walk.outline_count + length feeds;
}

module _ (env : Env) (words : ReadsWords env) where
  xmlurl-read : (f : Feed) → opml_attribute env (feed_attributes f) "xmlurl" ≡ f.feed_url
  unfolding opml_attribute feed_attributes
  xmlurl-read f = rw (words.text, words.title, words.type, words.xml_url) refl

  title-read : (f : Feed) → opml_attribute env (feed_attributes f) "title" ≡ f.title
  unfolding opml_attribute feed_attributes
  title-read f = rw (words.text, words.title) refl

  htmlurl-read : (f : Feed) → opml_attribute env (feed_attributes f) "htmlurl" ≡ f.site_url
  unfolding opml_attribute feed_attributes
  htmlurl-read f =
      rw (words.text, words.title, words.type, words.xml_url)
        (elim (Bool-cases (truthy f.site_url)) [
          | inl q ↦ rw (q, words.html_url) refl
          | inr q ↦ rw q (sym ((eq_iff f.site_url "").0 (ground (arith, q))))
        ])

  url-read : (f : Feed) → IsImportable env f → feed_url_of env (feed_attributes f) ≡ f.feed_url
  url-read f h = ap env.strip (xmlurl-read f) ∙ h.stripped

  label-read : (f : Feed) → IsImportable env f → label_of env (feed_attributes f) ≡ f.title
  label-read f h =
      ap (λ l. or_else l (opml_attribute env (feed_attributes f) "text")) (title-read f)
      ∙ if_then _ h.title

  feed-read :
      (name : String) (f : Feed)
      → IsImportable env f
      → validated_opml_feed env (feed_attributes f) name ≡ ok (opml_of name f)
  unfolding validated_opml_feed validated
  feed-read name f h =
      let url = url-read f h in
      let label = label-read f h in
      let title : or_else (label_of env (feed_attributes f)) (feed_url_of env (feed_attributes f))
          ≡ f.title =
        ap (λ l. or_else l (feed_url_of env (feed_attributes f))) label ∙ if_then _ h.title in
      let site = ap env.strip (htmlurl-read f) ∙ h.site_stripped in
      let fields : validated env name f.feed_url f.title f.site_url ≡ ok (opml_of name f) =
        rw (h.web, h.site_web, h.clean) refl in
      (λ i. validated env name (url i) (title i) (site i)) ∙ fields

  add_feed-fresh :
      (p : OpmlFeed) (walk : Walk)
      → find_url p.feed_url walk.feeds ≡ none
      → add_feed p walk ≡ ok (record walk { feeds = walk.feeds ++ p ∷ [] })
  unfolding add_feed
  add_feed-fresh p walk fresh = rw fresh refl

  pub count_outline-within :
      (walk : Walk)
      → walk.outline_count + 1 ≤ opml_max_outlines
      → count_outline walk ≡ ok (record walk { outline_count = walk.outline_count + 1 })
  unfolding count_outline
  count_outline-within walk h = ground (arith, h)

  -- One feed's outline.
  pub outline-read :
      (name : String) (depth : ℕ) (f : Feed) (walk : Walk)
      → IsImportable env f
      → find_url f.feed_url walk.feeds ≡ none
      → walk.outline_count + 1 ≤ opml_max_outlines
      → visit_child env (element "outline" (feed_attributes f) nil) name depth walk
        ≡ ok (read_into name (f ∷ []) walk)
  unfolding visit_children
  outline-read name depth f walk h fresh few =
      let counted : Walk = record walk { outline_count = walk.outline_count + 1 } in
      rw (words.outline, count_outline-within walk few)
        (if_then _ (ap truthy (url-read f h) ∙ h.feed_url)
          ∙ ap (λ r. r >>= λ p. add_feed p counted) (feed-read name f h)
          ∙ add_feed-fresh (opml_of name f) counted fresh)
