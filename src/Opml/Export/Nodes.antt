-- ===== src/Opml/Export/Nodes.antt =====
-- Reading back the whole body that `export_opml` (`feeds/services.py`) writes.
use mathlib.Core.Path.{subst}
use daily_firehose.Common.{
  ℕ, ◌+◌, ◌≤◌, ◌≡◌, refl, sym, ap, ◌∙◌, String, true, Option, none, some, List, [], ◌∷◌, ◌++◌, map,
  length, ++_assoc, ++_nil, other_text, truthy, or_else, if_else, All, arith, ok, ◌>>=◌,
}
use daily_firehose.Refresh.Feed.{Feed}
use daily_firehose.Opml.{
  Elements, OpmlFeed, Env, Walk, find_url, opml_max_outlines, opml_attribute, feed_url_of, label_of,
  child_category, visit_children, visit_child, category_named, has_children, within_depth,
}
use daily_firehose.Opml.Merge.{UniqueUrls, find_url-++, first_some}
use daily_firehose.Opml.Import.Sorted.{find_url-absent, find_url-fresh}
use daily_firehose.Opml.Export.{
  feed_elements, Node, feed_outline, category_outline, Catalog, node_element, node_elements,
}
use daily_firehose.Opml.Export.Read.{
  ReadsWords, IsImportable, opml_of, read_into, outline-read, count_outline-within,
}

-- A category's name that an import accepts.
pub record IsNamed (env : Env) (name : String) : Type 0 where
  pub some_name : truthy name ≡ true
  pub not_blank : truthy (env.strip name) ≡ true
  pub clean : env.clean_category name (or_else (env.slugify name) "category") ≡ true

none_of : (a b : Option OpmlFeed) → first_some a b ≡ none → (a ≡ none) × (b ≡ none)
none_of none b h = (refl, h)
none_of (some f) b h = cc

-- Of distinct URLs, one is not in what stands before it.
UniqueUrls-middle :
    (xs ys : List OpmlFeed) (p : OpmlFeed)
    → UniqueUrls (xs ++ p ∷ ys)
    → find_url p.feed_url xs ≡ none
unfolding find_url
UniqueUrls-middle [] ys p unique = refl
UniqueUrls-middle (x ∷ xs) ys p (fresh, unique) =
    let both = sym (find_url-++ x.feed_url xs (p ∷ ys)) ∙ fresh in
    let (missing, later) = none_of (find_url x.feed_url xs) (find_url x.feed_url (p ∷ ys)) both in
    let (apart, after) = find_url-absent x.feed_url p ys later in
    find_url-fresh p.feed_url x xs (other_text p.feed_url x.feed_url apart)
      (UniqueUrls-middle xs ys p unique)

UniqueUrls-front : (xs ys : List OpmlFeed) → UniqueUrls (xs ++ ys) → UniqueUrls xs
UniqueUrls-front [] ys unique = tt
UniqueUrls-front (x ∷ xs) ys (fresh, unique) = (
  (none_of (find_url x.feed_url xs) (find_url x.feed_url ys)
      (sym (find_url-++ x.feed_url xs ys) ∙ fresh)).0,
  UniqueUrls-front xs ys unique,
)

module _ (env : Env) (words : ReadsWords env) where
  pub feeds-read :
      (name : String) (depth : ℕ) (feeds : List Feed) (walk : Walk)
      → All (IsImportable env) feeds
      → UniqueUrls (walk.feeds ++ map (opml_of name) feeds)
      → walk.outline_count + length feeds ≤ opml_max_outlines
      → visit_children env (feed_elements feeds) name depth walk ≡ ok (read_into name feeds walk)
  unfolding visit_children feed_elements
  feeds-read name depth [] walk good unique few = λ i. ok (record walk {
    feeds = sym (++_nil walk.feeds) i;
    outline_count = (let e : walk.outline_count ≡ walk.outline_count + 0 = omega arith in e) i;
  })
  feeds-read name depth (f ∷ rest) walk good unique few =
      let p = opml_of name f in
      let first : Walk = read_into name (f ∷ []) walk in
      let moved = ++_assoc walk.feeds (p ∷ []) (map (opml_of name) rest) in
      let counted : walk.outline_count + 1 + length rest ≡ walk.outline_count + length (f ∷ rest) =
        omega arith in
      ap (λ r. r >>= visit_children env (feed_elements rest) name depth)
        (outline-read env words name depth f walk good.0
          (UniqueUrls-middle walk.feeds (map (opml_of name) rest) p unique) (omega (arith, few)))
      ∙ feeds-read name depth rest first good.1 (subst UniqueUrls (sym moved) unique)
          (omega (arith, few))
      ∙ (λ i. ok (record walk { feeds = moved i; outline_count = counted i }))

  module _ (catalog : Catalog) where
    -- what the import reads of a node
    abbrev pub node_feeds : Node → List OpmlFeed
    node_feeds (feed_outline f) = opml_of "" f ∷ []
    node_feeds (category_outline id f fs) = map (opml_of (catalog.name id)) (f ∷ fs)

    abbrev pub contents : List Node → List OpmlFeed
    contents [] = []
    contents (n ∷ rest) = node_feeds n ++ contents rest

    abbrev pub outlines : List Node → ℕ
    outlines [] = 0
    outlines (feed_outline f ∷ rest) = 1 + outlines rest
    outlines (category_outline id f fs ∷ rest) = 1 + length (f ∷ fs) + outlines rest

    abbrev pub IsReadable : Node → Type 0
    IsReadable (feed_outline f) = IsImportable env f
    IsReadable (category_outline id f fs) =
        IsNamed env (catalog.name id) × All (IsImportable env) (f ∷ fs)

    abbrev name_attributes : ℕ → List (String × String)
    name_attributes id = ("text", catalog.name id) ∷ ("title", catalog.name id) ∷ []

    label-read :
        (id : ℕ)
        → IsNamed env (catalog.name id)
        → label_of env (name_attributes id) ≡ catalog.name id
    unfolding opml_attribute
    label-read id named = rw (words.text, words.title, named.some_name) refl

    no_url-read : (id : ℕ) → feed_url_of env (name_attributes id) ≡ ""
    unfolding opml_attribute
    no_url-read id =
        let missing : opml_attribute env (name_attributes id) "xmlurl" ≡ "" =
          rw (words.text, words.title) refl in
        ap env.strip missing ∙ words.blank

    name-read :
        (id : ℕ) (children : Elements)
        → IsNamed env (catalog.name id)
        → has_children children ≡ true
        → child_category env (name_attributes id) children ≡ ok (catalog.name id)
    unfolding child_category category_named
    name-read id children named below =
        ap (λ n. category_named env n children) (label-read id named)
        ∙ rw (named.not_blank, below, named.clean) refl

    category-read :
        (id : ℕ) (f : Feed) (fs : List Feed) (walk : Walk)
        → IsNamed env (catalog.name id)
        → All (IsImportable env) (f ∷ fs)
        → UniqueUrls (walk.feeds ++ map (opml_of (catalog.name id)) (f ∷ fs))
        → walk.outline_count + (1 + length (f ∷ fs)) ≤ opml_max_outlines
        → visit_child env (node_element catalog (category_outline id f fs)) "" 1 walk
          ≡ ok (record walk {
            feeds = walk.feeds ++ map (opml_of (catalog.name id)) (f ∷ fs);
            outline_count = walk.outline_count + (1 + length (f ∷ fs));
          })
    unfolding visit_children
    category-read id f fs walk named good unique few =
        let name = catalog.name id in
        let below = feed_elements (f ∷ fs) in
        let counted : Walk = record walk { outline_count = walk.outline_count + 1 } in
        let sum : walk.outline_count + 1 + length (f ∷ fs)
            ≡ walk.outline_count + (1 + length (f ∷ fs)) =
          omega arith in
        rw (words.outline, count_outline-within env words walk (omega (arith, few)))
          (if_else _ (ap truthy (no_url-read id))
            ∙ ap (λ r. r >>= λ n. within_depth env 2 (visit_children env below n 2) counted)
                (name-read id below named (unfold feed_elements in refl))
            ∙ feeds-read name 2 (f ∷ fs) counted good unique (omega (arith, few))
            ∙ (λ i. ok (record walk {
              feeds = walk.feeds ++ map (opml_of name) (f ∷ fs);
              outline_count = sum i;
            })))

    outlines-cons :
        (n : Node) (rest : List Node) → outlines (n ∷ rest) ≡ outlines (n ∷ []) + outlines rest
    outlines-cons (feed_outline f) rest = omega arith
    outlines-cons (category_outline id f fs) rest = omega arith

    node-read :
        (n : Node) (walk : Walk)
        → IsReadable n
        → UniqueUrls (walk.feeds ++ node_feeds n)
        → walk.outline_count + outlines (n ∷ []) ≤ opml_max_outlines
        → visit_child env (node_element catalog n) "" 1 walk
          ≡ ok (record walk {
            feeds = walk.feeds ++ node_feeds n;
            outline_count = walk.outline_count + outlines (n ∷ []);
          })
    node-read (feed_outline f) walk good unique few =
        outline-read env words "" 1 f walk good
          (UniqueUrls-middle walk.feeds [] (opml_of "" f) unique) few
    node-read (category_outline id f fs) walk good unique few =
        category-read id f fs walk good.0 good.1 unique (omega (arith, few)) ∙ (λ i.
          ok (record walk {
            feeds = walk.feeds ++ map (opml_of (catalog.name id)) (f ∷ fs);
            outline_count =
                (let e : walk.outline_count + (1 + length (f ∷ fs))
                        ≡ walk.outline_count + outlines (category_outline id f fs ∷ []) =
                      omega arith in
                    e)
                  i;
          }))

    pub nodes-read :
        (nodes : List Node) (walk : Walk)
        → All IsReadable nodes
        → UniqueUrls (walk.feeds ++ contents nodes)
        → walk.outline_count + outlines nodes ≤ opml_max_outlines
        → visit_children env (node_elements catalog nodes) "" 1 walk
          ≡ ok (record walk {
            feeds = walk.feeds ++ contents nodes;
            outline_count = walk.outline_count + outlines nodes;
          })
    unfolding visit_children node_elements
    nodes-read [] walk good unique few = λ i. ok (record walk {
      feeds = sym (++_nil walk.feeds) i;
      outline_count = (let e : walk.outline_count ≡ walk.outline_count + 0 = omega arith in e) i;
    })
    nodes-read (n ∷ rest) walk good unique few =
        let moved = ++_assoc walk.feeds (node_feeds n) (contents rest) in
        let sum = sym (outlines-cons n rest) in
        let first : Walk = record walk {
          feeds = walk.feeds ++ node_feeds n;
          outline_count = walk.outline_count + outlines (n ∷ []);
        } in
        let total : walk.outline_count + outlines (n ∷ []) + outlines rest
            ≡ walk.outline_count + outlines (n ∷ rest) =
          omega (arith, sum) in
        ap (λ r. r >>= visit_children env (node_elements catalog rest) "" 1)
          (node-read n walk good.0
            (UniqueUrls-front (walk.feeds ++ node_feeds n) (contents rest)
              (subst UniqueUrls (sym moved) unique))
            (omega (arith, few, sum)))
        ∙ nodes-read rest first good.1 (subst UniqueUrls (sym moved) unique)
            (omega (arith, few, sum))
        ∙ (λ i. ok (record walk { feeds = moved i; outline_count = total i }))
