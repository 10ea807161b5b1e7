-- ===== src/Opml/Export/Placed.antt =====
-- Where `export_opml` (`feeds/services.py`) places a feed, as a position in what is read back.
use mathlib.Core.Path.{subst}
use daily_firehose.Common.{
  ℕ, ◌≡◌, refl, sym, ap, ◌∙◌, String, false, Option, none, some, List, [], ◌∷◌, ◌++◌, map, ◌==◌,
  ==_iff, ++_assoc, ++_nil, map-++, str_eq, eq_iff, other_text, if◌then◌else◌, Bool-cases, inl, inr,
}
use daily_firehose.Refresh.Feed.{Feed}
use daily_firehose.Opml.{OpmlFeed, Env, find_url}
use daily_firehose.Opml.Merge.{UniqueUrls}
use daily_firehose.Opml.Import.Sorted.{find_url-absent}
use daily_firehose.Opml.Export.{Node, feed_outline, category_outline, Catalog, placed, placed_in}
use daily_firehose.Opml.Export.Read.{ReadsWords, opml_of}
use daily_firehose.Opml.Export.Nodes.{node_feeds, contents}

-- A feed between others is found by its URL, and hides none of them.
pub find_url-middle :
    (url : String) (xs ys : List OpmlFeed) (p : OpmlFeed)
    → find_url p.feed_url (xs ++ ys) ≡ none
    → find_url url (xs ++ p ∷ ys)
      ≡ (if str_eq p.feed_url url then some p else find_url url (xs ++ ys))
unfolding find_url
find_url-middle url [] ys p fresh = refl
find_url-middle url (x ∷ xs) ys p fresh =
    let (apart, later) = find_url-absent p.feed_url x (xs ++ ys) fresh in
    elim (Bool-cases (str_eq x.feed_url url)) [
      | inr q ↦ rw q (find_url-middle url xs ys p later)
      | inl q ↦
          let other : str_eq p.feed_url url ≡ false =
            subst (λ u. str_eq p.feed_url u ≡ false) ((eq_iff x.feed_url url).0 q)
              (other_text x.feed_url p.feed_url apart) in
          rw (q, other) refl
    ]

pub UniqueUrls-insert :
    (xs ys : List OpmlFeed) (p : OpmlFeed)
    → find_url p.feed_url (xs ++ ys) ≡ none
    → UniqueUrls (xs ++ ys)
    → UniqueUrls (xs ++ p ∷ ys)
UniqueUrls-insert [] ys p fresh unique = (fresh, unique)
UniqueUrls-insert (x ∷ xs) ys p fresh (head, unique) =
    let (apart, later) = find_url-absent p.feed_url x (xs ++ ys) fresh in
    (
      find_url-middle x.feed_url xs ys p later ∙ rw (other_text x.feed_url p.feed_url apart) head,
      UniqueUrls-insert xs ys p later unique,
    )

module _ (env : Env) (words : ReadsWords env) (catalog : Catalog) where
  -- the name that a feed's outline stands under
  abbrev pub category_of : Option ℕ → String
  category_of none = ""
  category_of (some id) = catalog.name id

  -- what is read of a feed
  abbrev pub listed : Feed → OpmlFeed
  listed f = opml_of (category_of f.category) f

  -- `nodes` with one more feed somewhere among the others
  pub record Inserted (p : OpmlFeed) (before after : List OpmlFeed) : Type 0 where
    pub front : List OpmlFeed
    pub back : List OpmlFeed
    pub was : before ≡ front ++ back
    pub now : after ≡ front ++ p ∷ back

  below_front :
      (zs : List OpmlFeed) (p : OpmlFeed) (before after : List OpmlFeed)
      → Inserted p before after
      → Inserted p (zs ++ before) (zs ++ after)
  below_front zs p before after i = record {
    front = zs ++ i.front;
    back = i.back;
    was = ap (λ l. zs ++ l) i.was ∙ sym (++_assoc zs i.front i.back);
    now = ap (λ l. zs ++ l) i.now ∙ sym (++_assoc zs i.front (p ∷ i.back));
  }

  contents-++ :
      (xs ys : List Node)
      → contents env words catalog (xs ++ ys)
        ≡ contents env words catalog xs ++ contents env words catalog ys
  contents-++ [] ys = refl
  contents-++ (n ∷ xs) ys =
      ap (λ l. node_feeds env words catalog n ++ l) (contents-++ xs ys)
      ∙ sym (++_assoc (node_feeds env words catalog n) (contents env words catalog xs) _)

  placed_in-Inserted :
      (id : ℕ) (f : Feed) (nodes : List Node)
      → Inserted
          (opml_of (catalog.name id) f)
          (contents env words catalog nodes)
          (contents env words catalog (placed_in id f nodes))
  unfolding placed_in
  placed_in-Inserted id f [] = record { front = []; back = []; was = refl; now = refl }
  placed_in-Inserted id f (feed_outline g ∷ rest) =
      below_front (opml_of "" g ∷ []) _ _ _ (placed_in-Inserted id f rest)
  placed_in-Inserted id f (category_outline other g fs ∷ rest) = elim (Bool-cases (other == id)) [
    | inr q ↦ rw q (
        below_front (map (opml_of (catalog.name other)) (g ∷ fs)) _ _ _
          (placed_in-Inserted id f rest))
    | inl q ↦ rw q (
        let name = catalog.name other in
        let same : name ≡ catalog.name id = ap catalog.name ((==_iff other id).0 q) in
        record {
          front = map (opml_of name) (g ∷ fs);
          back = contents env words catalog rest;
          was = refl;
          now =
              ap (λ l. l ++ contents env words catalog rest)
                (map-++ (opml_of name) (g ∷ fs) (f ∷ []))
              ∙ ++_assoc (map (opml_of name) (g ∷ fs)) (opml_of name f ∷ [])
                  (contents env words catalog rest)
              ∙ ap
                  (λ n.
                    map (opml_of name) (g ∷ fs) ++ opml_of n f ∷ contents env words catalog rest)
                  same;
        })
  ]

  pub placed-Inserted :
      (f : Feed) (o : Option ℕ) (nodes : List Node)
      → Inserted
          (opml_of (category_of o) f)
          (contents env words catalog nodes)
          (contents env words catalog (placed f o nodes))
  placed-Inserted f none nodes = record {
    front = contents env words catalog nodes;
    back = [];
    was = sym (++_nil (contents env words catalog nodes));
    now = contents-++ nodes (feed_outline f ∷ []);
  }
  placed-Inserted f (some id) nodes = placed_in-Inserted id f nodes
