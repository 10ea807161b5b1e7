-- ===== src/Opml/Export/Listed.antt =====
-- All the feeds that `export_opml` (`feeds/services.py`) places, as a map from URLs.
use mathlib.Core.Path.{subst}
use daily_firehose.Common.{
  ℕ, ◌+◌, ◌≡◌, refl, sym, ap, ◌∙◌, String, Bool, false, Option, none, some, List, [], ◌∷◌, ◌++◌,
  length, length-++, str_eq, eq_iff, other_text, if◌then◌else◌, All, All-both, All-++, if_then,
  ◌==◌, All-insert_by, All-sort_by, All-filter_of, insert_by, sort_by, filter, Bool-cases, inl, inr,
  arith,
}
use daily_firehose.Refresh.Feed.{Feed}
use daily_firehose.Opml.{OpmlFeed, Env, find_url}
use daily_firehose.Opml.Merge.{UniqueUrls}
use daily_firehose.Opml.Export.{
  Node, feed_outline, category_outline, Catalog, placed, placed_in, place_all,
}
use daily_firehose.Opml.Export.Read.{ReadsWords, IsImportable}
use daily_firehose.Opml.Export.Nodes.{IsNamed, contents, IsReadable}
use daily_firehose.Opml.Export.Placed.{listed, placed-Inserted, find_url-middle, UniqueUrls-insert}

-- No two feeds have the same URL, which the table's unique column says.
abbrev pub Distinct : List Feed → Type 0
Distinct [] = Unit
Distinct (f ∷ rest) = All (λ g. str_eq f.feed_url g.feed_url ≡ false) rest × Distinct rest

pub Distinct-filter :
    (test : Feed → Bool) (xs : List Feed) → Distinct xs → Distinct (filter test xs)
Distinct-filter test [] h = tt
Distinct-filter test (x ∷ xs) h = elim (Bool-cases (test x)) [
  | inl q ↦ rw q (All-filter_of _ test xs h.0, Distinct-filter test xs h.1)
  | inr q ↦ rw q (Distinct-filter test xs h.1)
]

Distinct-insert_by :
    (before : Feed → Feed → Bool) (x : Feed) (xs : List Feed)
    → All (λ g. str_eq x.feed_url g.feed_url ≡ false) xs
    → Distinct xs
    → Distinct (insert_by before x xs)
unfolding insert_by
Distinct-insert_by before x [] apart h = (tt, tt)
Distinct-insert_by before x (y ∷ rest) apart h = elim (Bool-cases (before x y)) [
  | inl q ↦ rw q (apart, h)
  | inr q ↦ rw q (
    All-insert_by _ before x rest (other_text x.feed_url y.feed_url apart.0) h.0,
    Distinct-insert_by before x rest apart.1 h.1,
  )
]

pub Distinct-sort_by :
    (before : Feed → Feed → Bool) (xs : List Feed) → Distinct xs → Distinct (sort_by before xs)
unfolding sort_by
Distinct-sort_by before [] h = tt
Distinct-sort_by before (x ∷ rest) h =
    Distinct-insert_by before x (sort_by before rest) (All-sort_by _ before rest h.0)
      (Distinct-sort_by before rest h.1)

module _ (env : Env) (words : ReadsWords env) (catalog : Catalog) where
  -- A feed that an import accepts under its category's name.
  abbrev pub HasName : Option ℕ → Type 0
  HasName none = Unit
  HasName (some id) = IsNamed env (catalog.name id)

  abbrev pub IsListed : Feed → Type 0
  IsListed f = IsImportable env f × HasName f.category

  abbrev pub read : List Node → List OpmlFeed
  read nodes = contents env words catalog nodes

  abbrev pub as_read : Feed → OpmlFeed
  as_read f = listed env words catalog f

  -- One more feed, whose URL is new.
  pub record HasOneMore (f : Feed) (before after : List OpmlFeed) : Type 0 where
    pub lookup :
        (url : String)
        → find_url url after
          ≡ (if str_eq f.feed_url url then some (as_read f) else find_url url before)
    pub unique : UniqueUrls after
    pub counted : length after ≡ length before + 1

  placed-HasOneMore :
      (f : Feed) (nodes : List Node)
      → find_url f.feed_url (read nodes) ≡ none
      → UniqueUrls (read nodes)
      → HasOneMore f (read nodes) (read (placed f f.category nodes))
  placed-HasOneMore f nodes fresh unique =
      let i = placed-Inserted env words catalog f f.category nodes in
      let absent : find_url f.feed_url (i.front ++ i.back) ≡ none =
        subst (λ l. find_url f.feed_url l ≡ none) i.was fresh in
      record {
        lookup = λ url.
            ap (find_url url) i.now
            ∙ find_url-middle url i.front i.back (as_read f) absent
            ∙ ap (λ l. if str_eq f.feed_url url then some (as_read f) else find_url url l)
                (sym i.was);
        unique =
            subst UniqueUrls (sym i.now)
              (UniqueUrls-insert i.front i.back (as_read f) absent (subst UniqueUrls i.was unique));
        counted = omega (
          arith,
          ap length i.was,
          ap length i.now,
          length-++ i.front i.back,
          length-++ i.front (as_read f ∷ i.back),
        );
      }

  -- The nodes of some feeds, with those that there were.
  pub record HasAll (feeds : List Feed) (before after : List OpmlFeed) : Type 0 where
    pub kept :
        (url : String) (p : OpmlFeed) → find_url url before ≡ some p → find_url url after ≡ some p
    pub holds : All (λ f. find_url f.feed_url after ≡ some (as_read f)) feeds
    pub unique : UniqueUrls after
    pub counted : length after ≡ length before + length feeds

  hidden :
      (f : Feed) (nodes : List Node) (url : String) (p : OpmlFeed)
      → find_url f.feed_url (read nodes) ≡ none
      → find_url url (read nodes) ≡ some p
      → (if str_eq f.feed_url url then some (as_read f) else find_url url (read nodes)) ≡ some p
  hidden f nodes url p fresh h = elim (Bool-cases (str_eq f.feed_url url)) [
    | inr q ↦ rw q h
    | inl q ↦
        let missing : find_url url (read nodes) ≡ none =
          subst (λ u. find_url u (read nodes) ≡ none) ((eq_iff f.feed_url url).0 q) fresh in
        cc
  ]

  pub place_all-HasAll :
      (feeds : List Feed) (nodes : List Node)
      → Distinct feeds
      → All (λ f. find_url f.feed_url (read nodes) ≡ none) feeds
      → UniqueUrls (read nodes)
      → HasAll feeds (read nodes) (read (place_all feeds nodes))
  unfolding place_all
  place_all-HasAll [] nodes distinct fresh unique = record {
    kept = λ url p h. h;
    holds = tt;
    unique = unique;
    counted = omega arith;
  }
  place_all-HasAll (f ∷ rest) nodes distinct fresh unique =
      let one = placed-HasOneMore f nodes fresh.0 unique in
      let later : All (λ g. find_url g.feed_url (read (placed f f.category nodes)) ≡ none) rest =
        All-both _ _ _ rest (λ g apart missing. one.lookup g.feed_url ∙ rw apart missing) distinct.0
          fresh.1 in
      let all = place_all-HasAll rest (placed f f.category nodes) distinct.1 later one.unique in
      record {
        kept = λ url p h. all.kept url p (one.lookup url ∙ hidden f nodes url p fresh.0 h);
        holds = (
          all.kept f.feed_url (as_read f)
              (one.lookup f.feed_url ∙ if_then _ ((eq_iff f.feed_url f.feed_url).1 refl)),
          all.holds,
        );
        unique = all.unique;
        counted = omega (arith, all.counted, one.counted);
      }

  placed_in-Readable :
      (id : ℕ) (f : Feed) (nodes : List Node)
      → IsImportable env f
      → IsNamed env (catalog.name id)
      → All (IsReadable env words catalog) nodes
      → All (IsReadable env words catalog) (placed_in id f nodes)
  unfolding placed_in
  placed_in-Readable id f [] h named good = ((named, (h, tt)), tt)
  placed_in-Readable id f (feed_outline g ∷ rest) h named good =
      (good.0, placed_in-Readable id f rest h named good.1)
  placed_in-Readable id f (category_outline other g fs ∷ rest) h named good =
      elim (Bool-cases (other == id)) [
        | inl q ↦ rw q (
          (good.0.0, (good.0.1.0, All-++ (IsImportable env) fs (f ∷ []) good.0.1.1 (h, tt))),
          good.1,
        )
        | inr q ↦ rw q (good.0, placed_in-Readable id f rest h named good.1)
      ]

  placed-Readable :
      (f : Feed) (o : Option ℕ) (nodes : List Node)
      → IsImportable env f
      → HasName o
      → All (IsReadable env words catalog) nodes
      → All (IsReadable env words catalog) (placed f o nodes)
  placed-Readable f none nodes h named good =
      All-++ (IsReadable env words catalog) nodes (feed_outline f ∷ []) good (h, tt)
  placed-Readable f (some id) nodes h named good = placed_in-Readable id f nodes h named good

  pub place_all-Readable :
      (feeds : List Feed) (nodes : List Node)
      → All IsListed feeds
      → All (IsReadable env words catalog) nodes
      → All (IsReadable env words catalog) (place_all feeds nodes)
  unfolding place_all
  place_all-Readable [] nodes listed good = good
  place_all-Readable (f ∷ rest) nodes listed good =
      place_all-Readable rest (placed f f.category nodes) listed.1
        (placed-Readable f f.category nodes listed.0.0 listed.0.1 good)
