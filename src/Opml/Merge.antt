-- ===== src/Opml/Merge.antt =====
-- What adding feeds to a plan does, for `_parse_opml` of `feeds/services.py`.
use mathlib.Core.Path.{subst}
use daily_firehose.Common.{
  ◌+◌, ◌≡◌, refl, sym, ap, ◌∙◌, String, true, false, Option, none, some, List, [], ◌∷◌, ◌++◌,
  length, length-++, All-++, str_eq, eq_iff, All, All-weaken, Bool-cases, other_text, inl, inr,
  arith, ok,
}
use daily_firehose.Opml.{OpmlFeed, Walk, find_url, same_feed, added, add_feed}

-- the first of two lookups that finds anything
abbrev pub first_some : Option OpmlFeed → Option OpmlFeed → Option OpmlFeed
first_some none later = later
first_some (some f) later = some f

first_some_assoc :
    (a b c : Option OpmlFeed) → first_some (first_some a b) c ≡ first_some a (first_some b c)
first_some_assoc none b c = refl
first_some_assoc (some f) b c = refl

first_some-none : (a : Option OpmlFeed) → first_some a none ≡ a
first_some-none none = refl
first_some-none (some f) = refl

pub find_url-++ :
    (url : String) (xs ys : List OpmlFeed)
    → find_url url (xs ++ ys) ≡ first_some (find_url url xs) (find_url url ys)
unfolding find_url
find_url-++ url [] ys = refl
find_url-++ url (x ∷ xs) ys = elim (Bool-cases (str_eq x.feed_url url)) [
  | inl q ↦ rw q refl
  | inr q ↦ rw q (find_url-++ url xs ys)
]

pub find_url_self : (f : OpmlFeed) (rest : List OpmlFeed) → find_url f.feed_url (f ∷ rest) ≡ some f
unfolding find_url
find_url_self f rest = rw ((eq_iff f.feed_url f.feed_url).1 refl) refl

-- No two feeds have the same URL.
abbrev pub UniqueUrls : List OpmlFeed → Type 0
UniqueUrls [] = Unit
UniqueUrls (f ∷ rest) = (find_url f.feed_url rest ≡ none) × UniqueUrls rest

absent_head :
    (url : String) (f : OpmlFeed) (rest : List OpmlFeed)
    → find_url url (f ∷ rest) ≡ none
    → (str_eq url f.feed_url ≡ false) × (find_url url rest ≡ none)
unfolding find_url
absent_head url f rest h = elim (Bool-cases (str_eq f.feed_url url)) [
  | inl q ↦ ground (arith, q, h)
  | inr q ↦ (other_text f.feed_url url q, ground (arith, q, h))
]

UniqueUrls-snoc :
    (feeds : List OpmlFeed) (p : OpmlFeed)
    → find_url p.feed_url feeds ≡ none
    → UniqueUrls feeds
    → UniqueUrls (feeds ++ p ∷ [])
UniqueUrls-snoc [] p absent unique = (unfold find_url in refl, tt)
UniqueUrls-snoc (f ∷ rest) p absent (fresh, unique) =
    let (other, absent_later) = absent_head p.feed_url f rest absent in
    (
      find_url-++ f.feed_url rest (p ∷ []) ∙ rw fresh (unfold find_url in rw other refl),
      UniqueUrls-snoc rest p absent_later unique,
    )

pub same_feed-eq : (a b : OpmlFeed) → same_feed a b ≡ true → a ≡ b
same_feed-eq a b h =
    let title = (eq_iff a.title b.title).0 (ground (arith, h)) in
    let feed_url = (eq_iff a.feed_url b.feed_url).0 (ground (arith, h)) in
    let site_url = (eq_iff a.site_url b.site_url).0 (ground (arith, h)) in
    let category = (eq_iff a.category_name b.category_name).0 (ground (arith, h)) in
    λ i. record {
      title = title i;
      feed_url = feed_url i;
      site_url = site_url i;
      category_name = category i;
    }

-- `found`, added to the plan of `before` one by one, gives the plan of `after`: a map from URLs that
-- holds what it held, and of the new feeds the first with each URL, which all others equal.
pub record Merged (before : Walk) (found : List OpmlFeed) (after : Walk) : Type 0 where
  pub lookup :
      (url : String)
      → find_url url after.feeds ≡ first_some (find_url url before.feeds) (find_url url found)
  pub agree : All (λ p. find_url p.feed_url after.feeds ≡ some p) found
  pub counted :
      length after.feeds + after.duplicate_count
      ≡ length before.feeds + before.duplicate_count + length found
  pub unique : UniqueUrls before.feeds → UniqueUrls after.feeds

pub Merged-refl :
    (walk later : Walk)
    → later.feeds ≡ walk.feeds
    → later.duplicate_count ≡ walk.duplicate_count
    → Merged walk [] later
unfolding find_url
Merged-refl walk later same count = record {
  lookup = λ url. rw same (sym (first_some-none (find_url url walk.feeds)));
  agree = tt;
  counted = rw (same, count) (omega arith);
  unique = λ h. subst UniqueUrls (sym same) h;
}

pub Merged-trans :
    (a b c : Walk) (first then_found : List OpmlFeed)
    → Merged a first b
    → Merged b then_found c
    → Merged a (first ++ then_found) c
Merged-trans a b c first then_found p q = record {
  lookup = λ url.
      rw (q.lookup url, p.lookup url, find_url-++ url first then_found)
        (first_some_assoc (find_url url a.feeds) (find_url url first) (find_url url then_found));
  agree =
      All-++ _ first then_found
        (All-weaken _ _ first (λ f e. rw (q.lookup f.feed_url, e) refl) p.agree) q.agree;
  counted = omega (arith, p.counted, q.counted, length-++ first then_found);
  unique = λ h. q.unique (p.unique h);
}

-- A feed that is known already adds nothing to the map.
known_again :
    (p : OpmlFeed) (feeds : List OpmlFeed)
    → find_url p.feed_url feeds ≡ some p
    → (url : String) → find_url url feeds ≡ first_some (find_url url feeds) (find_url url (p ∷ []))
unfolding find_url
known_again p feeds q url = elim (Bool-cases (str_eq p.feed_url url)) [
  | inl k ↦
      let found : find_url url feeds ≡ some p =
        subst (λ u. find_url u feeds ≡ some p) ((eq_iff p.feed_url url).0 k) q in
      rw found refl
  | inr k ↦ rw k (sym (first_some-none (find_url url feeds)))
]

pub add_feed-Merged :
    (p : OpmlFeed) (walk after : Walk) → add_feed p walk ≡ ok after → Merged walk (p ∷ []) after
unfolding add_feed
add_feed-Merged p walk after h = go (find_url p.feed_url walk.feeds) refl h
  where
    new :
        find_url p.feed_url walk.feeds ≡ none
        → record walk { feeds = walk.feeds ++ p ∷ [] } ≡ after
        → Merged walk (p ∷ []) after
    new q e =
        subst (λ w. Merged walk (p ∷ []) w) e
          (record {
            lookup = λ url. find_url-++ url walk.feeds (p ∷ []);
            agree = (find_url-++ p.feed_url walk.feeds (p ∷ []) ∙ rw q (find_url_self p []), tt);
            counted = omega (arith, length-++ walk.feeds (p ∷ []));
            unique = UniqueUrls-snoc walk.feeds p q;
          })

    known :
        find_url p.feed_url walk.feeds ≡ some p
        → record walk { duplicate_count = walk.duplicate_count + 1 } ≡ after
        → Merged walk (p ∷ []) after
    known q e =
        subst (λ w. Merged walk (p ∷ []) w) e
          (record {
            lookup = λ url. known_again p walk.feeds q url;
            agree = (q, tt);
            counted = omega arith;
            unique = λ h. h;
          })

    go :
        (o : Option OpmlFeed)
        → find_url p.feed_url walk.feeds ≡ o
        → added p walk o ≡ ok after
        → Merged walk (p ∷ []) after
    go none q e = new q (cc)
    go (some f) q e = elim (Bool-cases (same_feed f p)) [
      | inl k ↦ known (q ∙ ap some (same_feed-eq f p k)) (ground (arith, k, e))
      | inr k ↦ ground (arith, k, e)
    ]

pub add_feed-outline_count :
    (p : OpmlFeed) (walk after : Walk)
    → add_feed p walk ≡ ok after
    → after.outline_count ≡ walk.outline_count
unfolding add_feed
add_feed-outline_count p walk after h = go (find_url p.feed_url walk.feeds) h
  where
    go :
        (o : Option OpmlFeed) → added p walk o ≡ ok after → after.outline_count ≡ walk.outline_count
    go none e = grind arith
    go (some f) e = ground (arith, e)
