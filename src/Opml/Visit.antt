-- ===== src/Opml/Visit.antt =====
-- What `visit` of `_parse_opml` (`feeds/services.py`) makes of outlines, by the feed outlines among
-- them.
use mathlib.Core.Path.{subst}
use daily_firehose.Common.{
  ℕ, suc, ◌+◌, ◌≤◌, ◌≡◌, refl, sym, ap, String, false, List, [], ◌∷◌, ◌++◌, length, length-++, ltb,
  str_eq, truthy, if◌then◌else◌, Bool-cases, if_true, if_false, inl, inr, arith, Result, ok, ◌>>=◌,
  >>=-eq-ok,
}
use daily_firehose.Opml.{
  Element, element, Elements, nil, cons, OpmlFeed, ImportError, Env, Walk, add_feed, count_outline,
  opml_max_outlines, opml_max_depth, xml_local_name, feed_url_of, label_of, validated_opml_feed,
  child_category, category_named, visit_outline, within_depth, visit_children, visit_child,
  has_children,
}
use daily_firehose.Opml.Merge.{
  Merged, Merged-refl, Merged-trans, add_feed-Merged, add_feed-outline_count,
}

-- The number of outlines below an element, with those that are categories.
unfoldable mutual
  pub outline_total : Elements → ℕ
  outline_total nil = 0
  outline_total (cons child rest) = total_of child + outline_total rest

  pub total_of : Element → ℕ
  total_of (element tag attrs children) = 1 + outline_total children

module _ (env : Env) where
  -- The feed outlines below an element, in the order of the document, each with the attributes that
  -- describe it and the name of the outline that it stands in.
  unfoldable mutual
    pub leaves : Elements → String → List (List (String × String) × String)
    leaves nil name = []
    leaves (cons child rest) name = leaves_of child name ++ leaves rest name

    pub leaves_of : Element → String → List (List (String × String) × String)
    leaves_of (element tag attrs children) name =
        let below = leaves children (label_of env attrs) in
        if truthy (feed_url_of env attrs) then (attrs, name) ∷ [] else below

  -- the feeds that valid outlines describe
  unfoldable pub described :
      List (List (String × String) × String) → Result ImportError (List OpmlFeed)
  described [] = ok []
  described ((attrs, name) ∷ rest) =
      validated_opml_feed env attrs name >>= λ f. described rest >>= λ fs. ok (f ∷ fs)

  described-++ :
      (xs ys : List (List (String × String) × String)) (fs gs : List OpmlFeed)
      → described xs ≡ ok fs
      → described ys ≡ ok gs
      → described (xs ++ ys) ≡ ok (fs ++ gs)
  unfolding described
  described-++ [] ys fs gs h k =
      let e : [] ≡ fs = cc in subst (λ l. described ys ≡ ok (l ++ gs)) e k
  described-++ ((attrs, name) ∷ xs) ys fs gs h k =
      let (f, q, h1) = >>=-eq-ok (validated_opml_feed env attrs name) _ h in
      let (rest, r, h2) = >>=-eq-ok (described xs) _ h1 in
      let e : f ∷ rest ≡ fs = cc in
      rw (q, described-++ xs ys rest gs r k) (ap (λ l. ok (l ++ gs)) e)

  -- What the walk over some outlines does to its state.
  pub record Visited (outlines : List (List (String × String) × String)) (total : ℕ)
      (before after : Walk) : Type 0 where
    pub found : List OpmlFeed
    pub all_described : described outlines ≡ ok found
    pub merged : Merged before found after
    pub counted : before.outline_count + length found ≤ after.outline_count
    pub numbered : after.outline_count ≡ before.outline_count + total
    pub within : before.outline_count ≤ opml_max_outlines → after.outline_count ≤ opml_max_outlines

  Visited-trans :
      (xs ys : List (List (String × String) × String)) (m n : ℕ) (a b c : Walk)
      → Visited xs m a b
      → Visited ys n b c
      → Visited (xs ++ ys) (m + n) a c
  Visited-trans xs ys m n a b c p q = record {
    found = p.found ++ q.found;
    all_described = described-++ xs ys p.found q.found p.all_described q.all_described;
    merged = Merged-trans a b c p.found q.found p.merged q.merged;
    counted = omega (arith, p.counted, q.counted, length-++ p.found q.found);
    numbered = omega (arith, p.numbered, q.numbered);
    within = λ h. q.within (p.within h);
  }

  -- Counting an outline keeps the plan, within the limit.
  record Counted (walk counted : Walk) : Type 0 where
    pub feeds : counted.feeds ≡ walk.feeds
    pub twice : counted.duplicate_count ≡ walk.duplicate_count
    pub more : counted.outline_count ≡ walk.outline_count + 1
    pub within : counted.outline_count ≤ opml_max_outlines

  count_outline-Counted :
      (walk counted : Walk) → count_outline walk ≡ ok counted → Counted walk counted
  unfolding count_outline
  count_outline-Counted walk counted h =
      elim (Bool-cases (ltb opml_max_outlines (walk.outline_count + 1))) [
        | inl q ↦ let e = if_true _ q h in cc
        | inr q ↦
            let k = if_false _ q h in
            let e : record walk { outline_count = walk.outline_count + 1 } ≡ counted = cc in
            subst (Counted walk) e
              (record { feeds = refl; twice = refl; more = refl; within = ground (arith, q) })
      ]

  Counted-Merged :
      (walk counted after : Walk) (found : List OpmlFeed)
      → Counted walk counted
      → Merged counted found after
      → Merged walk found after
  Counted-Merged walk counted after found c m =
      Merged-trans walk counted after [] found (Merged-refl walk counted c.feeds c.twice) m

  feed-Visited :
      (attrs : List (String × String)) (name : String) (p : OpmlFeed) (walk counted after : Walk)
      → Counted walk counted
      → validated_opml_feed env attrs name ≡ ok p
      → add_feed p counted ≡ ok after
      → Visited ((attrs, name) ∷ []) 1 walk after
  unfolding described
  feed-Visited attrs name p walk counted after c d h = record {
    found = p ∷ [];
    all_described = rw d refl;
    merged = Counted-Merged walk counted after (p ∷ []) c (add_feed-Merged p counted after h);
    counted = omega (arith, c.more, add_feed-outline_count p counted after h);
    numbered = omega (arith, c.more, add_feed-outline_count p counted after h);
    within = λ k. omega (arith, c.within, add_feed-outline_count p counted after h);
  }

  category-Visited :
      (xs : List (List (String × String) × String)) (total : ℕ) (walk counted after : Walk)
      → Counted walk counted
      → Visited xs total counted after
      → Visited xs (1 + total) walk after
  category-Visited xs total walk counted after c v = record {
    found = v.found;
    all_described = v.all_described;
    merged = Counted-Merged walk counted after v.found c v.merged;
    counted = omega (arith, c.more, v.counted);
    numbered = omega (arith, c.more, v.numbered);
    within = λ k. v.within c.within;
  }

  child_category-label :
      (attrs : List (String × String)) (children : Elements) (name : String)
      → child_category env attrs children ≡ ok name
      → name ≡ label_of env attrs
  unfolding child_category category_named
  child_category-label attrs children name h = ground (arith, h)

  childless-outline_total :
      (children : Elements) → has_children children ≡ false → outline_total children ≡ 0
  unfolding outline_total
  childless-outline_total nil h = refl
  childless-outline_total (cons child rest) h = cc

  -- One outline: a feed, or a category whose own outlines the hypothesis covers.
  outline-Visited :
      (attrs : List (String × String)) (children : Elements) (name : String) (depth : ℕ)
      (walk counted after : Walk)
      → ((label : String) (s t : Walk)
          → visit_children env children label (suc depth) s ≡ ok t
          → Visited (leaves children label) (outline_total children) s t)
      → Counted walk counted
      → visit_outline env attrs children name
          (λ label. within_depth env (suc depth) (visit_children env children label (suc depth)))
          counted
        ≡ ok after
      → Visited
          (if truthy (feed_url_of env attrs)
            then (attrs, name) ∷ []
            else leaves children (label_of env attrs))
          (1 + outline_total children)
          walk
          after
  outline-Visited attrs children name depth walk counted after go c h =
      elim (Bool-cases (truthy (feed_url_of env attrs))) [
        | inl q ↦
            let f = if_true _ q h in
            rw q (elim (Bool-cases (has_children children)) [
              | inl k ↦ let e = if_true _ k f in cc
              | inr k ↦
                  let (p, d, a) =
                    >>=-eq-ok (validated_opml_feed env attrs name) _ (if_false _ k f) in
                  subst (λ n. Visited ((attrs, name) ∷ []) (1 + n) walk after)
                    (sym (childless-outline_total children k))
                    (feed-Visited attrs name p walk counted after c d a)
            ])
        | inr q ↦
            let (label, d, below) =
              >>=-eq-ok (child_category env attrs children) _ (if_false _ q h) in
            rw q (
              category-Visited (leaves children (label_of env attrs)) (outline_total children) walk
                counted after c
                (elim (Bool-cases (ltb opml_max_depth (suc depth))) [
                  | inl k ↦ let e = if_true _ k below in cc
                  | inr k ↦
                      subst
                        (λ l. Visited (leaves children l) (outline_total children) counted after)
                        (child_category-label attrs children label d)
                        (go label counted after (if_false _ k below))
                ]))
      ]

  nil-Visited : (walk after : Walk) → walk ≡ after → Visited [] 0 walk after
  unfolding described
  nil-Visited walk after h =
      subst (λ w. Visited [] 0 walk w) h
        (record {
          found = [];
          all_described = refl;
          merged = Merged-refl walk walk refl refl;
          counted = omega arith;
          numbered = omega arith;
          within = λ k. k;
        })

  mutual
    unfolding leaves outline_total visit_children

    pub visit_children-Visited :
        (children : Elements) (name : String) (depth : ℕ) (walk after : Walk)
        → visit_children env children name depth walk ≡ ok after
        → Visited (leaves children name) (outline_total children) walk after
    visit_children-Visited nil name depth walk after h = nil-Visited walk after (cc)
    visit_children-Visited (cons child rest) name depth walk after h =
        let (between, p, q) = >>=-eq-ok (visit_child env child name depth walk) _ h in
        Visited-trans (leaves_of child name) (leaves rest name) (total_of child)
          (outline_total rest) walk between after
          (visit_child-Visited child name depth walk between p)
          (visit_children-Visited rest name depth between after q)

    visit_child-Visited :
        (child : Element) (name : String) (depth : ℕ) (walk after : Walk)
        → visit_child env child name depth walk ≡ ok after
        → Visited (leaves_of child name) (total_of child) walk after
    visit_child-Visited (element tag attrs children) name depth walk after h =
        elim (Bool-cases (str_eq (xml_local_name env tag) "outline")) [
          | inr q ↦ let e = if_false _ q h in cc
          | inl q ↦
              let (counted, c, v) = >>=-eq-ok (count_outline walk) _ (if_true _ q h) in
              outline-Visited attrs children name depth walk counted after
                (λ label s t. visit_children-Visited children label (suc depth) s t)
                (count_outline-Counted walk counted c) v
        ]
