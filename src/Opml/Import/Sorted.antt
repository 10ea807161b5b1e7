-- ===== src/Opml/Import/Sorted.antt =====
-- A plan that `import_opml` (`feeds/services.py`) has sorted is the same map from URLs.
use daily_firehose.Common.{
  ◌≡◌, refl, ap, ◌∙◌, String, Bool, false, none, some, List, [], ◌∷◌, str_eq, eq_iff, other_text,
  count, insert_by, sort_by, if◌then◌else◌, Bool-cases, inl, inr, arith,
}
use mathlib.Core.Path.{subst}
use daily_firehose.Opml.{OpmlFeed, find_url}
use daily_firehose.Opml.Merge.{UniqueUrls}

-- What an absent URL says of a list's head and its tail.
pub find_url-absent :
    (url : String) (f : OpmlFeed) (rest : List OpmlFeed)
    → find_url url (f ∷ rest) ≡ none
    → (str_eq f.feed_url url ≡ false) × (find_url url rest ≡ none)
unfolding find_url
find_url-absent url f rest h = elim (Bool-cases (str_eq f.feed_url url)) [
  | inl q ↦ ground (arith, q, h)
  | inr q ↦ (q, ground (arith, q, h))
]

find_url-cons :
    (url : String) (f : OpmlFeed) (xs ys : List OpmlFeed)
    → find_url url xs ≡ find_url url ys
    → find_url url (f ∷ xs) ≡ find_url url (f ∷ ys)
unfolding find_url
find_url-cons url f xs ys same = ap (λ found. if str_eq f.feed_url url then some f else found) same

pub find_url-fresh :
    (url : String) (f : OpmlFeed) (xs : List OpmlFeed)
    → str_eq f.feed_url url ≡ false
    → find_url url xs ≡ none
    → find_url url (f ∷ xs) ≡ none
unfolding find_url
find_url-fresh url f xs other absent = rw other absent

module _ (before : OpmlFeed → OpmlFeed → Bool) where
  find_url-swap :
      (url : String) (a b : OpmlFeed) (rest : List OpmlFeed)
      → str_eq a.feed_url b.feed_url ≡ false
      → find_url url (a ∷ b ∷ rest) ≡ find_url url (b ∷ a ∷ rest)
  unfolding find_url
  find_url-swap url a b rest apart = elim (Bool-cases (str_eq a.feed_url url)) [
    | inr q ↦ rw q refl
    | inl q ↦
        let other : str_eq b.feed_url url ≡ false =
          subst (λ u. str_eq b.feed_url u ≡ false) ((eq_iff a.feed_url url).0 q)
            (other_text a.feed_url b.feed_url apart) in
        rw (q, other) refl
  ]

  find_url-insert_by :
      (url : String) (x : OpmlFeed) (xs : List OpmlFeed)
      → find_url x.feed_url xs ≡ none
      → find_url url (insert_by before x xs) ≡ find_url url (x ∷ xs)
  unfolding insert_by
  find_url-insert_by url x [] fresh = refl
  find_url-insert_by url x (y ∷ rest) fresh =
      let (apart, later) = find_url-absent x.feed_url y rest fresh in
      elim (Bool-cases (before x y)) [
        | inl q ↦ rw q refl
        | inr q ↦ rw q (
            find_url-cons url y _ (x ∷ rest) (find_url-insert_by url x rest later)
            ∙ find_url-swap url y x rest apart)
      ]

  UniqueUrls-insert_by :
      (x : OpmlFeed) (xs : List OpmlFeed)
      → find_url x.feed_url xs ≡ none
      → UniqueUrls xs
      → UniqueUrls (insert_by before x xs)
  unfolding insert_by
  UniqueUrls-insert_by x [] fresh unique = (fresh, tt)
  UniqueUrls-insert_by x (y ∷ rest) fresh (head, unique) =
      let (apart, later) = find_url-absent x.feed_url y rest fresh in
      elim (Bool-cases (before x y)) [
        | inl q ↦ rw q (fresh, (head, unique))
        | inr q ↦ rw q (
          find_url-insert_by y.feed_url x rest later
              ∙ find_url-fresh y.feed_url x rest (other_text y.feed_url x.feed_url apart) head,
          UniqueUrls-insert_by x rest later unique,
        )
      ]

  pub find_url-sort_by :
      (url : String) (xs : List OpmlFeed)
      → UniqueUrls xs
      → find_url url (sort_by before xs) ≡ find_url url xs
  unfolding sort_by
  find_url-sort_by url [] unique = refl
  find_url-sort_by url (x ∷ rest) (fresh, unique) =
      find_url-insert_by url x (sort_by before rest)
        (find_url-sort_by x.feed_url rest unique ∙ fresh)
      ∙ find_url-cons url x (sort_by before rest) rest (find_url-sort_by url rest unique)

  pub UniqueUrls-sort_by : (xs : List OpmlFeed) → UniqueUrls xs → UniqueUrls (sort_by before xs)
  unfolding sort_by
  UniqueUrls-sort_by [] unique = tt
  UniqueUrls-sort_by (x ∷ rest) (fresh, unique) =
      UniqueUrls-insert_by x (sort_by before rest) (find_url-sort_by x.feed_url rest unique ∙ fresh)
        (UniqueUrls-sort_by rest unique)

  module _ (test : OpmlFeed → Bool) where
    count-insert_by :
        (x : OpmlFeed) (xs : List OpmlFeed)
        → count test (insert_by before x xs) ≡ count test (x ∷ xs)
    unfolding insert_by
    count-insert_by x [] = refl
    count-insert_by x (y ∷ rest) = elim (Bool-cases (before x y)) [
      | inl q ↦ rw q refl
      | inr q ↦ rw q (omega (arith, count-insert_by x rest))
    ]

    pub count-sort_by : (xs : List OpmlFeed) → count test (sort_by before xs) ≡ count test xs
    unfolding sort_by
    count-sort_by [] = refl
    count-sort_by (x ∷ rest) =
        omega (arith, count-insert_by x (sort_by before rest), count-sort_by rest)
