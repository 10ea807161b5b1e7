-- ===== src/Reading/Query/Page.antt =====
-- One page of the articles that a reader still sees.
use daily_firehose.Common.{
  ℕ, zero, suc, ◌+◌, ◌≤◌, ◌≡◌, refl, false, ◌||◌, List, [], ◌∷◌, take, length, ltb, le→ltb_false,
  All, All-weaken, All-filter, All-take, length-take, arith, ok,
}
use daily_firehose.Refresh.Feed.{Article}
use daily_firehose.Reading.Row.{ReadStore}
use daily_firehose.Reading.Query.{
  ArticlePage, read_predicate, saved_predicate, visible_articles, article_card_page,
}

module _ {ℓ} {A : Type ℓ} where
  take-take : (n : ℕ) (xs : List A) → take n (take (suc n) xs) ≡ take n xs
  take-take zero xs = refl
  take-take (suc n) [] = refl
  take-take (suc n) (x ∷ xs) = rw (take-take n xs) refl

  longer : (n : ℕ) (xs : List A) → ltb n (length (take (suc n) xs)) ≡ ltb n (length xs)
  longer zero [] = refl
  longer zero (x ∷ xs) = ground arith
  longer (suc n) [] = ground arith
  longer (suc n) (x ∷ xs) = ground (arith, longer n xs)

succ : (n : ℕ) → n + 1 ≡ suc n
succ n = omega arith

module _ (local_date : ℕ → ℕ) (user : ℕ) (store : ReadStore) where
  -- A page holds the first of the articles that the reader neither read nor saved, at most `limit`
  -- of them, and says that there are more exactly if there are more than `limit`.
  pub article_card_page-visible :
      (articles : List Article) (limit : ℕ)
      → 1 ≤ limit
      → let visible = visible_articles local_date user articles store in
        (page : ArticlePage) × (article_card_page local_date user articles limit store ≡ ok page)
        × (page.cards ≡ take limit visible)
        × (page.has_more ≡ ltb limit (length visible))
        × (length page.cards ≤ limit)
        × All
            (λ a.
              (read_predicate local_date user articles store a || saved_predicate user store a)
              ≡ false)
            page.cards
  unfolding article_card_page visible_articles
  article_card_page-visible articles limit positive =
      let visible = visible_articles local_date user articles store in
      let rows = take (limit + 1) visible in
      let cards = take limit rows in
      let first : cards ≡ take limit visible = rw (succ limit) (take-take limit visible) in
      let more : ltb limit (length rows) ≡ ltb limit (length visible) =
        rw (succ limit) (longer limit visible) in
      let seen =
        All-take
          (λ a.
            (read_predicate local_date user articles store a || saved_predicate user store a)
            ≡ false)
          limit rows
          (All-take _ (limit + 1) visible
            (All-weaken _ _ visible (λ a h. ground (arith, h)) (All-filter _ articles))) in
      (
        record { cards = cards; has_more = ltb limit (length rows); limit = limit },
        rw (le→ltb_false limit 1 positive) refl,
        first,
        more,
        length-take limit rows,
        seen,
      )
