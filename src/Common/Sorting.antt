-- ===== src/Common/Sorting.antt =====
-- Python's `sorted` and a query's `order_by`, by an order; equal elements keep their places.
use mathlib.Core.Bool.{Bool}
use mathlib.Core.List.{List, [], ◌∷◌}
use mathlib.Core.Path.{◌≡◌, refl, subst}
use mathlib.Core.Logic.{inl, inr}
use daily_firehose.Common.Tests.{if◌then◌else◌, Bool-cases}
use daily_firehose.Common.Lists.{All, filter, length}
use native.Mathlib.Omega.{arith}

module _ {ℓ} {A : Type ℓ} where
  unfoldable pub insert_by : (A → A → Bool) → A → List A → List A
  insert_by before x [] = x ∷ []
  insert_by before x (y ∷ rest) =
      let later = insert_by before x rest in if before x y then x ∷ y ∷ rest else y ∷ later

  unfoldable pub sort_by : (A → A → Bool) → List A → List A
  sort_by before [] = []
  sort_by before (x ∷ rest) = insert_by before x (sort_by before rest)

module _ {ℓ κ} {A : Type ℓ} (P : A → Type κ) where
  pub All-insert_by :
      (before : A → A → Bool) (x : A) (xs : List A) → P x → All P xs → All P (insert_by before x xs)
  unfolding insert_by
  All-insert_by before x [] p h = (p, tt)
  All-insert_by before x (y ∷ rest) p h = elim (Bool-cases (before x y)) [
    | inl q ↦ rw (insert_by, q) (p, h)
    | inr q ↦ rw (insert_by, q) (h.0, All-insert_by before x rest p h.1)
  ]

  pub All-sort_by : (before : A → A → Bool) (xs : List A) → All P xs → All P (sort_by before xs)
  unfolding sort_by
  All-sort_by before [] h = tt
  All-sort_by before (x ∷ rest) h =
      All-insert_by before x (sort_by before rest) h.0 (All-sort_by before rest h.1)

  pub All-filter_of : (test : A → Bool) (xs : List A) → All P xs → All P (filter test xs)
  All-filter_of test [] h = tt
  All-filter_of test (x ∷ xs) h = elim (Bool-cases (test x)) [
    | inl q ↦ rw q (h.0, All-filter_of test xs h.1)
    | inr q ↦ rw q (All-filter_of test xs h.1)
  ]

  -- A property of all that is sorted is one of all that there was.
  All-unsorted_by :
      (before : A → A → Bool) (x : A) (xs : List A) → All P (insert_by before x xs) → P x × All P xs
  unfolding insert_by
  All-unsorted_by before x [] h = h
  All-unsorted_by before x (y ∷ rest) h = elim (Bool-cases (before x y)) [
    | inl q ↦ subst (λ b. All P (if b then x ∷ y ∷ rest else y ∷ insert_by before x rest)) q h
    | inr q ↦
        let k = subst (λ b. All P (if b then x ∷ y ∷ rest else y ∷ insert_by before x rest)) q h in
        let (p, later) = All-unsorted_by before x rest k.1 in (p, (k.0, later))
  ]

  pub All-unsorted : (before : A → A → Bool) (xs : List A) → All P (sort_by before xs) → All P xs
  unfolding sort_by
  All-unsorted before [] h = tt
  All-unsorted before (x ∷ rest) h =
      let (p, later) = All-unsorted_by before x (sort_by before rest) h in
      (p, All-unsorted before rest later)

module _ {ℓ} {A : Type ℓ} (before : A → A → Bool) where
  length-insert_by : (x : A) (xs : List A) → length (insert_by before x xs) ≡ length (x ∷ xs)
  unfolding insert_by
  length-insert_by x [] = refl
  length-insert_by x (y ∷ rest) = elim (Bool-cases (before x y)) [
    | inl q ↦ rw q refl
    | inr q ↦ rw q (omega (arith, length-insert_by x rest))
  ]

  pub length-sort_by : (xs : List A) → length (sort_by before xs) ≡ length xs
  unfolding sort_by
  length-sort_by [] = refl
  length-sort_by (x ∷ rest) =
      omega (arith, length-insert_by x (sort_by before rest), length-sort_by rest)
