-- ===== src/Refresh/Apply/Writes.antt =====
-- Applying a plan never meets a unique constraint, and leaves every planned write in the table.
use mathlib.Core.Path.{subst}
use daily_firehose.Common.{
  ℕ, ◌+◌, ◌<◌, ◌≡◌, refl, true, Option, none, some, List, [], ◌∷◌, any, arith, All, Bool-cases, inl,
  inr, ◌==◌, ==_iff, str_eq, All-both, false, ◌⊎◌, ok, err, >>=-eq-ok, ◌&&◌, length,
}
use daily_firehose.Refresh.Feed.{Article}
use daily_firehose.Refresh.Fence.{data_error}
use daily_firehose.Refresh.Plan.{ArticleWrite}
use daily_firehose.Refresh.Plan.Planned.{IsThere, Fits, Apart, OtherArticle, Planned}
use daily_firehose.Refresh.Apply.{
  ArticleTable, is_too_long, apply_write, counted, apply_writes, apply_article_reconciliation,
}
use daily_firehose.Refresh.Apply.Rows.{
  Below, HoldsAt, Misses, key_of, write-Step, write-too_long, write_keeps,
}

-- The table has a row with the write's guid and URL.
abbrev pub Placed : List Article → ArticleWrite → Type 0
Placed rows w = any (λ r. str_eq r.guid w.guid && str_eq r.url w.url) rows ≡ true

HoldsAt-Placed : (k : ℕ) (w : ArticleWrite) (rows : List Article) → HoldsAt k w rows → Placed rows w
HoldsAt-Placed k w [] h = cc
HoldsAt-Placed k w (r ∷ rest) h = ground (arith, HoldsAt-Placed k w rest)

-- the key of a row that is there
there_below :
    (o : Option Article) (rows : List Article) (k : ℕ)
    → All (λ r. r.id < k) rows
    → IsThere o rows
    → Misses k o
there_below none rows k h t = tt
there_below (some b) [] k h t = cc
there_below (some b) (r ∷ rest) k h t = elim (Bool-cases (r.id == b.id)) [
  | inl q ↦ λ e. omega (arith, (==_iff r.id b.id).0 q, h.0)
  | inr q ↦ there_below (some b) rest k h.1 (rw q at t)
]

other-Misses : (a : Article) (o : Option Article) → OtherArticle (some a) o → Misses a.id o
other-Misses a none h = tt
other-Misses a (some b) h = h

key_missed :
    (w later : ArticleWrite) (o : Option Article) (table : ArticleTable)
    → w.article ≡ o
    → Apart w later
    → Below table
    → Fits table.rows later
    → Misses (key_of o table) later.article
key_missed w later none table same apart below fits =
    there_below later.article table.rows table.next_id below fits.1
key_missed w later (some a) table same apart below fits =
    other-Misses a later.article (subst (λ o. OtherArticle o later.article) same apart.articles)

none_too_long :
    (w : ArticleWrite) (rest : List ArticleWrite)
    → any is_too_long (w ∷ rest) ≡ false
    → (is_too_long w ≡ false) × (any is_too_long rest ≡ false)
none_too_long w rest h = ground (arith, h)

module _ (feed : ℕ) (clock : ℕ → ℕ) where
  apply_keeps :
      (k : ℕ) (v : ArticleWrite) (writes : List ArticleWrite) (done : ℕ × ℕ) (table : ArticleTable)
      (result : (ℕ × ℕ) × ArticleTable)
      → All (λ w. Misses k w.article) writes
      → apply_writes feed clock writes done table ≡ ok result
      → HoldsAt k v table.rows
      → HoldsAt k v result.1.rows
  unfolding apply_writes
  apply_keeps k v [] done table result miss e h =
      let same : (done, table) ≡ result = cc in
      subst (λ (r : (ℕ × ℕ) × ArticleTable). HoldsAt k v r.1.rows) same h
  apply_keeps k v (w ∷ rest) done table result miss e h =
      let (after, wrote, more) =
        >>=-eq-ok (apply_write feed (clock w.position) w.article w table)
          (apply_writes feed clock rest (counted w.article done)) e in
      apply_keeps k v rest (counted w.article done) after result miss.1 more
        (write_keeps feed (clock w.position) k v w w.article table after miss.0 wrote h)

  counted_sum :
      (o : Option Article) (done : ℕ × ℕ)
      → (counted o done).0 + (counted o done).1 ≡ done.0 + done.1 + 1
  counted_sum none done = omega arith
  counted_sum (some a) done = omega arith

  apply_writes-Placed :
      (writes : List ArticleWrite) (done : ℕ × ℕ) (table : ArticleTable)
      → Planned table.rows writes
      → Below table
      → any is_too_long writes ≡ false
      → (result : (ℕ × ℕ) × ArticleTable) × (apply_writes feed clock writes done table ≡ ok result)
        × All (Placed result.1.rows) writes
        × (result.0.0 + result.0.1 ≡ done.0 + done.1 + length writes)
  unfolding apply_writes
  apply_writes-Placed [] done table planned below short = ((done, table), refl, tt, omega arith)
  apply_writes-Placed (w ∷ rest) done table (fits, apart) below short =
      let (here, others) = none_too_long w rest short in
      let (after, wrote, step) =
        write-Step feed (clock w.position) w w.article table here fits.0.0 fits.0.1 in
      let fits_after =
        All-both (Apart w) (Fits table.rows) (Fits after.rows) rest step.fits apart.0 fits.1 in
      let (result, e, placed, counts) =
        apply_writes-Placed rest (counted w.article done) after (fits_after, apart.1)
          (step.below below) others in
      let missed =
        All-both (Apart w) (Fits table.rows)
          (λ later. Misses (key_of w.article table) later.article) rest
          (λ later p q. key_missed w later w.article table refl p below q) apart.0 fits.1 in
      (
        result,
        rw (wrote, e),
        (
          HoldsAt-Placed (key_of w.article table) w result.1.rows (
              apply_keeps (key_of w.article table) w rest (counted w.article done) after result
                missed e step.holds),
          placed,
        ),
        omega (arith, counts, counted_sum w.article done),
      )

  -- The writes before the first that does not fit its columns go through.
  apply_writes-too_long :
      (writes : List ArticleWrite) (done : ℕ × ℕ) (table : ArticleTable)
      → Planned table.rows writes
      → Below table
      → any is_too_long writes ≡ true
      → apply_writes feed clock writes done table ≡ err data_error
  unfolding apply_writes
  apply_writes-too_long [] done table planned below long = cc
  apply_writes-too_long (w ∷ rest) done table (fits, apart) below long =
      elim (Bool-cases (is_too_long w)) [
        | inl here ↦ rw (write-too_long feed (clock w.position) w w.article table here) refl
        | inr here ↦
            let (after, wrote, step) =
              write-Step feed (clock w.position) w w.article table here fits.0.0 fits.0.1 in
            let fits_after =
              All-both (Apart w) (Fits table.rows) (Fits after.rows) rest step.fits apart.0
                fits.1 in
            rw wrote (
              apply_writes-too_long rest (counted w.article done) after (fits_after, apart.1)
                (step.below below) (rw here at long))
      ]

-- A plan made from the table's own rows meets no unique constraint and no missing row, whatever the
-- order of its writes. If every text fits its column it is applied without an error: afterwards the
-- table holds a row with the guid and the URL of every write, and the rows created and updated
-- number the writes. If a title, a URL, a guid or an author does not, the database's `DataError` is
-- raised.
pub apply-Placed :
    (feed : ℕ) (clock : ℕ → ℕ) (writes : List ArticleWrite) (table : ArticleTable)
    → Planned table.rows writes
    → Below table
    → ((any is_too_long writes ≡ true)
        × (apply_article_reconciliation feed clock writes table ≡ err data_error))
      ⊎ ((any is_too_long writes ≡ false)
          × ((result : (ℕ × ℕ) × ArticleTable) × (apply_article_reconciliation feed clock writes
                  table
                ≡ ok result)
              × All (Placed result.1.rows) writes
              × (result.0.0 + result.0.1 ≡ length writes)))
unfolding apply_article_reconciliation
apply-Placed feed clock writes table planned below = elim (Bool-cases (any is_too_long writes)) [
  | inl long ↦ inl (long, apply_writes-too_long feed clock writes (0, 0) table planned below long)
  | inr short ↦
      let (result, e, placed, counts) =
        apply_writes-Placed feed clock writes (0, 0) table planned below short in
      inr (short, (result, e, placed, omega (arith, counts)))
]
