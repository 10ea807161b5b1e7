-- ===== src/Refresh/Apply/Rows.antt =====
-- What one write does to the table.
use mathlib.Core.Path.{subst}
use daily_firehose.Common.{
  ℕ, ◌+◌, ◌<◌, ◌≤◌, ◌≡◌, ◌≢◌, refl, ap, ◌∙◌, Bool, true, false, Option, none, some, List, [], ◌∷◌,
  ◌++◌, map, any, arith, All, Bool-cases, inl, inr, ◌⊎◌, ◌==◌, ==-self, str_eq, eq_iff,
  if◌then◌else◌, All-weaken, All-map, ok, err, ◌&&◌, String,
}
use daily_firehose.Refresh.Feed.{Article}
use daily_firehose.Refresh.Fence.{data_error}
use daily_firehose.Refresh.Plan.{ArticleWrite}
use daily_firehose.Refresh.Plan.Lookup.{str_ne}
use daily_firehose.Refresh.Plan.Planned.{is_own, Free, IsThere, Fits, Apart}
use daily_firehose.Refresh.Apply.{
  ArticleTable, is_too_long, clashes, written, created, update_article, create_article, apply_write,
}

module _ {ℓ} {A : Type ℓ} where
  any-map_same :
      (test : A → Bool) (f : A → A) (xs : List A)
      → ((x : A) → test (f x) ≡ test x)
      → any test (map f xs) ≡ any test xs
  any-map_same test f [] same = refl
  any-map_same test f (x ∷ xs) same = rw (same x, any-map_same test f xs same)

  any-append_left :
      (test : A → Bool) (xs ys : List A) → any test xs ≡ true → any test (xs ++ ys) ≡ true
  any-append_left test [] ys h = cc
  any-append_left test (x ∷ xs) ys h = ground (arith, any-append_left test xs ys)

  any-append_last :
      (test : A → Bool) (xs : List A) (y : A) → test y ≡ true → any test (xs ++ y ∷ []) ≡ true
  any-append_last test [] y h = rw h
  any-append_last test (x ∷ xs) y h = ground (arith, any-append_last test xs y h)

  All-append_last {κ} :
      (P : A → Type κ) (xs : List A) (y : A) → All P xs → P y → All P (xs ++ y ∷ [])
  All-append_last P [] y h k = (k, tt)
  All-append_last P (x ∷ xs) y h k = (h.0, All-append_last P xs y h.1 k)

-- no row clashes with a write that is free of all of them
Free-clashes :
    (id : ℕ) (w : ArticleWrite) (r : Article)
    → (((r.id == id) ≡ true) ⊎ ((r.guid ≢ w.guid) × (r.url ≢ w.url)))
    → clashes id w.guid w.url r ≡ false
unfolding clashes
Free-clashes id w r (inl own) = rw own
Free-clashes id w r (inr (guids, urls)) =
    rw (str_ne r.guid w.guid guids, str_ne r.url w.url urls) (ground arith)

none_clashes :
    (id : ℕ) (w : ArticleWrite) (rows : List Article)
    → All (λ r. ((r.id == id) ≡ true) ⊎ ((r.guid ≢ w.guid) × (r.url ≢ w.url))) rows
    → any (clashes id w.guid w.url) rows ≡ false
none_clashes id w [] h = refl
none_clashes id w (r ∷ rest) h = rw (Free-clashes id w r h.0) (none_clashes id w rest h.1)

abbrev pub overwrite : ℕ → ArticleWrite → Article → Article → Article
overwrite now w a r = if r.id == a.id then written now w r else r

id-overwrite : (now : ℕ) (w : ArticleWrite) (a r : Article) → (overwrite now w a r).id ≡ r.id
unfolding written
id-overwrite now w a r = ground arith

is_own-id : (o : Option Article) (r s : Article) → r.id ≡ s.id → is_own o r ≡ is_own o s
is_own-id none r s e = refl
is_own-id (some a) r s e = ap (λ i. i == a.id) e

-- a later write still fits after an update
overwrite-Free :
    (now : ℕ) (w later : ArticleWrite) (a r : Article)
    → Apart w later
    → Free later r
    → Free later (overwrite now w a r)
unfolding written
overwrite-Free now w later a r apart free = elim (Bool-cases (r.id == a.id)) [
  | inl q ↦ rw q (inr (apart.guids, apart.urls))
  | inr q ↦ rw q free
]

overwrite-IsThere :
    (now : ℕ) (w : ArticleWrite) (a : Article) (o : Option Article) (rows : List Article)
    → IsThere o rows
    → IsThere o (map (overwrite now w a) rows)
overwrite-IsThere now w a none rows h = tt
overwrite-IsThere now w a (some b) rows h =
    any-map_same (λ r. r.id == b.id) (overwrite now w a) rows
      (λ r. ap (λ i. i == b.id) (id-overwrite now w a r))
    ∙ h

append-IsThere :
    (o : Option Article) (rows : List Article) (r : Article)
    → IsThere o rows
    → IsThere o (rows ++ r ∷ [])
append-IsThere none rows r h = tt
append-IsThere (some b) rows r h = any-append_left (λ r. r.id == b.id) rows (r ∷ []) h

-- Every row's key is below the next key.
abbrev pub Below : ArticleTable → Type 0
Below table = All (λ r. r.id < table.next_id) table.rows

-- The row with this key has the write's guid and URL.
abbrev pub holds_at : ℕ → ArticleWrite → Article → Bool
holds_at k w r = r.id == k && (str_eq r.guid w.guid && str_eq r.url w.url)

abbrev pub HoldsAt : ℕ → ArticleWrite → List Article → Type 0
HoldsAt k w rows = any (holds_at k w) rows ≡ true

-- The write is for another row than the one with this key.
abbrev pub Misses : ℕ → Option Article → Type 0
Misses k none = Unit
Misses k (some b) = k ≢ b.id

str_eq_self : (s : String) → str_eq s s ≡ true
str_eq_self s = (eq_iff s s).1 refl

-- What one write does, where it fits: it raises nothing, and leaves a row that holds it.
pub record Step (w : ArticleWrite) (o : Option Article) (key : ℕ) (before after : ArticleTable)
    : Type 0 where
  pub fits : (later : ArticleWrite) → Apart w later → Fits before.rows later → Fits after.rows later
  pub holds : HoldsAt key w after.rows
  pub below : Below before → Below after
  pub grows : before.next_id ≤ after.next_id

abbrev pub key_of : Option Article → ArticleTable → ℕ
key_of none table = table.next_id
key_of (some a) table = a.id

-- the row that is updated holds the write
overwrite-HoldsAt :
    (now : ℕ) (w : ArticleWrite) (a : Article) (rows : List Article)
    → any (λ r. r.id == a.id) rows ≡ true
    → HoldsAt a.id w (map (overwrite now w a) rows)
unfolding written
overwrite-HoldsAt now w a [] h = cc
overwrite-HoldsAt now w a (r ∷ rest) h = elim (Bool-cases (r.id == a.id)) [
  | inl q ↦ rw q (rw (q, str_eq_self w.guid, str_eq_self w.url))
  | inr q ↦ rw q (rw q (overwrite-HoldsAt now w a rest (rw q at h)))
]

Below-overwrite :
    (now : ℕ) (w : ArticleWrite) (a : Article) (table : ArticleTable)
    → Below table
    → All (λ r. r.id < table.next_id) (map (overwrite now w a) table.rows)
Below-overwrite now w a table h =
    All-map (λ r. r.id < table.next_id) (λ r. r.id < table.next_id) (overwrite now w a) table.rows
      (λ r p. rw (id-overwrite now w a r) p) h

update-Step :
    (now : ℕ) (w : ArticleWrite) (a : Article) (table : ArticleTable)
    → is_too_long w ≡ false
    → All (λ r. (is_own (some a) r ≡ true) ⊎ ((r.guid ≢ w.guid) × (r.url ≢ w.url))) table.rows
    → IsThere (some a) table.rows
    → (after : ArticleTable) × (update_article now w a table ≡ ok after)
      × Step w (some a) a.id table after
unfolding update_article
update-Step now w a table short free there = (
  record table { rows = map (overwrite now w a) table.rows },
  rw (short, none_clashes a.id w table.rows free, there),
  record {
    fits = λ later apart h. (
      All-map (Free later) (Free later) (overwrite now w a) table.rows
          (λ r. overwrite-Free now w later a r apart) h.0,
      overwrite-IsThere now w a later.article table.rows h.1,
    );
    holds = overwrite-HoldsAt now w a table.rows there;
    below = Below-overwrite now w a table;
    grows = omega arith;
  },
)

create-Step :
    (feed now : ℕ) (w : ArticleWrite) (table : ArticleTable)
    → is_too_long w ≡ false
    → All (λ r. (is_own none r ≡ true) ⊎ ((r.guid ≢ w.guid) × (r.url ≢ w.url))) table.rows
    → (after : ArticleTable) × (create_article feed now w table ≡ ok after)
      × Step w none table.next_id table after
unfolding create_article created
create-Step feed now w table short free =
    let row : Article = created table.next_id feed now w in
    let apart_rows =
      All-weaken (λ r. (is_own none r ≡ true) ⊎ ((r.guid ≢ w.guid) × (r.url ≢ w.url)))
        (λ r. ((r.id == table.next_id) ≡ true) ⊎ ((r.guid ≢ w.guid) × (r.url ≢ w.url))) table.rows
        (λ r h. elim h [ inl q ↦ cc | inr p ↦ inr p ]) free in
    (
      record { rows = table.rows ++ row ∷ []; next_id = table.next_id + 1 },
      rw (short, none_clashes table.next_id w table.rows apart_rows),
      record {
        fits = λ later apart h. (
          All-append_last (Free later) table.rows row h.0 (inr (apart.guids, apart.urls)),
          append-IsThere later.article table.rows row h.1,
        );
        holds =
            any-append_last (holds_at table.next_id w) table.rows row
              (rw (==-self table.next_id, str_eq_self w.guid, str_eq_self w.url));
        below = λ h.
            All-append_last (λ r. r.id < table.next_id + 1) table.rows row
              (All-weaken (λ r. r.id < table.next_id) (λ r. r.id < table.next_id + 1) table.rows
                (λ r p. omega arith) h)
              (omega arith);
        grows = omega arith;
      },
    )

pub write-Step :
    (feed now : ℕ) (w : ArticleWrite) (o : Option Article) (table : ArticleTable)
    → is_too_long w ≡ false
    → All (λ r. (is_own o r ≡ true) ⊎ ((r.guid ≢ w.guid) × (r.url ≢ w.url))) table.rows
    → IsThere o table.rows
    → (after : ArticleTable) × (apply_write feed now o w table ≡ ok after)
      × Step w o (key_of o table) table after
write-Step feed now w none table short free there = create-Step feed now w table short free
write-Step feed now w (some a) table short free there = update-Step now w a table short free there

-- A write with a text that is longer than its column raises.
pub write-too_long :
    (feed now : ℕ) (w : ArticleWrite) (o : Option Article) (table : ArticleTable)
    → is_too_long w ≡ true
    → apply_write feed now o w table ≡ err data_error
unfolding create_article update_article
write-too_long feed now w none table long = rw long refl
write-too_long feed now w (some a) table long = rw long refl

-- A write that goes through has no such text.
write-short :
    (feed now : ℕ) (w : ArticleWrite) (o : Option Article) (table after : ArticleTable)
    → apply_write feed now o w table ≡ ok after
    → is_too_long w ≡ false
write-short feed now w o table after e = elim (Bool-cases (is_too_long w)) [
  | inl q ↦ let raised = write-too_long feed now w o table q in cc
  | inr q ↦ q
]

other_key : (i j k : ℕ) → (i == j) ≡ true → k ≢ j → (i == k) ≡ false
other_key i j k h n = ground arith

-- a row that another write is not for keeps its guid and its URL
holds_at-overwrite :
    (now k : ℕ) (v w : ArticleWrite) (a r : Article)
    → k ≢ a.id
    → holds_at k v (overwrite now w a r) ≡ holds_at k v r
unfolding written
holds_at-overwrite now k v w a r apart = elim (Bool-cases (r.id == a.id)) [
  | inl q ↦ rw (q, other_key r.id a.id k q apart)
  | inr q ↦ rw q
]

pub write_keeps :
    (feed now k : ℕ) (v w : ArticleWrite) (o : Option Article) (table after : ArticleTable)
    → Misses k o
    → apply_write feed now o w table ≡ ok after
    → HoldsAt k v table.rows
    → HoldsAt k v after.rows
unfolding create_article update_article
write_keeps feed now k v w none table after miss e h =
    let short = write-short feed now w none table after e in
    elim (Bool-cases (any (clashes table.next_id w.guid w.url) table.rows)) [
      | inl q ↦ cc (rw (short, q) at e)
      | inr q ↦
          let row : Article = created table.next_id feed now w in
          let next : ArticleTable = record {
            rows = table.rows ++ row ∷ [];
            next_id = table.next_id + 1;
          } in
          let same : next ≡ after = cc (rw (short, q) at e) in
          subst (λ (t : ArticleTable). HoldsAt k v t.rows) same
            (any-append_left (holds_at k v) table.rows (row ∷ []) h)
    ]
write_keeps feed now k v w (some a) table after miss e h =
    let short = write-short feed now w (some a) table after e in
    elim (Bool-cases (any (clashes a.id w.guid w.url) table.rows)) [
      | inl q ↦ cc (rw (short, q) at e)
      | inr q ↦ elim (Bool-cases (any (λ r. r.id == a.id) table.rows)) [
        | inr p ↦ cc (rw (short, q, p) at e)
        | inl p ↦
            let next : ArticleTable = record table { rows = map (overwrite now w a) table.rows } in
            let same : next ≡ after = cc (rw (short, q, p) at e) in
            subst (λ (t : ArticleTable). HoldsAt k v t.rows) same
              (any-map_same (holds_at k v) (overwrite now w a) table.rows
                  (λ r. holds_at-overwrite now k v w a r miss)
                ∙ h)
      ]
    ]
