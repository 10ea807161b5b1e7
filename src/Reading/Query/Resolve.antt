-- ===== src/Reading/Query/Resolve.antt =====
-- What an article's read state is, and that the narrowed query answers it.
use daily_firehose.Common.{
  ℕ, ◌≤◌, ◌≡◌, refl, ◌∙◌, ap, Bool, true, false, not, ◌&&◌, ◌||◌, Option, none, some, List, [], ◌∷◌,
  filter, any, ◌==◌, if◌then◌else◌, All, All-weaken, All-both, Bool-cases, Option-cases, inl, inr,
  arith,
}
use daily_firehose.Refresh.Feed.{Article}
use daily_firehose.Reading.Row.{ArticleReadState, BulkReadMarker, ReadStore, is_feed_scope}
use daily_firehose.Reading.Query.{
  bounds, widen, names_feed, on_or_before, on_or_after, has_state, same, explicit_state,
  is_candidate, covering_markers, covers, bulk_read, read_predicate,
}

abbrev pub is_state_of : ℕ → Article → ArticleReadState → Bool
is_state_of user a s = (s.user == user) && (s.article == a.id)

-- The explicit state of an article, if its reader has set one.
abbrev pub state_of : ℕ → Article → List ArticleReadState → Option Bool
state_of user a [] = none
state_of user a (s ∷ rest) = if is_state_of user a s then some s.is_read else state_of user a rest

abbrev pub or_marked : Option Bool → Bool → Bool
or_marked (some explicit) marked = explicit
or_marked none marked = marked

-- The read state: the explicit one, or else whether any marker of the reader covers the article.
abbrev pub is_read_by : (ℕ → ℕ) → ℕ → ReadStore → Article → Bool
is_read_by local_date user store a =
    or_marked (state_of user a store.read_states)
      (any (λ m. (m.user == user) && covers local_date a m) store.markers)

-- `unique_article_read_state`
abbrev pub UniqueStates : List ArticleReadState → Type 0
UniqueStates [] = Unit
UniqueStates (s ∷ rest) =
    All (λ t. ((t.user == s.user) && (t.article == s.article)) ≡ false) rest × UniqueStates rest

is_set_to : Bool → Option Bool → Bool
is_set_to b none = false
is_set_to b (some c) = same c b

no_other :
    (user : ℕ) (a : Article) (b : Bool) (s : ArticleReadState) (rest : List ArticleReadState)
    → is_state_of user a s ≡ true
    → All (λ t. ((t.user == s.user) && (t.article == s.article)) ≡ false) rest
    → any (has_state user b a) rest ≡ false
no_other user a b s [] h k = refl
no_other user a b s (t ∷ rest) h k = ground (arith, k.0, no_other user a b s rest h k.1)

states-state_of :
    (user : ℕ) (a : Article) (b : Bool) (states : List ArticleReadState)
    → UniqueStates states
    → any (has_state user b a) states ≡ is_set_to b (state_of user a states)
unfolding is_set_to
states-state_of user a b [] h = refl
states-state_of user a b (s ∷ rest) h = elim (Bool-cases (is_state_of user a s)) [
  | inl q ↦ rw q (ground (arith, no_other user a b s rest q h.0))
  | inr q ↦ rw q (ground (arith, states-state_of user a b rest h.1))
]

any-filter {ℓ} :
    {A : Type ℓ} (p q : A → Bool) (xs : List A) → any p (filter q xs) ≡ any (λ x. q x && p x) xs
any-filter p q [] = refl
any-filter p q (x ∷ xs) = ground (arith, any-filter p q xs)

any-same {ℓ} :
    {A : Type ℓ} (p q : A → Bool) (xs : List A) → ((x : A) → p x ≡ q x) → any p xs ≡ any q xs
any-same p q [] h = refl
any-same p q (x ∷ xs) h = rw (h x, any-same p q xs h) refl

abbrev Within : ℕ × ℕ → Article → Type 0
Within b a = (b.0 ≤ a.fetched_at) × (a.fetched_at ≤ b.1)

widen-Within :
    (t : ℕ) (c : Option (ℕ × ℕ)) (b : ℕ × ℕ)
    → widen t c ≡ some b
    → (b.0 ≤ t) × (t ≤ b.1) × ((d : ℕ × ℕ) → c ≡ some d → (b.0 ≤ d.0) × (d.1 ≤ b.1))
widen-Within t none b h = (ground arith, ground arith, λ d k. ground arith)
widen-Within t (some c) b h = (ground arith, ground arith, λ d k. (ground arith, ground arith))

bounds-none {κ} :
    (P : Article → Type κ) (articles : List Article) → bounds articles ≡ none → All P articles
unfolding bounds
bounds-none P [] h = tt
bounds-none P (a ∷ rest) h = elim (Option-cases (bounds rest)) [
  | inl q ↦ ground (arith, q, h)
  | inr (c, q) ↦ ground (arith, q, h)
]

bounds-Within :
    (articles : List Article) (b : ℕ × ℕ) → bounds articles ≡ some b → All (Within b) articles
unfolding bounds
bounds-Within [] b h = tt
bounds-Within (a ∷ rest) b h =
    let (low, high, inner) = widen-Within a.fetched_at (bounds rest) b h in
    elim (Option-cases (bounds rest)) [
      | inl q ↦ ((low, high), bounds-none (Within b) rest q)
      | inr (c, q) ↦
          let outer = inner c q in
          (
            (low, high),
            All-weaken (Within c) (Within b) rest (λ x w. (omega arith, omega arith))
                (bounds-Within rest c q),
          )
    ]

abbrev Represented : List Article → Article → Type 0
Represented articles a = (f : Option ℕ) → names_feed f a ≡ true → any (names_feed f) articles ≡ true

All-Represented : (articles : List Article) → All (Represented articles) articles
All-Represented [] = tt
All-Represented (a ∷ rest) = (
  λ f h. ground (arith, h),
  All-weaken (Represented rest) (Represented (a ∷ rest)) rest (λ x r f h. ground (arith, r f h))
      (All-Represented rest),
)

on_or_before-le :
    (s : Option ℕ) (d e : ℕ) → d ≤ e → on_or_before s d ≡ true → on_or_before s e ≡ true
on_or_before-le none d e h k = k
on_or_before-le (some t) d e h k = ground arith

on_or_after-le : (s : Option ℕ) (d e : ℕ) → d ≤ e → on_or_after s e ≡ true → on_or_after s d ≡ true
on_or_after-le none d e h k = k
on_or_after-le (some t) d e h k = ground arith

-- An explicit state wins over every marker.
explicit_first :
    (explicit : Option Bool) (marked : Bool)
    → ((is_set_to true explicit || marked) && not (is_set_to false explicit))
      ≡ or_marked explicit marked
unfolding is_set_to
explicit_first none marked = ground arith
explicit_first (some explicit) marked = ground arith

module _ (local_date : ℕ → ℕ) (never_back : (s t : ℕ) → s ≤ t → local_date s ≤ local_date t)
    (user : ℕ) (store : ReadStore) where
  covers-is_candidate :
      (articles : List Article) (b : ℕ × ℕ) (a : Article) (m : BulkReadMarker)
      → Within b a
      → Represented articles a
      → (is_candidate local_date user articles (some b) m && covers local_date a m)
        ≡ ((m.user == user) && covers local_date a m)
  unfolding covers
  covers-is_candidate articles b a m within represented =
      let low = never_back b.0 a.fetched_at within.0 in
      let high = never_back a.fetched_at b.1 within.1 in
      let starts = on_or_before-le m.period_start (local_date a.fetched_at) (local_date b.1) high in
      let ends = on_or_after-le m.period_end (local_date b.0) (local_date a.fetched_at) low in
      let named = represented m.feed in
      elim (Bool-cases (is_feed_scope m.scope)) [
        | inl q ↦ ground (arith, q, named, within)
        | inr q ↦ ground (arith, q, starts, ends, within)
      ]

  bulk_read-covers :
      (articles : List Article)
      → All
          (λ a.
            bulk_read local_date user articles store a
            ≡ any (λ m. (m.user == user) && covers local_date a m) store.markers)
          articles
  unfolding bulk_read covering_markers
  bulk_read-covers articles = elim (Option-cases (bounds articles)) [
    | inl q ↦ bounds-none _ articles q
    | inr (b, q) ↦
        All-both (Within b) (Represented articles)
          (λ a.
            bulk_read local_date user articles store a
            ≡ any (λ m. (m.user == user) && covers local_date a m) store.markers)
          articles
          (λ a within represented.
            any-filter (covers local_date a)
              (is_candidate local_date user articles (bounds articles)) store.markers
            ∙ any-same _ _ store.markers
                (λ m. rw q (covers-is_candidate articles b a m within represented)))
          (bounds-Within articles b q) (All-Represented articles)
  ]

  -- For each article on screen the read test, which examines only the markers that the query could
  -- not rule out, answers the read state: the state that the reader has set, or else whether any
  -- marker of the reader covers the article. Dates never run backwards here, and each reader has
  -- one state at most for an article.
  pub read_predicate-is_read_by :
      (articles : List Article)
      → UniqueStates store.read_states
      → All
          (λ a.
            read_predicate local_date user articles store a ≡ is_read_by local_date user store a)
          articles
  unfolding read_predicate explicit_state is_set_to
  read_predicate-is_read_by articles unique =
      All-weaken _ _ articles
        (λ a marked.
          let is_set = states-state_of user a true store.read_states unique in
          let is_unset = states-state_of user a false store.read_states unique in
          let explicit = state_of user a store.read_states in
          rw (is_set, is_unset)
            (explicit_first explicit (bulk_read local_date user articles store a)
              ∙ ap (or_marked explicit) marked))
        (bulk_read-covers articles)
