-- ===== src/Delivery/Save/Rows.antt =====
-- What `save_article` leaves in the tables.
use daily_firehose.Common.{
  ℕ, ◌+◌, ◌≤◌, ◌≡◌, refl, ◌∙◌, Bool, true, false, List, [], ◌∷◌, count, count-map, arith, ◌==◌,
  ==_iff, ==-self, Bool-cases, inl, inr, Result, ok, err,
}
use daily_firehose.Delivery.Row.{Article, SavedArticle, LinkdingDelivery, Store}
use daily_firehose.Delivery.Json.{Fields}
use daily_firehose.Delivery.Remote.{Exc, Env}
use daily_firehose.Delivery.Exchange.{deliver_bookmark}
use daily_firehose.Delivery.Attempt.{
  Settings, is_succeeded, begin_attempt, record_failure, record_success, record_outcome, persist,
  save_row, project_row, attempt_linkding_delivery,
}
use daily_firehose.Delivery.Save.{
  save_not_allowed, is_newsletter, is_save_of, update_or_create, update_saved, create_saved,
  projected, requeue, create_delivery, record_intent, save_article,
}

module _ {ℓ} {A : Type ℓ} (fits : A → Bool) (update : A → A) (created : A)
    (kept : (x : A) → fits (update x) ≡ fits x) (made : fits created ≡ true) where
  update_or_create-fits :
      (rows : List A) → fits (update_or_create fits update created rows).1 ≡ true
  unfolding update_or_create
  update_or_create-fits [] = made
  update_or_create-fits (row ∷ rows) = elim (Bool-cases (fits row)) [
    | inl q ↦ rw q (kept row ∙ q)
    | inr q ↦ rw q (update_or_create-fits rows)
  ]

  count-update_or_create :
      (rows : List A)
      → count fits rows ≤ 1
      → count fits (update_or_create fits update created rows).0 ≡ 1
  unfolding update_or_create
  count-update_or_create [] h = rw made
  count-update_or_create (row ∷ rows) h = elim (Bool-cases (fits row)) [
    | inl q ↦ rw q (rw (kept row) (ground arith))
    | inr q ↦ rw q (rw q (omega (arith, count-update_or_create rows (ground arith))))
  ]

-- The deliveries of the saved article with this key.
abbrev pub deliveries_of : ℕ → Store → ℕ
deliveries_of saved store = count (λ d. d.saved_article == saved) store.deliveries

abbrev pub saves_of : ℕ → Article → Store → ℕ
saves_of user article store = count (is_save_of user article) store.saved_articles

-- No user has saved an article twice, and no saved article is delivered twice: the unique
-- constraints of the two tables.
pub record IsUnique (user : ℕ) (article : Article) (store : Store) : Type 0 where
  pub one_save : saves_of user article store ≤ 1
  pub one_delivery : (saved : ℕ) → deliveries_of saved store ≤ 1

-- The row that the transaction answers starts without attempts, found or new.
update_or_create-fresh :
    (fits : LinkdingDelivery → Bool) (next now : ℕ) (article : Article) (created : LinkdingDelivery)
    (rows : List LinkdingDelivery)
    → created.attempts ≡ 0
    → (update_or_create fits (requeue next now article) created rows).1.attempts ≡ 0
unfolding update_or_create
update_or_create-fresh fits next now article created [] h = h
update_or_create-fresh fits next now article created (row ∷ rows) h = elim (Bool-cases (fits row)) [
  | inl q ↦ rw q (unfold requeue in refl)
  | inr q ↦ rw q (update_or_create-fresh fits next now article created rows h)
]

module _ (now next later user : ℕ) (article : Article) (store : Store)
    (unique : IsUnique user article store) where
  record_intent-rows :
      let ((saved, delivery), store') = record_intent now next later user article store in
      (saves_of user article store' ≡ 1)
      × (is_save_of user article saved ≡ true)
      × (deliveries_of saved.id store' ≡ 1)
      × ((delivery.saved_article == saved.id) ≡ true)
      × (delivery.attempts ≡ 0)
  unfolding record_intent
  record_intent-rows =
      let saved_created = create_saved store.next_id now user article in
      let saved =
        (update_or_create (is_save_of user article) (update_saved now article) saved_created
          store.saved_articles).1 in
      let fits = λ (d : LinkdingDelivery). d.saved_article == saved.id in
      let created = create_delivery (store.next_id + 1) saved.id next later article in
      (
        count-update_or_create (is_save_of user article) (update_saved now article) saved_created
            (λ s. unfold update_saved in refl) (unfold create_saved in ground arith)
            store.saved_articles unique.one_save,
        update_or_create-fits (is_save_of user article) (update_saved now article) saved_created
            (λ s. unfold update_saved in refl) (unfold create_saved in ground arith)
            store.saved_articles,
        count-update_or_create fits (requeue next later article) created
            (λ d. unfold requeue in refl) (unfold create_delivery in ==-self saved.id)
            store.deliveries (unique.one_delivery saved.id),
        update_or_create-fits fits (requeue next later article) created
            (λ d. unfold requeue in refl) (unfold create_delivery in ==-self saved.id)
            store.deliveries,
        update_or_create-fresh fits next later article created store.deliveries
            (unfold create_delivery in refl),
      )

-- The attempt changes no key of a row.
save_row_keeps :
    (d : LinkdingDelivery) (key : ℕ) (row : LinkdingDelivery)
    → ((save_row d row).saved_article == key) ≡ (row.saved_article == key)
unfolding save_row
save_row_keeps d key row = ground arith

project_row_keeps :
    (now : ℕ) (d : LinkdingDelivery) (user : ℕ) (article : Article) (s : SavedArticle)
    → is_save_of user article (project_row now d s) ≡ is_save_of user article s
unfolding project_row
project_row_keeps now d user article s = elim (Bool-cases (s.id == d.saved_article)) [
  | inl q ↦ rw (q, project_row)
  | inr q ↦ rw (q, project_row)
]

module _ {W : Type 0} (env : Env W) (settings : Settings) where
  attempt_keeps :
      (user key : ℕ) (kept article : Article) (d : LinkdingDelivery) (store : Store) (w : W)
      → let store' = (attempt_linkding_delivery env settings article d store w).0.1 in
        (saves_of user kept store' ≡ saves_of user kept store)
        × (deliveries_of key store' ≡ deliveries_of key store)
  unfolding attempt_linkding_delivery persist
  attempt_keeps user key kept article d store w = (
    count-map (is_save_of user kept) (project_row _ _) store.saved_articles
        (project_row_keeps _ _ user kept),
    count-map (λ r. r.saved_article == key) (save_row _) store.deliveries (save_row_keeps _ key),
  )

  record_outcome_keys :
      (now : ℕ) (outcome : Result Exc Fields) (d : LinkdingDelivery)
      → let d' = record_outcome env settings now outcome d in
        (d'.saved_article ≡ d.saved_article) × (d'.attempts ≡ d.attempts)
  unfolding record_outcome record_failure record_success
  record_outcome_keys now (ok bookmark) d = (refl, refl)
  record_outcome_keys now (err e) d = ground arith

  attempt_row :
      (article : Article) (d : LinkdingDelivery) (store : Store) (w : W)
      → let d' = (attempt_linkding_delivery env settings article d store w).0.0 in
        (d'.saved_article ≡ d.saved_article) × (d'.attempts ≡ d.attempts + 1)
  unfolding attempt_linkding_delivery begin_attempt persist
  attempt_row article d store w =
      let (now, w1) = env.now w in
      let begun = begin_attempt now d in
      let (outcome, w2) = deliver_bookmark env settings.base_url settings.token article begun w1 in
      record_outcome_keys now outcome begun

  -- A newsletter article is refused, with no table, clock or network touched.
  pub save_article-newsletter :
      (user : ℕ) (article : Article) (store : Store) (w : W)
      → is_newsletter store article ≡ true
      → save_article env settings user article store w ≡ ((err save_not_allowed, store), w)
  unfolding save_article
  save_article-newsletter user article store w h = rw h

  -- Saving an article that is no newsletter answers a saved row of this user and article and its
  -- delivery, which has been attempted once, whatever attempts an earlier save had used up. The
  -- answered row shows the outcome of that attempt.
  -- The tables then hold exactly one such saved row and exactly one delivery of it, if their
  -- unique constraints held before.
  pub save_article-rows :
      (user : ℕ) (article : Article) (store : Store) (w : W)
      → IsUnique user article store
      → is_newsletter store article ≡ false
      → let ((result, store'), w') = save_article env settings user article store w in
        (saves_of user article store' ≡ 1)
        × ((saved : SavedArticle) × (delivery : LinkdingDelivery) × (result ≡ ok (saved, delivery))
            × (is_save_of user article saved ≡ true)
            × (deliveries_of saved.id store' ≡ 1)
            × (delivery.saved_article ≡ saved.id)
            × (delivery.attempts ≡ 1)
            × (saved.linkding_saved ≡ is_succeeded delivery.state)
            × (saved.linkding_error ≡ delivery.error_message))
  unfolding save_article projected
  save_article-rows user article store w unique plain =
      let (now, w1) = env.now w in
      let (next, w2) = env.now w1 in
      let (later, w3) = env.now w2 in
      let ((saved, delivery), store') = record_intent now next later user article store in
      let rows = record_intent-rows now next later user article store unique in
      let ((delivery', store''), w4) =
        attempt_linkding_delivery env settings article delivery store' w3 in
      let kept = attempt_keeps user saved.id article article delivery store' w3 in
      let row = attempt_row article delivery store' w3 in
      rw plain (
        kept.0 ∙ rows.0,
        (
          projected delivery' saved,
          delivery',
          refl,
          rows.1,
          kept.1 ∙ rows.2,
          row.0 ∙ (==_iff _ _).0 rows.3,
          row.1 ∙ omega (arith, rows.4),
          refl,
          refl,
        ),
      )
