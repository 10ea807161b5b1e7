-- ===== src/Delivery/Attempt/Constraints.antt =====
-- Every attempt leaves rows that the table's check constraints accept, and mirrors its outcome.
use daily_firehose.Common.{ℕ, ◌≡◌, true, Result, ok, err, All, All-map, All-map_any, arith}
use daily_firehose.Delivery.Row.{Article, SavedArticle, LinkdingDelivery, Store, meets_constraints}
use daily_firehose.Delivery.Json.{Fields}
use daily_firehose.Delivery.Remote.{Exc, Env}
use daily_firehose.Delivery.Exchange.{deliver_bookmark}
use daily_firehose.Delivery.Attempt.{
  Settings, is_succeeded, begin_attempt, record_failure, record_success, record_outcome, save_row,
  project_row, persist, attempt_linkding_delivery,
}

abbrev pub Accepted : LinkdingDelivery → Type 0
Accepted d = meets_constraints d ≡ true

-- The saved row of this delivery shows the delivery's state and error.
abbrev pub Mirrors : LinkdingDelivery → SavedArticle → Type 0
Mirrors d saved =
    saved.id ≡ d.saved_article
    → (saved.linkding_saved ≡ is_succeeded d.state) × (saved.linkding_error ≡ d.error_message)

record_failure-Accepted :
    (max_attempts now : ℕ) (e : Exc) (d : LinkdingDelivery)
    → Accepted (record_failure max_attempts now e d)
unfolding record_failure
record_failure-Accepted max_attempts now e d = ground arith

save_row-Accepted :
    (d row : LinkdingDelivery) → Accepted d → Accepted row → Accepted (save_row d row)
unfolding save_row
save_row-Accepted d row h k = ground arith

project_row-Mirrors :
    (now : ℕ) (d : LinkdingDelivery) (saved : SavedArticle) → Mirrors d (project_row now d saved)
unfolding project_row
project_row-Mirrors now d saved = ground arith

module _ {W : Type 0} (env : Env W) (settings : Settings) where
  record_outcome-Accepted :
      (now : ℕ) (outcome : Result Exc Fields) (d : LinkdingDelivery)
      → Accepted (record_outcome env settings now outcome d)
  unfolding record_outcome record_success
  record_outcome-Accepted now (ok bookmark) d = ground arith
  record_outcome-Accepted now (err e) d = record_failure-Accepted settings.max_attempts now e d

  -- What `persist` writes is accepted, where the object that it saves is.
  persist-Accepted :
      (d : LinkdingDelivery) (store : Store) (w : W)
      → Accepted d
      → All Accepted store.deliveries
      → Accepted (persist env settings d store w).0.0
        × All Accepted (persist env settings d store w).0.1.deliveries
        × All
            (Mirrors (persist env settings d store w).0.0)
            (persist env settings d store w).0.1.saved_articles
  unfolding persist
  persist-Accepted d store w h rows =
      let (saved_at, w1) = env.now w in
      let (projected_at, w2) = env.now w1 in
      let d' : LinkdingDelivery = record d { updated_at = saved_at } in
      (
        h,
        All-map Accepted Accepted (save_row d') store.deliveries (λ row. save_row-Accepted d' row h)
            rows,
        All-map_any (Mirrors d') (project_row projected_at d') store.saved_articles
            (project_row-Mirrors projected_at d'),
      )

  -- An attempt, whatever the environment answers, leaves the delivery object and every row of the
  -- table within both check constraints, if every row was. Every saved article of that delivery
  -- then shows whether it succeeded and its error message.
  pub attempt-Accepted :
      (article : Article) (d : LinkdingDelivery) (store : Store) (w : W)
      → All Accepted store.deliveries
      → Accepted (attempt_linkding_delivery env settings article d store w).0.0
        × All Accepted (attempt_linkding_delivery env settings article d store w).0.1.deliveries
        × All
            (Mirrors (attempt_linkding_delivery env settings article d store w).0.0)
            (attempt_linkding_delivery env settings article d store w).0.1.saved_articles
  unfolding attempt_linkding_delivery
  attempt-Accepted article d store w rows =
      let (now, w1) = env.now w in
      let begun = begin_attempt now d in
      let (outcome, w2) = deliver_bookmark env settings.base_url settings.token article begun w1 in
      persist-Accepted (record_outcome env settings now outcome begun) store w2
        (record_outcome-Accepted now outcome begun) rows
