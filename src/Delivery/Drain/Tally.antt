-- ===== src/Delivery/Drain/Tally.antt =====
-- That the drain keeps the table within its constraints.
use daily_firehose.Common.{ℕ, Option, List, [], ◌∷◌, arith, All, All-map, Bool-cases, inl, inr}
use daily_firehose.Delivery.Row.{Article, LinkdingDelivery, Store}
use daily_firehose.Delivery.Remote.{Env}
use daily_firehose.Delivery.Attempt.{Settings}
use daily_firehose.Delivery.Attempt.Constraints.{Accepted, attempt-Accepted}
use daily_firehose.Delivery.Drain.{
  DeliveryTally, no_deliveries, claimable, lease_row, claim_delivery, drain_one, drain_all,
  due_deliveries, deliver_pending_saved_articles,
}

lease_row-Accepted :
    (read : LinkdingDelivery) (now : ℕ) (row : LinkdingDelivery)
    → Accepted row
    → Accepted (lease_row read now row)
unfolding lease_row claimable
lease_row-Accepted read now row h = ground arith

claim-Accepted :
    (read : LinkdingDelivery) (now : ℕ) (store : Store)
    → All Accepted store.deliveries
    → All Accepted (claim_delivery read now store).1.deliveries
unfolding claim_delivery
claim-Accepted read now store h =
    All-map Accepted Accepted (lease_row read now) store.deliveries (lease_row-Accepted read now) h

module _ {W : Type 0} (env : Env W) (settings : Settings) (others : W → Store → Store) where
  module _
      (keep : (w : W) (store : Store)
        → All Accepted store.deliveries
        → All Accepted (others w store).deliveries) where
    drain_one-Accepted :
        (d : LinkdingDelivery) (article : Article) (acc : DeliveryTally × Store) (w : W)
        → All Accepted acc.1.deliveries
        → All Accepted (drain_one env settings others d article acc w).0.1.deliveries
    unfolding drain_one
    drain_one-Accepted d article (tally, store) w h =
        let (now, w1) = env.now w in
        let (claimed, store') = claim_delivery d now (others w store) in
        let claim = claim-Accepted d now (others w store) (keep w store h) in
        elim (Bool-cases claimed) [
          | inl q ↦ rw q (attempt-Accepted env settings article d store' w1 claim).1
          | inr q ↦ rw q claim
        ]

    drain_all-Accepted :
        (rows : List (LinkdingDelivery × Article)) (acc : DeliveryTally × Store) (w : W)
        → All Accepted acc.1.deliveries
        → All Accepted (drain_all env settings others rows acc w).0.1.deliveries
    unfolding drain_all
    drain_all-Accepted [] acc w h = h
    drain_all-Accepted ((d, article) ∷ rest) acc w h =
        let (acc', w') = drain_one env settings others d article acc w in
        drain_all-Accepted rest acc' w' (drain_one-Accepted d article acc w h)

    -- A drain keeps every delivery row within the check constraints of the table, if the writes of
    -- the other processes do.
    pub drain-Accepted :
        (limit : Option ℕ) (store : Store) (w : W)
        → All Accepted store.deliveries
        → All Accepted
            (deliver_pending_saved_articles env settings others limit store w).0.1.deliveries
    unfolding deliver_pending_saved_articles
    drain-Accepted limit store w h =
        let (now, w1) = env.now w in
        drain_all-Accepted (due_deliveries now limit store) (no_deliveries, store) w1 h
