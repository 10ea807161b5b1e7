-- ===== src/Delivery/Drain/Claim.antt =====
-- The compare-and-set of `_claim_delivery` gives one delivery to one worker.
use daily_firehose.Common.{ℕ, ◌≤◌, ◌≡◌, refl, false, some, List, [], ◌∷◌, map, any, arith}
use daily_firehose.Delivery.Row.{LinkdingDelivery, Store}
use daily_firehose.Delivery.Drain.{claimable, lease_row, claim_delivery}

module _ (read : LinkdingDelivery) (due now : ℕ) (scheduled : read.next_attempt_at ≡ some due)
    (reached : due ≤ now) where
  -- a leased row is scheduled past the time at which it was read
  lease_row-unclaimable : (row : LinkdingDelivery) → claimable read (lease_row read now row) ≡ false
  unfolding lease_row claimable
  lease_row-unclaimable row = ground arith

  any_unclaimable :
      (rows : List LinkdingDelivery) → any (claimable read) (map (lease_row read now) rows) ≡ false
  any_unclaimable [] = refl
  any_unclaimable (row ∷ rows) = rw lease_row-unclaimable (any_unclaimable rows)

lease_row_idle :
    (read : LinkdingDelivery) (now : ℕ) (row : LinkdingDelivery)
    → claimable read row ≡ false
    → lease_row read now row ≡ row
unfolding lease_row
lease_row_idle read now row h = rw h

map-lease_row_idle :
    (read : LinkdingDelivery) (now : ℕ) (rows : List LinkdingDelivery)
    → any (claimable read) rows ≡ false
    → map (lease_row read now) rows ≡ rows
map-lease_row_idle read now [] h = refl
map-lease_row_idle read now (row ∷ rows) h =
    ground (arith, lease_row_idle read now row, map-lease_row_idle read now rows)

-- Two workers read the same due delivery. After the first has tried to claim it, at or after the
-- time it was due, the second's claim fails and changes no row, whatever the time.
pub claim-claim :
    (read : LinkdingDelivery) (due now later : ℕ) (store : Store)
    → read.next_attempt_at ≡ some due
    → due ≤ now
    → claim_delivery read later (claim_delivery read now store).1
      ≡ (false, (claim_delivery read now store).1)
unfolding claim_delivery
claim-claim read due now later store scheduled reached =
    let idle = any_unclaimable read due now scheduled reached store.deliveries in
    rw (idle, map-lease_row_idle read later (map (lease_row read now) store.deliveries) idle)
