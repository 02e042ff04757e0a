-- ===== src/Commit/Fence.antt =====
-- `AdvanceRouteEpoch` and `advanceRouteEpochOnce` of
-- server/internal/farm/infrastructure/committer_mysql.go: the durable fence of a farm's owner.
use farm_server.Base.{ℕ, ◌≡◌, ◌≢◌, ◌≤◌, ◌<◌, none, some, arith, ltb, ltb→lt, if◌then◌else◌, put}
use farm_server.Errors.{coded, ok, common_invalid_argument, farm_not_found, routing_epoch_stale}
use farm_server.Store.{Db, farm_epoch, farm_version}
use farm_server.Store.Tx.{Tx, ◌>>◌, fail, guard, guard->>-eq-ok, modify}

-- `advanceRouteEpochOnce`
advance_once : ℕ → ℕ → Tx (Unit {0})
advance_once farm_id epoch db = elim (db.farms farm_id) [
  | none ↦ fail (coded farm_not_found) db
  | some row ↦
      if ltb epoch row.route_epoch
      then fail (coded routing_epoch_stale) db
      else modify
          (λ d. record d {
            farms =
                if ltb row.route_epoch epoch
                then put farm_id (some (record row { route_epoch = epoch })) d.farms
                else d.farms;
          })
          db
]

-- `AdvanceRouteEpoch`, one attempt.
unfoldable pub advance_route_epoch : ℕ → ℕ → Tx (Unit {0})
unfolding advance_once
advance_route_epoch farm_id epoch =
    guard (ltb 0 epoch) (coded common_invalid_argument) >> advance_once farm_id epoch

advance_once-epoch :
    (farm_id epoch : ℕ) (db db' : Db)
    → advance_once farm_id epoch db ≡ ok (tt, db')
    → (farm_epoch db farm_id ≤ epoch)
      × (farm_epoch db' farm_id ≡ epoch)
      × (farm_version db' farm_id ≡ farm_version db farm_id)
      × ((j : ℕ) → j ≢ farm_id → db'.farms j ≡ db.farms j)
unfolding advance_once
advance_once-epoch farm_id epoch db db' h =
    (ground arith, ground arith, ground arith, λ j ne. ground arith)

-- A claim of the route that succeeds leaves exactly the claimed epoch, which is never smaller than
-- the one before, and touches neither the version nor another farm.
pub advance-epoch :
    (farm_id epoch : ℕ) (db db' : Db)
    → advance_route_epoch farm_id epoch db ≡ ok (tt, db')
    → (0 < epoch)
      × (farm_epoch db farm_id ≤ epoch)
      × (farm_epoch db' farm_id ≡ epoch)
      × (farm_version db' farm_id ≡ farm_version db farm_id)
      × ((j : ℕ) → j ≢ farm_id → db'.farms j ≡ db.farms j)
unfolding advance_route_epoch
advance-epoch farm_id epoch db db' h =
    let (positive, once) =
      guard->>-eq-ok (ltb 0 epoch) (coded common_invalid_argument) (advance_once farm_id epoch) h in
    let (mono, reached, kept, others) = advance_once-epoch farm_id epoch db db' once in
    (ltb→lt 0 epoch positive, mono, reached, kept, others)

pub advance-receipts :
    (farm_id epoch : ℕ) (db db' : Db)
    → advance_route_epoch farm_id epoch db ≡ ok (tt, db')
    → db'.receipts ≡ db.receipts
unfolding advance_route_epoch advance_once
advance-receipts farm_id epoch db db' h = ground arith

pub advance-ledger :
    (farm_id epoch : ℕ) (db db' : Db)
    → advance_route_epoch farm_id epoch db ≡ ok (tt, db')
    → db'.ledger ≡ db.ledger
unfolding advance_route_epoch advance_once
advance-ledger farm_id epoch db db' h = ground arith
