-- ===== src/Commit/Rows/Reload.antt =====
-- A snapshot that was written is the one that a later load reads
-- (`upsertSnapshot` and `loadSnapshotForUpdate`).
use farm_server.Base.{ℕ, ◌≡◌, refl, ap, ◌∙◌, Option, none, some, arith}
use farm_server.Errors.{ok}
use farm_server.Farm.{Snapshot}
use farm_server.Store.{Env, Db, FarmRow, farm_owner, owner_of}
use farm_server.Store.Json.{marshal_plots, unmarshal_plots}
use farm_server.Commit.Rows.{Locked, load_snapshot_for_update, read_body, upserted, upsert_snapshot}

pub load-row :
    (env : Env) (id : ℕ) (row : FarmRow) (s : Snapshot) (d : Db)
    → d.farms id ≡ some row
    → s.farm_id ≡ id
    → row.owner_user_id ≡ s.owner_id
    → row.version ≡ s.version
    → row.route_epoch ≡ s.route_epoch
    → unmarshal_plots env row.body ≡ some s.plots
    → (l : Locked) × (load_snapshot_for_update env id d ≡ ok (l, d)) × (l.snapshot ≡ s)
unfolding load_snapshot_for_update read_body
load-row env id row s d found f o v e back =
    (record { snapshot = s; next_pet_at = row.next_pet_action_at }, ground arith, refl)

upserted-owner :
    (env : Env) (s : Snapshot) (id : ℕ) (o : Option FarmRow)
    → s.owner_id ≡ owner_of id o
    → (upserted env s o).owner_user_id ≡ s.owner_id
unfolding upserted
upserted-owner env s id none h = refl
upserted-owner env s id (some row) h = cc

upserted-columns :
    (env : Env) (s : Snapshot) (o : Option FarmRow)
    → let row = upserted env s o in
      (row.version ≡ s.version)
      × (row.route_epoch ≡ s.route_epoch)
      × (row.body ≡ marshal_plots env s.plots)
unfolding upserted
upserted-columns env s none = (refl, refl, refl)
upserted-columns env s (some row) = (refl, refl, refl)

upsert-row :
    (env : Env) (s : Snapshot) (db d' : Db) (id : ℕ)
    → d'.farms ≡ (upsert_snapshot env s db).farms
    → s.farm_id ≡ id
    → d'.farms id ≡ some (upserted env s (db.farms id))
unfolding upsert_snapshot
upsert-row env s db d' id e f = ground (arith, ap (λ (g : ℕ → Option FarmRow). g id) e)

pub load-upsert :
    (env : Env) (s : Snapshot) (db d' : Db) (id : ℕ)
    → d'.farms ≡ (upsert_snapshot env s db).farms
    → s.farm_id ≡ id
    → s.owner_id ≡ farm_owner db id
    → unmarshal_plots env (marshal_plots env s.plots) ≡ some s.plots
    → (l : Locked) × (load_snapshot_for_update env id d' ≡ ok (l, d')) × (l.snapshot ≡ s)
load-upsert env s db d' id e f o back =
    let (version, epoch, body) = upserted-columns env s (db.farms id) in
    load-row env id (upserted env s (db.farms id)) s d' (upsert-row env s db d' id e f) f
      (upserted-owner env s id (db.farms id) o) version epoch (ap (unmarshal_plots env) body ∙ back)
