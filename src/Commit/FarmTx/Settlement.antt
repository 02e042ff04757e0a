-- ===== src/Commit/FarmTx/Settlement.antt =====
-- What a farm command that commits has done to the inventory.
use farm_server.Base.{◌≡◌, ◌∙◌, ap, subst, Bool, true, false, String, ℕ, ◌+◌, Option, if◌then◌else◌}
use farm_server.Errors.{Result, ok, err}
use farm_server.Farm.Crops.{CropConfig, get_crop_config}
use farm_server.Farm.{
  Time, Snapshot, Command, CommandType, plant, harvest, steal_crop, pet_auto_harvest, CommitResult,
}
use farm_server.Farm.Apply.{ApplyResult, apply_cmd}
use farm_server.Farm.Apply.Shape.{apply_cmd-eq-ok}
use farm_server.Store.{Env, Db, ItemType, quantity, or_zero, farm_owner}
use farm_server.Commit.Rows.{Locked, load_snapshot_for_update, upsert_snapshot}
use farm_server.Commit.Events.{insert_outbox}
use farm_server.Commit.FarmTx.{commit_locked}
use farm_server.Commit.FarmTx.Inversion.{commit_locked-Committed}
use farm_server.Commit.FarmTx.Effects.{SeedTaken, Credits, Moves, side_effects-Effect}
use farm_server.Commit.FarmTx.Outcome.{receipt-after}
use farm_server.Commit.FarmTx.Version.{load-columns}

quantity-inventory :
    (d e : Db) (u : ℕ) (s : ItemType) (i : ℕ)
    → e.inventory ≡ d.inventory
    → quantity e u s i ≡ quantity d u s i
unfolding quantity
quantity-inventory d e u s i same = ap (λ (f : ℕ → ItemType → ℕ → Option ℕ). or_zero (f u s i)) same

Moves-inventory :
    (db d e : Db) (user : ℕ) (t : ItemType) (item n : ℕ)
    → e.inventory ≡ d.inventory
    → Moves db d user t item n
    → Moves db e user t item n
Moves-inventory db d e user t item n same m u s i = quantity-inventory d e u s i same ∙ m u s i

if_map :
    {A B C D : Type 0} (b : Bool) → (A → C) → (B → D) → (if b then A else B) → (if b then C else D)
if_map true f g x = f x
if_map false f g x = g x

SeedTaken-inventory :
    (cmd : Command) (r : Result CropConfig) (db d e : Db)
    → e.inventory ≡ d.inventory
    → SeedTaken cmd r db d
    → SeedTaken cmd r db e
SeedTaken-inventory cmd (err f) db d e same c = same ∙ c
SeedTaken-inventory cmd (ok cfg) db d e same (m, enough) =
    (Moves-inventory db d e _ _ _ _ same m, enough)

-- The inventory is all that `Credits` is about.
Credits-inventory :
    (env : Env) (t : CommandType) (cmd : Command) (ar : ApplyResult) (owner : ℕ) (db d e : Db)
    → e.inventory ≡ d.inventory
    → Credits env t cmd ar owner db d
    → Credits env t cmd ar owner db e
Credits-inventory env plant cmd ar owner db d e same c =
    SeedTaken-inventory cmd (get_crop_config cmd.crop_id) db d e same c
Credits-inventory env harvest cmd ar owner db d e same c = Moves-inventory db d e _ _ _ _ same c
Credits-inventory env pet_auto_harvest cmd ar owner db d e same c =
    Moves-inventory db d e _ _ _ _ same c
Credits-inventory env steal_crop cmd ar owner db d e same c =
    if_map (env.defer_remote_steal_credit owner cmd.actor_user) (λ i. same ∙ i)
      (λ m. Moves-inventory db d e _ _ _ _ same m) c
Credits-inventory env _ cmd ar owner db d e same c = same ∙ c

-- A farm command that commits has changed the inventory by exactly what `apply_cmd` gave on the
-- stored snapshot: a planting of a crop in the table takes one seed, which was there, from the
-- player, and one of any other crop takes nothing; a harvest, also the pet's, gives the yield to the farm's owner; a theft gives the stolen
-- amount to the thief, unless the credit is left to the thief's shard; watering moves nothing.
pub commit_settles :
    (env : Env) (event_id : String) (now : Time) (cmd : Command) (db db' : Db) (res : CommitResult)
    → commit_locked env event_id now cmd db ≡ ok (res, db')
    → (l : Locked) × (ar : ApplyResult) × (s : Snapshot) × (load_snapshot_for_update env cmd.farm_id
          db
        ≡ ok (l, db))
      × (apply_cmd l.snapshot cmd now ≡ ok (ar, s))
      × Credits env cmd.type cmd ar (farm_owner db cmd.farm_id) db db'
unfolding insert_outbox upsert_snapshot
commit_settles env event_id now cmd db db' res h =
    let c = commit_locked-Committed env event_id now cmd db db' res h in
    let stored : Snapshot = record (c.snapshot) { version = c.snapshot.version + 1 } in
    let (farm, version, epoch, owner) = load-columns env cmd.farm_id db db c.locked c.loaded in
    let shape = (apply_cmd-eq-ok c.locked.snapshot cmd now c.applied).1 in
    let same_owner : c.snapshot.owner_id ≡ farm_owner db cmd.farm_id =
      ap (λ s. s.owner_id) shape ∙ owner in
    let (credits, rest, farms) =
      side_effects-Effect env cmd c.ar c.snapshot.owner_id now db c.settled cmd.type c.effects in
    let (f3, i3, b3, w3, l3, r3) =
      receipt-after cmd stored.version (upsert_snapshot env stored c.settled) c.recorded
        c.receipt in
    let inventory : db'.inventory ≡ c.settled.inventory = ap (λ d. d.inventory) c.final ∙ i3 in
    (
      c.locked,
      c.ar,
      c.snapshot,
      c.loaded,
      c.applied,
      Credits-inventory env cmd.type cmd c.ar (farm_owner db cmd.farm_id) db c.settled db' inventory
          (subst (λ o. Credits env cmd.type cmd c.ar o db c.settled) same_owner credits),
    )
