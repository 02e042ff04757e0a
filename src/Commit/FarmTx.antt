-- ===== src/Commit/FarmTx.antt =====
-- The transaction of a farm command (`commitFarmCommandOnce` and `applyEconomicSideEffects` of
-- server/internal/farm/infrastructure/committer_mysql.go), with its guards in the order of the code.
pub mod Inversion
pub mod Effects
pub mod Version
pub mod Outcome
pub mod Once
pub mod Settlement
use farm_server.Base.{
  ℕ, ◌+◌, ◌*◌, Bool, true, false, not, ◌||◌, String, [], ◌∷◌, Option, none, some, ltb, leb, ◌==◌,
  if◌then◌else◌, put,
}
use farm_server.Errors.{
  coded, Result, ok, err, common_invalid_argument, economy_insufficient, farm_version_conflict,
  routing_fenced, social_not_farm_owner,
}
use farm_server.Farm.{
  Time, zero_time, second, Snapshot, CommandType, plant, harvest, help_water, steal_crop,
  pet_auto_harvest, Command, CommitResult,
}
use farm_server.Farm.Crops.{CropConfig, get_crop_config, crop_id_to_item_id}
use farm_server.Farm.Apply.{ApplyResult, apply_cmd}
use farm_server.Store.{Env, seed_item, crop_item, FarmRow, Db}
use farm_server.Store.Tx.{Tx, ◌>>=◌, ◌>>◌, pure, fail, guard, lift, modify}
use farm_server.Commit.Rows.{
  requires_command_receipt, check_receipt, insert_receipt, same_millis, Locked,
  load_snapshot_for_update, upsert_snapshot, check_pet_auto_harvest_enabled, check_friendship,
}
use farm_server.Commit.Assets.{add_inventory_item, deduct_inventory_item}
use farm_server.Commit.Events.{insert_outbox}

abbrev pub is_pet : CommandType → Bool
is_pet pet_auto_harvest = true
is_pet _ = false

-- `cmd.Type == CmdHelpWater || cmd.Type == CmdStealCrop`
abbrev pub is_visit : CommandType → Bool
is_visit help_water = true
is_visit steal_crop = true
is_visit _ = false

-- The persisted schedule of the pet against the one that the scanner saw.
check_schedule : Option Time → Time → Time → Tx (Unit {0})
check_schedule none scheduled now = fail (coded farm_version_conflict)
check_schedule (some next) scheduled now = do
  guard (same_millis next scheduled) (coded farm_version_conflict)
  guard (leb next now) (coded farm_version_conflict)

pub check_pet_command : Command → Locked → Time → Tx (Unit {0})
unfolding check_schedule
check_pet_command cmd l now = if is_pet cmd.type then checks else pure tt
  where
    checks : Tx (Unit {0})
    checks = do
      guard (cmd.actor_user == l.snapshot.owner_id) (coded social_not_farm_owner)
      guard (not (cmd.pet_scheduled_at == zero_time)) (coded common_invalid_argument)
      check_schedule l.next_pet_at cmd.pet_scheduled_at now

pub check_visit : Env → Command → Snapshot → Tx (Unit {0})
check_visit env cmd s = if is_visit cmd.type then checks else pure tt
  where
    checks : Tx (Unit {0})
    checks = do
      guard (not (cmd.actor_user == s.owner_id)) (coded social_not_farm_owner)
      check_friendship env cmd.actor_user s.owner_id

check_pet_switch : Command → Snapshot → Tx (Unit {0})
check_pet_switch cmd s =
    if is_pet cmd.type then check_pet_auto_harvest_enabled s.owner_id else pure tt

-- The crops of a harvest go to the farm's owner.
credit_owner : ApplyResult → ℕ → Tx (Unit {0})
credit_owner ar owner =
    if ltb 0 ar.harvested_yield
    then add_inventory_item owner crop_item (crop_id_to_item_id ar.harvested_crop_id)
        ar.harvested_yield
    else pure tt

-- The conditional UPDATE of the pet's schedule, which must hit one row.
abbrev pub rescheduled : Time → FarmRow → FarmRow
rescheduled now row = record row {
  next_pet_action_at = some (now + 30 * second);
  pet_scan_lease_owner = none;
  pet_scan_lease_until = none;
}

abbrev is_at : Time → Option Time → Bool
is_at t none = false
is_at t (some u) = u == t

advance_schedule : Command → Time → Tx (Unit {0})
advance_schedule cmd now db = elim (db.farms cmd.farm_id) [
  | none ↦ fail (coded farm_version_conflict) db
  | some row ↦
      if is_at cmd.pet_scheduled_at row.next_pet_action_at
      then modify (λ d. record d { farms = put cmd.farm_id (some (rescheduled now row)) d.farms })
          db
      else fail (coded farm_version_conflict) db
]

take_seed : Command → Result CropConfig → Tx (Unit {0})
take_seed cmd (err e) = pure tt
take_seed cmd (ok cfg) = do
  enough ← deduct_inventory_item cmd.actor_user seed_item (crop_id_to_item_id cmd.crop_id) 1
  guard enough (coded economy_insufficient)

pub apply_economic_side_effects :
    Env → CommandType → Command → ApplyResult → ℕ → Time → Tx (Unit {0})
unfolding take_seed credit_owner advance_schedule
apply_economic_side_effects env plant cmd ar owner now = take_seed cmd (get_crop_config cmd.crop_id)
apply_economic_side_effects env harvest cmd ar owner now = credit_owner ar owner
apply_economic_side_effects env pet_auto_harvest cmd ar owner now = do
  credit_owner ar owner
  advance_schedule cmd now
apply_economic_side_effects env steal_crop cmd ar owner now =
    if env.defer_remote_steal_credit owner cmd.actor_user
    then pure tt
    else add_inventory_item cmd.actor_user crop_item (crop_id_to_item_id ar.harvested_crop_id)
        ar.stolen_amount
apply_economic_side_effects env _ cmd ar owner now = pure tt

unfoldable pub write_receipt : Command → ℕ → Tx (Unit {0})
write_receipt cmd version =
    if requires_command_receipt cmd.type
    then insert_receipt cmd.actor_user cmd.cmd_id version
    else pure tt

unfoldable pub committed_result : String → Command → ApplyResult → Snapshot → CommitResult
committed_result event_id cmd ar s = record {
  new_version = s.version;
  patch = record {
    farm_id = s.farm_id;
    version = s.version;
    plots = ar.changed_plot ∷ [];
    actor_user = cmd.actor_user;
  };
  event_id = event_id;
  replayed = false;
  coin_balance = 0;
}

-- Snapshot, receipt and event, once the side effects are written.
finish : Env → String → Command → Time → ApplyResult → Snapshot → Tx CommitResult
unfolding write_receipt committed_result
finish env event_id cmd now ar s = do
  modify (upsert_snapshot env s)
  write_receipt cmd s.version
  modify (insert_outbox env event_id s cmd ar now)
  pure (committed_result event_id cmd ar s)

-- The steps that write, on a snapshot that `apply_cmd` has changed.
persist : Env → String → Command → Time → ApplyResult × Snapshot → Tx CommitResult
unfolding apply_economic_side_effects finish
persist env event_id cmd now (ar, s) =
    apply_economic_side_effects env cmd.type cmd ar s.owner_id now
    >> finish env event_id cmd now ar (record s { version = s.version + 1 })

-- The checks under the farm's row lock.
pub check_locked : Env → Command → Locked → Time → Tx (Unit {0})
unfolding check_pet_command check_visit check_pet_switch
check_locked env cmd l now = do
  guard (cmd.route_epoch == l.snapshot.route_epoch) (coded routing_fenced)
  check_pet_command cmd l now
  guard (is_pet cmd.type || cmd.base_version == l.snapshot.version) (coded farm_version_conflict)
  check_visit env cmd l.snapshot
  check_pet_switch cmd l.snapshot

change : Env → String → Time → Command → Locked → Tx CommitResult
unfolding persist
change env event_id now cmd l = lift (apply_cmd l.snapshot cmd now) >>= persist env event_id cmd now

checked_change : Env → String → Time → Command → Locked → Tx CommitResult
unfolding check_locked change
checked_change env event_id now cmd l = check_locked env cmd l now >> change env event_id now cmd l

-- The transaction of a farm command, behind the check for a receipt.
unfoldable pub commit_locked : Env → String → Time → Command → Tx CommitResult
unfolding checked_change
commit_locked env event_id now cmd =
    load_snapshot_for_update env cmd.farm_id >>= checked_change env event_id now cmd

-- The receipt that a retry of a command finds; commands without receipts find none.
unfoldable pub find_replay : Command → Db → Option CommitResult
find_replay cmd db =
    if requires_command_receipt cmd.type then check_receipt cmd.actor_user cmd.cmd_id db else none

-- `seen` is the database at the moment of the receipt's query: under READ COMMITTED another
-- transaction can commit before this one has the farm's row lock.
unfoldable pub commit_farm_seen : Env → String → Time → Command → Db → Tx CommitResult
unfolding find_replay
commit_farm_seen env event_id now cmd seen = elim (find_replay cmd seen) [
  | none ↦ commit_locked env event_id now cmd
  | some res ↦ pure res
]
