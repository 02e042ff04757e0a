-- ===== src/Commit/Rows.antt =====
-- The statements of the committer
-- (server/internal/farm/infrastructure/committer_mysql.go): each reads or writes the tables as its
-- SQL says, under the schema of migrations/mysql.
pub mod Reload
use farm_server.Base.{
  ◌≡◌, arith, ℕ, ◌+◌, ◌-◌, ◌/◌, Bool, true, false, ◌&&◌, String, List, [], ◌∷◌, Option, none, some,
  ltb, ◌==◌, if◌then◌else◌, str_eq, put, Dict,
}
use farm_server.Errors.{
  ok, Error, coded, mysql, plain, internal, social_not_friend, pet_not_owned, pet_auto_disabled,
  farm_version_conflict,
}
use farm_server.Farm.{
  Time, max_int64, ℤ, Plot, Snapshot, Patch, CommandType, plant, harvest, steal_crop,
  pet_auto_harvest, CommitResult,
}
use farm_server.Store.{
  Env, ItemType, seed_item, crop_item, BizType, shop_purchase, farm_sell, cross_shard_steal,
  FarmRow, LedgerRow, DisplayName, named, id_text, EventHead, Payload, farm_planted, farm_harvested,
  farm_watered, farm_stolen, OutboxRow, Db,
}
use farm_server.Store.Json.{marshal_plots, unmarshal_plots}
use farm_server.Store.Tx.{OnlyReads, Tx, ◌>>◌, pure, fail, guard, modify}

-- MySQL's errors for a duplicate key, for a value that a BIGINT does not hold, for a CHECK constraint that
-- a row violates, and for NULL in a NOT NULL column.
abbrev pub duplicate_key : Error
duplicate_key = mysql 1062

abbrev pub out_of_range : Error
out_of_range = mysql 1690

abbrev pub check_violated : Error
check_violated = mysql 3819

abbrev pub null_column : Error
null_column = mysql 1048

unfoldable pub requires_command_receipt : CommandType → Bool
requires_command_receipt plant = true
requires_command_receipt harvest = true
requires_command_receipt steal_crop = true
requires_command_receipt pet_auto_harvest = true
requires_command_receipt _ = false

unfoldable pub empty_patch : Patch
empty_patch = record { farm_id = 0; version = 0; plots = []; actor_user = 0 }

-- `checkReceipt`: the result that a stored receipt stands for.
unfoldable pub check_receipt : ℕ → String → Db → Option CommitResult
unfolding empty_patch
check_receipt user cmd_id db = elim (db.receipts user cmd_id) [
  | none ↦ none
  | some version ↦ some (record {
    new_version = version;
    patch = empty_patch;
    event_id = "";
    replayed = true;
    coin_balance = 0;
  })
]

-- `insertReceipt`, under the unique key (user_id, cmd_id).
unfoldable pub insert_receipt : ℕ → String → ℕ → Tx (Unit {0})
insert_receipt user cmd_id version db = elim (db.receipts user cmd_id) [
  | none ↦
      modify
        (λ d. record d {
          receipts = λ u c. if u == user && str_eq c cmd_id then some version else d.receipts u c;
        })
        db
  | some old ↦ fail duplicate_key db
]

-- `sameMillis`: both instants truncated to the millisecond.
unfoldable pub same_millis : Time → Time → Bool
same_millis a b = a / 1000000 == b / 1000000

unfoldable pub empty_snapshot : ℕ → Snapshot
empty_snapshot farm_id = record {
  farm_id = farm_id;
  owner_id = farm_id;
  version = 0;
  route_epoch = 0;
  plots = [];
}

-- What `loadSnapshotForUpdate` returns beside its error.
pub record Locked : Type 0 where
  pub snapshot : Snapshot
  pub next_pet_at : Option Time

read_body : ℕ → FarmRow → Option (Dict Plot) → Tx Locked
read_body farm_id row none = fail plain
read_body farm_id row (some plots) = pure (record {
  snapshot = record {
    farm_id = farm_id;
    owner_id = row.owner_user_id;
    version = row.version;
    route_epoch = row.route_epoch;
    plots = plots;
  };
  next_pet_at = row.next_pet_action_at;
})

-- A missing row is the empty snapshot at version 0. Also `LoadSnapshot`, which reads without the lock.
unfoldable pub load_snapshot_for_update : Env → ℕ → Tx Locked
unfolding read_body empty_snapshot
load_snapshot_for_update env farm_id db = elim (db.farms farm_id) [
  | none ↦ pure (record { snapshot = empty_snapshot farm_id; next_pet_at = none }) db
  | some row ↦ read_body farm_id row (unmarshal_plots env row.body) db
]

-- The row that `upsertSnapshot` leaves. An update keeps the owner and the pet's columns.
upserted : Env → Snapshot → Option FarmRow → FarmRow
upserted env s none = record {
  owner_user_id = s.owner_id;
  version = s.version;
  body = marshal_plots env s.plots;
  route_epoch = s.route_epoch;
  next_pet_action_at = none;
  pet_scan_lease_owner = none;
  pet_scan_lease_until = none;
}
upserted env s (some row) = record row {
  version = s.version;
  body = marshal_plots env s.plots;
  route_epoch = s.route_epoch;
}

unfoldable pub upsert_snapshot : Env → Snapshot → Db → Db
unfolding upserted
upsert_snapshot env s db = record db {
  farms = put s.farm_id (some (upserted env s (db.farms s.farm_id))) db.farms;
}

-- `checkPetAutoHarvestEnabled`
unfoldable pub check_pet_auto_harvest_enabled : ℕ → Tx (Unit {0})
check_pet_auto_harvest_enabled user db = elim (db.active_pets user) [
  | none ↦ fail (coded pet_not_owned) db
  | some enabled ↦ guard enabled (coded pet_auto_disabled) db
]

-- `checkFriendship`: the directed edge first, where edges are in use, then the normalised pair.
unfoldable pub are_friends : Env → ℕ → ℕ → Db → Bool
are_friends env a b db =
    if env.use_friendship_edges && db.friendship_edges b a
    then true
    else if ltb b a
    then db.friendships b a
    else db.friendships a b

unfoldable pub check_friendship : Env → ℕ → ℕ → Tx (Unit {0})
unfolding are_friends
check_friendship env a b db = guard (are_friends env a b db) (coded social_not_friend) db

-- The statements that only read.
pub load_snapshot-OnlyReads :
    (env : Env) (farm_id : ℕ) → OnlyReads (load_snapshot_for_update env farm_id)
unfolding load_snapshot_for_update
load_snapshot-OnlyReads env farm_id db l db' h = ground arith

pub check_friendship-OnlyReads : (env : Env) (a b : ℕ) → OnlyReads (check_friendship env a b)
unfolding check_friendship
check_friendship-OnlyReads env a b db u db' h = ground arith

pub check_pet-OnlyReads : (user : ℕ) → OnlyReads (check_pet_auto_harvest_enabled user)
unfolding check_pet_auto_harvest_enabled
check_pet-OnlyReads user db u db' h = ground arith
