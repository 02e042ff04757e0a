-- ===== src/Consumer/Steal.antt =====
-- The credit of a theft whose thief lives on another shard than the farm: `Handle` and
-- `creditCrossShardSteal` of server/internal/farm/infrastructure/cross_shard_steal_projector.go.
-- The pools are the databases by the shard's name. What `strconv`, `NormalizeV7` and the end of the
-- transaction do comes from outside; ids are natural numbers, so only 0 is not positive.
pub mod Once
use farm_server.Base.{
  ℕ, Bool, true, false, ◌||◌, String, str_eq, List, Option, none, some, ◌==◌, if◌then◌else◌,
}
use farm_server.Errors.{Error, plain, ok, err, is_duplicate_key}
use farm_server.Farm.{pos}
use farm_server.Farm.Crops.{crop_id_to_item_id}
use farm_server.Store.{
  Env, Db, crop_item, cross_shard_steal, OutboxRow, Payload, farm_stolen, farm_planted,
  farm_harvested, farm_watered,
}
use farm_server.Commit.Assets.{insert_economy_transaction, add_inventory_item}
use farm_server.Shard.{shard_for_user_id}

-- What `Commit` does and tells: the last one has lost the connection after the server has saved.
pub data CommitFate : Type 0 where
  saved rolled_back saved_unknown : CommitFate

abbrev pub end_tx : CommitFate → Db → Db → Option Error × Db
end_tx saved before after = (none, after)
end_tx rolled_back before after = (some plain, before)
end_tx saved_unknown before after = (some plain, after)

unfoldable pub credit_cross_shard_steal :
    Env → CommitFate → ℕ → String → ℕ → String → Db → Option Error × Db
credit_cross_shard_steal env fate actor crop amount event_id db =
    elim (insert_economy_transaction env actor cross_shard_steal event_id 0 (pos 0) 0 db) [
      | err e ↦ if is_duplicate_key e then (none, db) else (some e, db)
      | ok (u, inserted) ↦
          elim (add_inventory_item actor crop_item (crop_id_to_item_id crop) amount inserted) [
            | err e ↦ (some e, db)
            | ok (v, credited) ↦ end_tx fate db credited
          ]
    ]

abbrev pub Pools : Type 0
Pools = String → Db

abbrev pub set_pool : String → Db → Pools → Pools
set_pool name db pools other = if str_eq other name then db else pools other

abbrev pub in_pool : String → Option Error × Db → Pools → Option Error × Pools
in_pool name (e, db) pools = (e, set_pool name db pools)

-- The payload's checks, and the two shards.
unfoldable pub handle_stolen :
    Env → List String → CommitFate → String → ℕ → ℕ → String → ℕ → Pools → Option Error × Pools
handle_stolen env shards fate event_id owner actor crop amount pools =
    if owner == 0
    then (some plain, pools)
    else if actor == 0 || actor == owner
    then (some plain, pools)
    else if amount == 0 || str_eq crop ""
    then (some plain, pools)
    else elim (shard_for_user_id shards owner) [
      | none ↦ (some plain, pools)
      | some owner_shard ↦ elim (shard_for_user_id shards actor) [
        | none ↦ (some plain, pools)
        | some actor_shard ↦
            if str_eq owner_shard actor_shard
            then (none, pools)
            else in_pool actor_shard
                (credit_cross_shard_steal env fate actor crop amount event_id (pools actor_shard))
                pools
      ]
    ]

-- The projector: events of other types pass.
abbrev pub handle_payload :
    Env
    → (String → Option String)
    → List String
    → CommitFate
    → String
    → Payload
    → Pools
    → Option Error × Pools
handle_payload env normalize_v7 shards fate id
      (farm_stolen head owner_name actor_name crop amount remaining at) pools =
    elim (normalize_v7 id) [
      | none ↦ (some plain, pools)
      | some event_id ↦
          handle_stolen env shards fate event_id head.owner_user_id head.actor_user_id crop amount
            pools
    ]
handle_payload env normalize_v7 shards fate id _ pools = (none, pools)

unfoldable pub handle :
    Env
    → (String → Option String)
    → List String
    → CommitFate
    → OutboxRow
    → Pools
    → Option Error × Pools
unfolding handle_stolen
handle env normalize_v7 shards fate row pools =
    handle_payload env normalize_v7 shards fate row.event_id row.payload pools
