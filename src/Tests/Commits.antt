-- ===== src/Tests/Commits.antt =====
-- The committer's theorems at concrete inputs.
use farm_server.Base.{
  Bool, String, Option, ℕ, ◌≤◌, String, ◌≡◌, refl, ◌≢◌, ◌⊎◌, inl, inr, Bool, true, Option, none,
  some, arith, ◌==◌, if◌then◌else◌, List, [], ◌∷◌,
}
use farm_server.Errors.{Error, mysql, plain, ok, err}
use farm_server.Errors.Retry.{max_attempts}
use farm_server.Farm.{
  Time, Time, Snapshot, Command, CommitResult, plant, purchase_seed, sell_crop, steal_crop,
}
use farm_server.Farm.Crops.{
  CropConfig, crop_configs, find_config, get_crop_config, harvest_yield_for_crop,
  crop_id_to_item_id,
}
use farm_server.Farm.Growth.{effective_status}
use farm_server.Farm.Apply.{ApplyResult, growth_duration_for_crop, apply_cmd}
use farm_server.Farm.Apply.Valid.{IsValid}
use farm_server.Store.{Db, quantity, farm_owner}
use farm_server.Store.Json.{marshal_plots, unmarshal_plots}
use farm_server.Commit.Rows.{
  requires_command_receipt, insert_receipt, empty_snapshot, Locked, load_snapshot_for_update,
  upsert_snapshot, are_friends, check_friendship,
}
use farm_server.Commit.Assets.{
  load_wallet_for_update, set_wallet_balance, add_inventory_item, deduct_inventory_item, find_row,
  check_economy_transaction, insert_economy_transaction,
}
use farm_server.Commit.Events.{build_payload, outbox_row, insert_outbox}
use farm_server.Commit.FarmTx.{commit_locked, commit_farm_seen}
use farm_server.Commit.FarmTx.Version.{IsAllowed, commit_locked-IsAllowed}
use farm_server.Commit.FarmTx.Effects.{Credits}
use farm_server.Commit.FarmTx.Settlement.{commit_settles}
use farm_server.Commit.FarmTx.Outcome.{Outcome, commit_locked-Outcome}
use farm_server.Commit.History.{
  Event, commits, claims, happen_all, commit_replays, fenced_owner_cannot_commit,
}
use farm_server.Commit.EconomyTx.{traded, commit_economic_seen}
use farm_server.Commit.EconomyTx.Trade.{Bought, Sold}
use farm_server.Commit.EconomyTx.Settled.{Quantity, purchase_settles, sale_settles}
use farm_server.Commit.EconomyTx.Trades.{trade_replays}
use farm_server.Commit.Command.{commit_once, commit_farm_command, commit_command_at_most_once}
use farm_server.Commit.Fence.{advance_route_epoch}
use farm_server.Store.Tx.{Fault, fails, lost}
use farm_server.Actor.{apply_patch_to_snapshot}
use farm_server.Actor.Coherence.{hot_snapshot_coherent}
use farm_server.Tests.Unary.{unary, text_length}
use farm_server.Tests.Data.{test_env, test_env-ReadsBack, now, plots, test_db, command, outcome}

abbrev steal : Command
steal = command steal_crop 2 7

abbrev planting : Command
planting = command plant 1 8

abbrev buying : Command
buying = command purchase_seed 1 0

abbrev selling : Command
selling = command sell_crop 1 0

-- The results and the tables of these commands.
abbrev no_result : CommitResult
no_result = traded "" 0

abbrev stolen_after : CommitResult × Db
stolen_after = outcome no_result test_db (commit_locked test_env "e1" now steal test_db)

abbrev planted_after : CommitResult × Db
planted_after = outcome no_result test_db (commit_locked test_env "e1" now planting test_db)

abbrev bought : CommitResult × Db
bought = outcome no_result test_db (commit_economic_seen test_env "e1" buying test_db test_db)

abbrev sold : CommitResult × Db
sold = outcome no_result test_db (commit_economic_seen test_env "e1" selling test_db test_db)

-- A first attempt that is deadlocked, and what the other attempts meet.
abbrev deadlock_once : ℕ → Option Fault
deadlock_once k = if k == 1 then some (fails (mysql 1213)) else none

abbrev patient : ℕ → Bool
patient k = true

abbrev event_ids : ℕ → String
event_ids k = "e1"

abbrev times : ℕ → Time
times k = now

abbrev fenced : Db
fenced = (outcome tt test_db (advance_route_epoch 1 6 test_db)).1

abbrev hot : Locked
hot = record {
  snapshot = record { farm_id = 1; owner_id = 1; version = 3; route_epoch = 5; plots = plots };
  next_pet_at = none;
}

hot-IsValid : IsValid hot.snapshot
unfolding harvest_yield_for_crop growth_duration_for_crop get_crop_config find_config crop_configs
hot-IsValid = record {
  distinct = (refl, tt);
  entries = (
    (
      refl,
      inr (record {
        grows = refl;
        left = omega arith;
        at_most = omega arith;
        waterings = omega arith;
        schedule = refl;
        real = omega arith;
      }),
    ),
    tt,
  );
}

commit_locked-IsAllowed_example : IsAllowed test_env steal now test_db
unfolding commit_locked load_snapshot_for_update upsert_snapshot unmarshal_plots marshal_plots
    apply_cmd effective_status get_crop_config find_config crop_configs crop_id_to_item_id
    harvest_yield_for_crop growth_duration_for_crop quantity add_inventory_item
    deduct_inventory_item insert_receipt requires_command_receipt insert_outbox outbox_row
    build_payload check_friendship are_friends unary text_length empty_snapshot
commit_locked-IsAllowed_example =
    commit_locked-IsAllowed test_env "e1" now steal test_db stolen_after.1 stolen_after.0 refl

commit_settles_example :
    (l : Locked) × (ar : ApplyResult) × (s : Snapshot) × (load_snapshot_for_update test_env
        steal.farm_id test_db
      ≡ ok (l, test_db))
    × (apply_cmd l.snapshot steal now ≡ ok (ar, s))
    × Credits test_env steal.type steal ar (farm_owner test_db steal.farm_id) test_db stolen_after.1
unfolding commit_locked load_snapshot_for_update upsert_snapshot unmarshal_plots marshal_plots
    apply_cmd effective_status get_crop_config find_config crop_configs crop_id_to_item_id
    harvest_yield_for_crop growth_duration_for_crop quantity add_inventory_item
    deduct_inventory_item insert_receipt requires_command_receipt insert_outbox outbox_row
    build_payload check_friendship are_friends unary text_length empty_snapshot
commit_settles_example =
    commit_settles test_env "e1" now steal test_db stolen_after.1 stolen_after.0 refl

commit_locked-Outcome_example : Outcome "e1" planting test_db planted_after.0 planted_after.1
unfolding commit_locked load_snapshot_for_update upsert_snapshot unmarshal_plots marshal_plots
    apply_cmd effective_status get_crop_config find_config crop_configs crop_id_to_item_id
    harvest_yield_for_crop growth_duration_for_crop quantity add_inventory_item
    deduct_inventory_item insert_receipt requires_command_receipt insert_outbox outbox_row
    build_payload check_friendship are_friends unary text_length empty_snapshot
commit_locked-Outcome_example =
    commit_locked-Outcome test_env "e1" now planting test_db planted_after.1 planted_after.0 refl

-- What happens after the planting.
abbrev meanwhile : List Event
meanwhile = claims 1 9 ∷ commits test_env "e3" now steal planted_after.1 ∷ []

commit_replays_example :
    (again : CommitResult) × (commit_farm_seen test_env "e2" now planting
        (happen_all meanwhile planted_after.1)
        (happen_all meanwhile planted_after.1)
      ≡ ok (again, happen_all meanwhile planted_after.1))
    × (again.new_version ≡ planted_after.0.new_version)
    × (again.replayed ≡ true)
unfolding commit_locked load_snapshot_for_update upsert_snapshot unmarshal_plots marshal_plots
    apply_cmd effective_status get_crop_config find_config crop_configs crop_id_to_item_id
    harvest_yield_for_crop growth_duration_for_crop quantity add_inventory_item
    deduct_inventory_item insert_receipt requires_command_receipt insert_outbox outbox_row
    build_payload check_friendship are_friends unary text_length empty_snapshot
commit_replays_example =
    commit_replays test_env test_env "e1" "e2" now now planting test_db planted_after.1
      planted_after.0 meanwhile refl refl

hot_snapshot_coherent_example :
    (l : Locked) × (load_snapshot_for_update test_env planting.farm_id planted_after.1
      ≡ ok (l, planted_after.1))
    × (l.snapshot
        ≡ apply_patch_to_snapshot hot.snapshot planted_after.0.patch planted_after.0.new_version)
    × IsValid l.snapshot
unfolding commit_locked load_snapshot_for_update upsert_snapshot unmarshal_plots marshal_plots
    apply_cmd effective_status get_crop_config find_config crop_configs crop_id_to_item_id
    harvest_yield_for_crop growth_duration_for_crop quantity add_inventory_item
    deduct_inventory_item insert_receipt requires_command_receipt insert_outbox outbox_row
    build_payload check_friendship are_friends unary text_length empty_snapshot
hot_snapshot_coherent_example =
    hot_snapshot_coherent test_env "e1" now planting test_db planted_after.1 planted_after.0 hot
      test_env-ReadsBack (omega arith) refl hot-IsValid refl

purchase_settles_example :
    (qty : ℕ) × Quantity buying.quantity qty
    × (cfg : CropConfig) × (get_crop_config buying.crop_id ≡ ok cfg)
    × Bought test_env buying qty cfg test_db bought.1 bought.0.coin_balance
unfolding commit_economic_seen get_crop_config find_config crop_configs crop_id_to_item_id quantity
    load_wallet_for_update set_wallet_balance add_inventory_item deduct_inventory_item
    insert_economy_transaction find_row check_economy_transaction
purchase_settles_example =
    purchase_settles test_env "e1" buying test_db test_db bought.1 bought.0 refl refl refl

-- What happens after the purchase.
abbrev after_buying : List Event
after_buying = claims 1 9 ∷ commits test_env "e3" now selling bought.1 ∷ []

trade_replays_example :
    (again : CommitResult) × (commit_economic_seen test_env "e2" buying
        (happen_all after_buying bought.1)
        (happen_all after_buying bought.1)
      ≡ ok (again, happen_all after_buying bought.1))
    × (again.coin_balance ≡ bought.0.coin_balance)
    × (again.replayed ≡ true)
unfolding commit_economic_seen get_crop_config find_config crop_configs crop_id_to_item_id quantity
    load_wallet_for_update set_wallet_balance add_inventory_item deduct_inventory_item
    insert_economy_transaction find_row check_economy_transaction
trade_replays_example =
    trade_replays test_env "e1" "e2" buying test_db test_db bought.1 bought.0 after_buying
      (inl refl) refl refl

sale_settles_example :
    (qty : ℕ) × Quantity selling.quantity qty
    × (cfg : CropConfig) × (get_crop_config selling.crop_id ≡ ok cfg)
    × Sold test_env selling qty cfg test_db sold.1 sold.0.coin_balance
unfolding commit_economic_seen get_crop_config find_config crop_configs crop_id_to_item_id quantity
    load_wallet_for_update set_wallet_balance add_inventory_item deduct_inventory_item
    insert_economy_transaction find_row check_economy_transaction
sale_settles_example =
    sale_settles test_env "e1" selling test_db test_db sold.1 sold.0 refl refl refl

commit_command_at_most_once_example :
    ((k : ℕ) × (1 ≤ k)
      × (k ≤ max_attempts)
      × (res : CommitResult) × (db' : Db) × (commit_once test_env
            (event_ids k)
            (times k)
            planting
            test_db
          ≡ ok (res, db'))
      × (((deadlock_once k ≡ none)
            × (commit_farm_command test_env deadlock_once patient event_ids times planting test_db
                ≡ (ok res, db')))
          ⊎ ((deadlock_once k ≡ some lost)
              × (commit_farm_command test_env deadlock_once patient event_ids times planting test_db
                  ≡ (err plain, db')))))
    ⊎ ((e : Error) × (commit_farm_command test_env deadlock_once patient event_ids times planting
            test_db
          ≡ (err e, test_db)))
commit_command_at_most_once_example =
    commit_command_at_most_once test_env deadlock_once patient event_ids times planting test_db

-- What happens after a newer owner has claimed the farm.
abbrev newer_owner : List Event
newer_owner =
    commits test_env "e2" now (record planting { route_epoch = 6 }) test_db ∷ claims 1 7 ∷ []

fenced_owner_cannot_commit_example :
    (planting.route_epoch ≡ 5
      → commit_locked test_env "e1" now planting (happen_all newer_owner fenced)
        ≢ ok (planted_after.0, test_db))
    × (advance_route_epoch 1 5 (happen_all newer_owner fenced) ≢ ok (tt, test_db))
unfolding advance_route_epoch
fenced_owner_cannot_commit_example =
    fenced_owner_cannot_commit test_env "e1" now planting 6 5 test_db fenced test_db planted_after.0
      newer_owner refl (omega arith)
