-- ===== src/Tests/Runs.antt =====
-- Single runs of operations that no theorem is about yet.
use farm_server.Base.{◌≡◌, refl, [], ◌∷◌, none, some}
use farm_server.Errors.{err, coded, common_invalid_argument, routing_fenced}
use farm_server.Farm.{steal_crop, purchase_seed}
use farm_server.Farm.Crops.{catalog_key_for_crop, get_crop_config, find_config, crop_configs}
use farm_server.Commit.EconomyTx.{commit_economic_seen}
use farm_server.Commit.Command.{commit_seen, commit_once}
use farm_server.Actor.{pre_validate}
use farm_server.Task.{incr_progress, claim_reward}
use farm_server.Shard.{new_id_generator, shard_for_user_id}
use farm_server.Tests.Data.{test_env, now, plots, test_db, command}

second_of_two : shard_for_user_id ("shard-0" ∷ "shard-1" ∷ []) 3 ≡ some "shard-1"
unfolding shard_for_user_id
second_of_two = refl

shard_too_large : new_id_generator 0 64 0 ≡ none
unfolding new_id_generator
shard_too_large = refl

stale_epoch :
    pre_validate
      (record { farm_id = 1; owner_id = 1; version = 3; route_epoch = 4; plots = plots })
      (command steal_crop 2 7)
    ≡ err (coded routing_fenced)
unfolding pre_validate
stale_epoch = refl

unknown_task_skipped : incr_progress 1 "sleep" 1 test_db ≡ test_db
unfolding incr_progress
unknown_task_skipped = refl

unknown_task_refused : claim_reward 1 "sleep" test_db ≡ err (coded common_invalid_argument)
unfolding claim_reward
unknown_task_refused = refl

wheat_key : catalog_key_for_crop "WHEAT" ≡ some "crop_WHEAT"
unfolding catalog_key_for_crop get_crop_config find_config crop_configs
wheat_key = refl

trades_apart :
    commit_once test_env "e1" now (command purchase_seed 1 0) test_db
    ≡ commit_economic_seen test_env "e1" (command purchase_seed 1 0) test_db test_db
unfolding commit_once commit_seen
trades_apart = refl
