-- ===== src/Tests/Parts.antt =====
-- The other theorems at concrete inputs.
use farm_server.Base.{ℕ, ◌+◌, ◌*◌, ◌≡◌, refl, inr, some, List, [], ◌∷◌, arith}
use farm_server.Errors.{Result, task_already_claimed, coded, ok, err}
use farm_server.Farm.{Time, minute, Snapshot, Command, harvest, steal_crop}
use farm_server.Farm.Crops.{
  CropConfig, crop_configs, find_config, get_crop_config, harvest_yield_for_crop,
}
use farm_server.Farm.Apply.{ApplyResult, changed, growth_duration_for_crop, apply_cmd, watered}
use farm_server.Farm.Apply.Valid.{IsValid}
use farm_server.Farm.Apply.Yield.{outstanding, given_out, sown, run, total, yield_conserved}
use farm_server.Store.{TaskRow, Db, completed}
use farm_server.Store.Json.{marshal_plots, unmarshal_plots, unmarshal-marshal}
use farm_server.Task.{TaskConfig, claim_reward_once}
use farm_server.Task.Reward.{TaskEvent, progresses, claims, happen_all, claim_pays_once}
use farm_server.Tests.Data.{
  test_env, test_env-ReadsBack, now, ripe, plots, test_db, command, outcome,
}

abbrev farm : Snapshot
farm = record { farm_id = 1; owner_id = 1; version = 3; route_epoch = 5; plots = plots }

farm-IsValid : IsValid farm
unfolding harvest_yield_for_crop growth_duration_for_crop get_crop_config find_config crop_configs
farm-IsValid = record {
  distinct = (refl, tt);
  entries = (
    (
      refl,
      inr (record {
        grows = refl;
        left = omega arith;
        at_most = omega arith;
        waterings = omega arith;
        schedule = refl;
        real = omega arith;
      }),
    ),
    tt,
  );
}

abbrev theft : Command
theft = command steal_crop 2 7

abbrev picking : Command
picking = command harvest 1 7

abbrev accepted : Result (ApplyResult × Snapshot) → ApplyResult × Snapshot
accepted (ok r) = r
accepted (err e) = (changed ripe watered, farm)

abbrev stolen_by : ApplyResult × Snapshot
stolen_by = accepted (apply_cmd farm theft now)

-- A theft and the harvest after it.
abbrev day : List (Command × Time)
day = (theft, now) ∷ (picking, now) ∷ []

abbrev carrot_config : CropConfig
carrot_config = record {
  seed_price = 20;
  growth_duration = 6 * minute;
  harvest_yield = 6;
  sell_price = 25;
  item_id = 2;
  catalog_key = "crop_CARROT";
}

abbrev planting_task : TaskConfig
planting_task = record {
  task_key = "plant_10";
  target_event = "farm.planted.v1";
  target = 10;
  coin_reward = 50;
}

abbrev claimed : ℕ × Db
claimed = outcome 0 test_db (claim_reward_once 1 "plant_10" planting_task test_db)

yield_conserved_example :
    outstanding 7 (run farm day) + total given_out 7 farm day
    ≡ outstanding 7 farm + total sown 7 farm day
yield_conserved_example = yield_conserved 7 farm day farm-IsValid (omega arith, (omega arith, tt))

unmarshal-marshal_example : unmarshal_plots test_env (marshal_plots test_env plots) ≡ some plots
unmarshal-marshal_example =
    unmarshal-marshal test_env plots test_env-ReadsBack (refl, tt) (refl, tt)

abbrev after_claim : List TaskEvent
after_claim = progresses 1 "plant_10" 1 ∷ claims 1 "plant_10" ∷ []

claim_pays_once_example :
    (claimed.0 ≡ planting_task.coin_reward)
    × (row : TaskRow) × (test_db.player_tasks 1 "plant_10" ≡ some row)
    × (row.status ≡ completed)
    × ((balance : ℕ)
        → test_db.wallets 1 ≡ some balance
        → claimed.1.wallets 1 ≡ some (balance + planting_task.coin_reward))
    × (claim_reward_once 1 "plant_10" planting_task (happen_all after_claim claimed.1)
        ≡ err (coded task_already_claimed))
unfolding claim_reward_once
claim_pays_once_example =
    claim_pays_once 1 "plant_10" planting_task test_db claimed.1 claimed.0 after_claim refl
