-- ===== src/Task.antt =====
-- Tasks and their rewards (server/internal/task/infrastructure/mysql_task_service.go).
pub mod Reward
use farm_server.Base.{
  ℕ, zero, suc, ◌+◌, Bool, true, false, not, String, List, [], ◌∷◌, Option, none, some, min, ltb,
  leb, ◌==◌, ◌&&◌, str_eq, if◌then◌else◌,
}
use farm_server.Errors.{
  coded, common_invalid_argument, task_already_claimed, task_not_completed, Error, Result,
}
use farm_server.Errors.Retry.{value}
use farm_server.Farm.{max_int64}
use farm_server.Store.{Db, TaskStatus, active, completed, reward_claimed, TaskRow}
use farm_server.Store.Tx.{Tx, ◌>>◌, ◌>>=◌, pure, fail, modify}
use farm_server.Commit.Rows.{out_of_range}

-- `TaskConfig`; the description is left out.
pub record TaskConfig : Type 0 where
  pub task_key : String
  pub target_event : String
  pub target : ℕ
  pub coin_reward : ℕ

-- `taskConfigs`
abbrev pub task_configs : List TaskConfig
task_configs =
    record {
      task_key = "plant_10";
      target_event = "farm.planted.v1";
      target = 10;
      coin_reward = 50;
    }
    ∷ record {
      task_key = "harvest_5";
      target_event = "farm.harvested.v1";
      target = 5;
      coin_reward = 80;
    }
    ∷ record { task_key = "steal_1"; target_event = "farm.stolen.v1"; target = 1; coin_reward = 30 }
    ∷ record {
      task_key = "help_water_3";
      target_event = "farm.watered.v1_help";
      target = 3;
      coin_reward = 40;
    }
    ∷ []

pub find_task : String → List TaskConfig → Option TaskConfig
find_task key [] = none
find_task key (cfg ∷ cfgs) = if str_eq cfg.task_key key then some cfg else find_task key cfgs

-- `GetTaskConfig`
pub get_task_config : String → Option TaskConfig
unfolding find_task
get_task_config key = find_task key task_configs

-- The statement of `IncrProgress` on one row. MySQL assigns from left to right, so that the test of
-- the status sees the new progress.
pub progressed : ℕ → ℕ → Option TaskRow → TaskRow
progressed target delta none = record { progress = delta; status = active }
progressed target delta (some row) = bump row.status
  where
    bump : TaskStatus → TaskRow
    bump active = record {
      progress = min (row.progress + delta) target;
      status = if leb target (min (row.progress + delta) target) then completed else active;
    }
    bump _ = row

abbrev pub set_task : ℕ → String → TaskRow → Db → Db
set_task user key row d = record d {
  player_tasks = λ u k. if u == user && str_eq k key then some row else d.player_tasks u k;
}

-- `IncrProgress`; a key that is no task's is skipped.
unfoldable pub incr_progress : ℕ → String → ℕ → Db → Db
unfolding get_task_config progressed
incr_progress user key delta db = elim (get_task_config key) [
  | none ↦ db
  | some cfg ↦ set_task user key (progressed cfg.target delta (db.player_tasks user key)) db
]

-- The UPDATE of the status, which hits a row that is COMPLETED, or the error.
mark_claimed : ℕ → String → Tx (Unit {0})
mark_claimed user key db = elim (db.player_tasks user key) [
  | none ↦ fail (coded task_not_completed) db
  | some row ↦ claim row.status row
]
  where
    claim : TaskStatus → TaskRow → farm_server.Errors.Result (Unit {0} × Db)
    claim completed row = modify (set_task user key (record row { status = reward_claimed })) db
    claim reward_claimed row = fail (coded task_already_claimed) db
    claim active row = fail (coded task_not_completed) db

-- The reward in the wallet; an UPDATE of a wallet that is not there changes nothing.
add_coins : ℕ → ℕ → Tx (Unit {0})
add_coins user coins db = elim (db.wallets user) [
  | none ↦ pure tt db
  | some balance ↦
      if ltb max_int64 (balance + coins)
      then fail out_of_range db
      else modify
          (λ d. record d {
            wallets = λ u. if u == user then some (balance + coins) else d.wallets u;
          })
          db
]

-- Step 2 of `claimRewardOnce`: nothing is written for a reward of zero.
pay_reward : ℕ → ℕ → Tx (Unit {0})
unfolding add_coins
pay_reward user zero = pure tt
pay_reward user (suc n) = add_coins user (suc n)

-- `claimRewardOnce`
unfoldable pub claim_reward_once : ℕ → String → TaskConfig → Tx ℕ
unfolding mark_claimed pay_reward
claim_reward_once user key cfg = do
  mark_claimed user key
  pay_reward user cfg.coin_reward
  pure cfg.coin_reward

-- `ClaimReward`, one attempt.
unfoldable pub claim_reward : ℕ → String → Tx ℕ
unfolding claim_reward_once get_task_config
claim_reward user key db = elim (get_task_config key) [
  | none ↦ fail (coded common_invalid_argument) db
  | some cfg ↦ claim_reward_once user key cfg db
]
