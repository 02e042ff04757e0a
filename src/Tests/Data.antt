-- ===== src/Tests/Data.antt =====
-- A small database: the farm of player 1 at version 3 and epoch 5, with ripe wheat on plot 7, and
-- the friend 2.
use farm_server.Base.{
  ℕ, ◌+◌, ◌*◌, ap, true, false, [], ◌∷◌, none, some, Dict, ◌==◌, ◌&&◌, if◌then◌else◌,
}
use farm_server.Errors.{Result, ok, err}
use farm_server.Farm.{Time, zero_time, minute, pos, Plot, growing, Command, CommandType}
use farm_server.Store.{Env, ReadsBack, FarmRow, Db, completed}
use farm_server.Store.Json.{marshal_plots}
use farm_server.Tests.Unary.{unary, text_length, text_length-unary}

abbrev pub test_env : Env
test_env = record {
  use_friendship_edges = true;
  defer_remote_steal_credit = λ a b. false;
  unhex = λ s. some s;
  is_blank = λ s. false;
  itoa = unary;
  parse_int = λ s. some (text_length s);
}

pub test_env-ReadsBack : ReadsBack test_env
test_env-ReadsBack n = ap (λ (m : ℕ). some m) (text_length-unary n)

abbrev pub now : Time
now = zero_time + 1000 * minute

abbrev pub ripe : Plot
ripe = record {
  plot_id = 7;
  crop_id = "WHEAT";
  status = growing;
  planted_at = zero_time + 900 * minute;
  mature_at = zero_time + 903 * minute;
  watered_count = 0;
  remaining_yield = 5;
}

abbrev pub plots : Dict Plot
plots = (7, ripe) ∷ []

-- The database, with a row count for the seeds and for the ripe crops of player 1.
abbrev pub test_db : Db
test_db = record {
  farms = λ i. if i == 1 then some farm_row else none;
  receipts = λ u c. none;
  wallets = λ u. if u == 1 then some 500 else none;
  inventory = λ u t i. if u == 1 && i == 1 then some 4 else none;
  ledger = [];
  outbox = [];
  active_pets = λ u. none;
  friendship_edges = λ a b. true;
  friendships = λ a b. false;
  accounts = λ u. none;
  player_tasks =
      λ u k. if u == 1 then some (record { progress = 10; status = completed }) else none;
}
  where
    farm_row : FarmRow
    farm_row = record {
      owner_user_id = 1;
      version = 3;
      body = marshal_plots test_env plots;
      route_epoch = 5;
      next_pet_action_at = none;
      pet_scan_lease_owner = none;
      pet_scan_lease_until = none;
    }

-- A command of player 1 or 2 on farm 1, made for the stored version and epoch.
abbrev pub command : CommandType → ℕ → ℕ → Command
command t actor plot = record {
  cmd_id = "c1";
  farm_id = 1;
  actor_user = actor;
  type = t;
  plot_id = plot;
  crop_id = "WHEAT";
  quantity = pos 3;
  base_version = 3;
  route_epoch = 5;
  pet_scheduled_at = zero_time;
}

-- The result and the tables of a transaction, the given ones where it fails.
abbrev pub outcome : {A : Type 0} → A → Db → Result (A × Db) → A × Db
outcome a db (ok r) = r
outcome a db (err e) = (a, db)
