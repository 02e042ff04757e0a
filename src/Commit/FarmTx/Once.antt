-- ===== src/Commit/FarmTx/Once.antt =====
-- The receipt of a settled command, as the query of a second delivery finds it (`commitFarmCommandOnce`
-- of server/internal/farm/infrastructure/committer_mysql.go).
use farm_server.Base.{ℕ, ◌≡◌, refl, true, some}
use farm_server.Farm.{Command, CommitResult}
use farm_server.Store.{Db}
use farm_server.Commit.Rows.{empty_patch, requires_command_receipt, check_receipt}
use farm_server.Commit.FarmTx.{find_replay}

-- The result that a receipt stands for.
abbrev pub replay_of : ℕ → CommitResult
replay_of version = record {
  new_version = version;
  patch = empty_patch;
  event_id = "";
  replayed = true;
  coin_balance = 0;
}

pub found-replay :
    (cmd : Command) (db : Db) (version : ℕ)
    → requires_command_receipt cmd.type ≡ true
    → db.receipts cmd.actor_user cmd.cmd_id ≡ some version
    → find_replay cmd db ≡ some (replay_of version)
unfolding find_replay check_receipt
found-replay cmd db version r e = rw (r, check_receipt, e) refl
