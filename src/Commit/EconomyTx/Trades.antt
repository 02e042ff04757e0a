-- ===== src/Commit/EconomyTx/Trades.antt =====
-- A purchase or sale that is sent again (`commitEconomicTx` of
-- server/internal/farm/infrastructure/committer_mysql.go).
use farm_server.Base.{ℕ, ◌≡◌, refl, true, String, List, none}
use farm_server.Errors.{ok}
use farm_server.Farm.{Command, CommitResult}
use farm_server.Store.{Env, Db}
use farm_server.Commit.Rows.{empty_patch}
use farm_server.Commit.Assets.{check_economy_transaction}
use farm_server.Commit.EconomyTx.{biz_of, unless_found, commit_economic_seen}
use farm_server.Commit.EconomyTx.Settled.Ledger.{IsTrade, commit_economic-Booked}
use farm_server.Commit.History.{Event, happen_all, happen_all-Grows}

-- The result that a row of the ledger stands for.
abbrev replay_of : ℕ → CommitResult
replay_of balance = record {
  new_version = 0;
  patch = empty_patch;
  event_id = "";
  replayed = true;
  coin_balance = balance;
}

-- Sent again after it committed, a purchase or sale returns the balance after its own settlement,
-- marked as replayed, and changes nothing, whatever commands of any player and claims of routes have
-- committed or failed in between.
pub trade_replays :
    (env : Env) (event_id again_id : String) (cmd : Command) (seen db db' : Db) (res : CommitResult)
    (es : List Event)
    → IsTrade cmd.type
    → check_economy_transaction env cmd.actor_user (biz_of cmd.type) cmd.cmd_id seen ≡ none
    → commit_economic_seen env event_id cmd seen db ≡ ok (res, db')
    → (again : CommitResult) × (commit_economic_seen env again_id cmd
          (happen_all es db')
          (happen_all es db')
        ≡ ok (again, happen_all es db'))
      × (again.coin_balance ≡ res.coin_balance)
      × (again.replayed ≡ true)
unfolding commit_economic_seen unless_found check_economy_transaction
trade_replays env event_id again_id cmd seen db db' res es t new h =
    let (fits, (id, key, fresh, row)) =
      commit_economic-Booked env event_id cmd seen db db' res t new h in
    let kept =
      (happen_all-Grows es db').2 cmd.actor_user (biz_of cmd.type) id res.coin_balance row in
    (replay_of res.coin_balance, rw (fits, check_economy_transaction, key, kept) refl, refl, refl)
