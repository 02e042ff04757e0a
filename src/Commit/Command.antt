-- ===== src/Commit/Command.antt =====
-- `CommitFarmCommand` and `commitFarmCommandOnce` of
-- server/internal/farm/infrastructure/committer_mysql.go: the branch on the command and the bounded
-- retry.
use farm_server.Base.{
  ℕ, ◌≡◌, ◌≢◌, ◌∙◌, ◌≤◌, ◌⊎◌, subst, inl, inr, arith, Bool, true, false, ◌&&◌, ◌||◌, String, Option,
  none, some, if◌then◌else◌,
}
use farm_server.Errors.{plain, Error, Result, ok, err, is_transient, is_duplicate_key}
use farm_server.Errors.Retry.{value, max_attempts, value-IsOneAttempt}
use farm_server.Farm.{Time, CommandType, purchase_seed, sell_crop, Command, CommitResult}
use farm_server.Store.{Env, Db}
use farm_server.Store.Tx.{Tx, Fault, lost, interrupted, interrupted-IsOneRun, interrupted-RollsBack}
use farm_server.Commit.Rows.{requires_command_receipt}
use farm_server.Commit.FarmTx.{commit_farm_seen}
use farm_server.Commit.EconomyTx.{commit_economic_seen}

abbrev pub is_economic : CommandType → Bool
is_economic purchase_seed = true
is_economic sell_crop = true
is_economic _ = false

-- `commitFarmCommandOnce`
unfoldable pub commit_seen : Env → String → Time → Command → Db → Tx CommitResult
commit_seen env event_id now cmd seen =
    if is_economic cmd.type
    then commit_economic_seen env event_id cmd seen
    else commit_farm_seen env event_id now cmd seen

-- One attempt with nothing in between: the query sees the tables that the transaction changes.
unfoldable pub commit_once : Env → String → Time → Command → Tx CommitResult
commit_once env event_id now cmd db = commit_seen env event_id now cmd db db

should_retry : Command → Error → Bool
should_retry cmd e =
    is_transient e
    || (is_economic cmd.type || requires_command_receipt cmd.type) && is_duplicate_key e

-- One attempt of the loop, with what befalls its transaction.
attempt : Env → Option Fault → String → Time → Command → Db → Result CommitResult × Db
attempt env fault event_id now cmd = interrupted fault (commit_once env event_id now cmd)

-- `CommitFarmCommand`; `faults`, `event_id` and `clock` give what attempt `k` meets.
pub commit_farm_command :
    Env
    → (ℕ → Option Fault)
    → (ℕ → Bool)
    → (ℕ → String)
    → (ℕ → Time)
    → Command
    → Db
    → Result CommitResult × Db
unfolding should_retry attempt
commit_farm_command env faults wait event_id clock cmd =
    value wait (should_retry cmd) (λ k. attempt env (faults k) (event_id k) (clock k) cmd)

retried-≢ : (cmd : Command) (e : Error) → should_retry cmd e ≡ true → e ≢ plain
unfolding should_retry is_transient is_duplicate_key
retried-≢ cmd e h same =
    refused (is_economic cmd.type || requires_command_receipt cmd.type)
      (subst (λ x. should_retry cmd x ≡ true) same h)
  where
    refused : (b : Bool) → (is_transient plain || b && is_duplicate_key plain) ≢ true
    refused true k = cc
    refused false k = cc

-- Whatever befalls the attempts, `CommitFarmCommand` has committed at most one run of the transaction,
-- in one of the first three attempts: it returns the result of the run that it committed; or the
-- driver's error for a run that committed but whose answer was lost; or an error, and has changed
-- nothing. A run whose answer was lost is not tried again by this call.
pub commit_command_at_most_once :
    (env : Env) (faults : ℕ → Option Fault) (wait : ℕ → Bool) (event_id : ℕ → String)
    (clock : ℕ → Time) (cmd : Command) (db : Db)
    → ((k : ℕ) × (1 ≤ k)
        × (k ≤ max_attempts)
        × (res : CommitResult) × (db' : Db) × (commit_once env (event_id k) (clock k) cmd db
            ≡ ok (res, db'))
        × (((faults k ≡ none)
              × (commit_farm_command env faults wait event_id clock cmd db ≡ (ok res, db')))
            ⊎ ((faults k ≡ some lost)
                × (commit_farm_command env faults wait event_id clock cmd db ≡ (err plain, db')))))
      ⊎ ((e : Error) × (commit_farm_command env faults wait event_id clock cmd db ≡ (err e, db)))
unfolding commit_farm_command attempt
commit_command_at_most_once env faults wait event_id clock cmd db =
    let once : ℕ → Tx CommitResult = λ k. commit_once env (event_id k) (clock k) cmd in
    elim (value-IsOneAttempt wait (should_retry cmd) (λ k. interrupted (faults k) (once k)) db
      (λ k s e h again. interrupted-RollsBack (faults k) (once k) s e h (retried-≢ cmd e again))) [
        | inr failed ↦ inr failed
        | inl (k, lo, hi, out) ↦ elim (interrupted-IsOneRun (faults k) (once k) db) [
          | inl (res, d, run, inl (calm, x)) ↦
              inl (k, lo, omega arith, res, d, run, inl (calm, out ∙ x))
          | inl (res, d, run, inr (gone, x)) ↦
              inl (k, lo, omega arith, res, d, run, inr (gone, out ∙ x))
          | inr (e, x) ↦ inr (e, out ∙ x)
        ]
      ]
