-- ===== src/Store.antt =====
-- The database that gamesvr writes: the tables of migrations/mysql that the committer and the task
-- service use, and a transaction over them. Columns that no decision reads (`created_at`,
-- `updated_at`, surrogate ids) are left out.
pub mod Json
pub mod Tx
use farm_server.Base.{ℕ, ◌≡◌, Bool, String, List, Option, none, some}
use farm_server.Farm.{Time, ℤ, PlotStatus}
use farm_server.Farm.Apply.{EventType, HarvestMode}

-- What the committer is configured with, and what it takes from outside the repository.
pub record Env : Type 0 where
  -- `WithFriendshipEdges`
  pub use_friendship_edges : Bool
  -- `deferRemoteStealCredit`: constantly false where no decider is set
  pub defer_remote_steal_credit : ℕ → ℕ → Bool
  -- `UNHEX` into a `BINARY(16)` column: `none` for a text that the column does not take
  pub unhex : String → Option String
  -- whether `strings.TrimSpace` leaves nothing
  pub is_blank : String → Bool
  -- `strconv.Itoa` and `strconv.ParseInt` on the keys of the snapshot's JSON object
  pub itoa : ℕ → String
  pub parse_int : String → Option ℕ

-- The two conversions are inverse in the direction that a stored snapshot takes.
abbrev pub ReadsBack : Env → Type 0
ReadsBack env = (n : ℕ) → env.parse_int (env.itoa n) ≡ some n

pub data ItemType : Type 0 where
  seed_item crop_item : ItemType

pub data BizType : Type 0 where
  shop_purchase farm_sell cross_shard_steal : BizType

-- `plotJSON`; a missing `remaining_yield` is `none`.
pub record PlotJson : Type 0 where
  pub crop_id : String
  pub status : PlotStatus
  pub planted_at : Time
  pub mature_at : Time
  pub watered_count : ℕ
  pub remaining_yield : Option ℕ

-- A row of `farm_snapshots`. The JSON column is kept as the structure that is decoded from it.
pub record FarmRow : Type 0 where
  pub owner_user_id : ℕ
  pub version : ℕ
  pub body : List (String × PlotJson)
  pub route_epoch : ℕ
  pub next_pet_action_at : Option Time
  pub pet_scan_lease_owner : Option String
  pub pet_scan_lease_until : Option Time

-- A row of `economy_transactions`, with status COMMITTED. The currency and the source follow from
-- the business type; no decision reads the item changes.
pub record LedgerRow : Type 0 where
  pub user_id : ℕ
  pub biz_type : BizType
  pub biz_id : String
  pub balance_before : ℕ
  pub balance_delta : ℤ
  pub balance_after : ℕ

-- A display name, or the decimal text of the user id where no name is known.
pub data DisplayName : Type 0 where
  named : String → DisplayName
  id_text : ℕ → DisplayName

-- The fields that all payloads of farm events share.
pub record EventHead : Type 0 where
  pub farm_id : ℕ
  pub owner_user_id : ℕ
  pub actor_user_id : ℕ
  pub farm_version : ℕ
  pub plot_id : ℕ
  pub cmd_id : String

pub data Payload : Type 0 where
  farm_planted : EventHead → String → Time → Time → Payload
  farm_harvested : EventHead → String → ℕ → HarvestMode → Time → Payload
  farm_watered : EventHead → Time → Payload
  farm_stolen : EventHead → DisplayName → DisplayName → String → ℕ → ℕ → Time → Payload

-- A row of `outbox_events`, PENDING since `available_at`.
pub record OutboxRow : Type 0 where
  pub event_id : String
  pub event_type : EventType
  pub aggregate_id : ℕ
  pub correlation_id : String
  pub payload : Payload
  pub available_at : Time

pub data TaskStatus : Type 0 where
  active completed reward_claimed : TaskStatus

pub record TaskRow : Type 0 where
  pub progress : ℕ
  pub status : TaskStatus

pub record Db : Type 0 where
  pub farms : ℕ → Option FarmRow
  pub receipts : ℕ → String → Option ℕ
  pub wallets : ℕ → Option ℕ
  pub inventory : ℕ → ItemType → ℕ → Option ℕ
  pub ledger : List LedgerRow
  pub outbox : List OutboxRow
  -- `auto_harvest_enabled` of the user's ACTIVE pet
  pub active_pets : ℕ → Option Bool
  pub friendship_edges : ℕ → ℕ → Bool
  pub friendships : ℕ → ℕ → Bool
  pub accounts : ℕ → Option String
  pub player_tasks : ℕ → String → Option TaskRow

-- The quantity of an item; a missing row counts nothing.
abbrev pub or_zero : Option ℕ → ℕ
or_zero none = 0
or_zero (some n) = n

unfoldable pub quantity : Db → ℕ → ItemType → ℕ → ℕ
quantity db user t item = or_zero (db.inventory user t item)

-- The columns of a farm's row, with the values of the empty snapshot where there is no row.
abbrev pub version_of : Option FarmRow → ℕ
version_of none = 0
version_of (some row) = row.version

abbrev pub epoch_of : Option FarmRow → ℕ
epoch_of none = 0
epoch_of (some row) = row.route_epoch

abbrev pub owner_of : ℕ → Option FarmRow → ℕ
owner_of id none = id
owner_of id (some row) = row.owner_user_id

abbrev pub farm_version : Db → ℕ → ℕ
farm_version db id = version_of (db.farms id)

abbrev pub farm_epoch : Db → ℕ → ℕ
farm_epoch db id = epoch_of (db.farms id)

abbrev pub farm_owner : Db → ℕ → ℕ
farm_owner db id = owner_of id (db.farms id)
