-- ===== src/Farm.antt =====
-- The farm aggregate: entities and commands (server/internal/farm/domain/farm.go) and the ports of
-- the commit contract (server/internal/farm/application/commit.go).
--
-- A `time.Time` is a number of nanoseconds counted from the least instant that Go represents, 2^63
-- seconds before the zero time, so the zero time is `zero_time`. Ids, versions and epochs are
-- natural numbers: the code compares and orders them, and adds one to a version.
pub mod Crops
pub mod Growth
pub mod Apply
use farm_server.Base.{ℕ, ◌-◌, ◌*◌, ◌^◌, Bool, String, List, Dict}

abbrev pub Time : Type 0
Time = ℕ

abbrev pub zero_time : Time
zero_time = 2 ^ 63 * 1000000000

abbrev pub second : ℕ
second = 1000000000

abbrev pub minute : ℕ
minute = 60 * second

abbrev pub max_int64 : ℕ
max_int64 = 2 ^ 63 - 1

-- A signed argument, such as the quantity that a client sends. `negsuc n` is -(n + 1).
pub data ℤ : Type 0 where
  pos : ℕ → ℤ
  negsuc : ℕ → ℤ

-- `unset` is the empty string, the status of the zero `Plot`.
pub data PlotStatus : Type 0 where
  unset empty growing mature : PlotStatus

pub data CropGrowthStage : Type 0 where
  seedling semi_mature stage_mature : CropGrowthStage

pub record Plot : Type 0 where
  pub plot_id : ℕ
  pub crop_id : String
  pub status : PlotStatus
  pub planted_at : Time
  pub mature_at : Time
  pub watered_count : ℕ
  pub remaining_yield : ℕ

-- The zero value of `Plot` with its id: what a missing map entry and a cleared plot start from.
abbrev pub blank : ℕ → PlotStatus → Plot
blank id st = record {
  plot_id = id;
  crop_id = "";
  status = st;
  planted_at = zero_time;
  mature_at = zero_time;
  watered_count = 0;
  remaining_yield = 0;
}

pub record Snapshot : Type 0 where
  pub farm_id : ℕ
  pub owner_id : ℕ
  pub version : ℕ
  pub route_epoch : ℕ
  pub plots : Dict Plot

pub record Patch : Type 0 where
  pub farm_id : ℕ
  pub version : ℕ
  pub plots : List Plot
  pub actor_user : ℕ

-- `other` is any command type that the code does not know.
pub data CommandType : Type 0 where
  plant water harvest purchase_seed sell_crop help_water steal_crop pet_auto_harvest : CommandType
  other : CommandType

abbrev pub max_economy_quantity : ℕ
max_economy_quantity = 10000

pub record Command : Type 0 where
  pub cmd_id : String
  pub farm_id : ℕ
  pub actor_user : ℕ
  pub type : CommandType
  pub plot_id : ℕ
  pub crop_id : String
  pub quantity : ℤ
  pub base_version : ℕ
  pub route_epoch : ℕ
  pub pet_scheduled_at : Time

pub record CommitResult : Type 0 where
  pub new_version : ℕ
  pub patch : Patch
  pub event_id : String
  pub replayed : Bool
  pub coin_balance : ℕ
