-- ===== src/Farm/Apply.antt =====
-- `applyCmd` and `smallestMaturePlotID` of server/internal/farm/infrastructure/committer_mysql.go:
-- a command applied to a snapshot in memory.
pub mod Shape
pub mod Valid
pub mod Smallest
pub mod Yield
use farm_server.Base.{
  ℕ, ◌+◌, ◌-◌, ◌/◌, Bool, true, false, not, ◌&&◌, ◌||◌, String, [], ◌∷◌, Option, none, some, ltb,
  leb, ◌==◌, if◌then◌else◌, Dict, lookup, insert,
}
use farm_server.Errors.{
  common_invalid_argument, farm_plot_state, farm_version_conflict, coded, Result, ok, err,
}
use farm_server.Farm.{
  Time, Plot, blank, PlotStatus, unset, empty, growing, mature, Snapshot, Command, CommandType,
  plant, water, harvest, help_water, steal_crop, pet_auto_harvest,
}
use farm_server.Farm.Crops.{get_crop_config, default_growth_duration, harvest_yield_for_crop}
use farm_server.Farm.Growth.{effective_status, is_empty, water_by_growth_stage}

pub data EventType : Type 0 where
  planted harvested watered stolen : EventType

pub data HarvestMode : Type 0 where
  no_mode manual pet_auto : HarvestMode

pub record ApplyResult : Type 0 where
  pub changed_plot : Plot
  pub event_type : EventType
  pub harvested_crop_id : String
  pub harvested_yield : ℕ
  pub harvest_mode : HarvestMode
  pub stolen_amount : ℕ
  pub remaining_yield : ℕ

-- The result of a command that only changes its plot; the other fields are zero values.
abbrev pub changed : Plot → EventType → ApplyResult
changed p t = record {
  changed_plot = p;
  event_type = t;
  harvested_crop_id = "";
  harvested_yield = 0;
  harvest_mode = no_mode;
  stolen_amount = 0;
  remaining_yield = 0;
}

abbrev pub is_unset : PlotStatus → Bool
is_unset unset = true
is_unset _ = false

abbrev pub is_mature : PlotStatus → Bool
is_mature mature = true
is_mature _ = false

-- `snap.Plots[cmd.PlotID]` with its id set: a missing entry is the zero plot.
unfoldable pub plot_at : Dict Plot → ℕ → Plot
plot_at plots id = elim (lookup id plots) [
  | none ↦ blank id unset
  | some p ↦ record p { plot_id = id }
]

unfoldable pub growth_duration_for_crop : String → ℕ
growth_duration_for_crop id = elim (get_crop_config id) [
  | ok cfg ↦ cfg.growth_duration
  | err e ↦ default_growth_duration
]

apply_plant : Plot → Command → Time → Result ApplyResult
apply_plant p cmd now =
    if not (is_unset p.status) && not (is_empty p.status)
    then err (coded farm_plot_state)
    else ok (changed sown planted)
  where
    sown : Plot
    sown = record p {
      crop_id = cmd.crop_id;
      status = growing;
      planted_at = now;
      mature_at = now + growth_duration_for_crop cmd.crop_id;
      watered_count = 0;
      remaining_yield = harvest_yield_for_crop cmd.crop_id;
    }

-- What both kinds of harvest do to a mature plot.
abbrev pub cleared : Plot → HarvestMode → ApplyResult
cleared p mode = record (changed (blank p.plot_id empty) harvested) {
  harvested_crop_id = p.crop_id;
  harvested_yield = p.remaining_yield;
  harvest_mode = mode;
}

apply_harvest : Plot → Time → Result ApplyResult
apply_harvest p now =
    if not (is_mature (effective_status p now))
    then err (coded farm_plot_state)
    else ok (cleared p manual)

apply_water : Plot → Time → Result ApplyResult
apply_water p now =
    if is_empty (effective_status p now) || is_unset (effective_status p now)
    then err (coded farm_plot_state)
    else ok (changed (water_by_growth_stage p now) watered)

apply_steal : Plot → Time → Result ApplyResult
apply_steal p now =
    if not (is_mature (effective_status p now))
    then err (coded farm_plot_state)
    else if leb amount 0 || leb p.remaining_yield amount
    then err (coded farm_plot_state)
    else ok (record (changed left stolen) {
      harvested_crop_id = p.crop_id;
      stolen_amount = amount;
      remaining_yield = p.remaining_yield - amount;
    })
  where
    amount : ℕ
    amount = harvest_yield_for_crop p.crop_id / 5

    left : Plot
    left = record p { remaining_yield = p.remaining_yield - amount }

-- One round of the loop over the plots: `best` is `smallest` where `found` holds.
better : Option ℕ → ℕ → Plot → Time → Option ℕ
better best id p now = if not (is_mature (effective_status p now)) then best else elim best [
  | none ↦ some id
  | some smallest ↦ if ltb id smallest then some id else some smallest
]

smallest_from : Option ℕ → Dict Plot → Time → Option ℕ
smallest_from best [] now = best
smallest_from best ((id, p) ∷ plots) now = smallest_from (better best id p now) plots now

unfoldable pub smallest_mature_plot_id : Dict Plot → Time → Option ℕ
unfolding smallest_from better
smallest_mature_plot_id plots now = smallest_from none plots now

abbrev is_id : ℕ → Option ℕ → Bool
is_id id none = false
is_id id (some j) = j == id

apply_pet_auto_harvest : Dict Plot → Plot → Time → Result ApplyResult
apply_pet_auto_harvest plots p now =
    if not (is_mature (effective_status p now))
    then err (coded farm_plot_state)
    else if not (is_id p.plot_id (smallest_mature_plot_id plots now))
    then err (coded farm_version_conflict)
    else ok (cleared p pet_auto)

-- The `switch` on the command type, on the plot that the command names.
pub apply_to_plot : CommandType → Dict Plot → Plot → Command → Time → Result ApplyResult
unfolding apply_plant apply_harvest apply_water apply_steal apply_pet_auto_harvest
apply_to_plot plant plots p cmd now = apply_plant p cmd now
apply_to_plot harvest plots p cmd now = apply_harvest p now
apply_to_plot water plots p cmd now = apply_water p now
apply_to_plot help_water plots p cmd now = apply_water p now
apply_to_plot steal_crop plots p cmd now = apply_steal p now
apply_to_plot pet_auto_harvest plots p cmd now = apply_pet_auto_harvest plots p now
apply_to_plot _ plots p cmd now = err (coded common_invalid_argument)

-- `snap.Plots[cmd.PlotID] = plot`, where a branch succeeds.
store_plot : Snapshot → Command → Result ApplyResult → Result (ApplyResult × Snapshot)
store_plot s cmd (ok ar) = ok (ar, record s { plots = insert cmd.plot_id ar.changed_plot s.plots })
store_plot s cmd (err e) = err e

unfoldable pub apply_cmd : Snapshot → Command → Time → Result (ApplyResult × Snapshot)
unfolding plot_at apply_to_plot store_plot
apply_cmd s cmd now =
    store_plot s cmd (apply_to_plot cmd.type s.plots (plot_at s.plots cmd.plot_id) cmd now)
