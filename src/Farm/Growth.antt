-- ===== src/Farm/Growth.antt =====
-- Lazy growth: `EffectiveStatus` and `GrowthStage` of server/internal/farm/domain/farm.go, and
-- `waterByGrowthStage` of server/internal/farm/infrastructure/committer_mysql.go.
use farm_server.Base.{
  ℕ, ◌+◌, ◌-◌, ◌*◌, ◌^◌, ◌≤◌, ◌<◌, ◌≡◌, ◌≢◌, ◌↔◌, ◌⊎◌, Bool, true, false, not, ◌&&◌, ◌||◌, arith,
  ltb, leb, ◌==◌, if◌then◌else◌, min,
}
use farm_server.Farm.{
  Time, zero_time, minute, max_int64, Plot, PlotStatus, empty, growing, mature, CropGrowthStage,
  seedling, semi_mature, stage_mature,
}

abbrev pub is_growing : PlotStatus → Bool
is_growing growing = true
is_growing _ = false

abbrev pub is_empty : PlotStatus → Bool
is_empty empty = true
is_empty _ = false

-- `!now.Before(t)`
abbrev reached : Time → Time → Bool
reached t now = leb t now

unfoldable pub effective_status : Plot → Time → PlotStatus
effective_status p now =
    if is_growing p.status && not (p.mature_at == zero_time) && reached p.mature_at now
    then mature
    else p.status

-- `Sub` saturates at the largest `int64`; `elapsed * 2` wraps, and is then negative.
abbrev saturated : ℕ → ℕ
saturated d = min d max_int64

past_half : ℕ → ℕ → Bool
past_half elapsed total = ltb (elapsed * 2) (2 ^ 63) && leb total (elapsed * 2)

unfoldable pub growth_stage : Plot → Time → CropGrowthStage
unfolding past_half
growth_stage p now =
    if is_empty p.status
    then seedling
    else if p.mature_at == zero_time || reached p.mature_at now
    then stage_mature
    else if leb p.mature_at p.planted_at
    then stage_mature
    else if past_half (saturated (now - p.planted_at)) (saturated (p.mature_at - p.planted_at))
    then semi_mature
    else seedling

-- One watering counts in each of the first two stages, in order.
unfoldable pub water_by_growth_stage : Plot → Time → Plot
water_by_growth_stage p now = elim (growth_stage p now) [
  | seedling ↦ if p.watered_count == 0 then watered else p
  | semi_mature ↦ if p.watered_count == 1 then watered else p
  | stage_mature ↦ p
]
  where
    watered : Plot
    watered = record p { mature_at = p.mature_at - minute; watered_count = p.watered_count + 1 }

-- The order of the stages.
abbrev pub rank : CropGrowthStage → ℕ
rank seedling = 0
rank semi_mature = 1
rank stage_mature = 2

-- A plot's stage never goes back while time passes, if it grows for less than the 146 years after
-- which the doubled duration leaves the range of an `int64`.
pub growth_stage_mono :
    (p : Plot) (now later : Time)
    → p.mature_at - p.planted_at < 2 ^ 62
    → now ≤ later
    → rank (growth_stage p now) ≤ rank (growth_stage p later)
unfolding growth_stage
growth_stage_mono p now later short h = ground arith

-- For a growing plot with a proper growth period the two views agree: the stage is the mature one
-- exactly when the effective status is `mature`.
pub growth_stage-effective_status :
    (p : Plot) (now : Time)
    → p.status ≡ growing
    → zero_time < p.mature_at
    → p.planted_at < p.mature_at
    → (growth_stage p now ≡ stage_mature) ↔ (effective_status p now ≡ mature)
unfolding growth_stage effective_status
growth_stage-effective_status p now g z d = (ground arith, ground arith)

-- A watering counts one and shortens the wait by one minute, with at most two that count, or it
-- leaves the plot alone.
pub water_effect :
    (p : Plot) (now : Time)
    → (water_by_growth_stage p now
          ≡ record p { mature_at = p.mature_at - minute; watered_count = p.watered_count + 1 })
        × (p.watered_count ≤ 1)
        × (growth_stage p now ≢ stage_mature)
      ⊎ (water_by_growth_stage p now ≡ p)
unfolding water_by_growth_stage
water_effect p now = ground arith

-- Each growth stage has one watering at most: if the plot is in the same stage at the second
-- watering as at the first, the second changes nothing.
pub water_once_per_stage :
    (p : Plot) (now later : Time)
    → growth_stage (water_by_growth_stage p now) later ≡ growth_stage p now
    → water_by_growth_stage (water_by_growth_stage p now) later ≡ water_by_growth_stage p now
unfolding water_by_growth_stage
water_once_per_stage p now later h = ground arith

pub water-plot_id : (p : Plot) (now : Time) → (water_by_growth_stage p now).plot_id ≡ p.plot_id
unfolding water_by_growth_stage
water-plot_id p now = ground arith
