-- ===== src/Farm/Apply/Valid.antt =====
-- The well-formed snapshots: what the code keeps true of every stored plot.
use farm_server.Base.{
  ℕ, String, ◌+◌, ◌*◌, ◌≤◌, ◌<◌, ◌≡◌, refl, ◌⊎◌, inl, inr, Option, none, some, lookup, IsDistinct,
  insert-IsDistinct, All, All-erase, All-lookup, arith, subst, sym,
}
use farm_server.Errors.{ok, Result-cases}
use farm_server.Farm.{
  Time, zero_time, minute, Plot, unset, empty, growing, mature, Snapshot, Command, CommandType,
  plant, water, harvest, purchase_seed, sell_crop, help_water, steal_crop, pet_auto_harvest, other,
}
use farm_server.Farm.Crops.{
  get_crop_config, get_crop_config-IsSound, harvest_yield_for_crop, harvest_yield_bounds,
}
use farm_server.Farm.Growth.{effective_status, water_by_growth_stage, water_effect}
use farm_server.Farm.Apply.{
  ApplyResult, plot_at, growth_duration_for_crop, apply_plant, apply_to_plot, apply_cmd,
}
use farm_server.Farm.Apply.Shape.{apply_cmd-eq-ok, changed_plot-plot_id}

-- A planted plot has between one unit and the crop's whole yield left, at most two waterings, and
-- ripens one minute earlier for each of them.
pub record IsPlanted (p : Plot) : Type 0 where
  pub grows : p.status ≡ growing
  pub left : 0 < p.remaining_yield
  pub at_most : p.remaining_yield ≤ harvest_yield_for_crop p.crop_id
  pub waterings : p.watered_count ≤ 2
  pub schedule :
      p.mature_at + p.watered_count * minute ≡ p.planted_at + growth_duration_for_crop p.crop_id
  pub real : zero_time ≤ p.planted_at

abbrev pub IsCleared : Plot → Type 0
IsCleared p = (p.status ≡ empty) × (p.remaining_yield ≡ 0)

abbrev pub IsValidPlot : Plot → Type 0
IsValidPlot p = IsCleared p ⊎ IsPlanted p

abbrev pub IsValidEntry : ℕ × Plot → Type 0
IsValidEntry (id, p) = (p.plot_id ≡ id) × IsValidPlot p

pub record IsValid (s : Snapshot) : Type 0 where
  pub distinct : IsDistinct s.plots
  pub entries : All IsValidEntry s.plots

-- The plot that a command reads: one that is stored, or the zero plot of a missing entry.
abbrev pub IsReadable : Plot → Type 0
IsReadable p = ((p.status ≡ unset) × (p.remaining_yield ≡ 0)) ⊎ IsValidPlot p

set_id : (id : ℕ) (p : Plot) → IsValidPlot p → IsValidPlot (record p { plot_id = id })
set_id id p (inl h) = inl h
set_id id p (inr v) = inr (record {
  grows = v.grows;
  left = v.left;
  at_most = v.at_most;
  waterings = v.waterings;
  schedule = v.schedule;
  real = v.real;
})

pub plot_at-IsReadable : (s : Snapshot) (id : ℕ) → IsValid s → IsReadable (plot_at s.plots id)
unfolding plot_at
plot_at-IsReadable s id v = go (lookup id s.plots) refl
  where
    go :
        (o : Option Plot)
        → lookup id s.plots ≡ o
        → IsReadable
            (elim o [ none ↦ farm_server.Farm.blank id unset | some p ↦ record p { plot_id = id } ])
    go none e = inl (refl, refl)
    go (some p) e = inr (set_id id p (All-lookup IsValidEntry id p s.plots v.entries e).1)

pub growth_duration-gt : (id : String) → 2 * minute < growth_duration_for_crop id
unfolding growth_duration_for_crop
growth_duration-gt id = elim (Result-cases (get_crop_config id)) [
  | inl (cfg, e) ↦ ground (arith, get_crop_config-IsSound id cfg e)
  | inr (e, h) ↦ ground arith
]

plant-IsValidPlot :
    (p : Plot) (cmd : Command) (now : Time) (ar : ApplyResult)
    → zero_time ≤ now
    → apply_plant p cmd now ≡ ok ar
    → IsValidPlot ar.changed_plot
unfolding apply_plant
plant-IsValidPlot p cmd now ar z h = ground (arith, harvest_yield_bounds cmd.crop_id)

water-IsValidPlot : (p : Plot) (now : Time) → IsPlanted p → IsPlanted (water_by_growth_stage p now)
water-IsValidPlot p now v = ground (arith, water_effect p now, growth_duration-gt p.crop_id)

apply_to_plot-IsValidPlot :
    (t : CommandType) (s : Snapshot) (p : Plot) (cmd : Command) (now : Time) (ar : ApplyResult)
    → zero_time ≤ now
    → IsReadable p
    → apply_to_plot t s.plots p cmd now ≡ ok ar
    → IsValidPlot ar.changed_plot
unfolding apply_to_plot effective_status
apply_to_plot-IsValidPlot plant s p cmd now ar z v h = plant-IsValidPlot p cmd now ar z h
apply_to_plot-IsValidPlot harvest s p cmd now ar z v h = ground arith
apply_to_plot-IsValidPlot water s p cmd now ar z v h = ground (arith, water-IsValidPlot p now)
apply_to_plot-IsValidPlot help_water s p cmd now ar z v h = ground (arith, water-IsValidPlot p now)
apply_to_plot-IsValidPlot steal_crop s p cmd now ar z v h =
    ground (arith, harvest_yield_bounds p.crop_id)
apply_to_plot-IsValidPlot pet_auto_harvest s p cmd now ar z v h = ground arith
apply_to_plot-IsValidPlot purchase_seed s p cmd now ar z v h = cc
apply_to_plot-IsValidPlot sell_crop s p cmd now ar z v h = cc
apply_to_plot-IsValidPlot other s p cmd now ar z v h = cc

-- Every accepted command keeps the snapshot well formed: one entry for each plot, under its own id,
-- cleared or planted as above.
pub apply_cmd-IsValid :
    (s : Snapshot) (cmd : Command) (now : Time) (ar : ApplyResult) (s' : Snapshot)
    → IsValid s
    → zero_time ≤ now
    → apply_cmd s cmd now ≡ ok (ar, s')
    → IsValid s'
apply_cmd-IsValid s cmd now ar s' v z h =
    let (applied, shape) = apply_cmd-eq-ok s cmd now h in
    subst IsValid (sym shape) (record {
      distinct = insert-IsDistinct cmd.plot_id ar.changed_plot s.plots v.distinct;
      entries = (
        (
          changed_plot-plot_id s cmd now h,
          apply_to_plot-IsValidPlot cmd.type s (plot_at s.plots cmd.plot_id) cmd now ar z
              (plot_at-IsReadable s cmd.plot_id v) applied,
        ),
        All-erase IsValidEntry cmd.plot_id s.plots v.entries,
      );
    })
