-- ===== src/Farm/Apply/Yield.antt =====
-- Where a crop's yield goes: what is sown is what is stolen, harvested, or still on the plot.
use farm_server.Base.{
  ℕ, ◌+◌, ◌/◌, ◌≤◌, ◌<◌, ◌≡◌, refl, inl, inr, insert, List, [], ◌∷◌, if◌then◌else◌, ◌==◌,
  lookup-insert, All, arith, Bool-cases, ==_iff, subst,
}
use farm_server.Errors.{Result, ok, err, Result-cases}
use farm_server.Farm.{
  Time, zero_time, Plot, Snapshot, Command, CommandType, plant, water, harvest, purchase_seed,
  sell_crop, help_water, steal_crop, pet_auto_harvest, other,
}
use farm_server.Farm.Crops.{harvest_yield_for_crop}
use farm_server.Farm.Growth.{water_by_growth_stage}
use farm_server.Farm.Apply.{EventType, planted, ApplyResult, plot_at, apply_to_plot, apply_cmd}
use farm_server.Farm.Apply.Shape.{apply_cmd-eq-ok}
use farm_server.Farm.Apply.Valid.{IsValid, IsReadable, plot_at-IsReadable, apply_cmd-IsValid}

-- The yield that a plot still has.
abbrev pub outstanding : ℕ → Snapshot → ℕ
outstanding id s = (plot_at s.plots id).remaining_yield

-- What one result hands to a player.
abbrev pub given_out : ApplyResult → ℕ
given_out ar = ar.harvested_yield + ar.stolen_amount

abbrev sown_by : EventType → Plot → ℕ
sown_by planted p = p.remaining_yield
sown_by _ p = 0

-- What one result puts on the plot.
abbrev pub sown : ApplyResult → ℕ
sown ar = sown_by ar.event_type ar.changed_plot

water-remaining_yield :
    (p : Plot) (now : Time) → (water_by_growth_stage p now).remaining_yield ≡ p.remaining_yield
unfolding water_by_growth_stage
water-remaining_yield p now = ground arith

apply_to_plot-yield :
    (t : CommandType) (s : Snapshot) (p : Plot) (cmd : Command) (now : Time) (ar : ApplyResult)
    → IsReadable p
    → apply_to_plot t s.plots p cmd now ≡ ok ar
    → ar.changed_plot.remaining_yield + given_out ar ≡ p.remaining_yield + sown ar
unfolding apply_to_plot
apply_to_plot-yield plant s p cmd now ar v h = ground arith
apply_to_plot-yield harvest s p cmd now ar v h = ground arith
apply_to_plot-yield water s p cmd now ar v h = ground (arith, water-remaining_yield p now)
apply_to_plot-yield help_water s p cmd now ar v h = ground (arith, water-remaining_yield p now)
apply_to_plot-yield steal_crop s p cmd now ar v h = ground arith
apply_to_plot-yield pet_auto_harvest s p cmd now ar v h = ground arith
apply_to_plot-yield purchase_seed s p cmd now ar v h = cc
apply_to_plot-yield sell_crop s p cmd now ar v h = cc
apply_to_plot-yield other s p cmd now ar v h = cc

outstanding-insert :
    (id k : ℕ) (p : Plot) (s : Snapshot)
    → outstanding id (record s { plots = insert k p s.plots })
      ≡ (if id == k then p.remaining_yield else outstanding id s)
unfolding plot_at
outstanding-insert id k p s = elim (Bool-cases (id == k)) [
  | inl e ↦ ground arith
  | inr e ↦ ground (arith, lookup-insert id k p s.plots)
]

-- One accepted command, seen from any plot.
abbrev on_plot : ℕ → Command → ℕ → ℕ
on_plot id cmd n = if id == cmd.plot_id then n else 0

apply_cmd-yield :
    (id : ℕ) (s : Snapshot) (cmd : Command) (now : Time) (ar : ApplyResult) (s' : Snapshot)
    → IsValid s
    → apply_cmd s cmd now ≡ ok (ar, s')
    → outstanding id s' + on_plot id cmd (given_out ar)
      ≡ outstanding id s + on_plot id cmd (sown ar)
apply_cmd-yield id s cmd now ar s' v h =
    let (applied, shape) = apply_cmd-eq-ok s cmd now h in
    let moved : ar.changed_plot.remaining_yield + given_out ar
        ≡ outstanding cmd.plot_id s + sown ar =
      apply_to_plot-yield cmd.type s (plot_at s.plots cmd.plot_id) cmd now ar
        (plot_at-IsReadable s cmd.plot_id v) applied in
    rw (shape, outstanding-insert id cmd.plot_id ar.changed_plot s)
      (elim (Bool-cases (id == cmd.plot_id)) [
        | inl here ↦ rw (here, (==_iff id cmd.plot_id).0 here) moved
        | inr there ↦ rw there refl
      ])

steal_to_plot :
    (s : Snapshot) (p : Plot) (cmd : Command) (now : Time) (ar : ApplyResult)
    → apply_to_plot steal_crop s.plots p cmd now ≡ ok ar
    → (ar.stolen_amount ≡ harvest_yield_for_crop ar.harvested_crop_id / 5)
      × (0 < ar.stolen_amount)
      × (0 < ar.remaining_yield)
      × (ar.stolen_amount + ar.remaining_yield ≡ p.remaining_yield)
      × (ar.changed_plot.remaining_yield ≡ ar.remaining_yield)
unfolding apply_to_plot
steal_to_plot s p cmd now ar h = ground arith

-- A successful steal takes a fifth of the crop's whole yield, at least one unit, leaves at least one
-- unit to the owner, and reports both amounts.
pub steal_amounts :
    (s : Snapshot) (cmd : Command) (now : Time) (ar : ApplyResult) (s' : Snapshot)
    → cmd.type ≡ steal_crop
    → apply_cmd s cmd now ≡ ok (ar, s')
    → (ar.stolen_amount ≡ harvest_yield_for_crop ar.harvested_crop_id / 5)
      × (0 < ar.stolen_amount)
      × (0 < ar.remaining_yield)
      × (ar.stolen_amount + ar.remaining_yield ≡ outstanding cmd.plot_id s)
      × (outstanding cmd.plot_id s' ≡ ar.remaining_yield)
steal_amounts s cmd now ar s' t h =
    let (applied, shape) = apply_cmd-eq-ok s cmd now h in
    let p = plot_at s.plots cmd.plot_id in
    let (share, some_taken, some_left, sums, kept) =
      steal_to_plot s p cmd now ar
        (subst (λ t. apply_to_plot t s.plots p cmd now ≡ ok ar) t applied) in
    (
      share,
      some_taken,
      some_left,
      sums,
      rw (shape, outstanding-insert cmd.plot_id cmd.plot_id ar.changed_plot s) (ground arith),
    )

-- The server keeps the snapshot where a command is refused.
abbrev pub after : Snapshot → Result (ApplyResult × Snapshot) → Snapshot
after s (ok (ar, s')) = s'
after s (err e) = s

pub run : Snapshot → List (Command × Time) → Snapshot
run s [] = s
run s ((cmd, now) ∷ cs) = run (after s (apply_cmd s cmd now)) cs

-- The total of an amount over the accepted commands that name the plot `id`.
abbrev counted : (ApplyResult → ℕ) → ℕ → Command → Result (ApplyResult × Snapshot) → ℕ
counted f id cmd (ok (ar, s')) = on_plot id cmd (f ar)
counted f id cmd (err e) = 0

pub total : (ApplyResult → ℕ) → ℕ → Snapshot → List (Command × Time) → ℕ
total f id s [] = 0
total f id s ((cmd, now) ∷ cs) =
    counted f id cmd (apply_cmd s cmd now) + total f id (after s (apply_cmd s cmd now)) cs

-- Over any sequence of commands, at real times, on a well-formed snapshot, each plot conserves its
-- yield: what thieves and harvests took, with what is left, is what was there and what was sown.
pub yield_conserved :
    (id : ℕ) (s : Snapshot) (cs : List (Command × Time))
    → IsValid s
    → All (λ c. zero_time ≤ c.1) cs
    → outstanding id (run s cs) + total given_out id s cs ≡ outstanding id s + total sown id s cs
unfolding run total
yield_conserved id s [] v z = omega arith
yield_conserved id s ((cmd, now) ∷ cs) v z = elim (Result-cases (apply_cmd s cmd now)) [
  | inl ((ar, s'), e) ↦ rw e (
      omega (
        arith,
        apply_cmd-yield id s cmd now ar s' v e,
        yield_conserved id s' cs (apply_cmd-IsValid s cmd now ar s' v z.0 e) z.1,
      ))
  | inr (f, e) ↦ rw e (omega (arith, yield_conserved id s cs v z.1))
]
