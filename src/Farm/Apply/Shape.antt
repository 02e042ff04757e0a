-- ===== src/Farm/Apply/Shape.antt =====
-- What every command that `apply_cmd` accepts does to the snapshot.
use farm_server.Base.{ℕ, ◌≡◌, refl, insert, arith}
use farm_server.Errors.{Result, ok, err}
use farm_server.Farm.{
  Time, Plot, Snapshot, Command, CommandType, plant, water, harvest, purchase_seed, sell_crop,
  help_water, steal_crop, pet_auto_harvest, other,
}
use farm_server.Farm.Growth.{water-plot_id}
use farm_server.Farm.Apply.{ApplyResult, plot_at, apply_to_plot, store_plot, apply_cmd}

apply_to_plot-plot_id :
    (t : CommandType) (s : Snapshot) (p : Plot) (cmd : Command) (now : Time) (ar : ApplyResult)
    → apply_to_plot t s.plots p cmd now ≡ ok ar
    → ar.changed_plot.plot_id ≡ p.plot_id
unfolding apply_to_plot
apply_to_plot-plot_id plant s p cmd now ar h = ground arith
apply_to_plot-plot_id harvest s p cmd now ar h = ground arith
apply_to_plot-plot_id water s p cmd now ar h = ground (arith, water-plot_id p now)
apply_to_plot-plot_id help_water s p cmd now ar h = ground (arith, water-plot_id p now)
apply_to_plot-plot_id steal_crop s p cmd now ar h = ground arith
apply_to_plot-plot_id pet_auto_harvest s p cmd now ar h = ground arith
apply_to_plot-plot_id purchase_seed s p cmd now ar h = cc
apply_to_plot-plot_id sell_crop s p cmd now ar h = cc
apply_to_plot-plot_id other s p cmd now ar h = cc

plot_at-plot_id : (s : Snapshot) (id : ℕ) → (plot_at s.plots id).plot_id ≡ id
unfolding plot_at
plot_at-plot_id s id = ground arith

-- The plot, the result and the snapshot of an accepted command.
pub apply_cmd-eq-ok :
    (s : Snapshot) (cmd : Command) (now : Time) {ar : ApplyResult} {s' : Snapshot}
    → apply_cmd s cmd now ≡ ok (ar, s')
    → (apply_to_plot cmd.type s.plots (plot_at s.plots cmd.plot_id) cmd now ≡ ok ar)
      × (s' ≡ record s { plots = insert cmd.plot_id ar.changed_plot s.plots })
unfolding apply_cmd
apply_cmd-eq-ok s cmd now {ar} {s'} h =
    go (apply_to_plot cmd.type s.plots (plot_at s.plots cmd.plot_id) cmd now) refl h
  where
    go :
        (r : Result ApplyResult)
        → apply_to_plot cmd.type s.plots (plot_at s.plots cmd.plot_id) cmd now ≡ r
        → store_plot s cmd r ≡ ok (ar, s')
        → (apply_to_plot cmd.type s.plots (plot_at s.plots cmd.plot_id) cmd now ≡ ok ar)
          × (s' ≡ record s { plots = insert cmd.plot_id ar.changed_plot s.plots })
    go (ok a) e k = (cc, cc)
    go (err f) e k = cc

pub changed_plot-plot_id :
    (s : Snapshot) (cmd : Command) (now : Time) {ar : ApplyResult} {s' : Snapshot}
    → apply_cmd s cmd now ≡ ok (ar, s')
    → ar.changed_plot.plot_id ≡ cmd.plot_id
changed_plot-plot_id s cmd now h = cc (
  apply_to_plot-plot_id cmd.type s (plot_at s.plots cmd.plot_id) cmd now _
      (apply_cmd-eq-ok s cmd now h).0,
  plot_at-plot_id s cmd.plot_id,
)
