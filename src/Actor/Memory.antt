-- ===== src/Actor/Memory.antt =====
-- The committer in memory, for development (server/internal/farm/infrastructure/committer_mem.go). Its
-- lock makes every call one step.
use farm_server.Base.{
  ℕ, ◌+◌, ◌≡◌, refl, arith, true, false, not, ◌&&◌, String, [], ◌∷◌, Option, none, some, ltb, ◌==◌,
  str_eq, if◌then◌else◌, put, insert, Dict, Bool-cases, Option-cases, inl, inr, ◌∙◌,
}
use farm_server.Errors.{
  Result, ok, err, coded, routing_fenced, routing_epoch_stale, farm_version_conflict,
  farm_plot_state,
}
use farm_server.Farm.{
  Time, Plot, blank, empty, growing, Snapshot, Command, CommandType, plant, harvest, CommitResult,
}
use farm_server.Farm.Crops.{harvest_yield_for_crop}
use farm_server.Farm.Growth.{effective_status, is_empty}
use farm_server.Farm.Apply.{plot_at, is_unset, is_mature}
use farm_server.Commit.FarmTx.{is_pet}
use farm_server.Actor.{apply_patch_to_snapshot, store_plots}
use farm_server.Actor.Execute.{Ports}

-- `MemCommitter`: the snapshots by farm, and the receipts by command id.
pub record MemCommitter : Type 0 where
  pub snapshots : ℕ → Option Snapshot
  pub receipts : String → Option CommitResult

abbrev pub set_receipt :
    String → CommitResult → (String → Option CommitResult) → String → Option CommitResult
set_receipt k v f j = if str_eq j k then some v else f j

abbrev pub snapshot_or_new : ℕ → Option Snapshot → Snapshot
snapshot_or_new farm none = record {
  farm_id = farm;
  owner_id = farm;
  version = 0;
  route_epoch = 0;
  plots = [];
}
snapshot_or_new farm (some s) = s

-- `ensureLocked`: the snapshot, and the committer that holds it.
abbrev pub snapshot_of : ℕ → MemCommitter → Snapshot
snapshot_of farm m = snapshot_or_new farm (m.snapshots farm)

abbrev pub with_snapshot : ℕ → Snapshot → MemCommitter → MemCommitter
with_snapshot farm s m = record m { snapshots = put farm (some s) m.snapshots }

unfoldable pub mem_advance_route_epoch : ℕ → ℕ → MemCommitter → Result (Unit {0}) × MemCommitter
mem_advance_route_epoch farm epoch m =
    let s : Snapshot = snapshot_of farm m in
    if ltb epoch s.route_epoch
    then (err (coded routing_epoch_stale), with_snapshot farm s m)
    else (ok tt, with_snapshot farm (record s { route_epoch = epoch }) m)

unfoldable pub mem_load_snapshot : ℕ → MemCommitter → Result Snapshot × MemCommitter
mem_load_snapshot farm m = (ok (snapshot_of farm m), with_snapshot farm (snapshot_of farm m) m)

-- The `switch` of `CommitFarmCommand`: any other command leaves the plot as it is.
abbrev pub sown : Plot → Command → Time → Plot
sown p cmd now = record p {
  crop_id = cmd.crop_id;
  status = growing;
  planted_at = now;
  mature_at = now + 60;
  remaining_yield = harvest_yield_for_crop cmd.crop_id;
}

abbrev pub change_plot : CommandType → Plot → Command → Time → Result Plot
change_plot plant p cmd now =
    if not (is_unset p.status) && not (is_empty p.status)
    then err (coded farm_plot_state)
    else ok (sown p cmd now)
change_plot harvest p cmd now =
    if is_mature (effective_status p now)
    then ok (blank p.plot_id empty)
    else err (coded farm_plot_state)
change_plot _ p cmd now = ok p

abbrev pub mem_result : String → Snapshot → Plot → Command → CommitResult
mem_result event_id s p cmd = record {
  new_version = s.version + 1;
  patch = record {
    farm_id = s.farm_id;
    version = s.version + 1;
    plots = p ∷ [];
    actor_user = cmd.actor_user;
  };
  event_id = event_id;
  replayed = false;
  coin_balance = 0;
}

abbrev pub store_change :
    String → Snapshot → Command → MemCommitter → Result Plot → Result CommitResult × MemCommitter
store_change event_id s cmd m (err e) = (err e, with_snapshot cmd.farm_id s m)
store_change event_id s cmd m (ok p) = (
  ok (mem_result event_id s p cmd),
  record {
    snapshots =
        put cmd.farm_id
          (some (record s { plots = insert cmd.plot_id p s.plots; version = s.version + 1 }))
          m.snapshots;
    receipts = set_receipt cmd.cmd_id (mem_result event_id s p cmd) m.receipts;
  },
)

unfoldable pub commit_new :
    String → Time → Command → Snapshot → MemCommitter → Result CommitResult × MemCommitter
commit_new event_id now cmd s m =
    if not (cmd.route_epoch == s.route_epoch)
    then (err (coded routing_fenced), with_snapshot cmd.farm_id s m)
    else if not (is_pet cmd.type) && not (cmd.base_version == s.version)
    then (err (coded farm_version_conflict), with_snapshot cmd.farm_id s m)
    else store_change event_id s cmd m (change_plot cmd.type (plot_at s.plots cmd.plot_id) cmd now)

-- `CommitFarmCommand`, with the id and the time that it draws.
unfoldable pub mem_commit_farm_command :
    String → Time → Command → MemCommitter → Result CommitResult × MemCommitter
mem_commit_farm_command event_id now cmd m = elim (m.receipts cmd.cmd_id) [
  | some res ↦ (ok (record res { replayed = true }), m)
  | none ↦ commit_new event_id now cmd (snapshot_of cmd.farm_id m) m
]

-- The ports of a runtime that is wired to it.
abbrev pub mem_ports : String → Time → Ports MemCommitter
mem_ports event_id now = record {
  committer = some (mem_commit_farm_command event_id now);
  loader = some mem_load_snapshot;
  fencer = some mem_advance_route_epoch;
}

plot_at-plot_id : (plots : Dict Plot) (id : ℕ) → (plot_at plots id).plot_id ≡ id
unfolding plot_at
plot_at-plot_id plots id = ground arith

change_plot-plot_id :
    (t : CommandType) (p q : Plot) (cmd : Command) (now : Time)
    → change_plot t p cmd now ≡ ok q
    → q.plot_id ≡ p.plot_id
change_plot-plot_id t p q cmd now h = ground arith

-- Either nothing of the farm's snapshot changes, or the result is new and its patch leads to the new
-- snapshot.
abbrev pub Follows : Snapshot → Result CommitResult × MemCommitter → ℕ → Type 0
Follows s (err e, m') farm = snapshot_of farm m' ≡ s
Follows s (ok res, m') farm =
    snapshot_of farm m'
    ≡ (if res.replayed then s else apply_patch_to_snapshot s res.patch res.new_version)

store-Follows :
    (event_id : String) (s : Snapshot) (cmd : Command) (m : MemCommitter) (r : Result Plot)
    → ((p : Plot) → r ≡ ok p → p.plot_id ≡ cmd.plot_id)
    → Follows s (store_change event_id s cmd m r) cmd.farm_id
unfolding apply_patch_to_snapshot store_plots
store-Follows event_id s cmd m (err e) h = ground arith
store-Follows event_id s cmd m (ok p) h = ground (arith, h p refl)

new-Follows :
    (event_id : String) (now : Time) (cmd : Command) (s : Snapshot) (m : MemCommitter)
    → Follows s (commit_new event_id now cmd s m) cmd.farm_id
unfolding commit_new
new-Follows event_id now cmd s m = elim (Bool-cases (cmd.route_epoch == s.route_epoch)) [
  | inr fenced ↦ rw fenced (ground arith)
  | inl owned ↦
      rw owned (elim (Bool-cases (not (is_pet cmd.type) && not (cmd.base_version == s.version))) [
        | inl stale ↦ rw stale (ground arith)
        | inr fresh ↦ rw fresh (
            store-Follows event_id s cmd m
              (change_plot cmd.type (plot_at s.plots cmd.plot_id) cmd now)
              (λ p e.
                change_plot-plot_id cmd.type (plot_at s.plots cmd.plot_id) p cmd now e
                ∙ plot_at-plot_id s.plots cmd.plot_id))
      ])
]

-- Whatever a command meets, the committer in memory leaves the farm's snapshot as it is, or returns a
-- new result whose patch and version lead from the old snapshot to exactly the new one: a refusal or
-- a replay changes no snapshot.
pub mem_commit-Follows :
    (event_id : String) (now : Time) (cmd : Command) (m : MemCommitter)
    → Follows (snapshot_of cmd.farm_id m) (mem_commit_farm_command event_id now cmd m) cmd.farm_id
unfolding mem_commit_farm_command
mem_commit-Follows event_id now cmd m = elim (Option-cases (m.receipts cmd.cmd_id)) [
  | inl new ↦
      rw (new, mem_commit_farm_command) (new-Follows event_id now cmd (snapshot_of cmd.farm_id m) m)
  | inr (res, old) ↦ rw (old, mem_commit_farm_command) refl
]
