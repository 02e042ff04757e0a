-- ===== src/Actor.antt =====
-- The hot copy of a farm that an actor keeps (server/internal/farm/actor/runtime.go).
pub mod Coherence
pub mod Scheduler
pub mod Execute
pub mod Memory
use farm_server.Base.{
  ℕ, List, [], ◌∷◌, Bool, ◌==◌, ◌||◌, Dict, insert, if◌then◌else◌, Option, none, some,
}
use farm_server.Errors.{Error, Result, ok, err, coded, routing_fenced, farm_version_conflict}
use farm_server.Farm.{Plot, Snapshot, Patch, Command}
use farm_server.Commit.FarmTx.{is_pet}

-- `preValidate`
unfoldable pub pre_validate : Snapshot → Command → Result (Unit {0})
pre_validate s cmd =
    if cmd.route_epoch == s.route_epoch then versions else err (coded routing_fenced)
  where
    versions : Result (Unit {0})
    versions =
        if is_pet cmd.type || cmd.base_version == s.version
        then ok tt
        else err (coded farm_version_conflict)

store_plots : Dict Plot → List Plot → Dict Plot
store_plots plots [] = plots
store_plots plots (p ∷ ps) = store_plots (insert p.plot_id p plots) ps

-- `applyPatchToSnapshot`
unfoldable pub apply_patch_to_snapshot : Snapshot → Patch → ℕ → Snapshot
unfolding store_plots
apply_patch_to_snapshot s patch version = record s {
  version = version;
  plots = store_plots s.plots patch.plots;
}
