-- ===== src/Actor/Coherence.antt =====
-- The hot copy against the row that a cold load reads.
use farm_server.Base.{
  ℕ, ◌+◌, ◌≡◌, ◌≤◌, refl, sym, ap, ◌∙◌, List, [], ◌∷◌, subst, String, Option, none, some, arith,
  put, All, IsDistinct, insert,
}
use farm_server.Errors.{ok}
use farm_server.Farm.{Time, zero_time, Plot, Snapshot, Command, CommitResult}
use farm_server.Farm.Apply.Shape.{apply_cmd-eq-ok, changed_plot-plot_id}
use farm_server.Farm.Apply.Valid.{IsValid, IsValidEntry, apply_cmd-IsValid}
use farm_server.Store.{Env, ReadsBack, Db, farm_owner}
use farm_server.Store.Json.{HasOwnIds, unmarshal-marshal}
use farm_server.Commit.Rows.{Locked, load_snapshot_for_update, upsert_snapshot}
use farm_server.Commit.Rows.Reload.{load-upsert}
use farm_server.Commit.Events.{insert_outbox}
use farm_server.Commit.FarmTx.{commit_locked, committed_result}
use farm_server.Commit.FarmTx.Inversion.{Committed, commit_locked-Committed}
use farm_server.Commit.FarmTx.Effects.{side_effects-Effect}
use farm_server.Commit.FarmTx.Outcome.{receipt-after, columns-kept}
use farm_server.Commit.FarmTx.Version.{load-columns}
use farm_server.Actor.{store_plots, apply_patch_to_snapshot}

entries-HasOwnIds : (plots : farm_server.Base.Dict Plot) → All IsValidEntry plots → HasOwnIds plots
entries-HasOwnIds [] h = h
entries-HasOwnIds ((id, p) ∷ plots) h = (h.0.0, entries-HasOwnIds plots h.1)

-- What a commit stores: the snapshot of `apply_cmd`, one version further.
stored-by :
    (env : Env) (event_id : String) (now : Time) (cmd : Command) (db db' : Db) (res : CommitResult)
    (c : Committed env event_id now cmd db res db')
    → let s = record (c.snapshot) { version = c.snapshot.version + 1 } in
      (db'.farms ≡ (upsert_snapshot env s c.settled).farms)
      × (s.farm_id ≡ cmd.farm_id)
      × (s.owner_id ≡ farm_owner c.settled cmd.farm_id)
unfolding insert_outbox
stored-by env event_id now cmd db db' res c =
    let s : Snapshot = record (c.snapshot) { version = c.snapshot.version + 1 } in
    let (farm, version, epoch, owner) = load-columns env cmd.farm_id db db c.locked c.loaded in
    let shape = (apply_cmd-eq-ok c.locked.snapshot cmd now c.applied).1 in
    let (credits, rest, farms) =
      side_effects-Effect env cmd c.ar c.snapshot.owner_id now db c.settled cmd.type c.effects in
    let (v1, e1, o1, others1) = columns-kept cmd.type cmd now db c.settled farms in
    let (f3, i3, b3, w3, l3, r3) =
      receipt-after cmd s.version (upsert_snapshot env s c.settled) c.recorded c.receipt in
    (
      ap (λ d. d.farms) c.final ∙ f3,
      ap (λ d. d.farm_id) shape ∙ farm,
      ap (λ d. d.owner_id) shape ∙ owner ∙ sym o1,
    )

-- The committed patch on the locked snapshot gives what is stored.
patched :
    (env : Env) (event_id : String) (now : Time) (cmd : Command) (db db' : Db) (res : CommitResult)
    (c : Committed env event_id now cmd db res db')
    → apply_patch_to_snapshot c.locked.snapshot res.patch res.new_version
      ≡ record (c.snapshot) { version = c.snapshot.version + 1 }
unfolding apply_patch_to_snapshot store_plots committed_result
patched env event_id now cmd db db' res c =
    let shape = (apply_cmd-eq-ok c.locked.snapshot cmd now c.applied).1 in
    let id = changed_plot-plot_id c.locked.snapshot cmd now c.applied in
    rw c.result (rw (shape, id) refl)

-- The hot copy of an actor stays what a cold load would read: if a farm loads as a well-formed
-- snapshot and a command commits, then the farm loads as exactly the old snapshot with the result's
-- patch applied, and that is well formed again. It needs that plot ids are read back as written,
-- and a clock past year one.
pub hot_snapshot_coherent :
    (env : Env) (event_id : String) (now : Time) (cmd : Command) (db db' : Db) (res : CommitResult)
    (hot : Locked)
    → ReadsBack env
    → zero_time ≤ now
    → load_snapshot_for_update env cmd.farm_id db ≡ ok (hot, db)
    → IsValid hot.snapshot
    → commit_locked env event_id now cmd db ≡ ok (res, db')
    → (l : Locked) × (load_snapshot_for_update env cmd.farm_id db' ≡ ok (l, db'))
      × (l.snapshot ≡ apply_patch_to_snapshot hot.snapshot res.patch res.new_version)
      × IsValid l.snapshot
hot_snapshot_coherent env event_id now cmd db db' res hot back late loaded valid h =
    let c = commit_locked-Committed env event_id now cmd db db' res h in
    let same : c.locked ≡ hot = cc (c.loaded, loaded) in
    let s : Snapshot = record (c.snapshot) { version = c.snapshot.version + 1 } in
    let old : IsValid c.locked.snapshot = subst (λ k. IsValid k.snapshot) (sym same) valid in
    let good = apply_cmd-IsValid c.locked.snapshot cmd now c.ar c.snapshot old late c.applied in
    let good' : IsValid s = record { distinct = good.distinct; entries = good.entries } in
    let (farms, farm, owner) = stored-by env event_id now cmd db db' res c in
    let (l, reads, is) =
      load-upsert env s c.settled db' cmd.farm_id farms farm owner (
        unmarshal-marshal env s.plots back good.distinct
          (entries-HasOwnIds s.plots good.entries)) in
    (
      l,
      reads,
      is
          ∙ sym (patched env event_id now cmd db db' res c)
          ∙ ap (λ k. apply_patch_to_snapshot k.snapshot res.patch res.new_version) same,
      subst IsValid (sym is) good',
    )
