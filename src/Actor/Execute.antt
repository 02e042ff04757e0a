-- ===== src/Actor/Execute.antt =====
-- `execute` and `coldLoad` of server/internal/farm/actor/runtime.go: what a worker does with one
-- command of a farm, over the ports of server/internal/farm/application/commit.go.
use farm_server.Base.{
  ℕ, Bool, true, false, not, ◌&&◌, List, [], ◌∷◌, Option, none, some, ltb, str_eq, if◌then◌else◌,
}
use farm_server.Errors.{Error, Result, ok, err, plain}
use farm_server.Farm.{Snapshot, Command, CommitResult}
use farm_server.Actor.{pre_validate, apply_patch_to_snapshot}

-- `Committer`, `SnapshotLoader` and `RouteFencer` over a state; a runtime may lack each of them. An
-- error may leave a changed state behind: an answer that was lost, or a context that ended.
pub record Ports (S : Type 0) : Type 0 where
  pub committer : Option (Command → S → Result CommitResult × S)
  pub loader : Option (ℕ → S → Result Snapshot × S)
  pub fencer : Option (ℕ → ℕ → S → Result (Unit {0}) × S)

abbrev pub unloaded : ℕ → ℕ → Snapshot
unloaded farm epoch = record {
  farm_id = farm;
  owner_id = farm;
  version = 0;
  route_epoch = epoch;
  plots = [];
}

abbrev pub is_error : Result (Unit {0}) → Bool
is_error (ok u) = false
is_error (err e) = true

abbrev pub error_of : Result (Unit {0}) → Error
error_of (ok u) = plain
error_of (err e) = e

module _ {S : Type 0} (ports : Ports S) where
  -- The end of `coldLoad`.
  unfoldable pub load_or_new : ℕ → ℕ → S → Result Snapshot × S
  load_or_new farm epoch s = elim ports.loader [
    | none ↦ (ok (unloaded farm epoch), s)
    | some load ↦ load farm s
  ]

  abbrev pub if_fenced : ℕ → ℕ → Result (Unit {0}) × S → Result Snapshot × S
  if_fenced farm epoch (ok u, s) = load_or_new farm epoch s
  if_fenced farm epoch (err e, s) = (err e, s)

  abbrev pub fence_first :
      Option (ℕ → ℕ → S → Result (Unit {0}) × S) → ℕ → ℕ → S → Result Snapshot × S
  fence_first none farm epoch s = load_or_new farm epoch s
  fence_first (some fence) farm epoch s = if_fenced farm epoch (fence farm epoch s)

  unfoldable pub cold_load : ℕ → ℕ → S → Result Snapshot × S
  cold_load farm epoch s =
      if ltb 0 epoch then fence_first ports.fencer farm epoch s else load_or_new farm epoch s

  -- The snapshot of the completion, and its outcome.
  abbrev pub Completion : Type 0
  Completion = Option Snapshot × Result CommitResult

  -- The hot copy takes the patch of a commit that was not replayed.
  abbrev pub completed : Snapshot → Result CommitResult × S → Completion × S
  completed snap (err e, s) = ((some snap, err e), s)
  completed snap (ok res, s) = (
    (
      some (if res.replayed then snap else apply_patch_to_snapshot snap res.patch res.new_version),
      ok res,
    ),
    s,
  )

  unfoldable pub execute_on : Snapshot → Command → S → Completion × S
  execute_on snap cmd s = elim ports.committer [
    | none ↦ ((some snap, err plain), s)
    | some commit ↦
        if is_error (pre_validate snap cmd) && str_eq cmd.cmd_id ""
        then ((some snap, err (error_of (pre_validate snap cmd))), s)
        else completed snap (commit cmd s)
  ]

  abbrev pub after_load : Command → Result Snapshot × S → Completion × S
  after_load cmd (ok snap, s) = execute_on snap cmd s
  after_load cmd (err e, s) = ((none, err e), s)

  -- A hot copy is used unless the command names a newer epoch.
  abbrev pub is_usable : Command → Option Snapshot → Bool
  is_usable cmd none = false
  is_usable cmd (some snap) = not (ltb snap.route_epoch cmd.route_epoch)

  unfoldable pub execute : Option Snapshot → Command → S → Completion × S
  execute hot cmd s =
      let loaded = after_load cmd (cold_load cmd.farm_id cmd.route_epoch s) in
      elim hot [
        | none ↦ loaded
        | some snap ↦ if is_usable cmd (some snap) then execute_on snap cmd s else loaded
      ]

  -- A farm's commands, one after the other, as the scheduler hands them out.
  unfoldable pub execute_all : Option Snapshot → List Command → S → Option Snapshot × S
  execute_all hot [] s = (hot, s)
  execute_all hot (cmd ∷ cmds) s = let (done, s') = execute hot cmd s in execute_all done.0 cmds s'
