-- ===== src/Tests/Actors.antt =====
-- The scheduler at a concrete run: a command is accepted and taken by a worker, and a second one of
-- the same farm waits.
use farm_server.Base.{◌+◌, ◌≡◌, ◌≤◌, refl, List, [], ◌∷◌, none, some}
use farm_server.Farm.{minute, plant, Command, blank, unset}
use farm_server.Farm.Apply.{plot_at}
use farm_server.Actor.{pre_validate, apply_patch_to_snapshot}
use farm_server.Actor.Execute.{execute_all, execute, execute_on, cold_load, load_or_new}
use farm_server.Actor.Memory.{
  MemCommitter, Follows, mem_commit-Follows, mem_ports, snapshot_of, mem_advance_route_epoch,
  mem_load_snapshot, mem_commit_farm_command, commit_new, sown,
}
use farm_server.Actor.Scheduler.{Config, Task, WorkItem, Shard, accept}
use farm_server.Actor.Scheduler.OneAtATime.{items, running_of, Waiting}
use farm_server.Actor.Scheduler.Reach.{
  accepts, takes, Reach, here, after_step, new_shard, one_at_a_time,
}
use farm_server.Tests.Data.{now, command}

abbrev config : Config
config = record { farm_queue_cap = 8; ready_cap = 128; max_active_actors = 100; idle_ttl = minute }

abbrev first_task : Task
first_task = record { cmd = command plant 1 8; ticket = 0 }

abbrev second_task : Task
second_task = record { cmd = command plant 1 9; ticket = 1 }

abbrev dispatched : Shard
dispatched = accept config first_task now new_shard

abbrev taken : Shard
taken = record dispatched { ready = []; working = first_item ∷ [] }
  where
    first_item : WorkItem
    first_item = record { allocation = 0; task = first_task; snapshot = none }

abbrev waiting : Shard
waiting = accept config second_task now taken

run_to_waiting : Reach config new_shard waiting
unfolding accept
run_to_waiting =
    after_step
      (after_step (after_step here (accepts first_task now new_shard))
        (takes (record { allocation = 0; task = first_task; snapshot = none }) [] dispatched refl))
      (accepts second_task now taken)

one_at_a_time_example :
    (items 1 waiting.ready + items 1 waiting.working ≤ 1)
    × (items 1 waiting.ready + items 1 waiting.working ≡ running_of (waiting.actors 1))
    × Waiting config waiting 1
one_at_a_time_example = one_at_a_time config waiting 1 run_to_waiting

-- Two commands of farm 1 in memory, of which the second is refused for its version.
abbrev no_farms : MemCommitter
no_farms = record { snapshots = λ farm. none; receipts = λ id. none }

abbrev at_epoch : Command → Command
at_epoch cmd = record cmd { base_version = 0 }

abbrev two_commands : List Command
two_commands = at_epoch (command plant 1 8) ∷ record (command plant 1 9) { cmd_id = "c2" } ∷ []

mem_commit-Follows_example :
    Follows
      (snapshot_of 1 no_farms)
      (mem_commit_farm_command "e1" now (command plant 1 8) no_farms)
      1
mem_commit-Follows_example = mem_commit-Follows "e1" now (command plant 1 8) no_farms

hot_copy_moves :
    (execute_all (mem_ports "e1" now) none two_commands no_farms).1.snapshots 1
    ≡ some (record {
      farm_id = 1;
      owner_id = 1;
      version = 1;
      route_epoch = 5;
      plots = (8, sown (blank 8 unset) (command plant 1 8) now) ∷ [];
    })
unfolding execute_all execute execute_on cold_load load_or_new mem_advance_route_epoch
    mem_load_snapshot mem_commit_farm_command commit_new pre_validate plot_at
    apply_patch_to_snapshot
hot_copy_moves = refl
