-- ===== src/Actor/Scheduler.antt =====
-- The scheduler of one shard (`accept`, `tryDispatch`, `complete` and `evictIdle` of
-- server/internal/farm/actor/runtime.go). Actors are told apart by the number of their allocation,
-- as the code compares pointers. Observers and the shutdown are left out; the ready queue and the
-- count of actors, which all shards share, are those of a runtime with one shard.
pub mod OneAtATime
pub mod Reach
use farm_server.Base.{
  ℕ, ◌+◌, ◌-◌, Bool, true, false, not, ◌&&◌, ◌||◌, List, [], ◌∷◌, ◌++◌, Option, none, some, ltb,
  leb, ◌==◌, if◌then◌else◌, length, put,
}
use farm_server.Errors.{Result, err, coded, resource_exhausted}
use farm_server.Farm.{Time, Snapshot, Command, CommitResult}

-- `Config`, as far as the scheduler reads it.
pub record Config : Type 0 where
  pub farm_queue_cap : ℕ
  pub ready_cap : ℕ
  pub max_active_actors : ℕ
  pub idle_ttl : ℕ

-- A command with the number of its result channel.
pub record Task : Type 0 where
  pub cmd : Command
  pub ticket : ℕ

pub record ActorState : Type 0 where
  pub allocation : ℕ
  pub snapshot : Option Snapshot
  pub running : Bool
  pub inflight : Option Task
  pub queue : List Task
  pub last_used : Time

-- `workItem`; a `completion` is the item with the snapshot that the worker leaves.
pub record WorkItem : Type 0 where
  pub allocation : ℕ
  pub task : Task
  pub snapshot : Option Snapshot

-- `working` are the items that workers have taken and whose completion is not handled yet.
pub record Shard : Type 0 where
  pub actors : ℕ → Option ActorState
  pub ready : List WorkItem
  pub working : List WorkItem
  pub active_actors : ℕ
  pub allocations : ℕ
  pub delivered : List (ℕ × Result CommitResult)

abbrev pub farm_of : WorkItem → ℕ
farm_of w = w.task.cmd.farm_id

abbrev pub deliver : Task → Result CommitResult → Shard → Shard
deliver t out s = record s { delivered = (t.ticket, out) ∷ s.delivered }

abbrev set_actor : ℕ → Option ActorState → Shard → Shard
set_actor id st s = record s { actors = put id st s.actors }

abbrev busy : Result CommitResult
busy = err (coded resource_exhausted)

-- What `tryDispatch` does to the actor and to the ready queue.
abbrev start : ActorState → Task → Time → ActorState
start st t now = record st { running = true; inflight = some t; last_used = now }

abbrev item : ActorState → Task → WorkItem
item st t = record { allocation = st.allocation; task = t; snapshot = st.snapshot }

abbrev dispatch : ActorState → Task → Time → Shard → Shard
dispatch st t now s = record s {
  actors = put t.cmd.farm_id (some (start st t now)) s.actors;
  ready = s.ready ++ (item st t ∷ []);
}

abbrev new_actor : ℕ → Time → ActorState
new_actor allocation now = record {
  allocation = allocation;
  snapshot = none;
  running = false;
  inflight = none;
  queue = [];
  last_used = now;
}

-- `accept` where the farm has an actor.
pub accept_known : Config → ActorState → Task → Time → Shard → Shard
accept_known cfg st t now s =
    if st.running
    then (if leb cfg.farm_queue_cap (length st.queue)
        then deliver t busy s
        else set_actor t.cmd.farm_id (some (record st { queue = st.queue ++ (t ∷ []) })) s)
    else if ltb (length s.ready) cfg.ready_cap
    then dispatch st t now s
    else deliver t busy s

-- `accept` where it has none; a new actor that cannot be dispatched is deleted again.
pub accept_new : Config → Task → Time → Shard → Shard
accept_new cfg t now s =
    if leb cfg.max_active_actors s.active_actors
    then deliver t busy s
    else if ltb (length s.ready) cfg.ready_cap
    then dispatch (new_actor s.allocations now) t now
        (record s { active_actors = s.active_actors + 1; allocations = s.allocations + 1 })
    else deliver t busy (record s { allocations = s.allocations + 1 })

-- `accept`
unfoldable pub accept : Config → Task → Time → Shard → Shard
unfolding accept_known accept_new
accept cfg t now s = elim (s.actors t.cmd.farm_id) [
  | none ↦ accept_new cfg t now s
  | some st ↦ accept_known cfg st t now s
]

-- The actor once its item is done, and the next task of its queue.
abbrev idle : ActorState → Option Snapshot → Time → ActorState
idle st snapshot now = record st {
  running = false;
  inflight = none;
  snapshot = snapshot;
  last_used = now;
}

hand_off : ℕ → ActorState → List Task → Shard → Shard
hand_off id st [] s = set_actor id (some st) s
hand_off id st (t ∷ ts) s = record s {
  actors = put id (some (record st { queue = ts; running = true; inflight = some t })) s.actors;
  ready = s.ready ++ (item st t ∷ []);
}

-- Whether a completion hands a waiting task on; only then does it need the ready queue.
abbrev pub hands_on : WorkItem → Option ActorState → Bool
hands_on w none = false
hands_on w (some st) = st.allocation == w.allocation && ltb 0 (length st.queue)

-- `complete`, once the ready queue has room where a task is handed on.
pub complete : WorkItem → Result CommitResult → Time → Shard → Shard
unfolding hand_off
complete w out now s = elim (s.actors (farm_of w)) [
  | none ↦ deliver w.task out s
  | some st ↦
      if st.allocation == w.allocation
      then hand_off (farm_of w) (idle st w.snapshot now) st.queue (deliver w.task out s)
      else deliver w.task out s
]

-- `evictIdle` for one farm of the map.
pub evict_idle : Config → ℕ → Time → Shard → Shard
evict_idle cfg id now s = elim (s.actors id) [
  | none ↦ s
  | some st ↦
      if not st.running && length st.queue == 0 && leb cfg.idle_ttl (now - st.last_used)
      then record s { actors = put id none s.actors; active_actors = s.active_actors - 1 }
      else s
]
