-- ===== src/Actor/Scheduler/Reach.antt =====
-- The scheduler and its workers as steps, and what holds in every state that they reach.
use farm_server.Base.{
  ℕ, true, ◌+◌, ◌≡◌, ◌≤◌, ◌<◌, refl, subst, arith, List, [], ◌∷◌, ◌++◌, Option, none, length,
  Option-cases, inl, inr,
}
use farm_server.Errors.{Result}
use farm_server.Farm.{Time, Snapshot, CommitResult}
use farm_server.Actor.Scheduler.{
  Config, Task, ActorState, WorkItem, Shard, farm_of, hands_on, accept, complete, evict_idle,
}
use farm_server.Actor.Scheduler.OneAtATime.{
  items, owned, running_as, InFlightWith, OwnedWith, running_of, InFlight, Owned, Waiting,
  items-append, owned-append, accept_known-InFlight, accept_new-InFlight, accept_known-Owned,
  accept_new-Owned, accept_known-Waiting, accept_new-Waiting, complete-InFlight, complete-Owned,
  complete-Waiting, evict-InFlight, evict-Owned, evict-Waiting,
}

pub record IsConsistent (cfg : Config) (s : Shard) : Type 0 where
  pub in_flight : (f : ℕ) → InFlight s f
  pub owned_by : (f a : ℕ) → Owned s f a
  pub waiting : (f : ℕ) → Waiting cfg s f

-- The scheduler accepts a task, handles a completion or evicts an actor; a worker takes the next
-- item. A completion, with whatever snapshot and outcome the worker has, waits for room only where it
-- hands a task on.
pub data Step (cfg : Config) : Shard → Shard → Type 0 where
  accepts : (t : Task) (now : Time) (s : Shard) → Step cfg s (accept cfg t now s)
  takes :
      (w : WorkItem) (ws : List WorkItem) (s : Shard)
      → s.ready ≡ w ∷ ws
      → Step cfg s (record s { ready = ws; working = w ∷ s.working })
  completes :
      (w : WorkItem) (xs ys : List WorkItem) (snapshot : Option Snapshot)
      (out : Result CommitResult) (now : Time) (s : Shard)
      → s.working ≡ xs ++ (w ∷ ys)
      → (hands_on w (s.actors (farm_of w)) ≡ true → length s.ready < cfg.ready_cap)
      → Step cfg s
          (complete (record w { snapshot = snapshot }) out now (record s { working = xs ++ ys }))
  evicts : (id : ℕ) (now : Time) (s : Shard) → Step cfg s (evict_idle cfg id now s)

pub data Reach (cfg : Config) (s : Shard) : Shard → Type 0 where
  here : Reach cfg s s
  after_step : {t u : Shard} → Reach cfg s t → Step cfg t u → Reach cfg s u

accept-IsConsistent :
    (cfg : Config) (t : Task) (now : Time) (s : Shard)
    → IsConsistent cfg s
    → IsConsistent cfg (accept cfg t now s)
unfolding accept
accept-IsConsistent cfg t now s c = elim (Option-cases (s.actors t.cmd.farm_id)) [
  | inl e ↦
      rw (accept, e)
        (record {
          in_flight = λ f. accept_new-InFlight cfg t now s f e (c.in_flight f);
          owned_by = λ f a. accept_new-Owned cfg t now s f a e (c.owned_by f a);
          waiting = λ f. accept_new-Waiting cfg t now s f e (c.waiting f);
        })
  | inr (st, e) ↦
      rw (accept, e)
        (record {
          in_flight = λ f. accept_known-InFlight cfg st t now s f e (c.in_flight f);
          owned_by = λ f a. accept_known-Owned cfg st t now s f a e (c.owned_by f a);
          waiting = λ f. accept_known-Waiting cfg st t now s f e (c.waiting f);
        })
]

takes-IsConsistent :
    (cfg : Config) (w : WorkItem) (ws : List WorkItem) (s : Shard)
    → s.ready ≡ w ∷ ws
    → IsConsistent cfg s
    → IsConsistent cfg (record s { ready = ws; working = w ∷ s.working })
unfolding items owned
takes-IsConsistent cfg w ws s e c = record {
  in_flight = λ f. ground (arith, c.in_flight f);
  owned_by = λ f a. ground (arith, c.owned_by f a);
  waiting = c.waiting;
}

completes-IsConsistent :
    (cfg : Config) (w : WorkItem) (xs ys : List WorkItem) (snapshot : Option Snapshot)
    (out : Result CommitResult) (now : Time) (s : Shard)
    → s.working ≡ xs ++ (w ∷ ys)
    → IsConsistent cfg s
    → IsConsistent cfg
        (complete (record w { snapshot = snapshot }) out now (record s { working = xs ++ ys }))
unfolding items owned
completes-IsConsistent cfg w xs ys snapshot out now s e c =
    let done : WorkItem = record w { snapshot = snapshot } in
    let rest : Shard = record s { working = xs ++ ys } in
    let in_flight : (f : ℕ) → InFlightWith done rest f = λ f. omega (
      arith,
      subst (λ l. items f s.ready + items f l ≡ running_of (s.actors f)) e (c.in_flight f),
      items-append f xs (w ∷ ys),
      items-append f xs ys,
    ) in
    let owned_by : (f a : ℕ) → OwnedWith done rest f a = λ f a. omega (
      arith,
      subst (λ l. owned f a s.ready + owned f a l ≡ running_as a (s.actors f)) e (c.owned_by f a),
      owned-append f a xs (w ∷ ys),
      owned-append f a xs ys,
    ) in
    let own = owned_by (farm_of w) w.allocation in
    record {
      in_flight = λ f.
          complete-InFlight done out now rest f (in_flight f) own
            (λ st k. (c.waiting (farm_of w) st k).0);
      owned_by = λ f a.
          complete-Owned done out now rest f a (owned_by f a) own
            (λ st k. (c.waiting (farm_of w) st k).0);
      waiting = λ f. complete-Waiting cfg done out now rest f own c.waiting;
    }

Step-IsConsistent :
    (cfg : Config) {s u : Shard} → Step cfg s u → IsConsistent cfg s → IsConsistent cfg u
Step-IsConsistent cfg (accepts t now s) c = accept-IsConsistent cfg t now s c
Step-IsConsistent cfg (takes w ws s e) c = takes-IsConsistent cfg w ws s e c
Step-IsConsistent cfg (completes w xs ys snapshot out now s e room) c =
    completes-IsConsistent cfg w xs ys snapshot out now s e c
Step-IsConsistent cfg (evicts id now s) c = record {
  in_flight = λ f. evict-InFlight cfg id now s f (c.in_flight f);
  owned_by = λ f a. evict-Owned cfg id now s f a (c.owned_by f a);
  waiting = λ f. evict-Waiting cfg id now s f (c.waiting f);
}

Reach-IsConsistent :
    (cfg : Config) {s u : Shard} → IsConsistent cfg s → Reach cfg s u → IsConsistent cfg u
Reach-IsConsistent cfg c here = c
Reach-IsConsistent cfg c (after_step r step) =
    Step-IsConsistent cfg step (Reach-IsConsistent cfg c r)

-- A shard that has accepted nothing.
abbrev pub new_shard : Shard
new_shard = record {
  actors = λ id. none;
  ready = [];
  working = [];
  active_actors = 0;
  allocations = 0;
  delivered = [];
}

new_shard-IsConsistent : (cfg : Config) → IsConsistent cfg new_shard
unfolding items owned
new_shard-IsConsistent cfg = record {
  in_flight = λ f. refl;
  owned_by = λ f a. refl;
  waiting = λ f st e. cc;
}

-- In every state that scheduler and workers reach, by any interleaving, at most one item of a farm
-- is in the ready queue or with a worker, and exactly one while its actor is running, so commands
-- of one farm never run at once. Tasks wait only behind a running one of their own farm, and not
-- more than the bound.
pub one_at_a_time :
    (cfg : Config) (s : Shard) (f : ℕ)
    → Reach cfg new_shard s
    → (items f s.ready + items f s.working ≤ 1)
      × (items f s.ready + items f s.working ≡ running_of (s.actors f))
      × Waiting cfg s f
one_at_a_time cfg s f r =
    let c = Reach-IsConsistent cfg (new_shard-IsConsistent cfg) r in
    let k = c.in_flight f in (at_most (s.actors f) k, k, c.waiting f)
  where
    at_most : (o : Option ActorState) {n : ℕ} → n ≡ running_of o → n ≤ 1
    at_most o h = ground arith
