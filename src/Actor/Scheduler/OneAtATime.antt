-- ===== src/Actor/Scheduler/OneAtATime.antt =====
-- One command of a farm is in flight at a time.
use farm_server.Base.{
  ℕ, ◌+◌, ◌≡◌, ◌≤◌, refl, arith, List, [], ◌∷◌, ◌++◌, Option, none, some, Bool, true, false, ◌&&◌,
  ◌==◌, length, length-append, All, ==_iff,
}
use farm_server.Errors.{Result}
use farm_server.Farm.{Time, CommitResult}
use farm_server.Actor.Scheduler.{
  Config, Task, ActorState, WorkItem, Shard, farm_of, complete, evict_idle, deliver, accept_known,
  accept_new, hand_off, item, new_actor, idle, deliver,
}

abbrev pub one : Bool → ℕ
one true = 1
one false = 0

-- The items of a farm, and those of one of its allocations.
unfoldable pub items : ℕ → List WorkItem → ℕ
items f [] = 0
items f (w ∷ ws) = one (farm_of w == f) + items f ws

unfoldable pub owned : ℕ → ℕ → List WorkItem → ℕ
owned f a [] = 0
owned f a (w ∷ ws) = one (farm_of w == f && w.allocation == a) + owned f a ws

pub items-append : (f : ℕ) (xs ys : List WorkItem) → items f (xs ++ ys) ≡ items f xs + items f ys
unfolding items
items-append f [] ys = omega arith
items-append f (x ∷ xs) ys = omega (arith, items-append f xs ys)

pub owned-append :
    (f a : ℕ) (xs ys : List WorkItem) → owned f a (xs ++ ys) ≡ owned f a xs + owned f a ys
unfolding owned
owned-append f a [] ys = omega arith
owned-append f a (x ∷ xs) ys = omega (arith, owned-append f a xs ys)

-- Whether a farm's actor is marked as running, as a number, and whether it is so under an
-- allocation.
abbrev pub running_of : Option ActorState → ℕ
running_of none = 0
running_of (some st) = one st.running

abbrev pub running_as : ℕ → Option ActorState → ℕ
running_as a none = 0
running_as a (some st) = one (st.running && st.allocation == a)

abbrev pub queue_of : Option ActorState → ℕ
queue_of none = 0
queue_of (some st) = length st.queue

abbrev pub InFlight : Shard → ℕ → Type 0
InFlight s f = items f s.ready + items f s.working ≡ running_of (s.actors f)

abbrev pub Owned : Shard → ℕ → ℕ → Type 0
Owned s f a = owned f a s.ready + owned f a s.working ≡ running_as a (s.actors f)

pub accept_known-InFlight :
    (cfg : Config) (st : ActorState) (t : Task) (now : Time) (s : Shard) (f : ℕ)
    → s.actors t.cmd.farm_id ≡ some st
    → InFlight s f
    → InFlight (accept_known cfg st t now s) f
unfolding accept_known items
accept_known-InFlight cfg st t now s f e h = ground (arith, items-append f s.ready (item st t ∷ []))

pub accept_new-InFlight :
    (cfg : Config) (t : Task) (now : Time) (s : Shard) (f : ℕ)
    → s.actors t.cmd.farm_id ≡ none
    → InFlight s f
    → InFlight (accept_new cfg t now s) f
unfolding accept_new items
accept_new-InFlight cfg t now s f e h =
    ground (arith, items-append f s.ready (item (new_actor s.allocations now) t ∷ []))

pub accept_known-Owned :
    (cfg : Config) (st : ActorState) (t : Task) (now : Time) (s : Shard) (f a : ℕ)
    → s.actors t.cmd.farm_id ≡ some st
    → Owned s f a
    → Owned (accept_known cfg st t now s) f a
unfolding accept_known owned
accept_known-Owned cfg st t now s f a e h =
    ground (arith, owned-append f a s.ready (item st t ∷ []))

pub accept_new-Owned :
    (cfg : Config) (t : Task) (now : Time) (s : Shard) (f a : ℕ)
    → s.actors t.cmd.farm_id ≡ none
    → Owned s f a
    → Owned (accept_new cfg t now s) f a
unfolding accept_new owned
accept_new-Owned cfg t now s f a e h =
    ground (arith, owned-append f a s.ready (item (new_actor s.allocations now) t ∷ []))

-- The item `w` is done: it was counted beside the others.
abbrev pub InFlightWith : WorkItem → Shard → ℕ → Type 0
InFlightWith w s f =
    items f s.ready + items f s.working + one (farm_of w == f) ≡ running_of (s.actors f)

abbrev pub OwnedWith : WorkItem → Shard → ℕ → ℕ → Type 0
OwnedWith w s f a =
    owned f a s.ready + owned f a s.working + one (farm_of w == f && w.allocation == a)
    ≡ running_as a (s.actors f)

-- So its actor is still there, under the same allocation.
actor-there :
    (w : WorkItem) (s : Shard)
    → OwnedWith w s (farm_of w) w.allocation
    → (st : ActorState) × (s.actors (farm_of w) ≡ some st)
      × (st.running ≡ true)
      × ((st.allocation == w.allocation) ≡ true)
actor-there w s h = ground arith

abbrev pub IsFor : ℕ → Task → Type 0
IsFor id t = t.cmd.farm_id ≡ id

hand_off-InFlight :
    (id : ℕ) (st : ActorState) (q : List Task) (s : Shard) (f : ℕ)
    → st.running ≡ false
    → items f s.ready + items f s.working + one (id == f) ≡ running_of (s.actors f)
    → running_of (s.actors id) ≡ 1
    → All (IsFor id) q
    → InFlight (hand_off id st q s) f
unfolding hand_off items
hand_off-InFlight id st [] s f r h k b = ground arith
hand_off-InFlight id st (t ∷ ts) s f r h k b =
    ground (arith, items-append f s.ready (item st t ∷ []))

hand_off-Owned :
    (id : ℕ) (st : ActorState) (q : List Task) (s : Shard) (f a : ℕ)
    → st.running ≡ false
    → owned f a s.ready + owned f a s.working + one (id == f && st.allocation == a)
      ≡ running_as a (s.actors f)
    → ((b : ℕ) → running_as b (s.actors id) ≡ one (st.allocation == b))
    → All (IsFor id) q
    → Owned (hand_off id st q s) f a
unfolding hand_off owned
hand_off-Owned id st [] s f a r h k b = ground (arith, k a)
hand_off-Owned id st (t ∷ ts) s f a r h k b =
    ground (arith, k a, owned-append f a s.ready (item st t ∷ []))

pub complete-InFlight :
    (w : WorkItem) (out : Result CommitResult) (now : Time) (s : Shard) (f : ℕ)
    → InFlightWith w s f
    → OwnedWith w s (farm_of w) w.allocation
    → ((st : ActorState) → s.actors (farm_of w) ≡ some st → All (IsFor (farm_of w)) st.queue)
    → InFlight (complete w out now s) f
unfolding complete
complete-InFlight w out now s f h o q =
    let (st, e, running, same) = actor-there w s o in
    rw (complete, e, same)
      (hand_off-InFlight (farm_of w) (idle st w.snapshot now) st.queue (deliver w.task out s) f refl
        h (ground arith) (q st e))

pub complete-Owned :
    (w : WorkItem) (out : Result CommitResult) (now : Time) (s : Shard) (f a : ℕ)
    → OwnedWith w s f a
    → OwnedWith w s (farm_of w) w.allocation
    → ((st : ActorState) → s.actors (farm_of w) ≡ some st → All (IsFor (farm_of w)) st.queue)
    → Owned (complete w out now s) f a
unfolding complete
complete-Owned w out now s f a h o q =
    let (st, e, running, same) = actor-there w s o in
    let at : st.allocation ≡ w.allocation = (==_iff st.allocation w.allocation).0 same in
    rw (complete, e, same)
      (hand_off-Owned (farm_of w) (idle st w.snapshot now) st.queue (deliver w.task out s) f a refl
        (rw at h) (λ b. ground arith) (q st e))

pub evict-InFlight :
    (cfg : Config) (id : ℕ) (now : Time) (s : Shard) (f : ℕ)
    → InFlight s f
    → InFlight (evict_idle cfg id now s) f
unfolding evict_idle
evict-InFlight cfg id now s f h = ground arith

pub evict-Owned :
    (cfg : Config) (id : ℕ) (now : Time) (s : Shard) (f a : ℕ)
    → Owned s f a
    → Owned (evict_idle cfg id now s) f a
unfolding evict_idle
evict-Owned cfg id now s f a h = ground arith

-- What waits in a farm's queue: tasks of that farm, behind a running one, within the bound.
abbrev pub Waiting : Config → Shard → ℕ → Type 0
Waiting cfg s f =
    (st : ActorState)
    → s.actors f ≡ some st
    → All (IsFor f) st.queue
      × (length st.queue ≤ cfg.farm_queue_cap)
      × (st.running ≡ false → st.queue ≡ [])

All-append :
    {A : Type 0} (P : A → Type 0) (xs : List A) (y : A) → All P xs → P y → All P (xs ++ (y ∷ []))
All-append P [] y h k = (k, tt)
All-append P (x ∷ xs) y h k = (h.0, All-append P xs y h.1 k)

pub accept_known-Waiting :
    (cfg : Config) (st : ActorState) (t : Task) (now : Time) (s : Shard) (f : ℕ)
    → s.actors t.cmd.farm_id ≡ some st
    → Waiting cfg s f
    → Waiting cfg (accept_known cfg st t now s) f
unfolding accept_known
accept_known-Waiting cfg st t now s f e h st' e' = ground (
  arith,
  h st,
  h st',
  All-append (IsFor t.cmd.farm_id) st.queue t,
  length-append st.queue (t ∷ []),
)

pub accept_new-Waiting :
    (cfg : Config) (t : Task) (now : Time) (s : Shard) (f : ℕ)
    → s.actors t.cmd.farm_id ≡ none
    → Waiting cfg s f
    → Waiting cfg (accept_new cfg t now s) f
unfolding accept_new
accept_new-Waiting cfg t now s f e h st' e' = ground (arith, h st')

pub evict-Waiting :
    (cfg : Config) (id : ℕ) (now : Time) (s : Shard) (f : ℕ)
    → Waiting cfg s f
    → Waiting cfg (evict_idle cfg id now s) f
unfolding evict_idle
evict-Waiting cfg id now s f h st' e' = ground (arith, h st')

hand_off-Waiting :
    (cfg : Config) (id : ℕ) (st : ActorState) (q : List Task) (s : Shard) (f : ℕ)
    → st.queue ≡ q
    → All (IsFor id) q
    → length q ≤ cfg.farm_queue_cap
    → Waiting cfg s f
    → Waiting cfg (hand_off id st q s) f
unfolding hand_off
hand_off-Waiting cfg id st [] s f same a l h st' e' = ground (arith, h st')
hand_off-Waiting cfg id st (t ∷ ts) s f same a l h st' e' = ground (arith, h st')

pub complete-Waiting :
    (cfg : Config) (w : WorkItem) (out : Result CommitResult) (now : Time) (s : Shard) (f : ℕ)
    → OwnedWith w s (farm_of w) w.allocation
    → ((g : ℕ) → Waiting cfg s g)
    → Waiting cfg (complete w out now s) f
unfolding complete
complete-Waiting cfg w out now s f o h =
    let (st, e, running, same) = actor-there w s o in
    let (all, bound, empty) = h (farm_of w) st e in
    rw (complete, e, same)
      (hand_off-Waiting cfg (farm_of w) (idle st w.snapshot now) st.queue (deliver w.task out s) f
        refl all bound (h f))
