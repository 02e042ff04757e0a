-- ===== src/Routing.antt =====
-- server/internal/farm/routing/etcd.go: the controllers of all farmsvr instances share one route and
-- one epoch for each bucket of farms, in etcd, and change them by transactions that compare
-- revisions. The JSON of a route is kept as the structure that it encodes; the hash of
-- `desiredOwner` is a parameter.
pub mod Controllers
pub mod Epochs
pub mod Resolver
use farm_server.Base.{
  ℕ, ◌+◌, Bool, true, false, not, ◌&&◌, String, List, [], ◌∷◌, Option, none, some, ◌==◌, ltb,
  str_eq, if◌then◌else◌,
}

pub data RouteState : Type 0 where
  active migrating : RouteState

-- The endpoint of the owner is its `InstanceID`.
pub record Route : Type 0 where
  pub bucket : ℕ
  pub owner : String
  pub epoch : ℕ
  pub state : RouteState

-- A key's value, with etcd's revision of its last write.
pub record KeyValue (A : Type 0) : Type 0 where
  pub value : A
  pub mod_revision : ℕ

-- The store's revision and the two keys of one bucket. The route is attached to the lease of the
-- controller that wrote it, the epoch to none.
pub record Keys : Type 0 where
  pub revision : ℕ
  pub epoch : Option (KeyValue ℕ)
  pub route : Option (KeyValue Route)
  pub route_lease : ℕ

abbrev pub is_active : RouteState → Bool
is_active active = true
is_active migrating = false

-- `ModRevision` of a missing key is 0.
abbrev pub mod_of : {A : Type 0} → Option (KeyValue A) → ℕ
mod_of none = 0
mod_of (some kv) = kv.mod_revision

abbrev pub is_absent : {A : Type 0} → Option A → Bool
is_absent none = true
is_absent (some a) = false

-- The comparison of a claim: the key is still missing, or was not written since it was read.
unfoldable pub unchanged : {A : Type 0} → Option (KeyValue A) → Option (KeyValue A) → Bool
unchanged none now = is_absent now
unchanged (some kv) now = mod_of now == kv.mod_revision

abbrev pub old_epoch : Option (KeyValue ℕ) → ℕ
old_epoch none = 0
old_epoch (some kv) = kv.value

abbrev pub already_mine : String → Option (KeyValue Route) → Bool
already_mine me none = false
already_mine me (some kv) = str_eq kv.value.owner me && is_active kv.value.state

-- The route that a claim writes: MIGRATING where it takes a bucket over.
unfoldable pub next_route : String → ℕ → Option (KeyValue Route) → Option (KeyValue ℕ) → Route
next_route me bucket route_seen epoch_seen = record {
  bucket = bucket;
  owner = me;
  epoch = old_epoch epoch_seen + 1;
  state = if is_absent route_seen then active else migrating;
}

-- The two puts of a claim, at one revision.
unfoldable pub put_claim : ℕ → Route → Keys → Keys
put_claim lease next k = record k {
  revision = k.revision + 1;
  epoch = some (record { value = next.epoch; mod_revision = k.revision + 1 });
  route = some (record { value = next; mod_revision = k.revision + 1 });
  route_lease = lease;
}

-- `claim`, from what its two reads have seen, and whether its transaction succeeded.
unfoldable pub claim :
    ℕ → String → ℕ → Option (KeyValue Route) → Option (KeyValue ℕ) → Keys → Bool × Keys
claim lease me bucket route_seen epoch_seen k =
    if already_mine me route_seen
    then (false, k)
    else if unchanged epoch_seen k.epoch && unchanged route_seen k.route
    then (true, put_claim lease (next_route me bucket route_seen epoch_seen) k)
    else (false, k)

unfoldable pub put_route : ℕ → Route → Keys → Keys
put_route lease next k = record k {
  revision = k.revision + 1;
  route = some (record { value = next; mod_revision = k.revision + 1 });
  route_lease = lease;
}

-- `activate`, for the route that the table of `reconcileOnce` held and the one that it reads again.
unfoldable pub activate : ℕ → String → Route → Option (KeyValue Route) → Keys → Keys
activate lease me route none k = k
activate lease me route (some kv) k =
    if not (str_eq kv.value.owner me && (kv.value.epoch == route.epoch))
    then k
    else if unchanged (some kv) k.route
    then put_route lease (record kv.value { state = active }) k
    else k

-- The end of a lease deletes the keys that are attached to it.
unfoldable pub expire : ℕ → Keys → Keys
expire lease k =
    if k.route_lease == lease then record k { revision = k.revision + 1; route = none } else k

-- The loop of `desiredOwner` over the registered instances, sorted by id, none of them empty.
unfoldable pub better_of : (String → ℕ) → Option (String × ℕ) → String → Option (String × ℕ)
better_of score none i = some (i, score i)
better_of score (some (owner, best)) i =
    if ltb best (score i) then some (i, score i) else some (owner, best)

unfoldable pub best_of : (String → ℕ) → Option (String × ℕ) → List String → Option (String × ℕ)
best_of score owner [] = owner
best_of score owner (i ∷ is) = best_of score (better_of score owner i) is

unfoldable pub desired_owner : (String → ℕ) → List String → Option (String × ℕ)
desired_owner score instances = best_of score none instances

pub data Action : Type 0 where
  skip_bucket claim_bucket : Action
  activate_bucket : Route → Action

abbrev pub is_owner : String → Option (String × ℕ) → Bool
is_owner me none = false
is_owner me (some (owner, best)) = str_eq owner me

-- What `reconcileOnce` does for one bucket, whose current route is in its table or is the zero route.
unfoldable pub reconcile_bucket : (String → ℕ) → String → List String → Option Route → Action
unfolding desired_owner
reconcile_bucket score me instances current =
    if not (is_owner me (desired_owner score instances)) then skip_bucket else elim current [
      | none ↦ claim_bucket
      | some route ↦
          if not (str_eq route.owner me)
          then claim_bucket
          else if is_active route.state
          then skip_bucket
          else activate_bucket route
    ]
