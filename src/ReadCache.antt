-- ===== src/ReadCache.antt =====
-- server/internal/gateway/http/read_cache.go: gatesvr's cache in Redis of farm snapshots and player
-- assets, for one key and its generation key. A call of Redis that fails, or runs past the timeout,
-- is a Boolean; the JSON of a payload is kept as the value that it encodes.
pub mod Fresh
use farm_server.Base.{
  ℕ, ◌+◌, ◌*◌, ◌/◌, ◌%◌, Bool, true, false, ◌&&◌, not, String, List, [], ◌∷◌, Option, none, some,
  ◌==◌, leb, ltb, if◌then◌else◌,
}
use farm_server.Errors.{
  Code, Error, Result, ok, err, coded, mysql, plain, cancelled, resource_exhausted, internal,
  routing_owner_not_found, routing_epoch_stale, farm_actor_migrating,
}

-- What stands under the key: `cacheEnvelope`, or bytes that do not decode.
pub data Raw (V : Type 0) : Type 0 where
  corrupt : Raw V
  envelope : ℕ → V → Raw V

-- The entry, if it has not expired, and the generation, 0 where its key is missing.
pub record Cache (V : Type 0) : Type 0 where
  pub entry : Option (Raw V)
  pub generation : ℕ

pub data CacheState : Type 0 where
  hit stale miss : CacheState

-- What `load` hands back: the state, the generation that allows a fill, and the decoded payload.
pub record Loaded (V : Type 0) : Type 0 where
  pub state : CacheState
  pub fill_at : Option ℕ
  pub cached : Option V

-- `ReadCache`: times in milliseconds.
pub record Times : Type 0 where
  pub ttl : ℕ
  pub stale_ttl : ℕ

-- `NewReadCache`
unfoldable pub new_times : ℕ → ℕ → Times
new_times ttl stale_ttl = record {
  ttl = ttl;
  stale_ttl = if ltb stale_ttl ttl then ttl else stale_ttl;
}

-- Which calls of Redis fail.
pub record Outage : Type 0 where
  pub get_entry : Bool
  pub get_generation : Bool
  pub scripts : Bool

-- `canServeStale`
unfoldable pub is_outage : Code → Bool
is_outage internal = true
is_outage resource_exhausted = true
is_outage routing_owner_not_found = true
is_outage routing_epoch_stale = true
is_outage farm_actor_migrating = true
is_outage _ = false

unfoldable pub can_serve_stale : Error → Bool
unfolding is_outage
can_serve_stale cancelled = false
can_serve_stale (coded c) = is_outage c
can_serve_stale (mysql n) = true
can_serve_stale plain = true

abbrev pub is_stale : CacheState → Bool
is_stale stale = true
is_stale _ = false

module _ {V : Type 0} where
  -- `cacheFillScript`, with what `fill` tests before it.
  unfoldable pub fill : Times → Bool → ℕ → Option ℕ → V → Cache V → Cache V
  fill times fails now none v c = c
  fill times fails now (some generation) v c =
      if times.ttl == 0
      then c
      else if fails
      then c
      else if c.generation == generation
      then record c { entry = some (envelope (now + times.ttl) v) }
      else c

  -- `cacheInvalidateScript`
  unfoldable pub invalidate : Bool → Cache V → Cache V
  invalidate fails c = if fails then c else record { entry = none; generation = c.generation + 1 }

  -- The second `GET` of `load`.
  unfoldable pub with_generation : CacheState → Option V → Outage → Cache V → Loaded V
  with_generation state cached out later =
      if out.get_generation
      then record { state = miss; fill_at = none; cached = cached }
      else record { state = state; fill_at = some later.generation; cached = cached }

  -- `load`: the entry is read first, and the generation, where it is read, from the cache `later`.
  -- Bytes that do not decode call for an invalidation.
  unfoldable pub load : Outage → ℕ → Cache V → Cache V → Loaded V × Bool
  load out now c later =
      if out.get_entry
      then (record { state = miss; fill_at = none; cached = none }, false)
      else elim c.entry [
        | none ↦ (with_generation miss none out later, false)
        | some raw ↦ elim raw [
          | corrupt ↦ (record { state = miss; fill_at = none; cached = none }, true)
          | envelope fresh_until v ↦
              if leb now fresh_until
              then (record { state = hit; fill_at = none; cached = some v }, false)
              else (with_generation stale (some v) out later, false)
        ]
      ]

  -- The answer after the cache was no hit: what the service behind it gave, or, where that failed in
  -- a way that allows it, the stale payload. A good value is the second component: it is to be filled.
  unfoldable pub after_miss : Loaded V → Result V → Result V × Option V
  after_miss loaded (ok v) = (ok v, some v)
  after_miss loaded (err e) =
      if is_stale loaded.state && can_serve_stale e
      then (elim loaded.cached [ none ↦ err e | some v ↦ ok v ], none)
      else (err e, none)

  -- `GetSnapshot` and `GetPlayerAssets`: the answer, and the value to be filled at the generation.
  unfoldable pub get_view : Loaded V → Result V → Result V × Option V
  get_view loaded inner = elim loaded.state [
    | hit ↦ (elim loaded.cached [ none ↦ inner | some v ↦ ok v ], none)
    | stale ↦ after_miss loaded inner
    | miss ↦ after_miss loaded inner
  ]
