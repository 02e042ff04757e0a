-- ===== src/Shard.antt =====
-- Ids and routing of players over shards (server/pkg/shard/id.go and server/pkg/shard/router.go).
-- Milliseconds are counted from the Unix epoch; instants before it are left out.
pub mod Ids
pub mod Routing
use Prim.Native.Nat.{bit_and}
use farm_server.Base.{
  ℕ, zero, suc, ◌+◌, ◌*◌, ◌-◌, ◌%◌, ◌^◌, Bool, String, List, [], ◌∷◌, Option, none, some, ltb, leb,
  ◌==◌, ◌&&◌, if◌then◌else◌, length,
}

-- `IDGenerator`
pub record IdGenerator : Type 0 where
  pub epoch_ms : ℕ
  pub shard : ℕ
  pub node : ℕ
  pub last_ms : ℕ
  pub sequence : ℕ

-- What `Next` returns: an id, or one of its errors.
pub data NextId : Type 0 where
  id : ℕ → NextId
  clock_precedes_epoch : NextId
  sequence_exhausted : NextId
  exceeds_int64 : NextId

-- `NewIDGenerator`; the arguments are `uint8`.
unfoldable pub new_id_generator : ℕ → ℕ → ℕ → Option IdGenerator
new_id_generator epoch_ms shard node =
    if ltb 63 shard
    then none
    else some
        (record { epoch_ms = epoch_ms; shard = shard; node = node; last_ms = 0; sequence = 0 })

-- The shifts of the code in a `uint64`; the bits that `|` adds are zero before.
pub id_value : ℕ → ℕ → ℕ → ℕ → ℕ
id_value ms node sequence shard =
    (((((ms * 256) % 18446744073709551616 + node) * 256) % 18446744073709551616 + sequence) * 64)
      % 18446744073709551616
    + shard

-- The end of `Next`: the range check.
finish_id : IdGenerator → IdGenerator × NextId
unfolding id_value
finish_id g = (g, check (id_value g.last_ms g.node g.sequence g.shard))
  where
    check : ℕ → NextId
    check v = if ltb 9223372036854775807 v then exceeds_int64 else id v

-- `Next`: the generator afterwards, and what is returned.
unfoldable pub next : IdGenerator → ℕ → IdGenerator × NextId
unfolding finish_id
next g now_ms =
    if ltb now_ms g.epoch_ms
    then (g, clock_precedes_epoch)
    else if now_ms - g.epoch_ms == g.last_ms
    then again
    else finish_id (record g { last_ms = now_ms - g.epoch_ms; sequence = 0 })
  where
    again : IdGenerator × NextId
    again =
        if g.sequence == 255
        then (g, sequence_exhausted)
        else finish_id (record g { sequence = g.sequence + 1 })

-- The count that `NewRouter` takes.
unfoldable pub is_supported : ℕ → Bool
is_supported count = leb 1 count && leb count 64 && bit_and count (count - 1) == 0

get_elem? : List String → ℕ → Option String
get_elem? [] n = none
get_elem? (x ∷ xs) zero = some x
get_elem? (x ∷ xs) (suc n) = get_elem? xs n

abbrev pub shard_index : ℕ → ℕ → ℕ
shard_index count user_id = user_id % count

-- `ShardForUserID` on the ordered names of the shards, and `ShardForFarmID`.
unfoldable pub shard_for_user_id : List String → ℕ → Option String
unfolding get_elem?
shard_for_user_id shards user_id =
    if length shards == 0
    then none
    else if user_id == 0
    then none
    else get_elem? shards (shard_index (length shards) user_id)
