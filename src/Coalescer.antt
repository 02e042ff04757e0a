-- ===== src/Coalescer.antt =====
-- server/internal/gateway/http/economy_coalescer.go: the purchases or sales that a player sends within
-- one window become one command, and the checks of server/internal/gateway/http/shop_handler.go
-- before it. The buckets of one player, command type and crop; the keys of the map do not interact.
pub mod Charge
pub mod Window
use farm_server.Base.{
  ℕ, ◌+◌, ◌≤◌, Bool, true, false, not, ◌&&◌, String, List, [], ◌∷◌, ◌++◌, Option, none, some, ◌==◌,
  ltb, str_eq, if◌then◌else◌,
}
use farm_server.Errors.{Result, ok, err, Error, coded, common_invalid_argument}
use farm_server.Farm.{max_economy_quantity}

-- A request that waits on its channel, with the Idempotency-Key and the quantity that it brought.
pub record Waiter : Type 0 where
  pub channel : ℕ
  pub key : String
  pub qty : ℕ

-- `coalescerBucket`; `seen` gives the quantity that a key was counted with.
pub record Bucket : Type 0 where
  pub waiters : List Waiter
  pub seen : List (String × ℕ)
  pub total_qty : ℕ

-- The bucket in the map, if there is one, and those that were triggered early and taken out of the
-- map, whose `flush` is still to run.
pub record Coalescer : Type 0 where
  pub bucket : Option Bucket
  pub triggered : List Bucket

-- `handlePurchase` and `handleSell` before the command; a quantity below 1 is 0 here.
unfoldable pub check_request : String → ℕ → Result ℕ
check_request crop qty =
    if str_eq crop ""
    then err (coded common_invalid_argument)
    else if qty == 0
    then err (coded common_invalid_argument)
    else if ltb max_economy_quantity qty
    then err (coded common_invalid_argument)
    else ok qty

-- A Go map: 0 for a key that it does not hold.
unfoldable pub seen_qty : String → List (String × ℕ) → ℕ
seen_qty k [] = 0
seen_qty k ((j, q) ∷ s) = if str_eq k j then q else seen_qty k s

abbrev pub new_bucket : Bucket
new_bucket = record { waiters = []; seen = []; total_qty = 0 }

abbrev pub bucket_or_new : Option Bucket → Bucket
bucket_or_new none = new_bucket
bucket_or_new (some b) = b

-- The request is appended, with what it adds to the quantity.
unfoldable pub join_bucket : Waiter → ℕ → Bucket → Bucket
join_bucket w add b = record b { waiters = b.waiters ++ w ∷ []; total_qty = b.total_qty + add }

abbrev pub note_key : Waiter → Bucket → Bucket
note_key w b = record b { seen = (w.key, w.qty) ∷ b.seen }

-- `Submit` up to the wait: a key that the bucket has seen adds nothing; where the sum would pass the
-- limit, the bucket is triggered and the request opens another.
unfoldable pub submit_to : Waiter → Bucket → List Bucket → Coalescer
submit_to w b triggered =
    if not (seen_qty w.key b.seen == 0)
    then record { bucket = some (join_bucket w 0 b); triggered = triggered }
    else if not (w.qty == 0) && ltb max_economy_quantity (b.total_qty + w.qty)
    then record {
      bucket = some (join_bucket w w.qty (note_key w new_bucket));
      triggered = note_key w b ∷ triggered;
    }
    else record { bucket = some (join_bucket w w.qty (note_key w b)); triggered = triggered }

unfoldable pub submit : Waiter → Coalescer → Coalescer
submit w c = submit_to w (bucket_or_new c.bucket) c.triggered

-- What `flush` sends, and whom it answers: nothing for a bucket without requests, an error for a
-- quantity of 0, and else one command whose outcome all of them get.
pub data Flushed : Type 0 where
  nothing : Flushed
  refused : List Waiter → Flushed
  command : ℕ → List Waiter → Flushed

abbrev pub is_empty : List Waiter → Bool
is_empty [] = true
is_empty (w ∷ ws) = false

unfoldable pub flush : Bucket → Flushed
flush b =
    if is_empty b.waiters
    then nothing
    else if b.total_qty == 0
    then refused b.waiters
    else command b.total_qty b.waiters
