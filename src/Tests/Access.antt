-- ===== src/Tests/Access.antt =====
-- Routes, the read cache and coalesced purchases at concrete inputs.
use farm_server.Base.{
  ℕ, ◌+◌, ◌≤◌, ◌≡◌, refl, arith, false, String, List, [], ◌∷◌, Option, none, some, IsIn, first, All,
}
use farm_server.Errors.{ok, err, plain}
use farm_server.Routing.{Route, KeyValue, active, claim, unchanged, next_route, put_claim}
use farm_server.Routing.Controllers
use farm_server.Routing.Controllers.{after_claim}
use farm_server.Routing.Epochs.{epoch_has_one_owner, fresh_world}
use farm_server.Routing.Resolver.{
  RouteEvent, put_event, delete_event, bucket_for, sync_routes, watch, route_or_error, resolve,
  stored, written, resolver_follows_store,
}
use farm_server.ReadCache.{Times, Outage, hit, load, fill, with_generation, get_view}
use farm_server.ReadCache.Fresh
use farm_server.ReadCache.Fresh.{hits_are_current, empty_cache}
use farm_server.Coalescer.{
  Waiter, submit, submit_to, flush, join_bucket, seen_qty, Bucket, bucket_or_new, command,
}
use farm_server.Coalescer.Charge.{count}
use farm_server.Coalescer.Window
use farm_server.Coalescer.Window.{
  waiting, count_sent, IsSettled, no_requests, requests_answered_once,
}

-- Instance "a" claims bucket 3; "b" tries with the same reads, and claims it after reading again.
abbrev read_once : Controllers.World
read_once = record (fresh_world 7) { routes_seen = none ∷ []; epochs_seen = none ∷ [] }

abbrev a_owns : Controllers.World
a_owns = after_claim 1 "a" 3 none none read_once

abbrev b_lost : Controllers.World
b_lost = after_claim 2 "b" 3 none none a_owns

abbrev read_again : Controllers.World
read_again = record b_lost {
  routes_seen = b_lost.keys.route ∷ none ∷ [];
  epochs_seen = b_lost.keys.epoch ∷ none ∷ [];
}

abbrev b_owns : Controllers.World
b_owns = after_claim 2 "b" 3 read_again.keys.route read_again.keys.epoch read_again

b_owns-claims : b_owns.claims ≡ ("b", 2) ∷ ("a", 1) ∷ []
unfolding claim unchanged next_route put_claim
b_owns-claims = refl

read_again-Reach : Controllers.Reach (fresh_world 7) read_again
unfolding claim unchanged next_route put_claim
read_again-Reach =
    Controllers.after_step
      (Controllers.after_step
        (Controllers.after_step
          (Controllers.after_step
            (Controllers.after_step
              (Controllers.after_step Controllers.here (Controllers.reads_route (fresh_world 7)))
              (Controllers.reads_epoch (record (fresh_world 7) { routes_seen = none ∷ [] })))
            (Controllers.claims_bucket 1 "a" 3 none none read_once first first))
          (Controllers.claims_bucket 2 "b" 3 none none a_owns first first))
        (Controllers.reads_route b_lost))
      (Controllers.reads_epoch (record b_lost { routes_seen = b_lost.keys.route ∷ none ∷ [] }))

b_owns-Reach : Controllers.Reach (fresh_world 7) b_owns
b_owns-Reach = Controllers.after_step read_again-Reach (
    Controllers.claims_bucket 2 "b" 3 read_again.keys.route read_again.keys.epoch read_again first
      first)

epoch_has_one_owner_example :
    ((a b : String) (e : ℕ) → IsIn (a, e) b_owns.claims → IsIn (b, e) b_owns.claims → a ≡ b)
    × ((kv : KeyValue Route)
        → b_owns.keys.route ≡ some kv
        → IsIn (kv.value.owner, kv.value.epoch) b_owns.claims
          × ((a : String) (e : ℕ) → IsIn (a, e) b_owns.claims → e ≤ kv.value.epoch))
epoch_has_one_owner_example = epoch_has_one_owner 7 b_owns b_owns-Reach

abbrev owned : String → ℕ → Route
owned owner epoch = record { bucket = 3; owner = owner; epoch = epoch; state = active }

abbrev table : List (ℕ × Option Route)
table = (3, some (owned "a" 1)) ∷ []

abbrev taken_over : List RouteEvent
taken_over = delete_event (some 3) ∷ put_event (some 3) (some (owned "b" 2)) ∷ []

resolver_follows_store_example :
    resolve 8 7 (watch taken_over (sync_routes table))
    ≡ route_or_error (stored (bucket_for 7 8) (written taken_over table))
resolver_follows_store_example =
    resolver_follows_store 8 7 table taken_over (refl, tt) (refl, tt) (tt, (refl, tt))

-- A reader misses, reads 5 behind the cache and fills it; the next read hits.
abbrev no_outage : Outage
no_outage = record { get_entry = false; get_generation = false; scripts = false }

abbrev times : Times
times = record { ttl = 100; stale_ttl = 500 }

abbrev has_read : Fresh.World ℕ
has_read = record (empty_cache 5 0) { loaded = 0 ∷ []; values = (0, 5) ∷ [] }

abbrev filled : Fresh.World ℕ
filled = record has_read { cache = fill times false 1000 (some 0) 5 has_read.cache }

filled-Reach : Fresh.Reach (empty_cache 5 0) filled
unfolding load with_generation
filled-Reach =
    Fresh.after_step
      (Fresh.after_step
        (Fresh.after_step Fresh.here
          (Fresh.loads no_outage 1000 (empty_cache 5 0).cache 0 (empty_cache 5 0) refl))
        (Fresh.reads 0 (record (empty_cache 5 0) { loaded = 0 ∷ [] }) first))
      (Fresh.fills times false 1000 0 5 has_read first)

filled_hit : (load no_outage 1050 filled.cache filled.cache).0.state ≡ hit
unfolding load fill with_generation
filled_hit = refl

hits_are_current_example :
    (get_view (load no_outage 1050 filled.cache filled.cache).0 (err plain)).0 ≡ ok filled.current
hits_are_current_example =
    hits_are_current 5 0 filled no_outage 1050 filled.cache (err plain) filled-Reach refl filled_hit

-- Two purchases of 3 with one key, and one of 2, in one window.
abbrev purchase : ℕ → String → ℕ → Waiter
purchase channel key qty = record { channel = channel; key = key; qty = qty }

abbrev submitted : Waiter → Window.World → Window.World
submitted r w = record w { coalescer = submit r w.coalescer; requests = r ∷ w.requests }

abbrev joined : Window.World
joined =
    submitted (purchase 3 "l" 2)
      (submitted (purchase 2 "k" 3) (submitted (purchase 1 "k" 3) no_requests))

abbrev window : Bucket
window = bucket_or_new joined.coalescer.bucket

abbrev ended : Window.World
ended = record joined {
  coalescer = record joined.coalescer { bucket = none };
  sent = flush window ∷ joined.sent;
}

ended-sent :
    ended.sent ≡ command 5 (purchase 1 "k" 3 ∷ purchase 2 "k" 3 ∷ purchase 3 "l" 2 ∷ []) ∷ []
unfolding submit submit_to flush join_bucket seen_qty
ended-sent = refl

joined-Reach : Window.Reach no_requests joined
joined-Reach =
    Window.after_step
      (Window.after_step
        (Window.after_step Window.here
          (Window.submits (purchase 1 "k" 3) no_requests (omega arith) (omega arith)))
        (Window.submits (purchase 2 "k" 3) (submitted (purchase 1 "k" 3) no_requests) (omega arith)
          (omega arith)))
      (Window.submits (purchase 3 "l" 2)
        (submitted (purchase 2 "k" 3) (submitted (purchase 1 "k" 3) no_requests)) (omega arith)
        (omega arith))

ended-Reach : Window.Reach no_requests ended
unfolding submit submit_to seen_qty join_bucket
ended-Reach = Window.after_step joined-Reach (Window.window_ends window joined refl)

requests_answered_once_example :
    ((c : ℕ) → count c ended.requests ≡ waiting c ended.coalescer + count_sent c ended.sent)
    × All IsSettled ended.sent
requests_answered_once_example = requests_answered_once ended ended-Reach
