-- ===== src/Routing/Resolver.antt =====
-- `Resolver` of server/internal/farm/routing/etcd.go: gatesvr's cache of the route table, loaded by
-- `sync` and kept up to date by the events of `watch`.
use Prim.Native.Nat.{bit_xor}
use farm_server.Base.{
  ℕ, ◌≡◌, ◌∙◌, refl, ap, arith, ◌&&◌, List, [], ◌∷◌, Option, none, some, ◌==◌, if◌then◌else◌, Dict,
  lookup, insert, erase, lookup-insert, lookup-erase, str_eq, All, IsDistinct, not, ◌*◌, ◌/◌, ◌%◌,
  ◌^◌,
}
use farm_server.Routing.{Route, is_active}
use farm_server.Errors.{Result, ok, err, coded, routing_owner_not_found}

-- A write below the prefix of the routes: the number in the key, if it is one, and the route that the
-- value decodes to, if it does; or a deletion.
pub data RouteEvent : Type 0 where
  put_event : Option ℕ → Option Route → RouteEvent
  delete_event : Option ℕ → RouteEvent

-- `BucketFor`: the id's bits mixed in 64 bits, modulo the number of buckets.
unfoldable pub bucket_for : ℕ → ℕ → ℕ
bucket_for farm buckets =
    let low = bit_xor farm (farm / 2 ^ 33) in
    let mixed = low * 0xff51afd7ed558ccd % 2 ^ 64 in
    if buckets == 0 then 0 else bit_xor mixed (mixed / 2 ^ 33) % buckets

-- The loop of `sync` over the values of the keys: the key itself is not read.
unfoldable pub load_into : Dict Route → Dict (Option Route) → Dict Route
load_into next [] = next
load_into next ((k, none) ∷ kvs) = load_into next kvs
load_into next ((k, some route) ∷ kvs) = load_into (insert route.bucket route next) kvs

unfoldable pub sync_routes : Dict (Option Route) → Dict Route
sync_routes kvs = load_into [] kvs

-- One event of `watch`: events with another key or another value are passed over.
unfoldable pub apply_event : RouteEvent → Dict Route → Dict Route
apply_event (put_event none route) routes = routes
apply_event (delete_event none) routes = routes
apply_event (delete_event (some bucket)) routes = erase bucket routes
apply_event (put_event (some bucket) none) routes = routes
apply_event (put_event (some bucket) (some route)) routes = insert bucket route routes

unfoldable pub watch : List RouteEvent → Dict Route → Dict Route
watch [] routes = routes
watch (e ∷ es) routes = watch es (apply_event e routes)

-- What `Resolve` answers for an entry of the table.
unfoldable pub route_or_error : Option Route → Result Route
route_or_error none = err (coded routing_owner_not_found)
route_or_error (some route) =
    if is_active route.state && not (str_eq route.owner "")
    then ok route
    else err (coded routing_owner_not_found)

unfoldable pub resolve : ℕ → ℕ → Dict Route → Result Route
resolve buckets farm routes = route_or_error (lookup (bucket_for farm buckets) routes)

-- The keys of the store after writes: the state that `sync` would load.
abbrev pub written : List RouteEvent → Dict (Option Route) → Dict (Option Route)
written [] kvs = kvs
written (put_event none route ∷ es) kvs = written es kvs
written (delete_event none ∷ es) kvs = written es kvs
written (put_event (some bucket) route ∷ es) kvs = written es (insert bucket route kvs)
written (delete_event (some bucket) ∷ es) kvs = written es (erase bucket kvs)

-- A key that a controller writes: a route, under the number of its bucket.
abbrev pub IsRouteKey : ℕ × Option Route → Type 0
IsRouteKey (k, none) = ⊥
IsRouteKey (k, some route) = route.bucket ≡ k

abbrev pub IsRouteEvent : RouteEvent → Type 0
IsRouteEvent (put_event none route) = ⊥
IsRouteEvent (put_event (some bucket) route) = IsRouteKey (bucket, route)
IsRouteEvent (delete_event none) = ⊥
IsRouteEvent (delete_event (some bucket)) = Unit

abbrev pub stored : ℕ → Dict (Option Route) → Option Route
stored b kvs = elim (lookup b kvs) [ none ↦ none | some value ↦ value ]

abbrev or_else : Option Route → Option Route → Option Route
or_else none y = y
or_else (some x) y = some x

load_into_lem :
    (b : ℕ) (next : Dict Route) (kvs : Dict (Option Route))
    → All IsRouteKey kvs
    → IsDistinct kvs
    → lookup b (load_into next kvs) ≡ or_else (stored b kvs) (lookup b next)
unfolding load_into
load_into_lem b next [] h d = refl
load_into_lem b next ((k, none) ∷ kvs) h d = absurd h.0
load_into_lem b next ((k, some route) ∷ kvs) h d =
    load_into_lem b (insert route.bucket route next) kvs h.1 d.1
    ∙ ground (arith, h.0, d.0, lookup-insert b route.bucket route next)

-- The cache holds what the store does.
abbrev Follows : Dict Route → Dict (Option Route) → Type 0
Follows routes kvs = (b : ℕ) → lookup b routes ≡ stored b kvs

watch-Follows :
    (es : List RouteEvent) (routes : Dict Route) (kvs : Dict (Option Route))
    → All IsRouteEvent es
    → Follows routes kvs
    → Follows (watch es routes) (written es kvs)
unfolding watch apply_event
watch-Follows [] routes kvs w f = f
watch-Follows (put_event none route ∷ es) routes kvs w f = absurd w.0
watch-Follows (delete_event none ∷ es) routes kvs w f = absurd w.0
watch-Follows (put_event (some bucket) none ∷ es) routes kvs w f = absurd w.0
watch-Follows (put_event (some bucket) (some route) ∷ es) routes kvs w f =
    watch-Follows es (insert bucket route routes) (insert bucket (some route) kvs) w.1 λ b.
      ground
        (arith, f b, lookup-insert b bucket route routes, lookup-insert b bucket (some route) kvs)
watch-Follows (delete_event (some bucket) ∷ es) routes kvs w f =
    watch-Follows es (erase bucket routes) (erase bucket kvs) w.1
      λ b. ground (arith, f b, lookup-erase b bucket routes, lookup-erase b bucket kvs)

-- Whatever routes are written and deleted after the table was loaded: once its events are applied,
-- `Resolve` finds for each farm exactly the route that the store then holds for the farm's bucket,
-- and answers with it if it is ACTIVE and has an owner, and with an error otherwise.
pub resolver_follows_store :
    (buckets farm : ℕ) (kvs : Dict (Option Route)) (es : List RouteEvent)
    → All IsRouteKey kvs
    → IsDistinct kvs
    → All IsRouteEvent es
    → resolve buckets farm (watch es (sync_routes kvs))
      ≡ route_or_error (stored (bucket_for farm buckets) (written es kvs))
unfolding resolve sync_routes
resolver_follows_store buckets farm kvs es h d w = ap route_or_error (
    watch-Follows es (load_into [] kvs) kvs w
      (λ b. load_into_lem b [] kvs h d ∙ or_else-none (stored b kvs)) (bucket_for farm buckets))
  where
    or_else-none : (o : Option Route) → or_else o none ≡ o
    or_else-none none = refl
    or_else-none (some r) = refl
