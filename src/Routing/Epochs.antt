-- ===== src/Routing/Epochs.antt =====
-- No two instances ever hold one epoch of a bucket (server/internal/farm/routing/etcd.go).
use farm_server.Base.{
  ℕ, ◌+◌, ◌≤◌, ◌≡◌, refl, sym, subst, arith, ◌&&◌, String, List, [], ◌∷◌, Option, none, some, ◌==◌,
  str_eq, IsIn, first, later, All-IsIn, All-map, IsIn-cases, ap, Bool-cases, inl, inr,
}
use farm_server.Routing.{
  Route, KeyValue, unchanged, already_mine, next_route, put_claim, claim, put_route, activate,
  expire, active,
}
use farm_server.Routing.Controllers.{
  World, after_claim, Step, Reach, IsCurrent, unchanged-eq, written-IsCurrent, deleted-IsCurrent,
  kept-IsCurrent, newest, IsFalling, IsNewest, IsSound, reads_route, reads_epoch, claims_bucket,
  activates, expires, writes_elsewhere, here, after_step,
}

module _ (w : World) (sound : IsSound w) where
  put_claim-IsSound :
      (lease : ℕ) (me : String) (bucket : ℕ) (r : Option (KeyValue Route))
      → IsSound (record w {
        keys = put_claim lease (next_route me bucket r w.keys.epoch) w.keys;
        claims = (me, (next_route me bucket r w.keys.epoch).epoch) ∷ w.claims;
      })
  unfolding put_claim next_route
  put_claim-IsSound lease me bucket r = record {
    routes = (
      (omega arith, omega arith, λ e. refl),
      All-map (IsCurrent w.keys.revision w.keys.route) _ w.routes_seen
          (written-IsCurrent w.keys.revision w.keys.route _) sound.routes.1,
    );
    epochs = (
      (omega arith, omega arith, λ e. refl),
      All-map (IsCurrent w.keys.revision w.keys.epoch) _ w.epochs_seen
          (written-IsCurrent w.keys.revision w.keys.epoch _) sound.epochs.1,
    );
    counted = refl;
    falling = (omega (arith, sound.counted), sound.falling);
    routed = (w.claims, refl);
  }

  -- The new value of the route has the owner and the epoch of the old one.
  put_route-IsSound :
      (lease : ℕ) (kv : KeyValue Route) (next : Route)
      → w.keys.route ≡ some kv
      → next.owner ≡ kv.value.owner
      → next.epoch ≡ kv.value.epoch
      → IsSound (record w { keys = put_route lease next w.keys })
  unfolding put_route
  put_route-IsSound lease kv next now owner epoch = record {
    routes = (
      (omega arith, omega arith, λ e. refl),
      All-map (IsCurrent w.keys.revision w.keys.route) _ w.routes_seen
          (written-IsCurrent w.keys.revision w.keys.route _) sound.routes.1,
    );
    epochs =
        All-map (IsCurrent w.keys.revision w.keys.epoch) _ (w.keys.epoch ∷ w.epochs_seen)
          (kept-IsCurrent w.keys.revision w.keys.epoch) sound.epochs;
    counted = sound.counted;
    falling = sound.falling;
    routed =
        let (older, e) = subst (λ o. IsNewest o w.claims) now sound.routed in
        (older, rw (owner, epoch) e);
  }

  expire-IsSound : (lease : ℕ) → IsSound (record w { keys = expire lease w.keys })
  unfolding expire
  expire-IsSound lease = elim (Bool-cases (w.keys.route_lease == lease)) [
    | inl e ↦ rw e (record {
      routes = (
        tt,
        All-map (IsCurrent w.keys.revision w.keys.route) _ w.routes_seen
            (deleted-IsCurrent w.keys.revision w.keys.route) sound.routes.1,
      );
      epochs =
          All-map (IsCurrent w.keys.revision w.keys.epoch) _ (w.keys.epoch ∷ w.epochs_seen)
            (kept-IsCurrent w.keys.revision w.keys.epoch) sound.epochs;
      counted = sound.counted;
      falling = sound.falling;
      routed = tt;
    })
    | inr e ↦ rw e sound
  ]

  elsewhere-IsSound : IsSound (record w { keys = record w.keys { revision = w.keys.revision + 1 } })
  elsewhere-IsSound = record {
    routes =
        All-map (IsCurrent w.keys.revision w.keys.route) _ (w.keys.route ∷ w.routes_seen)
          (kept-IsCurrent w.keys.revision w.keys.route) sound.routes;
    epochs =
        All-map (IsCurrent w.keys.revision w.keys.epoch) _ (w.keys.epoch ∷ w.epochs_seen)
          (kept-IsCurrent w.keys.revision w.keys.epoch) sound.epochs;
    counted = sound.counted;
    falling = sound.falling;
    routed = sound.routed;
  }

  claim-IsSound :
      (lease : ℕ) (me : String) (bucket : ℕ) (r : Option (KeyValue Route)) (e : Option (KeyValue ℕ))
      → IsCurrent w.keys.revision w.keys.epoch e
      → IsSound (after_claim lease me bucket r e w)
  unfolding claim
  claim-IsSound lease me bucket r e seen = elim (Bool-cases (already_mine me r)) [
    | inl mine ↦ rw mine sound
    | inr other ↦
        rw other (elim (Bool-cases (unchanged e w.keys.epoch && unchanged r w.keys.route)) [
          | inl same ↦
              let now : w.keys.epoch ≡ e =
                unchanged-eq w.keys.revision w.keys.epoch e seen (ground arith) in
              rw same (
                subst
                  (λ x. IsSound (record w {
                    keys = put_claim lease (next_route me bucket r x) w.keys;
                    claims = (me, (next_route me bucket r x).epoch) ∷ w.claims;
                  }))
                  now (put_claim-IsSound lease me bucket r))
          | inr differ ↦ rw differ sound
        ])
  ]

  activate-IsSound :
      (lease : ℕ) (me : String) (route : Route) (r : Option (KeyValue Route))
      → IsCurrent w.keys.revision w.keys.route r
      → IsSound (record w { keys = activate lease me route r w.keys })
  unfolding activate
  activate-IsSound lease me route none seen = sound
  activate-IsSound lease me route (some kv) seen =
      elim (Bool-cases (str_eq kv.value.owner me && (kv.value.epoch == route.epoch))) [
        | inl mine ↦ rw mine (elim (Bool-cases (unchanged (some kv) w.keys.route)) [
          | inl same ↦ rw same (
              put_route-IsSound lease kv (record kv.value { state = active })
                (unchanged-eq w.keys.revision w.keys.route (some kv) seen same) refl refl)
          | inr differ ↦ rw differ sound
        ])
        | inr other ↦ rw other sound
      ]

Step-IsSound : {w u : World} → Step w u → IsSound w → IsSound u
Step-IsSound (reads_route w) h = record {
  routes = (h.routes.0, h.routes);
  epochs = h.epochs;
  counted = h.counted;
  falling = h.falling;
  routed = h.routed;
}
Step-IsSound (reads_epoch w) h = record {
  routes = h.routes;
  epochs = (h.epochs.0, h.epochs);
  counted = h.counted;
  falling = h.falling;
  routed = h.routed;
}
Step-IsSound (claims_bucket lease me bucket r e w i j) h =
    claim-IsSound w h lease me bucket r e
      (All-IsIn (IsCurrent w.keys.revision w.keys.epoch) h.epochs.1 j)
Step-IsSound (activates lease me route r w i) h =
    activate-IsSound w h lease me route r
      (All-IsIn (IsCurrent w.keys.revision w.keys.route) h.routes.1 i)
Step-IsSound (expires lease w) h = expire-IsSound w h lease
Step-IsSound (writes_elsewhere w) h = elsewhere-IsSound w h

-- A bucket that nobody has claimed yet.
abbrev pub fresh_world : ℕ → World
fresh_world revision = record {
  keys = record { revision = revision; epoch = none; route = none; route_lease = 0 };
  routes_seen = [];
  epochs_seen = [];
  claims = [];
}

Reach-IsSound : {w u : World} → Reach w u → IsSound w → IsSound u
Reach-IsSound here h = h
Reach-IsSound (after_step r step) h = Step-IsSound step (Reach-IsSound r h)

IsIn-newest :
    (cs : List (String × ℕ)) (a : String) (e : ℕ) → IsFalling cs → IsIn (a, e) cs → e ≤ newest cs
IsIn-newest ((b, d) ∷ cs) a e h first = omega arith
IsIn-newest ((b, d) ∷ cs) a e h (later i) = omega (arith, h.0, IsIn-newest cs a e h.1 i)
IsIn-newest [] a e h i = elim i [ ]

one_owner :
    (cs : List (String × ℕ)) (p q : String × ℕ)
    → IsFalling cs
    → p.1 ≡ q.1
    → IsIn p cs
    → IsIn q cs
    → p.0 ≡ q.0
one_owner [] p q h e i j = elim i [ ]
one_owner ((c, d) ∷ cs) (a, x) (b, y) h e i j = elim (IsIn-cases i) [
  | inl now ↦ elim (IsIn-cases j) [
    | inl too ↦ cc
    | inr old ↦
        absurd (omega (arith, h.0, ap (λ (p : String × ℕ). p.1) now, IsIn-newest cs b y h.1 old))
  ]
  | inr old ↦ elim (IsIn-cases j) [
    | inl now ↦
        absurd (omega (arith, h.0, ap (λ (p : String × ℕ). p.1) now, IsIn-newest cs a x h.1 old))
    | inr too ↦ one_owner cs (a, x) (b, y) h.1 e old too
  ]
]

-- However the reads, claims, activations and lease expiries of all controllers interleave: two
-- successful claims of a bucket with the same epoch are by the same instance, and the stored route,
-- if there is one, has the owner and the epoch of a claim, with the largest epoch of all.
pub epoch_has_one_owner :
    (revision : ℕ) (w : World)
    → Reach (fresh_world revision) w
    → ((a b : String) (e : ℕ) → IsIn (a, e) w.claims → IsIn (b, e) w.claims → a ≡ b)
      × ((kv : KeyValue Route)
          → w.keys.route ≡ some kv
          → IsIn (kv.value.owner, kv.value.epoch) w.claims
            × ((a : String) (e : ℕ) → IsIn (a, e) w.claims → e ≤ kv.value.epoch))
epoch_has_one_owner revision w r = (
  λ a b e. one_owner w.claims (a, e) (b, e) sound.falling refl,
  λ kv now.
      let (older, same) = subst (λ o. IsNewest o w.claims) now sound.routed in
      (
        subst (λ cs. IsIn (kv.value.owner, kv.value.epoch) cs) (sym same) first,
        λ a e i. subst (λ cs. e ≤ newest cs) same (IsIn-newest w.claims a e sound.falling i),
      ),
)
  where
    sound : IsSound w
    sound =
        Reach-IsSound r (record {
          routes = (tt, tt);
          epochs = (tt, tt);
          counted = refl;
          falling = tt;
          routed = tt;
        })
