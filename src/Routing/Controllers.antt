-- ===== src/Routing/Controllers.antt =====
-- The claims, activations and lease expiries of all controllers as steps over a bucket's keys, with
-- reads at any earlier time (server/internal/farm/routing/etcd.go).
use farm_server.Base.{
  ℕ, ◌+◌, ◌≤◌, ◌<◌, ◌≡◌, refl, arith, Bool, true, String, List, [], ◌∷◌, Option, none, some,
  if◌then◌else◌, All, IsIn,
}
use farm_server.Routing.{
  Route, KeyValue, Keys, mod_of, unchanged, old_epoch, next_route, claim, activate, expire,
}

-- The keys of a bucket, what any controller has read of them so far, and the claims that succeeded,
-- the newest first, each with its owner and epoch.
pub record World : Type 0 where
  pub keys : Keys
  pub routes_seen : List (Option (KeyValue Route))
  pub epochs_seen : List (Option (KeyValue ℕ))
  pub claims : List (String × ℕ)

abbrev pub logged : Bool → String → ℕ → List (String × ℕ) → List (String × ℕ)
logged won me epoch cs = if won then (me, epoch) ∷ cs else cs

abbrev pub after_claim :
    ℕ → String → ℕ → Option (KeyValue Route) → Option (KeyValue ℕ) → World → World
after_claim lease me bucket r e w = record w {
  keys = (claim lease me bucket r e w.keys).1;
  claims = logged (claim lease me bucket r e w.keys).0 me (next_route me bucket r e).epoch w.claims;
}

pub data Step : World → World → Type 0 where
  reads_route : (w : World) → Step w (record w { routes_seen = w.keys.route ∷ w.routes_seen })
  reads_epoch : (w : World) → Step w (record w { epochs_seen = w.keys.epoch ∷ w.epochs_seen })
  claims_bucket :
      (lease : ℕ) (me : String) (bucket : ℕ) (r : Option (KeyValue Route)) (e : Option (KeyValue ℕ))
      (w : World)
      → IsIn r w.routes_seen
      → IsIn e w.epochs_seen
      → Step w (after_claim lease me bucket r e w)
  activates :
      (lease : ℕ) (me : String) (route : Route) (r : Option (KeyValue Route)) (w : World)
      → IsIn r w.routes_seen
      → Step w (record w { keys = activate lease me route r w.keys })
  expires : (lease : ℕ) (w : World) → Step w (record w { keys = expire lease w.keys })
  writes_elsewhere :
      (w : World) → Step w (record w { keys = record w.keys { revision = w.keys.revision + 1 } })

pub data Reach (v : World) : World → Type 0 where
  here : Reach v v
  after_step : {w u : World} → Reach v w → Step w u → Reach v u

-- A value that was read is the present one, or the key was written since.
abbrev pub IsCurrent : {A : Type 0} → ℕ → Option (KeyValue A) → Option (KeyValue A) → Type 0
IsCurrent rev now none = Unit {0}
IsCurrent rev now (some kv) =
    (1 ≤ kv.mod_revision) × (kv.mod_revision ≤ rev) × (mod_of now ≡ kv.mod_revision → now ≡ some kv)

pub unchanged-eq :
    {A : Type 0} (rev : ℕ) (now seen : Option (KeyValue A))
    → IsCurrent rev now seen
    → unchanged seen now ≡ true
    → now ≡ seen
unfolding unchanged
unchanged-eq rev none none h e = refl
unchanged-eq rev (some kv) none h e = cc
unchanged-eq rev now (some kv) h e = h.2 (ground arith)

pub written-IsCurrent :
    {A : Type 0} (rev : ℕ) (now : Option (KeyValue A)) (v : A) (seen : Option (KeyValue A))
    → IsCurrent rev now seen
    → IsCurrent (rev + 1) (some (record { value = v; mod_revision = rev + 1 })) seen
written-IsCurrent rev now v none h = tt
written-IsCurrent rev now v (some kv) h = (h.0, omega arith, λ e. absurd (omega arith))

pub deleted-IsCurrent :
    {A : Type 0} (rev : ℕ) (now seen : Option (KeyValue A))
    → IsCurrent rev now seen
    → IsCurrent (rev + 1) none seen
deleted-IsCurrent rev now none h = tt
deleted-IsCurrent rev now (some kv) h = (h.0, omega arith, λ e. absurd (omega arith))

pub kept-IsCurrent :
    {A : Type 0} (rev : ℕ) (now seen : Option (KeyValue A))
    → IsCurrent rev now seen
    → IsCurrent (rev + 1) now seen
kept-IsCurrent rev now none h = tt
kept-IsCurrent rev now (some kv) h = (h.0, omega arith, h.2)

-- The epochs of the claims, newest first, fall.
abbrev pub newest : List (String × ℕ) → ℕ
newest [] = 0
newest ((a, e) ∷ cs) = e

abbrev pub IsFalling : List (String × ℕ) → Type 0
IsFalling [] = Unit {0}
IsFalling ((a, e) ∷ cs) = (newest cs < e) × IsFalling cs

-- The route is that of the newest claim.
abbrev pub IsNewest : Option (KeyValue Route) → List (String × ℕ) → Type 0
IsNewest none cs = Unit {0}
IsNewest (some kv) cs =
    (older : List (String × ℕ)) × (cs ≡ (kv.value.owner, kv.value.epoch) ∷ older)

pub record IsSound (w : World) : Type 0 where
  pub routes : All (IsCurrent w.keys.revision w.keys.route) (w.keys.route ∷ w.routes_seen)
  pub epochs : All (IsCurrent w.keys.revision w.keys.epoch) (w.keys.epoch ∷ w.epochs_seen)
  pub counted : old_epoch w.keys.epoch ≡ newest w.claims
  pub falling : IsFalling w.claims
  pub routed : IsNewest w.keys.route w.claims
