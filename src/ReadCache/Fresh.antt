-- ===== src/ReadCache/Fresh.antt =====
-- The cache never keeps a value from before an invalidation: readers that load, read behind the cache
-- and fill at any later time, writers that commit and invalidate, as steps
-- (server/internal/gateway/http/read_cache.go).
use farm_server.Base.{
  ℕ, suc, ◌+◌, ◌≤◌, ◌≡◌, refl, arith, Bool, true, false, List, [], ◌∷◌, Option, none, some, ◌==◌,
  All, All-IsIn, All-map, IsIn, Bool-cases, inl, inr,
}
use farm_server.Errors.{Result, ok}
use farm_server.ReadCache.{
  Raw, corrupt, envelope, Cache, Times, Outage, hit, fill, invalidate, with_generation, load,
  get_view,
}

-- The cache, the authoritative value, the commits whose invalidation has not succeeded (yet), the
-- generations that readers have loaded, and the values that they read afterwards.
pub record World (V : Type 0) : Type 0 where
  pub cache : Cache V
  pub current : V
  pub pending : ℕ
  pub loaded : List ℕ
  pub values : List (ℕ × V)

module _ {V : Type 0} where
  pub data Step : World V → World V → Type 0 where
    loads :
        (out : Outage) (now : ℕ) (c : Cache V) (generation : ℕ) (w : World V)
        → (load out now c w.cache).0.fill_at ≡ some generation
        → Step w (record w { loaded = generation ∷ w.loaded })
    reads :
        (generation : ℕ) (w : World V)
        → IsIn generation w.loaded
        → Step w (record w { values = (generation, w.current) ∷ w.values })
    fills :
        (times : Times) (fails : Bool) (now generation : ℕ) (v : V) (w : World V)
        → IsIn (generation, v) w.values
        → Step w (record w { cache = fill times fails now (some generation) v w.cache })
    commits : (v : V) (w : World V) → Step w (record w { current = v; pending = w.pending + 1 })
    invalidates :
        (n : ℕ) (w : World V)
        → w.pending ≡ suc n
        → Step w (record w { cache = invalidate false w.cache; pending = n })
    clears_corrupt :
        (fails : Bool) (w : World V) → Step w (record w { cache = invalidate fails w.cache })
    expires : (w : World V) → Step w (record w { cache = record w.cache { entry = none } })
    corrupts : (w : World V) → Step w (record w { cache = record w.cache { entry = some corrupt } })

  pub data Reach (v : World V) : World V → Type 0 where
    here : Reach v v
    after_step : {w u : World V} → Reach v w → Step w u → Reach v u

  -- An entry that decodes is the authoritative value, unless an invalidation is outstanding.
  abbrev IsFresh : Option (Raw V) → ℕ → V → Type 0
  IsFresh none pending current = Unit {0}
  IsFresh (some corrupt) pending current = Unit {0}
  IsFresh (some (envelope until v)) pending current = pending ≡ 0 → v ≡ current

  -- So is a value that was read, as long as its generation lasts.
  abbrev IsUsable : ℕ → ℕ → V → ℕ × V → Type 0
  IsUsable generation pending current (g, v) =
      (g ≤ generation) × (g ≡ generation → pending ≡ 0 → v ≡ current)

  record IsSound (w : World V) : Type 0 where
    fresh : IsFresh w.cache.entry w.pending w.current
    usable : All (IsUsable w.cache.generation w.pending w.current) w.values
    past : All (λ g. g ≤ w.cache.generation) w.loaded

  load-past :
      (out : Outage) (now : ℕ) (c after : Cache V) (g : ℕ)
      → (load out now c after).0.fill_at ≡ some g
      → g ≡ after.generation
  unfolding load with_generation
  load-past out now c after g h = ground arith

  fill-IsSound :
      (times : Times) (fails : Bool) (now g : ℕ) (v : V) (w : World V)
      → IsUsable w.cache.generation w.pending w.current (g, v)
      → IsSound w
      → IsSound (record w { cache = fill times fails now (some g) v w.cache })
  unfolding fill
  fill-IsSound times fails now g v w u h = elim (Bool-cases (times.ttl == 0)) [
    | inl off ↦ rw off h
    | inr on ↦ rw on (elim (Bool-cases fails) [
      | inl down ↦ rw down h
      | inr up ↦ rw up (elim (Bool-cases (w.cache.generation == g)) [
        | inl same ↦
            rw same (record { fresh = u.1 (ground arith); usable = h.usable; past = h.past })
        | inr moved ↦ rw moved h
      ])
    ])
  ]

  invalidate-IsSound :
      (n : ℕ) (w : World V)
      → IsSound w
      → IsSound (record w { cache = invalidate false w.cache; pending = n })
  unfolding invalidate
  invalidate-IsSound n w h = record {
    fresh = tt;
    usable =
        All-map (IsUsable w.cache.generation w.pending w.current) _ w.values
          (λ p u. (omega (arith, u.0), λ e z. absurd (omega (arith, u.0, e)))) h.usable;
    past = All-map (λ g. g ≤ w.cache.generation) _ w.loaded (λ g k. omega (arith, k)) h.past;
  }

  failed-IsSound :
      (w : World V) → IsSound w → IsSound (record w { cache = invalidate true w.cache })
  unfolding invalidate
  failed-IsSound w h = record { fresh = h.fresh; usable = h.usable; past = h.past }

  commit-IsFresh : (o : Option (Raw V)) (n : ℕ) (v : V) → IsFresh o (n + 1) v
  commit-IsFresh none n v = tt
  commit-IsFresh (some corrupt) n v = tt
  commit-IsFresh (some (envelope until x)) n v = λ z. absurd (omega (arith, z))

  Step-IsSound : {w u : World V} → Step w u → IsSound w → IsSound u
  Step-IsSound (loads out now c g w e) h = record {
    fresh = h.fresh;
    usable = h.usable;
    past = (omega (arith, load-past out now c w.cache g e), h.past);
  }
  Step-IsSound (reads g w i) h = record {
    fresh = h.fresh;
    usable = ((All-IsIn (λ x. x ≤ w.cache.generation) h.past i, λ e z. refl), h.usable);
    past = h.past;
  }
  Step-IsSound (fills times fails now g v w i) h =
      fill-IsSound times fails now g v w
        (All-IsIn (IsUsable w.cache.generation w.pending w.current) h.usable i) h
  Step-IsSound (commits v w) h = record {
    fresh = commit-IsFresh w.cache.entry w.pending v;
    usable =
        All-map (IsUsable w.cache.generation w.pending w.current) _ w.values
          (λ p u. (u.0, λ e z. absurd (omega (arith, z)))) h.usable;
    past = h.past;
  }
  Step-IsSound (invalidates n w e) h = invalidate-IsSound n w h
  Step-IsSound (clears_corrupt true w) h = failed-IsSound w h
  Step-IsSound (clears_corrupt false w) h = invalidate-IsSound w.pending w h
  Step-IsSound (expires w) h = record { fresh = tt; usable = h.usable; past = h.past }
  Step-IsSound (corrupts w) h = record { fresh = tt; usable = h.usable; past = h.past }

  Reach-IsSound : {w u : World V} → Reach w u → IsSound w → IsSound u
  Reach-IsSound here h = h
  Reach-IsSound (after_step r step) h = Step-IsSound step (Reach-IsSound r h)

  abbrev pub empty_cache : V → ℕ → World V
  empty_cache current generation = record {
    cache = record { entry = none; generation = generation };
    current = current;
    pending = 0;
    loaded = [];
    values = [];
  }

  hit-current :
      (out : Outage) (now pending : ℕ) (c after : Cache V) (current : V) (inner : Result V)
      → IsFresh c.entry pending current
      → pending ≡ 0
      → (load out now c after).0.state ≡ hit
      → (get_view (load out now c after).0 inner).0 ≡ ok current
  unfolding load with_generation get_view
  hit-current out now pending c after current inner h z s = ground (arith, h)

  -- However readers, writers, expiries and faults of Redis interleave: while no commit's invalidation
  -- is outstanding, a read that hits the cache answers with the authoritative value, whatever the
  -- service behind it would have answered.
  pub hits_are_current :
      (v : V) (generation : ℕ) (w : World V) (out : Outage) (now : ℕ) (after : Cache V)
      (inner : Result V)
      → Reach (empty_cache v generation) w
      → w.pending ≡ 0
      → (load out now w.cache after).0.state ≡ hit
      → (get_view (load out now w.cache after).0 inner).0 ≡ ok w.current
  hits_are_current v generation w out now after inner r z s =
      hit-current out now w.pending w.cache after w.current inner
        (Reach-IsSound r (record { fresh = tt; usable = tt; past = tt })).fresh z s
