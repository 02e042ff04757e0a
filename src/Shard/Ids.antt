-- ===== src/Shard/Ids.antt =====
-- The ids of one generator.
use farm_server.Base.{ℕ, ◌+◌, ◌*◌, ◌≡◌, ◌≤◌, ◌<◌, refl, ap, subst, sym, arith, List, [], ◌∷◌}
use farm_server.Shard.{IdGenerator, NextId, id, id_value, finish_id, next}

-- What the constructor and the counters keep true of a generator, in the 139 years that 42 bits of
-- milliseconds last.
abbrev pub InRange : IdGenerator → Type 0
InRange g = (g.shard < 64) × (g.node < 256) × (g.sequence < 256) × (g.last_ms < 4398046511104)

-- The id that the generator's state stands for.
abbrev pub floor : IdGenerator → ℕ
floor g = g.last_ms * 4194304 + g.node * 16384 + g.sequence * 64 + g.shard

id_value-eq :
    (ms node sequence shard : ℕ)
    → ms < 4398046511104
    → node < 256
    → sequence < 256
    → shard < 64
    → id_value ms node sequence shard ≡ ms * 4194304 + node * 16384 + sequence * 64 + shard
unfolding id_value
id_value-eq ms node sequence shard a b c d = omega arith

-- The clock does not stand before the generator's last reading, nor beyond the 42 bits.
abbrev pub IsCurrent : IdGenerator → ℕ → Type 0
IsCurrent g now = (g.epoch_ms + g.last_ms ≤ now) × (now < g.epoch_ms + 4398046511104)

finish_id-floor :
    (g g' : IdGenerator) (n : ℕ) → InRange g → finish_id g ≡ (g', id n) → (g' ≡ g) × (n ≡ floor g)
unfolding finish_id
finish_id-floor g g' n (s, d, q, m) h =
    (ground arith, ground (arith, id_value-eq g.last_ms g.node g.sequence g.shard m d q s))

finish_id-state : (g : IdGenerator) → (finish_id g).0 ≡ g
unfolding finish_id
finish_id-state g = refl

-- The state that a call leaves, whatever it returns.
next-InRange :
    (g : IdGenerator) (now : ℕ)
    → InRange g
    → IsCurrent g now
    → let g' = (next g now).0 in
      InRange g'
      × (floor g ≤ floor g')
      × (g'.epoch_ms ≡ g.epoch_ms)
      × (g'.epoch_ms + g'.last_ms ≤ now)
unfolding next finish_id
next-InRange g now r c = ground arith

-- An id comes out of the state that it leaves, which is a later one.
next-id :
    (g g' : IdGenerator) (now n : ℕ)
    → InRange g
    → IsCurrent g now
    → next g now ≡ (g', id n)
    → (finish_id g' ≡ (g', id n)) × (floor g < floor g')
unfolding next finish_id
next-id g g' now n r c h = (ground arith, ground arith)

next-above :
    (g g' : IdGenerator) (now n : ℕ)
    → InRange g
    → IsCurrent g now
    → next g now ≡ (g', id n)
    → (n ≡ floor g') × (floor g < n)
next-above g g' now n r c h =
    let (done, later) = next-id g g' now n r c h in
    let (range, mono, epoch, current) = next-InRange g now r c in
    let state : (next g now).0 ≡ g' = ap (λ p. p.0) h in
    let (same, value) = finish_id-floor g' g' n (subst InRange state range) done in
    (value, omega arith)

cons_id : NextId → List ℕ → List ℕ
cons_id (id n) ids = n ∷ ids
cons_id _ ids = ids

-- The ids that a generator issues over the readings of its clock; a call that fails issues none.
pub issued : IdGenerator → List ℕ → List ℕ
unfolding cons_id
issued g [] = []
issued g (now ∷ clock) = cons_id (next g now).1 (issued (next g now).0 clock)

-- A clock that never goes back and stays within the 42 bits.
abbrev pub IsSteady : IdGenerator → List ℕ → Type 0
IsSteady g [] = Unit {0}
IsSteady g (now ∷ clock) = IsCurrent g now × IsSteady (next g now).0 clock

abbrev pub IsIncreasing : ℕ → List ℕ → Type 0
IsIncreasing low [] = Unit {0}
IsIncreasing low (n ∷ ids) = (low < n) × IsIncreasing n ids

lower : (low high : ℕ) (ids : List ℕ) → low ≤ high → IsIncreasing high ids → IsIncreasing low ids
lower low high [] le h = h
lower low high (n ∷ ids) le h = (omega arith, h.1)

cons_id-IsIncreasing :
    (g g' : IdGenerator) (now : ℕ) (o : NextId) (ids : List ℕ)
    → InRange g
    → IsCurrent g now
    → next g now ≡ (g', o)
    → floor g ≤ floor g'
    → IsIncreasing (floor g') ids
    → IsIncreasing (floor g) (cons_id o ids)
unfolding cons_id
cons_id-IsIncreasing g g' now (id n) ids r c e mono h =
    let (value, above) = next-above g g' now n r c e in
    (above, subst (λ m. IsIncreasing m ids) (sym value) h)
cons_id-IsIncreasing g g' now _ ids r c e mono h = lower (floor g) (floor g') ids mono h

-- While its clock never goes back, a generator issues strictly increasing ids, so no id twice; the
-- clock must be read in the 139 years that 42 bits of milliseconds last.
pub issued-IsIncreasing :
    (g : IdGenerator) (clock : List ℕ)
    → InRange g
    → IsSteady g clock
    → IsIncreasing (floor g) (issued g clock)
unfolding issued
issued-IsIncreasing g [] r s = tt
issued-IsIncreasing g (now ∷ clock) r s =
    let (range, mono, epoch, current) = next-InRange g now r s.0 in
    cons_id-IsIncreasing g (next g now).0 now (next g now).1 (issued (next g now).0 clock) r s.0
      refl mono (issued-IsIncreasing (next g now).0 clock range s.1)
