-- ===== src/Shard/Routing.antt =====
-- An id is routed to the shard that it encodes.
use farm_server.Base.{
  ℕ, zero, suc, ◌%◌, ◌≡◌, ◌<◌, refl, ap, ◌∙◌, sym, subst, ==_iff, arith, Bool, true, ◌&&◌, not,
  ◌||◌, ◌==◌, Bool-cases, inl, inr,
}
use native.Mathlib.Nat.{dvd_of_mod-eq-zero, mod-mod_of_dvd}
use farm_server.Shard.{IdGenerator, id, id_value, finish_id, next, is_supported, shard_index}

-- A test that holds for all numbers below a bound.
all_below : (ℕ → Bool) → ℕ → Bool
all_below p zero = true
all_below p (suc n) = p n && all_below p n

and_left : (a b : Bool) → (a && b) ≡ true → a ≡ true
and_left a b h = ground arith

and_right : (a b : Bool) → (a && b) ≡ true → b ≡ true
and_right a b h = ground arith

all_below-lt : (p : ℕ → Bool) (n k : ℕ) → all_below p n ≡ true → k < n → p k ≡ true
unfolding all_below
all_below-lt p zero k h l = ground arith
all_below-lt p (suc n) k h l = elim (Bool-cases (k == n)) [
  | inl y ↦ subst (λ m. p m ≡ true) (sym ((==_iff k n).0 y)) (and_left (p n) (all_below p n) h)
  | inr m ↦ all_below-lt p n k (and_right (p n) (all_below p n) h) (ground arith)
]

abbrev divides_64 : ℕ → Bool
divides_64 n = not (is_supported n) || 64 % n == 0

supported_divide_64 : all_below divides_64 65 ≡ true
unfolding all_below is_supported
supported_divide_64 = refl

supported-lt : (count : ℕ) → is_supported count ≡ true → count < 65
unfolding is_supported
supported-lt count c = ground arith

divides-eq : (count : ℕ) → is_supported count ≡ true → divides_64 count ≡ true → 64 % count ≡ 0
divides-eq count c test = ground (arith, ==_iff (64 % count) 0)

next-state :
    (g g' : IdGenerator) (now n : ℕ)
    → next g now ≡ (g', id n)
    → (finish_id g' ≡ (g', id n)) × (g'.shard ≡ g.shard)
unfolding next finish_id
next-state g g' now n h = (ground arith, ground arith)

finish_id-value :
    (g g' : IdGenerator) (n : ℕ)
    → finish_id g ≡ (g', id n)
    → n ≡ id_value g.last_ms g.node g.sequence g.shard
unfolding finish_id
finish_id-value g g' n h = ground arith

id_value-shard :
    (ms node sequence shard : ℕ) → shard < 64 → id_value ms node sequence shard % 64 ≡ shard
unfolding id_value
id_value-shard ms node sequence shard s = omega arith

next-shard :
    (g g' : IdGenerator) (now n : ℕ) → g.shard < 64 → next g now ≡ (g', id n) → n % 64 ≡ g.shard
next-shard g g' now n s h =
    let (done, same) = next-state g g' now n h in
    let value = finish_id-value g' g' n done in
    ap (λ (m : ℕ). m % 64) value
    ∙ id_value-shard g'.last_ms g'.node g'.sequence g'.shard (omega arith)
    ∙ same

-- A generated id is routed like the shard that it encodes, whatever the clock reads, for every
-- number of shards that the router takes.
pub next-shard_index :
    (g g' : IdGenerator) (now n count : ℕ)
    → g.shard < 64
    → is_supported count ≡ true
    → next g now ≡ (g', id n)
    → shard_index count n ≡ shard_index count g.shard
next-shard_index g g' now n count s c h =
    let test = all_below-lt divides_64 65 count supported_divide_64 (supported-lt count c) in
    let divided : 64 % count ≡ 0 = divides-eq count c test in
    sym (mod-mod_of_dvd count n (dvd_of_mod-eq-zero count divided))
    ∙ ap (λ (m : ℕ). m % count) (next-shard g g' now n s h)
