-- ===== src/Consumer/Backoff.antt =====
-- `retryDelay` of server/internal/farm/infrastructure/event_consumer.go: the pause doubles up to a
-- bound.
use native.Mathlib.Nat.{pow-succ', one-le-pow, mul_assoc, le-mul_of_pos_right}
use farm_server.Base.{
  ℕ, zero, suc, ◌-◌, ◌*◌, ◌/◌, ◌^◌, ◌≤◌, ◌≡◌, min, ap, sym, subst, ◌∙◌, arith, ltb, if◌then◌else◌,
}

-- The loop with the passes that are left; it ends once the delay has reached the bound.
unfoldable pub doubled : ℕ → ℕ → ℕ → ℕ
doubled retry_max zero delay = if ltb retry_max delay then retry_max else delay
doubled retry_max (suc passes) delay =
    let rest = doubled retry_max passes (delay * 2) in
    if ltb delay retry_max
    then if ltb (retry_max / 2) delay then retry_max else rest
    else if ltb retry_max delay
    then retry_max
    else delay

unfoldable pub retry_delay : ℕ → ℕ → ℕ → ℕ
unfolding doubled
retry_delay retry_min retry_max attempt = doubled retry_max (attempt - 1) retry_min

-- The facts on powers that the bound needs.
power :
    (delay passes : ℕ)
    → (delay * 2 ^ suc passes ≡ (delay * 2) * 2 ^ passes) × (delay * 2 ≤ delay * 2 ^ suc passes)
power delay passes = (two_more, least)
  where
    two_more : delay * 2 ^ suc passes ≡ (delay * 2) * 2 ^ passes
    two_more = ap (λ m. delay * m) (pow-succ' 2 passes) ∙ sym (mul_assoc delay 2 (2 ^ passes))

    least : delay * 2 ≤ delay * 2 ^ suc passes
    least =
        subst (λ m. delay * 2 ≤ m) (sym two_more)
          (le-mul_of_pos_right (delay * 2) (one-le-pow passes 2 (omega arith)))

doubled-power :
    (retry_max passes delay : ℕ)
    → doubled retry_max passes delay ≡ min (delay * 2 ^ passes) retry_max
unfolding doubled
doubled-power retry_max zero delay = ground arith
doubled-power retry_max (suc passes) delay =
    ground (arith, doubled-power retry_max passes (delay * 2), power delay passes)

-- The pause before attempt n + 1 is the least pause doubled n - 1 times, and at most the largest
-- one.
pub retry_delay-min :
    (retry_min retry_max attempt : ℕ)
    → retry_delay retry_min retry_max attempt ≡ min (retry_min * 2 ^ (attempt - 1)) retry_max
unfolding retry_delay
retry_delay-min retry_min retry_max attempt = doubled-power retry_max (attempt - 1) retry_min
