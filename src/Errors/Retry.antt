-- ===== src/Errors/Retry.antt =====
-- `Value` of server/pkg/mysqlretry/retry.go: a whole transaction run at most `max_attempts` times.
use farm_server.Base.{
  true, false, ap, ◌∙◌, ℕ, zero, suc, Bool, not, ◌≡◌, refl, if◌then◌else◌, arith, ◌==◌, ◌||◌, ◌+◌,
  ◌≤◌, ◌<◌, ◌⊎◌, inl, inr, Bool-cases, sym,
}
use farm_server.Errors.{Error, cancelled, Result, ok, err}

abbrev pub max_attempts : ℕ
max_attempts = 3

-- One run of the transaction at a given attempt: the result, and the state that it leaves.
abbrev pub Attempt : Type 0 → Type 0 → Type 0
Attempt S A = ℕ → S → Result A × S

module _ {S : Type 0} {A : Type 0} where
  -- What the loop does with the outcome of an attempt after which `left` remain; `goes_on` tells
  -- whether the context outlives the pause.
  unfoldable pub after_attempt :
      ℕ → Bool → (Error → Bool) → (S → Result A × S) → Result A × S → Result A × S
  after_attempt left goes_on should_retry again (ok a, s) = (ok a, s)
  after_attempt left goes_on should_retry again (err e, s) =
      if left == 0 || not (should_retry e)
      then (err e, s)
      else (if goes_on then again s else (err cancelled, s))

  -- `left` counts the attempts that remain, the present one included; `attempt` is its number.
  unfoldable pub value_from : ℕ → ℕ → (ℕ → Bool) → (Error → Bool) → Attempt S A → S → Result A × S
  unfolding after_attempt
  value_from zero attempt wait should_retry fn s = (err cancelled, s)
  value_from (suc left) attempt wait should_retry fn s =
      after_attempt left (wait attempt) should_retry
        (value_from left (attempt + 1) wait should_retry fn) (fn attempt s)

  unfoldable pub value : (ℕ → Bool) → (Error → Bool) → Attempt S A → S → Result A × S
  unfolding value_from
  value = value_from max_attempts 1

  -- An attempt whose error is retried has left the state as it was.
  abbrev pub RollsBack : (Error → Bool) → Attempt S A → Type 0
  RollsBack should_retry fn =
      (k : ℕ) (s : S) (e : Error) → (fn k s).0 ≡ err e → should_retry e ≡ true → (fn k s).1 ≡ s

  -- What a call has done: exactly what one attempt does, or nothing.
  abbrev pub IsOneAttempt : Attempt S A → ℕ → ℕ → S → Result A × S → Type 0
  IsOneAttempt fn first last s out =
      ((k : ℕ) × (first ≤ k) × (k < last) × (out ≡ fn k s)) ⊎ ((e : Error) × (out ≡ (err e, s)))

  after_attempt-IsOneAttempt :
      (left attempt : ℕ) (goes_on : Bool) (should_retry : Error → Bool) (fn : Attempt S A)
      (again : S → Result A × S) (s : S) (r : Result A × S)
      → fn attempt s ≡ r
      → RollsBack should_retry fn
      → IsOneAttempt fn (attempt + 1) (attempt + 1 + left) s (again s)
      → IsOneAttempt fn attempt
          (attempt + suc left)
          s
          (after_attempt left goes_on should_retry again r)
  unfolding after_attempt
  after_attempt-IsOneAttempt left attempt goes_on should_retry fn again s (ok a, t) e safe later =
      inl (attempt, omega arith, omega arith, sym e)
  after_attempt-IsOneAttempt left attempt goes_on should_retry fn again s (err x, t) e safe later =
      elim (Bool-cases (left == 0 || not (should_retry x))) [
        | inl stop ↦ rw stop (inl (attempt, omega arith, omega arith, sym e))
        | inr go ↦
            let same : t ≡ s =
              ap (λ p. p.1) (sym e)
              ∙ safe attempt s x (ap (λ p. p.0) e) (retried left (should_retry x) go) in
            elim (Bool-cases goes_on) [
              | inr cut ↦ rw (go, cut, same) (inr (cancelled, refl))
              | inl on ↦
                  rw (go, on, same)
                    (elim later [
                      | inl (k, lo, hi, out) ↦ inl (k, omega arith, omega arith, out)
                      | inr failed ↦ inr failed
                    ])
            ]
      ]
    where
      retried : (n : ℕ) (b : Bool) → (n == 0 || not b) ≡ false → b ≡ true
      retried n b h = ground arith

  value_from-IsOneAttempt :
      (left attempt : ℕ) (wait : ℕ → Bool) (should_retry : Error → Bool) (fn : Attempt S A) (s : S)
      → RollsBack should_retry fn
      → IsOneAttempt fn attempt (attempt + left) s (value_from left attempt wait should_retry fn s)
  unfolding value_from
  value_from-IsOneAttempt zero attempt wait should_retry fn s safe = inr (cancelled, refl)
  value_from-IsOneAttempt (suc left) attempt wait should_retry fn s safe =
      after_attempt-IsOneAttempt left attempt (wait attempt) should_retry fn
        (value_from left (attempt + 1) wait should_retry fn) s (fn attempt s) refl safe
        (value_from-IsOneAttempt left (attempt + 1) wait should_retry fn s safe)

  -- If an attempt whose error is retried leaves the state as it was, a call of `value` does exactly
  -- what one attempt does, one of the first `max_attempts`, or it fails and does nothing.
  pub value-IsOneAttempt :
      (wait : ℕ → Bool) (should_retry : Error → Bool) (fn : Attempt S A) (s : S)
      → RollsBack should_retry fn
      → IsOneAttempt fn 1 (1 + max_attempts) s (value wait should_retry fn s)
  unfolding value
  value-IsOneAttempt wait should_retry fn s safe =
      value_from-IsOneAttempt max_attempts 1 wait should_retry fn s safe
