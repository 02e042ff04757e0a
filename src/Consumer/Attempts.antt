-- ===== src/Consumer/Attempts.antt =====
-- What one attempt on a message leaves (`ProcessOnce` of
-- server/internal/farm/infrastructure/event_consumer.go).
use farm_server.Base.{
  ℕ, ◌≡◌, ◌⊎◌, inl, inr, refl, subst, Bool, true, false, String, List, [], ◌∷◌, IsIn, first, later,
  Option, none, some, str_eq, if◌then◌else◌, eq_iff, Bool-cases,
}
use farm_server.Errors.{Error}
use farm_server.Store.{OutboxRow}
use farm_server.Consumer.{
  ProcessError, KafkaMessage, Consumer, Attempt, contains, mark_consumed, after_handle,
  process_once, process, resolve_error, invalid_envelope, check_error,
}

contains-IsIn : (id : String) (ids : List String) → contains id ids ≡ true → IsIn id ids
contains-IsIn id [] h = cc
contains-IsIn id (x ∷ xs) h = elim (Bool-cases (str_eq id x)) [
  | inl e ↦ subst (λ y. IsIn id (y ∷ xs)) ((eq_iff id x).0 e) first
  | inr e ↦
      later (contains-IsIn id xs (subst (λ b. (if b then true else contains id xs) ≡ true) e h))
]

module _ {S : Type 0} where
  -- The message's event is marked as consumed, or the message is in the table of failures.
  abbrev pub IsSettled : Consumer S → KafkaMessage → Type 0
  IsSettled c m =
      ((row : OutboxRow) × (m.envelope ≡ some row) × IsIn row.event_id c.consumed)
      ⊎ ((n : ℕ) × IsIn (m.offset, n) c.failures)

  -- What a later state keeps.
  pub record Grows (c d : Consumer S) : Type 0 where
    pub consumed : (id : String) → IsIn id c.consumed → IsIn id d.consumed
    pub failures : (f : ℕ × ℕ) → IsIn f c.failures → IsIn f d.failures
    pub committed : d.committed ≡ c.committed

  pub same : (c : Consumer S) → Grows c c
  same c = record { consumed = λ id i. i; failures = λ f i. i; committed = refl }

  -- What one attempt leaves.
  abbrev pub Attempted : Option OutboxRow → Consumer S → Option ProcessError × Consumer S → Type 0
  Attempted raw c (failed, d) =
      Grows c d
      × (failed ≡ none → (row : OutboxRow) × (raw ≡ some row) × IsIn row.event_id d.consumed)

  process_once-Attempted :
      (a : Attempt S) (raw : Option OutboxRow) (c : Consumer S)
      → Attempted raw c (process_once a raw c)
  unfolding process_once
  process_once-Attempted a none c = (same c, λ e. cc)
  process_once-Attempted a (some row) c =
      go (str_eq row.event_id "") a.check_fails (contains row.event_id c.consumed) refl
    where
      marked :
          (b : Bool) (s : S)
          → Attempted (some row) c (mark_consumed b row.event_id (record c { store = s }))
      marked true s =
          (record { consumed = λ id i. i; failures = λ f i. i; committed = refl }, λ k. cc)
      marked false s = (
        record { consumed = λ id i. later i; failures = λ f i. i; committed = refl },
        λ k. (row, refl, first),
      )

      handled : (x : Option Error × S) → Attempted (some row) c (after_handle a row.event_id x c)
      handled (some e, s) =
          (record { consumed = λ id i. i; failures = λ f i. i; committed = refl }, λ k. cc)
      handled (none, s) = marked a.mark_fails s

      go :
          (blank fails seen : Bool)
          → contains row.event_id c.consumed ≡ seen
          → let out : Option ProcessError × Consumer S =
              if blank
              then (some invalid_envelope, c)
              else if fails
              then (some check_error, c)
              else if seen
              then (none, c)
              else after_handle a row.event_id (a.handle row c.store) c in
            Attempted (some row) c out
      go true fails seen h = (same c, λ e. cc)
      go false true seen h = (same c, λ e. cc)
      go false false true h = (same c, λ e. (row, refl, contains-IsIn row.event_id c.consumed h))
      go false false false h = handled (a.handle row c.store)

  pub process-Attempted :
      (a : Attempt S) (raw : Option OutboxRow) (c : Consumer S) → Attempted raw c (process a raw c)
  unfolding process
  process-Attempted a raw c = go a.resolve_fails
    where
      go :
          (b : Bool)
          → let out : Option ProcessError × Consumer S =
              if b then (some resolve_error, c) else process_once a raw c in
            Attempted raw c out
      go true = (same c, λ e. cc)
      go false = process_once-Attempted a raw c
