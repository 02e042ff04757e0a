-- ===== src/Consumer.antt =====
-- The event consumer of workersvr (`ConsumerDedup` and the loop of `KafkaConsumer` in
-- server/internal/farm/infrastructure/event_consumer.go). The store that the projector writes is a
-- type `S`. Taken from outside for each attempt: which statements fail, what the projector does and
-- whether the context is cancelled during the pause after it. A message whose bytes are not an
-- envelope is `none`.
pub mod Attempts
pub mod Delivery
pub mod Backoff
pub mod Steal
use farm_server.Base.{
  ℕ, zero, suc, ◌+◌, ◌*◌, ◌/◌, Bool, true, false, List, [], ◌∷◌, Option, none, some, String, str_eq,
  ltb, leb, if◌then◌else◌,
}
use farm_server.Errors.{Error}
use farm_server.Store.{OutboxRow}

-- What `ProcessOnce` returns, or the errors in front of it.
pub data ProcessError : Type 0 where
  resolve_error invalid_envelope check_error handle_error mark_error : ProcessError

abbrev pub is_permanent : ProcessError → Bool
is_permanent invalid_envelope = true
is_permanent _ = false

-- `consumed` are the event ids under the consumer's name, `failures` the offsets in
-- `consumer_failed_events` with their attempts, and `committed` the messages whose offset is
-- committed.
pub record KafkaMessage : Type 0 where
  pub offset : ℕ
  pub envelope : Option OutboxRow

pub record Consumer (S : Type 0) : Type 0 where
  pub store : S
  pub consumed : List String
  pub failures : List (ℕ × ℕ)
  pub committed : List KafkaMessage

pub record Attempt (S : Type 0) : Type 0 where
  pub resolve_fails : Bool
  pub check_fails : Bool
  pub handle : OutboxRow → S → Option Error × S
  pub mark_fails : Bool
  pub cancelled : Bool

abbrev pub contains : String → List String → Bool
contains id [] = false
contains id (x ∷ xs) = if str_eq id x then true else contains id xs

pub data Verdict : Type 0 where
  processed parked stopped : Verdict

-- A fetched message with what happens to it; `commits` says whether `CommitMessages` succeeds.
pub record Fetched (S : Type 0) : Type 0 where
  pub message : KafkaMessage
  pub attempts : ℕ → Attempt S
  pub answers : List Bool
  pub commits : Bool

module _ {S : Type 0} where
  abbrev pub mark_consumed : Bool → String → Consumer S → Option ProcessError × Consumer S
  mark_consumed true id c = (some mark_error, c)
  mark_consumed false id c = (none, record c { consumed = id ∷ c.consumed })

  -- What follows the call of `Handle`.
  abbrev pub after_handle :
      Attempt S → String → Option Error × S → Consumer S → Option ProcessError × Consumer S
  after_handle a id (some e, s) c = (some handle_error, record c { store = s })
  after_handle a id (none, s) c = mark_consumed a.mark_fails id (record c { store = s })

  unfoldable pub process_once :
      Attempt S → Option OutboxRow → Consumer S → Option ProcessError × Consumer S
  process_once a none c = (some invalid_envelope, c)
  process_once a (some row) c =
      if str_eq row.event_id ""
      then (some invalid_envelope, c)
      else if a.check_fails
      then (some check_error, c)
      else if contains row.event_id c.consumed
      then (none, c)
      else after_handle a row.event_id (a.handle row c.store) c

  -- With the resolver of the store in front.
  unfoldable pub process :
      Attempt S → Option OutboxRow → Consumer S → Option ProcessError × Consumer S
  process a raw c = if a.resolve_fails then (some resolve_error, c) else process_once a raw c

  -- `recordFailure`: the answers of the failure store, up to the first success or the cancelling of
  -- the context.
  unfoldable pub record_failure : List Bool → ℕ × ℕ → Consumer S → Verdict × Consumer S
  record_failure [] failure c = (stopped, c)
  record_failure (true ∷ answers) failure c = (parked, record c { failures = failure ∷ c.failures })
  record_failure (false ∷ answers) failure c = record_failure answers failure c

  -- The attempts on one message from the attempt `n` on; `none` where the fuel does not suffice.
  unfoldable pub try_from :
      ℕ
      → ℕ
      → List Bool
      → (ℕ → Attempt S)
      → KafkaMessage
      → ℕ
      → Consumer S
      → Option (Verdict × Consumer S)
  unfolding process record_failure
  try_from zero max_tries answers attempts m n c = none
  try_from (suc fuel) max_tries answers attempts m n c =
      let (failed, c') = process (attempts n) m.envelope c in
      let again = try_from fuel max_tries answers attempts m (n + 1) c' in
      elim failed [
        | none ↦ some (processed, c')
        | some e ↦
            if is_permanent e
            then some (record_failure answers (m.offset, n) c')
            else if leb max_tries n
            then some (record_failure answers (m.offset, n) c')
            else if (attempts n).cancelled
            then some (stopped, c')
            else again
      ]

  abbrev commit : KafkaMessage → Bool → Consumer S → Consumer S
  commit m ok c = if ok then record c { committed = m ∷ c.committed } else c

  -- The loop of `run` over the fetched messages; it ends early where the context is cancelled.
  unfoldable pub run : ℕ → List (Fetched S) → Consumer S → Consumer S
  unfolding try_from
  run max_tries [] c = c
  run max_tries (f ∷ fs) c =
      elim (try_from max_tries max_tries f.answers f.attempts f.message 1 c) [
        | none ↦ c
        | some (stopped, c') ↦ c'
        | some (processed, c') ↦ run max_tries fs (commit f.message f.commits c')
        | some (parked, c') ↦ run max_tries fs (commit f.message f.commits c')
      ]
