-- ===== src/Relay.antt =====
-- The outbox relay of workersvr (server/internal/farm/infrastructure/outbox_relay.go): it sends the
-- rows of `outbox_events` to the message bus. The table is listed in the order of its primary key,
-- so `ORDER BY outbox_id LIMIT n` is the front of the rows that a query selects.
--
-- A scan takes from outside what the publisher answers and which statements fail.
pub mod Refinement
pub mod Scan
pub mod Safety
pub mod Workers
pub mod Claims
pub mod Drain
use farm_server.Base.{
  ℕ, ◌+◌, ◌*◌, Bool, true, false, not, ◌&&◌, List, [], ◌∷◌, ◌++◌, map, Option, none, some, String,
  str_eq, ltb, leb, ◌==◌, if◌then◌else◌, length, zero, suc,
}
use farm_server.Farm.{Time, second}
use farm_server.Store.{OutboxRow}

pub data OutboxStatus : Type 0 where
  waiting publishing published dead : OutboxStatus

-- A row of `outbox_events`: the columns that the committer writes, and those of the relay.
pub record Entry : Type 0 where
  pub outbox_id : ℕ
  pub event : OutboxRow
  pub status : OutboxStatus
  pub retry_count : ℕ
  pub available_at : Time
  pub locked_by : Option String
  pub locked_until : Option Time
  pub published_at : Option Time

-- `outboxRow`, what a worker keeps of a row that it has claimed.
pub record Claimed : Type 0 where
  pub outbox_id : ℕ
  pub event : OutboxRow
  pub retry_count : ℕ

-- `MemMessage`: the partition key and the payload are the event's columns.
pub record Message : Type 0 where
  pub topic : String
  pub event : OutboxRow

pub record Config : Type 0 where
  pub worker_id : String
  pub batch_size : ℕ
  pub max_retry : ℕ
  pub lock_ttl : ℕ
  pub topic : String

-- The configuration of a worker that sets nothing.
abbrev pub default_config : String → Config
default_config worker = record {
  worker_id = worker;
  batch_size = 50;
  max_retry = 5;
  lock_ttl = 30 * second;
  topic = "farm-events";
}

abbrev pub backoff_base : ℕ
backoff_base = 5 * second

-- What becomes of a message: an error may also come back after the bus has taken it.
pub data Delivery : Type 0 where
  acked refused unacknowledged : Delivery

pub record Publisher : Type 0 where
  -- whether it is a `BatchEventPublisher`
  pub is_batch : Bool
  pub publish : Message → Delivery
  pub publish_batch : List Message → List Delivery

-- Which statements of a scan fail, and which rows other transactions have locked.
pub record Faults : Type 0 where
  pub reclaim_fails : Bool
  pub claim_fails : Bool
  pub mark_fails : ℕ → Bool
  pub retry_fails : ℕ → Bool
  pub batch_mark_fails : Bool
  pub row_locked : ℕ → Bool

pub record Relay : Type 0 where
  pub entries : List Entry
  pub bus : List Message

pub data ScanError : Type 0 where
  reclaim_error claim_error short_result mark_error : ScanError

pub data ScanResult : Type 0 where
  scan_ok : ℕ → ScanResult
  scan_error : ScanError → ScanResult

-- `UPDATE … WHERE`.
abbrev pub update : (Entry → Bool) → (Entry → Entry) → List Entry → List Entry
update hit f [] = []
update hit f (e ∷ es) = (if hit e then f e else e) ∷ update hit f es

abbrev pub select : (Entry → Bool) → List Entry → List Entry
select hit [] = []
select hit (e ∷ es) = if hit e then e ∷ select hit es else select hit es

abbrev pub limit : ℕ → List Entry → List Entry
limit zero es = []
limit (suc n) [] = []
limit (suc n) (e ∷ es) = e ∷ limit n es

abbrev pub is_waiting : OutboxStatus → Bool
is_waiting waiting = true
is_waiting _ = false

abbrev pub is_publishing : OutboxStatus → Bool
is_publishing publishing = true
is_publishing _ = false

-- A comparison with NULL does not hold.
abbrev pub expired : Time → Option Time → Bool
expired now none = false
expired now (some t) = ltb t now

abbrev pub holds : String → Option String → Bool
holds worker none = false
holds worker (some w) = str_eq worker w

abbrev pub is_stale : Time → Entry → Bool
is_stale now e = is_publishing e.status && expired now e.locked_until

abbrev pub release : Entry → Entry
release e = record e { status = waiting; locked_by = none; locked_until = none }

unfoldable pub reclaim_stale : Time → List Entry → List Entry
reclaim_stale now es = update (is_stale now) release es

abbrev pub is_due : Time → Entry → Bool
is_due now e = is_waiting e.status && leb e.available_at now

abbrev pub has_id : ℕ → Entry → Bool
has_id id e = e.outbox_id == id

abbrev pub claimed : Entry → Claimed
claimed e = record { outbox_id = e.outbox_id; event = e.event; retry_count = e.retry_count }

-- `outbox_id IN (…)`
abbrev pub is_among : List Claimed → Entry → Bool
is_among [] e = false
is_among (c ∷ cs) e = if e.outbox_id == c.outbox_id then true else is_among cs e

abbrev pub lock : Config → Time → Entry → Entry
lock cfg now e = record e {
  status = publishing;
  locked_by = some cfg.worker_id;
  locked_until = some (now + cfg.lock_ttl);
}

-- The rows that a worker takes: due, not locked by another transaction, at most a batch.
unfoldable pub batch : Config → Faults → Time → List Entry → List Claimed
batch cfg f now es =
    map claimed
      (limit cfg.batch_size (select (λ e. is_due now e && not (f.row_locked e.outbox_id)) es))

unfoldable pub claim_batch : Config → Faults → Time → List Entry → List Claimed × List Entry
unfolding batch
claim_batch cfg f now es =
    let rows = batch cfg f now es in (rows, update (is_among rows) (lock cfg now) es)

abbrev pub message : Config → Claimed → Message
message cfg c = record { topic = cfg.topic; event = c.event }

abbrev pub set_published : Time → Entry → Entry
set_published now e = record e {
  status = published;
  locked_by = none;
  locked_until = none;
  published_at = some now;
}

abbrev pub set_dead : ℕ → Entry → Entry
set_dead n e = record e { status = dead; retry_count = n; locked_by = none; locked_until = none }

abbrev pub set_retry : ℕ → Time → Entry → Entry
set_retry n available_at e = record e {
  status = waiting;
  retry_count = n;
  available_at = available_at;
  locked_by = none;
  locked_until = none;
}

-- One attempt more: back to the waiting rows after a pause, or given up.
unfoldable pub mark_retry_or_dead : Config → Faults → Time → Claimed → List Entry → List Entry
mark_retry_or_dead cfg f now c es =
    let n = c.retry_count + 1 in
    if f.retry_fails c.outbox_id
    then es
    else if ltb cfg.max_retry n
    then update (has_id c.outbox_id) (set_dead n) es
    else update (has_id c.outbox_id) (set_retry n (now + n * backoff_base)) es
