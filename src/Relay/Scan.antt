-- ===== src/Relay/Scan.antt =====
-- The publishing half of a scan (`publishOne`, `publishClaimedBatch`, `markPublishedBatch` and
-- `ScanAndPublish` of server/internal/farm/infrastructure/outbox_relay.go).
use farm_server.Base.{
  ℕ, ◌+◌, Bool, true, false, ◌&&◌, List, [], ◌∷◌, map, ◌==◌, if◌then◌else◌, length,
}
use farm_server.Farm.{Time}
use farm_server.Relay.{
  Entry, Claimed, Message, Config, Delivery, Publisher, Faults, Relay, ScanResult, update, select,
  is_publishing, holds, reclaim_stale, has_id, is_among, claim_batch, message, set_published,
  mark_retry_or_dead, acked, refused, unacknowledged, reclaim_error, claim_error, short_result,
  mark_error, scan_ok, scan_error,
}

-- What the bus holds after an answer.
abbrev pub after_delivery : Delivery → Message → List Message → List Message
after_delivery acked m bus = m ∷ bus
after_delivery refused m bus = bus
after_delivery unacknowledged m bus = m ∷ bus

abbrev pub is_acked : Delivery → Bool
is_acked acked = true
is_acked _ = false

-- The row is marked after the bus has answered for it, unless the statement fails.
abbrev pub mark_sent : Delivery → Bool → Time → Claimed → Relay → Bool × Relay
mark_sent acked false now c r =
    (true, record r { entries = update (has_id c.outbox_id) (set_published now) r.entries })
mark_sent _ _ now c r = (false, r)

-- Whether the row is published and marked so.
unfoldable pub publish_one : Config → Faults → Publisher → Time → Claimed → Relay → Bool × Relay
publish_one cfg f p now c r =
    let answer = p.publish (message cfg c) in
    mark_sent answer (f.mark_fails c.outbox_id) now c
      (record r { bus = after_delivery answer (message cfg c) r.bus })

-- The loop over the claimed rows without the batch interface.
unfoldable pub publish_each :
    Config → Faults → Publisher → Time → List Claimed → ℕ → Relay → ℕ × Relay
unfolding publish_one mark_retry_or_dead
publish_each cfg f p now [] n r = (n, r)
publish_each cfg f p now (c ∷ cs) n r =
    let (done, r') = publish_one cfg f p now c r in
    publish_each cfg f p now cs (if done then n + 1 else n)
      (if done then r' else record r' { entries = mark_retry_or_dead cfg f now c r'.entries })

-- The three loops of `publishClaimedBatch` over the rows and their results.
unfoldable pub sent_batch : Config → List Claimed → List Delivery → List Message → List Message
sent_batch cfg [] ds bus = bus
sent_batch cfg (c ∷ cs) [] bus = bus
sent_batch cfg (c ∷ cs) (d ∷ ds) bus = sent_batch cfg cs ds (after_delivery d (message cfg c) bus)

unfoldable pub retry_failed :
    Config → Faults → Time → List Claimed → List Delivery → List Entry → List Entry
unfolding mark_retry_or_dead
retry_failed cfg f now [] ds es = es
retry_failed cfg f now (c ∷ cs) [] es = es
retry_failed cfg f now (c ∷ cs) (d ∷ ds) es =
    retry_failed cfg f now cs ds (if is_acked d then es else mark_retry_or_dead cfg f now c es)

unfoldable pub succeeded : List Claimed → List Delivery → List Claimed
succeeded [] ds = []
succeeded (c ∷ cs) [] = []
succeeded (c ∷ cs) (d ∷ ds) = if is_acked d then c ∷ succeeded cs ds else succeeded cs ds

abbrev pub is_held : Config → List Claimed → Entry → Bool
is_held cfg cs e = is_publishing e.status && holds cfg.worker_id e.locked_by && is_among cs e

unfoldable pub mark_published_batch :
    Config → Faults → Time → List Claimed → Relay → ScanResult × Relay
mark_published_batch cfg f now [] r = (scan_ok 0, r)
mark_published_batch cfg f now (c ∷ cs) r =
    let rows = c ∷ cs in
    let marked : Relay = record r {
      entries = update (is_held cfg rows) (set_published now) r.entries;
    } in
    if f.batch_mark_fails
    then (scan_error mark_error, r)
    else if length (select (is_held cfg rows) r.entries) == length rows
    then (scan_ok (length rows), marked)
    else (scan_error mark_error, marked)

unfoldable pub publish_claimed_batch :
    Config → Faults → Publisher → Time → List Claimed → Relay → ScanResult × Relay
unfolding sent_batch retry_failed succeeded mark_published_batch
publish_claimed_batch cfg f p now cs r =
    let results = p.publish_batch (map (message cfg) cs) in
    let sent : Relay = record r { bus = sent_batch cfg cs results r.bus } in
    if length results == length cs
    then mark_published_batch cfg f now (succeeded cs results)
        (record sent { entries = retry_failed cfg f now cs results r.entries })
    else (scan_error short_result, sent)

abbrev counted : ℕ × Relay → ScanResult × Relay
counted (n, r) = (scan_ok n, r)

-- The publishing half of a scan.
unfoldable pub publish_claimed :
    Config → Faults → Publisher → Time → List Claimed → Relay → ScanResult × Relay
unfolding publish_claimed_batch publish_each
publish_claimed cfg f p now [] r = (scan_ok 0, r)
publish_claimed cfg f p now (c ∷ cs) r =
    if p.is_batch
    then publish_claimed_batch cfg f p now (c ∷ cs) r
    else counted (publish_each cfg f p now (c ∷ cs) 0 r)

unfoldable pub scan_and_publish : Config → Faults → Publisher → Time → Relay → ScanResult × Relay
unfolding reclaim_stale claim_batch publish_claimed
scan_and_publish cfg f p now r =
    let reclaimed : Relay = record r { entries = reclaim_stale now r.entries } in
    let claim = claim_batch cfg f now reclaimed.entries in
    if f.reclaim_fails
    then (scan_error reclaim_error, r)
    else if f.claim_fails
    then (scan_error claim_error, reclaimed)
    else publish_claimed cfg f p now (claim.0) (record reclaimed { entries = claim.1 })
