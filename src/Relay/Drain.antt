-- ===== src/Relay/Drain.antt =====
-- A working publisher empties the outbox (`ScanAndPublish` with `publishClaimedBatch` of
-- server/internal/farm/infrastructure/outbox_relay.go).
use farm_server.Base.{
  ℕ, suc, ◌+◌, ◌-◌, min, ◌≡◌, ◌∙◌, ap, refl, sym, subst, arith, Bool, true, false, not, ◌&&◌, List,
  [], ◌∷◌, if◌then◌else◌, ◌==◌, length, map, IsIn, IsIn-cases, first, later, inl, inr,
}
use farm_server.Farm.{Time}
use farm_server.Relay.{
  Entry, Claimed, Message, Config, Publisher, Faults, Relay, Delivery, acked, refused,
  unacknowledged, ScanResult, scan_ok, scan_error, short_result, update, is_due, is_among, lock,
  message, reclaim_stale, batch, claim_batch,
}
use farm_server.Relay.Scan.{
  sent_batch, retry_failed, succeeded, mark_published_batch, publish_claimed_batch, publish_claimed,
  scan_and_publish,
}
use farm_server.Relay.Claims.{
  IsAscending, update_first, ids, count, update-ids, length-ids, finish, update_held, count_held,
  count-ids, is_owed, backlog, is_published, reclaim-count, reclaim-IsAscending, finish-count,
}

-- Nothing fails, no other transaction holds rows, and the bus takes every message of a batch.
abbrev pub no_faults : Faults
no_faults = record {
  reclaim_fails = false;
  claim_fails = false;
  mark_fails = λ i. false;
  retry_fails = λ i. false;
  batch_mark_fails = false;
  row_locked = λ i. false;
}

abbrev pub all_acked : List Message → List Delivery
all_acked [] = []
all_acked (m ∷ ms) = acked ∷ all_acked ms

abbrev pub working : Publisher
working = record { is_batch = true; publish = λ m. acked; publish_batch = all_acked }

-- What a working publisher answers.
length-all_acked :
    (cfg : Config) (cs : List Claimed) → length (all_acked (map (message cfg) cs)) ≡ length cs
length-all_acked cfg [] = refl
length-all_acked cfg (c ∷ cs) = ap (λ (n : ℕ). suc n) (length-all_acked cfg cs)

succeeded-all :
    (cfg : Config) (cs : List Claimed) → succeeded cs (all_acked (map (message cfg) cs)) ≡ cs
unfolding succeeded
succeeded-all cfg [] = refl
succeeded-all cfg (c ∷ cs) = ap (λ x. c ∷ x) (succeeded-all cfg cs)

retry-none :
    (cfg : Config) (now : Time) (cs : List Claimed) (es : List Entry)
    → retry_failed cfg no_faults now cs (all_acked (map (message cfg) cs)) es ≡ es
unfolding retry_failed
retry-none cfg now [] es = refl
retry-none cfg now (c ∷ cs) es = retry-none cfg now cs es

-- Every message of a batch that is acknowledged stands on the bus.
sent_batch-keeps :
    (cfg : Config) (m : Message) (cs : List Claimed) (ds : List Delivery) (bus : List Message)
    → IsIn m bus
    → IsIn m (sent_batch cfg cs ds bus)
unfolding sent_batch
sent_batch-keeps cfg m [] ds bus i = i
sent_batch-keeps cfg m (c ∷ cs) [] bus i = i
sent_batch-keeps cfg m (c ∷ cs) (acked ∷ ds) bus i = sent_batch-keeps cfg m cs ds _ (later i)
sent_batch-keeps cfg m (c ∷ cs) (refused ∷ ds) bus i = sent_batch-keeps cfg m cs ds _ i
sent_batch-keeps cfg m (c ∷ cs) (unacknowledged ∷ ds) bus i =
    sent_batch-keeps cfg m cs ds _ (later i)

abbrev AllSent : Config → List Claimed → List Message → Type 0
AllSent cfg cs bus = (c : Claimed) → IsIn c cs → IsIn (message cfg c) bus

sent_batch-AllSent :
    (cfg : Config) (cs : List Claimed) (bus : List Message)
    → AllSent cfg cs (sent_batch cfg cs (all_acked (map (message cfg) cs)) bus)
unfolding sent_batch
sent_batch-AllSent cfg [] bus c i = elim i [ ]
sent_batch-AllSent cfg (d ∷ cs) bus c i = elim (IsIn-cases i) [
  | inl here ↦
      sent_batch-keeps cfg (message cfg c) cs (all_acked (map (message cfg) cs))
        (message cfg d ∷ bus) (subst (λ x. IsIn (message cfg c) (message cfg x ∷ bus)) here first)
  | inr after ↦ sent_batch-AllSent cfg cs (message cfg d ∷ bus) c after
]

==-self : (n : ℕ) → (n == n) ≡ true
==-self n = ground arith

update-nothing : (f : Entry → Entry) (es : List Entry) → update (is_among []) f es ≡ es
update-nothing f [] = refl
update-nothing f (e ∷ es) = ap (λ t. e ∷ t) (update-nothing f es)

-- Both halves of a scan together mark the claimed rows.
marks_all :
    (cfg : Config) (now : Time) (cs : List Claimed) (es : List Entry) (bus : List Message)
    → count (is_among cs) es ≡ length cs
    → (mark_published_batch cfg no_faults now cs
          (record { entries = update (is_among cs) (lock cfg now) es; bus = bus })).0
        ≡ scan_ok (length cs)
      × ((mark_published_batch cfg no_faults now cs
            (record { entries = update (is_among cs) (lock cfg now) es; bus = bus })).1.entries
          ≡ update (is_among cs) (finish cfg now) es)
      × ((mark_published_batch cfg no_faults now cs
            (record { entries = update (is_among cs) (lock cfg now) es; bus = bus })).1.bus
          ≡ bus)
unfolding mark_published_batch
marks_all cfg now [] es bus h =
    (refl, update-nothing (lock cfg now) es ∙ sym (update-nothing (finish cfg now) es), refl)
marks_all cfg now (c ∷ cs) es bus h =
    rw (count_held cfg now (c ∷ cs) es, h, ==-self (length (c ∷ cs)))
      (refl, update_held cfg now (c ∷ cs) es, refl)

module _ (cfg : Config) (now : Time) where
  abbrev scanned : Relay → ScanResult × Relay
  scanned r = scan_and_publish cfg no_faults working now r

  batch-ids : (es : List Entry) → batch cfg no_faults now es ≡ ids (is_due now) cfg.batch_size es
  unfolding batch
  batch-ids es = ap (λ hit. ids hit cfg.batch_size es) (λ i e. and_true (is_due now e) i)
    where
      and_true : (b : Bool) → (b && not false) ≡ b
      and_true true = refl
      and_true false = refl

  -- What a scan that publishes the rows `cs` of the table `es` ends with.
  abbrev AllMarked : List Claimed → List Entry → ScanResult × Relay → Type 0
  AllMarked cs es out =
      (out.0 ≡ scan_ok (length cs))
      × (out.1.entries ≡ update (is_among cs) (finish cfg now) es)
      × AllSent cfg cs out.1.bus

  batch-mark :
      (cs : List Claimed) (r : Relay)
      → publish_claimed_batch cfg no_faults working now cs r
        ≡ mark_published_batch cfg no_faults now cs
            (record r { bus = sent_batch cfg cs (all_acked (map (message cfg) cs)) r.bus })
  unfolding publish_claimed_batch
  batch-mark cs r =
      ap
        (λ (b : Bool).
          if b
          then marked (succeeded cs answers) (retry_failed cfg no_faults now cs answers r.entries)
          else (scan_error short_result, sent))
        (ap (λ n. n == length cs) (length-all_acked cfg cs) ∙ ==-self (length cs))
      ∙ ap (λ xs. marked xs (retry_failed cfg no_faults now cs answers r.entries))
          (succeeded-all cfg cs)
      ∙ ap (marked cs) (retry-none cfg now cs r.entries)
    where
      answers : List Delivery
      answers = all_acked (map (message cfg) cs)

      sent : Relay
      sent = record r { bus = sent_batch cfg cs answers r.bus }

      marked : List Claimed → List Entry → ScanResult × Relay
      marked xs es = mark_published_batch cfg no_faults now xs (record sent { entries = es })

  publishes_all :
      (cs : List Claimed) (es : List Entry) (bus : List Message)
      → count (is_among cs) es ≡ length cs
      → AllMarked cs es (
          publish_claimed cfg no_faults working now cs
            (record { entries = update (is_among cs) (lock cfg now) es; bus = bus }))
  unfolding publish_claimed
  publishes_all [] es bus h = (
    refl,
    update-nothing (lock cfg now) es ∙ sym (update-nothing (finish cfg now) es),
    λ c i. elim i [ ],
  )
  publishes_all (c ∷ cs) es bus h =
      let answers = all_acked (map (message cfg) (c ∷ cs)) in
      let (result, table, on_bus) =
        marks_all cfg now (c ∷ cs) es (sent_batch cfg (c ∷ cs) answers bus) h in
      subst (AllMarked (c ∷ cs) es)
        (sym (
          batch-mark (c ∷ cs)
            (record { entries = update (is_among (c ∷ cs)) (lock cfg now) es; bus = bus })))
        (
          result,
          table,
          subst (AllSent cfg (c ∷ cs)) (sym on_bus) (sent_batch-AllSent cfg (c ∷ cs) bus),
        )

  -- What a scan that finds the reclaimed table `es` ends with.
  abbrev FirstMarked : List Entry → ScanResult × Relay → Type 0
  FirstMarked es out =
      (out.0 ≡ scan_ok (min cfg.batch_size (count (is_due now) es)))
      × (out.1.entries ≡ update_first cfg.batch_size (is_due now) (finish cfg now) es)
      × AllSent cfg (batch cfg no_faults now es) out.1.bus

  claims_first :
      (low : ℕ) (es : List Entry) (bus : List Message)
      → IsAscending low es
      → FirstMarked es (
          publish_claimed cfg no_faults working now (batch cfg no_faults now es) (record {
            entries = update (is_among (batch cfg no_faults now es)) (lock cfg now) es;
            bus = bus;
          }))
  claims_first low es bus asc =
      let n = cfg.batch_size in
      let cs = ids (is_due now) n es in
      let (returned, table, sent) = publishes_all cs es bus (count-ids (is_due now) n low es asc) in
      rw (batch-ids es) (
        returned ∙ ap scan_ok (length-ids (is_due now) n es),
        table ∙ update-ids (is_due now) (finish cfg now) n low es asc,
        sent,
      )

  -- A scan in which nothing fails, with a publisher that takes whole batches, claims the first
  -- `batch_size` of the rows that are due or whose lock has run out, all of them where there are no
  -- more. It puts the message of every row that it claims on the bus, marks as many more rows as
  -- published, and returns their number.
  pub scan_drains :
      (low : ℕ) (r : Relay)
      → IsAscending low r.entries
      → ((scanned r).0 ≡ scan_ok (min cfg.batch_size (backlog now r)))
        × (backlog now (scanned r).1 ≡ backlog now r - cfg.batch_size)
        × (count is_published (scanned r).1.entries
            ≡ count is_published r.entries + min cfg.batch_size (backlog now r))
        × ((c : Claimed)
            → IsIn c (batch cfg no_faults now (reclaim_stale now r.entries))
            → IsIn (message cfg c) (scanned r).1.bus)
        × (length (batch cfg no_faults now (reclaim_stale now r.entries))
            ≡ min cfg.batch_size (backlog now r))
  unfolding scan_and_publish claim_batch
  scan_drains low r asc =
      let es = reclaim_stale now r.entries in
      let (returned, table, sent) =
        claims_first low es r.bus (reclaim-IsAscending now low r.entries asc) in
      let (left, done) = finish-count cfg now cfg.batch_size r.entries in
      (
        returned ∙ ap (λ n. scan_ok (min cfg.batch_size n)) (reclaim-count now r.entries).0,
        ap (count (is_owed now)) table ∙ left,
        ap (count is_published) table ∙ done,
        sent,
        ap length (batch-ids es)
            ∙ length-ids (is_due now) cfg.batch_size es
            ∙ ap (min cfg.batch_size) (reclaim-count now r.entries).0,
      )
