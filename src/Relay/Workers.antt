-- ===== src/Relay/Workers.antt =====
-- The workers of the outbox relay and the committer as steps on the shared table, one statement at
-- a time.
use farm_server.Base.{
  ℕ, ◌≡◌, refl, sym, subst, String, List, [], ◌∷◌, ◌++◌, All, IsIn, first, All-IsIn, All-append,
  if◌then◌else◌, none,
}
use farm_server.Farm.{Time}
use farm_server.Store.{OutboxRow}
use farm_server.Relay.{
  Entry, Claimed, Config, Publisher, Faults, Relay, Delivery, acked, refused, unacknowledged,
  waiting, published, update, reclaim_stale, claim_batch, batch, message, mark_retry_or_dead,
  set_published,
}
use farm_server.Relay.Scan.{publish_one, is_held, after_delivery, is_acked}
use farm_server.Relay.Safety.{
  IsHonest, IsTrue, AllOn, reclaim-IsHonest, lock-IsHonest, retry-IsHonest, set_batch-IsHonest,
  batch-IsTrue, publish_one-IsHonest, delivered-IsHonest, delivered-AllOn, publish_one-bus,
}

-- `held` are the rows that workers have claimed so far, and `sent` those for which a batch
-- publisher has given an acknowledgement.
pub record Workers : Type 0 where
  pub relay : Relay
  pub held : List Claimed
  pub sent : List Claimed

abbrev pub as_worker : Config → String → Config
as_worker cfg w = record cfg { worker_id = w }

-- What the committer inserts.
abbrev pub new_entry : ℕ → OutboxRow → Entry
new_entry id row = record {
  outbox_id = id;
  event = row;
  status = waiting;
  retry_count = 0;
  available_at = row.available_at;
  locked_by = none;
  locked_until = none;
  published_at = none;
}

abbrev pub keep_sent : Delivery → Claimed → List Claimed → List Claimed
keep_sent d c sent = if is_acked d then c ∷ sent else sent

pub data Step (cfg : Config) (events : ℕ → OutboxRow) : Workers → Workers → Type 0 where
  inserts :
      (id : ℕ) (s : Workers)
      → Step cfg events s (record s {
        relay = record s.relay { entries = s.relay.entries ++ (new_entry id (events id) ∷ []) };
      })
  reclaims :
      (now : Time) (s : Workers)
      → Step cfg events s
          (record s { relay = record s.relay { entries = reclaim_stale now s.relay.entries } })
  claims :
      (w : String) (f : Faults) (now : Time) (s : Workers)
      → Step cfg events s (record s {
        relay = record s.relay {
          entries = (claim_batch (as_worker cfg w) f now s.relay.entries).1;
        };
        held = batch (as_worker cfg w) f now s.relay.entries ++ s.held;
      })
  publishes :
      (w : String) (f : Faults) (p : Publisher) (now : Time) (c : Claimed) (s : Workers)
      → IsIn c s.held
      → Step cfg events s (record s { relay = (publish_one (as_worker cfg w) f p now c s.relay).1 })
  retries :
      (w : String) (f : Faults) (now : Time) (c : Claimed) (s : Workers)
      → IsIn c s.held
      → Step cfg events s (record s {
        relay = record s.relay {
          entries = mark_retry_or_dead (as_worker cfg w) f now c s.relay.entries;
        };
      })
  sends :
      (d : Delivery) (c : Claimed) (s : Workers)
      → IsIn c s.held
      → Step cfg events s (record s {
        relay = record s.relay { bus = after_delivery d (message cfg c) s.relay.bus };
        sent = keep_sent d c s.sent;
      })
  marks :
      (w : String) (now : Time) (cs : List Claimed) (s : Workers)
      → All (λ c. IsIn c s.sent) cs
      → Step cfg events s (record s {
        relay = record s.relay {
          entries = update (is_held (as_worker cfg w) cs) (set_published now) s.relay.entries;
        };
      })

pub data Reach (cfg : Config) (events : ℕ → OutboxRow) (s : Workers) : Workers → Type 0 where
  here : Reach cfg events s s
  after_step : {t u : Workers} → Reach cfg events s t → Step cfg events t u → Reach cfg events s u

module _ (cfg : Config) (events : ℕ → OutboxRow) where
  pub record IsSound (s : Workers) : Type 0 where
    pub honest : All (IsHonest cfg events s.relay.bus) s.relay.entries
    pub true_rows : All (IsTrue cfg events) s.held
    pub true_sent : AllOn cfg events s.relay.bus s.sent

  Step-IsSound : {s u : Workers} → Step cfg events s u → IsSound s → IsSound u
  unfolding claim_batch
  Step-IsSound (inserts id s) h = record {
    honest = All-append _ s.relay.entries _ h.honest ((refl, λ k. cc), tt);
    true_rows = h.true_rows;
    true_sent = h.true_sent;
  }
  Step-IsSound (reclaims now s) h = record {
    honest = reclaim-IsHonest cfg events now s.relay.bus s.relay.entries h.honest;
    true_rows = h.true_rows;
    true_sent = h.true_sent;
  }
  Step-IsSound (claims w f now s) h =
      let mine = as_worker cfg w in
      let rows = batch mine f now s.relay.entries in
      record {
        honest = lock-IsHonest mine events now s.relay.bus rows s.relay.entries h.honest;
        true_rows =
            All-append _ rows s.held
              (batch-IsTrue mine events f now s.relay.bus s.relay.entries h.honest) h.true_rows;
        true_sent = h.true_sent;
      }
  Step-IsSound (publishes w f p now c s i) h =
      let mine = as_worker cfg w in
      let answer = p.publish (message cfg c) in
      record {
        honest =
            publish_one-IsHonest mine events f p now c s.relay (All-IsIn _ h.true_rows i) h.honest;
        true_rows = h.true_rows;
        true_sent =
            subst (λ bus. AllOn cfg events bus s.sent)
              (sym (publish_one-bus mine events f p now c s.relay))
              (delivered-AllOn cfg events answer (message cfg c) s.relay.bus s.sent h.true_sent);
      }
  Step-IsSound (retries w f now c s i) h = record {
    honest = retry-IsHonest (as_worker cfg w) events f now s.relay.bus c s.relay.entries h.honest;
    true_rows = h.true_rows;
    true_sent = h.true_sent;
  }
  Step-IsSound (sends d c s i) h = record {
    honest = delivered-IsHonest cfg events d (message cfg c) s.relay.bus s.relay.entries h.honest;
    true_rows = h.true_rows;
    true_sent = keep d;
  }
    where
      keep :
          (d : Delivery)
          → AllOn cfg events (after_delivery d (message cfg c) s.relay.bus) (keep_sent d c s.sent)
      keep acked = (
        (All-IsIn _ h.true_rows i, first),
        delivered-AllOn cfg events acked (message cfg c) s.relay.bus s.sent h.true_sent,
      )
      keep refused = h.true_sent
      keep unacknowledged =
          delivered-AllOn cfg events unacknowledged (message cfg c) s.relay.bus s.sent h.true_sent
  Step-IsSound (marks w now cs s i) h = record {
    honest =
        set_batch-IsHonest (as_worker cfg w) events now s.relay.bus cs s.relay.entries (all_on cs i)
          h.honest;
    true_rows = h.true_rows;
    true_sent = h.true_sent;
  }
    where
      all_on : (cs : List Claimed) → All (λ c. IsIn c s.sent) cs → AllOn cfg events s.relay.bus cs
      all_on [] i = tt
      all_on (c ∷ cs) (i, is) = (All-IsIn _ h.true_sent i, all_on cs is)

  Reach-IsSound : {s u : Workers} → IsSound s → Reach cfg events s u → IsSound u
  Reach-IsSound h here = h
  Reach-IsSound h (after_step r step) = Step-IsSound step (Reach-IsSound h r)

  abbrev pub idle_workers : Workers
  idle_workers = record { relay = record { entries = []; bus = [] }; held = []; sent = [] }

  -- Starting from an empty table, and for any interleaving of commits and of the statements of any
  -- workers, with any failures, every row that is PUBLISHED has the event of its id, and a message
  -- with that event is on the bus.
  pub published-IsIn :
      (s : Workers) (e : Entry)
      → Reach cfg events idle_workers s
      → IsIn e s.relay.entries
      → e.status ≡ published
      → (e.event ≡ events e.outbox_id)
        × IsIn (record { topic = cfg.topic; event = e.event }) s.relay.bus
  published-IsIn s e r i k =
      let (same, on) =
        All-IsIn _ (Reach-IsSound (record { honest = tt; true_rows = tt; true_sent = tt }) r).honest
          i in
      (
        same,
        subst (λ v. IsIn (record { topic = cfg.topic; event = v }) s.relay.bus) (sym same) (on k),
      )
