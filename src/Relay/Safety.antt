-- ===== src/Relay/Safety.antt =====
-- Which messages a PUBLISHED row stands for, under any interleaving of the statements of workers
-- (`reclaimStale`, `claimBatch`, `publishOne`, `markPublishedBatch` and `markRetryOrDead` of
-- server/internal/farm/infrastructure/outbox_relay.go).
use farm_server.Base.{
  ℕ, zero, suc, ◌+◌, ◌*◌, ltb, ◌≡◌, ◌∙◌, ap, refl, sym, subst, Bool, true, false, ◌&&◌, List, [],
  ◌∷◌, All, IsIn, first, later, if◌then◌else◌, ◌==◌, ==_iff, Bool-cases, inl, inr, map, not,
}
use farm_server.Farm.{Time}
use farm_server.Store.{OutboxRow}
use farm_server.Relay.{
  Entry, Claimed, Message, Config, Publisher, Faults, Relay, published, update, select, limit,
  release, reclaim_stale, claimed, message, mark_retry_or_dead, is_among, is_stale, lock,
  set_published, is_due, batch, has_id, set_dead, set_retry, backoff_base, Delivery, acked, refused,
  unacknowledged, is_publishing, holds,
}
use farm_server.Relay.Scan.{publish_one, is_held, after_delivery, mark_sent}

module _ (cfg : Config) (events : ℕ → OutboxRow) where
  -- A row keeps the event of its id, and is PUBLISHED only if the bus has that event.
  abbrev pub IsHonest : List Message → Entry → Type 0
  IsHonest bus e =
      (e.event ≡ events e.outbox_id)
      × (e.status ≡ published → IsIn (record { topic = cfg.topic; event = events e.outbox_id }) bus)

  abbrev pub IsTrue : Claimed → Type 0
  IsTrue c = c.event ≡ events c.outbox_id

  update-All :
      {P : Entry → Type 0} (hit : Entry → Bool) (f : Entry → Entry)
      → ((e : Entry) → P e → hit e ≡ true → P (f e))
      → (es : List Entry) → All P es
      → All P (update hit f es)
  update-All hit f keep [] h = tt
  update-All {P} hit f keep (e ∷ es) (h, hs) = (
    elim (Bool-cases (hit e)) [
      | inl k ↦ subst (λ b. P (if b then f e else e)) (sym k) (keep e h k)
      | inr k ↦ subst (λ b. P (if b then f e else e)) (sym k) h
    ],
    update-All hit f keep es hs,
  )

  pub above-IsHonest :
      (m : Message) (bus : List Message) (es : List Entry)
      → All (IsHonest bus) es
      → All (IsHonest (m ∷ bus)) es
  above-IsHonest m bus [] h = tt
  above-IsHonest m bus (e ∷ es) (h, hs) = ((h.0, λ k. later (h.1 k)), above-IsHonest m bus es hs)

  pub reclaim-IsHonest :
      (now : Time) (bus : List Message) (es : List Entry)
      → All (IsHonest bus) es
      → All (IsHonest bus) (reclaim_stale now es)
  unfolding reclaim_stale
  reclaim-IsHonest now bus es h = update-All (is_stale now) release (λ e k b. (k.0, λ c. cc)) es h

  pub lock-IsHonest :
      (now : Time) (bus : List Message) (cs : List Claimed) (es : List Entry)
      → All (IsHonest bus) es
      → All (IsHonest bus) (update (is_among cs) (lock cfg now) es)
  lock-IsHonest now bus cs es h =
      update-All (is_among cs) (lock cfg now) (λ e k b. (k.0, λ c. cc)) es h

  pub retry-IsHonest :
      (f : Faults) (now : Time) (bus : List Message) (c : Claimed) (es : List Entry)
      → All (IsHonest bus) es
      → All (IsHonest bus) (mark_retry_or_dead cfg f now c es)
  unfolding mark_retry_or_dead
  retry-IsHonest f now bus c es h =
      let n = c.retry_count + 1 in
      if-All (f.retry_fails c.outbox_id) _ _ h (
        if-All (ltb cfg.max_retry n) _ _
          (update-All (has_id c.outbox_id) (set_dead n) (λ e k b. (k.0, λ x. cc)) es h)
          (update-All (has_id c.outbox_id) (set_retry n (now + n * backoff_base))
            (λ e k b. (k.0, λ x. cc)) es h))
    where
      if-All :
          (b : Bool) (xs ys : List Entry)
          → All (IsHonest bus) xs
          → All (IsHonest bus) ys
          → All (IsHonest bus) (if b then xs else ys)
      if-All true xs ys h k = h
      if-All false xs ys h k = k

  -- The row of an id is marked once its message is there.
  set-IsHonest :
      (now : Time) (bus : List Message) (c : Claimed) (es : List Entry)
      → IsTrue c
      → IsIn (message cfg c) bus
      → All (IsHonest bus) es
      → All (IsHonest bus) (update (has_id c.outbox_id) (set_published now) es)
  set-IsHonest now bus c es t on h =
      update-All (has_id c.outbox_id) (set_published now)
        (λ e k b. (
          k.0,
          λ x.
              subst (λ v. IsIn (record { topic = cfg.topic; event = v }) bus)
                (t ∙ ap events (sym ((==_iff e.outbox_id c.outbox_id).0 b))) on,
        ))
        es h

  -- A list of claimed rows whose messages are on the bus.
  abbrev pub AllOn : List Message → List Claimed → Type 0
  AllOn bus cs = All (λ c. IsTrue c × IsIn (message cfg c) bus) cs

  among-IsIn :
      (bus : List Message) (cs : List Claimed) (e : Entry)
      → AllOn bus cs
      → is_among cs e ≡ true
      → IsIn (record { topic = cfg.topic; event = events e.outbox_id }) bus
  among-IsIn bus [] e h b = cc
  among-IsIn bus (c ∷ cs) e ((t, on), hs) b = elim (Bool-cases (e.outbox_id == c.outbox_id)) [
    | inl k ↦
        subst (λ v. IsIn (record { topic = cfg.topic; event = v }) bus)
          (t ∙ ap events (sym ((==_iff e.outbox_id c.outbox_id).0 k))) on
    | inr k ↦ among-IsIn bus cs e hs (subst (λ x. (if x then true else is_among cs e) ≡ true) k b)
  ]

  pub set_batch-IsHonest :
      (now : Time) (bus : List Message) (cs : List Claimed) (es : List Entry)
      → AllOn bus cs
      → All (IsHonest bus) es
      → All (IsHonest bus) (update (is_held cfg cs) (set_published now) es)
  set_batch-IsHonest now bus cs es on h =
      update-All (is_held cfg cs) (set_published now)
        (λ e k b. (
          k.0,
          λ x.
              among-IsIn bus cs e on (
                third (is_publishing e.status) (holds cfg.worker_id e.locked_by) (is_among cs e) b),
        ))
        es h
    where
      third : (a b c : Bool) → (a && b && c) ≡ true → c ≡ true
      third true true c h = h
      third true false c h = cc
      third false b c h = cc

  -- What a worker claims are rows of the table.
  pub batch-IsTrue :
      (f : Faults) (now : Time) (bus : List Message) (es : List Entry)
      → All (IsHonest bus) es
      → All IsTrue (batch cfg f now es)
  unfolding batch
  batch-IsTrue f now bus es h = go cfg.batch_size _ (picked es h)
    where
      hit : Entry → Bool
      hit e = is_due now e && not (f.row_locked e.outbox_id)

      picked :
          (es : List Entry)
          → All (IsHonest bus) es
          → All (IsHonest bus) (select (λ e. is_due now e && not (f.row_locked e.outbox_id)) es)
      picked [] h = tt
      picked (e ∷ es) (h, hs) = elim (Bool-cases (is_due now e && not (f.row_locked e.outbox_id))) [
        | inl k ↦ rw k (h, picked es hs)
        | inr k ↦ rw k (picked es hs)
      ]

      go : (n : ℕ) (es : List Entry) → All (IsHonest bus) es → All IsTrue (map claimed (limit n es))
      go zero es h = tt
      go (suc n) [] h = tt
      go (suc n) (e ∷ es) (h, hs) = (h.0, go n es hs)

  pub publish_one-IsHonest :
      (f : Faults) (p : Publisher) (now : Time) (c : Claimed) (r : Relay)
      → IsTrue c
      → All (IsHonest r.bus) r.entries
      → All (IsHonest (publish_one cfg f p now c r).1.bus) (publish_one cfg f p now c r).1.entries
  unfolding publish_one
  publish_one-IsHonest f p now c r t h = go (p.publish (message cfg c)) (f.mark_fails c.outbox_id)
    where
      go :
          (d : Delivery) (b : Bool)
          → let out =
              mark_sent d b now c (record r { bus = after_delivery d (message cfg c) r.bus }) in
            All (IsHonest out.1.bus) out.1.entries
      go acked true = above-IsHonest (message cfg c) r.bus r.entries h
      go acked false =
          set-IsHonest now (message cfg c ∷ r.bus) c r.entries t first
            (above-IsHonest (message cfg c) r.bus r.entries h)
      go refused b = h
      go unacknowledged b = above-IsHonest (message cfg c) r.bus r.entries h

  pub publish_one-bus :
      (f : Faults) (p : Publisher) (now : Time) (c : Claimed) (r : Relay)
      → (publish_one cfg f p now c r).1.bus
        ≡ after_delivery (p.publish (message cfg c)) (message cfg c) r.bus
  unfolding publish_one
  publish_one-bus f p now c r = go (p.publish (message cfg c)) (f.mark_fails c.outbox_id)
    where
      go :
          (d : Delivery) (b : Bool)
          → (mark_sent d b now c (record r { bus = after_delivery d (message cfg c) r.bus })).1.bus
            ≡ after_delivery d (message cfg c) r.bus
      go acked true = refl
      go acked false = refl
      go refused b = refl
      go unacknowledged b = refl

  pub delivered-IsHonest :
      (d : Delivery) (m : Message) (bus : List Message) (es : List Entry)
      → All (IsHonest bus) es
      → All (IsHonest (after_delivery d m bus)) es
  delivered-IsHonest acked m bus es h = above-IsHonest m bus es h
  delivered-IsHonest refused m bus es h = h
  delivered-IsHonest unacknowledged m bus es h = above-IsHonest m bus es h

  above-AllOn :
      (m : Message) (bus : List Message) (cs : List Claimed) → AllOn bus cs → AllOn (m ∷ bus) cs
  above-AllOn m bus [] h = tt
  above-AllOn m bus (c ∷ cs) ((t, on), hs) = ((t, later on), above-AllOn m bus cs hs)

  pub delivered-AllOn :
      (d : Delivery) (m : Message) (bus : List Message) (cs : List Claimed)
      → AllOn bus cs
      → AllOn (after_delivery d m bus) cs
  delivered-AllOn acked m bus cs h = above-AllOn m bus cs h
  delivered-AllOn refused m bus cs h = h
  delivered-AllOn unacknowledged m bus cs h = above-AllOn m bus cs h
