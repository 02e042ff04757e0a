-- ===== src/Relay/Refinement.antt =====
-- A whole scan is a sequence of the steps of Relay/Workers.antt.
use farm_server.Base.{
  ℕ, ◌+◌, ◌≡◌, ◌∙◌, ap, refl, sym, subst, Bool, true, false, String, List, [], ◌∷◌, ◌++◌, All, IsIn,
  first, later, if◌then◌else◌, Bool-cases, inl, inr, map, length, ◌==◌,
}
use farm_server.Farm.{Time}
use farm_server.Store.{OutboxRow}
use farm_server.Relay.{
  Claimed, Config, Publisher, Faults, Relay, Delivery, acked, refused, unacknowledged,
  reclaim_stale, claim_batch, batch, message, mark_retry_or_dead, set_published, update, select,
  scan_ok, scan_error, mark_error, reclaim_error, claim_error, ScanResult,
}
use farm_server.Relay.Scan.{
  publish_one, publish_each, sent_batch, retry_failed, succeeded, is_held, after_delivery, is_acked,
  mark_published_batch, publish_claimed_batch, publish_claimed, scan_and_publish,
}
use farm_server.Relay.Workers.{
  Workers, as_worker, Reach, here, after_step, reclaims, claims, publishes, retries, sends, marks,
  keep_sent,
}

module _ (cfg : Config) (events : ℕ → OutboxRow) (w : String) (f : Faults) (p : Publisher)
    (now : Time) where
  abbrev mine : Config
  mine = as_worker cfg w

  trans : {s t u : Workers} → Reach cfg events s t → Reach cfg events t u → Reach cfg events s u
  trans r here = r
  trans r (after_step q step) = after_step (trans r q) step

  abbrev Reaches : Workers → Relay → Type 0
  Reaches s r = (u : Workers) × Reach cfg events s u × (u.relay ≡ r)

  abbrev at : Workers → Relay → Workers
  at s r = record s { relay = r }

  abbrev Held : Workers → List Claimed → Type 0
  Held s cs = All (λ c. IsIn c s.held) cs

  before : {s t : Workers} {r : Relay} → Reach cfg events s t → Reaches t r → Reaches s r
  before q (u, r, e) = (u, trans q r, e)

  -- The row by row loop.
  each-Reach :
      (cs : List Claimed) (n : ℕ) (s : Workers)
      → Held s cs
      → Reaches s (publish_each mine f p now cs n s.relay).1
  unfolding publish_each
  each-Reach [] n s h = (s, here, refl)
  each-Reach (c ∷ cs) n s (i, is) = elim (Bool-cases one.0) [
    | inl e ↦ rw (publish_each, e) (before sends_it (each-Reach cs (n + 1) sent is))
    | inr e ↦
        rw (publish_each, e)
          (before (after_step sends_it (retries w f now c sent i)) (each-Reach cs n again is))
  ]
    where
      one : Bool × Relay
      one = publish_one mine f p now c s.relay

      sent : Workers
      sent = at s one.1

      again : Workers
      again = at s (record (one.1) { entries = mark_retry_or_dead mine f now c one.1.entries })

      sends_it : Reach cfg events s sent
      sends_it = after_step here (publishes w f p now c s i)

  -- The batch interface: first the messages, ...
  sends-Reach :
      (cs : List Claimed) (ds : List Delivery) (s : Workers)
      → Held s cs
      → (u : Workers) × Reach cfg events s u
        × (u.relay ≡ record s.relay { bus = sent_batch mine cs ds s.relay.bus })
        × (u.held ≡ s.held)
        × All (λ c. IsIn c u.sent) (succeeded cs ds)
        × ((c : Claimed) → IsIn c s.sent → IsIn c u.sent)
  unfolding sent_batch succeeded
  sends-Reach [] ds s h = (s, here, refl, refl, tt, λ c i. i)
  sends-Reach (c ∷ cs) [] s h = (s, here, refl, refl, tt, λ c i. i)
  sends-Reach (c ∷ cs) (d ∷ ds) s (i, is) =
      let next : Workers = record s {
        relay = record s.relay { bus = after_delivery d (message cfg c) s.relay.bus };
        sent = keep_sent d c s.sent;
      } in
      let (u, r, e, held, all, keep) = sends-Reach cs ds next is in
      (
        u,
        trans (after_step here (sends d c s i)) r,
        e,
        held,
        kept d (λ x j. keep x j) all,
        λ x j. keep x (grow d j),
      )
    where
      grow : (d : Delivery) {x : Claimed} → IsIn x s.sent → IsIn x (keep_sent d c s.sent)
      grow acked j = later j
      grow refused j = j
      grow unacknowledged j = j

      kept :
          (d : Delivery) {sent : List Claimed}
          → ((x : Claimed) → IsIn x (keep_sent d c s.sent) → IsIn x sent)
          → All (λ x. IsIn x sent) (succeeded cs ds)
          → All (λ x. IsIn x sent) (if is_acked d then c ∷ succeeded cs ds else succeeded cs ds)
      kept acked keep h = (keep c first, h)
      kept refused keep h = h
      kept unacknowledged keep h = h

  -- ... then the retries, ...
  retries-Reach :
      (cs : List Claimed) (ds : List Delivery) (s : Workers)
      → Held s cs
      → (u : Workers) × Reach cfg events s u
        × (u ≡ at s (record s.relay { entries = retry_failed mine f now cs ds s.relay.entries }))
  unfolding retry_failed
  retries-Reach [] ds s h = (s, here, refl)
  retries-Reach (c ∷ cs) [] s h = (s, here, refl)
  retries-Reach (c ∷ cs) (d ∷ ds) s (i, is) = elim (Bool-cases (is_acked d)) [
    | inl e ↦ rw (retry_failed, e) (retries-Reach cs ds s is)
    | inr e ↦
        let next =
          at s (record s.relay { entries = mark_retry_or_dead mine f now c s.relay.entries }) in
        let (u, r, k) = retries-Reach cs ds next is in
        rw (retry_failed, e) (u, trans (after_step here (retries w f now c s i)) r, k)
  ]

  -- ... and at last the marks.
  marks-Reach :
      (cs : List Claimed) (s : Workers)
      → All (λ c. IsIn c s.sent) cs
      → Reaches s (mark_published_batch mine f now cs s.relay).1
  unfolding mark_published_batch
  marks-Reach [] s h = (s, here, refl)
  marks-Reach (c ∷ cs) s h =
      go f.batch_mark_fails
        (length (select (is_held mine (c ∷ cs)) s.relay.entries) == length (c ∷ cs))
    where
      marked : Relay
      marked = record s.relay {
        entries = update (is_held mine (c ∷ cs)) (set_published now) s.relay.entries;
      }

      go :
          (a b : Bool)
          → let out : ScanResult × Relay =
              if a
              then (scan_error mark_error, s.relay)
              else if b
              then (scan_ok (length (c ∷ cs)), marked)
              else (scan_error mark_error, marked) in
            Reaches s out.1
      go true b = (s, here, refl)
      go false true = (at s marked, after_step here (marks w now (c ∷ cs) s h), refl)
      go false false = (at s marked, after_step here (marks w now (c ∷ cs) s h), refl)

  batch-Reach :
      (cs : List Claimed) (s : Workers)
      → Held s cs
      → Reaches s (publish_claimed_batch mine f p now cs s.relay).1
  unfolding publish_claimed_batch
  batch-Reach cs s h =
      let results = p.publish_batch (map (message mine) cs) in
      let (t, r, e, held, all, keep) = sends-Reach cs results s h in
      let (u, r', e') =
        retries-Reach cs results t (subst (λ hs. All (λ c. IsIn c hs) cs) (sym held) h) in
      let retried : Relay → Relay =
        λ x. record x { entries = retry_failed mine f now cs results x.entries } in
      let same : u.relay
          ≡ retried (record s.relay { bus = sent_batch mine cs results s.relay.bus }) =
        ap (λ x. x.relay) e' ∙ ap retried e in
      let marked = marks-Reach (succeeded cs results) u (
        subst (λ xs. All (λ c. IsIn c xs) (succeeded cs results)) (sym (ap (λ x. x.sent) e'))
          all) in
      elim (Bool-cases (length results == length cs)) [
        | inl k ↦
            rw (publish_claimed_batch, k)
              (before (trans r r') (
                subst (λ x. Reaches u (mark_published_batch mine f now (succeeded cs results) x).1)
                  same marked))
        | inr k ↦ rw (publish_claimed_batch, k) (t, r, e)
      ]

  -- A whole scan, by any worker, with any publisher and any failures, leaves the table and the bus
  -- in a state that the workers' steps reach from the state before it.
  pub scan-Reach : (s : Workers) → Reaches s (scan_and_publish mine f p now s.relay).1
  unfolding scan_and_publish claim_batch publish_claimed
  scan-Reach s = go f.reclaim_fails f.claim_fails
    where
      reclaimed : Workers
      reclaimed = at s (record s.relay { entries = reclaim_stale now s.relay.entries })

      rows : List Claimed
      rows = batch mine f now reclaimed.relay.entries

      claim : Workers
      claim = record {
        relay = record reclaimed.relay {
          entries = (claim_batch mine f now reclaimed.relay.entries).1;
        };
        held = rows ++ s.held;
        sent = s.sent;
      }

      all_held :
          (cs ds : List Claimed) → ((c : Claimed) → IsIn c cs → IsIn c ds) → All (λ c. IsIn c ds) cs
      all_held [] ds h = tt
      all_held (c ∷ cs) ds h = (h c first, all_held cs ds (λ x i. h x (later i)))

      in_append : (cs ds : List Claimed) (c : Claimed) → IsIn c cs → IsIn c (cs ++ ds)
      in_append [] ds c i = elim i [ ]
      in_append (x ∷ cs) ds c first = first
      in_append (x ∷ cs) ds c (later i) = later (in_append cs ds c i)

      publishing_half :
          (cs : List Claimed) (t : Workers)
          → Held t cs
          → (b : Bool) → p.is_batch ≡ b
          → Reaches t (publish_claimed mine f p now cs t.relay).1
      publishing_half [] t h b e = (t, here, refl)
      publishing_half (c ∷ cs) t h true e = rw (publish_claimed, e) (batch-Reach (c ∷ cs) t h)
      publishing_half (c ∷ cs) t h false e = rw (publish_claimed, e) (each-Reach (c ∷ cs) 0 t h)

      to_claim : Reach cfg events s claim
      to_claim = after_step (after_step here (reclaims now s)) (claims w f now reclaimed)

      go :
          (a b : Bool)
          → let out : ScanResult × Relay =
              if a
              then (scan_error reclaim_error, s.relay)
              else if b
              then (scan_error claim_error, reclaimed.relay)
              else publish_claimed mine f p now rows claim.relay in
            Reaches s out.1
      go true b = (s, here, refl)
      go false true = (reclaimed, after_step here (reclaims now s), refl)
      go false false =
          before to_claim
            (publishing_half rows claim (all_held rows _ (in_append rows s.held)) p.is_batch refl)
