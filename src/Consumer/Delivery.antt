-- ===== src/Consumer/Delivery.antt =====
-- A message leaves the topic only when it is processed or parked: the loops of `run` in
-- server/internal/farm/infrastructure/event_consumer.go.
use farm_server.Base.{
  ℕ, zero, suc, ◌+◌, ◌≤◌, ◌≡◌, ◌≢◌, ◌∙◌, inl, inr, refl, sym, subst, arith, Bool, true, false, List,
  [], ◌∷◌, All, first, later, Option, none, some, leb, if◌then◌else◌,
}
use farm_server.Consumer.{
  run, commit, ProcessError, is_permanent, KafkaMessage, Consumer, Attempt, Verdict, Fetched,
  process, record_failure, try_from, run, processed, parked, stopped,
}
use farm_server.Consumer.Attempts.{IsSettled, Grows, same, Attempted, process-Attempted}

module _ {S : Type 0} where
  -- What the attempts on a message leave, if they end.
  abbrev Tried : KafkaMessage → Consumer S → Option (Verdict × Consumer S) → Type 0
  Tried m c none = Unit {0}
  Tried m c (some (v, d)) = Grows c d × (v ≢ stopped → IsSettled d m)

  trans : {c d e : Consumer S} → Grows c d → Grows d e → Grows c e
  trans g h = record {
    consumed = λ id i. h.consumed id (g.consumed id i);
    failures = λ f i. h.failures f (g.failures f i);
    committed = h.committed ∙ g.committed;
  }

  before :
      (m : KafkaMessage) {c d : Consumer S} (out : Option (Verdict × Consumer S))
      → Grows c d
      → Tried m d out
      → Tried m c out
  before m none g h = tt
  before m (some (v, e)) g (h, k) = (trans g h, k)

  record_failure-Tried :
      (answers : List Bool) (m : KafkaMessage) (n : ℕ) (c : Consumer S)
      → Tried m c (some (record_failure answers (m.offset, n) c))
  unfolding record_failure
  record_failure-Tried [] m n c = (same c, λ h. elim (h refl) [ ])
  record_failure-Tried (true ∷ answers) m n c = (
    record { consumed = λ id i. i; failures = λ f i. later i; committed = refl },
    λ h. inr (n, first),
  )
  record_failure-Tried (false ∷ answers) m n c = record_failure-Tried answers m n c

  try_from-Tried :
      (fuel max_tries : ℕ) (answers : List Bool) (attempts : ℕ → Attempt S) (m : KafkaMessage)
      (n : ℕ) (c : Consumer S)
      → Tried m c (try_from fuel max_tries answers attempts m n c)
  unfolding try_from
  try_from-Tried zero max_tries answers attempts m n c = tt
  try_from-Tried (suc fuel) max_tries answers attempts m n c =
      go (process (attempts n) m.envelope c) (process-Attempted (attempts n) m.envelope c)
        (λ d. try_from-Tried fuel max_tries answers attempts m (n + 1) d)
    where
      again : Consumer S → Option (Verdict × Consumer S)
      again d = try_from fuel max_tries answers attempts m (n + 1) d

      decide : Bool → Bool → Bool → Consumer S → Option (Verdict × Consumer S)
      decide permanent exhausted cancelled d =
          if permanent
          then some (record_failure answers (m.offset, n) d)
          else if exhausted
          then some (record_failure answers (m.offset, n) d)
          else if cancelled
          then some (stopped, d)
          else again d

      decided :
          (permanent exhausted cancelled : Bool) (d : Consumer S)
          → Tried m d (again d)
          → Tried m d (decide permanent exhausted cancelled d)
      decided true exhausted cancelled d h = record_failure-Tried answers m n d
      decided false true cancelled d h = record_failure-Tried answers m n d
      decided false false true d h = (same d, λ k. elim (k refl) [ ])
      decided false false false d h = h

      go :
          (x : Option ProcessError × Consumer S)
          → Attempted m.envelope c x
          → ((d : Consumer S) → Tried m d (again d))
          → Tried m c (elim x.0 [
            | none ↦ some (processed, x.1)
            | some e ↦ decide (is_permanent e) (leb max_tries n) (attempts n).cancelled x.1
          ])
      go (none, d) (g, marks) rest = (g, λ h. inl (marks refl))
      go (some e, d) (g, marks) rest =
          before m (decide (is_permanent e) (leb max_tries n) (attempts n).cancelled d) g
            (decided (is_permanent e) (leb max_tries n) (attempts n).cancelled d (rest d))

  later-IsSettled :
      {c d : Consumer S} → Grows c d → (m : KafkaMessage) → IsSettled c m → IsSettled d m
  later-IsSettled g m (inl (row, e, i)) = inl (row, e, g.consumed row.event_id i)
  later-IsSettled g m (inr (n, i)) = inr (n, g.failures (m.offset, n) i)

  All-later :
      {c d : Consumer S}
      → Grows c d
      → (ms : List KafkaMessage) → All (IsSettled c) ms
      → All (IsSettled d) ms
  All-later g [] h = tt
  All-later g (m ∷ ms) (h, hs) = (later-IsSettled g m h, All-later g ms hs)

  abbrev pub AllSettled : Consumer S → Type 0
  AllSettled c = All (IsSettled c) c.committed

  grown-AllSettled : {c d : Consumer S} → Grows c d → AllSettled c → AllSettled d
  grown-AllSettled {d = d} g h =
      subst (λ ms. All (IsSettled d) ms) (sym g.committed) (All-later g _ h)

  commit-AllSettled :
      (m : KafkaMessage) (b : Bool) (d : Consumer S)
      → IsSettled d m
      → AllSettled d
      → AllSettled (commit m b d)
  commit-AllSettled m true d h hs = (h, hs)
  commit-AllSettled m false d h hs = hs

  -- For any failures and any number of messages: if the loop starts with only settled messages
  -- committed, then at its end every message whose offset is committed has its event marked as
  -- consumed or stands in the table of failures.
  pub run-AllSettled :
      (max_tries : ℕ) (fs : List (Fetched S)) (c : Consumer S)
      → AllSettled c
      → AllSettled (run max_tries fs c)
  unfolding run
  run-AllSettled max_tries [] c h = h
  run-AllSettled max_tries (f ∷ fs) c h =
      go (try_from max_tries max_tries f.answers f.attempts f.message 1 c)
        (try_from-Tried max_tries max_tries f.answers f.attempts f.message 1 c)
        (λ d k. run-AllSettled max_tries fs d k)
    where
      go :
          (out : Option (Verdict × Consumer S))
          → Tried f.message c out
          → ((d : Consumer S) → AllSettled d → AllSettled (run max_tries fs d))
          → AllSettled (elim out [
            | none ↦ c
            | some (stopped, c') ↦ c'
            | some (processed, c') ↦ run max_tries fs (commit f.message f.commits c')
            | some (parked, c') ↦ run max_tries fs (commit f.message f.commits c')
          ])
      go none t rest = h
      go (some (stopped, d)) (g, settled) rest = grown-AllSettled g h
      go (some (processed, d)) (g, settled) rest =
          rest (commit f.message f.commits d)
            (commit-AllSettled f.message f.commits d (settled (λ e. cc)) (grown-AllSettled g h))
      go (some (parked, d)) (g, settled) rest =
          rest (commit f.message f.commits d)
            (commit-AllSettled f.message f.commits d (settled (λ e. cc)) (grown-AllSettled g h))

  -- The attempts have a result.
  abbrev Ends : Option (Verdict × Consumer S) → Type 0
  Ends o = (out : Verdict × Consumer S) × (o ≡ some out)

  -- An attempt ends the message, or its retry does.
  attempt-Ends :
      (x : Option ProcessError × Consumer S) (exhausted cancelled : Bool)
      (after : Verdict × Consumer S) (again : Option (Verdict × Consumer S))
      → (exhausted ≡ false → Ends again)
      → Ends (elim x.0 [
        | none ↦ some (processed, x.1)
        | some e ↦
            if is_permanent e
            then some after
            else if exhausted
            then some after
            else if cancelled
            then some (stopped, x.1)
            else again
      ])
  attempt-Ends (none, d) exhausted cancelled after again h = ((processed, d), refl)
  attempt-Ends (some e, d) exhausted cancelled after again h =
      go (is_permanent e) exhausted cancelled h
    where
      go :
          (a b c : Bool)
          → (b ≡ false → Ends again)
          → Ends (
              if a
              then some after
              else if b
              then some after
              else if c
              then some (stopped, d)
              else again)
      go true b c h = (after, refl)
      go false true c h = (after, refl)
      go false false true h = ((stopped, d), refl)
      go false false false h = h refl

  -- Whatever the attempts do, those on a message end: `max_tries` of them are enough.
  pub try_from-some :
      (fuel max_tries : ℕ) (answers : List Bool) (attempts : ℕ → Attempt S) (m : KafkaMessage)
      (n : ℕ) (c : Consumer S)
      → max_tries ≤ fuel + n
      → (out : Verdict × Consumer S) × (try_from (suc fuel) max_tries answers attempts m n c
          ≡ some out)
  unfolding try_from
  try_from-some zero max_tries answers attempts m n c h =
      attempt-Ends (process (attempts n) m.envelope c) (leb max_tries n) (attempts n).cancelled
        (record_failure answers (m.offset, n) (process (attempts n) m.envelope c).1) none
        (λ e. elim (refuted e) [ ])
    where
      refuted : leb max_tries n ≡ false → ⊥
      refuted e = ground arith
  try_from-some (suc fuel) max_tries answers attempts m n c h =
      let x = process (attempts n) m.envelope c in
      attempt-Ends x (leb max_tries n) (attempts n).cancelled
        (record_failure answers (m.offset, n) x.1)
        (try_from (suc fuel) max_tries answers attempts m (n + 1) x.1)
        (λ e. try_from-some fuel max_tries answers attempts m (n + 1) x.1 (omega (arith, h)))
