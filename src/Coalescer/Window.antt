-- ===== src/Coalescer/Window.antt =====
-- Every request that joins a window is answered by one command, whose quantity is that of the distinct
-- requests in it: submissions, the ends of windows and early flushes as steps
-- (server/internal/gateway/http/economy_coalescer.go).
use farm_server.Base.{
  ℕ, ◌+◌, ◌≤◌, ◌≡◌, refl, ap, subst, arith, not, ◌&&◌, List, [], ◌∷◌, ◌++◌, none, some, ◌==◌, ltb,
  if◌then◌else◌, All, Bool-cases, inl, inr,
}
use farm_server.Farm.{max_economy_quantity}
use farm_server.Coalescer.{
  Waiter, Bucket, Coalescer, seen_qty, new_bucket, bucket_or_new, join_bucket, submit_to, submit,
  Flushed, nothing, refused, command, is_empty, flush,
}
use farm_server.Coalescer.Charge.{
  charge, count, count-append, IsClosed, IsOpen, new-IsOpen, repeat-IsOpen, first-IsOpen,
}

-- The coalescer, what its flushes have sent, and the requests that joined so far.
pub record World : Type 0 where
  pub coalescer : Coalescer
  pub sent : List Flushed
  pub requests : List Waiter

pub data Step : World → World → Type 0 where
  submits :
      (r : Waiter) (w : World)
      → 1 ≤ r.qty
      → r.qty ≤ max_economy_quantity
      → Step w (record w { coalescer = submit r w.coalescer; requests = r ∷ w.requests })
  window_ends :
      (b : Bucket) (w : World)
      → w.coalescer.bucket ≡ some b
      → Step w
          (record w { coalescer = record w.coalescer { bucket = none }; sent = flush b ∷ w.sent })
  flushes_early :
      (b : Bucket) (before rest : List Bucket) (w : World)
      → w.coalescer.triggered ≡ before ++ b ∷ rest
      → Step w (record w {
        coalescer = record w.coalescer { triggered = before ++ rest };
        sent = flush b ∷ w.sent;
      })

pub data Reach (v : World) : World → Type 0 where
  here : Reach v v
  after_step : {w u : World} → Reach v w → Step w u → Reach v u

-- A flush is a command for what its distinct requests ask for, within the limit.
abbrev pub IsSettled : Flushed → Type 0
IsSettled nothing = Unit {0}
IsSettled (refused ws) = ⊥
IsSettled (command qty ws) = (qty ≡ charge ws) × (1 ≤ qty) × (qty ≤ max_economy_quantity)

abbrev pub answered : ℕ → Flushed → ℕ
answered c nothing = 0
answered c (refused ws) = count c ws
answered c (command qty ws) = count c ws

abbrev pub count_sent : ℕ → List Flushed → ℕ
count_sent c [] = 0
count_sent c (f ∷ fs) = answered c f + count_sent c fs

abbrev pub count_buckets : ℕ → List Bucket → ℕ
count_buckets c [] = 0
count_buckets c (b ∷ bs) = count c b.waiters + count_buckets c bs

abbrev pub waiting : ℕ → Coalescer → ℕ
waiting c s = count c (bucket_or_new s.bucket).waiters + count_buckets c s.triggered

record IsSound (w : World) : Type 0 where
  opened : IsOpen (bucket_or_new w.coalescer.bucket)
  triggered : All IsClosed w.coalescer.triggered
  settled : All IsSettled w.sent
  counted : (c : ℕ) → count c w.requests ≡ waiting c w.coalescer + count_sent c w.sent

flush-IsSettled : (b : Bucket) → IsClosed b → IsSettled (flush b)
unfolding flush
flush-IsSettled b h = elim (Bool-cases (is_empty b.waiters)) [
  | inl e ↦ rw e tt
  | inr e ↦ rw e (elim (Bool-cases (b.total_qty == 0)) [
    | inl z ↦ absurd (ground (arith, h.positive e))
    | inr z ↦ rw z (h.charged, h.positive e, h.bounded)
  ])
]

flush-count : (c : ℕ) (b : Bucket) → answered c (flush b) ≡ count c b.waiters
unfolding flush
flush-count c b = lem b.waiters
  where
    lem :
        (ws : List Waiter)
        → answered c (
            if is_empty ws
            then nothing
            else if b.total_qty == 0
            then refused ws
            else command b.total_qty ws)
          ≡ count c ws
    lem [] = refl
    lem (w ∷ ws) = ground arith

module _ (r : Waiter) (bs : List Bucket) where
  submit_to-count :
      (b : Bucket) (c : ℕ)
      → waiting c (submit_to r b bs) ≡ count c (r ∷ []) + count c b.waiters + count_buckets c bs
  unfolding submit_to join_bucket
  submit_to-count b c = ground (arith, count-append c b.waiters r)

  submit_to-opened :
      (b : Bucket)
      → 1 ≤ r.qty
      → r.qty ≤ max_economy_quantity
      → IsOpen b
      → IsOpen (bucket_or_new (submit_to r b bs).bucket)
  unfolding submit_to
  submit_to-opened b q fits h = elim (Bool-cases (seen_qty r.key b.seen == 0)) [
    | inr e ↦ rw e (repeat-IsOpen r b h e)
    | inl e ↦
        rw e
          (elim (Bool-cases (not (r.qty == 0) && ltb max_economy_quantity (b.total_qty + r.qty))) [
            | inl full ↦ rw full (
                first-IsOpen r new_bucket new-IsOpen (new-IsOpen.known r.key) q
                  (omega (arith, fits)))
            | inr room ↦ rw room (first-IsOpen r b h e q (ground arith))
          ])
  ]

  submit_to-triggered :
      (b : Bucket) → IsClosed b → All IsClosed bs → All IsClosed (submit_to r b bs).triggered
  unfolding submit_to
  submit_to-triggered b h k = elim (Bool-cases (seen_qty r.key b.seen == 0)) [
    | inr e ↦ rw e k
    | inl e ↦
        rw e
          (elim (Bool-cases (not (r.qty == 0) && ltb max_economy_quantity (b.total_qty + r.qty))) [
            | inl full ↦
                rw full
                  (record { charged = h.charged; bounded = h.bounded; positive = h.positive }, k)
            | inr room ↦ rw room k
          ])
  ]

count_buckets-middle :
    (c : ℕ) (before : List Bucket) (b : Bucket) (rest : List Bucket)
    → count_buckets c (before ++ b ∷ rest) ≡ count c b.waiters + count_buckets c (before ++ rest)
count_buckets-middle c [] b rest = refl
count_buckets-middle c (x ∷ before) b rest = omega (arith, count_buckets-middle c before b rest)

All-middle :
    (before : List Bucket) (b : Bucket) (rest : List Bucket)
    → All IsClosed (before ++ b ∷ rest)
    → IsClosed b × All IsClosed (before ++ rest)
All-middle [] b rest h = h
All-middle (x ∷ before) b rest h =
    let (found, others) = All-middle before b rest h.1 in (found, (h.0, others))

Step-IsSound : {w u : World} → Step w u → IsSound w → IsSound u
unfolding submit
Step-IsSound (submits r w q fits) h = record {
  opened =
      submit_to-opened r w.coalescer.triggered (bucket_or_new w.coalescer.bucket) q fits h.opened;
  triggered =
      submit_to-triggered r w.coalescer.triggered (bucket_or_new w.coalescer.bucket) h.opened.closed
        h.triggered;
  settled = h.settled;
  counted = λ c. omega (
    arith,
    h.counted c,
    submit_to-count r w.coalescer.triggered (bucket_or_new w.coalescer.bucket) c,
  );
}
Step-IsSound (window_ends b w e) h = record {
  opened = new-IsOpen;
  triggered = h.triggered;
  settled =
      (flush-IsSettled b (subst (λ o. IsOpen (bucket_or_new o)) e h.opened).closed, h.settled);
  counted = λ c.
      omega (arith, h.counted c, flush-count c b, ap (λ o. count c (bucket_or_new o).waiters) e);
}
Step-IsSound (flushes_early b before rest w e) h =
    let (found, others) = All-middle before b rest (subst (All IsClosed) e h.triggered) in
    record {
      opened = h.opened;
      triggered = others;
      settled = (flush-IsSettled b found, h.settled);
      counted = λ c. omega (
        arith,
        h.counted c,
        flush-count c b,
        ap (count_buckets c) e,
        count_buckets-middle c before b rest,
      );
    }

abbrev pub no_requests : World
no_requests = record {
  coalescer = record { bucket = none; triggered = [] };
  sent = [];
  requests = [];
}

Reach-IsSound : {w u : World} → Reach w u → IsSound w → IsSound u
Reach-IsSound here h = h
Reach-IsSound (after_step r step) h = Step-IsSound step (Reach-IsSound r h)

-- However requests with allowed quantities arrive, windows end and full buckets are flushed: every
-- request waits in one bucket or was answered once, by one command; and each command asks for exactly
-- the sum of the quantities of the first request of each key among those it answers, which lies
-- between 1 and the largest quantity.
pub requests_answered_once :
    (w : World)
    → Reach no_requests w
    → ((c : ℕ) → count c w.requests ≡ waiting c w.coalescer + count_sent c w.sent)
      × All IsSettled w.sent
requests_answered_once w r =
    let sound =
      Reach-IsSound r
        (record { opened = new-IsOpen; triggered = tt; settled = tt; counted = λ c. refl }) in
    (sound.counted, sound.settled)
