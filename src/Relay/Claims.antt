-- ===== src/Relay/Claims.antt =====
-- Which rows of the outbox a batch takes, and which of them are marked afterwards (`reclaimStale`,
-- `claimBatch` and `markPublishedBatch` of
-- server/internal/farm/infrastructure/outbox_relay.go): the first that are due, in the order of
-- their ids.
use farm_server.Base.{
  ℕ, zero, suc, ◌+◌, ◌-◌, ◌<◌, ◌≤◌, min, ◌≡◌, ap, refl, arith, Bool, true, false, ◌&&◌, String,
  List, [], ◌∷◌, if◌then◌else◌, ◌==◌, length, map, eq_iff, str_eq, ◌||◌, leb,
}
use farm_server.Farm.{Time}
use farm_server.Relay.{
  Entry, Claimed, Config, Relay, published, is_waiting, is_stale, OutboxStatus, update, select,
  limit, is_due, is_among, lock, claimed, set_published, reclaim_stale,
}
use farm_server.Relay.Scan.{is_held}

-- The ids of a table ascend.
abbrev pub IsAscending : ℕ → List Entry → Type 0
IsAscending low [] = Unit {0}
IsAscending low (e ∷ es) = (low < e.outbox_id) × IsAscending e.outbox_id es

-- The first `n` rows that a test holds of, changed in place.
abbrev pub update_first : ℕ → (Entry → Bool) → (Entry → Entry) → List Entry → List Entry
update_first zero hit f es = es
update_first (suc n) hit f [] = []
update_first (suc n) hit f (e ∷ es) = elim (hit e) [
  | true ↦ f e ∷ update_first n hit f es
  | false ↦ e ∷ update_first (suc n) hit f es
]

abbrev pub ids : (Entry → Bool) → ℕ → List Entry → List Claimed
ids hit n es = map claimed (limit n (select hit es))

-- A row below the ids of a table is not among those picked from it.
below-not-among :
    (hit : Entry → Bool) (n : ℕ) (e : Entry) (low : ℕ) (es : List Entry)
    → e.outbox_id ≤ low
    → IsAscending low es
    → is_among (ids hit n es) e ≡ false
below-not-among hit zero e low es h asc = refl
below-not-among hit (suc n) e low [] h asc = refl
below-not-among hit (suc n) e low (x ∷ es) h asc =
    ground
      (arith, below-not-among hit n e x.outbox_id es, below-not-among hit (suc n) e x.outbox_id es)

-- A claimed row below the ids of a table does not count for it.
pub update-below :
    (c : Claimed) (cs : List Claimed) (f : Entry → Entry) (low : ℕ) (es : List Entry)
    → c.outbox_id ≤ low
    → IsAscending low es
    → update (is_among (c ∷ cs)) f es ≡ update (is_among cs) f es
update-below c cs f low [] h asc = refl
update-below c cs f low (x ∷ es) h asc = ground (arith, update-below c cs f x.outbox_id es)

abbrev pub count : (Entry → Bool) → List Entry → ℕ
count hit [] = 0
count hit (e ∷ es) = if hit e then suc (count hit es) else count hit es

-- The rows that are changed are the first that the test holds of.
pub update-ids :
    (hit : Entry → Bool) (f : Entry → Entry) (n low : ℕ) (es : List Entry)
    → IsAscending low es
    → update (is_among (ids hit n es)) f es ≡ update_first n hit f es
update-ids hit f zero low [] asc = refl
update-ids hit f zero low (e ∷ es) asc =
    ap (λ t. e ∷ t) (update-ids hit f zero e.outbox_id es asc.1)
update-ids hit f (suc n) low [] asc = refl
update-ids hit f (suc n) low (e ∷ es) asc = ground (
  arith,
  update-below (claimed e) (ids hit n es) f e.outbox_id es,
  update-ids hit f n e.outbox_id es,
  update-ids hit f (suc n) e.outbox_id es,
  below-not-among hit (suc n) e e.outbox_id es,
)

-- As many rows are picked as there are, up to the limit.
pub length-ids :
    (hit : Entry → Bool) (n : ℕ) (es : List Entry) → length (ids hit n es) ≡ min n (count hit es)
length-ids hit zero es = omega arith
length-ids hit (suc n) [] = omega arith
length-ids hit (suc n) (e ∷ es) = ground (arith, length-ids hit n es, length-ids hit (suc n) es)

-- The mark of the rows that the worker has just locked.
abbrev pub finish : Config → Time → Entry → Entry
finish cfg now e = set_published now (lock cfg now e)

str_eq_self : (w : String) → str_eq w w ≡ true
str_eq_self w = (eq_iff w w).1 refl

among-lock :
    (cfg : Config) (now : Time) (cs : List Claimed) (e : Entry)
    → is_among cs (lock cfg now e) ≡ is_among cs e
among-lock cfg now [] e = refl
among-lock cfg now (c ∷ cs) e =
    ap (λ b. if e.outbox_id == c.outbox_id then true else b) (among-lock cfg now cs e)

pub update_held :
    (cfg : Config) (now : Time) (cs : List Claimed) (es : List Entry)
    → update (is_held cfg cs) (set_published now) (update (is_among cs) (lock cfg now) es)
      ≡ update (is_among cs) (finish cfg now) es
update_held cfg now cs [] = refl
update_held cfg now cs (e ∷ es) =
    ground (arith, update_held cfg now cs es, str_eq_self cfg.worker_id, among-lock cfg now cs e)

pub count_held :
    (cfg : Config) (now : Time) (cs : List Claimed) (es : List Entry)
    → length (select (is_held cfg cs) (update (is_among cs) (lock cfg now) es))
      ≡ count (is_among cs) es
count_held cfg now cs [] = refl
count_held cfg now cs (e ∷ es) =
    ground (arith, count_held cfg now cs es, str_eq_self cfg.worker_id, among-lock cfg now cs e)

count-below :
    (c : Claimed) (cs : List Claimed) (low : ℕ) (es : List Entry)
    → c.outbox_id ≤ low
    → IsAscending low es
    → count (is_among (c ∷ cs)) es ≡ count (is_among cs) es
count-below c cs low [] h asc = refl
count-below c cs low (x ∷ es) h asc = ground (arith, count-below c cs x.outbox_id es)

pub count-ids :
    (hit : Entry → Bool) (n low : ℕ) (es : List Entry)
    → IsAscending low es
    → count (is_among (ids hit n es)) es ≡ length (ids hit n es)
count-ids hit zero low [] asc = refl
count-ids hit zero low (e ∷ es) asc = count-ids hit zero e.outbox_id es asc.1
count-ids hit (suc n) low [] asc = refl
count-ids hit (suc n) low (e ∷ es) asc = ground (
  arith,
  count-below (claimed e) (ids hit n es) e.outbox_id es,
  count-ids hit n e.outbox_id es,
  count-ids hit (suc n) e.outbox_id es,
  below-not-among hit (suc n) e e.outbox_id es,
)

-- A row that a scan at this time publishes: due, or claimed by a worker whose lock has run out.
abbrev pub is_owed : Time → Entry → Bool
is_owed now e = (is_waiting e.status || is_stale now e) && leb e.available_at now

abbrev pub backlog : Time → Relay → ℕ
backlog now r = count (is_owed now) r.entries

abbrev pub is_published : Entry → Bool
is_published e = is_done e.status
  where
    is_done : OutboxStatus → Bool
    is_done published = true
    is_done _ = false

-- Reclaiming makes every owed row due and leaves the others.
pub reclaim-count :
    (now : Time) (es : List Entry)
    → (count (is_due now) (reclaim_stale now es) ≡ count (is_owed now) es)
      × (count is_published (reclaim_stale now es) ≡ count is_published es)
unfolding reclaim_stale
reclaim-count now [] = (refl, refl)
reclaim-count now (e ∷ es) = ground (arith, reclaim-count now es)

pub reclaim-IsAscending :
    (now : Time) (low : ℕ) (es : List Entry)
    → IsAscending low es
    → IsAscending low (reclaim_stale now es)
unfolding reclaim_stale
reclaim-IsAscending now low [] asc = tt
reclaim-IsAscending now low (e ∷ es) asc =
    ground (arith, reclaim-IsAscending now e.outbox_id es asc.1)

-- Publishing the first due rows of a reclaimed table.
pub finish-count :
    (cfg : Config) (now : Time) (n : ℕ) (es : List Entry)
    → (count (is_owed now) (update_first n (is_due now) (finish cfg now) (reclaim_stale now es))
        ≡ count (is_owed now) es - n)
      × (count is_published (update_first n (is_due now) (finish cfg now) (reclaim_stale now es))
          ≡ count is_published es + min n (count (is_owed now) es))
unfolding reclaim_stale
finish-count cfg now zero [] = (omega arith, omega arith)
finish-count cfg now zero (e ∷ es) = ground (arith, finish-count cfg now zero es)
finish-count cfg now (suc n) [] = (omega arith, omega arith)
finish-count cfg now (suc n) (e ∷ es) =
    ground (arith, finish-count cfg now n es, finish-count cfg now (suc n) es)
