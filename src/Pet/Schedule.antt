-- ===== src/Pet/Schedule.antt =====
-- The schedule of a farm against the switch of its pet: the purchase and the switch
-- (server/internal/pet/infrastructure/mysql_pet_service.go), the statements of the scanner
-- (server/internal/worker/pet_scanner.go) and the commits of farm commands, as one sequence.
use farm_server.Base.{
  ℕ, ◌+◌, ◌≡◌, ◌∙◌, inl, inr, refl, sym, ap, arith, Bool, String, List, [], ◌∷◌, Option,
}
use farm_server.Errors.{ok, Result-cases}
use farm_server.Farm.{Time, Command, CommandType, CommitResult, Snapshot, pet_auto_harvest, plant}
use farm_server.Store.{Env, Db}
use farm_server.Store.Tx.{Fault, atomically}
use farm_server.Commit.Rows.{upsert_snapshot, insert_receipt}
use farm_server.Commit.Events.{insert_outbox}
use farm_server.Commit.FarmTx.{commit_locked, write_receipt}
use farm_server.Commit.FarmTx.Inversion.{commit_locked-Committed}
use farm_server.Commit.FarmTx.Effects.{FarmsAfter, side_effects-Effect}
use farm_server.Pet.{is_enabled, claim_due, renew_lease, push_next_pet_action}
use farm_server.Pet.Ownership.{buy_pet, set_auto_harvest, is_some}
use farm_server.Pet.Switch.{next_at, buy_pet-OneRun, set_auto_harvest-OneRun, bought, switched}

-- The farm has a next action exactly where its player's pet is switched on.
abbrev pub Agrees : Db → ℕ → Type 0
Agrees db user = is_some (next_at (db.farms user)) ≡ is_enabled (db.active_pets user)

-- A step that leaves the pets, and no farm without a next action or with a new one.
abbrev pub Keeps : Db → Db → Type 0
Keeps db d =
    (d.active_pets ≡ db.active_pets)
    × ((j : ℕ) → is_some (next_at (d.farms j)) ≡ is_some (next_at (db.farms j)))

pub claim-Keeps :
    (ttl id : ℕ) (token : String) (now : Time) (db : Db)
    → Keeps db (claim_due ttl id token now db).1
unfolding claim_due
claim-Keeps ttl id token now db = (ground arith, λ j. ground arith)

pub renew-Keeps :
    (ttl id : ℕ) (token : String) (now : Time) (db : Db)
    → Keeps db (renew_lease ttl id token now db).1
unfolding renew_lease
renew-Keeps ttl id token now db = (ground arith, λ j. ground arith)

pub push-Keeps :
    (id : ℕ) (expected : Time) (token : String) (now : Time) (db : Db)
    → Keeps db (push_next_pet_action id expected token now db).1
unfolding push_next_pet_action
push-Keeps id expected token now db = (ground arith, λ j. ground arith)

effect-Keeps :
    (t : CommandType) (cmd : Command) (now : Time) (db d : Db)
    → d.active_pets ≡ db.active_pets
    → FarmsAfter t cmd now db d
    → Keeps db d
effect-Keeps pet_auto_harvest cmd now db d p (row, found, at, e) = (p, λ j. rw e (ground arith))
effect-Keeps plant cmd now db d p e = (p, λ j. cc)
effect-Keeps _ cmd now db d p e = (p, λ j. cc)

upsert-Keeps : (env : Env) (s : Snapshot) (db : Db) → Keeps db (upsert_snapshot env s db)
unfolding upsert_snapshot
upsert-Keeps env s db = (refl, λ j. ground arith)

receipt-Keeps :
    (cmd : Command) (version : ℕ) (db d : Db)
    → write_receipt cmd version db ≡ ok (tt, d)
    → Keeps db d
unfolding write_receipt insert_receipt
receipt-Keeps cmd version db d h = (ground arith, λ j. ground arith)

trans-Keeps : (a b c : Db) → Keeps a b → Keeps b c → Keeps a c
trans-Keeps a b c (p, f) (q, g) = (q ∙ p, λ j. g j ∙ f j)

commit-Keeps :
    (env : Env) (event_id : String) (now : Time) (cmd : Command) (db d : Db) (res : CommitResult)
    → commit_locked env event_id now cmd db ≡ ok (res, d)
    → Keeps db d
unfolding insert_outbox
commit-Keeps env event_id now cmd db d res h =
    let c = commit_locked-Committed env event_id now cmd db d res h in
    let (credits, rest, farms) =
      side_effects-Effect env cmd c.ar c.snapshot.owner_id now db c.settled cmd.type c.effects in
    let stored : Snapshot = record (c.snapshot) { version = c.snapshot.version + 1 } in
    let upserted : Db = upsert_snapshot env stored c.settled in
    rw c.final (
      trans-Keeps db c.settled c.recorded
        (effect-Keeps cmd.type cmd now db c.settled rest.active_pets farms)
        (trans-Keeps c.settled upserted c.recorded (upsert-Keeps env stored c.settled)
          (receipt-Keeps cmd stored.version upserted c.recorded c.receipt)))

pub after-commit :
    (env : Env) (event_id : String) (now : Time) (cmd : Command) (db : Db)
    → Keeps db (atomically (commit_locked env event_id now cmd) db).1
unfolding atomically
after-commit env event_id now cmd db = elim (Result-cases (commit_locked env event_id now cmd db)) [
  | inl ((res, d), e) ↦ rw (e, atomically) (commit-Keeps env event_id now cmd db d res e)
  | inr (x, e) ↦ rw (e, atomically) (refl, λ j. refl)
]

-- What changes the tables of the pet: purchases and switches with their retries, the scanner's
-- claims, renewals and postponements, and the transactions of farm commands.
pub data Change : Type 0 where
  buys : (ℕ → Option Fault) → (ℕ → Bool) → (ℕ → Option ℕ) → (ℕ → Time) → ℕ → Change
  switches : (ℕ → Option Fault) → (ℕ → Bool) → (ℕ → Option ℕ) → (ℕ → Time) → ℕ → Bool → Change
  claims : ℕ → ℕ → String → Time → Change
  renews : ℕ → ℕ → String → Time → Change
  pushes : ℕ → Time → String → Time → Change
  commits : Env → String → Time → Command → Change

unfoldable pub apply : Change → Db → Db
apply (buys faults wait jitter clock user) db = (buy_pet faults wait jitter clock user db).1
apply (switches faults wait jitter clock user enabled) db =
    (set_auto_harvest faults wait jitter clock user enabled db).1
apply (claims ttl id token now) db = (claim_due ttl id token now db).1
apply (renews ttl id token now) db = (renew_lease ttl id token now db).1
apply (pushes id expected token now) db = (push_next_pet_action id expected token now db).1
apply (commits env event_id now cmd) db = (atomically (commit_locked env event_id now cmd) db).1

unfoldable pub apply_all : List Change → Db → Db
apply_all [] db = db
apply_all (c ∷ cs) db = apply_all cs (apply c db)

kept-Agrees : (db d : Db) (user : ℕ) → Keeps db d → Agrees db user → Agrees d user
kept-Agrees db d user (p, f) h = f user ∙ h ∙ ap (λ pets. is_enabled (pets user)) (sym p)

bought-Agrees :
    (faults : ℕ → Option Fault) (wait : ℕ → Bool) (jitter : ℕ → Option ℕ) (clock : ℕ → Time)
    (buyer : ℕ) (db : Db) (user : ℕ)
    → Agrees db user
    → Agrees (buy_pet faults wait jitter clock buyer db).1 user
bought-Agrees faults wait jitter clock buyer db user h =
    elim (buy_pet-OneRun faults wait jitter clock buyer db) [
      | inl (k, d, answer, run, out) ↦
          let (free, paid, pets, (row, s, ej, found, next), others) =
            bought (jitter k) (clock k) buyer db d run in
          rw out (ground (arith, pets, next, h, others user))
      | inr (e, out) ↦ rw out h
    ]

switched-Agrees :
    (faults : ℕ → Option Fault) (wait : ℕ → Bool) (jitter : ℕ → Option ℕ) (clock : ℕ → Time)
    (player : ℕ) (enabled : Bool) (db : Db) (user : ℕ)
    → Agrees db user
    → Agrees (set_auto_harvest faults wait jitter clock player enabled db).1 user
switched-Agrees faults wait jitter clock player enabled db user h =
    elim (set_auto_harvest-OneRun faults wait jitter clock player enabled db) [
      | inl (k, d, answer, run, out) ↦
          elim ((switched (jitter k) (clock k) player enabled db d run).1) [
            | inl (on, was, same) ↦ rw (out, same) h
            | inr (pets, next, others) ↦ rw out (ground (arith, pets, next, h, others user))
          ]
      | inr (e, out) ↦ rw out h
    ]

apply-Agrees : (c : Change) (db : Db) (user : ℕ) → Agrees db user → Agrees (apply c db) user
unfolding apply
apply-Agrees (buys faults wait jitter clock buyer) db user h =
    bought-Agrees faults wait jitter clock buyer db user h
apply-Agrees (switches faults wait jitter clock player enabled) db user h =
    switched-Agrees faults wait jitter clock player enabled db user h
apply-Agrees (claims ttl id token now) db user h =
    kept-Agrees db (claim_due ttl id token now db).1 user (claim-Keeps ttl id token now db) h
apply-Agrees (renews ttl id token now) db user h =
    kept-Agrees db (renew_lease ttl id token now db).1 user (renew-Keeps ttl id token now db) h
apply-Agrees (pushes id expected token now) db user h =
    kept-Agrees db (push_next_pet_action id expected token now db).1 user
      (push-Keeps id expected token now db) h
apply-Agrees (commits env event_id now cmd) db user h =
    kept-Agrees db (atomically (commit_locked env event_id now cmd) db).1 user
      (after-commit env event_id now cmd db) h

-- Where each farm has a next pet action exactly if its player's pet is switched on, this stays so
-- over any sequence of purchases, switches, statements of the scanner and farm commands, whatever
-- faults, draws and times they meet.
pub schedule_follows_switch :
    (cs : List Change) (db : Db)
    → ((user : ℕ) → Agrees db user)
    → (user : ℕ) → Agrees (apply_all cs db) user
unfolding apply_all
schedule_follows_switch [] db h user = h user
schedule_follows_switch (c ∷ cs) db h user =
    schedule_follows_switch cs (apply c db) (λ u. apply-Agrees c db u (h u)) user
