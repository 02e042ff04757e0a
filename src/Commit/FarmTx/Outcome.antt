-- ===== src/Commit/FarmTx/Outcome.antt =====
-- The tables after a farm command has committed.
use farm_server.Base.{
  ℕ, ◌+◌, ◌≡◌, ◌≢◌, refl, ◌∙◌, sym, ap, true, false, String, none, some, arith, ◌∷◌, eq_iff,
}
use farm_server.Errors.{ok}
use farm_server.Farm.{Time, Snapshot, Command, CommandType, plant, pet_auto_harvest, CommitResult}
use farm_server.Farm.Apply.Shape.{apply_cmd-eq-ok}
use farm_server.Store.{Env, Db, OutboxRow, farm_version, farm_epoch, farm_owner}
use farm_server.Commit.Rows.{upsert_snapshot, insert_receipt, requires_command_receipt}
use farm_server.Commit.Events.{insert_outbox, outbox_row}
use farm_server.Commit.FarmTx.{write_receipt, committed_result, commit_locked}
use farm_server.Commit.FarmTx.Version.{load-columns}
use farm_server.Commit.FarmTx.Inversion.{Committed, commit_locked-Committed}
use farm_server.Commit.FarmTx.Effects.{side_effects-Effect, FarmsAfter}

-- What a receipt's statement leaves.
pub receipt-after :
    (cmd : Command) (version : ℕ) (d d' : Db)
    → write_receipt cmd version d ≡ ok (tt, d')
    → (d'.farms ≡ d.farms)
      × (d'.inventory ≡ d.inventory)
      × (d'.outbox ≡ d.outbox)
      × (d'.wallets ≡ d.wallets)
      × (d'.ledger ≡ d.ledger)
      × (requires_command_receipt cmd.type ≡ true
          → (d.receipts cmd.actor_user cmd.cmd_id ≡ none)
            × (d'.receipts cmd.actor_user cmd.cmd_id ≡ some version))
unfolding write_receipt insert_receipt
receipt-after cmd version d d' h = (
  ground arith,
  ground arith,
  ground arith,
  ground arith,
  ground arith,
  λ r. (ground arith, ground (arith, eq_iff cmd.cmd_id cmd.cmd_id)),
)

pub columns-kept :
    (t : CommandType) (cmd : Command) (now : Time) (db db' : Db)
    → FarmsAfter t cmd now db db'
    → (farm_version db' cmd.farm_id ≡ farm_version db cmd.farm_id)
      × (farm_epoch db' cmd.farm_id ≡ farm_epoch db cmd.farm_id)
      × (farm_owner db' cmd.farm_id ≡ farm_owner db cmd.farm_id)
      × ((j : ℕ) → j ≢ cmd.farm_id → db'.farms j ≡ db.farms j)
columns-kept pet_auto_harvest cmd now db db' (row, found, at, e) =
    (rw e (ground arith), rw e (ground arith), rw e (ground arith), λ j ne. rw e (ground arith))
columns-kept plant cmd now db db' e = (cc, cc, cc, λ j ne. cc)
columns-kept _ cmd now db db' e = (cc, cc, cc, λ j ne. cc)

upsert-columns :
    (env : Env) (s : Snapshot) (db : Db) (id : ℕ)
    → s.farm_id ≡ id
    → s.owner_id ≡ farm_owner db id
    → (farm_version (upsert_snapshot env s db) id ≡ s.version)
      × (farm_epoch (upsert_snapshot env s db) id ≡ s.route_epoch)
      × (farm_owner (upsert_snapshot env s db) id ≡ farm_owner db id)
      × ((j : ℕ) → j ≢ id → (upsert_snapshot env s db).farms j ≡ db.farms j)
unfolding upsert_snapshot
upsert-columns env s db id e o = (ground arith, ground arith, ground arith, λ j ne. ground arith)

upsert-rest :
    (env : Env) (s : Snapshot) (db : Db)
    → let d = upsert_snapshot env s db in
      (d.receipts ≡ db.receipts)
      × (d.outbox ≡ db.outbox)
      × (d.wallets ≡ db.wallets)
      × (d.ledger ≡ db.ledger)
unfolding upsert_snapshot
upsert-rest env s db = (refl, refl, refl, refl)

pub record Outcome (event_id : String) (cmd : Command) (db : Db) (res : CommitResult) (db' : Db)
    : Type 0 where
  pub version : farm_version db' cmd.farm_id ≡ farm_version db cmd.farm_id + 1
  pub epoch : farm_epoch db' cmd.farm_id ≡ farm_epoch db cmd.farm_id
  pub owner : farm_owner db' cmd.farm_id ≡ farm_owner db cmd.farm_id
  pub reported : (res.new_version ≡ farm_version db' cmd.farm_id) × (res.replayed ≡ false)
  pub other_farms : (j : ℕ) → j ≢ cmd.farm_id → db'.farms j ≡ db.farms j
  pub event :
      (row : OutboxRow) × (db'.outbox ≡ row ∷ db.outbox)
      × (row.event_id ≡ event_id)
      × (row.aggregate_id ≡ cmd.farm_id)
      × (row.correlation_id ≡ cmd.cmd_id)
  pub receipt :
      requires_command_receipt cmd.type ≡ true
      → (db.receipts cmd.actor_user cmd.cmd_id ≡ none)
        × (db'.receipts cmd.actor_user cmd.cmd_id ≡ some res.new_version)
  pub wallets : db'.wallets ≡ db.wallets
  pub ledger : db'.ledger ≡ db.ledger

module _ (env : Env) (event_id : String) (now : Time) (cmd : Command) (db : Db) (res : CommitResult)
    (db' : Db) (c : Committed env event_id now cmd db res db') where
  Committed-Outcome : Outcome event_id cmd db res db'
  unfolding insert_outbox outbox_row committed_result
  Committed-Outcome =
      let (farm, version, epoch, owner) = load-columns env cmd.farm_id db db c.locked c.loaded in
      let shape = (apply_cmd-eq-ok c.locked.snapshot cmd now c.applied).1 in
      let (credits, rest, farms) =
        side_effects-Effect env cmd c.ar c.snapshot.owner_id now db c.settled cmd.type c.effects in
      let (v1, e1, o1, others1) = columns-kept cmd.type cmd now db c.settled farms in
      let stored : Snapshot = record (c.snapshot) { version = c.snapshot.version + 1 } in
      let same_farm : c.snapshot.farm_id ≡ cmd.farm_id = ap (λ s. s.farm_id) shape ∙ farm in
      let same_owner : c.snapshot.owner_id ≡ farm_owner c.settled cmd.farm_id =
        ap (λ s. s.owner_id) shape ∙ owner ∙ sym o1 in
      let (v2, e2, o2, others2) =
        upsert-columns env stored c.settled cmd.farm_id same_farm same_owner in
      let (r2, b2, w2, l2) = upsert-rest env stored c.settled in
      let (f3, i3, b3, w3, l3, r3) =
        receipt-after cmd stored.version (upsert_snapshot env stored c.settled) c.recorded
          c.receipt in
      let at = cmd.farm_id in
      let same_version : farm_version db' at ≡ c.snapshot.version + 1 = rw (c.final, f3) v2 in
      let next : c.snapshot.version + 1 ≡ farm_version db at + 1 =
        ap (λ (v : ℕ). v + 1) (ap (λ s. s.version) shape ∙ version) in
      let event_row : OutboxRow = outbox_row env event_id stored cmd c.ar now c.recorded in
      record {
        version = same_version ∙ next;
        epoch = rw (c.final, f3) (e2 ∙ ap (λ s. s.route_epoch) shape ∙ epoch);
        owner = rw (c.final, f3) (o2 ∙ o1);
        reported = (rw c.result (sym same_version), rw c.result refl);
        other_farms = λ j ne. rw (c.final, f3) (others2 j ne ∙ others1 j ne);
        event = (
          event_row,
          rw c.final (ap (λ l. event_row ∷ l) (b3 ∙ b2 ∙ rest.outbox)),
          refl,
          same_farm,
          refl,
        );
        receipt = λ r. (
          ap (λ f. f cmd.actor_user cmd.cmd_id) (sym (r2 ∙ rest.receipts)) ∙ (r3 r).0,
          rw (c.final, c.result) (r3 r).1,
        );
        wallets = rw c.final (w3 ∙ w2 ∙ rest.wallets);
        ledger = rw c.final (l3 ∙ l2 ∙ rest.ledger);
      }

-- A farm command that commits advances its farm by one version under the same owner and epoch,
-- reports that version, writes one event and, for a command that settles assets, a new receipt; no
-- other farm, no wallet and no ledger row changes.
pub commit_locked-Outcome :
    (env : Env) (event_id : String) (now : Time) (cmd : Command) (db db' : Db) (res : CommitResult)
    → commit_locked env event_id now cmd db ≡ ok (res, db')
    → Outcome event_id cmd db res db'
commit_locked-Outcome env event_id now cmd db db' res h =
    Committed-Outcome env event_id now cmd db res db'
      (commit_locked-Committed env event_id now cmd db db' res h)
