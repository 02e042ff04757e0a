-- ===== src/Commit/History.antt =====
-- What happens to the tables after a command or a claim of a route: further commands of the committer
-- (server/internal/farm/infrastructure/committer_mysql.go) and claims, in any order. The deletion of
-- old receipts (retention_reaper.go) is not among them.
use farm_server.Base.{
  ℕ, ◌+◌, ◌≤◌, ◌<◌, ◌≡◌, ◌≢◌, ◌∙◌, refl, ap, arith, subst, true, String, List, [], ◌∷◌, Option,
  some, inl, inr, Bool-cases, Option-cases, ◌==◌, eq_iff,
}
use farm_server.Errors.{ok, Result-cases}
use farm_server.Farm.{Time, Command, CommandType, purchase_seed, sell_crop, CommitResult, Snapshot}
use farm_server.Store.{Env, Db, farm_epoch}
use farm_server.Store.Tx.{Tx, atomically}
use farm_server.Commit.Rows.{insert_receipt, upsert_snapshot, requires_command_receipt}
use farm_server.Commit.Events.{insert_outbox}
use farm_server.Commit.FarmTx.{commit_locked, commit_farm_seen, write_receipt, find_replay}
use farm_server.Commit.FarmTx.Inversion.{commit_locked-Committed}
use farm_server.Commit.FarmTx.Effects.{side_effects-Effect}
use farm_server.Commit.FarmTx.Outcome.{commit_locked-Outcome}
use farm_server.Commit.FarmTx.Version.{commit_locked-IsAllowed}
use farm_server.Commit.FarmTx.Once.{replay_of, found-replay}
use farm_server.Commit.EconomyTx.Settled.Ledger.{IsTrade, KeepsRows, commit_economic-Leaves}
use farm_server.Commit.Command.{commit_seen, is_economic}
use farm_server.Commit.Fence.{advance_route_epoch, advance-epoch, advance-receipts, advance-ledger}

-- A command with the tables that its query for an earlier settlement sees, or a claim of a route.
pub data Event : Type 0 where
  commits : Env → String → Time → Command → Db → Event
  claims : ℕ → ℕ → Event

unfoldable pub happen : Event → Db → Db
happen (commits env event_id now cmd seen) db =
    (atomically (commit_seen env event_id now cmd seen) db).1
happen (claims farm_id epoch) db = (atomically (advance_route_epoch farm_id epoch) db).1

unfoldable pub happen_all : List Event → Db → Db
happen_all [] db = db
happen_all (e ∷ es) db = happen_all es (happen e db)

-- Receipts and rows of the ledger stay, and no fence moves back.
abbrev pub Grows : Db → Db → Type 0
Grows db d =
    ((user : ℕ) (cmd_id : String) (version : ℕ)
      → db.receipts user cmd_id ≡ some version
      → d.receipts user cmd_id ≡ some version)
    × ((farm_id : ℕ) → farm_epoch db farm_id ≤ farm_epoch d farm_id)
    × KeepsRows db d

same-Grows : (db : Db) → Grows db db
same-Grows db = (λ user cmd_id version e. e, λ farm_id. omega arith, λ user t id n e. e)

trans-Grows : (a b c : Db) → Grows a b → Grows b c → Grows a c
trans-Grows a b c (r, f, l) (s, g, m) = (
  λ user cmd_id version e. s user cmd_id version (r user cmd_id version e),
  λ farm_id. omega (arith, f farm_id, g farm_id),
  λ user t id n e. m user t id n (l user t id n e),
)

write_receipt-keeps :
    (cmd : Command) (v : ℕ) (db d : Db) (user : ℕ) (cmd_id : String) (version : ℕ)
    → write_receipt cmd v db ≡ ok (tt, d)
    → db.receipts user cmd_id ≡ some version
    → d.receipts user cmd_id ≡ some version
unfolding write_receipt insert_receipt
write_receipt-keeps cmd v db d user cmd_id version h e =
    ground (arith, h, e, eq_iff cmd_id cmd.cmd_id)

commit_locked-Grows :
    (env : Env) (event_id : String) (now : Time) (cmd : Command) (db d : Db) (res : CommitResult)
    → commit_locked env event_id now cmd db ≡ ok (res, d)
    → Grows db d
unfolding insert_outbox upsert_snapshot
commit_locked-Grows env event_id now cmd db d res h =
    let c = commit_locked-Committed env event_id now cmd db d res h in
    let o = commit_locked-Outcome env event_id now cmd db d res h in
    let (credits, rest, farms) =
      side_effects-Effect env cmd c.ar c.snapshot.owner_id now db c.settled cmd.type c.effects in
    let stored : Snapshot = record (c.snapshot) { version = c.snapshot.version + 1 } in
    (
      λ user cmd_id version e. rw c.final (
          write_receipt-keeps cmd stored.version (upsert_snapshot env stored c.settled) c.recorded
            user cmd_id version c.receipt
            (ap (λ (f : ℕ → String → Option ℕ). f user cmd_id) rest.receipts ∙ e)),
      λ farm_id. elim (Bool-cases (farm_id == cmd.farm_id)) [
        | inl here ↦
            let at : farm_id ≡ cmd.farm_id = ground (arith, here) in rw at (omega (arith, o.epoch))
        | inr other ↦
            rw (farm_epoch, o.other_farms farm_id (λ e. ground (arith, e, other))) (omega arith)
      ],
      λ user t id n e. rw o.ledger e,
    )

commit_farm-Grows :
    (env : Env) (event_id : String) (now : Time) (cmd : Command) (seen db d : Db)
    (res : CommitResult)
    → commit_farm_seen env event_id now cmd seen db ≡ ok (res, d)
    → Grows db d
unfolding commit_farm_seen
commit_farm-Grows env event_id now cmd seen db d res h =
    elim (Option-cases (find_replay cmd seen)) [
      | inl new ↦
          commit_locked-Grows env event_id now cmd db d res (rw (new, commit_farm_seen) at h)
      | inr (old, found) ↦
          let same : db ≡ d = cc (rw (found, commit_farm_seen) at h) in
          subst (Grows db) same (same-Grows db)
    ]

economic-IsTrade : (t : CommandType) → is_economic t ≡ true → IsTrade t
economic-IsTrade purchase_seed h = inl refl
economic-IsTrade sell_crop h = inr refl
economic-IsTrade _ h = cc

commit_seen-Grows :
    (env : Env) (event_id : String) (now : Time) (cmd : Command) (seen db d : Db)
    (res : CommitResult)
    → commit_seen env event_id now cmd seen db ≡ ok (res, d)
    → Grows db d
unfolding commit_seen
commit_seen-Grows env event_id now cmd seen db d res h = elim (Bool-cases (is_economic cmd.type)) [
  | inr farm ↦ commit_farm-Grows env event_id now cmd seen db d res (rw (farm, commit_seen) at h)
  | inl trade ↦
      let (farms, receipts, ledger) =
        commit_economic-Leaves env event_id cmd seen db d res (economic-IsTrade cmd.type trade)
          (rw (trade, commit_seen) at h) in
      (
        λ user cmd_id version e. ap (λ (f : ℕ → String → Option ℕ). f user cmd_id) receipts ∙ e,
        λ farm_id. rw (farm_epoch, farms) (omega arith),
        ledger,
      )
]

claim-Grows :
    (farm_id epoch : ℕ) (db d : Db) → advance_route_epoch farm_id epoch db ≡ ok (tt, d) → Grows db d
claim-Grows farm_id epoch db d h =
    let (positive, mono, reached, kept, others) = advance-epoch farm_id epoch db d h in
    (
      λ user cmd_id version e.
          ap (λ (f : ℕ → String → Option ℕ). f user cmd_id) (advance-receipts farm_id epoch db d h)
          ∙ e,
      λ other. elim (Bool-cases (other == farm_id)) [
        | inl here ↦
            let at : other ≡ farm_id = ground (arith, here) in rw at (omega (arith, mono, reached))
        | inr away ↦ rw (farm_epoch, others other (λ e. ground (arith, e, away))) (omega arith)
      ],
      λ user t id n e. rw (advance-ledger farm_id epoch db d h) e,
    )

atomically-Grows :
    {A : Type 0} (m : Tx A) (db : Db)
    → ((a : A) (d : Db) → m db ≡ ok (a, d) → Grows db d)
    → Grows db (atomically m db).1
unfolding atomically
atomically-Grows m db h = elim (Result-cases (m db)) [
  | inl ((a, d), e) ↦ rw (e, atomically) (h a d e)
  | inr (x, e) ↦ rw (e, atomically) (same-Grows db)
]

happen-Grows : (e : Event) (db : Db) → Grows db (happen e db)
unfolding happen
happen-Grows (commits env event_id now cmd seen) db =
    atomically-Grows (commit_seen env event_id now cmd seen) db
      λ res d h. commit_seen-Grows env event_id now cmd seen db d res h
happen-Grows (claims farm_id epoch) db =
    atomically-Grows (advance_route_epoch farm_id epoch) db
      λ u d h. claim-Grows farm_id epoch db d h

pub happen_all-Grows : (es : List Event) (db : Db) → Grows db (happen_all es db)
unfolding happen_all
happen_all-Grows [] db = same-Grows db
happen_all-Grows (e ∷ es) db =
    trans-Grows db (happen e db) (happen_all es (happen e db)) (happen-Grows e db)
      (happen_all-Grows es (happen e db))

-- Sent again after it committed, a command that settles assets returns the version of its commit,
-- marked as replayed, and changes nothing, whatever commands of any player and claims of routes have
-- committed or failed in between; its receipt has not been deleted as too old in between.
pub commit_replays :
    (env env' : Env) (event_id again_id : String) (now later : Time) (cmd : Command) (db db' : Db)
    (res : CommitResult) (es : List Event)
    → requires_command_receipt cmd.type ≡ true
    → commit_locked env event_id now cmd db ≡ ok (res, db')
    → (again : CommitResult) × (commit_farm_seen env' again_id later cmd
          (happen_all es db')
          (happen_all es db')
        ≡ ok (again, happen_all es db'))
      × (again.new_version ≡ res.new_version)
      × (again.replayed ≡ true)
unfolding commit_farm_seen
commit_replays env env' event_id again_id now later cmd db db' res es r h =
    let o = commit_locked-Outcome env event_id now cmd db db' res h in
    let kept =
      (happen_all-Grows es db').0 cmd.actor_user cmd.cmd_id res.new_version (o.receipt r).1 in
    let found = found-replay cmd (happen_all es db') res.new_version r kept in
    (replay_of res.new_version, rw (commit_farm_seen, found) refl, refl, refl)

-- Once an owner has claimed a farm's route at an epoch, and whatever commands and claims follow, no
-- command with a smaller epoch commits to that farm and no claim with a smaller epoch succeeds: a
-- process that lost the farm can neither write to it nor take it back.
pub fenced_owner_cannot_commit :
    (env : Env) (event_id : String) (now : Time) (cmd : Command) (epoch old : ℕ) (db fenced d : Db)
    (res : CommitResult) (es : List Event)
    → advance_route_epoch cmd.farm_id epoch db ≡ ok (tt, fenced)
    → old < epoch
    → (cmd.route_epoch ≡ old
        → commit_locked env event_id now cmd (happen_all es fenced) ≢ ok (res, d))
      × (advance_route_epoch cmd.farm_id old (happen_all es fenced) ≢ ok (tt, d))
fenced_owner_cannot_commit env event_id now cmd epoch old db fenced d res es claimed less =
    let (positive, mono, reached, kept, others) =
      advance-epoch cmd.farm_id epoch db fenced claimed in
    let grown = (happen_all-Grows es fenced).1 cmd.farm_id in
    (
      λ e h.
          let allowed =
            commit_locked-IsAllowed env event_id now cmd (happen_all es fenced) d res h in
          omega (arith, allowed.epoch, reached, less, grown, e),
      λ h.
          let (positive', mono', reached', kept', others') =
            advance-epoch cmd.farm_id old (happen_all es fenced) d h in
          omega (arith, reached, less, grown, mono'),
    )
