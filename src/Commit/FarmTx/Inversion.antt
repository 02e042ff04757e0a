-- ===== src/Commit/FarmTx/Inversion.antt =====
-- What a farm command that commits has gone through.
use farm_server.Base.{leb, not, ◌||◌, ◌+◌, ◌≡◌, String, Option, none, some, subst, ◌==◌}
use farm_server.Errors.{
  coded, farm_version_conflict, social_not_farm_owner, common_invalid_argument, routing_fenced,
  Result, ok, err,
}
use farm_server.Farm.{Time, zero_time, Snapshot, Command, CommitResult}
use farm_server.Farm.Apply.{ApplyResult, apply_cmd}
use farm_server.Store.{Env, Db}
use farm_server.Store.Tx.{
  guard, lift, >>=-eq-ok, OnlyReads, pure-OnlyReads, fail-OnlyReads, guard-OnlyReads, if-OnlyReads,
  >>=-OnlyReads, guard->>-OnlyReads, pure,
}
use farm_server.Commit.Rows.{
  same_millis, Locked, load_snapshot_for_update, upsert_snapshot, load_snapshot-OnlyReads,
  check_friendship-OnlyReads, check_pet-OnlyReads,
}
use farm_server.Commit.Events.{insert_outbox}
use farm_server.Commit.FarmTx.{
  check_locked, apply_economic_side_effects, write_receipt, committed_result, finish, persist,
  change, checked_change, commit_locked, check_pet_command, check_visit, check_pet_switch,
  check_schedule, is_pet, is_visit,
}

pub record Committed (env : Env) (event_id : String) (now : Time) (cmd : Command) (db : Db)
    (res : CommitResult) (db' : Db) : Type 0 where
  pub locked : Locked
  pub ar : ApplyResult
  pub snapshot : Snapshot
  pub settled : Db
  pub recorded : Db
  pub loaded : load_snapshot_for_update env cmd.farm_id db ≡ ok (locked, db)
  pub checked : check_locked env cmd locked now db ≡ ok (tt, db)
  pub applied : apply_cmd locked.snapshot cmd now ≡ ok (ar, snapshot)
  pub effects :
      apply_economic_side_effects env cmd.type cmd ar snapshot.owner_id now db ≡ ok (tt, settled)
  pub receipt :
      write_receipt cmd
        (snapshot.version + 1)
        (upsert_snapshot env (record snapshot { version = snapshot.version + 1 }) settled)
      ≡ ok (tt, recorded)
  pub result :
      res ≡ committed_result event_id cmd ar (record snapshot { version = snapshot.version + 1 })
  pub final :
      db'
      ≡ insert_outbox env event_id
          (record snapshot { version = snapshot.version + 1 })
          cmd
          ar
          now
          recorded

check_schedule-OnlyReads :
    (o : Option Time) (scheduled now : Time) → OnlyReads (check_schedule o scheduled now)
unfolding check_schedule
check_schedule-OnlyReads none scheduled now = fail-OnlyReads _
check_schedule-OnlyReads (some next) scheduled now =
    guard->>-OnlyReads (same_millis next scheduled) (coded farm_version_conflict)
      (guard (leb next now) (coded farm_version_conflict))
      (guard-OnlyReads (leb next now) (coded farm_version_conflict))

pub check_pet_command-OnlyReads :
    (cmd : Command) (l : Locked) (now : Time) → OnlyReads (check_pet_command cmd l now)
unfolding check_pet_command
check_pet_command-OnlyReads cmd l now =
    if-OnlyReads (is_pet cmd.type) _ (pure tt)
      (guard->>-OnlyReads (cmd.actor_user == l.snapshot.owner_id) (coded social_not_farm_owner) _ (
        guard->>-OnlyReads (not (cmd.pet_scheduled_at == zero_time)) (coded common_invalid_argument)
          _ (check_schedule-OnlyReads l.next_pet_at cmd.pet_scheduled_at now)))
      (pure-OnlyReads tt)

pub check_visit-OnlyReads :
    (env : Env) (cmd : Command) (s : Snapshot) → OnlyReads (check_visit env cmd s)
unfolding check_visit
check_visit-OnlyReads env cmd s =
    if-OnlyReads (is_visit cmd.type) _ (pure tt)
      (guard->>-OnlyReads (not (cmd.actor_user == s.owner_id)) (coded social_not_farm_owner) _
        (check_friendship-OnlyReads env cmd.actor_user s.owner_id))
      (pure-OnlyReads tt)

check_pet_switch-OnlyReads : (cmd : Command) (s : Snapshot) → OnlyReads (check_pet_switch cmd s)
unfolding check_pet_switch
check_pet_switch-OnlyReads cmd s =
    if-OnlyReads (is_pet cmd.type) _ _ (check_pet-OnlyReads s.owner_id) (pure-OnlyReads tt)

check_locked-OnlyReads :
    (env : Env) (cmd : Command) (l : Locked) (now : Time) → OnlyReads (check_locked env cmd l now)
unfolding check_locked
check_locked-OnlyReads env cmd l now =
    guard->>-OnlyReads (cmd.route_epoch == l.snapshot.route_epoch) (coded routing_fenced) _ (
      >>=-OnlyReads (check_pet_command cmd l now) _ (check_pet_command-OnlyReads cmd l now) (λ _.
        guard->>-OnlyReads (is_pet cmd.type || cmd.base_version == l.snapshot.version)
          (coded farm_version_conflict) _
          (>>=-OnlyReads (check_visit env cmd l.snapshot) _
            (check_visit-OnlyReads env cmd l.snapshot)
            (λ _. check_pet_switch-OnlyReads cmd l.snapshot))))

lift-eq-ok :
    {A : Type 0} (r : Result A) {db db' : Db} {a : A}
    → lift r db ≡ ok (a, db')
    → (r ≡ ok a) × (db' ≡ db)
lift-eq-ok (ok b) h = (cc, cc)
lift-eq-ok (err e) h = cc

finish-eq-ok :
    (env : Env) (event_id : String) (cmd : Command) (now : Time) (ar : ApplyResult) (s : Snapshot)
    (db : Db) {db' : Db} {res : CommitResult}
    → finish env event_id cmd now ar s db ≡ ok (res, db')
    → (recorded : Db) × (write_receipt cmd s.version (upsert_snapshot env s db) ≡ ok (tt, recorded))
      × (res ≡ committed_result event_id cmd ar s)
      × (db' ≡ insert_outbox env event_id s cmd ar now recorded)
unfolding finish
finish-eq-ok env event_id cmd now ar s db h =
    let (u, recorded, e, k) =
      >>=-eq-ok (write_receipt cmd s.version)
        (λ _ d. ok (committed_result event_id cmd ar s, insert_outbox env event_id s cmd ar now d))
        h in
    (recorded, e, cc k, cc k)

persist-eq-ok :
    (env : Env) (event_id : String) (cmd : Command) (now : Time) (ar : ApplyResult) (s : Snapshot)
    (db : Db) {db' : Db} {res : CommitResult}
    → persist env event_id cmd now (ar, s) db ≡ ok (res, db')
    → (settled : Db) × (apply_economic_side_effects env cmd.type cmd ar s.owner_id now db
        ≡ ok (tt, settled))
      × (finish env event_id cmd now ar (record s { version = s.version + 1 }) settled
          ≡ ok (res, db'))
unfolding persist
persist-eq-ok env event_id cmd now ar s db h =
    let (u, settled, e, k) =
      >>=-eq-ok (apply_economic_side_effects env cmd.type cmd ar s.owner_id now)
        (λ _. finish env event_id cmd now ar (record s { version = s.version + 1 })) h in
    (settled, e, k)

change-eq-ok :
    (env : Env) (event_id : String) (now : Time) (cmd : Command) (l : Locked) (db : Db) {db' : Db}
    {res : CommitResult}
    → change env event_id now cmd l db ≡ ok (res, db')
    → (p : ApplyResult × Snapshot) × (apply_cmd l.snapshot cmd now ≡ ok p)
      × (persist env event_id cmd now p db ≡ ok (res, db'))
unfolding change
change-eq-ok env event_id now cmd l db {db'} {res} h =
    let (p, mid, e, k) =
      >>=-eq-ok (lift (apply_cmd l.snapshot cmd now)) (persist env event_id cmd now) h in
    let (applied, same) = lift-eq-ok (apply_cmd l.snapshot cmd now) e in
    (p, applied, subst (λ d. persist env event_id cmd now p d ≡ ok (res, db')) same k)

-- The state after the lock and after the checks is the one before them.
locked-eq-ok :
    (env : Env) (event_id : String) (now : Time) (cmd : Command) {db db' : Db} {res : CommitResult}
    → commit_locked env event_id now cmd db ≡ ok (res, db')
    → (l : Locked) × (load_snapshot_for_update env cmd.farm_id db ≡ ok (l, db))
      × (checked_change env event_id now cmd l db ≡ ok (res, db'))
unfolding commit_locked
locked-eq-ok env event_id now cmd {db} {db'} {res} h =
    let (l, mid, e, k) =
      >>=-eq-ok (load_snapshot_for_update env cmd.farm_id) (checked_change env event_id now cmd)
        h in
    let same = load_snapshot-OnlyReads env cmd.farm_id db l mid e in
    (
      l,
      subst (λ d. load_snapshot_for_update env cmd.farm_id db ≡ ok (l, d)) same e,
      subst (λ d. checked_change env event_id now cmd l d ≡ ok (res, db')) same k,
    )

checked-eq-ok :
    (env : Env) (event_id : String) (now : Time) (cmd : Command) (l : Locked) {db db' : Db}
    {res : CommitResult}
    → checked_change env event_id now cmd l db ≡ ok (res, db')
    → (check_locked env cmd l now db ≡ ok (tt, db))
      × (change env event_id now cmd l db ≡ ok (res, db'))
unfolding checked_change
checked-eq-ok env event_id now cmd l {db} {db'} {res} h =
    let (u, mid, e, k) =
      >>=-eq-ok (check_locked env cmd l now) (λ _. change env event_id now cmd l) h in
    let same = check_locked-OnlyReads env cmd l now db u mid e in
    (
      subst (λ d. check_locked env cmd l now db ≡ ok (tt, d)) same e,
      subst (λ d. change env event_id now cmd l d ≡ ok (res, db')) same k,
    )

-- A farm command that commits has passed every check on the row as it was locked, and has written
-- the side effects, the snapshot, the receipt and the event, in this order.
pub commit_locked-Committed :
    (env : Env) (event_id : String) (now : Time) (cmd : Command) (db db' : Db) (res : CommitResult)
    → commit_locked env event_id now cmd db ≡ ok (res, db')
    → Committed env event_id now cmd db res db'
commit_locked-Committed env event_id now cmd db db' res h =
    let (l, loaded, h1) = locked-eq-ok env event_id now cmd h in
    let (checked, h2) = checked-eq-ok env event_id now cmd l h1 in
    let (p, applied, h3) = change-eq-ok env event_id now cmd l db h2 in
    let (settled, effects, h4) = persist-eq-ok env event_id cmd now p.0 p.1 db h3 in
    let (recorded, receipt, result, final) =
      finish-eq-ok env event_id cmd now p.0 (record (p.1) { version = p.1.version + 1 }) settled
        h4 in
    record {
      locked = l;
      ar = p.0;
      snapshot = p.1;
      settled = settled;
      recorded = recorded;
      loaded = loaded;
      checked = checked;
      applied = applied;
      effects = effects;
      receipt = receipt;
      result = result;
      final = final;
    }
