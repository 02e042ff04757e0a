-- ===== src/Commit/FarmTx/Version.antt =====
-- The checks that a farm command has passed when it commits, and the row that it leaves.
use farm_server.Base.{
  ℕ, ◌≤◌, ◌≡◌, ◌≢◌, refl, ◌∙◌, Bool, true, false, ◌||◌, not, String, Option, none, some, arith, leb,
  subst, ◌==◌, ==_iff,
}
use farm_server.Errors.{
  coded, farm_version_conflict, social_not_farm_owner, social_not_friend, common_invalid_argument,
  routing_fenced, ok,
}
use farm_server.Farm.{Time, zero_time, Snapshot, Command, CommitResult}
use farm_server.Store.{Env, Db, FarmRow, farm_version, farm_epoch, farm_owner}
use farm_server.Store.Tx.{>>=-eq-ok, ◌>>◌, guard, guard-eq-ok, guard->>-eq-ok, reads->>-eq-ok}
use farm_server.Commit.Rows.{
  same_millis, Locked, load_snapshot_for_update, are_friends, check_friendship,
  check_pet_auto_harvest_enabled,
}
use farm_server.Commit.FarmTx.{
  is_pet, is_visit, check_schedule, check_pet_command, check_visit, check_pet_switch, check_locked,
  commit_locked,
}
use farm_server.Commit.FarmTx.Inversion.{
  commit_locked-Committed, check_pet_command-OnlyReads, check_visit-OnlyReads,
}

-- What the code means to check before it changes a farm, on the tables themselves.
pub record IsAllowed (env : Env) (cmd : Command) (now : Time) (db : Db) : Type 0 where
  -- only the owner of the route writes
  pub epoch : cmd.route_epoch ≡ farm_epoch db cmd.farm_id
  -- a player's command was made for the stored version
  pub fresh : is_pet cmd.type ≡ false → cmd.base_version ≡ farm_version db cmd.farm_id
  -- a visitor is a friend of the owner, and not the owner
  pub visitor :
      is_visit cmd.type ≡ true
      → (cmd.actor_user ≢ farm_owner db cmd.farm_id)
        × (are_friends env cmd.actor_user (farm_owner db cmd.farm_id) db ≡ true)
  -- the pet acts for the owner, is switched on, and its schedule is due
  pub pet :
      is_pet cmd.type ≡ true
      → (cmd.actor_user ≡ farm_owner db cmd.farm_id)
        × (db.active_pets (farm_owner db cmd.farm_id) ≡ some true)
        × (next : Time) × (row : FarmRow) × (db.farms cmd.farm_id ≡ some row)
        × (row.next_pet_action_at ≡ some next)
        × (same_millis next cmd.pet_scheduled_at ≡ true)
        × (next ≤ now)

pub load-columns :
    (env : Env) (id : ℕ) (db db' : Db) (l : Locked)
    → load_snapshot_for_update env id db ≡ ok (l, db')
    → (l.snapshot.farm_id ≡ id)
      × (l.snapshot.version ≡ farm_version db id)
      × (l.snapshot.route_epoch ≡ farm_epoch db id)
      × (l.snapshot.owner_id ≡ farm_owner db id)
unfolding load_snapshot_for_update
load-columns env id db db' l h = (ground arith, ground arith, ground arith, ground arith)

load-schedule :
    (env : Env) (id : ℕ) (db db' : Db) (l : Locked) (next : Time)
    → load_snapshot_for_update env id db ≡ ok (l, db')
    → l.next_pet_at ≡ some next
    → (row : FarmRow) × (db.farms id ≡ some row) × (row.next_pet_action_at ≡ some next)
unfolding load_snapshot_for_update
load-schedule env id db db' l next h e = ground arith

check_schedule-eq-ok :
    (o : Option Time) (scheduled now : Time) (db db' : Db) (u : Unit {0})
    → check_schedule o scheduled now db ≡ ok (u, db')
    → (next : Time) × (o ≡ some next) × (same_millis next scheduled ≡ true) × (next ≤ now)
unfolding check_schedule
check_schedule-eq-ok none scheduled now db db' u h = cc
check_schedule-eq-ok (some next) scheduled now db db' u h =
    let (v, mid, e, k) =
      >>=-eq-ok (guard (same_millis next scheduled) (coded farm_version_conflict))
        (λ _. guard (leb next now) (coded farm_version_conflict)) h in
    (
      next,
      refl,
      (guard-eq-ok (same_millis next scheduled) (coded farm_version_conflict) e).0,
      ground (arith, (guard-eq-ok (leb next now) (coded farm_version_conflict) k).0),
    )

pet-allowed :
    (cmd : Command) (l : Locked) (now : Time) (db : Db)
    → is_pet cmd.type ≡ true
    → check_pet_command cmd l now db ≡ ok (tt, db)
    → (cmd.actor_user ≡ l.snapshot.owner_id)
      × (next : Time) × (l.next_pet_at ≡ some next)
      × (same_millis next cmd.pet_scheduled_at ≡ true)
      × (next ≤ now)
unfolding check_pet_command
pet-allowed cmd l now db pet h =
    let h1 = rw pet at h in
    let (owner, h2) =
      guard->>-eq-ok (cmd.actor_user == l.snapshot.owner_id) (coded social_not_farm_owner)
        (guard (not (cmd.pet_scheduled_at == zero_time)) (coded common_invalid_argument)
          >> check_schedule l.next_pet_at cmd.pet_scheduled_at now)
        h1 in
    let (set, h3) =
      guard->>-eq-ok (not (cmd.pet_scheduled_at == zero_time)) (coded common_invalid_argument)
        (check_schedule l.next_pet_at cmd.pet_scheduled_at now) h2 in
    let (next, at, near, due) =
      check_schedule-eq-ok l.next_pet_at cmd.pet_scheduled_at now db db tt h3 in
    ((==_iff cmd.actor_user l.snapshot.owner_id).0 owner, next, at, near, due)

visit-allowed :
    (env : Env) (cmd : Command) (s : Snapshot) (db : Db)
    → is_visit cmd.type ≡ true
    → check_visit env cmd s db ≡ ok (tt, db)
    → (cmd.actor_user ≢ s.owner_id) × (are_friends env cmd.actor_user s.owner_id db ≡ true)
unfolding check_visit check_friendship
visit-allowed env cmd s db visit h =
    let h1 = rw visit at h in
    let (stranger, h2) =
      guard->>-eq-ok (not (cmd.actor_user == s.owner_id)) (coded social_not_farm_owner)
        (check_friendship env cmd.actor_user s.owner_id) h1 in
    (
      ground (arith, stranger),
      (guard-eq-ok (are_friends env cmd.actor_user s.owner_id db) (coded social_not_friend) h2).0,
    )

switch-allowed :
    (cmd : Command) (s : Snapshot) (db : Db)
    → is_pet cmd.type ≡ true
    → check_pet_switch cmd s db ≡ ok (tt, db)
    → db.active_pets s.owner_id ≡ some true
unfolding check_pet_switch check_pet_auto_harvest_enabled
switch-allowed cmd s db pet h = ground arith

fresh-eq : (b : Bool) (x y : ℕ) → (b || x == y) ≡ true → b ≡ false → x ≡ y
fresh-eq b x y h n = ground arith

-- The checks under the lock say what they mean.
check_locked-IsAllowed :
    (env : Env) (cmd : Command) (l : Locked) (now : Time) (db : Db)
    → load_snapshot_for_update env cmd.farm_id db ≡ ok (l, db)
    → check_locked env cmd l now db ≡ ok (tt, db)
    → IsAllowed env cmd now db
unfolding check_locked
check_locked-IsAllowed env cmd l now db loaded h =
    let (farm, version, epoch, owner) = load-columns env cmd.farm_id db db l loaded in
    let switch = check_pet_switch cmd l.snapshot in
    let (same_epoch, h1) =
      guard->>-eq-ok (cmd.route_epoch == l.snapshot.route_epoch) (coded routing_fenced)
        (check_pet_command cmd l now
          >> (guard (is_pet cmd.type || cmd.base_version == l.snapshot.version)
                (coded farm_version_conflict)
              >> (check_visit env cmd l.snapshot >> switch)))
        h in
    let (pets, h2) =
      reads->>-eq-ok (check_pet_command cmd l now)
        (guard (is_pet cmd.type || cmd.base_version == l.snapshot.version)
            (coded farm_version_conflict)
          >> (check_visit env cmd l.snapshot >> switch))
        db (check_pet_command-OnlyReads cmd l now) h1 in
    let (same_version, h3) =
      guard->>-eq-ok (is_pet cmd.type || cmd.base_version == l.snapshot.version)
        (coded farm_version_conflict) (check_visit env cmd l.snapshot >> switch) h2 in
    let (visits, h4) =
      reads->>-eq-ok (check_visit env cmd l.snapshot) switch db
        (check_visit-OnlyReads env cmd l.snapshot) h3 in
    record {
      epoch = (==_iff cmd.route_epoch l.snapshot.route_epoch).0 same_epoch ∙ epoch;
      fresh = λ np.
          fresh-eq (is_pet cmd.type) cmd.base_version l.snapshot.version same_version np ∙ version;
      visitor = λ v.
          subst (λ o. (cmd.actor_user ≢ o) × (are_friends env cmd.actor_user o db ≡ true)) owner
            (visit-allowed env cmd l.snapshot db v visits);
      pet = λ p.
          let (own, next, at, near, due) = pet-allowed cmd l now db p pets in
          let (row, found, scheduled) = load-schedule env cmd.farm_id db db l next loaded at in
          (
            own ∙ owner,
            subst (λ o. db.active_pets o ≡ some true) owner (switch-allowed cmd l.snapshot db p h4),
            next,
            row,
            found,
            scheduled,
            near,
            due,
          );
    }

-- A farm command commits only if the tables allow it: the route's owner sends it, a player's command
-- names the stored version, a visitor is a friend and not the owner, and the pet's schedule is due,
-- for the owner, with the switch on.
pub commit_locked-IsAllowed :
    (env : Env) (event_id : String) (now : Time) (cmd : Command) (db db' : Db) (res : CommitResult)
    → commit_locked env event_id now cmd db ≡ ok (res, db')
    → IsAllowed env cmd now db
commit_locked-IsAllowed env event_id now cmd db db' res h =
    let c = commit_locked-Committed env event_id now cmd db db' res h in
    check_locked-IsAllowed env cmd c.locked now db c.loaded c.checked
