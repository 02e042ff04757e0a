-- ===== src/Pet/Rest.antt =====
-- A pet that is switched off rests: `SetAutoHarvest` of
-- server/internal/pet/infrastructure/mysql_pet_service.go against the scanner and the committer.
use farm_server.Base.{
  ℕ, ◌≡◌, ◌≢◌, ◌∙◌, inl, inr, sym, ap, arith, Bool, true, false, String, List, [], ◌∷◌, Option,
  none, some, All,
}
use farm_server.Errors.{ok}
use farm_server.Farm.{Time, Command, CommitResult}
use farm_server.Store.{Env, Db}
use farm_server.Store.Tx.{Fault, atomically}
use farm_server.Commit.FarmTx.{commit_locked, is_pet}
use farm_server.Commit.FarmTx.Version.{commit_locked-IsAllowed}
use farm_server.Pet.{claim_due, renew_lease, push_next_pet_action}
use farm_server.Pet.Ownership.{buy_pet, set_auto_harvest, is_some}
use farm_server.Pet.Switch.{next_at, buy_pet-OneRun, set_auto_harvest-OneRun, bought, switched}
use farm_server.Pet.Schedule.{
  Change, buys, switches, claims, renews, pushes, commits, apply, apply_all, Keeps, claim-Keeps,
  renew-Keeps, push-Keeps, after-commit,
}

abbrev pub IsOff : ℕ → Db → Type 0
IsOff user db = (db.active_pets user ≡ some false) × (is_some (next_at (db.farms user)) ≡ false)

-- The change does not switch the player's pet on again.
abbrev pub IsNotOn : ℕ → Change → Type 0
IsNotOn user (switches faults wait jitter clock player enabled) = player ≡ user → enabled ≡ false
IsNotOn user _ = Unit {0}

kept-IsOff : (user : ℕ) (db d : Db) → Keeps db d → IsOff user db → IsOff user d
kept-IsOff user db d (p, f) (off, bare) = (ap (λ pets. pets user) p ∙ off, f user ∙ bare)

switch-IsOff :
    (faults : ℕ → Option Fault) (wait : ℕ → Bool) (jitter : ℕ → Option ℕ) (clock : ℕ → Time)
    (player : ℕ) (enabled : Bool) (user : ℕ) (db : Db)
    → (player ≡ user → enabled ≡ false)
    → IsOff user db
    → IsOff user (set_auto_harvest faults wait jitter clock player enabled db).1
switch-IsOff faults wait jitter clock player enabled user db other (off, bare) =
    elim (set_auto_harvest-OneRun faults wait jitter clock player enabled db) [
      | inl (k, d, answer, run, out) ↦
          elim ((switched (jitter k) (clock k) player enabled db d run).1) [
            | inl (on, was, same) ↦ rw (out, same) (off, bare)
            | inr (pets, next, others) ↦
                rw out
                  (ground (arith, pets, off, other), ground (arith, next, bare, other, others user))
          ]
      | inr (e, out) ↦ rw out (off, bare)
    ]

buy-IsOff :
    (faults : ℕ → Option Fault) (wait : ℕ → Bool) (jitter : ℕ → Option ℕ) (clock : ℕ → Time)
    (buyer user : ℕ) (db : Db)
    → IsOff user db
    → IsOff user (buy_pet faults wait jitter clock buyer db).1
buy-IsOff faults wait jitter clock buyer user db (off, bare) =
    elim (buy_pet-OneRun faults wait jitter clock buyer db) [
      | inl (k, d, answer, run, out) ↦
          let (free, paid, pets, scheduled, others) = bought (jitter k) (clock k) buyer db d run in
          let other : user ≢ buyer = λ e. ground (arith, free, off, e) in
          rw out (ground (arith, pets, off, other), ground (arith, bare, other, others user))
      | inr (e, out) ↦ rw out (off, bare)
    ]

apply-IsOff :
    (user : ℕ) (c : Change) (db : Db) → IsNotOn user c → IsOff user db → IsOff user (apply c db)
unfolding apply
apply-IsOff user (buys faults wait jitter clock buyer) db o h =
    buy-IsOff faults wait jitter clock buyer user db h
apply-IsOff user (switches faults wait jitter clock player enabled) db o h =
    switch-IsOff faults wait jitter clock player enabled user db o h
apply-IsOff user (claims ttl id token now) db o h =
    kept-IsOff user db (claim_due ttl id token now db).1 (claim-Keeps ttl id token now db) h
apply-IsOff user (renews ttl id token now) db o h =
    kept-IsOff user db (renew_lease ttl id token now db).1 (renew-Keeps ttl id token now db) h
apply-IsOff user (pushes id expected token now) db o h =
    kept-IsOff user db (push_next_pet_action id expected token now db).1
      (push-Keeps id expected token now db) h
apply-IsOff user (commits env event_id now cmd) db o h =
    kept-IsOff user db (atomically (commit_locked env event_id now cmd) db).1
      (after-commit env event_id now cmd db) h

apply_all-IsOff :
    (user : ℕ) (cs : List Change) (db : Db)
    → All (IsNotOn user) cs
    → IsOff user db
    → IsOff user (apply_all cs db)
unfolding apply_all
apply_all-IsOff user [] db o h = h
apply_all-IsOff user (c ∷ cs) db (o, os) h =
    apply_all-IsOff user cs (apply c db) os (apply-IsOff user c db o h)

set_auto_harvest-IsOff :
    (faults : ℕ → Option Fault) (wait : ℕ → Bool) (jitter : ℕ → Option ℕ) (clock : ℕ → Time)
    (user : ℕ) (db d : Db)
    → set_auto_harvest faults wait jitter clock user false db ≡ (ok tt, d)
    → IsOff user d
set_auto_harvest-IsOff faults wait jitter clock user db d h =
    elim (set_auto_harvest-OneRun faults wait jitter clock user false db) [
      | inl (k, e, answer, run, out) ↦
          let (off, how, coins) = switched (jitter k) (clock k) user false db e run in
          let same : e ≡ d = cc in
          rw (sym same)
            (off, elim how [ inl (on, was, x) ↦ absurd cc | inr (pets, next, x) ↦ next ])
      | inr (e, out) ↦ absurd cc
    ]

unclaimed :
    (ttl user : ℕ) (token : String) (now : Time) (db : Db)
    → IsOff user db
    → claim_due ttl user token now db ≡ (none, db)
unfolding claim_due
unclaimed ttl user token now db (off, bare) = ground (arith, off, bare)

bare-none : (o : Option Time) (t : Time) → is_some o ≡ false → o ≢ some t
bare-none none t h e = cc
bare-none (some x) t h e = cc

-- After a player has switched the pet off, and until it is switched on again, no scanner claims the
-- player's farm and no pet command commits to it, whatever else happens meanwhile.
pub switched_off_pet_rests :
    (faults : ℕ → Option Fault) (wait : ℕ → Bool) (jitter : ℕ → Option ℕ) (clock : ℕ → Time)
    (user : ℕ) (db d : Db) (cs : List Change)
    → set_auto_harvest faults wait jitter clock user false db ≡ (ok tt, d)
    → All (IsNotOn user) cs
    → ((ttl : ℕ) (token : String) (now : Time)
        → claim_due ttl user token now (apply_all cs d) ≡ (none, apply_all cs d))
      × ((env : Env) (event_id : String) (now : Time) (cmd : Command) (res : CommitResult) (d' : Db)
          → cmd.farm_id ≡ user
          → is_pet cmd.type ≡ true
          → commit_locked env event_id now cmd (apply_all cs d) ≢ ok (res, d'))
switched_off_pet_rests faults wait jitter clock user db d cs h os =
    let off : IsOff user (apply_all cs d) =
      apply_all-IsOff user cs d os (set_auto_harvest-IsOff faults wait jitter clock user db d h) in
    (
      λ ttl token now. unclaimed ttl user token now (apply_all cs d) off,
      λ env event_id now cmd res d' farm pet k.
          let allowed = commit_locked-IsAllowed env event_id now cmd (apply_all cs d) d' res k in
          let (own, on, next, row, found, scheduled, near, due) = allowed.pet pet in
          bare-none row.next_pet_action_at next (ground (arith, off.1, found, farm)) scheduled,
    )
