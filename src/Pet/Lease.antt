-- ===== src/Pet/Lease.antt =====
-- A worker whose lease another worker has taken over does nothing.
use farm_server.Base.{
  ℕ, ◌≡◌, refl, arith, Bool, true, false, String, str_eq, List, [], ◌∷◌, Option, none, some, All,
  ◌==◌, if◌then◌else◌,
}
use farm_server.Farm.{Time}
use farm_server.Store.{Env, FarmRow, Db}
use farm_server.Pet.{
  FarmToScan, nothing, Client, owns, claim_due, renew_lease, push_next_pet_action,
  process_claimed_farm,
}

abbrev owner_token : Option FarmRow → Option String
owner_token none = none
owner_token (some row) = row.pet_scan_lease_owner

-- The farm's lease is not under the token.
abbrev pub IsLost : String → ℕ → Db → Type 0
IsLost token id db = owns token (owner_token (db.farms id)) ≡ false

-- What may happen meanwhile: claims, renewals and postponements by any worker, and writes to a farm
-- that keep its lease or clear it, as the committer's do.
pub data Event : Type 0 where
  claims : ℕ → ℕ → String → Time → Event
  renews : ℕ → ℕ → String → Time → Event
  pushes : ℕ → Time → String → Time → Event
  writes : ℕ → FarmRow → Bool → Event

-- The row of a write, with the lease that it finds or without.
abbrev pub with_lease : Bool → FarmRow → Option FarmRow → FarmRow
with_lease true new (some old) = record new {
  pet_scan_lease_owner = old.pet_scan_lease_owner;
  pet_scan_lease_until = old.pet_scan_lease_until;
}
with_lease _ new _ = record new { pet_scan_lease_owner = none; pet_scan_lease_until = none }

abbrev pub write : ℕ → FarmRow → Bool → Db → Db
write id row keeps db = record db {
  farms = λ j. if j == id then some (with_lease keeps row (db.farms id)) else db.farms j;
}

unfoldable pub happen : Event → Db → Db
unfolding claim_due renew_lease push_next_pet_action
happen (claims ttl id token now) db = (claim_due ttl id token now db).1
happen (renews ttl id token now) db = (renew_lease ttl id token now db).1
happen (pushes id expected token now) db = (push_next_pet_action id expected token now db).1
happen (writes id row keeps) db = write id row keeps db

abbrev pub happen_all : List Event → Db → Db
happen_all [] db = db
happen_all (e ∷ es) db = happen_all es (happen e db)

-- The event is no new claim under the token: each claim draws a fresh one.
abbrev pub IsOther : String → Event → Type 0
IsOther token (claims ttl id t now) = str_eq t token ≡ false
IsOther token (renews ttl id t now) = Unit {0}
IsOther token (pushes id expected t now) = Unit {0}
IsOther token (writes id row keeps) = Unit {0}

happen-IsLost :
    (token : String) (id : ℕ) (e : Event) (db : Db)
    → IsOther token e
    → IsLost token id db
    → IsLost token id (happen e db)
unfolding happen
happen-IsLost token id (claims ttl f t now) db o h = ground (arith, o, h)
happen-IsLost token id (renews ttl f t now) db o h = ground (arith, h)
happen-IsLost token id (pushes f expected t now) db o h = ground (arith, h)
happen-IsLost token id (writes f row true) db o h = ground (arith, h)
happen-IsLost token id (writes f row false) db o h = ground (arith, h)

happen_all-IsLost :
    (token : String) (id : ℕ) (es : List Event) (db : Db)
    → All (IsOther token) es
    → IsLost token id db
    → IsLost token id (happen_all es db)
happen_all-IsLost token id [] db o h = h
happen_all-IsLost token id (e ∷ es) db (o, os) h =
    happen_all-IsLost token id es (happen e db) os (happen-IsLost token id e db o h)

claim-IsLost :
    (token other : String) (ttl id : ℕ) (now : Time) (db : Db) (g : FarmToScan)
    → str_eq other token ≡ false
    → (claim_due ttl id other now db).0 ≡ some g
    → IsLost token id (claim_due ttl id other now db).1
unfolding claim_due
claim-IsLost token other ttl id now db g d h = ground (arith, d, h)

renew-lost :
    (token : String) (ttl id : ℕ) (now : Time) (db : Db)
    → IsLost token id db
    → renew_lease ttl id token now db ≡ (false, db)
unfolding renew_lease
renew-lost token ttl id now db h = ground (arith, h)

-- Once another worker has claimed a farm, a worker with an earlier claim of it neither submits a
-- command nor changes a table, whatever the plots, the farm client and the clocks are, and whatever
-- claims, renewals, postponements and commits happen before it comes to the farm, as long as no
-- claim draws its token again.
pub overtaken_worker_is_inert :
    (env : Env) (key : ℕ → Time → ℕ → String) (submit : Client) (ttl : ℕ) (f g : FarmToScan)
    (other : String) (claimed_at now : Time) (es : List Event) (db : Db)
    → str_eq other f.lease_token ≡ false
    → (claim_due ttl f.farm_id other claimed_at db).0 ≡ some g
    → All (IsOther f.lease_token) es
    → process_claimed_farm env key submit ttl f now
        (happen_all es (claim_due ttl f.farm_id other claimed_at db).1)
      ≡ (nothing, happen_all es (claim_due ttl f.farm_id other claimed_at db).1)
unfolding process_claimed_farm
overtaken_worker_is_inert env key submit ttl f g other claimed_at now es db fresh claim os =
    rw (renew-lost f.lease_token ttl f.farm_id now later lost) refl
  where
    later : Db
    later = happen_all es (claim_due ttl f.farm_id other claimed_at db).1

    lost : IsLost f.lease_token f.farm_id later
    lost =
        happen_all-IsLost f.lease_token f.farm_id es (claim_due ttl f.farm_id other claimed_at db).1
          os (claim-IsLost f.lease_token other ttl f.farm_id claimed_at db g fresh claim)
