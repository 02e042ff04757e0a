-- ===== src/Pet.antt =====
-- The scanner that harvests for pets (server/internal/worker/pet_scanner.go). Which due farms one
-- claim takes (`ORDER BY`, `LIMIT`, `SKIP LOCKED`), their lease tokens, the farm client and the
-- text of a command's key come from outside; no statement fails.
pub mod Lease
pub mod Ownership
pub mod Switch
pub mod Schedule
pub mod Rest
pub mod Purchase
use farm_server.Base.{
  ℕ, ◌+◌, ◌*◌, Bool, true, false, ◌&&◌, not, List, [], ◌∷◌, Option, none, some, String, str_eq, ltb,
  leb, ◌==◌, if◌then◌else◌, put, min,
}
use farm_server.Farm.{Time, second, zero_time, PlotStatus, growing, Command, pet_auto_harvest, pos}
use farm_server.Store.{Env, PlotJson, FarmRow, Db}

-- `farmToScan`
pub record FarmToScan : Type 0 where
  pub farm_id : ℕ
  pub owner_id : ℕ
  pub body : List (String × PlotJson)
  pub next_action_at : Time
  pub lease_token : String

-- What the scanner counts for a farm.
pub data ScanOutcome : Type 0 where
  nothing submit_failed rescheduled harvested : ScanOutcome

abbrev pub is_past : Time → Option Time → Bool
is_past now none = false
is_past now (some t) = leb t now

abbrev pub is_free : Time → Option Time → Bool
is_free now none = true
is_free now (some t) = leb t now

abbrev pub is_enabled : Option Bool → Bool
is_enabled none = false
is_enabled (some b) = b

-- The WHERE clause of the claim.
abbrev pub is_due : Time → Db → FarmRow → Bool
is_due now db row =
    is_enabled (db.active_pets row.owner_user_id)
    && is_past now row.next_pet_action_at
    && is_free now row.pet_scan_lease_until

abbrev pub set_row : ℕ → FarmRow → Db → Db
set_row id row db = record db { farms = put id (some row) db.farms }

abbrev pub time_of : Option Time → Time
time_of none = zero_time
time_of (some t) = t

abbrev pub leased : String → Time → FarmRow → FarmRow
leased token until row = record row {
  pet_scan_lease_owner = some token;
  pet_scan_lease_until = some until;
}

abbrev pub claim_row : ℕ → ℕ → String → Time → Option FarmRow → Db → Option FarmToScan × Db
claim_row ttl id token now none db = (none, db)
claim_row ttl id token now (some row) db =
    if is_due now db row
    then (
      some (record {
        farm_id = id;
        owner_id = row.owner_user_id;
        body = row.body;
        next_action_at = time_of row.next_pet_action_at;
        lease_token = token;
      }),
      set_row id (leased token (now + ttl) row) db,
    )
    else (none, db)

-- `claimDue` for one farm.
unfoldable pub claim_due : ℕ → ℕ → String → Time → Db → Option FarmToScan × Db
claim_due ttl id token now db = claim_row ttl id token now (db.farms id) db

abbrev pub owns : String → Option String → Bool
owns token none = false
owns token (some owner) = str_eq owner token

abbrev pub is_live : Time → Option Time → Bool
is_live now none = false
is_live now (some t) = ltb now t

abbrev pub holds_lease : String → Time → FarmRow → Bool
holds_lease token now row =
    owns token row.pet_scan_lease_owner && is_live now row.pet_scan_lease_until

abbrev pub renew_row : ℕ → ℕ → String → Time → Option FarmRow → Db → Bool × Db
renew_row ttl id token now none db = (false, db)
renew_row ttl id token now (some row) db =
    if holds_lease token now row
    then (true, set_row id (record row { pet_scan_lease_until = some (now + ttl) }) db)
    else (false, db)

-- `renewLease`: whether a row was changed.
unfoldable pub renew_lease : ℕ → ℕ → String → Time → Db → Bool × Db
renew_lease ttl id token now db = renew_row ttl id token now (db.farms id) db

abbrev pub is_at : Time → Option Time → Bool
is_at t none = false
is_at t (some u) = u == t

abbrev pub push_row : ℕ → Time → String → Time → Option FarmRow → Db → Bool × Db
push_row id expected token now none db = (false, db)
push_row id expected token now (some row) db =
    if is_at expected row.next_pet_action_at && holds_lease token now row
    then (
      true,
      set_row id
          (record row {
            next_pet_action_at = some (now + 30 * second);
            pet_scan_lease_owner = none;
            pet_scan_lease_until = none;
          })
          db,
    )
    else (false, db)

-- `pushNextPetAction`
unfoldable pub push_next_pet_action : ℕ → Time → String → Time → Db → Bool × Db
push_next_pet_action id expected token now db = push_row id expected token now (db.farms id) db

abbrev pub is_growing : PlotStatus → Bool
is_growing growing = true
is_growing _ = false

abbrev pub is_ripe : Time → PlotJson → Bool
is_ripe now p = is_growing p.status && not (p.mature_at == zero_time) && leb p.mature_at now

abbrev pub least : Option ℕ → Option ℕ → Option ℕ
least none best = best
least (some id) none = some id
least (some id) (some best) = some (min id best)

-- `findSmallestMaturePlotChecked`: keys that are no numbers are passed over.
unfoldable pub find_smallest_mature_plot : Env → Time → List (String × PlotJson) → Option ℕ
find_smallest_mature_plot env now [] = none
find_smallest_mature_plot env now ((key, p) ∷ plots) =
    let rest = find_smallest_mature_plot env now plots in
    if is_ripe now p then least (env.parse_int key) rest else rest

abbrev pub Client : Type 0
Client = Command → Db → Bool × Db

unfoldable pub pet_command : (ℕ → Time → ℕ → String) → FarmToScan → ℕ → Command
pet_command key f plot = record {
  cmd_id = key f.farm_id f.next_action_at plot;
  farm_id = f.farm_id;
  actor_user = f.owner_id;
  type = pet_auto_harvest;
  plot_id = plot;
  crop_id = "";
  quantity = pos 0;
  base_version = 0;
  route_epoch = 0;
  pet_scheduled_at = f.next_action_at;
}

abbrev submitted : Bool × Db → ScanOutcome × Db
submitted (ok, db) = (if ok then harvested else submit_failed, db)

abbrev moved : Bool × Db → ScanOutcome × Db
moved (ok, db) = (if ok then rescheduled else nothing, db)

abbrev pub act :
    (ℕ → Time → ℕ → String) → Client → FarmToScan → Time → Option ℕ → Db → ScanOutcome × Db
act key submit f now none db =
    moved (push_next_pet_action f.farm_id f.next_action_at f.lease_token now db)
act key submit f now (some plot) db = submitted (submit (pet_command key f plot) db)

abbrev pub after_renewal :
    Env → (ℕ → Time → ℕ → String) → Client → FarmToScan → Time → Bool × Db → ScanOutcome × Db
after_renewal env key submit f now (false, db) = (nothing, db)
after_renewal env key submit f now (true, db) =
    act key submit f now (find_smallest_mature_plot env now f.body) db

-- `processClaimedFarm`
unfoldable pub process_claimed_farm :
    Env → (ℕ → Time → ℕ → String) → Client → ℕ → FarmToScan → Time → Db → ScanOutcome × Db
unfolding renew_lease push_next_pet_action find_smallest_mature_plot pet_command
process_claimed_farm env key submit ttl f now db =
    after_renewal env key submit f now (renew_lease ttl f.farm_id f.lease_token now db)
