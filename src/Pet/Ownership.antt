-- ===== src/Pet/Ownership.antt =====
-- The purchase of a pet and its switch (server/internal/pet/infrastructure/mysql_pet_service.go). No
-- code writes another status than ACTIVE, so that a row of `player_pets` is an entry of
-- `active_pets`. The drawn seconds, or that the draw failed, come from outside.
use farm_server.Base.{
  ℕ, ◌+◌, ◌*◌, ◌-◌, Bool, true, false, not, ◌&&◌, ◌||◌, Option, none, some, ltb, ◌==◌,
  if◌then◌else◌, put,
}
use farm_server.Errors.{
  coded, plain, farm_not_found, pet_already_equipped, pet_not_owned, economy_insufficient,
  is_transient, Result,
}
use farm_server.Errors.Retry.{value}
use farm_server.Farm.{Time, second}
use farm_server.Store.{FarmRow, Db}
use farm_server.Store.Tx.{Tx, ◌>>=◌, ◌>>◌, pure, fail, modify, Fault, interrupted}

abbrev pub pet_price : ℕ
pet_price = 200

-- `SELECT 1 FROM farm_snapshots ... FOR UPDATE`
unfoldable pub lock_farm : ℕ → Tx (Unit {0})
lock_farm user db = elim (db.farms user) [
  | none ↦ fail (coded farm_not_found) db
  | some row ↦ pure tt db
]

unfoldable pub check_no_pet : ℕ → Tx (Unit {0})
check_no_pet user db = elim (db.active_pets user) [
  | none ↦ pure tt db
  | some enabled ↦ fail (coded pet_already_equipped) db
]

unfoldable pub take_coins : ℕ → ℕ → Tx (Unit {0})
take_coins user price db = elim (db.wallets user) [
  | none ↦ fail plain db
  | some balance ↦
      if ltb balance price
      then fail (coded economy_insufficient) db
      else modify (λ d. record d { wallets = put user (some (balance - price)) d.wallets }) db
]

abbrev pub set_pet : ℕ → Bool → Db → Db
set_pet user enabled db = record db { active_pets = put user (some enabled) db.active_pets }

-- `nextPetActionAt`, with the drawn number of seconds.
unfoldable pub next_pet_action_at : Option ℕ → Time → Tx Time
next_pet_action_at none now = fail plain
next_pet_action_at (some jitter) now = pure (now + 30 * second + jitter * second)

abbrev pub scheduled : Option Time → FarmRow → FarmRow
scheduled next row = record row {
  next_pet_action_at = next;
  pet_scan_lease_owner = none;
  pet_scan_lease_until = none;
}

abbrev pub schedule_row : ℕ → Option Time → Option FarmRow → Db → Db
schedule_row user next none db = db
schedule_row user next (some row) db = record db {
  farms = put user (some (scheduled next row)) db.farms;
}

unfoldable pub schedule : ℕ → Option Time → Db → Db
schedule user next db = schedule_row user next (db.farms user) db

-- `buyPetOnce`
unfoldable pub buy_pet_once : Option ℕ → Time → ℕ → Tx (Unit {0})
buy_pet_once jitter now user = do
  lock_farm user
  check_no_pet user
  take_coins user pet_price
  modify (set_pet user true)
  next ← next_pet_action_at jitter now
  modify (schedule user (some next))

abbrev is_time : Option Time → Option Time → Bool
is_time none none = true
is_time (some t) (some u) = t == u
is_time _ _ = false

abbrev pub is_some : {A : Type 0} → Option A → Bool
is_some none = false
is_some (some a) = true

-- `RowsAffected` of the schedule's UPDATE: the driver counts the rows that change, unless the
-- connection asks for those found, which no connection of the repository does.
unfoldable pub is_rescheduled : Option Time → Option FarmRow → Bool
is_rescheduled next none = false
is_rescheduled next (some row) =
    not (is_time next row.next_pet_action_at)
    || is_some row.pet_scan_lease_owner
    || is_some row.pet_scan_lease_until

unfoldable pub reschedule : ℕ → Option Time → Tx (Unit {0})
reschedule user next db =
    if is_rescheduled next (db.farms user)
    then modify (schedule user next) db
    else fail (coded farm_not_found) db

abbrev pub next_if : Bool → Option ℕ → Time → Tx (Option Time)
next_if true jitter now = do next ← next_pet_action_at jitter now; pure (some next)
next_if false jitter now = pure none

-- The switch of an owned pet; one that is on already stays as it is.
unfoldable pub switch : Option ℕ → Time → ℕ → Bool → Option Bool → Tx (Unit {0})
switch jitter now user enabled none = fail (coded pet_not_owned)
switch jitter now user enabled (some current) =
    if enabled && current
    then pure tt
    else modify (set_pet user enabled) >> (next_if enabled jitter now >>= reschedule user)

-- `setAutoHarvestOnce`
unfoldable pub set_auto_harvest_once : Option ℕ → Time → ℕ → Bool → Tx (Unit {0})
set_auto_harvest_once jitter now user enabled = do
  lock_farm user
  λ db. switch jitter now user enabled (db.active_pets user) db

-- `BuyPet` and `SetAutoHarvest`; attempt `k` meets the fault, the draw and the time of its number.
unfoldable pub buy_pet :
    (ℕ → Option Fault) → (ℕ → Bool) → (ℕ → Option ℕ) → (ℕ → Time) → ℕ → Db → Result (Unit {0}) × Db
buy_pet faults wait jitter clock user =
    value wait is_transient (λ k. interrupted (faults k) (buy_pet_once (jitter k) (clock k) user))

unfoldable pub set_auto_harvest :
    (ℕ → Option Fault)
    → (ℕ → Bool)
    → (ℕ → Option ℕ)
    → (ℕ → Time)
    → ℕ
    → Bool
    → Db
    → Result (Unit {0}) × Db
set_auto_harvest faults wait jitter clock user enabled =
    value wait is_transient
      (λ k. interrupted (faults k) (set_auto_harvest_once (jitter k) (clock k) user enabled))

-- `GetStatus`: whether there is a pet, and whether it is switched on.
unfoldable pub get_status : ℕ → Db → Bool × Bool
get_status user db = elim (db.active_pets user) [
  | none ↦ (false, false)
  | some enabled ↦ (true, enabled)
]
