-- ===== src/Tests/Pets.antt =====
-- The pet scanner at a concrete input.
use farm_server.Base.{
  ℕ, ◌+◌, ◌*◌, ◌≡◌, ◌≢◌, refl, arith, Bool, true, false, String, Option, some, none, List, [], ◌∷◌,
  ◌==◌, if◌then◌else◌,
}
use farm_server.Farm.{Time, zero_time, minute, second, Command, CommitResult}
use farm_server.Store.{Env, FarmRow, Db}
use farm_server.Store.Json.{marshal_plots}
use farm_server.Pet.{FarmToScan, nothing, Client, claim_due, process_claimed_farm}
use farm_server.Pet.Lease.{Event, renews, happen_all, overtaken_worker_is_inert}
use farm_server.Errors.{Error, ok, err, coded, farm_not_found}
use farm_server.Errors.Retry.{value, value_from, after_attempt}
use farm_server.Store.Tx.{Fault, atomically, interrupted}
use farm_server.Commit.FarmTx.{commit_locked, is_pet}
use farm_server.Pet.Ownership.{
  buy_pet, buy_pet_once, set_auto_harvest, set_auto_harvest_once, lock_farm, check_no_pet,
  take_coins, next_pet_action_at, schedule, switch, reschedule, is_rescheduled,
}
use farm_server.Pet.Schedule.{
  Change, buys, switches, claims, Agrees, apply_all, schedule_follows_switch,
}
use farm_server.Pet.Rest.{switched_off_pet_rests}
use farm_server.Pet.Purchase.{IsPaid, pet_is_bought_once}
use farm_server.Tests.Data.{test_env, test_db, now, plots}

-- Farm 1 is due, and the lease of the first worker has run out.
abbrev due_row : FarmRow
due_row = record {
  owner_user_id = 1;
  version = 3;
  body = marshal_plots test_env plots;
  route_epoch = 5;
  next_pet_action_at = some (zero_time + 903 * minute);
  pet_scan_lease_owner = some "first";
  pet_scan_lease_until = some (zero_time + 904 * minute);
}

abbrev due_db : Db
due_db = record test_db { farms = λ id. some due_row; active_pets = λ u. some true }

abbrev overtaken : FarmToScan
overtaken = record {
  farm_id = 1;
  owner_id = 1;
  body = due_row.body;
  next_action_at = zero_time + 903 * minute;
  lease_token = "first";
}

abbrev second_claim : FarmToScan
second_claim = record overtaken { lease_token = "second" }

abbrev key : ℕ → Time → ℕ → String
key farm at plot = "key"

abbrev submit : Client
submit cmd db = (true, db)

abbrev meanwhile : List Event
meanwhile =
    renews 15 1 "second" (now + second)
    ∷ farm_server.Pet.Lease.claims 15 2 "third" (now + second)
    ∷ []

abbrev after_claim : Db
after_claim = (claim_due 15 1 "second" now due_db).1

overtaken_worker_is_inert_example :
    process_claimed_farm test_env key submit 15 overtaken
      (now + 2 * second)
      (happen_all meanwhile after_claim)
    ≡ (nothing, happen_all meanwhile after_claim)
unfolding claim_due
overtaken_worker_is_inert_example =
    overtaken_worker_is_inert test_env key submit 15 overtaken second_claim "second" now
      (now + 2 * second) meanwhile due_db refl refl (tt, (refl, tt))

-- Player 1 has a farm, five hundred coins and no pet.
abbrev no_pet : Db
no_pet = record test_db {
  farms = λ i.
      if i == 1
      then some (record due_row {
        next_pet_action_at = none;
        pet_scan_lease_owner = none;
        pet_scan_lease_until = none;
      })
      else none;
}

abbrev calm : ℕ → Option Fault
calm k = none

abbrev patient : ℕ → Bool
patient k = true

abbrev draw : ℕ → Option ℕ
draw k = some 2

abbrev clock : ℕ → Time
clock k = now

abbrev life : List Change
life =
    buys calm patient draw clock 1
    ∷ claims 15 1 "first" (now + 40 * second)
    ∷ switches calm patient draw clock 1 false
    ∷ []

schedule_follows_switch_example : Agrees (apply_all life no_pet) 1
schedule_follows_switch_example = schedule_follows_switch life no_pet (λ u. ground arith) 1

abbrev with_pet : Db
with_pet = (buy_pet calm patient draw clock 1 no_pet).1

with_pet-ok : buy_pet calm patient draw clock 1 no_pet ≡ (ok tt, with_pet)
unfolding buy_pet buy_pet_once lock_farm check_no_pet take_coins next_pet_action_at schedule value
    value_from after_attempt atomically interrupted
with_pet-ok = refl

-- The pet is switched off and on again.
abbrev rest : List Change
rest = switches calm patient draw clock 1 false ∷ switches calm patient draw clock 1 true ∷ []

pet_is_bought_once_example :
    IsPaid 1 draw clock no_pet with_pet
    × ((e : Error) × (buy_pet calm patient draw clock 1 (apply_all rest with_pet)
          ≡ (err e, apply_all rest with_pet)))
pet_is_bought_once_example =
    pet_is_bought_once calm calm patient patient draw draw clock clock 1 no_pet with_pet rest
      with_pet-ok

abbrev switched_off : Db
switched_off = (set_auto_harvest calm patient draw clock 1 false with_pet).1

switched_off-ok : set_auto_harvest calm patient draw clock 1 false with_pet ≡ (ok tt, switched_off)
unfolding set_auto_harvest set_auto_harvest_once buy_pet buy_pet_once lock_farm check_no_pet
    take_coins next_pet_action_at schedule switch reschedule is_rescheduled value value_from
    after_attempt atomically interrupted
switched_off-ok = refl

-- A second switch off is answered as if the player had no farm.
switched_off_again :
    set_auto_harvest_once (some 2) now 1 false switched_off ≡ err (coded farm_not_found)
unfolding set_auto_harvest set_auto_harvest_once buy_pet buy_pet_once lock_farm check_no_pet
    take_coins next_pet_action_at schedule switch reschedule is_rescheduled value value_from
    after_attempt atomically interrupted
switched_off_again = refl

switched_off_pet_rests_example :
    ((ttl : ℕ) (token : String) (at : Time)
      → claim_due ttl 1 token at (apply_all (buys calm patient draw clock 1 ∷ []) switched_off)
        ≡ (none, apply_all (buys calm patient draw clock 1 ∷ []) switched_off))
    × ((env : Env) (event_id : String) (at : Time) (cmd : Command) (res : CommitResult) (d' : Db)
        → cmd.farm_id ≡ 1
        → is_pet cmd.type ≡ true
        → commit_locked env event_id at cmd
            (apply_all (buys calm patient draw clock 1 ∷ []) switched_off)
          ≢ ok (res, d'))
switched_off_pet_rests_example =
    switched_off_pet_rests calm patient draw clock 1 with_pet switched_off
      (buys calm patient draw clock 1 ∷ []) switched_off-ok (tt, tt)
