-- ===== src/Commit/FarmTx/Effects.antt =====
-- What the side effects of a farm command write: rows of `inventory_items`, and the schedule of the
-- farm's own row for the pet.
use farm_server.Base.{
  ℕ, ◌+◌, ◌-◌, ◌≤◌, ◌≡◌, refl, ◌∙◌, inl, inr, Bool, true, ◌&&◌, some, arith, ltb, Bool-cases,
  Option-cases, subst, ◌==◌, if◌then◌else◌, put,
}
use farm_server.Errors.{coded, economy_insufficient, Result, ok, err}
use farm_server.Farm.{
  Time, Command, CommandType, plant, water, harvest, purchase_seed, sell_crop, help_water,
  steal_crop, pet_auto_harvest, other,
}
use farm_server.Farm.Crops.{CropConfig, get_crop_config, crop_id_to_item_id}
use farm_server.Farm.Apply.{ApplyResult}
use farm_server.Store.{Env, Db, FarmRow, ItemType, seed_item, crop_item, quantity}
use farm_server.Store.Tx.{>>=-eq-ok, guard, guard-eq-ok}
use farm_server.Commit.Assets.{add_inventory_item, deduct_inventory_item, same_item}
use farm_server.Commit.FarmTx.{
  take_seed, credit_owner, advance_schedule, rescheduled, apply_economic_side_effects,
}

-- Everything but the inventory and the farms.
pub record KeepsRest (db db' : Db) : Type 0 where
  pub receipts : db'.receipts ≡ db.receipts
  pub outbox : db'.outbox ≡ db.outbox
  pub wallets : db'.wallets ≡ db.wallets
  pub ledger : db'.ledger ≡ db.ledger
  pub accounts : db'.accounts ≡ db.accounts
  pub active_pets : db'.active_pets ≡ db.active_pets

-- The inventory after a change of one row.
abbrev pub Moves : Db → Db → ℕ → ItemType → ℕ → ℕ → Type 0
Moves db db' user t item n =
    (u : ℕ) (s : ItemType) (i : ℕ)
    → quantity db' u s i
      ≡ (if u == user && same_item s t && i == item then n else quantity db u s i)

add-Moves :
    (user : ℕ) (t : ItemType) (item delta : ℕ) (db db' : Db) {v : Unit {0}}
    → add_inventory_item user t item delta db ≡ ok (v, db')
    → Moves db db' user t item (quantity db user t item + delta)
unfolding add_inventory_item quantity
add-Moves user t item delta db db' h u s i = ground arith

add-KeepsRest :
    (user : ℕ) (t : ItemType) (item delta : ℕ) (db db' : Db) {v : Unit {0}}
    → add_inventory_item user t item delta db ≡ ok (v, db')
    → KeepsRest db db' × (db'.farms ≡ db.farms)
unfolding add_inventory_item quantity
add-KeepsRest user t item delta db db' h = ground arith

deduct-Moves :
    (user : ℕ) (t : ItemType) (item delta : ℕ) (db db' : Db)
    → deduct_inventory_item user t item delta db ≡ ok (true, db')
    → Moves db db' user t item (quantity db user t item - delta) × (delta ≤ quantity db user t item)
unfolding deduct_inventory_item quantity
deduct-Moves user t item delta db db' h = (λ u s i. ground arith, ground arith)

deduct-KeepsRest :
    (user : ℕ) (t : ItemType) (item delta : ℕ) (db db' : Db) {b : Bool}
    → deduct_inventory_item user t item delta db ≡ ok (b, db')
    → KeepsRest db db' × (db'.farms ≡ db.farms)
unfolding deduct_inventory_item
deduct-KeepsRest user t item delta db db' h = ground arith

-- What is written beside the inventory: nothing, or the schedule in the farm's own row.
abbrev pub FarmsAfter : CommandType → Command → Time → Db → Db → Type 0
FarmsAfter pet_auto_harvest cmd now db db' =
    (row : FarmRow) × (db.farms cmd.farm_id ≡ some row)
    × (row.next_pet_action_at ≡ some cmd.pet_scheduled_at)
    × (db'.farms ≡ put cmd.farm_id (some (rescheduled now row)) db.farms)
FarmsAfter _ cmd now db db' = db'.farms ≡ db.farms

-- What a planting takes, by the configuration of its crop: nothing where there is none.
abbrev pub SeedTaken : Command → Result CropConfig → Db → Db → Type 0
SeedTaken cmd (err e) db db' = db'.inventory ≡ db.inventory
SeedTaken cmd (ok cfg) db db' =
    Moves db db' cmd.actor_user seed_item (crop_id_to_item_id cmd.crop_id)
      (quantity db cmd.actor_user seed_item (crop_id_to_item_id cmd.crop_id) - 1)
    × (1 ≤ quantity db cmd.actor_user seed_item (crop_id_to_item_id cmd.crop_id))

-- The inventory after a command of each type, by the result of `apply_cmd`.
abbrev pub Credits : Env → CommandType → Command → ApplyResult → ℕ → Db → Db → Type 0
Credits env plant cmd ar owner db db' = SeedTaken cmd (get_crop_config cmd.crop_id) db db'
Credits env harvest cmd ar owner db db' =
    Moves db db' owner crop_item (crop_id_to_item_id ar.harvested_crop_id)
      (quantity db owner crop_item (crop_id_to_item_id ar.harvested_crop_id) + ar.harvested_yield)
Credits env pet_auto_harvest cmd ar owner db db' =
    Moves db db' owner crop_item (crop_id_to_item_id ar.harvested_crop_id)
      (quantity db owner crop_item (crop_id_to_item_id ar.harvested_crop_id) + ar.harvested_yield)
Credits env steal_crop cmd ar owner db db' =
    if env.defer_remote_steal_credit owner cmd.actor_user
    then db'.inventory ≡ db.inventory
    else Moves db db' cmd.actor_user crop_item (crop_id_to_item_id ar.harvested_crop_id) (
        quantity db cmd.actor_user crop_item (crop_id_to_item_id ar.harvested_crop_id)
        + ar.stolen_amount)
Credits env _ cmd ar owner db db' = db'.inventory ≡ db.inventory

abbrev pub Effect : Env → CommandType → Command → ApplyResult → ℕ → Time → Db → Db → Type 0
Effect env t cmd ar owner now db db' =
    Credits env t cmd ar owner db db' × KeepsRest db db' × FarmsAfter t cmd now db db'

same-KeepsRest : (db : Db) → KeepsRest db db
same-KeepsRest db = record {
  receipts = refl;
  outbox = refl;
  wallets = refl;
  ledger = refl;
  accounts = refl;
  active_pets = refl;
}

take_seed-Effect :
    (cmd : Command) (r : Result CropConfig) (now : Time) (db db' : Db)
    → take_seed cmd r db ≡ ok (tt, db')
    → SeedTaken cmd r db db' × KeepsRest db db' × FarmsAfter plant cmd now db db'
unfolding take_seed
take_seed-Effect cmd (err f) now db db' h =
    subst (λ d. (d.inventory ≡ db.inventory) × KeepsRest db d × (d.farms ≡ db.farms)) (cc h)
      (refl, same-KeepsRest db, refl)
take_seed-Effect cmd (ok cfg) now db db' h =
    let item = crop_id_to_item_id cmd.crop_id in
    let (enough, mid, e, k) =
      >>=-eq-ok (deduct_inventory_item cmd.actor_user seed_item item 1)
        (λ b. guard b (coded economy_insufficient)) h in
    let (yes_enough, same) = guard-eq-ok enough (coded economy_insufficient) k in
    let deducted : deduct_inventory_item cmd.actor_user seed_item item 1 db ≡ ok (true, db') =
      cc (e, yes_enough, same) in
    let (rest, farms) = deduct-KeepsRest cmd.actor_user seed_item item 1 db db' deducted in
    (deduct-Moves cmd.actor_user seed_item item 1 db db' deducted, rest, farms)

credit_owner-Effect :
    (env : Env) (cmd : Command) (ar : ApplyResult) (owner : ℕ) (now : Time) (db db' : Db)
    → credit_owner ar owner db ≡ ok (tt, db')
    → Effect env harvest cmd ar owner now db db'
unfolding credit_owner
credit_owner-Effect env cmd ar owner now db db' h =
    let item = crop_id_to_item_id ar.harvested_crop_id in
    elim (Bool-cases (ltb 0 ar.harvested_yield)) [
      | inl some_left ↦
          let k : add_inventory_item owner crop_item item ar.harvested_yield db ≡ ok (tt, db') =
            rw some_left at h in
          let (rest, farms) = add-KeepsRest owner crop_item item ar.harvested_yield db db' k in
          (add-Moves owner crop_item item ar.harvested_yield db db' k, rest, farms)
      | inr nothing ↦
          let same : db ≡ db' = cc (rw nothing at h) in
          subst (Effect env harvest cmd ar owner now db) same
            ((λ u s i. unfold quantity in ground arith), same-KeepsRest db, refl)
    ]

advance_schedule-FarmsAfter :
    (cmd : Command) (now : Time) (db db' : Db)
    → advance_schedule cmd now db ≡ ok (tt, db')
    → FarmsAfter pet_auto_harvest cmd now db db' × KeepsRest db db' × (db'.inventory ≡ db.inventory)
unfolding advance_schedule
advance_schedule-FarmsAfter cmd now db db' h = elim (Option-cases (db.farms cmd.farm_id)) [
  | inl e ↦ absurd (ground arith)
  | inr (row, e) ↦ ((row, e, ground arith, ground arith), ground arith, ground arith)
]

pub quantity-same :
    (db db' : Db) (user : ℕ) (t : ItemType) (item : ℕ)
    → db'.inventory ≡ db.inventory
    → quantity db' user t item ≡ quantity db user t item
unfolding quantity
quantity-same db db' user t item e = cc

trans-KeepsRest : {a b c : Db} → KeepsRest a b → KeepsRest b c → KeepsRest a c
trans-KeepsRest h k = record {
  receipts = k.receipts ∙ h.receipts;
  outbox = k.outbox ∙ h.outbox;
  wallets = k.wallets ∙ h.wallets;
  ledger = k.ledger ∙ h.ledger;
  accounts = k.accounts ∙ h.accounts;
  active_pets = k.active_pets ∙ h.active_pets;
}

nothing-Effect :
    (db db' : Db)
    → db ≡ db'
    → (db'.inventory ≡ db.inventory) × KeepsRest db db' × (db'.farms ≡ db.farms)
nothing-Effect db db' e =
    subst (λ d. (d.inventory ≡ db.inventory) × KeepsRest db d × (d.farms ≡ db.farms)) e
      (refl, same-KeepsRest db, refl)

module _ (env : Env) (cmd : Command) (ar : ApplyResult) (owner : ℕ) (now : Time) (db db' : Db) where
  pet-Effect :
      apply_economic_side_effects env pet_auto_harvest cmd ar owner now db ≡ ok (tt, db')
      → Effect env pet_auto_harvest cmd ar owner now db db'
  unfolding apply_economic_side_effects
  pet-Effect h =
      let (u, mid, e, k) = >>=-eq-ok (credit_owner ar owner) (λ _. advance_schedule cmd now) h in
      let (credits, rest, farms) = credit_owner-Effect env cmd ar owner now db mid e in
      let (schedule, rest', same) = advance_schedule-FarmsAfter cmd now mid db' k in
      (
        (λ v s i. quantity-same mid db' v s i same ∙ credits v s i),
        trans-KeepsRest rest rest',
        (schedule.0, cc (schedule.1, farms), schedule.2, cc (schedule.3, farms)),
      )

  steal-Effect :
      apply_economic_side_effects env steal_crop cmd ar owner now db ≡ ok (tt, db')
      → Effect env steal_crop cmd ar owner now db db'
  unfolding apply_economic_side_effects
  steal-Effect h =
      let item = crop_id_to_item_id ar.harvested_crop_id in
      elim (Bool-cases (env.defer_remote_steal_credit owner cmd.actor_user)) [
        | inl deferred ↦ rw deferred (nothing-Effect db db' (cc (rw deferred at h)))
        | inr here ↦
            let k : add_inventory_item cmd.actor_user crop_item item ar.stolen_amount db
                ≡ ok (tt, db') =
              rw here at h in
            let (rest, farms) =
              add-KeepsRest cmd.actor_user crop_item item ar.stolen_amount db db' k in
            rw here (add-Moves cmd.actor_user crop_item item ar.stolen_amount db db' k, rest, farms)
      ]

  -- The side effects of each command, by its type.
  pub side_effects-Effect :
      (t : CommandType)
      → apply_economic_side_effects env t cmd ar owner now db ≡ ok (tt, db')
      → Effect env t cmd ar owner now db db'
  unfolding apply_economic_side_effects
  side_effects-Effect plant h = take_seed-Effect cmd (get_crop_config cmd.crop_id) now db db' h
  side_effects-Effect harvest h = credit_owner-Effect env cmd ar owner now db db' h
  side_effects-Effect pet_auto_harvest h = pet-Effect h
  side_effects-Effect steal_crop h = steal-Effect h
  side_effects-Effect water h = nothing-Effect db db' (cc h)
  side_effects-Effect help_water h = nothing-Effect db db' (cc h)
  side_effects-Effect purchase_seed h = nothing-Effect db db' (cc h)
  side_effects-Effect sell_crop h = nothing-Effect db db' (cc h)
  side_effects-Effect other h = nothing-Effect db db' (cc h)
