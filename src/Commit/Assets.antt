-- ===== src/Commit/Assets.antt =====
-- The statements of the committer on wallets, inventory and the ledger of purchases and sales
-- (server/internal/farm/infrastructure/committer_mysql.go).
use farm_server.Base.{
  ℕ, ◌+◌, ◌-◌, Bool, true, false, ◌&&◌, String, List, [], ◌∷◌, Option, none, some, ltb, ◌==◌,
  if◌then◌else◌, str_eq,
}
use farm_server.Errors.{
  ok, Error, coded, mysql, plain, internal, social_not_friend, pet_not_owned, pet_auto_disabled,
  farm_version_conflict,
}
use farm_server.Farm.{max_int64, ℤ, CommitResult}
use farm_server.Store.{
  Env, ItemType, seed_item, crop_item, BizType, shop_purchase, farm_sell, cross_shard_steal,
  FarmRow, LedgerRow, DisplayName, named, id_text, EventHead, Payload, farm_planted, farm_harvested,
  farm_watered, farm_stolen, OutboxRow, Db,
}
use farm_server.Store.Tx.{Tx, ◌>>◌, pure, fail, modify}
use farm_server.Commit.Rows.{duplicate_key, out_of_range, check_violated, null_column, empty_patch}

-- `loadWalletForUpdate`
unfoldable pub load_wallet_for_update : ℕ → Tx ℕ
load_wallet_for_update user db = elim (db.wallets user) [
  | none ↦ fail (coded internal) db
  | some balance ↦ pure balance db
]

-- An UPDATE of a row that is not there changes nothing.
abbrev pub replaced : ℕ → Option ℕ → Option ℕ
replaced n none = none
replaced n (some old) = some n

-- `setWalletBalance`. The new balance is an `int64`: beyond the largest one it has wrapped to a
-- negative number, which `ck_wallet_coin_nonnegative` rejects.
unfoldable pub set_wallet_balance : ℕ → ℕ → Tx (Unit {0})
set_wallet_balance user balance db =
    if ltb max_int64 balance
    then fail check_violated db
    else modify
        (λ d. record d {
          wallets = λ u. if u == user then replaced balance (d.wallets u) else d.wallets u;
        })
        db

abbrev pub same_item : ItemType → ItemType → Bool
same_item seed_item seed_item = true
same_item crop_item crop_item = true
same_item _ _ = false

-- One row of `inventory_items` set to a quantity.
abbrev pub set_item : ℕ → ItemType → ℕ → ℕ → Db → Db
set_item user t item n d = record d {
  inventory =
      λ u s i. if u == user && same_item s t && i == item then some n else d.inventory u s i;
}

-- `addInventoryItem`: the sum must fit the BIGINT column.
unfoldable pub add_inventory_item : ℕ → ItemType → ℕ → ℕ → Tx (Unit {0})
add_inventory_item user t item delta db =
    if ltb max_int64 (farm_server.Store.quantity db user t item + delta)
    then fail out_of_range db
    else modify (set_item user t item (farm_server.Store.quantity db user t item + delta)) db

-- `deductInventoryItem`: whether a row had enough.
unfoldable pub deduct_inventory_item : ℕ → ItemType → ℕ → ℕ → Tx Bool
deduct_inventory_item user t item delta db = elim (db.inventory user t item) [
  | none ↦ pure false db
  | some n ↦ if ltb n delta then pure false db else ok_after n
]
  where
    ok_after : ℕ → farm_server.Errors.Result (Bool × Db)
    ok_after n = (modify (set_item user t item (n - delta)) >> pure true) db

abbrev pub same_biz : BizType → BizType → Bool
same_biz shop_purchase shop_purchase = true
same_biz farm_sell farm_sell = true
same_biz cross_shard_steal cross_shard_steal = true
same_biz _ _ = false

-- The balance after the row with this key, the newest row first.
unfoldable pub find_row : ℕ → BizType → String → List LedgerRow → Option ℕ
find_row user t id [] = none
find_row user t id (r ∷ rs) =
    if r.user_id == user && same_biz r.biz_type t && str_eq r.biz_id id
    then some r.balance_after
    else find_row user t id rs

-- `checkEconomyTransaction`. No row has a key that the column does not take.
unfoldable pub check_economy_transaction : Env → ℕ → BizType → String → Db → Option CommitResult
unfolding empty_patch
check_economy_transaction env user t cmd_id db = elim (env.unhex cmd_id) [
  | none ↦ none
  | some id ↦ elim (find_row user t id db.ledger) [
    | none ↦ none
    | some balance ↦ some (record {
      new_version = 0;
      patch = empty_patch;
      event_id = "";
      replayed = true;
      coin_balance = balance;
    })
  ]
]

add_row : LedgerRow → Option ℕ → Tx (Unit {0})
add_row row none = modify (λ d. record d { ledger = row ∷ d.ledger })
add_row row (some old) = fail duplicate_key

-- `insertEconomyTransaction`, under the unique key (user_id, biz_type, biz_id).
unfoldable pub insert_economy_transaction : Env → ℕ → BizType → String → ℕ → ℤ → ℕ → Tx (Unit {0})
unfolding add_row
insert_economy_transaction env user t cmd_id before delta after db = elim (env.unhex cmd_id) [
  | none ↦ fail null_column db
  | some id ↦
      add_row
        (record {
          user_id = user;
          biz_type = t;
          biz_id = id;
          balance_before = before;
          balance_delta = delta;
          balance_after = after;
        })
        (find_row user t id db.ledger) db
]
