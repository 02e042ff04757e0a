-- ===== src/Commit/EconomyTx/Trade.antt =====
-- What a purchase or a sale does to wallet, inventory and ledger.
use farm_server.Base.{
  ℕ, ◌+◌, ◌-◌, ◌*◌, ◌≤◌, ◌≡◌, true, String, none, some, ◌∷◌, arith, if◌then◌else◌, ◌==◌, leb, subst,
  sym, ap, ◌∙◌,
}
use farm_server.Errors.{ok, coded, economy_insufficient}
use farm_server.Farm.{max_int64, pos, ℤ, Command}
use farm_server.Farm.Crops.{CropConfig, crop_id_to_item_id}
use farm_server.Store.{
  Env, Db, ItemType, seed_item, crop_item, quantity, LedgerRow, BizType, shop_purchase, farm_sell,
}
use farm_server.Store.Tx.{Tx, ◌>>◌, >>=-eq-ok, guard->>-eq-ok, pure}
use farm_server.Commit.Assets.{
  replaced, set_item, load_wallet_for_update, set_wallet_balance, add_inventory_item,
  deduct_inventory_item, insert_economy_transaction, find_row,
}
use farm_server.Commit.EconomyTx.{negative, book, buy, purchase}

pub load_wallet-eq-ok :
    (user : ℕ) (db db' : Db) (n : ℕ)
    → load_wallet_for_update user db ≡ ok (n, db')
    → (db.wallets user ≡ some n) × (db' ≡ db)
unfolding load_wallet_for_update
load_wallet-eq-ok user db db' n h = ground arith

-- The tables with one wallet set.
abbrev pub wallet_set : ℕ → ℕ → Db → Db
wallet_set user n d = record d {
  wallets = λ u. if u == user then replaced n (d.wallets u) else d.wallets u;
}

pub set_wallet-eq-ok :
    (user n : ℕ) (db db' : Db) (u : Unit {0})
    → set_wallet_balance user n db ≡ ok (u, db')
    → (db' ≡ wallet_set user n db) × (n ≤ max_int64)
unfolding set_wallet_balance
set_wallet-eq-ok user n db db' u h = ground arith

pub add_inventory-eq-ok :
    (user : ℕ) (t : ItemType) (item n : ℕ) (db db' : Db) (u : Unit {0})
    → add_inventory_item user t item n db ≡ ok (u, db')
    → (db' ≡ set_item user t item (quantity db user t item + n) db)
      × (quantity db user t item + n ≤ max_int64)
unfolding add_inventory_item
add_inventory-eq-ok user t item n db db' u h = ground arith

pub deduct-eq-ok :
    (user : ℕ) (t : ItemType) (item n : ℕ) (db db' : Db)
    → deduct_inventory_item user t item n db ≡ ok (true, db')
    → (db' ≡ set_item user t item (quantity db user t item - n) db) × (n ≤ quantity db user t item)
unfolding deduct_inventory_item quantity
deduct-eq-ok user t item n db db' h = ground arith

pub insert_economy-eq-ok :
    (env : Env) (user : ℕ) (t : BizType) (cmd_id : String) (before : ℕ) (delta : ℤ) (after : ℕ)
    (db db' : Db) (u : Unit {0})
    → insert_economy_transaction env user t cmd_id before delta after db ≡ ok (u, db')
    → (id : String) × (env.unhex cmd_id ≡ some id)
      × (find_row user t id db.ledger ≡ none)
      × (db' ≡ record db {
        ledger =
            record {
              user_id = user;
              biz_type = t;
              biz_id = id;
              balance_before = before;
              balance_delta = delta;
              balance_after = after;
            }
            ∷ db.ledger;
      })
unfolding insert_economy_transaction
insert_economy-eq-ok env user t cmd_id before delta after db db' u h = ground arith

-- The row that a trade writes.
abbrev pub trade_row : ℕ → BizType → String → ℕ → ℤ → ℕ → LedgerRow
trade_row user t id before delta after = record {
  user_id = user;
  biz_type = t;
  biz_id = id;
  balance_before = before;
  balance_delta = delta;
  balance_after = after;
}

abbrev pub booked : LedgerRow → Db → Db
booked row d = record d { ledger = row ∷ d.ledger }

-- The tables after a trade: one wallet, one item and one new row of the ledger.
abbrev pub after_trade : ℕ → ℕ → ItemType → ℕ → ℕ → LedgerRow → Db → Db
after_trade user balance t item n row d =
    record (set_item user t item n (wallet_set user balance d)) { ledger = row ∷ d.ledger }

-- What a purchase of `qty` seeds does; `n` is the new balance.
pub record Bought (env : Env) (cmd : Command) (qty : ℕ) (cfg : CropConfig) (db db' : Db) (n : ℕ)
    : Type 0 where
  pub balance : ℕ
  pub id : String
  pub wallet : db.wallets cmd.actor_user ≡ some balance
  pub paid : n + cfg.seed_price * qty ≡ balance
  pub fits : quantity db cmd.actor_user seed_item (crop_id_to_item_id cmd.crop_id) + qty ≤ max_int64
  pub key : env.unhex cmd.cmd_id ≡ some id
  pub fresh : find_row cmd.actor_user shop_purchase id db.ledger ≡ none
  pub tables :
      db'
      ≡ after_trade cmd.actor_user n seed_item
          (crop_id_to_item_id cmd.crop_id)
          (quantity db cmd.actor_user seed_item (crop_id_to_item_id cmd.crop_id) + qty)
          (trade_row cmd.actor_user shop_purchase id balance (negative (cfg.seed_price * qty)) n)
          db

-- What a sale of `qty` crops does.
pub record Sold (env : Env) (cmd : Command) (qty : ℕ) (cfg : CropConfig) (db db' : Db) (n : ℕ)
    : Type 0 where
  pub balance : ℕ
  pub id : String
  pub wallet : db.wallets cmd.actor_user ≡ some balance
  pub earned : n ≡ balance + cfg.sell_price * qty
  pub fits : n ≤ max_int64
  pub stock : qty ≤ quantity db cmd.actor_user crop_item (crop_id_to_item_id cmd.crop_id)
  pub key : env.unhex cmd.cmd_id ≡ some id
  pub fresh : find_row cmd.actor_user farm_sell id db.ledger ≡ none
  pub tables :
      db'
      ≡ after_trade cmd.actor_user n crop_item
          (crop_id_to_item_id cmd.crop_id)
          (quantity db cmd.actor_user crop_item (crop_id_to_item_id cmd.crop_id) - qty)
          (trade_row cmd.actor_user farm_sell id balance (pos (cfg.sell_price * qty)) n)
          db

pub book-eq-ok :
    (env : Env) (cmd : Command) (t : BizType) (before : ℕ) (delta : ℤ) (after : ℕ) (db db' : Db)
    (n : ℕ)
    → book env cmd t before delta after db ≡ ok (n, db')
    → (id : String) × (n ≡ after)
      × (env.unhex cmd.cmd_id ≡ some id)
      × (find_row cmd.actor_user t id db.ledger ≡ none)
      × (db' ≡ record db { ledger = trade_row cmd.actor_user t id before delta after ∷ db.ledger })
unfolding book
book-eq-ok env cmd t before delta after db db' n h =
    let (u, mid, first, second) =
      >>=-eq-ok (insert_economy_transaction env cmd.actor_user t cmd.cmd_id before delta after)
        (λ _. pure after) h in
    let (id, key, fresh, tables) =
      insert_economy-eq-ok env cmd.actor_user t cmd.cmd_id before delta after db mid u first in
    (id, cc second, key, fresh, cc (second, tables))

buy-Bought :
    (env : Env) (cmd : Command) (qty : ℕ) (cfg : CropConfig) (balance : ℕ) (db db' : Db) (n : ℕ)
    → db.wallets cmd.actor_user ≡ some balance
    → buy env cmd qty cfg balance db ≡ ok (n, db')
    → Bought env cmd qty cfg db db' n
unfolding buy quantity
buy-Bought env cmd qty cfg balance db db' n wallet h =
    let price = cfg.seed_price * qty in
    let user = cmd.actor_user in
    let item = crop_id_to_item_id cmd.crop_id in
    let rest : Tx ℕ = book env cmd shop_purchase balance (negative price) (balance - price) in
    let (enough, h1) =
      guard->>-eq-ok (leb price balance) (coded economy_insufficient)
        (set_wallet_balance user (balance - price)
          >> (add_inventory_item user seed_item item qty >> rest))
        h in
    let (u1, db1, paid, h2) =
      >>=-eq-ok (set_wallet_balance user (balance - price))
        (λ _. add_inventory_item user seed_item item qty >> rest) h1 in
    let (u2, db2, added, h3) =
      >>=-eq-ok (add_inventory_item user seed_item item qty) (λ _. rest) h2 in
    let (t1, small) = set_wallet-eq-ok user (balance - price) db db1 u1 paid in
    let (t2, fits) = add_inventory-eq-ok user seed_item item qty db1 db2 u2 added in
    let (id, new, key, fresh, t3) =
      book-eq-ok env cmd shop_purchase balance (negative price) (balance - price) db2 db' n h3 in
    let count : Db → ℕ = λ d. quantity d user seed_item item in
    let item_set : Db → Db = λ d. set_item user seed_item item (count d + qty) d in
    let t2' : db2 ≡ item_set (wallet_set user (balance - price) db) = t2 ∙ ap item_set t1 in
    let row : LedgerRow =
      trade_row user shop_purchase id balance (negative price) (balance - price) in
    record {
      balance = balance;
      id = id;
      wallet = wallet;
      paid = ground arith;
      fits = subst (λ d. count d + qty ≤ max_int64) t1 fits;
      key = key;
      fresh = subst (λ d. find_row user shop_purchase id d.ledger ≡ none) t2' fresh;
      tables =
          subst
            (λ m.
              db'
              ≡ after_trade user m seed_item item (count db + qty)
                  (trade_row user shop_purchase id balance (negative price) m) db)
            (sym new) (t3 ∙ ap (booked row) t2');
    }

pub purchase-Bought :
    (env : Env) (cmd : Command) (qty : ℕ) (cfg : CropConfig) (db db' : Db) (n : ℕ)
    → purchase env cmd qty cfg db ≡ ok (n, db')
    → Bought env cmd qty cfg db db' n
unfolding purchase
purchase-Bought env cmd qty cfg db db' n h =
    let (balance, db1, loaded, h1) =
      >>=-eq-ok (load_wallet_for_update cmd.actor_user) (buy env cmd qty cfg) h in
    let (wallet, same) = load_wallet-eq-ok cmd.actor_user db db1 balance loaded in
    buy-Bought env cmd qty cfg balance db db' n wallet
      (subst (λ d. buy env cmd qty cfg balance d ≡ ok (n, db')) same h1)
