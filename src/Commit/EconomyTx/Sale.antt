-- ===== src/Commit/EconomyTx/Sale.antt =====
-- What a sale does to wallet, inventory and ledger (`commitEconomicTx` of
-- server/internal/farm/infrastructure/committer_mysql.go).
use farm_server.Base.{ℕ, ◌+◌, ◌-◌, ◌*◌, ◌≤◌, ◌≡◌, none, some, subst, sym, ap, ◌∙◌}
use farm_server.Errors.{ok, coded, economy_insufficient}
use farm_server.Farm.{max_int64, pos, ℤ, Command}
use farm_server.Farm.Crops.{CropConfig, crop_id_to_item_id}
use farm_server.Store.{Env, Db, crop_item, quantity, LedgerRow, farm_sell}
use farm_server.Store.Tx.{Tx, ◌>>◌, >>=-eq-ok, guard->>-eq-ok}
use farm_server.Commit.Assets.{
  set_item, load_wallet_for_update, set_wallet_balance, deduct_inventory_item, find_row,
}
use farm_server.Commit.EconomyTx.{book, cash_in, hand_over, sell}
use farm_server.Commit.EconomyTx.Trade.{
  load_wallet-eq-ok, wallet_set, set_wallet-eq-ok, deduct-eq-ok, trade_row, booked, after_trade,
  Sold, book-eq-ok,
}

hand_over-Sold :
    (env : Env) (cmd : Command) (qty : ℕ) (cfg : CropConfig) (balance : ℕ) (db db' : Db) (n : ℕ)
    → db.wallets cmd.actor_user ≡ some balance
    → hand_over env cmd qty cfg balance db ≡ ok (n, db')
    → Sold env cmd qty cfg db db' n
unfolding hand_over cash_in quantity
hand_over-Sold env cmd qty cfg balance db db' n wallet h =
    let total = balance + cfg.sell_price * qty in
    let price : ℤ = pos (cfg.sell_price * qty) in
    let user = cmd.actor_user in
    let item = crop_id_to_item_id cmd.crop_id in
    let rest : Tx ℕ = book env cmd farm_sell balance price total in
    let (had, db1, deducted, h1) =
      >>=-eq-ok (deduct_inventory_item user crop_item item qty) (cash_in env cmd qty cfg balance)
        h in
    let (enough, h2) =
      guard->>-eq-ok had (coded economy_insufficient) (set_wallet_balance user total >> rest) h1 in
    let (u2, db2, paid, h3) = >>=-eq-ok (set_wallet_balance user total) (λ _. rest) h2 in
    let (t1, stock) = deduct-eq-ok user crop_item item qty db db1 (
      subst (λ b. deduct_inventory_item user crop_item item qty db ≡ ok (b, db1)) enough
        deducted) in
    let (t2, small) = set_wallet-eq-ok user total db1 db2 u2 paid in
    let (id, new, key, fresh, t3) = book-eq-ok env cmd farm_sell balance price total db2 db' n h3 in
    let t2' : db2
        ≡ wallet_set user total
            (set_item user crop_item item (quantity db user crop_item item - qty) db) =
      t2 ∙ ap (wallet_set user total) t1 in
    let row : LedgerRow = trade_row user farm_sell id balance price total in
    record {
      balance = balance;
      id = id;
      wallet = wallet;
      earned = new;
      fits = subst (λ m. m ≤ max_int64) (sym new) small;
      stock = stock;
      key = key;
      fresh = subst (λ d. find_row user farm_sell id d.ledger ≡ none) t2' fresh;
      tables =
          subst
            (λ m.
              db'
              ≡ after_trade user m crop_item item (quantity db user crop_item item - qty)
                  (trade_row user farm_sell id balance price m) db)
            (sym new) (t3 ∙ ap (booked row) t2');
    }

pub sell-Sold :
    (env : Env) (cmd : Command) (qty : ℕ) (cfg : CropConfig) (db db' : Db) (n : ℕ)
    → sell env cmd qty cfg db ≡ ok (n, db')
    → Sold env cmd qty cfg db db' n
unfolding sell
sell-Sold env cmd qty cfg db db' n h =
    let (balance, db1, loaded, h1) =
      >>=-eq-ok (load_wallet_for_update cmd.actor_user) (hand_over env cmd qty cfg) h in
    let (wallet, same) = load_wallet-eq-ok cmd.actor_user db db1 balance loaded in
    hand_over-Sold env cmd qty cfg balance db db' n wallet
      (subst (λ d. hand_over env cmd qty cfg balance d ≡ ok (n, db')) same h1)
