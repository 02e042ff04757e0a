-- ===== src/Commit/EconomyTx.antt =====
-- The transaction of a purchase or a sale (`commitEconomicTx` of
-- server/internal/farm/infrastructure/committer_mysql.go). Metrics are left out; the quantity is
-- checked once, since nothing changes it between the two checks of the code.
pub mod Trade
pub mod Sale
pub mod Settled
pub mod Trades
use farm_server.Base.{
  ℕ, zero, suc, ◌-◌, ◌+◌, ◌*◌, Bool, false, ◌&&◌, String, Option, none, some, leb,
}
use farm_server.Errors.{coded, common_invalid_argument, economy_insufficient}
use farm_server.Farm.{
  ℤ, pos, negsuc, CommandType, purchase_seed, Command, CommitResult, max_economy_quantity,
}
use farm_server.Farm.Crops.{CropConfig, get_crop_config, crop_id_to_item_id}
use farm_server.Store.{Env, seed_item, crop_item, BizType, shop_purchase, farm_sell, Db}
use farm_server.Store.Tx.{Tx, ◌>>=◌, ◌>>◌, pure, guard, lift}
use farm_server.Commit.Rows.{empty_patch}
use farm_server.Commit.Assets.{
  load_wallet_for_update, set_wallet_balance, add_inventory_item, deduct_inventory_item,
  check_economy_transaction, insert_economy_transaction,
}

abbrev pub in_range : ℤ → Bool
in_range (pos n) = leb 1 n && leb n max_economy_quantity
in_range (negsuc n) = false

abbrev pub amount : ℤ → ℕ
amount (pos n) = n
amount (negsuc n) = 0

-- `-price` as a signed number.
abbrev pub negative : ℕ → ℤ
negative zero = pos 0
negative (suc n) = negsuc n

abbrev pub biz_of : CommandType → BizType
biz_of purchase_seed = shop_purchase
biz_of _ = farm_sell

-- The ledger's row, and the balance as the result.
pub book : Env → Command → BizType → ℕ → ℤ → ℕ → Tx ℕ
book env cmd t before delta after =
    insert_economy_transaction env cmd.actor_user t cmd.cmd_id before delta after >> pure after

buy : Env → Command → ℕ → CropConfig → ℕ → Tx ℕ
unfolding book
buy env cmd qty cfg balance = do
  guard (leb (cfg.seed_price * qty) balance) (coded economy_insufficient)
  set_wallet_balance cmd.actor_user (balance - cfg.seed_price * qty)
  add_inventory_item cmd.actor_user seed_item (crop_id_to_item_id cmd.crop_id) qty
  book env cmd shop_purchase balance (negative (cfg.seed_price * qty))
      (balance - cfg.seed_price * qty)

pub purchase : Env → Command → ℕ → CropConfig → Tx ℕ
unfolding buy
purchase env cmd qty cfg = load_wallet_for_update cmd.actor_user >>= buy env cmd qty cfg

-- A sale once the crops are deducted; `enough` tells whether there were any.
cash_in : Env → Command → ℕ → CropConfig → ℕ → Bool → Tx ℕ
unfolding book
cash_in env cmd qty cfg balance enough = do
  guard enough (coded economy_insufficient)
  set_wallet_balance cmd.actor_user (balance + cfg.sell_price * qty)
  book env cmd farm_sell balance (pos (cfg.sell_price * qty)) (balance + cfg.sell_price * qty)

hand_over : Env → Command → ℕ → CropConfig → ℕ → Tx ℕ
unfolding cash_in
hand_over env cmd qty cfg balance =
    deduct_inventory_item cmd.actor_user crop_item (crop_id_to_item_id cmd.crop_id) qty
    >>= cash_in env cmd qty cfg balance

pub sell : Env → Command → ℕ → CropConfig → Tx ℕ
unfolding hand_over
sell env cmd qty cfg = load_wallet_for_update cmd.actor_user >>= hand_over env cmd qty cfg

trade : Env → CommandType → Command → ℕ → CropConfig → Tx ℕ
unfolding purchase sell
trade env purchase_seed cmd qty cfg = purchase env cmd qty cfg
trade env _ cmd qty cfg = sell env cmd qty cfg

priced : Env → Command → Tx ℕ
unfolding trade
priced env cmd = lift (get_crop_config cmd.crop_id) >>= trade env cmd.type cmd (amount cmd.quantity)

abbrev pub traded : String → ℕ → CommitResult
traded event_id balance = record {
  new_version = 0;
  patch = empty_patch;
  event_id = event_id;
  replayed = false;
  coin_balance = balance;
}

-- The part of `commitEconomicTx` behind the idempotency query.
settle : Env → String → Command → Tx CommitResult
unfolding priced
settle env event_id cmd = do balance ← priced env cmd; pure (traded event_id balance)

-- The result of the ledger's row, or the trade.
unless_found : Env → String → Command → Option CommitResult → Tx CommitResult
unfolding settle
unless_found env event_id cmd none = settle env event_id cmd
unless_found env event_id cmd (some res) = pure res

-- `commitEconomicTx`; `seen` as above.
unfoldable pub commit_economic_seen : Env → String → Command → Db → Tx CommitResult
unfolding unless_found
commit_economic_seen env event_id cmd seen =
    guard (in_range cmd.quantity) (coded common_invalid_argument)
    >> unless_found env event_id cmd
        (check_economy_transaction env cmd.actor_user (biz_of cmd.type) cmd.cmd_id seen)
