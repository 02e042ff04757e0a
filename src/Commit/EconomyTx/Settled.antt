-- ===== src/Commit/EconomyTx/Settled.antt =====
-- What a committed purchase or sale has settled.
pub mod Ledger
use farm_server.Base.{
  Option-cases, ℕ, ◌⊎◌, ◌*◌, List, ◌∷◌, ◌≤◌, ◌≡◌, ◌≢◌, refl, true, String, none, some, arith, subst,
  sym, eq_iff, inl, inr,
}
use farm_server.Errors.{Result, ok, err, coded, common_invalid_argument}
use farm_server.Farm.{
  pos, negsuc, ℤ, Command, CommitResult, CommandType, purchase_seed, sell_crop,
  max_economy_quantity,
}
use farm_server.Farm.Crops.{CropConfig, get_crop_config}
use farm_server.Store.{Env, Db, BizType, shop_purchase, farm_sell, cross_shard_steal, LedgerRow}
use farm_server.Store.Tx.{>>=-eq-ok, guard->>-eq-ok, pure, lift}
use farm_server.Commit.Rows.{empty_patch}
use farm_server.Commit.Assets.{find_row, check_economy_transaction}
use farm_server.Commit.EconomyTx.{
  negative, in_range, amount, biz_of, trade, priced, traded, settle, unless_found,
  commit_economic_seen,
}
use farm_server.Commit.EconomyTx.Trade.{Bought, Sold, trade_row, purchase-Bought}
use farm_server.Commit.EconomyTx.Sale.{sell-Sold}

lift-eq-ok :
    {A : Type 0} (r : Result A) (db db' : Db) (a : A)
    → lift r db ≡ ok (a, db')
    → (r ≡ ok a) × (db' ≡ db)
lift-eq-ok (ok b) db db' a h = (cc, cc)
lift-eq-ok (err e) db db' a h = cc

priced-eq-ok :
    (env : Env) (cmd : Command) (db db' : Db) (n : ℕ)
    → priced env cmd db ≡ ok (n, db')
    → (cfg : CropConfig) × (get_crop_config cmd.crop_id ≡ ok cfg)
      × (trade env cmd.type cmd (amount cmd.quantity) cfg db ≡ ok (n, db'))
unfolding priced
priced-eq-ok env cmd db db' n h =
    let (cfg, mid, first, rest) =
      >>=-eq-ok (lift (get_crop_config cmd.crop_id)) (trade env cmd.type cmd (amount cmd.quantity))
        h in
    let (found, same) = lift-eq-ok (get_crop_config cmd.crop_id) db mid cfg first in
    (
      cfg,
      found,
      subst (λ d. trade env cmd.type cmd (amount cmd.quantity) cfg d ≡ ok (n, db')) same rest,
    )

traded-result :
    (event_id : String) (n : ℕ) (mid db' : Db) (res : CommitResult)
    → pure (traded event_id n) mid ≡ ok (res, db')
    → (n ≡ res.coin_balance) × (mid ≡ db') × (res ≡ traded event_id res.coin_balance)
traded-result event_id n mid db' res h = ground arith

settle-eq-ok :
    (env : Env) (event_id : String) (cmd : Command) (db db' : Db) (res : CommitResult)
    → settle env event_id cmd db ≡ ok (res, db')
    → (priced env cmd db ≡ ok (res.coin_balance, db')) × (res ≡ traded event_id res.coin_balance)
unfolding settle
settle-eq-ok env event_id cmd db db' res h =
    let (n, mid, first, rest) = >>=-eq-ok (priced env cmd) (λ b. pure (traded event_id b)) h in
    let (new, same, shape) = traded-result event_id n mid db' res rest in
    (cc (first, new, same), shape)

-- A quantity that the committer takes.
abbrev pub Quantity : ℤ → ℕ → Type 0
Quantity z qty = (z ≡ pos qty) × (1 ≤ qty) × (qty ≤ max_economy_quantity)

in_range-Quantity : (z : ℤ) → in_range z ≡ true → Quantity z (amount z)
in_range-Quantity (pos n) h = ground arith
in_range-Quantity (negsuc n) h = cc

-- A purchase or sale that was not settled before is settled behind its checks.
commit_economic-settle :
    (env : Env) (event_id : String) (cmd : Command) (seen db db' : Db) (res : CommitResult)
    → check_economy_transaction env cmd.actor_user (biz_of cmd.type) cmd.cmd_id seen ≡ none
    → commit_economic_seen env event_id cmd seen db ≡ ok (res, db')
    → (in_range cmd.quantity ≡ true) × (settle env event_id cmd db ≡ ok (res, db'))
unfolding commit_economic_seen unless_found
commit_economic-settle env event_id cmd seen db db' res new h =
    let (fits, rest) =
      guard->>-eq-ok (in_range cmd.quantity) (coded common_invalid_argument)
        (unless_found env event_id cmd
          (check_economy_transaction env cmd.actor_user (biz_of cmd.type) cmd.cmd_id seen))
        h in
    (fits, subst (λ f. unless_found env event_id cmd f db ≡ ok (res, db')) new rest)

-- A purchase that was not settled before and that commits: the quantity is within its limits, the
-- crop is in the catalogue, and wallet, seeds and ledger change as `Bought` says, the balance in
-- the result being the new one. Nothing else changes.
pub purchase_settles :
    (env : Env) (event_id : String) (cmd : Command) (seen db db' : Db) (res : CommitResult)
    → cmd.type ≡ purchase_seed
    → check_economy_transaction env cmd.actor_user shop_purchase cmd.cmd_id seen ≡ none
    → commit_economic_seen env event_id cmd seen db ≡ ok (res, db')
    → (qty : ℕ) × Quantity cmd.quantity qty
      × (cfg : CropConfig) × (get_crop_config cmd.crop_id ≡ ok cfg)
      × Bought env cmd qty cfg db db' res.coin_balance
unfolding trade
purchase_settles env event_id cmd seen db db' res t new h =
    let none_found =
      subst (λ b. check_economy_transaction env cmd.actor_user (biz_of b) cmd.cmd_id seen ≡ none)
        (sym t) new in
    let (fits, s) = commit_economic-settle env event_id cmd seen db db' res none_found h in
    let (cfg, found, run) =
      priced-eq-ok env cmd db db' res.coin_balance (settle-eq-ok env event_id cmd db db' res s).0 in
    let qty = amount cmd.quantity in
    (
      qty,
      in_range-Quantity cmd.quantity fits,
      cfg,
      found,
      purchase-Bought env cmd qty cfg db db' res.coin_balance
          (subst (λ b. trade env b cmd qty cfg db ≡ ok (res.coin_balance, db')) t run),
    )

-- A sale that was not settled before and that commits: the quantity is within its limits, the
-- crop is in the catalogue, and wallet, crops and ledger change as `Sold` says, the balance in the
-- result being the new one. Nothing else changes.
pub sale_settles :
    (env : Env) (event_id : String) (cmd : Command) (seen db db' : Db) (res : CommitResult)
    → cmd.type ≡ sell_crop
    → check_economy_transaction env cmd.actor_user farm_sell cmd.cmd_id seen ≡ none
    → commit_economic_seen env event_id cmd seen db ≡ ok (res, db')
    → (qty : ℕ) × Quantity cmd.quantity qty
      × (cfg : CropConfig) × (get_crop_config cmd.crop_id ≡ ok cfg)
      × Sold env cmd qty cfg db db' res.coin_balance
unfolding trade
sale_settles env event_id cmd seen db db' res t new h =
    let none_found =
      subst (λ b. check_economy_transaction env cmd.actor_user (biz_of b) cmd.cmd_id seen ≡ none)
        (sym t) new in
    let (fits, s) = commit_economic-settle env event_id cmd seen db db' res none_found h in
    let (cfg, found, run) =
      priced-eq-ok env cmd db db' res.coin_balance (settle-eq-ok env event_id cmd db db' res s).0 in
    let qty = amount cmd.quantity in
    (
      qty,
      in_range-Quantity cmd.quantity fits,
      cfg,
      found,
      sell-Sold env cmd qty cfg db db' res.coin_balance
          (subst (λ b. trade env b cmd qty cfg db ≡ ok (res.coin_balance, db')) t run),
    )
