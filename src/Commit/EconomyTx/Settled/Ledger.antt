-- ===== src/Commit/EconomyTx/Settled/Ledger.antt =====
-- A purchase or a sale beside the ledger, which holds one row under each key (`commitEconomicTx` of
-- server/internal/farm/infrastructure/committer_mysql.go).
use farm_server.Base.{
  Bool-cases, ◌==◌, ◌&&◌, str_eq, Option-cases, ℕ, ◌⊎◌, ◌*◌, List, ◌∷◌, ◌≡◌, refl, true, String,
  none, some, arith, subst, sym, eq_iff, inl, inr,
}
use farm_server.Errors.{ok, coded, common_invalid_argument}
use farm_server.Farm.{pos, ℤ, Command, CommitResult, CommandType, purchase_seed, sell_crop}
use farm_server.Farm.Crops.{CropConfig}
use farm_server.Store.{Env, Db, BizType, shop_purchase, farm_sell, cross_shard_steal, LedgerRow}
use farm_server.Store.Tx.{guard->>-eq-ok}
use farm_server.Commit.Assets.{same_biz, find_row, check_economy_transaction}
use farm_server.Commit.EconomyTx.{
  negative, in_range, amount, biz_of, trade, settle, unless_found, commit_economic_seen,
}
use farm_server.Commit.EconomyTx.Trade.{Bought, Sold, trade_row, purchase-Bought}
use farm_server.Commit.EconomyTx.Sale.{sell-Sold}
use farm_server.Commit.EconomyTx.Settled.{commit_economic-settle, priced-eq-ok, settle-eq-ok}

-- A row of the ledger is found as long as it is there: no row takes the key of another.
abbrev pub KeepsRows : Db → Db → Type 0
KeepsRows db d =
    (user : ℕ) (t : BizType) (id : String) (n : ℕ)
    → find_row user t id db.ledger ≡ some n
    → find_row user t id d.ledger ≡ some n

same_biz-eq : (a b : BizType) → same_biz a b ≡ true → a ≡ b
same_biz-eq shop_purchase shop_purchase h = refl
same_biz-eq farm_sell farm_sell h = refl
same_biz-eq cross_shard_steal cross_shard_steal h = refl
same_biz-eq _ _ h = cc

new-KeepsRows :
    (user : ℕ) (t : BizType) (id : String) (before : ℕ) (delta : ℤ) (after : ℕ) (l : List LedgerRow)
    → find_row user t id l ≡ none
    → (u : ℕ) (s : BizType) (i : String) (n : ℕ) → find_row u s i l ≡ some n
    → find_row u s i (trade_row user t id before delta after ∷ l) ≡ some n
unfolding find_row
new-KeepsRows user t id before delta after l fresh u s i n e =
    elim (Bool-cases (user == u && same_biz t s && str_eq id i)) [
      | inr other ↦ rw (other, find_row) e
      | inl hit ↦
          let biz = same_biz-eq t s (ground (arith, hit)) in
          let who : user ≡ u = ground (arith, hit) in
          let key : id ≡ i = ground (arith, hit, eq_iff id i) in
          absurd (cc (who, biz, key, fresh, e))
    ]

-- A purchase or a sale.
abbrev pub IsTrade : CommandType → Type 0
IsTrade t = (t ≡ purchase_seed) ⊎ (t ≡ sell_crop)

-- What a purchase or a sale leaves alone.
abbrev pub Leaves : Db → Db → Type 0
Leaves db d = (d.farms ≡ db.farms) × (d.receipts ≡ db.receipts) × KeepsRows db d

trade-Leaves :
    (env : Env) (t : CommandType) (cmd : Command) (qty : ℕ) (cfg : CropConfig) (db db' : Db) (n : ℕ)
    → IsTrade t
    → trade env t cmd qty cfg db ≡ ok (n, db')
    → Leaves db db'
unfolding trade
trade-Leaves env purchase_seed cmd qty cfg db db' n t h =
    let b = purchase-Bought env cmd qty cfg db db' n h in
    rw b.tables (
      refl,
      refl,
      new-KeepsRows cmd.actor_user shop_purchase b.id b.balance (negative (cfg.seed_price * qty)) n
          db.ledger b.fresh,
    )
trade-Leaves env sell_crop cmd qty cfg db db' n t h =
    let b = sell-Sold env cmd qty cfg db db' n h in
    rw b.tables (
      refl,
      refl,
      new-KeepsRows cmd.actor_user farm_sell b.id b.balance (pos (cfg.sell_price * qty)) n db.ledger
          b.fresh,
    )
trade-Leaves env _ cmd qty cfg db db' n t h = elim t [ inl e ↦ cc | inr e ↦ cc ]

pub commit_economic-Leaves :
    (env : Env) (event_id : String) (cmd : Command) (seen db db' : Db) (res : CommitResult)
    → IsTrade cmd.type
    → commit_economic_seen env event_id cmd seen db ≡ ok (res, db')
    → Leaves db db'
unfolding commit_economic_seen unless_found
commit_economic-Leaves env event_id cmd seen db db' res t h =
    elim (Option-cases
      (check_economy_transaction env cmd.actor_user (biz_of cmd.type) cmd.cmd_id seen)) [
        | inl new ↦
            let (fits, s) = commit_economic-settle env event_id cmd seen db db' res new h in
            let (cfg, found, run) =
              priced-eq-ok env cmd db db' res.coin_balance
                (settle-eq-ok env event_id cmd db db' res s).0 in
            trade-Leaves env cmd.type cmd (amount cmd.quantity) cfg db db' res.coin_balance t run
        | inr (old, found) ↦
            let (fits, rest) =
              guard->>-eq-ok (in_range cmd.quantity) (coded common_invalid_argument)
                (unless_found env event_id cmd
                  (check_economy_transaction env cmd.actor_user (biz_of cmd.type) cmd.cmd_id seen))
                h in
            let replayed =
              subst (λ f. unless_found env event_id cmd f db ≡ ok (res, db')) found rest in
            let same : db' ≡ db = cc replayed in rw same (refl, refl, λ user t id n e. e)
      ]

-- What every trade has in common with the ledger: a key that was free, and a row under it.
abbrev pub Booked : Env → Command → BizType → Db → Db → ℕ → Type 0
Booked env cmd t db db' n =
    (id : String) × (env.unhex cmd.cmd_id ≡ some id)
    × (find_row cmd.actor_user t id db.ledger ≡ none)
    × (find_row cmd.actor_user t id db'.ledger ≡ some n)

found_first :
    (user : ℕ) (t : BizType) (id : String) (before : ℕ) (delta : ℤ) (n : ℕ) (l : List LedgerRow)
    → find_row user t id (trade_row user t id before delta n ∷ l) ≡ some n
unfolding find_row
found_first user shop_purchase id before delta n l = ground (arith, eq_iff id id)
found_first user farm_sell id before delta n l = ground (arith, eq_iff id id)
found_first user cross_shard_steal id before delta n l = ground (arith, eq_iff id id)

Bought-Booked :
    {env : Env} {cmd : Command} {qty : ℕ} {cfg : CropConfig} {db db' : Db} {n : ℕ}
    → Bought env cmd qty cfg db db' n
    → Booked env cmd shop_purchase db db' n
Bought-Booked {env} {cmd} {qty} {cfg} {db} {db'} {n} b = (
  b.id,
  b.key,
  b.fresh,
  subst (λ d. find_row cmd.actor_user shop_purchase b.id d.ledger ≡ some n) (sym b.tables)
      (found_first cmd.actor_user shop_purchase b.id b.balance (negative (cfg.seed_price * qty)) n
        db.ledger),
)

Sold-Booked :
    {env : Env} {cmd : Command} {qty : ℕ} {cfg : CropConfig} {db db' : Db} {n : ℕ}
    → Sold env cmd qty cfg db db' n
    → Booked env cmd farm_sell db db' n
Sold-Booked {env} {cmd} {qty} {cfg} {db} {db'} {n} b = (
  b.id,
  b.key,
  b.fresh,
  subst (λ d. find_row cmd.actor_user farm_sell b.id d.ledger ≡ some n) (sym b.tables)
      (found_first cmd.actor_user farm_sell b.id b.balance (pos (cfg.sell_price * qty)) n
        db.ledger),
)

trade-Booked :
    (env : Env) (t : CommandType) (cmd : Command) (qty : ℕ) (cfg : CropConfig) (db db' : Db) (n : ℕ)
    → IsTrade t
    → trade env t cmd qty cfg db ≡ ok (n, db')
    → Booked env cmd (biz_of t) db db' n
unfolding trade
trade-Booked env purchase_seed cmd qty cfg db db' n t h =
    Bought-Booked (purchase-Bought env cmd qty cfg db db' n h)
trade-Booked env sell_crop cmd qty cfg db db' n t h =
    Sold-Booked (sell-Sold env cmd qty cfg db db' n h)
trade-Booked env _ cmd qty cfg db db' n t h = elim t [ inl e ↦ cc | inr e ↦ cc ]

settle-Booked :
    (env : Env) (event_id : String) (cmd : Command) (db db' : Db) (res : CommitResult)
    → IsTrade cmd.type
    → settle env event_id cmd db ≡ ok (res, db')
    → Booked env cmd (biz_of cmd.type) db db' res.coin_balance
settle-Booked env event_id cmd db db' res t s =
    let (cfg, found, run) =
      priced-eq-ok env cmd db db' res.coin_balance (settle-eq-ok env event_id cmd db db' res s).0 in
    trade-Booked env cmd.type cmd (amount cmd.quantity) cfg db db' res.coin_balance t run

-- A new purchase or sale that commits has a quantity in range and books its row.
pub commit_economic-Booked :
    (env : Env) (event_id : String) (cmd : Command) (seen db db' : Db) (res : CommitResult)
    → IsTrade cmd.type
    → check_economy_transaction env cmd.actor_user (biz_of cmd.type) cmd.cmd_id seen ≡ none
    → commit_economic_seen env event_id cmd seen db ≡ ok (res, db')
    → (in_range cmd.quantity ≡ true) × Booked env cmd (biz_of cmd.type) db db' res.coin_balance
commit_economic-Booked env event_id cmd seen db db' res t new h =
    let (fits, s) = commit_economic-settle env event_id cmd seen db db' res new h in
    (fits, settle-Booked env event_id cmd db db' res t s)
