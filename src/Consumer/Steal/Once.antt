-- ===== src/Consumer/Steal/Once.antt =====
-- A theft is credited once, however often its event is delivered.
use farm_server.Base.{
  ℕ, ◌+◌, ◌≡◌, ◌∙◌, ap, sym, refl, subst, arith, Bool, true, false, String, str_eq, List, [], ◌∷◌,
  Option, none, some, ◌==◌, ◌||◌, eq_iff, Bool-cases, inl, inr,
}
use farm_server.Errors.{Error}
use farm_server.Farm.{Time}
use farm_server.Farm.Crops.{crop_id_to_item_id}
use farm_server.Store.{
  Env, Db, crop_item, cross_shard_steal, quantity, OutboxRow, EventHead, DisplayName, farm_stolen,
}
use farm_server.Shard.{shard_for_user_id}
use farm_server.Commit.Assets.{insert_economy_transaction, add_inventory_item, find_row}
use farm_server.Consumer.Steal.{
  CommitFate, credit_cross_shard_steal, handle, handle_payload, handle_stolen, in_pool, Pools,
}

module _ (env : Env) (actor : ℕ) (crop : String) (amount : ℕ) (event_id key : String) where
  abbrev pub attempt : CommitFate → Db → Option Error × Db
  attempt fate db = credit_cross_shard_steal env fate actor crop amount event_id db

  abbrev pub entry : Db → Option ℕ
  entry db = find_row actor cross_shard_steal key db.ledger

  -- What the thief has of the crop.
  abbrev pub has : Db → ℕ
  has db = quantity db actor crop_item (crop_id_to_item_id crop)

  abbrev owed_for : Option ℕ → ℕ
  owed_for none = amount
  owed_for (some n) = 0

  -- What is still to be credited.
  abbrev pub owed : Db → ℕ
  owed db = owed_for (entry db)

  attempt-balance :
      (fate : CommitFate) (db : Db)
      → env.unhex event_id ≡ some key
      → has (attempt fate db).1 + owed (attempt fate db).1 ≡ has db + owed db
  unfolding credit_cross_shard_steal insert_economy_transaction add_inventory_item find_row quantity
  attempt-balance fate db k = ground (arith, eq_iff key key)

  attempt-ok :
      (fate : CommitFate) (db : Db)
      → env.unhex event_id ≡ some key
      → (attempt fate db).0 ≡ none
      → owed (attempt fate db).1 ≡ 0
  unfolding credit_cross_shard_steal insert_economy_transaction add_inventory_item find_row
  attempt-ok fate db k h = ground (arith, eq_iff key key)

  attempt-kept :
      (fate : CommitFate) (db : Db)
      → env.unhex event_id ≡ some key
      → owed db ≡ 0
      → owed (attempt fate db).1 ≡ 0
  unfolding credit_cross_shard_steal insert_economy_transaction add_inventory_item find_row
  attempt-kept fate db k h = ground (arith, eq_iff key key)

-- A theft by a player of another shard: what its event holds.
pub record IsRemoteTheft (env : Env) (normalize_v7 : String → Option String) (shards : List String)
    (row : OutboxRow) : Type 0 where
  pub head : EventHead
  pub owner_name : DisplayName
  pub actor_name : DisplayName
  pub crop : String
  pub amount : ℕ
  pub remaining : ℕ
  pub at : Time
  pub payload : row.payload ≡ farm_stolen head owner_name actor_name crop amount remaining at
  pub event_id : String
  pub key : String
  pub normalized : normalize_v7 row.event_id ≡ some event_id
  pub stored : env.unhex event_id ≡ some key
  pub owner_shard : String
  pub actor_shard : String
  pub owner_at : shard_for_user_id shards head.owner_user_id ≡ some owner_shard
  pub actor_at : shard_for_user_id shards head.actor_user_id ≡ some actor_shard
  pub remote : str_eq owner_shard actor_shard ≡ false
  pub has_owner : (head.owner_user_id == 0) ≡ false
  pub has_actor : ((head.actor_user_id == 0) || (head.actor_user_id == head.owner_user_id)) ≡ false
  pub has_asset : ((amount == 0) || str_eq crop "") ≡ false

-- What the projector does for such an event, over plain variables.
handle-stolen :
    (env : Env) (normalize_v7 : String → Option String) (shards : List String) (row : OutboxRow)
    (fate : CommitFate) (pools : Pools) (head : EventHead) (owner_name actor_name : DisplayName)
    (crop : String) (amount remaining : ℕ) (at : Time) (event_id : String)
    → row.payload ≡ farm_stolen head owner_name actor_name crop amount remaining at
    → normalize_v7 row.event_id ≡ some event_id
    → handle env normalize_v7 shards fate row pools
      ≡ handle_stolen env shards fate event_id head.owner_user_id head.actor_user_id crop amount
          pools
unfolding handle
handle-stolen env normalize_v7 shards row fate pools head owner_name actor_name crop amount
      remaining at event_id p e =
    rw (handle_payload, p, e) refl

handle_stolen-remote :
    (env : Env) (shards : List String) (fate : CommitFate) (event_id : String) (owner actor : ℕ)
    (crop : String) (amount : ℕ) (pools : Pools) (owner_shard actor_shard : String)
    → shard_for_user_id shards owner ≡ some owner_shard
    → shard_for_user_id shards actor ≡ some actor_shard
    → str_eq owner_shard actor_shard ≡ false
    → (owner == 0) ≡ false
    → ((actor == 0) || (actor == owner)) ≡ false
    → ((amount == 0) || str_eq crop "") ≡ false
    → handle_stolen env shards fate event_id owner actor crop amount pools
      ≡ in_pool actor_shard
          (credit_cross_shard_steal env fate actor crop amount event_id (pools actor_shard))
          pools
unfolding handle_stolen
handle_stolen-remote env shards fate event_id owner actor crop amount pools owner_shard actor_shard
      o a r h1 h2 h3 =
    rw (h1, h2, h3, o, a, r) refl

module _ (env : Env) (normalize_v7 : String → Option String) (shards : List String)
    (row : OutboxRow) (t : IsRemoteTheft env normalize_v7 shards row) where
  abbrev thief : ℕ
  thief = t.head.actor_user_id

  abbrev handled : CommitFate → Pools → Option Error × Pools
  handled fate pools = handle env normalize_v7 shards fate row pools

  abbrev tried : CommitFate → Db → Option Error × Db
  tried fate db = attempt env thief t.crop t.amount t.event_id t.key fate db

  handle_remote :
      (fate : CommitFate) (pools : Pools)
      → handled fate pools ≡ in_pool t.actor_shard (tried fate (pools t.actor_shard)) pools
  handle_remote fate pools =
      handle-stolen env normalize_v7 shards row fate pools t.head t.owner_name t.actor_name t.crop
        t.amount t.remaining t.at t.event_id t.payload t.normalized
      ∙ handle_stolen-remote env shards fate t.event_id t.head.owner_user_id t.head.actor_user_id
          t.crop t.amount pools t.owner_shard t.actor_shard t.owner_at t.actor_at t.remote
          t.has_owner t.has_actor t.has_asset

  -- One delivery after the other, with the fates of their transactions; whether one succeeded.
  abbrev pub deliver_all : List CommitFate → Pools → Pools
  deliver_all [] pools = pools
  deliver_all (fate ∷ fates) pools = deliver_all fates (handled fate pools).1

  abbrev succeeds : Option Error → Bool
  succeeds none = true
  succeeds (some e) = false

  abbrev pub one_succeeds : List CommitFate → Pools → Bool
  one_succeeds [] pools = false
  one_succeeds (fate ∷ fates) pools =
      succeeds (handled fate pools).0 || one_succeeds fates (handled fate pools).1

  abbrev pool : Pools → Db
  pool pools = pools t.actor_shard

  abbrev crops : Pools → ℕ
  crops pools = has env thief t.crop t.amount t.event_id t.key (pool pools)

  abbrev open_credit : Pools → ℕ
  open_credit pools = owed env thief t.crop t.amount t.event_id t.key (pool pools)

  handled-pool :
      (fate : CommitFate) (pools : Pools)
      → pool (handled fate pools).1 ≡ (tried fate (pool pools)).1
  handled-pool fate pools =
      ap (λ x. x.1 t.actor_shard) (handle_remote fate pools)
      ∙ rw (eq_iff t.actor_shard t.actor_shard).1 refl

  succeeds-eq-true : (e : Option Error) → succeeds e ≡ true → e ≡ none
  succeeds-eq-true none h = refl
  succeeds-eq-true (some e) h = cc

  -- One delivery keeps the sum, closes the credit where it succeeds, and leaves it closed.
  handled-credit :
      (fate : CommitFate) (pools : Pools)
      → (crops (handled fate pools).1 + open_credit (handled fate pools).1
          ≡ crops pools + open_credit pools)
        × (open_credit pools ≡ 0 → open_credit (handled fate pools).1 ≡ 0)
        × (succeeds (handled fate pools).0 ≡ true → open_credit (handled fate pools).1 ≡ 0)
  handled-credit fate pools = rw (handled-pool fate pools) (
    attempt-balance env thief t.crop t.amount t.event_id t.key fate (pool pools) t.stored,
    attempt-kept env thief t.crop t.amount t.event_id t.key fate (pool pools) t.stored,
    λ h. attempt-ok env thief t.crop t.amount t.event_id t.key fate (pool pools) t.stored (
        sym (ap (λ x. x.0) (handle_remote fate pools)) ∙ succeeds-eq-true (handled fate pools).0 h),
  )

  delivered-credit :
      (fates : List CommitFate) (pools : Pools)
      → (crops (deliver_all fates pools) + open_credit (deliver_all fates pools)
          ≡ crops pools + open_credit pools)
        × (open_credit pools ≡ 0 → open_credit (deliver_all fates pools) ≡ 0)
        × (one_succeeds fates pools ≡ true → open_credit (deliver_all fates pools) ≡ 0)
  delivered-credit [] pools = (refl, λ h. h, λ h. cc)
  delivered-credit (fate ∷ fates) pools =
      let (sum, kept, done) = delivered-credit fates (handled fate pools).1 in
      let (sum', kept', done') = handled-credit fate pools in
      (
        sum ∙ sum',
        λ h. kept (kept' h),
        λ h. elim (Bool-cases (succeeds (handled fate pools).0)) [
          | inl e ↦ kept (done' e)
          | inr e ↦ done (subst (λ b. (b || one_succeeds fates (handled fate pools).1) ≡ true) e h)
        ],
      )

  -- A theft whose thief lives on another shard than the farm, and whose event has no row in the
  -- thief's ledger yet: after any number of deliveries of the event, whatever becomes of their
  -- transactions, the thief's shard holds exactly the stolen amount more of the crop once one of
  -- the deliveries has succeeded.
  pub stolen_credited_once :
      (fates : List CommitFate) (pools : Pools)
      → find_row thief cross_shard_steal t.key (pools t.actor_shard).ledger ≡ none
      → one_succeeds fates pools ≡ true
      → quantity (deliver_all fates pools t.actor_shard) thief crop_item (crop_id_to_item_id t.crop)
        ≡ quantity (pools t.actor_shard) thief crop_item (crop_id_to_item_id t.crop) + t.amount
  stolen_credited_once fates pools fresh one =
      let (sum, kept, done) = delivered-credit fates pools in
      omega (arith, sum, done one, fresh_owed)
    where
      fresh_owed : open_credit pools ≡ t.amount
      fresh_owed = ap (owed_for env thief t.crop t.amount t.event_id t.key) fresh
