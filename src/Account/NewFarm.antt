-- ===== src/Account/NewFarm.antt =====
-- What a new account starts with (`createGuestAccount` and `createRegisteredAccount` of
-- server/internal/account/infrastructure/mysql_account_service.go).
use farm_server.Base.{
  ℕ, suc, zero, ◌<◌, ◌≤◌, ◌≡◌, ◌≢◌, ◌∙◌, refl, sym, ap, subst, arith, Bool, String, [], ◌∷◌, Option,
  none, some, put, Dict, lookup, All, length, IsDistinct, inl,
}
use farm_server.Errors.{Result, ok, err}
use farm_server.Farm.{Plot, blank, empty, Snapshot}
use farm_server.Farm.Apply.Valid.{IsValid, IsValidEntry}
use farm_server.Store.{Env, ReadsBack, Db, FarmRow, seed_item}
use farm_server.Store.Json.{marshal_plots, unmarshal_plots, unmarshal-marshal, HasOwnIds}
use farm_server.Commit.Rows.{Locked, load_snapshot_for_update}
use farm_server.Commit.Rows.Reload.{load-row}
use farm_server.Account.{
  Provider, guest, local, Credential, Accounts, ◌>>=◌, insert_account, insert_identity,
  insert_initial_farm, insert_wallet, insert_seeds, create_account, empty_body, initial_row,
  num_init_plots,
}

abbrev empty_plots : ℕ → Dict Plot
empty_plots zero = []
empty_plots (suc n) = (suc n, blank (suc n) empty) ∷ empty_plots n

empty_body-marshal : (env : Env) (n : ℕ) → empty_body env n ≡ marshal_plots env (empty_plots n)
unfolding empty_body marshal_plots
empty_body-marshal env zero = refl
empty_body-marshal env (suc n) = ground (arith, empty_body-marshal env n)

lookup-empty_plots : (k n : ℕ) → n < k → lookup k (empty_plots n) ≡ none
lookup-empty_plots k zero h = refl
lookup-empty_plots k (suc n) h = ground (arith, lookup-empty_plots k n)

lookup-found : (k n : ℕ) → 1 ≤ k → k ≤ n → lookup k (empty_plots n) ≡ some (blank k empty)
lookup-found k zero low high = absurd (omega (arith, low, high))
lookup-found k (suc n) low high = ground (arith, low, high, lookup-found k n low)

empty_plots-IsDistinct : (n : ℕ) → IsDistinct (empty_plots n)
empty_plots-IsDistinct zero = tt
empty_plots-IsDistinct (suc n) =
    (lookup-empty_plots (suc n) n (omega arith), empty_plots-IsDistinct n)

empty_plots-IsValid : (n : ℕ) → All IsValidEntry (empty_plots n)
empty_plots-IsValid zero = tt
empty_plots-IsValid (suc n) = ((refl, inl (ground arith)), empty_plots-IsValid n)

empty_plots-HasOwnIds : (n : ℕ) → HasOwnIds (empty_plots n)
empty_plots-HasOwnIds zero = tt
empty_plots-HasOwnIds (suc n) = (refl, empty_plots-HasOwnIds n)

length-empty_plots : (n : ℕ) → length (empty_plots n) ≡ n
length-empty_plots zero = refl
length-empty_plots (suc n) = ground (arith, length-empty_plots n)

-- What the five statements change.
record Created (env : Env) (user : ℕ) (d d' : Db) : Type 0 where
  farms : d'.farms ≡ put user (some (initial_row env user)) d.farms
  wallets : d'.wallets ≡ put user (some 1000) d.wallets
  seeds : d'.inventory user seed_item 1 ≡ some 5

tail-Created :
    (env : Env) (user : ℕ) (d d' : Accounts)
    → (insert_initial_farm env user d >>= insert_wallet user >>= insert_seeds user) ≡ ok d'
    → Created env user d.tables d'.tables
unfolding insert_initial_farm insert_wallet insert_seeds
tail-Created env user d d' h = record {
  farms = ground arith;
  wallets = ground arith;
  seeds = ground arith;
}

-- The first two statements, which touch neither farms nor wallets.
head-tables :
    (provider : Provider) (subject : String) (credential : Option Credential) (name : String)
    (is_guest : Bool) (user : ℕ) (d e : Accounts)
    → (insert_account user name is_guest d >>= insert_identity provider subject user credential)
      ≡ ok e
    → (e.tables.farms ≡ d.tables.farms) × (e.tables.wallets ≡ d.tables.wallets)
unfolding insert_account insert_identity
head-tables guest subject credential name is_guest user d e h = (ground arith, ground arith)
head-tables local subject credential name is_guest user d e h = (ground arith, ground arith)

create-Created :
    (env : Env) (provider : Provider) (subject : String) (credential : Option Credential)
    (name : String) (is_guest : Bool) (user : ℕ) (d d' : Accounts)
    → create_account env provider subject credential name is_guest user d ≡ ok d'
    → Created env user d.tables d'.tables
unfolding create_account
create-Created env provider subject credential name is_guest user d d' h =
    go (insert_account user name is_guest d >>= insert_identity provider subject user credential)
      refl h
  where
    go :
        (r : Result Accounts)
        → (insert_account user name is_guest d >>= insert_identity provider subject user credential)
          ≡ r
        → (r >>= insert_initial_farm env user >>= insert_wallet user >>= insert_seeds user) ≡ ok d'
        → Created env user d.tables d'.tables
    go (err x) made k = cc
    go (ok e) made k =
        let c = tail-Created env user e d' k in
        let (farms, wallets) =
          head-tables provider subject credential name is_guest user d e made in
        record {
          farms = c.farms ∙ ap (put user (some (initial_row env user))) farms;
          wallets = c.wallets ∙ ap (put user (some 1000)) wallets;
          seeds = c.seeds;
        }

-- A new account of either kind has a farm that loads as a well-formed snapshot at version 0, owned by
-- the player, with the twelve plots 1 to 12, all empty, and starts with 1000 coins and five seeds of wheat; no other farm and
-- no other wallet changes. It needs that plot ids are read back as written.
pub new_account_is_playable :
    (env : Env) (provider : Provider) (subject : String) (credential : Option Credential)
    (name : String) (is_guest : Bool) (user : ℕ) (d d' : Accounts)
    → ReadsBack env
    → create_account env provider subject credential name is_guest user d ≡ ok d'
    → ((l : Locked) × (load_snapshot_for_update env user d'.tables ≡ ok (l, d'.tables))
        × IsValid l.snapshot
        × (l.snapshot.owner_id ≡ user)
        × (l.snapshot.version ≡ 0)
        × (length l.snapshot.plots ≡ 12)
        × ((k : ℕ) → 1 ≤ k → k ≤ 12 → lookup k l.snapshot.plots ≡ some (blank k empty)))
      × (d'.tables.wallets user ≡ some 1000)
      × (d'.tables.inventory user seed_item 1 ≡ some 5)
      × ((j : ℕ)
          → j ≢ user
          → (d'.tables.farms j ≡ d.tables.farms j) × (d'.tables.wallets j ≡ d.tables.wallets j))
new_account_is_playable env provider subject credential name is_guest user d d' back h =
    let c = create-Created env provider subject credential name is_guest user d d' h in
    let found : d'.tables.farms user ≡ some (initial_row env user) =
      ap (λ (f : ℕ → Option FarmRow). f user) c.farms ∙ ground arith in
    let reads : unmarshal_plots env (empty_body env num_init_plots)
        ≡ some (empty_plots num_init_plots) =
      ap (unmarshal_plots env) (empty_body-marshal env num_init_plots)
      ∙ unmarshal-marshal env (empty_plots num_init_plots) back
          (empty_plots-IsDistinct num_init_plots) (empty_plots-HasOwnIds num_init_plots) in
    let (l, loads, is) =
      load-row env user (initial_row env user) fresh d'.tables found refl refl refl refl reads in
    (
      (
        l,
        loads,
        subst IsValid (sym is) (record {
          distinct = empty_plots-IsDistinct num_init_plots;
          entries = empty_plots-IsValid num_init_plots;
        }),
        ap (λ (s : Snapshot). s.owner_id) is,
        ap (λ (s : Snapshot). s.version) is,
        ap (λ (s : Snapshot). length s.plots) is ∙ length-empty_plots num_init_plots,
        λ k low high.
            ap (λ (s : Snapshot). lookup k s.plots) is ∙ lookup-found k num_init_plots low high,
      ),
      ap (λ (f : ℕ → Option ℕ). f user) c.wallets ∙ ground arith,
      c.seeds,
      λ j other. (
        ap (λ (f : ℕ → Option FarmRow). f j) c.farms ∙ ground arith,
        ap (λ (f : ℕ → Option ℕ). f j) c.wallets ∙ ground arith,
      ),
    )
  where
    fresh : Snapshot
    fresh = record {
      farm_id = user;
      owner_id = user;
      version = 0;
      route_epoch = 0;
      plots = empty_plots num_init_plots;
    }
