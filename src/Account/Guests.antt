-- ===== src/Account/Guests.antt =====
-- What an account's creation keeps (`createGuestAccount` and `createRegisteredAccount` of
-- server/internal/account/infrastructure/mysql_account_service.go).
use farm_server.Base.{ℕ, ◌≡◌, ◌∙◌, refl, ap, arith, Bool, true, String, Option, some, eq_iff}
use farm_server.Errors.{Result, ok, err}
use farm_server.Store.{Env}
use farm_server.Account.{
  Provider, guest, local, Credential, Identity, AccountRow, Accounts, ◌>>=◌, insert_account,
  insert_identity, insert_initial_farm, insert_wallet, insert_seeds, create_account,
}

-- No identity and no account is lost or changed.
abbrev pub Extends : Accounts → Accounts → Type 0
Extends d d' =
    ((k : String) (i : Identity) → d.guests k ≡ some i → d'.guests k ≡ some i)
    × ((u : ℕ) (row : AccountRow) → d.rows u ≡ some row → d'.rows u ≡ some row)
    × ((k : String) (i : Identity) → d.locals k ≡ some i → d'.locals k ≡ some i)

pub same-Extends : (d : Accounts) → Extends d d
same-Extends d = (λ k i e. e, λ u row e. e, λ k i e. e)

pub trans-Extends : (a b c : Accounts) → Extends a b → Extends b c → Extends a c
trans-Extends a b c h k =
    (λ s i e. k.0 s i (h.0 s i e), λ u row e. k.1 u row (h.1 u row e), λ s i e. k.2 s i (h.2 s i e))

account-Extends :
    (user : ℕ) (name : String) (is_guest : Bool) (d e : Accounts)
    → insert_account user name is_guest d ≡ ok e
    → Extends d e
unfolding insert_account
account-Extends user name is_guest d e h =
    (λ k i x. ground arith, λ u row x. ground arith, λ k i x. ground arith)

identity-Extends :
    (p : Provider) (subject : String) (user : ℕ) (c : Option Credential) (d e : Accounts)
    → insert_identity p subject user c d ≡ ok e
    → Extends d e
unfolding insert_identity
identity-Extends guest subject user c d e h =
    (λ k i x. ground (arith, eq_iff k subject), λ u row x. ground arith, λ k i x. ground arith)
identity-Extends local subject user c d e h =
    (λ k i x. ground arith, λ u row x. ground arith, λ k i x. ground (arith, eq_iff k subject))

pub identity-found :
    (subject : String) (user : ℕ) (c : Option Credential) (d e : Accounts)
    → insert_identity guest subject user c d ≡ ok e
    → (i : Identity) × (e.guests subject ≡ some i) × (i.user_id ≡ user)
unfolding insert_identity
identity-found subject user c d e h = (
  record { user_id = user; credential = c; is_active = true },
  ground (arith, eq_iff subject subject),
  refl,
)

-- The last three statements touch neither.
tail-same :
    (env : Env) (user : ℕ) (d e : Accounts)
    → (insert_initial_farm env user d >>= insert_wallet user >>= insert_seeds user) ≡ ok e
    → (e.guests ≡ d.guests) × (e.rows ≡ d.rows) × (e.locals ≡ d.locals)
unfolding insert_initial_farm insert_wallet insert_seeds
tail-same env user d e h = (ground arith, ground arith, ground arith)

-- What the first two statements leave, of which the whole creation keeps identities and accounts.
pub create-parts :
    (env : Env) (p : Provider) (subject : String) (c : Option Credential) (name : String)
    (is_guest : Bool) (user : ℕ) (d d' : Accounts)
    → create_account env p subject c name is_guest user d ≡ ok d'
    → (a : Accounts) × (e : Accounts) × (insert_account user name is_guest d ≡ ok a)
      × (insert_identity p subject user c a ≡ ok e)
      × (d'.guests ≡ e.guests)
      × (d'.rows ≡ e.rows)
      × (d'.locals ≡ e.locals)
unfolding create_account
create-parts env p subject c name is_guest user d d' h =
    go (insert_account user name is_guest d) refl h
  where
    next :
        (a : Accounts) (r : Result Accounts)
        → insert_account user name is_guest d ≡ ok a
        → insert_identity p subject user c a ≡ r
        → (r >>= insert_initial_farm env user >>= insert_wallet user >>= insert_seeds user) ≡ ok d'
        → (a : Accounts) × (e : Accounts) × (insert_account user name is_guest d ≡ ok a)
          × (insert_identity p subject user c a ≡ ok e)
          × (d'.guests ≡ e.guests)
          × (d'.rows ≡ e.rows)
          × (d'.locals ≡ e.locals)
    next a (err x) made named k = cc
    next a (ok e) made named k =
        let (guests, rows, locals) = tail-same env user e d' k in
        (a, e, made, named, guests, rows, locals)

    go :
        (r : Result Accounts)
        → insert_account user name is_guest d ≡ r
        → (r
            >>= insert_identity p subject user c
            >>= insert_initial_farm env user
            >>= insert_wallet user
            >>= insert_seeds user)
          ≡ ok d'
        → (a : Accounts) × (e : Accounts) × (insert_account user name is_guest d ≡ ok a)
          × (insert_identity p subject user c a ≡ ok e)
          × (d'.guests ≡ e.guests)
          × (d'.rows ≡ e.rows)
          × (d'.locals ≡ e.locals)
    go (err x) made k = cc
    go (ok a) made k = next a (insert_identity p subject user c a) made refl k

pub create-Extends :
    (env : Env) (p : Provider) (subject : String) (c : Option Credential) (name : String)
    (is_guest : Bool) (user : ℕ) (d d' : Accounts)
    → create_account env p subject c name is_guest user d ≡ ok d'
    → Extends d d'
create-Extends env p subject c name is_guest user d d' h =
    let (a, e, made, named, guests, rows, locals) =
      create-parts env p subject c name is_guest user d d' h in
    let (g, r, l) =
      trans-Extends d a e (account-Extends user name is_guest d a made)
        (identity-Extends p subject user c a e named) in
    (
      λ k i x. ap (λ (f : String → Option Identity). f k) guests ∙ g k i x,
      λ u row x. ap (λ (f : ℕ → Option AccountRow). f u) rows ∙ r u row x,
      λ k i x. ap (λ (f : String → Option Identity). f k) locals ∙ l k i x,
    )

-- The device's identity names an account.
pub record Known (device : String) (user : ℕ) (d : Accounts) : Type 0 where
  pub identity : Identity
  pub row : AccountRow
  pub found : d.guests device ≡ some identity
  pub owner : identity.user_id ≡ user
  pub exists : d.rows user ≡ some row

pub Extends-Known :
    (device : String) (user : ℕ) (d d' : Accounts)
    → Extends d d'
    → Known device user d
    → Known device user d'
Extends-Known device user d d' h k = record {
  identity = k.identity;
  row = k.row;
  found = h.0 device k.identity k.found;
  owner = k.owner;
  exists = h.1 user k.row k.exists;
}
