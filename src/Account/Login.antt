-- ===== src/Account/Login.antt =====
-- `GuestLogin`, `Register` and `PasswordLogin` of
-- server/internal/account/infrastructure/mysql_account_service.go: one transaction over the tables,
-- and then a session in Redis.
use farm_server.Base.{
  ℕ, Bool, true, false, not, ◌||◌, String, Option, none, some, put, str_eq, if◌then◌else◌,
}
use farm_server.Errors.{
  Result, ok, err, coded, plain, auth_unauthorized, auth_forbidden, auth_identity_exists,
  common_invalid_argument, is_duplicate_key,
}
use farm_server.Farm.{Time}
use farm_server.Store.{Env}
use farm_server.Sessions.{Redis, create}
use farm_server.Account.{
  Texts, stamp_login, guest_name, guest, local, Identity, AccountRow, Accounts, ◌>>=◌,
  create_account, load_account, requested_name, required_name, normalize_username, is_password,
  hash_password, verify_password,
}

-- What one call draws: its time, an id for a new user, a salt, a session id, and a refresh token by its hash;
-- and whether Redis is down.
pub record Draws : Type 0 where
  pub now : Time
  pub user : Result ℕ
  pub salt : String
  pub session_id : String
  pub token_hash : String
  pub redis_fails : Bool

pub record World : Type 0 where
  pub accounts : Accounts
  pub redis : Redis

-- `createSession`
unfoldable pub create_session : Draws → ℕ → Redis → Result ℕ × Redis
create_session r user redis =
    if r.redis_fails
    then (err plain, redis)
    else (ok user, create r.session_id r.token_hash user redis)

-- The end of each call: a transaction that failed leaves the tables, one that committed is followed by
-- the session, whose failure is an error of the call.
abbrev pub with_session : Draws → World → Result (ℕ × Accounts) → Result ℕ × World
with_session r w (err e) = (err e, w)
with_session r w (ok (user, d)) =
    let (answer, redis) = create_session r user w.redis in
    (answer, record { accounts = d; redis = redis })

abbrev pub loaded : ℕ → Accounts → Result (ℕ × Accounts)
loaded user d = load_account user d >>= λ farm. ok (user, d)

-- `updateGuestDisplayName`; no row changes for an account of another type.
abbrev pub renamed : Option AccountRow → ℕ → String → Accounts → Accounts
renamed none user name d = d
renamed (some row) user name d =
    if row.is_guest
    then record d { tables = record d.tables { accounts = put user (some name) d.tables.accounts } }
    else d

unfoldable pub update_guest_name : ℕ → String → Accounts → Accounts
update_guest_name user name d = if str_eq name "" then d else renamed (d.rows user) user name d

-- The transaction of `GuestLogin`, for a device whose identity is known or not.
abbrev pub guest_tx :
    Texts → Env → Draws → String → String → Option Identity → Accounts → Result (ℕ × Accounts)
guest_tx t env r device name none d = r.user >>= λ user.
    create_account env guest device none (if str_eq name "" then guest_name t device else name) true
      user d
    >>= λ d'. loaded user d'
guest_tx t env r device name (some i) d = loaded i.user_id (update_guest_name i.user_id name d)

unfoldable pub guest_login : Texts → Env → Draws → String → String → World → Result ℕ × World
guest_login t env r device name w =
    with_session r w (
      requested_name t name >>= λ n.
      guest_tx t env r device n (w.accounts.guests device) w.accounts)

-- A duplicate key in `Register` is a user name that was taken in between.
abbrev pub taken_name : Result (ℕ × Accounts) → Result (ℕ × Accounts)
taken_name (ok x) = ok x
taken_name (err e) = if is_duplicate_key e then err (coded auth_identity_exists) else err e

abbrev pub register_tx :
    Texts
    → Env
    → Draws
    → String
    → String
    → String
    → Option Identity
    → Accounts
    → Result (ℕ × Accounts)
register_tx t env r username password name (some i) d = err (coded auth_identity_exists)
register_tx t env r username password name none d =
    taken_name (
      r.user >>= λ user.
      create_account env local username (some (hash_password t r.salt password)) name false user d
      >>= λ d'. ok (user, stamp_login user r.now d'))
    >>= λ x. loaded x.0 x.1

abbrev pub check_password : Texts → String → Result (Unit {0})
check_password t password =
    if is_password t password then ok tt else err (coded common_invalid_argument)

unfoldable pub register : Texts → Env → Draws → String → String → String → World → Result ℕ × World
register t env r username password name w = with_session r w (
    normalize_username t username >>= λ u. check_password t password >>= λ x.
    required_name t name >>= λ n. register_tx t env r u password n (w.accounts.locals u) w.accounts)

-- What the join of `auth_identities` and `accounts` gives for a user name.
abbrev pub joined : Option Identity → Accounts → Option (Identity × AccountRow)
joined none d = none
joined (some i) d = elim (d.rows i.user_id) [ none ↦ none | some row ↦ some (i, row) ]

abbrev pub password_tx :
    Texts → Time → String → Option (Identity × AccountRow) → Accounts → Result (ℕ × Accounts)
password_tx t now password none d = err (coded auth_unauthorized)
password_tx t now password (some (i, row)) d =
    if not (verify_password t i.credential password)
    then err (coded auth_unauthorized)
    else if not i.is_active || not row.is_active
    then err (coded auth_forbidden)
    else loaded i.user_id (stamp_login i.user_id now d)

-- A user name that does not normalise is reported like a wrong one.
abbrev pub unauthorized : Result String → Result String
unauthorized (ok u) = ok u
unauthorized (err e) = err (coded auth_unauthorized)

unfoldable pub password_login : Texts → Draws → String → String → World → Result ℕ × World
password_login t r username password w = with_session r w (
    unauthorized (normalize_username t username) >>= λ u.
    if str_eq password ""
    then err (coded auth_unauthorized)
    else password_tx t r.now password (joined (w.accounts.locals u) w.accounts) w.accounts)
