-- ===== src/Account.antt =====
-- Accounts (server/internal/account/infrastructure/mysql_account_service.go and password.go): the
-- tables, the statements of a transaction and what the texts of a request are checked for. Sessions
-- are in farm_server.Sessions.
pub mod Login
pub mod Guests
pub mod Calls
pub mod Device
pub mod Passwords
pub mod NewFarm
use Prim.Native.Char.{code}
use Prim.Native.String
use farm_server.Base.{
  ℕ, suc, zero, ◌+◌, Bool, true, false, not, ◌&&◌, ◌||◌, String, List, [], ◌∷◌, Option, none, some,
  ltb, leb, ◌==◌, str_eq, if◌then◌else◌, put,
}
use farm_server.Errors.{
  Error, Result, ok, err, coded, mysql, plain, common_invalid_argument, auth_unauthorized,
}
use farm_server.Farm.{Time, empty, zero_time}
use farm_server.Store.{Env, Db, FarmRow, PlotJson, ItemType, seed_item}

-- The stored form of a password, as the parts that `hashPassword` prints.
pub record Credential : Type 0 where
  pub salt : String
  pub key : String

-- Functions from outside: `strings.TrimSpace`, `strings.ToLower`, `utf8.RuneCountInString`, `len`,
-- a slice `s[:n]` of the bytes, and `argon2.IDKey` with the parameters that `hashPassword` uses.
pub record Texts : Type 0 where
  pub trim : String → String
  pub lower : String → String
  pub rune_count : String → ℕ
  pub byte_count : String → ℕ
  pub first_bytes : ℕ → String → String
  pub id_key : String → String → String

pub data Provider : Type 0 where
  guest local : Provider

-- A row of `auth_identities`, unique by provider and subject.
pub record Identity : Type 0 where
  pub user_id : ℕ
  pub credential : Option Credential
  pub is_active : Bool

-- A row of `accounts`; its display name is the column that the committer reads too.
pub record AccountRow : Type 0 where
  pub farm_id : ℕ
  pub is_guest : Bool
  pub is_active : Bool

pub record Accounts : Type 0 where
  pub guests : String → Option Identity
  pub locals : String → Option Identity
  pub rows : ℕ → Option AccountRow
  pub tables : Db
  -- the column `last_login_at` of `accounts`; a guest's is never set
  pub last_login : ℕ → Option Time

infixl 5 ◌>>=◌
abbrev pub ◌>>=◌ : {A B : Type 0} → Result A → (A → Result B) → Result B
ok a >>= f = f a
err e >>= f = err e

abbrev pub duplicate : Error
duplicate = mysql 1062

abbrev pub set_identity : String → Identity → (String → Option Identity) → String → Option Identity
set_identity k v f j = if str_eq j k then some v else f j

unfoldable pub insert_account : ℕ → String → Bool → Accounts → Result Accounts
insert_account user name is_guest d = elim (d.rows user) [
  | some row ↦ err duplicate
  | none ↦ ok (record d {
    rows =
        put user (some (record { farm_id = user; is_guest = is_guest; is_active = true })) d.rows;
    tables = record d.tables { accounts = put user (some name) d.tables.accounts };
  })
]

unfoldable pub insert_identity :
    Provider → String → ℕ → Option Credential → Accounts → Result Accounts
insert_identity guest subject user credential d = elim (d.guests subject) [
  | some i ↦ err duplicate
  | none ↦ ok (record d {
    guests =
        set_identity subject (record { user_id = user; credential = credential; is_active = true })
          d.guests;
  })
]
insert_identity local subject user credential d = elim (d.locals subject) [
  | some i ↦ err duplicate
  | none ↦ ok (record d {
    locals =
        set_identity subject (record { user_id = user; credential = credential; is_active = true })
          d.locals;
  })
]

-- The JSON of `n` empty plots, the last id first.
abbrev pub empty_plot : PlotJson
empty_plot = record {
  crop_id = "";
  status = empty;
  planted_at = zero_time;
  mature_at = zero_time;
  watered_count = 0;
  remaining_yield = some 0;
}

unfoldable pub empty_body : Env → ℕ → List (String × PlotJson)
empty_body env zero = []
empty_body env (suc n) = (env.itoa (suc n), empty_plot) ∷ empty_body env n

abbrev pub num_init_plots : ℕ
num_init_plots = 12

abbrev pub initial_row : Env → ℕ → FarmRow
initial_row env user = record {
  owner_user_id = user;
  version = 0;
  body = empty_body env num_init_plots;
  route_epoch = 0;
  next_pet_action_at = none;
  pet_scan_lease_owner = none;
  pet_scan_lease_until = none;
}

-- `insertInitialFarm`
unfoldable pub insert_initial_farm : Env → ℕ → Accounts → Result Accounts
insert_initial_farm env user d = elim (d.tables.farms user) [
  | some row ↦ err duplicate
  | none ↦ ok (record d {
    tables = record d.tables { farms = put user (some (initial_row env user)) d.tables.farms };
  })
]

unfoldable pub insert_wallet : ℕ → Accounts → Result Accounts
insert_wallet user d = elim (d.tables.wallets user) [
  | some coins ↦ err duplicate
  | none ↦
      ok (record d { tables = record d.tables { wallets = put user (some 1000) d.tables.wallets } })
]

abbrev pub is_seed : ItemType → Bool
is_seed seed_item = true
is_seed _ = false

-- Five seeds of wheat, item 1.
unfoldable pub insert_seeds : ℕ → Accounts → Result Accounts
insert_seeds user d = elim (d.tables.inventory user seed_item 1) [
  | some n ↦ err duplicate
  | none ↦ ok (record d {
    tables = record d.tables {
      inventory =
          λ u t i. if u == user && is_seed t && (i == 1) then some 5 else d.tables.inventory u t i;
    };
  })
]

-- The name that `createGuestAccount` gives to a device without one.
unfoldable pub guest_name : Texts → String → String
guest_name t device =
    String.◌++◌ "Guest_" (if ltb 8 (t.byte_count device) then t.first_bytes 8 device else device)

-- `createGuestAccount` and `createRegisteredAccount`, with the id that is drawn for the user.
unfoldable pub create_account :
    Env → Provider → String → Option Credential → String → Bool → ℕ → Accounts → Result Accounts
create_account env provider subject credential name is_guest user d =
    insert_account user name is_guest d
    >>= insert_identity provider subject user credential
    >>= insert_initial_farm env user
    >>= insert_wallet user
    >>= insert_seeds user

-- `last_login_at`, as a registration and each password login set it.
abbrev pub stamp_login : ℕ → Time → Accounts → Accounts
stamp_login user now d = record d { last_login = put user (some now) d.last_login }

-- `loadAccount`
unfoldable pub load_account : ℕ → Accounts → Result ℕ
load_account user d = elim (d.rows user) [
  | none ↦ err (coded auth_unauthorized)
  | some row ↦ ok row.farm_id
]

-- `normalizeRequestedDisplayName` and `normalizeRequiredDisplayName`
unfoldable pub requested_name : Texts → String → Result String
requested_name t name =
    if ltb 64 (t.rune_count (t.trim name))
    then err (coded common_invalid_argument)
    else ok (t.trim name)

abbrev pub at_least_two : Texts → String → Result String
at_least_two t name =
    if ltb (t.rune_count name) 2 then err (coded common_invalid_argument) else ok name

unfoldable pub required_name : Texts → String → Result String
required_name t name = requested_name t name >>= at_least_two t

-- `localUsernamePattern`: 4 to 32 lower-case letters, digits and underscores.
abbrev pub is_name_char : ℕ → Bool
is_name_char c = leb b'a' c && leb c b'z' || leb b'0' c && leb c b'9' || (c == b'_')

unfoldable pub all_name_chars : String → Bool
all_name_chars String.[] = true
all_name_chars (String.◌∷◌ c s) = is_name_char (code c) && all_name_chars s

unfoldable pub char_count : String → ℕ
char_count String.[] = 0
char_count (String.◌∷◌ c s) = suc (char_count s)

-- `normalizeUsername`
unfoldable pub normalize_username : Texts → String → Result String
normalize_username t name =
    let n = t.lower (t.trim name) in
    if all_name_chars n && leb 4 (char_count n) && leb (char_count n) 32
    then ok n
    else err (coded common_invalid_argument)

-- `validatePassword`
unfoldable pub is_password : Texts → String → Bool
is_password t password = not (ltb (t.rune_count password) 8 || ltb 128 (t.byte_count password))

-- `hashPassword` with its random salt, and `verifyPassword`.
abbrev pub hash_password : Texts → String → String → Credential
hash_password t salt password = record { salt = salt; key = t.id_key password salt }

unfoldable pub verify_password : Texts → Option Credential → String → Bool
verify_password t none password = false
verify_password t (some c) password =
    not (str_eq c.key "") && str_eq (t.id_key password c.salt) c.key
