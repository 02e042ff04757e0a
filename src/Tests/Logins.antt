-- ===== src/Tests/Logins.antt =====
-- Accounts at concrete inputs: a device that logs in, and a player who registers.
use farm_server.Base.{
  ◌≤◌, lookup, List, [], ◌∷◌, ℕ, ◌≡◌, ◌≢◌, refl, arith, true, false, [], ◌∷◌, none, some, length,
  eq_iff,
}
use farm_server.Errors.{Result, ok, err, coded, auth_unauthorized}
use farm_server.Store.{seed_item}
use farm_server.Farm.Apply.Valid.{IsValid}
use farm_server.Commit.Rows.{Locked, load_snapshot_for_update}
use farm_server.Account.{
  Texts, guest, Accounts, create_account, insert_account, insert_identity, insert_initial_farm,
  insert_wallet, insert_seeds, requested_name, load_account, normalize_username, all_name_chars,
  char_count, is_password, required_name,
}
use farm_server.Account.Passwords.{registered_player_logs_in}
use farm_server.Account.Login.{Draws, World, register, password_login, guest_login, create_session}
use farm_server.Farm.{blank, empty}
use farm_server.Account.{stamp_login}
use farm_server.Account.Device.{Call, guest_call, run, SameAssets, same_device_same_account}
use farm_server.Account.NewFarm.{new_account_is_playable}
use farm_server.Tests.Data.{now, test_env, test_env-ReadsBack, test_db}

abbrev texts : Texts
texts = record {
  trim = λ s. s;
  lower = λ s. s;
  rune_count = λ s. 5;
  byte_count = λ s. 9;
  first_bytes = λ n s. "prefix";
  id_key = λ password salt. "key";
}

abbrev nobody : Accounts
nobody = record {
  guests = λ s. none;
  locals = λ s. none;
  rows = λ u. none;
  tables = test_db;
  last_login = λ u. none;
}

abbrev draws : ℕ → Draws
draws user = record {
  now = now;
  user = ok user;
  salt = "salt";
  session_id = "s";
  token_hash = "t";
  redis_fails = false;
}

abbrev at_first : World
at_first = record {
  accounts = nobody;
  redis = record { sessions = λ s. none; refresh = λ h. none };
}

abbrev player_9 : Result Accounts
player_9 = create_account test_env guest "device" none "Guest" true 9 nobody

abbrev accounts_of : Result Accounts → Accounts
accounts_of (ok d) = d
accounts_of (err e) = nobody

player_9-ok : player_9 ≡ ok (accounts_of player_9)
unfolding create_account insert_account insert_identity insert_initial_farm insert_wallet
    insert_seeds
player_9-ok = refl

new_account_is_playable_example :
    ((l : Locked) × (load_snapshot_for_update test_env 9 (accounts_of player_9).tables
        ≡ ok (l, (accounts_of player_9).tables))
      × IsValid l.snapshot
      × (l.snapshot.owner_id ≡ 9)
      × (l.snapshot.version ≡ 0)
      × (length l.snapshot.plots ≡ 12)
      × ((k : ℕ) → 1 ≤ k → k ≤ 12 → lookup k l.snapshot.plots ≡ some (blank k empty)))
    × ((accounts_of player_9).tables.wallets 9 ≡ some 1000)
    × ((accounts_of player_9).tables.inventory 9 seed_item 1 ≡ some 5)
    × ((j : ℕ)
        → j ≢ 9
        → ((accounts_of player_9).tables.farms j ≡ nobody.tables.farms j)
          × ((accounts_of player_9).tables.wallets j ≡ nobody.tables.wallets j))
new_account_is_playable_example =
    new_account_is_playable test_env guest "device" none "Guest" true 9 nobody
      (accounts_of player_9) test_env-ReadsBack player_9-ok

abbrev logged_in : World
logged_in = (guest_login texts test_env (draws 9) "device" "" at_first).1

logged_in-ok : guest_login texts test_env (draws 9) "device" "" at_first ≡ (ok 9, logged_in)
unfolding guest_login create_account insert_account insert_identity insert_initial_farm
    insert_wallet insert_seeds requested_name load_account create_session
logged_in-ok = refl

-- Another device logs in before the first one comes back.
same_device_same_account_example :
    ((guest_login texts test_env
        (draws 11)
        "device"
        "Ann"
        (run texts test_env (guest_call (draws 10) "other" "" ∷ []) logged_in)).0
      ≡ ok 9)
    × SameAssets texts test_env 9
        (run texts test_env (guest_call (draws 10) "other" "" ∷ []) logged_in).accounts
        (guest_login texts test_env
          (draws 11)
          "device"
          "Ann"
          (run texts test_env (guest_call (draws 10) "other" "" ∷ []) logged_in)).1.accounts
unfolding requested_name
same_device_same_account_example =
    same_device_same_account texts test_env (draws 9) (draws 11) "device" "" "Ann" "Ann" at_first
      logged_in 9 (guest_call (draws 10) "other" "" ∷ []) logged_in-ok refl refl

-- Argon2 stood in for by the password itself.
abbrev plain_texts : Texts
plain_texts = record texts { rune_count = λ s. 9; id_key = λ password salt. password }

abbrev registered : World
registered = (register plain_texts test_env (draws 9) "anna" "password" "Anna" at_first).1

registered-ok :
    register plain_texts test_env (draws 9) "anna" "password" "Anna" at_first ≡ (ok 9, registered)
unfolding register normalize_username all_name_chars char_count is_password required_name
    requested_name create_account insert_account insert_identity insert_initial_farm insert_wallet
    insert_seeds load_account create_session
registered-ok = refl

abbrev meanwhile : List Call
meanwhile = guest_call (draws 10) "other" "" ∷ []

registered_player_logs_in_example :
    ((password_login plain_texts
        (draws 0)
        "anna"
        "password"
        (run plain_texts test_env meanwhile registered)).0
      ≡ ok 9)
    × ((password_login plain_texts
          (draws 0)
          "anna"
          "password"
          (run plain_texts test_env meanwhile registered)).1.accounts
        ≡ stamp_login 9 now (run plain_texts test_env meanwhile registered).accounts)
    × (password_login plain_texts
          (draws 0)
          "anna"
          "guess"
          (run plain_texts test_env meanwhile registered)
        ≡ (err (coded auth_unauthorized), run plain_texts test_env meanwhile registered))
registered_player_logs_in_example =
    registered_player_logs_in plain_texts test_env (draws 9) (draws 0) "anna" "password" "Anna"
      "guess" at_first registered 9 meanwhile registered-ok
      (λ e. ground (arith, eq_iff "password" "")) (λ e. ground (arith, eq_iff "password" "")) refl
      (λ e. ground (arith, eq_iff "guess" "password"))
