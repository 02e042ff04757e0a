-- ===== src/Account/Passwords.antt =====
-- A registered player logs in with the password of the registration and with no other (`Register` and
-- `PasswordLogin` of server/internal/account/infrastructure/mysql_account_service.go).
use farm_server.Base.{
  ℕ, ◌≡◌, ◌≢◌, ◌∙◌, refl, sym, ap, subst, arith, true, false, String, List, Option, none, some,
  str_eq, eq_iff, Bool-cases, inl, inr,
}
use farm_server.Errors.{Result, ok, err, coded, auth_unauthorized}
use farm_server.Farm.{Time}
use farm_server.Store.{Env}
use farm_server.Account.{
  Texts, stamp_login, local, Credential, Identity, AccountRow, Accounts, ◌>>=◌, insert_account,
  insert_identity, create_account, normalize_username, required_name, hash_password,
  verify_password,
}
use farm_server.Account.Login.{
  Draws, World, create_session, loaded, taken_name, register_tx, register, check_password,
  password_tx, password_login, joined,
}
use farm_server.Account.Guests.{Extends, create-parts}
use farm_server.Account.Device.{Call, run, run-Extends}
use farm_server.Account.Calls.{
  >>=-eq-ok, loaded-eq-ok, loaded-known, taken-eq-ok, with_session-eq-ok,
}

-- What a registration leaves, and no later call takes away: the credential of its password, for an account that is active.
record Registered (t : Texts) (salt username password : String) (user : ℕ) (d : Accounts)
    : Type 0 where
  row : AccountRow
  found :
      d.locals username
      ≡ some (record {
        user_id = user;
        credential = some (hash_password t salt password);
        is_active = true;
      })
  exists : d.rows user ≡ some row
  active : row.is_active ≡ true

Registered-Extends :
    (t : Texts) (salt username password : String) (user : ℕ) (d e : Accounts)
    → Extends d e
    → Registered t salt username password user d
    → Registered t salt username password user e
Registered-Extends t salt username password user d e (guests, rows, locals) g = record {
  row = g.row;
  found = locals username _ g.found;
  exists = rows user g.row g.exists;
  active = g.active;
}

identity-local :
    (username : String) (user : ℕ) (c : Credential) (d e : Accounts)
    → insert_identity local username user (some c) d ≡ ok e
    → (e.locals username ≡ some (record { user_id = user; credential = some c; is_active = true }))
      × (e.rows ≡ d.rows)
unfolding insert_identity
identity-local username user c d e h = (ground (arith, eq_iff username username), ground arith)

account-row :
    (user : ℕ) (name : String) (d a : Accounts)
    → insert_account user name false d ≡ ok a
    → a.rows user ≡ some (record { farm_id = user; is_guest = false; is_active = true })
unfolding insert_account
account-row user name d a h = ground arith

created-Registered :
    (t : Texts) (env : Env) (salt username password name : String) (user : ℕ) (d e : Accounts)
    → create_account env local username (some (hash_password t salt password)) name false user d
      ≡ ok e
    → Registered t salt username password user e
created-Registered t env salt username password name user d e h =
    let (a, f, made, named, guests, rows, locals) =
      create-parts env local username (some (hash_password t salt password)) name false user d e
        h in
    let (found, same) = identity-local username user (hash_password t salt password) a f named in
    record {
      row = record { farm_id = user; is_guest = false; is_active = true };
      found = ap (λ (g : String → Option Identity). g username) locals ∙ found;
      exists =
          ap (λ (g : ℕ → Option AccountRow). g user) (rows ∙ same) ∙ account-row user name d a made;
      active = refl;
    }

module _ (t : Texts) (env : Env) (r : Draws) where
  stamped-Registered :
      (username password : String) (user : ℕ) (d : Accounts)
      → Registered t r.salt username password user d
      → Registered t r.salt username password user (stamp_login user r.now d)
  stamped-Registered username password user d g = record {
    row = g.row;
    found = g.found;
    exists = g.exists;
    active = g.active;
  }

  register_tx-Registered :
      (username password name : String) (o : Option Identity) (d d' : Accounts) (u : ℕ)
      → register_tx t env r username password name o d ≡ ok (u, d')
      → Registered t r.salt username password u d'
  register_tx-Registered username password name (some i) d d' u h = cc
  register_tx-Registered username password name none d d' u h =
      let (x, made, load) =
        >>=-eq-ok (taken_name (r.user >>= make)) (λ x. loaded x.0 x.1) (u, d') h in
      let (user, drawn, rest) = >>=-eq-ok r.user make x (taken-eq-ok (r.user >>= make) x made) in
      let (e, created, pair) =
        >>=-eq-ok (creation user) (λ d'. ok (user, stamp_login user r.now d')) x rest in
      let (same, kept, row, exists) = loaded-eq-ok x.0 u x.1 d' load in
      let is : x.1 ≡ stamp_login user r.now e = cc pair in
      let who : x.0 ≡ user = cc pair in
      subst (λ v. Registered t r.salt username password v d') (sym (same ∙ who))
        (subst (Registered t r.salt username password user) (sym (kept ∙ is)) (
          stamped-Registered username password user e
            (created-Registered t env r.salt username password name user d e created)))
    where
      creation : ℕ → Result Accounts
      creation user =
          create_account env local username (some (hash_password t r.salt password)) name false user
            d

      make : ℕ → Result (ℕ × Accounts)
      make user = creation user >>= λ d'. ok (user, stamp_login user r.now d')

  register-Registered :
      (username password name : String) (w w' : World) (u : ℕ)
      → register t env r username password name w ≡ (ok u, w')
      → (n : String) × (normalize_username t username ≡ ok n)
        × Registered t r.salt n password u w'.accounts
  unfolding register
  register-Registered username password name w w' u h =
      let (n, e1, h1) =
        >>=-eq-ok (normalize_username t username) checked (u, w'.accounts)
          (with_session-eq-ok r w w' (normalize_username t username >>= checked) u h) in
      let (x, e2, h2) = >>=-eq-ok (check_password t password) (λ x. named n) (u, w'.accounts) h1 in
      let (m, e3, h3) =
        >>=-eq-ok (required_name t name)
          (λ m. register_tx t env r n password m (w.accounts.locals n) w.accounts) (u, w'.accounts)
          h2 in
      (n, e1, register_tx-Registered n password m (w.accounts.locals n) w.accounts w'.accounts u h3)
    where
      named : String → Result (ℕ × Accounts)
      named n = required_name t name >>= λ m.
          register_tx t env r n password m (w.accounts.locals n) w.accounts

      checked : String → Result (ℕ × Accounts)
      checked n = check_password t password >>= λ x. named n

  verified :
      (password other : String)
      → t.id_key password r.salt ≢ ""
      → verify_password t (some (hash_password t r.salt password)) other
        ≡ str_eq (t.id_key other r.salt) (t.id_key password r.salt)
  unfolding verify_password
  verified password other long = ground (arith, eq_iff (t.id_key password r.salt) "")

  right_password :
      (n password : String) (now : Time) (u : ℕ) (d : Accounts)
      → Registered t r.salt n password u d
      → t.id_key password r.salt ≢ ""
      → password_tx t now password (joined (d.locals n) d) d ≡ ok (u, stamp_login u now d)
  right_password n password now u d g long =
      let good : verify_password t (some (hash_password t r.salt password)) password ≡ true =
        verified password password long
        ∙ (eq_iff (t.id_key password r.salt) (t.id_key password r.salt)).1 refl in
      rw (g.found, joined, g.exists, good, g.active)
        (loaded-known u g.row (stamp_login u now d) g.exists)

  wrong_password :
      (n password other : String) (now : Time) (u : ℕ) (d : Accounts)
      → Registered t r.salt n password u d
      → t.id_key password r.salt ≢ ""
      → t.id_key other r.salt ≢ t.id_key password r.salt
      → password_tx t now other (joined (d.locals n) d) d ≡ err (coded auth_unauthorized)
  wrong_password n password other now u d g long differ =
      let bad : verify_password t (some (hash_password t r.salt password)) other ≡ false =
        verified password other long
        ∙ ground (arith, eq_iff (t.id_key other r.salt) (t.id_key password r.salt)) in
      rw (g.found, joined, g.exists, bad) refl

  -- After a registration has succeeded, and whatever logins and registrations of anyone follow: a login
  -- with the same user name and password, which is not empty, while Redis answers, is a login of the
  -- registered user, and changes only the time of the player's last login; a login with another
  -- password, one that Argon2 keys differently under the stored salt, is refused and changes nothing. It
  -- needs that Argon2 never gives an empty key.
  pub registered_player_logs_in :
      (r' : Draws) (username password name other : String) (w w' : World) (u : ℕ) (cs : List Call)
      → register t env r username password name w ≡ (ok u, w')
      → t.id_key password r.salt ≢ ""
      → password ≢ ""
      → r'.redis_fails ≡ false
      → t.id_key other r.salt ≢ t.id_key password r.salt
      → let later = run t env cs w' in
        ((password_login t r' username password later).0 ≡ ok u)
        × ((password_login t r' username password later).1.accounts
            ≡ stamp_login u r'.now later.accounts)
        × (password_login t r' username other later ≡ (err (coded auth_unauthorized), later))
  unfolding password_login create_session
  registered_player_logs_in r' username password name other w w' u cs h long given up differ =
      let (n, e, g) = register-Registered username password name w w' u h in
      let kept =
        Registered-Extends t r.salt n password u w'.accounts (run t env cs w').accounts
          (run-Extends t env cs w') g in
      let filled : str_eq password "" ≡ false = ground (arith, eq_iff password "") in
      let right = right_password n password r'.now u (run t env cs w').accounts kept long in
      let wrong =
        wrong_password n password other r'.now u (run t env cs w').accounts kept long differ in
      (
        rw (e, filled, right, up) refl,
        rw (e, filled, right) refl,
        rw e (elim (Bool-cases (str_eq other "")) [
          | inl blank ↦ rw blank refl
          | inr some_text ↦ rw (some_text, wrong) refl
        ]),
      )
