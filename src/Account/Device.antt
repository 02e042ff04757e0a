-- ===== src/Account/Device.antt =====
-- One device is one account (`GuestLogin` of
-- server/internal/account/infrastructure/mysql_account_service.go), whatever logins come in between.
use farm_server.Base.{ℕ, ◌≡◌, ◌≢◌, refl, sym, subst, arith, false, String, List, [], ◌∷◌}
use farm_server.Errors.{ok}
use farm_server.Store.{Env}
use farm_server.Account.{Texts, Accounts, ◌>>=◌, requested_name}
use farm_server.Account.Login.{
  Draws, World, create_session, loaded, update_guest_name, guest_tx, guest_login, register,
  password_login,
}
use farm_server.Account.Guests.{Extends, same-Extends, trans-Extends, Known, Extends-Known}
use farm_server.Account.Calls.{
  loaded-known, updated-Extends, guest_tx-Known, with_session-eq-ok, >>=-eq-ok, guest_login-Extends,
  register-Extends, password_login-Extends,
}

-- Any of the three calls, with what it draws.
pub data Call : Type 0 where
  guest_call : Draws → String → String → Call
  register_call : Draws → String → String → String → Call
  password_call : Draws → String → String → Call

module _ (t : Texts) (env : Env) where
  unfoldable pub after : Call → World → World
  after (guest_call r device name) w = (guest_login t env r device name w).1
  after (register_call r username password name) w = (register t env r username password name w).1
  after (password_call r username password) w = (password_login t r username password w).1

  unfoldable pub run : List Call → World → World
  run [] w = w
  run (c ∷ cs) w = run cs (after c w)

  after-Extends : (c : Call) (w : World) → Extends w.accounts (after c w).accounts
  unfolding after
  after-Extends (guest_call r device name) w = guest_login-Extends t env r device name w
  after-Extends (register_call r username password name) w =
      register-Extends t env r username password name w
  after-Extends (password_call r username password) w =
      password_login-Extends t env r username password w

  pub run-Extends : (cs : List Call) (w : World) → Extends w.accounts (run cs w).accounts
  unfolding run
  run-Extends [] w = same-Extends w.accounts
  run-Extends (c ∷ cs) w =
      trans-Extends w.accounts (after c w).accounts (run cs (after c w)).accounts
        (after-Extends c w) (run-Extends cs (after c w))

  first_login-Known :
      (r : Draws) (device name : String) (w w' : World) (u : ℕ)
      → guest_login t env r device name w ≡ (ok u, w')
      → Known device u w'.accounts
  unfolding guest_login
  first_login-Known r device name w w' u h =
      let (n, e, tx) =
        >>=-eq-ok (requested_name t name)
          (λ n. guest_tx t env r device n (w.accounts.guests device) w.accounts) (u, w'.accounts)
          (with_session-eq-ok r w w'
            (requested_name t name >>= λ n.
              guest_tx t env r device n (w.accounts.guests device) w.accounts)
            u h) in
      (guest_tx-Known t env r device n (w.accounts.guests device) w.accounts w'.accounts u refl
        tx).1

  -- What a login of a guest leaves as it is: everything modelled but the player's own display name.
  abbrev pub SameAssets : ℕ → Accounts → Accounts → Type 0
  SameAssets user d d' =
      (d'.guests ≡ d.guests)
      × (d'.locals ≡ d.locals)
      × (d'.last_login ≡ d.last_login)
      × (d'.rows ≡ d.rows)
      × (d'.tables.farms ≡ d.tables.farms)
      × (d'.tables.wallets ≡ d.tables.wallets)
      × (d'.tables.inventory ≡ d.tables.inventory)
      × ((j : ℕ) → j ≢ user → d'.tables.accounts j ≡ d.tables.accounts j)

  updated-SameAssets :
      (user : ℕ) (name : String) (d : Accounts) → SameAssets user d (update_guest_name user name d)
  unfolding update_guest_name
  updated-SameAssets user name d = (
    ground arith,
    ground arith,
    ground arith,
    ground arith,
    ground arith,
    ground arith,
    ground arith,
    λ j ne. ground arith,
  )

  second_login :
      (r : Draws) (device name n : String) (w : World) (u : ℕ)
      → Known device u w.accounts
      → requested_name t name ≡ ok n
      → r.redis_fails ≡ false
      → ((guest_login t env r device name w).0 ≡ ok u)
        × ((guest_login t env r device name w).1.accounts ≡ update_guest_name u n w.accounts)
  unfolding guest_login create_session
  second_login r device name n w u k named up =
      let owned : loaded k.identity.user_id (update_guest_name k.identity.user_id n w.accounts)
          ≡ ok (u, update_guest_name u n w.accounts) =
        subst
          (λ v.
            loaded v (update_guest_name v n w.accounts) ≡ ok (u, update_guest_name u n w.accounts))
          (sym k.owner)
          (loaded-known u k.row (update_guest_name u n w.accounts)
            ((updated-Extends u n w.accounts).1 u k.row k.exists)) in
      rw (named, k.found, owned, up) (refl, refl)

  -- After a guest login of a device has succeeded, and whatever logins and registrations of anyone
  -- follow: another login of the device with a name that is not too long, while Redis answers, is a
  -- login of the same user, and creates nothing: all identities, rows of accounts, farms, coins and
  -- items stay as they are, and all display names but the player's own.
  pub same_device_same_account :
      (r r' : Draws) (device name name' n : String) (w w' : World) (u : ℕ) (cs : List Call)
      → guest_login t env r device name w ≡ (ok u, w')
      → requested_name t name' ≡ ok n
      → r'.redis_fails ≡ false
      → ((guest_login t env r' device name' (run cs w')).0 ≡ ok u)
        × SameAssets u
            (run cs w').accounts
            (guest_login t env r' device name' (run cs w')).1.accounts
  same_device_same_account r r' device name name' n w w' u cs h named up =
      let known =
        Extends-Known device u w'.accounts (run cs w').accounts (run-Extends cs w')
          (first_login-Known r device name w w' u h) in
      let (answer, left) = second_login r' device name' n (run cs w') u known named up in
      (
        answer,
        subst (SameAssets u (run cs w').accounts) (sym left)
            (updated-SameAssets u n (run cs w').accounts),
      )
