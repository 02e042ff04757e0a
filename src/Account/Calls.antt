-- ===== src/Account/Calls.antt =====
-- What the logins and registrations keep of the accounts
-- (server/internal/account/infrastructure/mysql_account_service.go).
use farm_server.Base.{
  ℕ, ◌≡◌, ◌∙◌, refl, sym, ap, subst, arith, true, false, not, ◌||◌, String, Option, none, some,
  str_eq, if◌then◌else◌, Bool-cases, Option-cases, inl, inr,
}
use farm_server.Errors.{Result, ok, err, coded, auth_unauthorized}
use farm_server.Farm.{Time}
use farm_server.Store.{Env}
use farm_server.Account.{
  Texts, stamp_login, guest_name, guest, local, Identity, AccountRow, Accounts, ◌>>=◌,
  create_account, load_account, requested_name, required_name, normalize_username, hash_password,
  verify_password,
}
use farm_server.Account.Login.{
  Draws, World, create_session, with_session, loaded, update_guest_name, guest_tx, guest_login,
  taken_name, register_tx, register, check_password, password_tx, password_login, joined,
  unauthorized,
}
use farm_server.Account.Guests.{
  Extends, same-Extends, create-parts, create-Extends, Known, identity-found,
}

pub loaded-eq-ok :
    (user u : ℕ) (d d' : Accounts)
    → loaded user d ≡ ok (u, d')
    → (u ≡ user) × (d' ≡ d) × (row : AccountRow) × (d.rows user ≡ some row)
unfolding load_account
loaded-eq-ok user u d d' h = elim (Option-cases (d.rows user)) [
  | inl e ↦ absurd (ground arith)
  | inr (row, e) ↦ (ground arith, ground arith, row, e)
]

pub loaded-known :
    (user : ℕ) (row : AccountRow) (d : Accounts)
    → d.rows user ≡ some row
    → loaded user d ≡ ok (user, d)
unfolding load_account
loaded-known user row d h = ground arith

pub updated-Extends :
    (user : ℕ) (name : String) (d : Accounts) → Extends d (update_guest_name user name d)
unfolding update_guest_name
updated-Extends user name d =
    (λ k i e. ground arith, λ u row e. ground arith, λ k i e. ground arith)

stamped-Extends : (user : ℕ) (now : Time) (d : Accounts) → Extends d (stamp_login user now d)
stamped-Extends user now d = (λ k i e. e, λ u row e. e, λ k i e. e)

created-Known :
    (t : Texts) (env : Env) (device name : String) (user u : ℕ) (d e d' : Accounts)
    → create_account env guest device none name true user d ≡ ok e
    → loaded user e ≡ ok (u, d')
    → Extends d d' × Known device u d'
created-Known t env device name user u d e d' made load =
    let (a, f, first, named, guests, rows, locals) =
      create-parts env guest device none name true user d e made in
    let (i, found, owner) = identity-found device user none a f named in
    let (same, kept, row, exists) = loaded-eq-ok user u e d' load in
    (
      subst (Extends d) (sym kept) (create-Extends env guest device none name true user d e made),
      subst (Known device u) (sym kept) (record {
        identity = i;
        row = row;
        found = ap (λ (g : String → Option Identity). g device) guests ∙ found;
        owner = owner ∙ sym same;
        exists = subst (λ x. e.rows x ≡ some row) (sym same) exists;
      }),
    )

pub guest_tx-Known :
    (t : Texts) (env : Env) (r : Draws) (device name : String) (o : Option Identity)
    (d d' : Accounts) (u : ℕ)
    → d.guests device ≡ o
    → guest_tx t env r device name o d ≡ ok (u, d')
    → Extends d d' × Known device u d'
guest_tx-Known t env r device name none d d' u known h = go r.user h
  where
    named : String
    named = if str_eq name "" then guest_name t device else name

    made :
        (user : ℕ) (x : Result Accounts)
        → create_account env guest device none named true user d ≡ x
        → (x >>= λ e. loaded user e) ≡ ok (u, d')
        → Extends d d' × Known device u d'
    made user (err e) c k = cc
    made user (ok e) c k = created-Known t env device named user u d e d' c k

    go :
        (x : Result ℕ)
        → (x >>= λ user.
            create_account env guest device none named true user d >>= λ e. loaded user e)
          ≡ ok (u, d')
        → Extends d d' × Known device u d'
    go (err e) k = cc
    go (ok user) k = made user (create_account env guest device none named true user d) refl k
guest_tx-Known t env r device name (some i) d d' u known h =
    let e : Accounts = update_guest_name i.user_id name d in
    let (same, kept, row, exists) = loaded-eq-ok i.user_id u e d' h in
    let extends = updated-Extends i.user_id name d in
    (
      subst (Extends d) (sym kept) extends,
      subst (Known device u) (sym kept) (record {
        identity = i;
        row = row;
        found = extends.0 device i known;
        owner = sym same;
        exists = subst (λ x. e.rows x ≡ some row) (sym same) exists;
      }),
    )

-- A call keeps what its transaction keeps.
with_session-Extends :
    (r : Draws) (w : World) (x : Result (ℕ × Accounts))
    → ((u : ℕ) (d : Accounts) → x ≡ ok (u, d) → Extends w.accounts d)
    → Extends w.accounts (with_session r w x).1.accounts
with_session-Extends r w (err e) h = same-Extends w.accounts
with_session-Extends r w (ok (u, d)) h = h u d refl

pub >>=-eq-ok :
    {A B : Type 0} (m : Result A) (f : A → Result B) (b : B)
    → (m >>= f) ≡ ok b
    → (a : A) × (m ≡ ok a) × (f a ≡ ok b)
>>=-eq-ok (ok a) f b h = (a, refl, h)
>>=-eq-ok (err e) f b h = cc

pub taken-eq-ok : (y : Result (ℕ × Accounts)) (x : ℕ × Accounts) → taken_name y ≡ ok x → y ≡ ok x
taken-eq-ok (ok y) x h = h
taken-eq-ok (err e) x h = absurd (ground arith)

module _ (t : Texts) (env : Env) (r : Draws) where
  pub guest_login-Extends :
      (device name : String) (w : World)
      → Extends w.accounts (guest_login t env r device name w).1.accounts
  unfolding guest_login
  guest_login-Extends device name w =
      with_session-Extends r w
        (requested_name t name >>= λ n.
          guest_tx t env r device n (w.accounts.guests device) w.accounts)
        λ u d h.
          let (n, ok_name, tx) =
            >>=-eq-ok (requested_name t name)
              (λ n. guest_tx t env r device n (w.accounts.guests device) w.accounts) (u, d) h in
          (guest_tx-Known t env r device n (w.accounts.guests device) w.accounts d u refl tx).0

  register_tx-Extends :
      (username password name : String) (o : Option Identity) (d d' : Accounts) (u : ℕ)
      → register_tx t env r username password name o d ≡ ok (u, d')
      → Extends d d'
  register_tx-Extends username password name (some i) d d' u h = cc
  register_tx-Extends username password name none d d' u h =
      let (x, made, load) =
        >>=-eq-ok (taken_name (r.user >>= make)) (λ x. loaded x.0 x.1) (u, d') h in
      let (user, drawn, rest) = >>=-eq-ok r.user make x (taken-eq-ok (r.user >>= make) x made) in
      let (e, created, pair) =
        >>=-eq-ok (creation user) (λ d'. ok (user, stamp_login user r.now d')) x rest in
      let (same, kept, row, exists) = loaded-eq-ok x.0 u x.1 d' load in
      let is : x.1 ≡ stamp_login user r.now e = cc pair in
      subst (Extends d) (sym (kept ∙ is)) (
        create-Extends env local username (some (hash_password t r.salt password)) name false user d
          e created)
    where
      creation : ℕ → Result Accounts
      creation user =
          create_account env local username (some (hash_password t r.salt password)) name false user
            d

      make : ℕ → Result (ℕ × Accounts)
      make user = creation user >>= λ d'. ok (user, stamp_login user r.now d')

  pub register-Extends :
      (username password name : String) (w : World)
      → Extends w.accounts (register t env r username password name w).1.accounts
  unfolding register
  register-Extends username password name w =
      with_session-Extends r w
        (normalize_username t username >>= λ u. check_password t password >>= λ x.
          required_name t name >>= λ n.
          register_tx t env r u password n (w.accounts.locals u) w.accounts)
        λ u d h.
          let (user, e1, h1) =
            >>=-eq-ok (normalize_username t username)
              (λ u. check_password t password >>= λ x. required_name t name >>= λ n.
                register_tx t env r u password n (w.accounts.locals u) w.accounts)
              (u, d) h in
          let (x, e2, h2) =
            >>=-eq-ok (check_password t password)
              (λ x. required_name t name >>= λ n.
                register_tx t env r user password n (w.accounts.locals user) w.accounts)
              (u, d) h1 in
          let (n, e3, h3) =
            >>=-eq-ok (required_name t name)
              (λ n. register_tx t env r user password n (w.accounts.locals user) w.accounts) (u, d)
              h2 in
          register_tx-Extends user password n (w.accounts.locals user) w.accounts d u h3

  password_tx-Extends :
      (password : String) (o : Option (Identity × AccountRow)) (d d' : Accounts) (u : ℕ)
      → password_tx t r.now password o d ≡ ok (u, d')
      → Extends d d'
  password_tx-Extends password none d d' u h = cc
  password_tx-Extends password (some (i, row)) d d' u h =
      elim (Bool-cases (verify_password t i.credential password)) [
        | inr wrong ↦ absurd (ground (arith, h))
        | inl good ↦ elim (Bool-cases (not i.is_active || not row.is_active)) [
          | inl closed ↦ absurd (ground (arith, h))
          | inr opened ↦
              let stamped : Accounts = stamp_login i.user_id r.now d in
              subst (Extends d)
                (sym (loaded-eq-ok i.user_id u stamped d' (rw (good, opened) at h)).1)
                (stamped-Extends i.user_id r.now d)
        ]
      ]

  pub password_login-Extends :
      (username password : String) (w : World)
      → Extends w.accounts (password_login t r username password w).1.accounts
  unfolding password_login
  password_login-Extends username password w =
      with_session-Extends r w (unauthorized (normalize_username t username) >>= check) λ u d h.
        let (user, e, k) =
          >>=-eq-ok (unauthorized (normalize_username t username)) check (u, d) h in
        elim (Bool-cases (str_eq password "")) [
          | inl blank ↦ absurd (ground (arith, k))
          | inr given ↦
              password_tx-Extends password (joined (w.accounts.locals user) w.accounts) w.accounts d
                u (ground (arith, k))
        ]
    where
      check : String → Result (ℕ × Accounts)
      check u =
          if str_eq password ""
          then err (coded auth_unauthorized)
          else password_tx t r.now password (joined (w.accounts.locals u) w.accounts) w.accounts

pub with_session-eq-ok :
    (r : Draws) (w w' : World) (x : Result (ℕ × Accounts)) (u : ℕ)
    → with_session r w x ≡ (ok u, w')
    → x ≡ ok (u, w'.accounts)
unfolding create_session
with_session-eq-ok r w w' (err e) u h = absurd (ground arith)
with_session-eq-ok r w w' (ok (v, d)) u h = ground arith
