-- ===== src/Sessions.antt =====
-- Login sessions in Redis (server/pkg/redisstore/refresh_store.go), and `RefreshSession` and `Logout`
-- of server/internal/account/infrastructure/mysql_account_service.go over them. A Lua script is one
-- atomic step. The hash of a token (`hashRefreshToken`) and `strings.TrimSpace` are parameters.
pub mod Spent
pub mod Owner
pub mod Connection
use farm_server.Base.{
  ℕ, ◌+◌, Bool, true, false, not, ◌&&◌, String, List, [], ◌∷◌, Option, none, some, ◌==◌, str_eq,
  if◌then◌else◌,
}
use farm_server.Errors.{Error, Result, ok, err, coded, common_invalid_argument, auth_unauthorized}

-- The hash under `auth:session:{id}`; its fields are written together.
pub record AuthSession : Type 0 where
  pub user_id : ℕ
  pub refresh_hash : String
  pub is_active : Bool

-- The hashes `auth:session:{id}` and the keys `refresh:{hash}`. A key that expires is gone.
pub record Redis : Type 0 where
  pub sessions : String → Option AuthSession
  pub refresh : String → Option ℕ

-- Writing and deleting one key.
abbrev pub set_key : {A : Type 0} → String → Option A → (String → Option A) → String → Option A
set_key k v f j = if str_eq j k then v else f j

abbrev pub new_session : ℕ → String → AuthSession
new_session user hash = record { user_id = user; refresh_hash = hash; is_active = true }

abbrev pub is_user : ℕ → Option ℕ → Bool
is_user user none = false
is_user user (some u) = u == user

-- `Create`
unfoldable pub create : String → String → ℕ → Redis → Redis
create sid hash user r = record {
  sessions = set_key sid (some (new_session user hash)) r.sessions;
  refresh = set_key hash (some user) r.refresh;
}

-- `IsActive`
unfoldable pub is_session_active : String → ℕ → Redis → Bool
is_session_active sid user r = elim (r.sessions sid) [
  | none ↦ false
  | some s ↦ s.user_id == user && s.is_active
]

-- The tests of `rotateRefreshScript`: the user of the session to which the token is bound.
unfoldable pub bound_user : String → String → Redis → Option ℕ
bound_user sid hash r = elim (r.sessions sid) [
  | none ↦ none
  | some s ↦
      if s.is_active && str_eq s.refresh_hash hash && is_user s.user_id (r.refresh hash)
      then some s.user_id
      else none
]

-- The writes of `rotateRefreshScript` and `migrateLegacyRefreshScript`: the old token goes, the new
-- one is bound to the session.
unfoldable pub replace_token : String → String → String → ℕ → Redis → Redis
replace_token sid old new user r = record {
  sessions = set_key sid (some (new_session user new)) r.sessions;
  refresh = set_key new (some user) (set_key old none r.refresh);
}

-- `Rotate`: the user, or `none` for the 0 of the script.
unfoldable pub rotate : String → String → String → Redis → Option ℕ × Redis
rotate sid old new r = elim (bound_user sid old r) [
  | none ↦ (none, r)
  | some user ↦ (some user, replace_token sid old new user r)
]

abbrev pub is_missing : Option AuthSession → Bool
is_missing none = true
is_missing (some s) = false

-- `MigrateLegacy`, for a session id that Redis does not hold.
unfoldable pub migrate_legacy : String → String → String → Redis → Option ℕ × Redis
migrate_legacy sid old new r =
    if not (is_missing (r.sessions sid)) then (none, r) else elim (r.refresh old) [
      | none ↦ (none, r)
      | some user ↦ (some user, replace_token sid old new user r)
    ]

-- The tests of `deleteRefreshScript`: unlike a rotation it does not read the status.
unfoldable pub owns_session : String → String → Redis → Bool
owns_session sid hash r = elim (r.sessions sid) [
  | none ↦ false
  | some s ↦ str_eq s.refresh_hash hash && is_user s.user_id (r.refresh hash)
]

-- `DeleteSession`; the message to the gateway that holds the user's connection is left out.
unfoldable pub delete_session : String → String → Redis → Bool × Redis
delete_session sid hash r =
    if owns_session sid hash r
    then (
      true,
      record { sessions = set_key sid none r.sessions; refresh = set_key hash none r.refresh },
    )
    else (false, r)

module _ (hash : String → String) (is_blank : String → Bool) where
  -- The rest of `RefreshSession` after a rotation: a session id that Redis does not know is taken
  -- over from the old format. A user id of 0 is no user.
  unfoldable pub after_rotation : String → String → String → Option ℕ × Redis → Result ℕ × Redis
  after_rotation sid old new (some user, r) = (ok user, r)
  after_rotation sid old new (none, r) =
      let (found, r') = migrate_legacy sid old new r in
      elim found [ none ↦ (err (coded auth_unauthorized), r') | some user ↦ (ok user, r') ]

  -- `RefreshSession` with the new token that it draws: the user that it signs an access token for.
  unfoldable pub refresh_session : String → String → String → Redis → Result ℕ × Redis
  refresh_session sid token new_token r =
      if is_blank sid
      then (err (coded auth_unauthorized), r)
      else if is_blank token
      then (err (coded auth_unauthorized), r)
      else after_rotation sid (hash token) (hash new_token)
          (rotate sid (hash token) (hash new_token) r)

  -- `Logout`
  unfoldable pub logout : String → String → Redis → Result (Unit {0}) × Redis
  logout sid token r =
      if is_blank sid
      then (err (coded common_invalid_argument), r)
      else let (deleted, r') = delete_session sid (hash token) r in
        (if deleted then ok tt else err (coded auth_unauthorized), r')
