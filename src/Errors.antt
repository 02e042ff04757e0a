-- ===== src/Errors.antt =====
-- The stable error codes and their transports (server/pkg/errcode/errcode.go), errors as values,
-- and the bounded retry of a whole transaction (server/pkg/mysqlretry/retry.go).
pub mod Retry
pub mod Transport
use farm_server.Base.{ℕ, Bool, true, false, ◌≡◌, refl, ◌==◌, ◌||◌, ◌⊎◌, inl, inr}

pub data Code : Type 0 where
  common_invalid_argument common_rate_limited common_server_seq_gap : Code
  common_invalid_metadata resource_exhausted : Code
  auth_unauthorized auth_token_expired auth_forbidden auth_identity_exists : Code
  economy_insufficient economy_duplicate economy_item_not_found : Code
  farm_version_conflict farm_plot_state farm_room_full farm_plot_not_mature : Code
  farm_crop_not_found farm_actor_migrating farm_not_found : Code
  social_already_friend social_invite_expired social_invite_exhausted : Code
  social_self_invite social_not_friend social_not_farm_owner : Code
  task_not_completed task_already_claimed : Code
  pet_not_owned pet_already_equipped pet_auto_disabled : Code
  mail_not_found mail_already_claimed mail_expired : Code
  routing_epoch_stale routing_owner_not_found routing_fenced internal : Code

-- What a Go `error` carries here: a domain error by its code, a server error of the database by
-- its number, or a plain error (`fmt.Errorf`, `context.Canceled`).
pub data Error : Type 0 where
  coded : Code → Error
  mysql : ℕ → Error
  plain : Error
  cancelled : Error

pub data Result {ℓ} (A : Type ℓ) : Type ℓ where
  ok : A → Result A
  err : Error → Result A

-- `mysqlretry.IsTransient`: deadlock or lock wait timeout.
unfoldable pub is_transient : Error → Bool
is_transient (mysql n) = n == 1213 || n == 1205
is_transient _ = false

-- `mysqlretry.IsDuplicateKey`
unfoldable pub is_duplicate_key : Error → Bool
is_duplicate_key (mysql n) = n == 1062
is_duplicate_key _ = false

pub Result-cases {ℓ} :
    {A : Type ℓ} (r : Result A) → ((a : A) × (r ≡ ok a)) ⊎ ((e : Error) × (r ≡ err e))
Result-cases (ok a) = inl (a, refl)
Result-cases (err e) = inr (e, refl)
