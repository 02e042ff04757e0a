-- ===== src/Errors/Transport.antt =====
-- The mapping of codes to transports (`HTTPStatus`, `GRPCCode`, `Retryable` of
-- server/pkg/errcode/errcode.go).
use farm_server.Base.{ℕ, Bool, true, false, ◌≡◌, refl, ◌⊎◌, inl, inr, arith, ◌≤◌}
use farm_server.Errors.{
  Code, common_invalid_argument, common_rate_limited, common_server_seq_gap,
  common_invalid_metadata, resource_exhausted, auth_unauthorized, auth_token_expired,
  auth_forbidden, auth_identity_exists, economy_insufficient, economy_duplicate,
  economy_item_not_found, farm_version_conflict, farm_plot_state, farm_room_full,
  farm_plot_not_mature, farm_crop_not_found, farm_actor_migrating, farm_not_found,
  social_already_friend, social_invite_expired, social_invite_exhausted, social_self_invite,
  social_not_friend, social_not_farm_owner, task_not_completed, task_already_claimed, pet_not_owned,
  pet_already_equipped, pet_auto_disabled, mail_not_found, mail_already_claimed, mail_expired,
  routing_epoch_stale, routing_owner_not_found, routing_fenced, internal,
}

pub http_status : Code → ℕ
http_status common_invalid_argument = 400
http_status farm_plot_state = 400
http_status farm_plot_not_mature = 400
http_status farm_crop_not_found = 400
http_status economy_item_not_found = 400
http_status social_self_invite = 400
http_status common_invalid_metadata = 400
http_status auth_unauthorized = 401
http_status auth_token_expired = 401
http_status auth_forbidden = 403
http_status farm_not_found = 404
http_status mail_not_found = 404
http_status auth_identity_exists = 409
http_status farm_version_conflict = 409
http_status economy_duplicate = 409
http_status social_already_friend = 409
http_status task_already_claimed = 409
http_status mail_already_claimed = 409
http_status pet_already_equipped = 409
http_status economy_insufficient = 422
http_status farm_room_full = 422
http_status task_not_completed = 422
http_status pet_not_owned = 422
http_status pet_auto_disabled = 422
http_status mail_expired = 422
http_status social_invite_expired = 422
http_status social_invite_exhausted = 422
http_status social_not_friend = 422
http_status social_not_farm_owner = 422
http_status common_rate_limited = 429
http_status resource_exhausted = 503
http_status routing_epoch_stale = 503
http_status routing_owner_not_found = 503
http_status routing_fenced = 503
http_status farm_actor_migrating = 503
http_status _ = 500

pub data GrpcCode : Type 0 where
  invalid_argument unauthenticated permission_denied not_found already_exists : GrpcCode
  failed_precondition grpc_resource_exhausted unavailable out_of_range grpc_internal : GrpcCode

pub grpc_code : Code → GrpcCode
grpc_code common_invalid_argument = invalid_argument
grpc_code farm_plot_state = invalid_argument
grpc_code farm_plot_not_mature = invalid_argument
grpc_code farm_crop_not_found = invalid_argument
grpc_code economy_item_not_found = invalid_argument
grpc_code social_self_invite = invalid_argument
grpc_code common_invalid_metadata = invalid_argument
grpc_code auth_unauthorized = unauthenticated
grpc_code auth_token_expired = unauthenticated
grpc_code auth_forbidden = permission_denied
grpc_code farm_not_found = not_found
grpc_code mail_not_found = not_found
grpc_code auth_identity_exists = already_exists
grpc_code farm_version_conflict = already_exists
grpc_code economy_duplicate = already_exists
grpc_code social_already_friend = already_exists
grpc_code task_already_claimed = already_exists
grpc_code mail_already_claimed = already_exists
grpc_code pet_already_equipped = already_exists
grpc_code economy_insufficient = failed_precondition
grpc_code farm_room_full = failed_precondition
grpc_code task_not_completed = failed_precondition
grpc_code pet_not_owned = failed_precondition
grpc_code pet_auto_disabled = failed_precondition
grpc_code mail_expired = failed_precondition
grpc_code social_invite_expired = failed_precondition
grpc_code social_invite_exhausted = failed_precondition
grpc_code social_not_friend = failed_precondition
grpc_code social_not_farm_owner = failed_precondition
grpc_code common_rate_limited = grpc_resource_exhausted
grpc_code resource_exhausted = grpc_resource_exhausted
grpc_code routing_epoch_stale = unavailable
grpc_code routing_owner_not_found = unavailable
grpc_code routing_fenced = unavailable
grpc_code farm_actor_migrating = unavailable
grpc_code common_server_seq_gap = out_of_range
grpc_code _ = grpc_internal

pub retryable : Code → Bool
retryable common_rate_limited = true
retryable resource_exhausted = true
retryable routing_epoch_stale = true
retryable routing_owner_not_found = true
retryable routing_fenced = true
retryable farm_actor_migrating = true
retryable internal = true
retryable _ = false

-- The HTTP status that a gateway in front of gRPC would use.
abbrev pub gateway_status : GrpcCode → ℕ
gateway_status invalid_argument = 400
gateway_status unauthenticated = 401
gateway_status permission_denied = 403
gateway_status not_found = 404
gateway_status already_exists = 409
gateway_status failed_precondition = 422
gateway_status grpc_resource_exhausted = 429
gateway_status unavailable = 503
gateway_status out_of_range = 500
gateway_status grpc_internal = 500

-- The two transports classify every code alike, but for `resource_exhausted`, which HTTP reports as
-- 503.
pub http_status-grpc_code :
    (c : Code) → (http_status c ≡ gateway_status (grpc_code c)) ⊎ (c ≡ resource_exhausted)
unfolding http_status grpc_code
http_status-grpc_code resource_exhausted = inr refl
http_status-grpc_code _ = inl refl

-- A retryable code is never reported as a client error other than 429, and every code with status
-- 429 or 503 is retryable.
pub retryable-http_status :
    (c : Code)
    → (retryable c ≡ true → (http_status c ≡ 429) ⊎ (500 ≤ http_status c))
      × ((http_status c ≡ 429) ⊎ (http_status c ≡ 503) → retryable c ≡ true)
unfolding http_status retryable
retryable-http_status internal = ground arith
retryable-http_status _ = ground arith
