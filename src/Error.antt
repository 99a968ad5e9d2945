-- ===== src/Error.antt =====
-- error.rs: the error type and the HTTP status that each error is answered with. A message is kept
-- as the tag of what went wrong; its wording is not modelled.
use tpn_worker.Base.{ℕ, Bool, ◌||◌, ◌==◌}

-- What an error message says.
pub data Reason : Type 0 where
  extend_expires_required invalid_extend_ref unsupported_type invalid_type : Reason
  invalid_lease_seconds invalid_format : Reason
  server_unavailable peer_not_found config_not_found unknown_user : Reason
  lock_timeout no_slot not_extendable denied bad_token : Reason
  bad_subnet tun_missing ip_missing : Reason
  bad_key interface_failed keys_not_persisted unresolved failed_call : Reason

pub data AppError : Type 0 where
  validation unauthorized internal lease_unavailable : Reason → AppError
  db io : AppError

-- `into_response`: the status code.
unfoldable pub status : AppError → ℕ
status (validation m) = 400
status (unauthorized m) = 403
status (internal m) = 500
status db = 500
status (lease_unavailable m) = 500
status io = 500

-- The error is answered with 400 or 403.
abbrev pub is_client : AppError → Bool
is_client x = (status x == 400) || (status x == 403)

pub data Result {ℓ} (A : Type ℓ) : Type ℓ where
  ok : A → Result A
  err : AppError → Result A
