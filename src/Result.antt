-- ===== src/Result.antt =====
-- include/lwm2m/result.hpp: error codes, errors, and Result<T> as a success value or an error.
-- Result<void> is `Result (Unit {0})`.
pub mod Laws
use ferriot.Prelude.{ℕ, Bool, true, false, ◌&&◌, String, leb, ltb}

pub data ErrorCode : Type 0 where
  success : ErrorCode
  bad_request unauthorized forbidden not_found method_not_allowed : ErrorCode
  not_acceptable request_entity_incomplete precondition_failed : ErrorCode
  request_entity_too_large unsupported_content_format : ErrorCode
  internal_server_error not_implemented bad_gateway : ErrorCode
  service_unavailable gateway_timeout : ErrorCode
  timeout connection_failed dtls_handshake_failed network_unreachable : ErrorCode
  encoding_error decoding_error invalid_state resource_busy : ErrorCode

-- The enumerators' values.
unfoldable pub code_value : ErrorCode → ℕ
code_value success = 0
code_value bad_request = 400
code_value unauthorized = 401
code_value forbidden = 403
code_value not_found = 404
code_value method_not_allowed = 405
code_value not_acceptable = 406
code_value request_entity_incomplete = 408
code_value precondition_failed = 412
code_value request_entity_too_large = 413
code_value unsupported_content_format = 415
code_value internal_server_error = 500
code_value not_implemented = 501
code_value bad_gateway = 502
code_value service_unavailable = 503
code_value gateway_timeout = 504
code_value timeout = 600
code_value connection_failed = 601
code_value dtls_handshake_failed = 602
code_value network_unreachable = 603
code_value encoding_error = 700
code_value decoding_error = 701
code_value invalid_state = 702
code_value resource_busy = 703

pub record Error : Type 0 where
  pub code : ErrorCode
  pub message : String

abbrev within : ℕ → ℕ → ℕ → Bool
within lo hi c = leb lo c && ltb c hi

unfoldable pub is_client_error : Error → Bool
unfolding code_value
is_client_error e = within 400 500 (code_value e.code)

unfoldable pub is_server_error : Error → Bool
unfolding code_value
is_server_error e = within 500 600 (code_value e.code)

unfoldable pub is_transport_error : Error → Bool
unfolding code_value
is_transport_error e = within 600 700 (code_value e.code)

pub data Result {ℓ} (A : Type ℓ) : Type ℓ where
  ok : A → Result A
  err : Error → Result A

-- Err<T>(code, message).
abbrev pub fail {ℓ} : {A : Type ℓ} → ErrorCode → String → Result A
fail c m = err (record { code = c; message = m })

abbrev pub is_ok {ℓ} : {A : Type ℓ} → Result A → Bool
is_ok (ok a) = true
is_ok (err e) = false

abbrev pub is_err {ℓ} : {A : Type ℓ} → Result A → Bool
is_err (ok a) = false
is_err (err e) = true

abbrev pub value_or {ℓ} : {A : Type ℓ} → Result A → A → A
value_or (ok a) d = a
value_or (err e) d = d

abbrev pub map {ℓ κ} : {A : Type ℓ} {B : Type κ} → (A → B) → Result A → Result B
map f (err e) = err e
map f (ok a) = ok (f a)

-- Result::and_then, which also stands for `if (!r) return r.error();`.
infixl 5 ◌>>=◌
abbrev pub ◌>>=◌ {ℓ κ} : {T : Type ℓ} {U : Type κ} → Result T → (T → Result U) → Result U
err e >>= next = err e
ok value >>= next = next value
