-- ===== src/Transport/Exchange/Pending.antt =====
-- src/transport/coap_client.cpp: the response that send waits for, and the handler of responses.
use ferriot.Prelude.{
  ℕ, zero, suc, ◌+◌, ◌%◌, ◌^◌, Bool, true, false, not, ◌&&◌, ◌||◌, Option, none, some, List, [],
  ◌∷◌, ◌++◌, ◌==◌, leb, if◌then◌else◌, Bytes,
}
use ferriot.Prelude.Strings.{same_bytes}
use ferriot.Result.{Result, ok, fail, timeout}
use ferriot.Transport.{
  CoapCode, created, deleted, valid, changed, content, bad_request, unauthorized, bad_option,
  forbidden, not_found, method_not_allowed, not_acceptable, internal_server_error as server_error,
  not_implemented, bad_gateway, service_unavailable, gateway_timeout, other_code, CoapResponse,
}
use ferriot.Transport.Incoming.{Message, option_content_format}

pub record PendingResponse : Type 0 where
  pub completed : Bool
  pub response : CoapResponse
  pub token : Bytes

abbrev pub option_location_path : ℕ
option_location_path = 8

abbrev pub option_location_query : ℕ
option_location_query = 20

-- static_cast<CoapCode>, of a number that fits in 8 bits
unfoldable pub cast_code : ℕ → CoapCode
cast_code code =
    if code == 65
    then created
    else if code == 66
    then deleted
    else if code == 67
    then valid
    else if code == 68
    then changed
    else if code == 69
    then content
    else if code == 128
    then bad_request
    else if code == 129
    then unauthorized
    else if code == 130
    then bad_option
    else if code == 131
    then forbidden
    else if code == 132
    then not_found
    else if code == 133
    then method_not_allowed
    else if code == 134
    then not_acceptable
    else if code == 160
    then server_error
    else if code == 161
    then not_implemented
    else if code == 162
    then bad_gateway
    else if code == 163
    then service_unavailable
    else if code == 164
    then gateway_timeout
    else other_code code

abbrev pub is_stored : ℕ → Bool
is_stored number =
    number == option_location_path
    || (number == option_location_query || number == option_content_format)

-- The loop over a response's options.
unfoldable pub stored_options : List (ℕ × Bytes) → List (ℕ × Bytes)
stored_options [] = []
stored_options ((number, value) ∷ options) =
    let rest = stored_options options in if is_stored number then (number, value) ∷ rest else rest

-- `coap_get_data(…) && data_len > 0`
abbrev pub payload_or : Bytes → Option Bytes → Bytes
payload_or payload none = payload
payload_or payload (some []) = payload
payload_or payload (some (b ∷ bs)) = b ∷ bs

-- response_handler, on the response that current_response_ points to.
unfoldable pub receive : PendingResponse → Message → PendingResponse
receive pending message =
    if same_bytes message.token pending.token
    then record pending {
      completed = true;
      response = record pending.response {
        code = some (cast_code message.code);
        options = pending.response.options ++ stored_options message.options;
        payload = payload_or pending.response.payload message.body;
      };
    }
    else pending

-- With whether current_response_ points to the response, or to nothing.
abbrev pub response_handler : Bool → PendingResponse → Message → PendingResponse
response_handler false pending message = pending
response_handler true pending message = receive pending message

-- What comes in while send waits: a response, and a nested send, which takes a token and may get as
-- far as to set current_response_.
pub data Arrival : Type 0 where
  response : Message → Arrival
  nested_send : Bool → Arrival

-- send while it waits, with whether current_response_ points to its response.
pub record Waiting : Type 0 where
  pub pending : PendingResponse
  pub is_current : Bool
  pub next_token : ℕ

abbrev pub take_token : ℕ → ℕ
take_token next_token = (next_token + 1) % 2 ^ 64

abbrev pub arrive : Waiting → Arrival → Waiting
arrive s (response message) = record s { pending = response_handler s.is_current s.pending message }
arrive s (nested_send tracked) = record s {
  is_current = s.is_current && not tracked;
  next_token = take_token s.next_token;
}

-- One poll: what libcoap passes to the handlers.
unfoldable pub receive_all : Waiting → List Arrival → Waiting
receive_all s [] = s
receive_all s (arrival ∷ arrivals) = receive_all (arrive s arrival) arrivals

-- The loop that waits, for a number of rounds at most; before round i the time that has passed is
-- `elapsed i`, and `arrived i` is what comes in with its poll. With next_token_ after it.
module _ (elapsed : ℕ → ℕ) (arrived : ℕ → List Arrival) (limit : ℕ) where
  unfoldable pub wait : ℕ → ℕ → Waiting → ℕ × Option (Result CoapResponse)
  wait zero i s = (s.next_token, none)
  wait (suc rounds) i s =
      let rest = wait rounds (suc i) (receive_all s (arrived i)) in
      if s.pending.completed
      then (s.next_token, some (ok s.pending.response))
      else if leb limit (elapsed i)
      then (s.next_token, some (fail timeout "Request timeout"))
      else rest
