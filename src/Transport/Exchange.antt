-- ===== src/Transport/Exchange.antt =====
-- src/transport/coap_client.cpp: send, and the handlers of responses and of events.
--
-- While send waits, responses come in, and requests, whose handler may call send on the same
-- connection again: of such a nested send the model has what it does to the outer one, its token and
-- current_response_, which it points to its own response and then to nothing; what comes in while it
-- waits itself is not for the outer one, and is left out. The token is written as a little-endian
-- machine holds it.
mod Pending
pub mod Responses
pub mod Requests
unfoldable pub use Pending.*
use ferriot.Prelude.{
  ℕ, zero, suc, ◌+◌, ◌%◌, ◌/◌, ◌^◌, Bool, true, false, not, ◌&&◌, ◌||◌, Option, none, some, List,
  [], ◌∷◌, ◌++◌, ◌==◌, leb, if◌then◌else◌, Bytes, is_empty, codes,
}
use ferriot.Prelude.Strings.{same_bytes}
use ferriot.Result.{Result, ok, err, fail, invalid_state, internal_server_error, timeout}
use ferriot.Transport.{
  CoapMethod, get, post, put, delete, CoapCode, created, deleted, valid, changed, content,
  bad_request, unauthorized, bad_option, forbidden, not_found, method_not_allowed, not_acceptable,
  internal_server_error as server_error, not_implemented, bad_gateway, service_unavailable,
  gateway_timeout, other_code, ContentFormat, CoapRequest, CoapResponse, no_response,
}
use ferriot.Transport.Options.{split_path, split_query}
use ferriot.Transport.Incoming.{Message, option_uri_path, option_content_format}

-- COAP_OPTION_URI_QUERY
abbrev pub option_uri_query : ℕ
option_uri_query = 15

pub data CoapEvent : Type 0 where
  dtls_connected session_connected dtls_closed session_closed session_failed other_event : CoapEvent

-- connected_ after an event.
abbrev pub event_handler : CoapEvent → Bool → Bool
event_handler dtls_connected connected = true
event_handler session_connected connected = true
event_handler dtls_closed connected = false
event_handler session_closed connected = false
event_handler session_failed connected = false
event_handler other_event connected = connected

-- The bytes of the uint64_t that is copied into the token.
unfoldable pub little_endian : ℕ → ℕ → Bytes
little_endian zero n = []
little_endian (suc width) n = (n % 2 ^ 8) ∷ little_endian width (n / 2 ^ 8)

abbrev pub token_of : ℕ → Bytes
token_of next_token = little_endian 8 (next_token % 2 ^ 64)

abbrev pub method_code : CoapMethod → ℕ
method_code get = 1
method_code post = 2
method_code put = 3
method_code delete = 4

abbrev pub numbered : ℕ → List Bytes → List (ℕ × Bytes)
numbered number [] = []
numbered number (value ∷ values) = (number, value) ∷ numbered number values

-- The options of a path and a query, where coap_split_uri finds them.
abbrev pub options_of : Option (Bytes × Bytes) → List (ℕ × Bytes)
options_of none = []
options_of (some (path, query)) =
    numbered option_uri_path (split_path path) ++ numbered option_uri_query (split_query query)

-- The message of a request, without the content format, which is an option of its own.
unfoldable pub message_of : (Bytes → Option (Bytes × Bytes)) → Bytes → CoapRequest → Message
message_of split_uri token request = record {
  code = method_code request.method;
  token = token;
  options = options_of (split_uri (codes "coap://localhost" ++ request.uri_path));
  body = if is_empty request.payload then none else some request.payload;
}

-- What send calls of libcoap: whether a PDU is created, whether its body fits, whether it is sent,
-- and what the clock and the polls show after that.
pub record Network (W : Type 0) : Type 0 where
  pub split_uri : Bytes → Option (Bytes × Bytes)
  pub new_pdu : W → W × Bool
  pub fits : Message → ContentFormat → Bool
  pub transmit : Message → ContentFormat → W → W × Bool
  pub elapsed : W → ℕ → ℕ
  pub arrived : W → ℕ → List Arrival

-- The members of the client that send reads and writes.
pub record Sender (W : Type 0) : Type 0 where
  pub connected : Bool
  pub next_token : ℕ
  pub world : W

module _ {W : Type 0} (network : Network W) (limit rounds : ℕ) where
  waiting : Message → Sender W → Sender W × Option (Result CoapResponse)
  waiting message c =
      let (next_token, result) =
        wait (network.elapsed c.world) (network.arrived c.world) limit rounds 0 (record {
          pending = record { completed = false; response = no_response; token = message.token };
          is_current = true;
          next_token = c.next_token;
        }) in
      (record c { next_token = next_token }, result)

  transmitted : Message → Sender W → Bool → Sender W × Option (Result CoapResponse)
  unfolding waiting
  transmitted message c false = (c, some (fail internal_server_error "Failed to send request"))
  transmitted message c true = waiting message c

  with_body : CoapRequest → Message → Sender W → Sender W × Option (Result CoapResponse)
  unfolding transmitted
  with_body request message c =
      if not (is_empty request.payload) && not (network.fits message request.content_format)
      then (
        c,
        some (
            fail internal_server_error
              "Payload does not fit in a single PDU (block-wise not supported)"),
      )
      else (let (w, sent) = network.transmit message request.content_format c.world in
          transmitted message (record c { world = w }) sent)

  with_pdu : CoapRequest → Sender W → Bool → Sender W × Option (Result CoapResponse)
  unfolding with_body
  with_pdu request c false = (c, some (fail internal_server_error "Failed to create PDU"))
  with_pdu request c true =
      let next_token = take_token c.next_token in
      with_body request (message_of network.split_uri (token_of next_token) request)
        (record c { next_token = next_token })

  -- The result is none where the rounds run out.
  unfoldable pub send : CoapRequest → Sender W → Sender W × Option (Result CoapResponse)
  unfolding with_pdu
  send request c =
      if not c.connected
      then (c, some (fail invalid_state "Not connected"))
      else (let (w, made) = network.new_pdu c.world in
          with_pdu request (record c { world = w }) made)
