-- ===== src/Tests/Transport.antt =====
-- src/transport/coap_client.cpp on concrete messages, over a world that counts libcoap's calls.
use ferriot.Prelude.{
  ℕ, ◌+◌, ◌≡◌, refl, Bool, ◌==◌, true, false, not, ◌&&◌, ◌||◌, Option, none, some, [], ◌∷◌, Bytes,
  codes, if◌then◌else◌, is_empty, present,
}
use ferriot.Prelude.Strings.{same_bytes}
use ferriot.Prelude.Table.{find}
use ferriot.Result.{ok}
use ferriot.Objects.Security.Connection.{
  psk, ConnectionConfig, default_config, to_connection_config,
}
use ferriot.Objects.Security
use ferriot.Objects.Security.{SecurityObject, SecurityInstance}
use ferriot.Objects.Server
use ferriot.Transport.{get, CoapRequest, CoapResponse, tlv_lwm2m, no_response, created}
use ferriot.Transport.Incoming.{Message, option_uri_path}
use ferriot.Transport.Connection.{
  Coap, CoapClient, connect, init_libcoap, disconnect, setup_dtls_psk,
}
use ferriot.Transport.Connection.Outcomes.{connect-ok, connect-to_connection_config}
use ferriot.Transport.Exchange.{
  numbered, option_uri_query, message_of, response, nested_send, Network, Sender, send, token_of,
  wait, receive_all, receive, stored_options, cast_code, little_endian,
}
use ferriot.Transport.Exchange.Responses.{IsAnswered, arrivals, send-ok, send-present}
use ferriot.Transport.Exchange.Requests.{registration_parameters, message_of-registration_request}
use ferriot.Client.Registration.{registration_request}

-- GET /3/0/9
abbrev message : Message
message = record {
  code = 1;
  token = 1 ∷ 2 ∷ [];
  options = (3, codes "host") ∷ (11, codes "3") ∷ (11, codes "0") ∷ (12, []) ∷ (11, codes "9") ∷ [];
  body = none;
}

abbrev coap : Coap ℕ ℕ ℕ ℕ
coap = record {
  startup = λ w. w + 1;
  cleanup = λ w. w + 1;
  new_context = λ w. (w + 1, some w);
  free_context = λ ctx w. w + 1;
  split_uri = λ bytes.
      if is_empty bytes then none else some (record { host = bytes; port = 5684; secure = true });
  resolve = λ host port remote w. (w + 1, some 7);
  new_session_psk = λ ctx address identity key w. (w + 1, some w);
  new_session = λ ctx address use_dtls w. (w + 1, none);
  release_session = λ session w. w + 1;
}

abbrev client : CoapClient ℕ ℕ ℕ
client = record {
  ctx = none;
  session = none;
  connected = false;
  psk_identity = [];
  psk_key = [];
  init_count = 2;
  world = 0;
}

abbrev secured : ConnectionConfig
secured = record default_config {
  server_uri = codes "coaps://h";
  security_mode = psk;
  psk_credentials = some (record { identity = codes "me"; key = 1 ∷ 2 ∷ [] });
}

connects : (connect coap secured client).1 ≡ ok tt
unfolding connect init_libcoap disconnect setup_dtls_psk
connects = refl

connect-ok_example :
    let c' = (connect coap secured client).0 in
    (c'.connected ≡ true)
    × (present c'.session ≡ true)
    × (present c'.ctx ≡ true)
    × ((false || (true && (not (is_empty c'.psk_identity) && not (is_empty c'.psk_key)))) ≡ true)
connect-ok_example = connect-ok coap secured client connects

-- An instance 1 with a pre-shared key, whose uri does not ask for it.
abbrev unsafe : SecurityInstance
unsafe = record Security.default_instance {
  server_uri = codes "coap://h";
  security_mode = 0;
  public_key_identity = codes "me";
  secret_key = 1 ∷ [];
}

abbrev accounts : SecurityObject
accounts = record { instances = (1, unsafe) ∷ []; next_instance_id = 2 }

-- Tells "coaps" from "coap" by the fifth letter.
abbrev is_coaps : Bytes → Bool
is_coaps (_ ∷ _ ∷ _ ∷ _ ∷ letter ∷ _) = letter == 115
is_coaps _ = false

abbrev any_scheme : Coap ℕ ℕ ℕ ℕ
any_scheme = record coap {
  split_uri = λ bytes. some (record { host = bytes; port = 5683; secure = is_coaps bytes });
  new_session = λ ctx address use_dtls w. (w + 1, some w);
}

-- It connects.
connects_unsafe : (connect any_scheme (to_connection_config accounts 1) client).1 ≡ ok tt
unfolding connect init_libcoap disconnect to_connection_config find
connects_unsafe = refl

connect-to_connection_config_example :
    connect any_scheme (to_connection_config accounts 1) client
    ≡ connect any_scheme (record default_config { server_uri = codes "coap://h" }) client
unfolding find
connect-to_connection_config_example =
    connect-to_connection_config any_scheme accounts 1 client {inst = unsafe} refl refl

-- Splits at the first question mark after the host, "coap://localhost".
abbrev split_uri : Bytes → Option (Bytes × Bytes)
split_uri (_ ∷ _ ∷ _ ∷ _ ∷ _ ∷ _ ∷ _ ∷ _ ∷ _ ∷ _ ∷ _ ∷ _ ∷ _ ∷ _ ∷ _ ∷ _ ∷ _ ∷ a ∷ b ∷ _ ∷ query) =
    some (a ∷ b ∷ [], query)
split_uri _ = none

message_of-registration_request_example :
    (message_of split_uri []
      (registration_request (codes "node") Server.default_instance [])).options
    ≡ (option_uri_path, codes "rd")
      ∷ numbered option_uri_query (registration_parameters (codes "node") Server.default_instance)
message_of-registration_request_example =
    message_of-registration_request split_uri [] (codes "node") [] Server.default_instance
      (λ query. refl) refl refl

-- A response to another request comes in first, and a nested send that is not sent.
abbrev network : Network ℕ
network = record {
  split_uri = split_uri;
  new_pdu = λ w. (w, true);
  fits = λ sent format. true;
  transmit = λ sent format w. (w, true);
  elapsed = λ w i. i;
  arrived = λ w i.
      response (record message { code = 68 })
      ∷ nested_send false
      ∷ response
          (record { code = 65; token = token_of 6; options = (8, codes "rd") ∷ []; body = none })
      ∷ [];
}

abbrev sender : Sender ℕ
sender = record { connected = true; next_token = 5; world = 0 }

abbrev get_request : CoapRequest
get_request = record {
  method = get;
  uri_path = codes "/rd";
  options = [];
  payload = [];
  content_format = tlv_lwm2m;
}

abbrev answer : CoapResponse
answer = record no_response { code = some created; options = (8, codes "rd") ∷ [] }

answered : (send network 100 3 get_request sender).1 ≡ some (ok answer)
unfolding send message_of wait receive_all receive same_bytes stored_options cast_code little_endian
answered = refl

send-ok_example :
    let c' = (send network 100 3 get_request sender).0 in
    (k : ℕ) × IsAnswered (token_of 6) (arrivals (network.arrived c'.world) 0 k) answer
send-ok_example = send-ok network 100 3 get_request sender answered

send-present_example : present (send network 100 101 get_request sender).1 ≡ true
send-present_example = send-present network 100 100 get_request sender (λ w. refl)
