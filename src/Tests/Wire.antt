-- ===== src/Tests/Wire.antt =====
-- src/client.cpp over src/transport/coap_client.cpp on concrete messages to the standard objects.
use ferriot.Prelude.{ℕ, ◌≡◌, refl, arith, true, false, leb, length, none, some, [], ◌∷◌, codes}
use ferriot.Prelude.Int.{pos}
use ferriot.Prelude.Table.{find}
use ferriot.Result.{ok, fail, timeout}
use ferriot.Types.{resource_path}
use ferriot.Types.Decimal.{decimal, digits}
use ferriot.Types.Path.{to_string}
use ferriot.Resource.{integer, get_resource_type}
use ferriot.Tlv.Serialize.{serialize, serialize_int}
use ferriot.Tlv.Encoder.{encode_resource, encode_record, type_byte, id_field, length_field}
use ferriot.Objects.Server
use ferriot.Objects.Server.Laws.{narrow}
use ferriot.Object.Standard.{Standard, standard_objects}
use ferriot.Transport.{get, put, post, content, changed}
use ferriot.Transport.Options.{split_path, path_segments, until}
use ferriot.Transport.Incoming.{Pdu, Message, method_of}
use ferriot.Transport.Incoming.Replies.{IsFor}
use ferriot.Client.State.{registered, Client, Environment}
use ferriot.Client.Registration.{update_registration}
use ferriot.Client.Loop.{handle_each}
use ferriot.Client.Wire.{on_message, handle_message}
use ferriot.Client.Wire.RoundTrip.{Carries, on_message-put}
use ferriot.Client.Wire.Trigger.{handle_each-handle_message}
use ferriot.Tests.Codec.{widen_zero}
use ferriot.Tests.Client.{standard}

-- A PDU with room for 3 bytes.
abbrev small_pdu : Pdu
small_pdu = record {
  decode_var_bytes = λ bytes. 0;
  fits = λ message format payload. leb (length payload) 3;
}

-- GET /1/0/1
abbrev asked : Message
asked = record {
  code = 1;
  token = 7 ∷ [];
  options = (3, codes "host") ∷ (11, codes "1") ∷ (11, codes "0") ∷ (11, codes "1") ∷ [];
  body = none;
}

asked-IsFor : IsFor get (resource_path 1 0 1) asked
unfolding method_of split_path path_segments until to_string decimal digits
asked-IsFor = ((omega arith, (omega arith, omega arith)), refl, refl)

-- PUT /1/0/1 with 60.
abbrev written : Message
written = record {
  code = 3;
  token = 8 ∷ [];
  options = (11, codes "1") ∷ (11, codes "0") ∷ (11, codes "1") ∷ (12, 45 ∷ 22 ∷ []) ∷ [];
  body = some (193 ∷ 1 ∷ 60 ∷ []);
}

written-IsFor : IsFor put (resource_path 1 0 1) written
unfolding method_of split_path path_segments until to_string decimal digits
written-IsFor = ((omega arith, (omega arith, omega arith)), refl, refl)

-- POST /1/0/8
abbrev triggering : Message
triggering = record {
  code = 2;
  token = [];
  options = (11, codes "1") ∷ (11, codes "0") ∷ (11, codes "8") ∷ [];
  body = none;
}

triggering-IsFor : IsFor post (resource_path 1 0 8) triggering
unfolding method_of split_path path_segments until to_string decimal digits
triggering-IsFor = ((omega arith, (omega arith, omega arith)), refl, refl)

on_message-put_example :
    let receive = on_message widen_zero small_pdu (standard_objects (pos 0)) in
    let (s', acknowledged) = receive written standard in
    let (s'', reply) = receive asked s' in
    (acknowledged.code ≡ some changed)
    × (s'' ≡ s')
    × (reply.code ≡ some content)
    × Carries small_pdu asked 1 (narrow (Server.field_of 1) (integer (pos 60))) reply.body
unfolding Server.get_resource_type Server.field_type Server.field_of serialize serialize_int
    encode_resource encode_record type_byte id_field length_field get_resource_type
    Server.write_resource Server.write_in Server.write_field Server.store find
on_message-put_example =
    on_message-put widen_zero small_pdu (pos 0) standard 0 1 (integer (pos 60)) written asked
      written-IsFor asked-IsFor refl refl (omega arith) (omega arith, omega arith, tt)
      (omega arith, omega arith, tt) refl

-- Connections without a network, of a client of the standard objects.
abbrev env : Environment Standard ℕ
env = record {
  security = Standard.security;
  server = Standard.server;
  connect = λ config s. (s, ok 7);
  disconnect = λ conn s. s;
  is_connected = λ conn s. true;
  send = λ conn request s. (s, fail timeout "Request timeout");
  poll_connection = λ conn time s. handle_message widen_zero small_pdu (pos 0) triggering ∷ [];
  system_now = λ s. (s, 0);
  steady_now = λ s. (s, 0);
}

abbrev client : Client Standard ℕ
client = record {
  config = record { endpoint_name = codes "node"; poll_interval = 100; threshold = λ n. n };
  callbacks = record {
    on_state_change = false;
    on_registered = false;
    on_deregistered = false;
    on_error = false;
    on_connection_lost = false;
    on_reconnecting = false;
    on_reconnected = false;
  };
  objects = [];
  connections = (0, 7) ∷ [];
  registrations = [];
  state = registered;
  running = true;
  reconnect_config = record {
    enabled = true;
    max_retries = 3;
    initial_backoff = 5;
    max_backoff = 60;
    scaled = λ n. n;
  };
  reconnecting = false;
  reconnect_attempts = 0;
  reconnect_ssid = 0;
  next_reconnect_time = 0;
  world = standard;
  events = [];
}

handle_each-handle_message_example :
    ((on_message widen_zero small_pdu (standard_objects (pos 0)) triggering standard).1.code
      ≡ some changed)
    × (handle_each env (handle_message widen_zero small_pdu (pos 0) triggering ∷ []) client
        ≡ handle_each env [] (update_registration env 0 client).0)
unfolding find
handle_each-handle_message_example =
    handle_each-handle_message widen_zero small_pdu (pos 0) standard 0 triggering env client []
      {inst = Server.default_instance} triggering-IsFor refl refl refl
