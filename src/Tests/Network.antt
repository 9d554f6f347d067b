-- ===== src/Tests/Network.antt =====
-- src/client.cpp over src/transport/coap_client.cpp: a registration over sessions whose server answers.
use ferriot.Prelude.{ℕ, ◌+◌, ◌≡◌, refl, true, false, none, some, [], ◌∷◌, codes}
use ferriot.Prelude.Strings.{same_bytes}
use ferriot.Prelude.Int.{pos}
use ferriot.Prelude.Table.{find, put}
use ferriot.Result.{ok}
use ferriot.Objects.Security
use ferriot.Objects.Server
use ferriot.Objects.Server.{ServerInstance}
use ferriot.Objects.Instances.{find_by}
use ferriot.Transport.{CoapResponse, is_success, get_location_path, location_of}
use ferriot.Transport.Incoming.{Pdu}
use ferriot.Transport.Connection.{Coap, init_libcoap}
use ferriot.Transport.Connection
use ferriot.Transport.Exchange
use ferriot.Transport.Exchange.{
  Network, response, nested_send, token_of, message_of, wait, receive_all, receive, stored_options,
  cast_code, little_endian,
}
use ferriot.Client.Links.{build_registration_payload, links, instance_paths}
use ferriot.Client.State.{idle, Client, set_state}
use ferriot.Client.Construct
use ferriot.Client.Construct.{blank}
use ferriot.Client.Registration.{registration_request, register_with_server, accepted}
use ferriot.Client.Registration.Sent.{IsFrom, reached}
use ferriot.Client.Network.{System, Wire, environment, connect, send}
use ferriot.Client.Calls.{start_client, stop_client, register, run_loop, run}
use ferriot.Client.Network.Counted.{is_counted}
use ferriot.Client.Network.Counted.Calls.{run-is_counted}
use ferriot.Client.Network.Answered.{IsReceived, register_with_server-IsReceived}
use ferriot.Tests.Codec.{widen_zero}

abbrev coap : Coap ℕ ℕ ℕ ℕ
coap = record {
  startup = λ w. w + 1;
  cleanup = λ w. w + 1;
  new_context = λ w. (w + 1, some w);
  free_context = λ ctx w. w + 1;
  split_uri = λ bytes. some (record { host = bytes; port = 5683; secure = false });
  resolve = λ host port remote w. (w + 1, some 7);
  new_session_psk = λ ctx address identity key w. (w, none);
  new_session = λ ctx address use_dtls w. (w + 1, some w);
  release_session = λ session w. w + 1;
}

-- The server answers at the second poll with 2.01 and the location /rd/5.
abbrev network : Network ℕ
network = record {
  split_uri = λ bytes. none;
  new_pdu = λ w. (w, true);
  fits = λ sent format. true;
  transmit = λ sent format w. (w + 1, true);
  elapsed = λ w i. i;
  arrived = λ w i.
      response (record {
        code = 65;
        token = token_of i;
        options = (8, codes "rd") ∷ (8, codes "5") ∷ [];
        body = none;
      })
      ∷ [];
}

abbrev wire : Wire ℕ ℕ ℕ ℕ
wire = record {
  coap = coap;
  network = λ handle. network;
  meanwhile = λ handle w. (w + 1, []);
  polled = λ handle time w. (w + 1, []);
  system_now = λ w. (w + 1, w);
  steady_now = λ w. (w + 1, w);
}

abbrev pdu : Pdu
pdu = record { decode_var_bytes = λ bytes. 0; fits = λ message format payload. true }

abbrev client : Client (System ℕ ℕ ℕ) ℕ
client = record {
  config = record { endpoint_name = codes "node"; poll_interval = 100; threshold = λ n. n };
  callbacks = Construct.no_callbacks;
  objects = [];
  connections = [];
  registrations = [];
  state = idle;
  running = true;
  reconnect_config = Construct.default_reconnect_config;
  reconnecting = false;
  reconnect_attempts = 0;
  reconnect_ssid = 0;
  next_reconnect_time = 0;
  world = record {
    objects = record Construct.standard {
      security = record {
        instances = (0, record Security.default_instance { short_server_id = 1 }) ∷ [];
        next_instance_id = 1;
      };
      server = record {
        table = record {
          instances = (0, record Server.default_instance { short_server_id = 1 }) ∷ [];
          next_instance_id = 1;
        };
        has_callback = true;
      };
    };
    links = [];
    next_handle = 0;
    init_count = 0;
    wire = 0;
  };
  events = [];
}

registers :
    (register_with_server (environment wire widen_zero pdu (pos 0) 100 5) 1 client).1 ≡ ok tt
unfolding register_with_server find_by Security.find_by_short_server_id
    Server.find_by_short_server_id environment connect Connection.connect Connection.disconnect
    init_libcoap send find put Exchange.send message_of wait receive_all receive same_bytes
    stored_options cast_code little_endian is_success get_location_path location_of accepted
    set_state registration_request build_registration_payload links instance_paths
registers = refl

register_with_server-IsReceived_example :
    let env = environment wire widen_zero pdu (pos 0) 100 5 in
    let (c', r) = register_with_server env 1 client in
    let (s, o) = reached env 1 client in
    (srv_inst : ServerInstance) × (handle : ℕ) × (answer : CoapResponse)
    × (Server.find_by_short_server_id client.world.objects.server 1 ≡ some srv_inst)
    × (o ≡ some handle)
    × (find 1 c'.connections ≡ some handle)
    × IsReceived wire widen_zero pdu
        (pos 0)
        100
        5
        s
        handle
        (registration_request client.config.endpoint_name srv_inst
          (build_registration_payload client.objects s))
        answer
    × IsFrom answer (find 1 c'.registrations)
register_with_server-IsReceived_example =
    register_with_server-IsReceived wire widen_zero pdu (pos 0) 100 5 1 client registers

-- The client is stopped, and registers again.
run-is_counted_example :
    is_counted
      (run
        (environment wire widen_zero pdu (pos 0) 100 5)
        (start_client ∷ register 1 ∷ run_loop 3 ∷ stop_client false ∷ register 1 ∷ [])
        client).world
    ≡ true
run-is_counted_example =
    run-is_counted wire widen_zero pdu (pos 0) 100 5 (λ w. refl)
      (start_client ∷ register 1 ∷ run_loop 3 ∷ stop_client false ∷ register 1 ∷ []) client refl
