-- ===== src/Tests/Registration.antt =====
-- src/client.cpp on a client with one server, over a world that is the time.
use ferriot.Prelude.{
  some, none, ℕ, ◌+◌, ◌*◌, ◌/◌, ◌≤◌, ◌≡◌, refl, arith, true, false, ◌||◌, [], ◌∷◌, codes,
}
use ferriot.Prelude.Table.{find, put, erase, keys}
use ferriot.Result.{ok, err, connection_failed, timeout, not_found, fail, is_ok}
use ferriot.Objects.Security
use ferriot.Objects.Server
use ferriot.Objects.Instances.{list_instances, get_instance, find_by}
use ferriot.Transport.{respond, created, is_success, get_location_path, location_of}
use ferriot.Client.State.{
  idle, registered, error, ◌is◌, Client, Environment, ReconnectionConfig, set_state,
}
use ferriot.Client.Registration.{find_instance, register_with_server, accepted}
use ferriot.Client.Registration.Outcomes.{
  IsRegisteredFor, register_with_server-ok, register_with_server-err,
}
use ferriot.Client.Reconnect.{try_reconnect, check_connection_health}
use ferriot.Client.Reconnect.Attempts.{try_each, try_each-gives_up, run_event_loop-IsBounded}
use ferriot.Client.Reconnect.Health.{any, is_lost_for, check_connection_health-lost}
use ferriot.Client.Loop.{run_event_loop, deregister_each, disconnect_each, stop}
use ferriot.Client.Loop.Stop.{stop_lem}
use ferriot.Client.Invariant.{IsValid}
use ferriot.Client.Calls.{register, update, stop_client, run_loop, leave, run, run-IsValid}

abbrev env : Environment ℕ ℕ
env = record {
  security = λ w. record {
    instances = (0, record Security.default_instance { short_server_id = 1 }) ∷ [];
    next_instance_id = 1;
  };
  server = λ w. record {
    table = record {
      instances = (0, record Server.default_instance { short_server_id = 1; lifetime = 60 }) ∷ [];
      next_instance_id = 1;
    };
    has_callback = true;
  };
  connect = λ config w. (w, ok 7);
  disconnect = λ conn w. w;
  is_connected = λ conn w. true;
  send = λ conn message w.
      (w, ok (record (respond created) { options = (8, codes "rd") ∷ (8, codes "5") ∷ [] }));
  poll_connection = λ conn timeout w. (λ w. (w + 1, none)) ∷ (λ w. (w, some 1)) ∷ [];
  system_now = λ w. (w + 1, w);
  steady_now = λ w. (w + 1, w);
}

-- The network is down.
abbrev offline : Environment ℕ ℕ
offline = record env {
  connect = λ config w. (w, fail connection_failed "unreachable");
  send = λ conn message w. (w, fail timeout "Request timeout");
}

abbrev reconnect_config : ReconnectionConfig
reconnect_config = record {
  enabled = true;
  max_retries = 3;
  initial_backoff = 5;
  max_backoff = 60;
  scaled = λ n. 2 * n;
}

abbrev client : Client ℕ ℕ
client = record {
  config = record { endpoint_name = codes "node"; poll_interval = 100; threshold = λ n. n / 2 };
  callbacks = record {
    on_state_change = false;
    on_registered = true;
    on_deregistered = false;
    on_error = false;
    on_connection_lost = false;
    on_reconnecting = true;
    on_reconnected = false;
  };
  objects = [];
  connections = [];
  registrations = [];
  state = idle;
  running = false;
  reconnect_config = reconnect_config;
  reconnecting = false;
  reconnect_attempts = 0;
  reconnect_ssid = 0;
  next_reconnect_time = 0;
  world = 0;
  events = [];
}

-- Registered with the server 1 until the time 50.
abbrev member : Client ℕ ℕ
member = record client {
  connections = (1, 7) ∷ [];
  registrations =
      (
        1,
        record {
          location = codes "/rd/5";
          short_server_id = 1;
          registered_at = 0;
          expires_at = 50;
        },
      )
      ∷ [];
  state = registered;
  running = true;
}

-- The same, after its end.
abbrev late : Client ℕ ℕ
late = record member { world = 51 }

member-IsValid : IsValid member
unfolding find
member-IsValid = record { located = λ j. ground arith; registered_some = refl; settled = refl }

registers : (register_with_server env 1 client).1 ≡ ok tt
unfolding register_with_server find_instance find put find_by list_instances get_instance keys
    accepted is_success get_location_path location_of set_state Security.find_by_short_server_id
    Server.find_by_short_server_id
registers = refl

fails : (d : Client ℕ ℕ) → is_ok (register_with_server offline 1 d).1 ≡ false
unfolding register_with_server find_by accepted Security.find_by_short_server_id
    Server.find_by_short_server_id
fails d = ground arith

rejects :
    (register_with_server env 2 member).1
    ≡ err (record { code = not_found; message = "No security instance for server" })
unfolding register_with_server find_by Security.find_by_short_server_id
rejects = refl

register_with_server-ok_example :
    IsRegisteredFor 1 3 client.registrations (register_with_server env 1 client).0
register_with_server-ok_example = register_with_server-ok env client 1 3 registers

register_with_server-err_example :
    ((register_with_server env 2 member).0.registrations ≡ member.registrations)
    × (((register_with_server env 2 member).0.state is error
          || (register_with_server env 2 member).0.state is registered)
        ≡ true)
register_with_server-err_example = register_with_server-err env member 2 rejects

check_connection_health-lost_example :
    let c' = check_connection_health env late in
    (c'.state ≡ error)
    × (c'.reconnecting ≡ true)
    × (c'.reconnect_attempts ≡ 0)
    × (is_lost_for env c'.reconnect_ssid (env.system_now late.world) late ≡ true)
    × (c'.registrations ≡ erase c'.reconnect_ssid late.registrations)
unfolding any
check_connection_health-lost_example = check_connection_health-lost env late refl refl refl

try_each-gives_up_example :
    let d = try_each offline 3 (omega arith) (omega arith) 1 3 late in
    (d.reconnecting ≡ false)
    × (d.reconnect_attempts ≡ 3)
    × ((try_reconnect offline 1 d).reconnecting ≡ false)
    × ((try_reconnect offline 1 d).reconnect_attempts ≡ 3)
try_each-gives_up_example =
    try_each-gives_up offline 3 (omega arith) (omega arith) 1 3 late fails refl refl refl

run_event_loop-IsBounded_example :
    let d = run_event_loop offline 9 late in
    (d.reconnect_config.max_retries ≡ 3) × (d.reconnect_attempts ≤ 3)
run_event_loop-IsBounded_example =
    run_event_loop-IsBounded offline 3 (omega arith) (omega arith) 9 late (refl, omega arith)

stop_lem_example :
    let c₁ = deregister_each env (keys member.registrations) (record member { running = false }) in
    let c' = stop env false member in
    (c₁.registrations ≡ [])
    × (c'.registrations ≡ [])
    × (c'.connections ≡ [])
    × (c'.state ≡ idle)
    × (c'.running ≡ false)
    × (c'.reconnecting ≡ false)
    × (c'.world ≡ disconnect_each env member.connections c₁.world)
stop_lem_example = stop_lem env member

run-IsValid_example :
    IsValid (run env (update 1 ∷ run_loop 5 ∷ leave 1 ∷ register 1 ∷ stop_client false ∷ []) member)
run-IsValid_example =
    run-IsValid env (update 1 ∷ run_loop 5 ∷ leave 1 ∷ register 1 ∷ stop_client false ∷ []) member
      member-IsValid
