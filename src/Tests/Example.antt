-- ===== src/Tests/Example.antt =====
-- src/examples/lwm2m_client.cpp on concrete arguments, over objects and a network that is down.
use ferriot.Prelude.{
  Option, none, leb, ℕ, ◌≡◌, refl, true, some, false, [], ◌∷◌, ◌++◌, List, Bytes, codes,
}
use ferriot.Prelude.Strings.{same_bytes}
use ferriot.Prelude.Int.{pos}
use ferriot.Prelude.Table.{find, put, keys}
use ferriot.Result.{ok, fail, connection_failed, timeout}
use ferriot.Objects.Security
use ferriot.Objects.Server
use ferriot.Objects.Instances.{
  list_instances, get_instance, find_by, add_server, create_instance, configured, empty,
}
use ferriot.Objects.Security.Connection.{default_config}
use ferriot.Object.Standard.{Standard}
use ferriot.Transport.{respond, created, is_success, get_location_path, location_of}
use ferriot.Client.State.{Client, Environment, set_state}
use ferriot.Client.Construct.{create_client, set_callbacks}
use ferriot.Client.Loop.{run_event_loop, start, stop}
use ferriot.Client.Registration.{register_with_server, find_instance, accepted, add_object}
use ferriot.Client.Registration.Connect.{to_option}
use ferriot.Example.{
  Options, default_options, argument_of, parse_arguments, set_up, configure, main,
}
use ferriot.Example.Main.{register_with_server-set_up}
use ferriot.Example.Arguments.{
  Setting, sets_uri, sets_security, arguments_of, after, parse_arguments-arguments_of,
}

abbrev env : Environment Standard ℕ
env = record {
  security = Standard.security;
  server = Standard.server;
  connect = λ config s. (s, fail connection_failed "unreachable");
  disconnect = λ conn s. s;
  is_connected = λ conn s. true;
  send = λ conn request s. (s, fail timeout "Request timeout");
  poll_connection = λ conn time s. [];
  system_now = λ s. (s, 0);
  steady_now = λ s. (s, 0);
}

abbrev arguments : List Bytes
arguments = codes "--uri" ∷ codes "coap://host" ∷ codes "-s" ∷ codes "psk" ∷ codes "-e" ∷ []

abbrev options : Options
options = record default_options { server_uri = codes "coap://host"; security_mode = codes "psk" }

arguments_parsed : parse_arguments default_options arguments ≡ some options
unfolding parse_arguments argument_of same_bytes
arguments_parsed = refl

-- The value of -u is the spelling of another option.
abbrev settings : List Setting
settings =
    sets_uri false (codes "-h")
    ∷ sets_security true (codes "psk")
    ∷ sets_uri true (codes "coap://host")
    ∷ []

parse_arguments-arguments_of_example :
    parse_arguments default_options (arguments_of settings ++ codes "-e" ∷ [])
    ≡ parse_arguments (after settings default_options) (codes "-e" ∷ [])
parse_arguments-arguments_of_example =
    parse_arguments-arguments_of settings default_options (codes "-e" ∷ [])

register_with_server-set_up_example :
    let c = set_up (λ n. n) (pos 0) options in
    find 1 (register_with_server env 1 c).0.connections
    ≡ to_option (env.connect (record default_config { server_uri = codes "coap://host" }) c.world).1
register_with_server-set_up_example =
    register_with_server-set_up env (λ n. n) (pos 0) options (λ s. refl) (λ s. refl)

abbrev exit_code : Option (ℕ × Option (Client Standard ℕ)) → Option ℕ
exit_code none = none
exit_code (some (code, c)) = some code

-- The network is down, and main does not come to wait for a signal.
not_registered : exit_code (main env 0 0 (λ i. false) 1 (λ n. n) (pos 0) arguments) ≡ some 1
unfolding main parse_arguments argument_of same_bytes set_up create_client start stop set_callbacks
    add_object configure register_with_server run_event_loop add_server create_instance configured
    empty find_by find put find_instance list_instances keys get_instance set_state
    Server.add_server Security.find_by_short_server_id Server.find_by_short_server_id
    Server.set_registration_update_callback
not_registered = refl

-- A server that answers, and a signal in the third second.
abbrev answering : Environment Standard ℕ
answering = record env {
  connect = λ config s. (s, ok 7);
  send = λ conn request s.
      (s, ok (record (respond created) { options = (8, codes "rd") ∷ (8, codes "5") ∷ [] }));
}

signalled : exit_code (main answering 0 0 (λ i. leb 2 i) 5 (λ n. n) (pos 0) arguments) ≡ some 0
unfolding main parse_arguments argument_of same_bytes set_up create_client start stop set_callbacks
    add_object configure register_with_server run_event_loop add_server create_instance configured
    empty find_by find put find_instance list_instances keys get_instance set_state accepted
    is_success get_location_path location_of Server.add_server Security.find_by_short_server_id
    Server.find_by_short_server_id Server.set_registration_update_callback
signalled = refl
