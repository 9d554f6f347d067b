-- ===== src/Example.antt =====
-- src/examples/lwm2m_client.cpp: the example program.
--
-- The lifetime and the binding of ClientConfig are left out, as the client does not read them; the
-- printing, in the callbacks too, is not modelled. The thread of the event loop polls a number of
-- times before main registers, and a number of times in each second that main sleeps; `signalled i`
-- is whether SIGINT or SIGTERM has come when main tests `running` for the time i.
pub mod Arguments
pub mod Main
use ferriot.Prelude.{
  ℕ, zero, suc, Bool, true, false, ◌||◌, Option, none, some, List, [], ◌∷◌, Bytes, String, codes,
  if◌then◌else◌,
}
use ferriot.Prelude.Strings.{same_bytes}
use ferriot.Prelude.Int.{ℤ}
use ferriot.Result.{Result, ok, err}
use ferriot.Objects.Instances.{add_server}
use ferriot.Objects.Security
use ferriot.Objects.Security.{SecurityInstance}
use ferriot.Objects.Server
use ferriot.Objects.Server.{ServerInstance}
use ferriot.Objects.Device
use ferriot.Objects.Device.{DeviceConfig, default_config}
use ferriot.Object.Standard.{Standard}
use ferriot.Client.State.{ClientConfig, ClientCallbacks, Client, Environment}
use ferriot.Client.Construct.{create_client, set_callbacks}
use ferriot.Client.Registration.{register_with_server}
use ferriot.Client.Loop.{run_event_loop, start, stop}

-- The variables that the arguments set.
pub record Options : Type 0 where
  pub server_uri : Bytes
  pub endpoint_name : Bytes
  pub security_mode : Bytes

abbrev pub default_options : Options
default_options = record {
  server_uri = codes "coap://localhost:5683";
  endpoint_name = codes "cpp-client-1";
  security_mode = codes "nosec";
}

-- The argument, by the tests on it in their order.
pub data Argument : Type 0 where
  uri endpoint security help other : Argument

abbrev pub is_either : Bytes → String → String → Bool
is_either arg short long = same_bytes arg (codes short) || same_bytes arg (codes long)

unfoldable pub argument_of : Bytes → Argument
argument_of arg =
    if is_either arg "-u" "--uri"
    then uri
    else if is_either arg "-e" "--endpoint"
    then endpoint
    else if is_either arg "-s" "--security"
    then security
    else if is_either arg "-h" "--help"
    then help
    else other

abbrev pub takes_value : Argument → Bool
takes_value uri = true
takes_value endpoint = true
takes_value security = true
takes_value help = false
takes_value other = false

abbrev pub is_help : Argument → Bool
is_help help = true
is_help _ = false

abbrev pub assign : Argument → Bytes → Options → Options
assign uri value o = record o { server_uri = value }
assign endpoint value o = record o { endpoint_name = value }
assign security value o = record o { security_mode = value }
assign help value o = o
assign other value o = o

-- The loop over the arguments that are left; none where it prints the help.
unfoldable pub parse_arguments : Options → List Bytes → Option Options
parse_arguments o [] = some o
parse_arguments o (arg ∷ []) = if is_help (argument_of arg) then none else some o
parse_arguments o (arg ∷ value ∷ rest) =
    let taken = parse_arguments (assign (argument_of arg) value o) rest in
    let passed = parse_arguments o (value ∷ rest) in
    if takes_value (argument_of arg)
    then taken
    else if is_help (argument_of arg)
    then none
    else passed

-- `threshold` is that of the client's lifetimes.
abbrev pub make_client_config : (ℕ → ℕ) → Bytes → ClientConfig
make_client_config threshold endpoint_name = record {
  endpoint_name = endpoint_name;
  poll_interval = 100;
  threshold = threshold;
}

abbrev pub make_device_config : Bytes → Bytes → Bytes → Bytes → Bytes → DeviceConfig
make_device_config manufacturer model serial fw_version device_type = record default_config {
  manufacturer = manufacturer;
  model_number = model;
  serial_number = serial;
  firmware_version = fw_version;
  device_type = device_type;
}

abbrev pub make_security_instance : Bytes → ℕ → ℕ → SecurityInstance
make_security_instance server_uri ssid mode = record Security.default_instance {
  server_uri = server_uri;
  bootstrap_server = false;
  security_mode = mode;
  short_server_id = ssid;
}

abbrev pub make_server_instance : ℕ → ℕ → Bytes → ServerInstance
make_server_instance ssid lifetime binding = record Server.default_instance {
  short_server_id = ssid;
  lifetime = lifetime;
  binding = binding;
}

-- SecurityModeValue::NoSec
abbrev pub no_sec : ℕ
no_sec = 3

-- The objects, as main sets them before it starts the client.
unfoldable pub configure : Options → Standard → Standard
configure o s =
    let config =
      make_device_config (codes "Ferriot") (codes "Ferriot") (codes "001") (codes "0.1.0")
        (codes "TCU") in
    record s {
      device = Device.device_object config;
      device_resources = [];
      security =
          (add_server Security.default_instance s.security
            (make_security_instance o.server_uri 1 no_sec)).0;
      server = (Server.add_server s.server (make_server_instance 1 15 (codes "U"))).0;
    }

abbrev pub callbacks : ClientCallbacks
callbacks = record {
  on_state_change = true;
  on_registered = true;
  on_deregistered = true;
  on_error = true;
  on_connection_lost = true;
  on_reconnecting = true;
  on_reconnected = true;
}

module _ {K : Type 0} where
  unfoldable pub set_up : (ℕ → ℕ) → ℤ → Options → Client Standard K
  unfolding configure
  set_up threshold now o =
      let c : Client Standard K =
        create_client now (make_client_config threshold o.endpoint_name) in
      set_callbacks callbacks (record c { world = configure o c.world })

  -- `while (running.load())`, for a number of rounds at most; none where no signal comes in them.
  unfoldable wait_for_signal :
      Environment Standard K
      → ℕ
      → (ℕ → Bool)
      → ℕ
      → ℕ
      → Client Standard K
      → Option (Client Standard K)
  wait_for_signal env polls signalled zero i c = none
  wait_for_signal env polls signalled (suc rounds) i c =
      let rest = wait_for_signal env polls signalled rounds (suc i) (run_event_loop env polls c) in
      if signalled i then some c else rest

  module _ (env : Environment Standard K) (polls_before polls : ℕ) (signalled : ℕ → Bool)
      (rounds : ℕ) where
    stopped : Option (Client Standard K) → Option (ℕ × Client Standard K)
    stopped none = none
    stopped (some c) = some (0, stop env false (stop env false c))

    -- The end of main, from the answer of register_with_server on: its code, and the client when
    -- the destructor has stopped it.
    ended : Client Standard K × Result (Unit {0}) → Option (ℕ × Client Standard K)
    unfolding stopped wait_for_signal
    ended (c, err e) = some (1, stop env false c)
    ended (c, ok done) = stopped (wait_for_signal env polls signalled rounds 0 c)

    started : Client Standard K × Result (Unit {0}) → Option (ℕ × Client Standard K)
    unfolding ended
    started (c, err e) = some (1, stop env false c)
    started (c, ok done) = ended (register_with_server env 1 (run_event_loop env polls_before c))

    main_with : (ℕ → ℕ) → ℤ → Option Options → Option (ℕ × Option (Client Standard K))
    unfolding started
    main_with threshold now none = some (0, none)
    main_with threshold now (some o) = with_client (started (start env (set_up threshold now o)))
      where
        with_client : Option (ℕ × Client Standard K) → Option (ℕ × Option (Client Standard K))
        with_client none = none
        with_client (some (code, c)) = some (code, some c)

    -- With the arguments after the program's name: the exit code, and the client, of which there is
    -- none where the help is printed. None where main has not ended after the rounds.
    unfoldable pub main : (ℕ → ℕ) → ℤ → List Bytes → Option (ℕ × Option (Client Standard K))
    unfolding main_with
    main threshold now arguments =
        main_with threshold now (parse_arguments default_options arguments)
