-- ===== src/Client/Construct.antt =====
-- include/lwm2m/client.hpp and src/client.cpp: a client that is constructed, with the standard
-- objects as its world, and what an application sets before it starts it.
--
-- The Device object's clock is `now`; backoff_multiplier, 2.0, is taken to double a time
-- exactly, as a double does below 2 ^ 52.
use ferriot.Prelude.{◌*◌, true, false, []}
use ferriot.Prelude.Int.{ℤ}
use ferriot.Objects.Instances.{empty}
use ferriot.Objects.Server
use ferriot.Objects.Device
use ferriot.Objects.Device.{default_config}
use ferriot.Objects.Connectivity
use ferriot.Objects.Firmware
use ferriot.Object.Standard.{
  Standard, security_object, server_object, device_object, connectivity_object,
  firmware_update_object,
}
use ferriot.Client.State.{idle, ClientConfig, ReconnectionConfig, ClientCallbacks, Client}
use ferriot.Client.Registration.{add_object}

-- ReconnectionConfig{}
abbrev pub default_reconnect_config : ReconnectionConfig
default_reconnect_config = record {
  enabled = true;
  max_retries = 0;
  initial_backoff = 2;
  max_backoff = 300;
  scaled = λ n. 2 * n;
}

-- ClientCallbacks{}
abbrev pub no_callbacks : ClientCallbacks
no_callbacks = record {
  on_state_change = false;
  on_registered = false;
  on_deregistered = false;
  on_error = false;
  on_connection_lost = false;
  on_reconnecting = false;
  on_reconnected = false;
}

-- The objects that the constructor makes, with the Server object's callback set.
abbrev pub standard : Standard
standard = record {
  security = empty;
  server = Server.set_registration_update_callback (record { table = empty; has_callback = false });
  device = Device.device_object default_config;
  device_resources = [];
  connectivity = Connectivity.default_config;
  firmware_update = Firmware.created;
}

module _ {K : Type 0} where
  -- The members, before the constructor's body.
  abbrev pub blank : ClientConfig → Client Standard K
  blank config = record {
    config = config;
    callbacks = no_callbacks;
    objects = [];
    connections = [];
    registrations = [];
    state = idle;
    running = false;
    reconnect_config = default_reconnect_config;
    reconnecting = false;
    reconnect_attempts = 0;
    reconnect_ssid = 0;
    next_reconnect_time = 0;
    world = standard;
    events = [];
  }

  unfoldable pub create_client : ℤ → ClientConfig → Client Standard K
  create_client now config = add_object 5 firmware_update_object (
      add_object 4 connectivity_object (
        add_object 3 (device_object now)
          (add_object 1 server_object (add_object 0 security_object (blank config)))))

module _ {W K : Type 0} where
  unfoldable pub set_callbacks : ClientCallbacks → Client W K → Client W K
  set_callbacks callbacks c = record c { callbacks = callbacks }

  unfoldable pub set_reconnection_config : ReconnectionConfig → Client W K → Client W K
  set_reconnection_config config c = record c { reconnect_config = config }
