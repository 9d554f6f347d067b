-- ===== src/Example/Main.antt =====
-- src/examples/lwm2m_client.cpp: the client that main sets up.
use ferriot.Prelude.{ℕ, ◌≡◌, refl, sym, codes}
use ferriot.Prelude.Int.{ℤ}
use ferriot.Prelude.Table.{find, put, keys}
use ferriot.Object.Standard.{Standard}
use ferriot.Objects.Instances.{
  empty, list_instances, get_instance, create_instance, configured, add_server, find_by,
}
use ferriot.Objects.Security
use ferriot.Objects.Server
use ferriot.Objects.Security.Connection.{default_config, to_connection_config, config_of, with_mode}
use ferriot.Client.State.{Client, Environment}
use ferriot.Client.Registration.{register_with_server, add_object, find_instance}
use ferriot.Client.Registration.Connect.{to_option, register_with_server-to_option}
use ferriot.Client.Construct.{create_client, set_callbacks}
use ferriot.Example.{
  no_sec, make_security_instance, make_server_instance, Options, configure, set_up,
}

module _ {K : Type 0} (env : Environment Standard K) where
  -- Of a client with the options that is set up, over its own objects, registering with the server 1
  -- opens a connection to the server's uri, without security whatever security mode is asked for, and
  -- keeps it where it is opened.
  pub register_with_server-set_up :
      (threshold : ℕ → ℕ) (now : ℤ) (o : Options)
      → ((s : Standard) → env.security s ≡ s.security)
      → ((s : Standard) → env.server s ≡ s.server)
      → let c = set_up threshold now o in
        find 1 (register_with_server env 1 c).0.connections
        ≡ to_option (env.connect (record default_config { server_uri = o.server_uri }) c.world).1
  unfolding set_up create_client set_callbacks add_object configure add_server create_instance
      configured empty Security.find_by_short_server_id Server.find_by_short_server_id find_by find
      put find_instance list_instances keys get_instance to_connection_config config_of with_mode
      Server.set_registration_update_callback
  register_with_server-set_up threshold now o secures serves =
      let c : Client Standard K = set_up threshold now o in
      let config : to_connection_config (env.security c.world)
            (find_instance (env.security c.world) 1 (list_instances (env.security c.world)))
          ≡ record default_config { server_uri = o.server_uri } =
        rw (secures c.world) refl in
      rw (sym config) (
        register_with_server-to_option env 1 c
          {sec_inst = make_security_instance o.server_uri 1 no_sec}
          {srv_inst = make_server_instance 1 15 (codes "U")} (rw (secures c.world) refl)
          (rw (serves c.world) refl) refl)
