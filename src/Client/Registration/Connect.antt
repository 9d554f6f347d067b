-- ===== src/Client/Registration/Connect.antt =====
-- src/client.cpp: the connection that registering opens.
use ferriot.Prelude.{ℕ, ◌≡◌, Option, none, some, arith}
use ferriot.Prelude.Table.{find, put, find-put}
use ferriot.Result.{Result, ok, err}
use ferriot.Objects.Instances.{list_instances}
use ferriot.Objects.Security
use ferriot.Objects.Security.{SecurityInstance}
use ferriot.Objects.Security.Connection.{to_connection_config}
use ferriot.Objects.Server
use ferriot.Objects.Server.{ServerInstance}
use ferriot.Client.State.{Client, Environment, set_state, continue}
use ferriot.Client.Registration.{
  security_of, server_of, find_instance, connection, or_create, created, register_on,
  registered_with, register_with_server,
}

abbrev pub to_option : {A : Type 0} → Result A → Option A
to_option (ok a) = some a
to_option (err e) = none

module _ {W K : Type 0} (env : Environment W K) where
  pub register_on-connections :
      (ssid : ℕ) (srv_inst : ServerInstance) (conn : K) (c : Client W K)
      → (register_on env ssid srv_inst conn c).0.connections ≡ c.connections
  unfolding register_on registered_with set_state
  register_on-connections ssid srv_inst conn c = ground arith

  created-to_option :
      (ssid : ℕ) (srv_inst : ServerInstance) (c : Client W K) (r : Result K)
      → find ssid c.connections ≡ none
      → find ssid (continue (created env ssid c r) (register_on env ssid srv_inst)).0.connections
        ≡ to_option r
  unfolding created
  created-to_option ssid srv_inst c (err e) absent = absent
  created-to_option ssid srv_inst c (ok conn) absent =
      let c' : Client W K = record c { connections = put ssid conn c.connections } in
      rw (register_on-connections ssid srv_inst conn c', find-put ssid ssid conn c.connections)
        (ground arith)

  -- Registering with a server that the two objects know, and that has no connection yet, connects
  -- as the first security instance for the server says, and keeps the connection if there is one.
  pub register_with_server-to_option :
      (ssid : ℕ) (c : Client W K) {sec_inst : SecurityInstance} {srv_inst : ServerInstance}
      → Security.find_by_short_server_id (security_of env c) ssid ≡ some sec_inst
      → Server.find_by_short_server_id (server_of env c) ssid ≡ some srv_inst
      → find ssid c.connections ≡ none
      → let security = security_of env c in
        let sec_iid = find_instance security ssid (list_instances security) in
        find ssid (register_with_server env ssid c).0.connections
        ≡ to_option (env.connect (to_connection_config security sec_iid) c.world).1
  unfolding register_with_server connection or_create
  register_with_server-to_option ssid c {sec_inst} {srv_inst} secured served absent =
      let security = security_of env c in
      let sec_iid = find_instance security ssid (list_instances security) in
      let (w, r) = env.connect (to_connection_config security sec_iid) c.world in
      rw (secured, served, absent)
        (created-to_option ssid srv_inst (record c { world = w }) r absent)
