-- ===== src/Client/Registration/Sent.antt =====
-- src/client.cpp: the request of a registration, and the response that it is taken from.
use ferriot.Prelude.{ℕ, ◌≡◌, refl, true, Option, none, some, arith, ap, ◌∙◌}
use ferriot.Prelude.Table.{find, put, find-put}
use ferriot.Result.{Result, ok, err}
use ferriot.Objects.Security
use ferriot.Objects.Security.{SecurityInstance}
use ferriot.Objects.Instances.{list_instances}
use ferriot.Objects.Security.Connection.{to_connection_config}
use ferriot.Objects.Server
use ferriot.Objects.Server.{ServerInstance}
use ferriot.Transport.{CoapResponse, is_success, get_location_path}
use ferriot.Client.Links.{build_registration_payload}
use ferriot.Client.State.{registering, Registration, Client, Environment, set_state, continue}
use ferriot.Client.Registration.{
  security_of, server_of, registration_request, accepted, connection, or_create, created,
  register_on, registered_with, register_with_server, find_instance,
}
use ferriot.Client.Registration.Connect.{to_option, register_on-connections}
use ferriot.Client.Registration.Outcomes.{map_option}

-- A registration whose location is that of a response which is a success.
abbrev pub IsFrom : CoapResponse → Option Registration → Type 0
IsFrom response o =
    (is_success response ≡ true)
    × (map_option Registration.location o ≡ some (get_location_path response))

module _ {W K : Type 0} (env : Environment W K) where
  -- The connection that there is for a server, or the one that is created for it as its security
  -- instance says, and the world then.
  abbrev pub reached_by : ℕ → Client W K → Option K → W × Option K
  reached_by ssid c (some conn) = (c.world, some conn)
  reached_by ssid c none =
      let security = security_of env c in
      let sec_iid = find_instance security ssid (list_instances security) in
      let (w, r) = env.connect (to_connection_config security sec_iid) c.world in (w, to_option r)

  abbrev pub reached : ℕ → Client W K → W × Option K
  reached ssid c = reached_by ssid c (find ssid c.connections)

  -- The request to register, over the connection that is reached.
  abbrev IsSent : ℕ → ServerInstance → Client W K → W × Option K → Client W K → Type 0
  IsSent ssid srv_inst c (w, o) c' =
      (conn : K) × (response : CoapResponse) × (o ≡ some conn)
      × (find ssid c'.connections ≡ some conn)
      × ((env.send conn
            (registration_request c.config.endpoint_name srv_inst
              (build_registration_payload c.objects w))
            w).1
          ≡ ok response)
      × IsFrom response (find ssid c'.registrations)

  registered_with-IsFrom :
      (ssid : ℕ) (srv_inst : ServerInstance) (r : Result CoapResponse) (d : Client W K)
      → (registered_with env ssid srv_inst (accepted r) d).1 ≡ ok tt
      → (response : CoapResponse) × (r ≡ ok response)
        × IsFrom response
            (find ssid (registered_with env ssid srv_inst (accepted r) d).0.registrations)
  unfolding registered_with accepted set_state
  registered_with-IsFrom ssid srv_inst (err e) d h = absurd (ground arith)
  registered_with-IsFrom ssid srv_inst (ok response) d h = (response, refl, grind (arith, find-put))

  set_state-frame :
      (d : Client W K)
      → let d' = set_state registering d in
        (d'.config ≡ d.config) × (d'.objects ≡ d.objects) × (d'.world ≡ d.world)
  unfolding set_state
  set_state-frame d = (ground arith, ground arith, ground arith)

  register_on-IsFrom :
      (ssid : ℕ) (srv_inst : ServerInstance) (conn : K) (d : Client W K)
      → (register_on env ssid srv_inst conn d).1 ≡ ok tt
      → (response : CoapResponse) × ((env.send conn
            (registration_request d.config.endpoint_name srv_inst
              (build_registration_payload d.objects d.world))
            d.world).1
          ≡ ok response)
        × IsFrom response (find ssid (register_on env ssid srv_inst conn d).0.registrations)
  unfolding register_on
  register_on-IsFrom ssid srv_inst conn d h =
      let c₁ = set_state registering d in
      let payload = build_registration_payload c₁.objects c₁.world in
      let message = registration_request c₁.config.endpoint_name srv_inst payload in
      let (w, r) = env.send conn message c₁.world in
      let (response, came, from) =
        registered_with-IsFrom ssid srv_inst r (record c₁ { world = w }) h in
      let (config, objects, world) = set_state-frame d in
      (response, rw (config, objects, world) at came, from)

  or_create-IsSent :
      (ssid : ℕ) (srv_inst : ServerInstance) (c : Client W K) (o : Option K)
      → find ssid c.connections ≡ o
      → let (c', r) = continue (or_create env ssid o c) (register_on env ssid srv_inst) in
        r ≡ ok tt → IsSent ssid srv_inst c (reached_by ssid c o) c'
  unfolding or_create created
  or_create-IsSent ssid srv_inst c (some conn) e h =
      let (response, came, from) = register_on-IsFrom ssid srv_inst conn c h in
      let kept = ap (find ssid) (register_on-connections env ssid srv_inst conn c) ∙ e in
      (conn, response, refl, kept, came, from)
  or_create-IsSent ssid srv_inst c none e h = by_result r refl h
    where
      w : W
      w =
          (env.connect
            (to_connection_config (security_of env c)
              (find_instance (security_of env c) ssid (list_instances (security_of env c))))
            c.world).0

      r : Result K
      r =
          (env.connect
            (to_connection_config (security_of env c)
              (find_instance (security_of env c) ssid (list_instances (security_of env c))))
            c.world).1

      by_result :
          (r' : Result K)
          → r ≡ r'
          → let (c', x) =
              continue
                (created env ssid (record c { world = w }) r')
                (register_on env ssid srv_inst) in
            x ≡ ok tt → IsSent ssid srv_inst c (w, to_option r') c'
      by_result (err e) f g = absurd (ground arith)
      by_result (ok conn) f g =
          let d : Client W K = record c { world = w; connections = put ssid conn c.connections } in
          let (response, came, from) = register_on-IsFrom ssid srv_inst conn d g in
          let kept = ap (find ssid) (register_on-connections env ssid srv_inst conn d) in
          let there = find-put ssid ssid conn c.connections in
          (conn, response, refl, kept ∙ there ∙ ground arith, came, from)

  -- A registration that succeeds was answered: the connection that there was for the server, or that
  -- was created for it, answered a request to register, with the endpoint's name, the server's
  -- instance and the objects, with a response that is a success, and the registration's location is
  -- that of the response.
  pub register_with_server-IsSent :
      (ssid : ℕ) (c : Client W K)
      → (register_with_server env ssid c).1 ≡ ok tt
      → (srv_inst : ServerInstance) × (Server.find_by_short_server_id (server_of env c) ssid
          ≡ some srv_inst)
        × IsSent ssid srv_inst c (reached ssid c) (register_with_server env ssid c).0
  unfolding register_with_server connection
  register_with_server-IsSent ssid c h =
      by_instances (Security.find_by_short_server_id (security_of env c) ssid)
        (Server.find_by_short_server_id (server_of env c) ssid) refl refl
    where
      by_instances :
          (sec : Option SecurityInstance) (srv : Option ServerInstance)
          → Security.find_by_short_server_id (security_of env c) ssid ≡ sec
          → Server.find_by_short_server_id (server_of env c) ssid ≡ srv
          → (srv_inst : ServerInstance) × (Server.find_by_short_server_id (server_of env c) ssid
              ≡ some srv_inst)
            × IsSent ssid srv_inst c (reached ssid c) (register_with_server env ssid c).0
      by_instances none srv e f = absurd (ground arith)
      by_instances (some sec_inst) none e f = absurd (ground arith)
      by_instances (some sec_inst) (some srv_inst) e f =
          let sent =
            or_create-IsSent ssid srv_inst c (find ssid c.connections) refl (rw (e, f) at h) in
          (srv_inst, f, rw (e, f) sent)
