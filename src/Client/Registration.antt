-- ===== src/Client/Registration.antt =====
-- src/client.cpp: register_with_server, update_registration and deregister, and the accessors of
-- the registrations.
pub mod Outcomes
pub mod Frame
pub mod Connect
pub mod Sent
pub mod World
use Prim.Native.String.{String, ◌++◌ as concat}
use ferriot.Prelude.{
  is_empty, ℕ, ◌+◌, Bool, true, false, not, ◌&&◌, Option, none, some, List, [], ◌∷◌, ◌++◌, ◌==◌,
  if◌then◌else◌, Bytes, codes,
}
use ferriot.Prelude.Table.{Table, find, put, erase, keys}
use ferriot.Result.{
  Result, ok, err, Error, ErrorCode, not_found, invalid_state, bad_request, is_ok, fail,
}
use ferriot.Types.Decimal.{decimal}
use ferriot.Object.{Object}
use ferriot.Objects.Instances.{list_instances, get_instance}
use ferriot.Objects.Security
use ferriot.Objects.Security.{SecurityObject, SecurityInstance}
use ferriot.Objects.Security.Connection.{to_connection_config}
use ferriot.Objects.Server
use ferriot.Objects.Server.{ServerObject, ServerInstance}
use ferriot.Transport.{
  CoapMethod, post, delete, CoapRequest, CoapResponse, link_format, is_success, get_location_path,
}
use ferriot.Client.Links.{build_registration_payload}
use ferriot.Client.State.{
  ClientState, idle, registering, registered, updating, deregistering, error, Registration, Client,
  Environment, registered_event, deregistered, seconds, notify, set_state, Action, pure, raise,
  or_raise, modify, ◌>>=◌, ◌>>◌,
}

-- `inst && inst->short_server_id == short_server_id`
abbrev pub serves : Option SecurityInstance → ℕ → Bool
serves none ssid = false
serves (some inst) ssid = inst.short_server_id == ssid

-- The loop for sec_iid over the instances that are left; 0 where it finds none.
unfoldable pub find_instance : SecurityObject → ℕ → List ℕ → ℕ
find_instance security ssid [] = 0
find_instance security ssid (iid ∷ iids) =
    if serves (get_instance security iid) ssid then iid else find_instance security ssid iids

abbrev pub request : CoapMethod → Bytes → Bytes → CoapRequest
request method uri_path payload = record {
  method = method;
  uri_path = uri_path;
  options = [];
  payload = payload;
  content_format = link_format;
}

-- The request to register, for an endpoint with a lifetime and a binding.
unfoldable pub registration_request : Bytes → ServerInstance → Bytes → CoapRequest
registration_request endpoint_name srv_inst payload =
    request post
      (codes "/rd?ep="
        ++ (endpoint_name
            ++ (codes "&lt="
                ++ (decimal srv_inst.lifetime ++ (codes "&lwm2m=1.1&b=" ++ srv_inst.binding)))))
      payload

-- The location in the response, or the error, which comes with the state Error.
unfoldable pub accepted : Result CoapResponse → Result Bytes
accepted (err e) =
    err (record { code = e.code; message = concat "Registration failed: " e.message })
accepted (ok response) =
    if is_success response
    then located (get_location_path response)
    else fail bad_request "Registration rejected by server"
  where
    located : Bytes → Result Bytes
    located [] = fail bad_request "Server did not return Location-Path in registration response"
    located (b ∷ bs) = ok (b ∷ bs)

module _ {W K : Type 0} (env : Environment W K) where
  abbrev pub security_of : Client W K → SecurityObject
  security_of c = env.security c.world

  abbrev pub server_of : Client W K → ServerObject
  server_of c = env.server c.world

  abbrev pub system_clock : Action (Client W K) ℕ
  system_clock c = let (w, now) = env.system_now c.world in (record c { world = w }, ok now)

  -- The response, which is looked at by the caller.
  abbrev pub send : K → CoapRequest → Action (Client W K) (Result CoapResponse)
  send conn message c =
      let (w, response) = env.send conn message c.world in (record c { world = w }, ok response)

  created : ℕ → Client W K → Result K → Client W K × Result K
  created ssid c (ok conn) = (record c { connections = put ssid conn c.connections }, ok conn)
  created ssid c (err e) =
      (c, err (record { code = e.code; message = concat "Connection failed: " e.message }))

  -- `// Create connection if needed`, and the connection that there is then.
  or_create : ℕ → Option K → Action (Client W K) K
  unfolding created
  or_create ssid (some conn) c = (c, ok conn)
  or_create ssid none c =
      let security = security_of c in
      let sec_iid = find_instance security ssid (list_instances security) in
      let (w, r) = env.connect (to_connection_config security sec_iid) c.world in
      created ssid (record c { world = w }) r

  connection : ℕ → Action (Client W K) K
  unfolding or_create
  connection ssid c = or_create ssid (find ssid c.connections) c

  -- The end of register_with_server, from the response on.
  registered_with : ℕ → ServerInstance → Result Bytes → Action (Client W K) (Unit {0})
  registered_with ssid srv_inst (err e) = λ c. (set_state error c, err e)
  registered_with ssid srv_inst (ok location) = do
    registered_at ← system_clock
    now ← system_clock
    let reg : Registration = record {
      location = location;
      short_server_id = ssid;
      registered_at = registered_at;
      expires_at = now + seconds srv_inst.lifetime;
    }
    modify (λ c. record c { registrations = put ssid reg c.registrations })
    modify (set_state registered)
    modify (λ c. notify c.callbacks.on_registered (registered_event ssid reg) c)

  -- The request over the connection, and what follows it.
  pub register_on : ℕ → ServerInstance → K → Action (Client W K) (Unit {0})
  unfolding registered_with
  register_on ssid srv_inst conn = do
    modify (set_state registering)
    payload ← λ c. (c, ok (build_registration_payload c.objects c.world))
    endpoint_name ← λ c. (c, ok c.config.endpoint_name)
    response ← send conn (registration_request endpoint_name srv_inst payload)
    registered_with ssid srv_inst (accepted response)

  unfoldable pub register_with_server : ℕ → Action (Client W K) (Unit {0})
  unfolding connection register_on
  register_with_server ssid c₀ =
      (do
        or_raise (Security.find_by_short_server_id (security_of c₀) ssid) not_found
            "No security instance for server"
        srv_inst ←
            or_raise (Server.find_by_short_server_id (server_of c₀) ssid) not_found
              "No server instance for server"
        conn ← connection ssid
        register_on ssid srv_inst conn)
        c₀

  abbrev pub succeeded : Result CoapResponse → Bool
  succeeded (err e) = false
  succeeded (ok response) = is_success response

  extend : ℕ → Registration → Option ServerInstance → Action (Client W K) (Unit {0})
  extend ssid reg none = pure tt
  extend ssid reg (some srv_inst) = do
    now ← system_clock
    let later : Registration = record reg { expires_at = now + seconds srv_inst.lifetime }
    modify (λ c. record c { registrations = put ssid later c.registrations })

  -- The end of update_registration, from the response on. The object is asked for its lifetime
  -- then, after the requests that came in while the client waited.
  updated : ℕ → Registration → Bool → Action (Client W K) (Unit {0})
  unfolding extend
  updated ssid reg false = λ c. (set_state registered c, fail bad_request "Update failed")
  updated ssid reg true = do
    λ c. extend ssid reg (Server.find_by_short_server_id (server_of c) ssid) c
    modify (set_state registered)

  unfoldable pub update_registration : ℕ → Action (Client W K) (Unit {0})
  unfolding updated
  update_registration ssid c₀ =
      (do
        reg ← or_raise (find ssid c₀.registrations) not_found "Not registered with this server"
        conn ← or_raise (find ssid c₀.connections) invalid_state "No connection to server"
        modify (set_state updating)
        response ← send conn (request post reg.location [])
        updated ssid reg (succeeded response))
        c₀

  say_goodbye : Registration → Option K → Client W K → Client W K
  say_goodbye reg none c = c
  say_goodbye reg (some conn) c =
      (send conn (request delete reg.location []) (set_state deregistering c)).0

  or_deregister : ℕ → Option Registration → Action (Client W K) (Unit {0})
  unfolding say_goodbye
  or_deregister ssid none c = (c, ok tt)
  or_deregister ssid (some reg) c₀ =
      let c₁ = say_goodbye reg (find ssid c₀.connections) c₀ in
      let c₂ : Client W K = record c₁ { registrations = erase ssid c₁.registrations } in
      let c₃ = notify c₂.callbacks.on_deregistered (deregistered ssid) c₂ in
      (set_state (if is_empty c₃.registrations then idle else registered) c₃, ok tt)

  unfoldable pub deregister : ℕ → Action (Client W K) (Unit {0})
  unfolding or_deregister
  deregister ssid c = or_deregister ssid (find ssid c.registrations) c

module _ {W K : Type 0} where
  unfoldable pub get_registration : Client W K → ℕ → Option Registration
  get_registration c ssid = find ssid c.registrations

  unfoldable pub registered_servers : Client W K → List ℕ
  registered_servers c = keys c.registrations

  unfoldable pub get_object : Client W K → ℕ → Option (Object W)
  get_object c oid = find oid c.objects

  -- By the identifier that the object gives itself.
  unfoldable pub add_object : ℕ → Object W → Client W K → Client W K
  add_object oid object c = record c { objects = put oid object c.objects }
