-- ===== src/Client/Registration/Outcomes.antt =====
-- src/client.cpp: what register_with_server, update_registration and deregister leave behind, where
-- they succeed and where they fail.
use ferriot.Prelude.{
  present, is_empty, ℕ, ◌≡◌, refl, ◌∙◌, Bool, true, false, not, ◌&&◌, ◌||◌, Option, none, some, [],
  ◌∷◌, ◌==◌, if◌then◌else◌, Bytes, arith,
}
use ferriot.Prelude.Table.{Table, find, erase, find-put}
use ferriot.Result.{Result, ok, err, Error}
use ferriot.Transport.{CoapResponse}
use ferriot.Objects.Server.{ServerInstance}
use ferriot.Client.State.{
  ClientState, idle, registering, registered, error, ◌is◌, Registration, Client, Environment,
  set_state,
}
use ferriot.Client.Registration.{
  accepted, created, or_create, connection, registered_with, register_on, register_with_server,
  extend, updated, update_registration, say_goodbye, or_deregister, deregister,
}

-- A registration for a server, with a location.
abbrev pub is_for : ℕ → Option Registration → Bool
is_for ssid none = false
is_for ssid (some reg) = reg.short_server_id == ssid && not (is_empty reg.location)

abbrev pub without_end : Registration → Registration
without_end reg = record reg { expires_at = 0 }

abbrev pub map_option : {A B : Type 0} → (A → B) → Option A → Option B
map_option f none = none
map_option f (some a) = some (f a)

-- After a registration for `ssid`: the entry for it, and the entry for another.
abbrev pub IsRegisteredFor : {W K : Type 0} → ℕ → ℕ → Table Registration → Client W K → Type 0
IsRegisteredFor ssid j before c =
    (is_for ssid (find ssid c.registrations) ≡ true)
    × (find j c.registrations ≡ (if ssid == j then find ssid c.registrations else find j before))
    × (c.state ≡ registered)

pub set_state-registrations :
    {W K : Type 0} (new_state : ClientState) (c : Client W K)
    → (set_state new_state c).registrations ≡ c.registrations
unfolding set_state
set_state-registrations new_state c = ground arith

module _ {W K : Type 0} (env : Environment W K) (c : Client W K) (ssid : ℕ) where
  -- Registering that fails leaves every registration as it was, and the state as it was or Error.
  pub register_with_server-err :
      {e : Error}
      → (register_with_server env ssid c).1 ≡ err e
      → ((register_with_server env ssid c).0.registrations ≡ c.registrations)
        × (((register_with_server env ssid c).0.state is error
              || (register_with_server env ssid c).0.state is c.state)
            ≡ true)
  unfolding register_with_server connection or_create created register_on registered_with set_state
  register_with_server-err h = ground arith

  -- Updating that fails leaves every registration as it was, and the state, which is Registered
  -- where the server has a registration and a connection.
  pub update_registration-err :
      {e : Error}
      → (update_registration env ssid c).1 ≡ err e
      → let c' = (update_registration env ssid c).0 in
        (c'.registrations ≡ c.registrations)
        × (c'.state ≡ (
            if present (find ssid c.registrations) && present (find ssid c.connections)
            then registered
            else c.state))
  unfolding update_registration updated extend set_state
  update_registration-err h = ground arith

  registered_with-ok :
      (j : ℕ) (srv_inst : ServerInstance) (r : Result Bytes) (d : Client W K)
      → d.registrations ≡ c.registrations
      → ((b : Bytes) → r ≡ ok b → is_empty b ≡ false)
      → (registered_with env ssid srv_inst r d).1 ≡ ok tt
      → IsRegisteredFor ssid j c.registrations (registered_with env ssid srv_inst r d).0
  unfolding registered_with set_state
  registered_with-ok j srv_inst (err e) d same full h = cc
  registered_with-ok j srv_inst (ok []) d same full h = cc (full [] refl)
  registered_with-ok j srv_inst (ok (b ∷ bs)) d same full h = grind (arith, find-put, same)

  accepted-full : (r : Result CoapResponse) (b : Bytes) → accepted r ≡ ok b → is_empty b ≡ false
  unfolding accepted
  accepted-full r b h = ground arith

  register_on-ok :
      (j : ℕ) (srv_inst : ServerInstance) (conn : K) (d : Client W K)
      → d.registrations ≡ c.registrations
      → (register_on env ssid srv_inst conn d).1 ≡ ok tt
      → IsRegisteredFor ssid j c.registrations (register_on env ssid srv_inst conn d).0
  unfolding register_on
  register_on-ok j srv_inst conn d same h =
      registered_with-ok j srv_inst _ _ (set_state-registrations registering d ∙ same)
        (accepted-full _) h

  connection-registrations : (connection env ssid c).0.registrations ≡ c.registrations
  unfolding connection or_create created
  connection-registrations = ground arith

  -- Registering that succeeds ends in Registered, with a registration for the server that has the
  -- server's identifier and a location, and with every other registration as it was.
  pub register_with_server-ok :
      (j : ℕ)
      → (register_with_server env ssid c).1 ≡ ok tt
      → IsRegisteredFor ssid j c.registrations (register_with_server env ssid c).0
  unfolding register_with_server
  register_with_server-ok j h = grind (arith, register_on-ok j, connection-registrations)

  -- Deregistering always succeeds. The server's registration is gone, the others are as they were,
  -- and the state is Idle or Registered by whether any is left, unless there was none for the
  -- server, and then nothing changes.
  pub deregister_lem :
      (r : Option Registration)
      → find ssid c.registrations ≡ r
      → let c' = (deregister env ssid c).0 in
        ((deregister env ssid c).1 ≡ ok tt)
        × (c'.registrations ≡ (if present r then erase ssid c.registrations else c.registrations))
        × (c'.state ≡ (
            if present r
            then if is_empty (erase ssid c.registrations) then idle else registered
            else c.state))
  unfolding deregister or_deregister say_goodbye set_state
  deregister_lem none e = rw e (refl, refl, refl)
  deregister_lem (some reg) e = rw e (ground arith)

  pub deregister-connections : (deregister env ssid c).0.connections ≡ c.connections
  unfolding deregister or_deregister say_goodbye set_state
  deregister-connections = ground arith

  pub deregister-reconnecting : (deregister env ssid c).0.reconnecting ≡ c.reconnecting
  unfolding deregister or_deregister say_goodbye set_state
  deregister-reconnecting = ground arith

  pub deregister-running : (deregister env ssid c).0.running ≡ c.running
  unfolding deregister or_deregister say_goodbye set_state
  deregister-running = ground arith

  -- Updating that succeeds ends in Registered, with every registration as it was but for the end of
  -- the server's own, which is there.
  pub update_registration-ok :
      (j : ℕ)
      → (update_registration env ssid c).1 ≡ ok tt
      → let c' = (update_registration env ssid c).0 in
        (present (find ssid c.registrations) ≡ true)
        × (map_option without_end (find j c'.registrations)
            ≡ map_option without_end (find j c.registrations))
        × (c'.state ≡ registered)
  unfolding update_registration updated extend set_state
  update_registration-ok j h = grind (arith, find-put)
