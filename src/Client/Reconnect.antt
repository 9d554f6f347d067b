-- ===== src/Client/Reconnect.antt =====
-- src/client.cpp: the connection's health, and reconnecting with backoff.
pub mod Backoff
pub mod Attempts
pub mod Health
use ferriot.Prelude.{
  ℕ, zero, suc, ◌+◌, ◌-◌, ◌%◌, ◌^◌, Bool, true, false, not, ◌&&◌, ◌||◌, Option, none, some, List,
  [], ◌∷◌, ltb, leb, ◌==◌, if◌then◌else◌,
}
use ferriot.Prelude.Table.{Table, find, put, erase}
use ferriot.Result.{Result, ok, err, ErrorCode, connection_failed}
use ferriot.Client.State.{
  ClientState, registered, error, Registration, ReconnectionConfig, Client, Environment,
  error_event, connection_lost, reconnecting_event, reconnected, seconds, notify, set_state, ◌is◌,
}
use ferriot.Client.Registration.{register_with_server}

-- The loop of calculate_backoff, by the rounds that are left.
unfoldable pub backoff_loop : ReconnectionConfig → ℕ → ℕ → ℕ
backoff_loop config zero backoff = backoff
backoff_loop config (suc rounds) backoff =
    let next_backoff = config.scaled backoff in
    let rest = backoff_loop config rounds next_backoff in
    if ltb config.max_backoff next_backoff then config.max_backoff else rest

unfoldable pub calculate_backoff : ReconnectionConfig → ℕ → ℕ
calculate_backoff config attempts = backoff_loop config (attempts - 1) config.initial_backoff

-- The first registration that is past its end, and the first connection that is closed.
unfoldable pub first_expired : ℕ → Table Registration → Option ℕ
first_expired now [] = none
first_expired now ((ssid, reg) ∷ rest) =
    if ltb reg.expires_at now then some ssid else first_expired now rest

module _ {W K : Type 0} (env : Environment W K) where
  unfoldable pub first_closed : W → Table K → Option ℕ
  first_closed w [] = none
  first_closed w ((ssid, conn) ∷ rest) =
      if env.is_connected conn w then first_closed w rest else some ssid

  unfoldable pub handle_connection_lost : ℕ → Client W K → Client W K
  handle_connection_lost ssid c =
      if c.reconnecting
      then c
      else (let c₁ = set_state error (record c { reconnecting = true }) in
          let (w, now) = env.steady_now c₁.world in
          let c₂ : Client W K = record c₁ {
            reconnect_attempts = 0;
            reconnect_ssid = ssid;
            next_reconnect_time = now;
            registrations = erase ssid c₁.registrations;
            world = w;
          } in
          let c₃ = notify c₂.callbacks.on_connection_lost (connection_lost ssid) c₂ in
          notify c₃.callbacks.on_error (error_event connection_failed "Connection to server lost")
            c₃)

  unfoldable pub lost_connection : Option ℕ → Client W K → Client W K
  lost_connection none c = c
  lost_connection (some ssid) c = handle_connection_lost ssid c

  unfoldable pub lost_registration : Option ℕ → Client W K → Client W K
  unfolding lost_connection
  lost_registration none c = lost_connection (first_closed c.world c.connections) c
  lost_registration (some ssid) c = handle_connection_lost ssid c

  unfoldable pub check_connection_health : Client W K → Client W K
  unfolding lost_registration
  check_connection_health c =
      if not (c.state is registered) || c.reconnecting
      then c
      else (let (w, now) = env.system_now c.world in
          lost_registration (first_expired now c.registrations) (record c { world = w }))

  -- `// Close existing connection`
  unfoldable pub closed : ℕ → Option K → Client W K → Client W K
  closed ssid none c = c
  closed ssid (some conn) c = record c {
    connections = erase ssid c.connections;
    world = env.disconnect conn c.world;
  }

  -- What follows the attempt to register again.
  unfoldable pub attempted : ℕ → Client W K × Result (Unit {0}) → Client W K
  attempted ssid (c, ok _) =
      let c' : Client W K = record c { reconnecting = false; reconnect_attempts = 0 } in
      notify c'.callbacks.on_reconnected (reconnected ssid) c'
  attempted ssid (c, err e) =
      let (w, now) = env.steady_now c.world in
      record c {
        next_reconnect_time =
            now + seconds (calculate_backoff c.reconnect_config c.reconnect_attempts);
        world = w;
      }

  unfoldable pub attempt : ℕ → Client W K → Client W K
  unfolding closed attempted
  attempt ssid c₀ =
      let c₁ : Client W K = record c₀ {
        reconnect_attempts = (c₀.reconnect_attempts + 1) % 2 ^ 16;
      } in
      let c₂ =
        notify c₁.callbacks.on_reconnecting (reconnecting_event ssid c₁.reconnect_attempts) c₁ in
      let c₃ = closed ssid (find ssid c₂.connections) c₂ in
      attempted ssid (register_with_server env ssid c₃)

  abbrev pub exhausted : Client W K → Bool
  exhausted c =
      ltb 0 c.reconnect_config.max_retries
      && leb c.reconnect_config.max_retries c.reconnect_attempts

  unfoldable pub try_reconnect : ℕ → Client W K → Client W K
  unfolding attempt
  try_reconnect ssid c =
      let stopped : Client W K = record c { reconnecting = false } in
      if not c.reconnect_config.enabled
      then stopped
      else if exhausted c
      then notify c.callbacks.on_error
          (error_event connection_failed "Max reconnection attempts reached") stopped
      else attempt ssid c
