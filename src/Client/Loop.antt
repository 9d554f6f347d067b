-- ===== src/Client/Loop.antt =====
-- src/client.cpp: the event loop's poll, start and stop.
--
-- The loops over registrations_ and connections_ run over the entries that are there when they
-- begin; what they call changes entries and adds none.
pub mod Stop
use ferriot.Prelude.{
  ℕ, zero, suc, ◌+◌, Bool, true, false, not, ◌&&◌, Option, none, some, List, [], ◌∷◌, leb,
  if◌then◌else◌,
}
use ferriot.Prelude.Table.{Table, find, keys}
use ferriot.Result.{Result, ok, err, fail, invalid_state}
use ferriot.Objects.Server
use ferriot.Objects.Server.{ServerInstance}
use ferriot.Client.State.{ClientState, idle, Registration, Client, Environment, seconds, set_state}
use ferriot.Client.Registration.{server_of, update_registration, deregister}
use ferriot.Client.Reconnect.{check_connection_health, try_reconnect}

module _ {W K : Type 0} (env : Environment W K) where
  -- `time_until_expiry <= lifetime - threshold`, with the subtractions on the other sides.
  abbrev pub is_due : Client W K → ℕ → Registration → ServerInstance → Bool
  is_due c now reg srv_inst =
      leb (reg.expires_at + seconds (c.config.threshold srv_inst.lifetime))
        (seconds srv_inst.lifetime + now)

  unfoldable pub update_if_due :
      Option Registration → Option ServerInstance → ℕ → ℕ → Client W K → Client W K
  update_if_due none _ ssid now c = c
  update_if_due (some reg) none ssid now c = c
  update_if_due (some reg) (some srv_inst) ssid now c =
      if is_due c now reg srv_inst then (update_registration env ssid c).0 else c

  -- The loop over the registrations that are left, by their keys.
  unfoldable pub update_each : ℕ → List ℕ → Client W K → Client W K
  unfolding update_if_due
  update_each now [] c = c
  update_each now (ssid ∷ ssids) c = update_each now ssids (
      update_if_due (find ssid c.registrations)
        (Server.find_by_short_server_id (server_of env c) ssid) ssid now c)

  unfoldable pub check_registration_updates : Client W K → Client W K
  check_registration_updates c =
      let (w, now) = env.system_now c.world in
      update_each now (keys c.registrations) (record c { world = w })

  -- The registration update callback, which ignores the result of update_registration.
  unfoldable pub registration_update_callback : Option ℕ → Client W K → Client W K
  registration_update_callback none c = c
  registration_update_callback (some ssid) c = (update_registration env ssid c).0

  -- The requests of a poll.
  unfoldable pub handle_each : List (W → W × Option ℕ) → Client W K → Client W K
  handle_each [] c = c
  handle_each (handler ∷ handlers) c =
      let (w, trigger) = handler c.world in
      handle_each handlers (registration_update_callback trigger (record c { world = w }))

  unfoldable pub poll_each : ℕ → Table K → Client W K → Client W K
  poll_each timeout [] c = c
  poll_each timeout ((_, conn) ∷ rest) c =
      poll_each timeout rest (handle_each (env.poll_connection conn timeout c.world) c)

  -- `reconnecting_.load() && now >= next_reconnect_time_`, whose second test reads the clock.
  unfoldable pub reconnect_if_due : Client W K → Client W K
  reconnect_if_due c =
      if c.reconnecting
      then (let (w, now) = env.steady_now c.world in
          let c' : Client W K = record c { world = w } in
          if leb c'.next_reconnect_time now then try_reconnect env c'.reconnect_ssid c' else c')
      else c

  unfoldable pub poll : Client W K → Client W K
  poll c =
      let polled = poll_each c.config.poll_interval c.connections c in
      reconnect_if_due (check_connection_health env (check_registration_updates polled))

  -- run_event_loop, for a number of rounds at most.
  unfoldable pub run_event_loop : ℕ → Client W K → Client W K
  run_event_loop zero c = c
  run_event_loop (suc rounds) c =
      let next = run_event_loop rounds (poll c) in if c.running then next else c

  unfoldable pub start : Client W K → Client W K × Result (Unit {0})
  start c =
      if c.running
      then (c, fail invalid_state "Client already running")
      else (set_state idle (record c { running = true }), ok tt)

  unfoldable pub deregister_each : List ℕ → Client W K → Client W K
  deregister_each [] c = c
  deregister_each (ssid ∷ ssids) c = deregister_each ssids (deregister env ssid c).0

  unfoldable pub disconnect_each : Table K → W → W
  disconnect_each [] w = w
  disconnect_each ((_, conn) ∷ rest) w = disconnect_each rest (env.disconnect conn w)

  -- The end of stop, when the event loop's thread has ended.
  unfoldable pub stop_all : Client W K → Client W K
  stop_all c =
      let c₁ = deregister_each (keys c.registrations) c in
      let c₂ : Client W K = record c₁ {
        connections = [];
        registrations = [];
        world = disconnect_each c₁.connections c₁.world;
      } in
      set_state idle c₂

  -- stop, called on the event loop's own thread or on another.
  unfoldable pub stop : Bool → Client W K → Client W K
  stop on_event_thread c =
      let c₀ : Client W K = record c { running = false } in
      if on_event_thread then c₀ else stop_all c₀
