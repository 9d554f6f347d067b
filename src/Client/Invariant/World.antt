-- ===== src/Client/Invariant/World.antt =====
-- src/client.cpp: what holds of the world outside of a client holds after its methods, where
-- everything that the client calls there keeps it.
use ferriot.Prelude.{
  [], ℕ, zero, suc, ◌≡◌, Bool, true, Option, none, some, List, ◌∷◌, arith, if_elim,
}
use ferriot.Prelude.Table.{Table}
use ferriot.Result.{Result}
use ferriot.Client.State.{Client, Environment, set_state}
use ferriot.Client.Registration.World.{
  AllKeep, IsKept, register_with_server-world, update_registration-world, deregister-world,
}
use ferriot.Client.Reconnect.{
  handle_connection_lost, lost_connection, lost_registration, closed, attempted, attempt,
  check_connection_health, try_reconnect,
}
use ferriot.Client.Loop.{
  update_if_due, update_each, check_registration_updates, reconnect_if_due, poll, poll_each,
  handle_each, registration_update_callback, run_event_loop, start, deregister_each,
  disconnect_each, stop_all, stop,
}

module _ {W K : Type 0} (env : Environment W K) (p : W → Bool) (kept : IsKept env p) where
  abbrev Holds : Client W K → Type 0
  Holds c = p c.world ≡ true

  handle_connection_lost-world :
      (ssid : ℕ) (c : Client W K) → Holds c → Holds (handle_connection_lost env ssid c)
  unfolding handle_connection_lost set_state
  handle_connection_lost-world ssid c h = grind (arith, kept.steady_clock)

  check_connection_health-world : (c : Client W K) → Holds c → Holds (check_connection_health env c)
  unfolding check_connection_health lost_registration lost_connection
  check_connection_health-world c h = grind (arith, kept.system_clock, handle_connection_lost-world)

  attempted-world :
      (ssid : ℕ) (c : Client W K) (r : Result (Unit {0}))
      → Holds c
      → Holds (attempted env ssid (c, r))
  unfolding attempted
  attempted-world ssid c r h = grind (arith, kept.steady_clock)

  closed-world :
      (ssid : ℕ) (conn : Option K) (c : Client W K) → Holds c → Holds (closed env ssid conn c)
  unfolding closed
  closed-world ssid conn c h = grind (arith, kept.disconnects)

  try_reconnect-world : (ssid : ℕ) (c : Client W K) → Holds c → Holds (try_reconnect env ssid c)
  unfolding try_reconnect attempt
  try_reconnect-world ssid c h =
      grind (arith, closed-world, attempted-world, register_with_server-world env p kept)

  reconnect_if_due-world : (c : Client W K) → Holds c → Holds (reconnect_if_due env c)
  unfolding reconnect_if_due
  reconnect_if_due-world c h = grind (arith, kept.steady_clock, try_reconnect-world)

  update_each-world :
      (now : ℕ) (ssids : List ℕ) (c : Client W K) → Holds c → Holds (update_each env now ssids c)
  unfolding update_each update_if_due
  update_each-world now [] c h = h
  update_each-world now (ssid ∷ ssids) c h =
      update_each-world now ssids _ (grind (arith, update_registration-world env p kept))

  registration_update_callback-world :
      (trigger : Option ℕ) (c : Client W K)
      → Holds c
      → Holds (registration_update_callback env trigger c)
  unfolding registration_update_callback
  registration_update_callback-world none c h = h
  registration_update_callback-world (some ssid) c h = update_registration-world env p kept ssid c h

  handle_each-world :
      (handlers : List (W → W × Option ℕ)) (c : Client W K)
      → AllKeep p handlers
      → Holds c
      → Holds (handle_each env handlers c)
  unfolding handle_each
  handle_each-world [] c keeps h = h
  handle_each-world (handler ∷ handlers) c (keep, keeps) h =
      handle_each-world handlers _ keeps (registration_update_callback-world _ _ (keep c.world h))

  poll_each-world :
      (timeout : ℕ) (connections : Table K) (c : Client W K)
      → Holds c
      → Holds (poll_each env timeout connections c)
  unfolding poll_each
  poll_each-world timeout [] c h = h
  poll_each-world timeout ((_, conn) ∷ rest) c h =
      poll_each-world timeout rest _ (handle_each-world _ c (kept.polls conn timeout c.world h) h)

  pub poll-world : (c : Client W K) → Holds c → Holds (poll env c)
  unfolding poll check_registration_updates
  poll-world c h =
      let polled = poll_each-world c.config.poll_interval c.connections c h in
      reconnect_if_due-world _
        (check_connection_health-world _ (update_each-world _ _ _ (kept.system_clock _ polled)))

  pub run_event_loop-world :
      (rounds : ℕ) (c : Client W K) → Holds c → Holds (run_event_loop env rounds c)
  unfolding run_event_loop
  run_event_loop-world zero c h = h
  run_event_loop-world (suc rounds) c h =
      if_elim Holds c.running (run_event_loop-world rounds _ (poll-world c h)) h

  deregister_each-world :
      (ssids : List ℕ) (c : Client W K) → Holds c → Holds (deregister_each env ssids c)
  unfolding deregister_each
  deregister_each-world [] c h = h
  deregister_each-world (ssid ∷ ssids) c h =
      deregister_each-world ssids _ (deregister-world env p kept ssid c h)

  disconnect_each-world :
      (connections : Table K) (w : W) → p w ≡ true → p (disconnect_each env connections w) ≡ true
  unfolding disconnect_each
  disconnect_each-world [] w h = h
  disconnect_each-world ((_, conn) ∷ rest) w h =
      disconnect_each-world rest _ (kept.disconnects conn w h)

  pub stop-world :
      (on_event_thread : Bool) (c : Client W K) → Holds c → Holds (stop env on_event_thread c)
  unfolding stop stop_all set_state
  stop-world on_event_thread c h = grind (arith, disconnect_each-world, deregister_each-world)

  pub start-world : (c : Client W K) → Holds c → Holds (start env c).0
  unfolding start set_state
  start-world c h = ground arith
