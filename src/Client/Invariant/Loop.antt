-- ===== src/Client/Invariant/Loop.antt =====
-- src/client.cpp: reconnecting, the event loop, start and stop keep what holds of a client.
use ferriot.Prelude.{
  [], ℕ, zero, suc, ◌+◌, ◌%◌, ◌^◌, refl, Bool, true, false, not, ◌||◌, Option, none, some, List,
  ◌∷◌, leb, arith, inl, inr, Option-cases, if_elim,
}
use ferriot.Prelude.Table.{Table, find}
use ferriot.Result.{Result, ok, err, connection_failed}
use ferriot.Objects.Server.{ServerInstance}
use ferriot.Client.State.{
  idle, registered, ◌is◌, Registration, Client, Environment, set_state, error_event,
  reconnecting_event, reconnected,
}
use ferriot.Client.Reconnect.{
  lost_connection, lost_registration, closed, attempted, attempt, exhausted, first_closed,
  check_connection_health, try_reconnect,
}
use ferriot.Client.Loop.{
  is_due, update_if_due, update_each, check_registration_updates, reconnect_if_due, poll, poll_each,
  handle_each, registration_update_callback, run_event_loop, start, stop_all, stop,
}
use ferriot.Client.Invariant.{
  IsValid, IsValid-same, register_with_server-IsValid, update_registration-IsValid,
  handle_connection_lost-IsValid, set_state-IsValid, notify-IsValid,
}

module _ {W K : Type 0} (env : Environment W K) (c : Client W K) (v : IsValid c) where
  lost_registration-IsValid : (expired : Option ℕ) → IsValid (lost_registration env expired c)
  unfolding lost_registration lost_connection
  lost_registration-IsValid none = elim (Option-cases (first_closed env c.world c.connections)) [
    | inl e ↦ rw e v
    | inr (ssid, e) ↦ rw e (handle_connection_lost-IsValid env c v ssid)
  ]
  lost_registration-IsValid (some ssid) = handle_connection_lost-IsValid env c v ssid

  update_if_due-IsValid :
      (reg : Option Registration) (srv_inst : Option ServerInstance) (ssid now : ℕ)
      → IsValid (update_if_due env reg srv_inst ssid now c)
  unfolding update_if_due
  update_if_due-IsValid none srv_inst ssid now = v
  update_if_due-IsValid (some reg) none ssid now = v
  update_if_due-IsValid (some reg) (some srv_inst) ssid now =
      if_elim IsValid (is_due env c now reg srv_inst) (update_registration-IsValid env c v ssid) v

  closed-IsValid : (ssid : ℕ) (conn : Option K) → IsValid (closed env ssid conn c)
  unfolding closed
  closed-IsValid ssid none = v
  closed-IsValid ssid (some conn) = IsValid-same c _ refl refl v

  attempted-IsValid : (ssid : ℕ) (r : Result (Unit {0})) → IsValid (attempted env ssid (c, r))
  unfolding attempted
  attempted-IsValid ssid (ok _) =
      notify-IsValid c.callbacks.on_reconnected (reconnected ssid)
        (record c { reconnecting = false; reconnect_attempts = 0 }) (IsValid-same c _ refl refl v)
  attempted-IsValid ssid (err e) = IsValid-same c _ refl refl v

module _ {W K : Type 0} (env : Environment W K) where
  check_connection_health-IsValid :
      (c : Client W K) → IsValid c → IsValid (check_connection_health env c)
  unfolding check_connection_health
  check_connection_health-IsValid c v =
      if_elim IsValid (not (c.state is registered) || c.reconnecting) v
        (lost_registration-IsValid env _ (IsValid-same c _ refl refl v) _)

  attempt-IsValid : (ssid : ℕ) (c : Client W K) → IsValid c → IsValid (attempt env ssid c)
  unfolding attempt
  attempt-IsValid ssid c v =
      let c₁ : Client W K = record c { reconnect_attempts = (c.reconnect_attempts + 1) % 2 ^ 16 } in
      let noticed =
        notify-IsValid c₁.callbacks.on_reconnecting (reconnecting_event ssid c₁.reconnect_attempts)
          c₁ (IsValid-same c c₁ refl refl v) in
      attempted-IsValid env _
        (register_with_server-IsValid env _ (closed-IsValid env _ noticed ssid _) ssid) ssid _

  try_reconnect-IsValid :
      (ssid : ℕ) (c : Client W K) → IsValid c → IsValid (try_reconnect env ssid c)
  unfolding try_reconnect
  try_reconnect-IsValid ssid c v =
      let c₁ : Client W K = record c { reconnecting = false } in
      let stopped = IsValid-same c c₁ refl refl v in
      if_elim IsValid (not c.reconnect_config.enabled) stopped (
        if_elim IsValid (exhausted env c)
          (notify-IsValid c.callbacks.on_error
            (error_event connection_failed "Max reconnection attempts reached") c₁ stopped)
          (attempt-IsValid ssid c v))

  update_each-IsValid :
      (now : ℕ) (ssids : List ℕ) (c : Client W K)
      → IsValid c
      → IsValid (update_each env now ssids c)
  unfolding update_each
  update_each-IsValid now [] c v = v
  update_each-IsValid now (ssid ∷ ssids) c v =
      update_each-IsValid now ssids _ (update_if_due-IsValid env c v _ _ ssid now)

  reconnect_if_due-IsValid : (c : Client W K) → IsValid c → IsValid (reconnect_if_due env c)
  unfolding reconnect_if_due
  reconnect_if_due-IsValid c v =
      let later : IsValid (record c { world = (env.steady_now c.world).0 }) =
        IsValid-same c _ refl refl v in
      if_elim IsValid c.reconnecting
        (if_elim IsValid (leb c.next_reconnect_time (env.steady_now c.world).1)
          (try_reconnect-IsValid _ _ later) later)
        v

  registration_update_callback-IsValid :
      (trigger : Option ℕ) (c : Client W K)
      → IsValid c
      → IsValid (registration_update_callback env trigger c)
  unfolding registration_update_callback
  registration_update_callback-IsValid none c v = v
  registration_update_callback-IsValid (some ssid) c v = update_registration-IsValid env c v ssid

  handle_each-IsValid :
      (handlers : List (W → W × Option ℕ)) (c : Client W K)
      → IsValid c
      → IsValid (handle_each env handlers c)
  unfolding handle_each
  handle_each-IsValid [] c v = v
  handle_each-IsValid (handler ∷ handlers) c v =
      handle_each-IsValid handlers _
        (registration_update_callback-IsValid _ _ (IsValid-same c _ refl refl v))

  poll_each-IsValid :
      (timeout : ℕ) (connections : Table K) (c : Client W K)
      → IsValid c
      → IsValid (poll_each env timeout connections c)
  unfolding poll_each
  poll_each-IsValid timeout [] c v = v
  poll_each-IsValid timeout ((_, conn) ∷ rest) c v =
      poll_each-IsValid timeout rest _ (handle_each-IsValid _ c v)

  pub poll-IsValid : (c : Client W K) → IsValid c → IsValid (poll env c)
  unfolding poll check_registration_updates
  poll-IsValid c v = reconnect_if_due-IsValid _ (
      check_connection_health-IsValid _ (
        update_each-IsValid _ _ _ (
          let polled = poll_each env c.config.poll_interval c.connections c in
          IsValid-same polled _ refl refl (poll_each-IsValid _ _ c v))))

  pub run_event_loop-IsValid :
      (rounds : ℕ) (c : Client W K) → IsValid c → IsValid (run_event_loop env rounds c)
  unfolding run_event_loop
  run_event_loop-IsValid zero c v = v
  run_event_loop-IsValid (suc rounds) c v =
      if_elim IsValid c.running (run_event_loop-IsValid rounds _ (poll-IsValid c v)) v

  pub start-IsValid : (c : Client W K) → IsValid c → IsValid (start env c).0
  unfolding start
  start-IsValid c v =
      if_elim {A = Client W K × Result (Unit {0})} (λ p. IsValid p.0) c.running v
        (set_state-IsValid idle (record c { running = true }) refl refl
          (IsValid-same c _ refl refl v))

  stop_all-IsValid : (c : Client W K) → IsValid (stop_all env c)
  unfolding stop_all set_state find
  stop_all-IsValid c = record {
    located = λ j. ground arith;
    registered_some = ground arith;
    settled = ground arith;
  }

  pub stop-IsValid :
      (on_event_thread : Bool) (c : Client W K) → IsValid c → IsValid (stop env on_event_thread c)
  unfolding stop
  stop-IsValid on_event_thread c v =
      let c₀ : Client W K = record c { running = false } in
      if_elim IsValid on_event_thread (IsValid-same c c₀ refl refl v) (stop_all-IsValid c₀)
