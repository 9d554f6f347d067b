-- ===== src/Client/Reconnect/Attempts.antt =====
-- src/client.cpp: how often the client tries to reconnect.
use ferriot.Prelude.{
  ℕ, zero, suc, ◌+◌, ◌%◌, ◌^◌, ◌<◌, ◌≤◌, ◌≡◌, refl, true, false, Option, none, some, List, [], ◌∷◌,
  arith, if_elim,
}
use ferriot.Prelude.Table.{Table}
use ferriot.Result.{Result, is_ok}
use ferriot.Objects.Server.{ServerInstance}
use ferriot.Client.State.{Registration, Client, Environment, set_state}
use ferriot.Client.Registration.{register_with_server}
use ferriot.Client.Registration.Frame.{
  HasSameAttempts, register_with_server-attempts, update_registration-attempts,
}
use ferriot.Client.Reconnect.{
  handle_connection_lost, lost_connection, lost_registration, closed, attempted, attempt,
  try_reconnect, check_connection_health,
}
use ferriot.Client.Loop.{
  update_if_due, update_each, reconnect_if_due, poll, run_event_loop, is_due,
  check_registration_updates, poll_each, handle_each, registration_update_callback,
}

module _ {W K : Type 0} (env : Environment W K) where
  closed-attempts :
      (c : Client W K) (ssid : ℕ) (conn : Option K) → HasSameAttempts c (closed env ssid conn c)
  unfolding closed
  closed-attempts c ssid none = (refl, refl, refl)
  closed-attempts c ssid (some conn) = (refl, refl, refl)

  -- An attempt counts itself, or succeeds.
  attempt-attempts :
      (ssid : ℕ) (c : Client W K)
      → ((attempt env ssid c).reconnect_config ≡ c.reconnect_config)
        × ((attempt env ssid c).reconnect_attempts ≤ (c.reconnect_attempts + 1) % 2 ^ 16)
  unfolding attempt attempted
  attempt-attempts ssid c = grind (arith, register_with_server-attempts env, closed-attempts)

  check_connection_health-attempts :
      (c : Client W K)
      → ((check_connection_health env c).reconnect_config ≡ c.reconnect_config)
        × ((check_connection_health env c).reconnect_attempts ≤ c.reconnect_attempts)
  unfolding check_connection_health lost_registration lost_connection handle_connection_lost
      set_state
  check_connection_health-attempts c = ground arith

  update_if_due-attempts :
      (c : Client W K) (reg : Option Registration) (srv_inst : Option ServerInstance) (ssid now : ℕ)
      → HasSameAttempts c (update_if_due env reg srv_inst ssid now c)
  unfolding update_if_due
  update_if_due-attempts c none srv_inst ssid now = (refl, refl, refl)
  update_if_due-attempts c (some reg) none ssid now = (refl, refl, refl)
  update_if_due-attempts c (some reg) (some srv_inst) ssid now =
      if_elim (HasSameAttempts c) (is_due env c now reg srv_inst)
        (update_registration-attempts env c ssid) (refl, refl, refl)

  update_each-attempts :
      (now : ℕ) (ssids : List ℕ) (c : Client W K) → HasSameAttempts c (update_each env now ssids c)
  unfolding update_each
  update_each-attempts now [] c = (refl, refl, refl)
  update_each-attempts now (ssid ∷ ssids) c =
      grind (arith, update_if_due-attempts, update_each-attempts now ssids)

  registration_update_callback-attempts :
      (trigger : Option ℕ) (c : Client W K)
      → HasSameAttempts c (registration_update_callback env trigger c)
  unfolding registration_update_callback
  registration_update_callback-attempts none c = (refl, refl, refl)
  registration_update_callback-attempts (some ssid) c = update_registration-attempts env c ssid

  handle_each-attempts :
      (handlers : List (W → W × Option ℕ)) (c : Client W K)
      → HasSameAttempts c (handle_each env handlers c)
  unfolding handle_each
  handle_each-attempts [] c = (refl, refl, refl)
  handle_each-attempts (handler ∷ handlers) c =
      grind (arith, registration_update_callback-attempts, handle_each-attempts handlers)

  poll_each-attempts :
      (timeout : ℕ) (connections : Table K) (c : Client W K)
      → HasSameAttempts c (poll_each env timeout connections c)
  unfolding poll_each
  poll_each-attempts timeout [] c = (refl, refl, refl)
  poll_each-attempts timeout ((_, conn) ∷ rest) c =
      grind (arith, handle_each-attempts, poll_each-attempts timeout rest)

module _ {W K : Type 0} (env : Environment W K) (max : ℕ) (some_max : 0 < max)
    (word : max < 2 ^ 16) where
  -- At most `max` attempts are counted, where that is the limit.
  abbrev pub IsBounded : Client W K → Type 0
  IsBounded c = (c.reconnect_config.max_retries ≡ max) × (c.reconnect_attempts ≤ max)

  try_reconnect-IsBounded :
      (ssid : ℕ) (c : Client W K) → IsBounded c → IsBounded (try_reconnect env ssid c)
  unfolding try_reconnect
  try_reconnect-IsBounded ssid c h = ground (arith, attempt-attempts env ssid c)

  poll-IsBounded : (c : Client W K) → IsBounded c → IsBounded (poll env c)
  unfolding poll check_registration_updates reconnect_if_due
  poll-IsBounded c h = grind (
    arith,
    try_reconnect-IsBounded,
    check_connection_health-attempts env,
    update_each-attempts env,
    poll_each-attempts env,
  )

  -- The attempts that are counted never exceed the limit in max_retries, where there is one that
  -- fits in 16 bits, however long the event loop runs.
  pub run_event_loop-IsBounded :
      (rounds : ℕ) (c : Client W K) → IsBounded c → IsBounded (run_event_loop env rounds c)
  unfolding run_event_loop
  run_event_loop-IsBounded zero c h = h
  run_event_loop-IsBounded (suc rounds) c h =
      if_elim IsBounded c.running (run_event_loop-IsBounded rounds _ (poll-IsBounded c h)) h

  -- As many attempts as given, one after the other.
  abbrev pub try_each : ℕ → ℕ → Client W K → Client W K
  try_each ssid zero c = c
  try_each ssid (suc n) c = try_each ssid n (try_reconnect env ssid c)

  attempted-fails :
      (ssid : ℕ) (d : Client W K) (r : Result (Unit {0}))
      → is_ok r ≡ false
      → HasSameAttempts d (attempted env ssid (d, r))
  unfolding attempted
  attempted-fails ssid d r h = ground arith

  attempt-fails :
      (ssid : ℕ) (c : Client W K)
      → ((d : Client W K) → is_ok (register_with_server env ssid d).1 ≡ false)
      → HasSameAttempts
          (record c { reconnect_attempts = (c.reconnect_attempts + 1) % 2 ^ 16 })
          (attempt env ssid c)
  unfolding attempt
  attempt-fails ssid c fails =
      grind (arith, fails, attempted-fails, register_with_server-attempts env, closed-attempts env)

  try_each-counts :
      (ssid left : ℕ) (c : Client W K)
      → ((d : Client W K) → is_ok (register_with_server env ssid d).1 ≡ false)
      → c.reconnect_config.enabled ≡ true
      → c.reconnect_config.max_retries ≡ max
      → c.reconnect_attempts + left ≤ max
      → HasSameAttempts
          (record c { reconnect_attempts = c.reconnect_attempts + left })
          (try_each ssid left c)
  unfolding try_reconnect
  try_each-counts ssid zero c fails enabled limit e = ground arith
  try_each-counts ssid (suc left) c fails enabled limit e =
      grind
        (arith, attempt-fails ssid c fails, try_each-counts ssid left (attempt env ssid c) fails)

  -- Where registering fails each time, the client makes the attempts that are left up to the limit,
  -- is reconnecting until then, and then stops reconnecting.
  pub try_each-gives_up :
      (ssid left : ℕ) (c : Client W K)
      → ((d : Client W K) → is_ok (register_with_server env ssid d).1 ≡ false)
      → c.reconnect_config.enabled ≡ true
      → c.reconnect_config.max_retries ≡ max
      → c.reconnect_attempts + left ≡ max
      → let d = try_each ssid left c in
        (d.reconnecting ≡ c.reconnecting)
        × (d.reconnect_attempts ≡ max)
        × ((try_reconnect env ssid d).reconnecting ≡ false)
        × ((try_reconnect env ssid d).reconnect_attempts ≡ max)
  unfolding try_reconnect
  try_each-gives_up ssid left c fails enabled limit e =
      ground (arith, try_each-counts ssid left c fails enabled limit)
