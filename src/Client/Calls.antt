-- ===== src/Client/Calls.antt =====
-- src/client.cpp: a client's methods, one after the other.
use ferriot.Prelude.{◌≡◌, true, Bool, ℕ, List, [], ◌∷◌, refl}
use ferriot.Object.{Object}
use ferriot.Client.State.{ReconnectionConfig, ClientCallbacks, Client, Environment}
use ferriot.Client.Registration.{register_with_server, update_registration, deregister, add_object}
use ferriot.Client.Registration.World.{
  IsKept, register_with_server-world, update_registration-world, deregister-world,
}
use ferriot.Client.Loop.{poll, run_event_loop, start, stop}
use ferriot.Client.Invariant.{
  IsValid, IsValid-same, register_with_server-IsValid, update_registration-IsValid,
  deregister-IsValid,
}
use ferriot.Client.Invariant.Loop.{
  poll-IsValid, run_event_loop-IsValid, start-IsValid, stop-IsValid,
}
use ferriot.Client.Invariant.World.{poll-world, run_event_loop-world, start-world, stop-world}

-- `stop_client true` is stop on the event loop's own thread; `run_loop n` is the event loop that ends after n rounds at most.
pub data Call (W : Type 0) : Type 0 where
  start_client poll_once : Call W
  stop_client : Bool → Call W
  add : ℕ → Object W → Call W
  register update leave : ℕ → Call W
  run_loop : ℕ → Call W
  set_callbacks : ClientCallbacks → Call W
  set_reconnection_config : ReconnectionConfig → Call W

module _ {W K : Type 0} (env : Environment W K) where
  unfoldable pub call : Call W → Client W K → Client W K
  call start_client c = (start env c).0
  call (stop_client on_event_thread) c = stop env on_event_thread c
  call poll_once c = poll env c
  call (add oid object) c = add_object oid object c
  call (register ssid) c = (register_with_server env ssid c).0
  call (update ssid) c = (update_registration env ssid c).0
  call (leave ssid) c = (deregister env ssid c).0
  call (run_loop rounds) c = run_event_loop env rounds c
  call (set_callbacks callbacks) c = record c { callbacks = callbacks }
  call (set_reconnection_config config) c = record c { reconnect_config = config }

  unfoldable pub run : List (Call W) → Client W K → Client W K
  run [] c = c
  run (x ∷ xs) c = run xs (call x c)

  call-IsValid : (x : Call W) (c : Client W K) → IsValid c → IsValid (call x c)
  unfolding call add_object
  call-IsValid start_client c v = start-IsValid env c v
  call-IsValid (stop_client on_event_thread) c v = stop-IsValid env on_event_thread c v
  call-IsValid poll_once c v = poll-IsValid env c v
  call-IsValid (add oid object) c v = IsValid-same c _ refl refl v
  call-IsValid (register ssid) c v = register_with_server-IsValid env c v ssid
  call-IsValid (update ssid) c v = update_registration-IsValid env c v ssid
  call-IsValid (leave ssid) c v = deregister-IsValid env c v ssid
  call-IsValid (run_loop rounds) c v = run_event_loop-IsValid env rounds c v
  call-IsValid (set_callbacks callbacks) c v = IsValid-same c _ refl refl v
  call-IsValid (set_reconnection_config config) c v = IsValid-same c _ refl refl v

  -- Whatever is called, every registration stays one for the server that it is found by, with a
  -- location; a client in Registered has a registration; and no call ends in Registering, Updating,
  -- Deregistering or a bootstrap state.
  pub run-IsValid : (xs : List (Call W)) (c : Client W K) → IsValid c → IsValid (run xs c)
  unfolding run
  run-IsValid [] c v = v
  run-IsValid (x ∷ xs) c v = run-IsValid xs (call x c) (call-IsValid x c v)

  module _ (p : W → Bool) (kept : IsKept env p) where
    call-world : (x : Call W) (c : Client W K) → p c.world ≡ true → p (call x c).world ≡ true
    unfolding call add_object
    call-world start_client c h = start-world env p kept c h
    call-world (stop_client on_event_thread) c h = stop-world env p kept on_event_thread c h
    call-world poll_once c h = poll-world env p kept c h
    call-world (add oid object) c h = h
    call-world (register ssid) c h = register_with_server-world env p kept ssid c h
    call-world (update ssid) c h = update_registration-world env p kept ssid c h
    call-world (leave ssid) c h = deregister-world env p kept ssid c h
    call-world (run_loop rounds) c h = run_event_loop-world env p kept rounds c h
    call-world (set_callbacks callbacks) c h = h
    call-world (set_reconnection_config config) c h = h

    -- What holds of the world, and is kept by everything that the client calls there, holds after any
    -- sequence of calls.
    pub run-world :
        (xs : List (Call W)) (c : Client W K) → p c.world ≡ true → p (run xs c).world ≡ true
    unfolding run
    run-world [] c h = h
    run-world (x ∷ xs) c h = run-world xs (call x c) (call-world x c h)
