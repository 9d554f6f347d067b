-- ===== src/Client/Registration/World.antt =====
-- src/client.cpp: what holds of the world outside of a client, where everything that the client calls
-- there keeps it.
use ferriot.Prelude.{[], ℕ, ◌≡◌, Bool, true, Option, List, ◌∷◌, arith}
use ferriot.Result.{Result}
use ferriot.Objects.Security.Connection.{ConnectionConfig}
use ferriot.Objects.Server.{ServerInstance}
use ferriot.Transport.{CoapRequest}
use ferriot.Client.State.{Client, Environment, set_state}
use ferriot.Client.Registration.{
  connection, or_create, created, register_on, registered_with, register_with_server, extend,
  updated, update_registration, say_goodbye, or_deregister, deregister,
}

-- Each handler of a list keeps what holds.
abbrev pub AllKeep : {W : Type 0} → (W → Bool) → List (W → W × Option ℕ) → Type 0
AllKeep p [] = Unit
AllKeep {W} p (handler ∷ handlers) =
    ((w : W) → p w ≡ true → p (handler w).0 ≡ true) × AllKeep p handlers

pub record IsKept {W K : Type 0} (env : Environment W K) (p : W → Bool) : Type 0 where
  pub connects :
      (config : ConnectionConfig) (w : W) → p w ≡ true → p (env.connect config w).0 ≡ true
  pub disconnects : (conn : K) (w : W) → p w ≡ true → p (env.disconnect conn w) ≡ true
  pub sends :
      (conn : K) (message : CoapRequest) (w : W) → p w ≡ true → p (env.send conn message w).0 ≡ true
  pub polls :
      (conn : K) (time : ℕ) (w : W) → p w ≡ true → AllKeep p (env.poll_connection conn time w)
  pub system_clock : (w : W) → p w ≡ true → p (env.system_now w).0 ≡ true
  pub steady_clock : (w : W) → p w ≡ true → p (env.steady_now w).0 ≡ true

module _ {W K : Type 0} (env : Environment W K) (p : W → Bool) (kept : IsKept env p) where
  connection-world :
      (ssid : ℕ) (c : Client W K) → p c.world ≡ true → p (connection env ssid c).0.world ≡ true
  unfolding connection or_create created
  connection-world ssid c h = grind (arith, kept.connects)

  registered_with-world :
      (ssid : ℕ) (srv_inst : ServerInstance) (r : Result (List ℕ)) (c : Client W K)
      → p c.world ≡ true
      → p (registered_with env ssid srv_inst r c).0.world ≡ true
  unfolding registered_with set_state
  registered_with-world ssid srv_inst r c h = grind (arith, kept.system_clock)

  register_on-world :
      (ssid : ℕ) (srv_inst : ServerInstance) (conn : K) (c : Client W K)
      → p c.world ≡ true
      → p (register_on env ssid srv_inst conn c).0.world ≡ true
  unfolding register_on set_state
  register_on-world ssid srv_inst conn c h = grind (arith, kept.sends, registered_with-world)

  pub register_with_server-world :
      (ssid : ℕ) (c : Client W K)
      → p c.world ≡ true
      → p (register_with_server env ssid c).0.world ≡ true
  unfolding register_with_server
  register_with_server-world ssid c h = grind (arith, connection-world, register_on-world)

  pub update_registration-world :
      (ssid : ℕ) (c : Client W K)
      → p c.world ≡ true
      → p (update_registration env ssid c).0.world ≡ true
  unfolding update_registration updated extend set_state
  update_registration-world ssid c h = grind (arith, kept.sends, kept.system_clock)

  pub deregister-world :
      (ssid : ℕ) (c : Client W K) → p c.world ≡ true → p (deregister env ssid c).0.world ≡ true
  unfolding deregister or_deregister say_goodbye set_state
  deregister-world ssid c h = grind (arith, kept.sends)
