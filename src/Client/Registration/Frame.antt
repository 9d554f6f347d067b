-- ===== src/Client/Registration/Frame.antt =====
-- src/client.cpp: what registering and updating leave of the attempts to reconnect.
use ferriot.Prelude.{ℕ, ◌≡◌, arith}
use ferriot.Client.State.{Client, Environment, set_state}
use ferriot.Client.Registration.{
  connection, or_create, created, register_on, registered_with, register_with_server, updated,
  extend, update_registration,
}

-- The members that the attempts are counted by.
abbrev pub HasSameAttempts : {W K : Type 0} → Client W K → Client W K → Type 0
HasSameAttempts c d =
    (d.reconnect_config ≡ c.reconnect_config)
    × (d.reconnect_attempts ≡ c.reconnect_attempts)
    × (d.reconnecting ≡ c.reconnecting)

module _ {W K : Type 0} (env : Environment W K) where
  pub register_with_server-attempts :
      (c : Client W K) (ssid : ℕ) → HasSameAttempts c (register_with_server env ssid c).0
  unfolding register_with_server connection or_create created register_on registered_with set_state
  register_with_server-attempts c ssid = ground arith

  pub update_registration-attempts :
      (c : Client W K) (ssid : ℕ) → HasSameAttempts c (update_registration env ssid c).0
  unfolding update_registration updated extend set_state
  update_registration-attempts c ssid = ground arith
