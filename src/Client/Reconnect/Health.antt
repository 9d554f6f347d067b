-- ===== src/Client/Reconnect/Health.antt =====
-- src/client.cpp: when the client takes its connection for lost.
use ferriot.Prelude.{
  ℕ, ◌≡◌, refl, Bool, true, false, not, ◌&&◌, ◌||◌, none, some, [], ◌∷◌, arith, ltb, ◌==◌,
}
use ferriot.Prelude.Table.{Table, erase}
use ferriot.Client.State.{registered, error, Registration, Client, Environment, set_state}
use ferriot.Client.Reconnect.{
  first_expired, first_closed, handle_connection_lost, lost_connection, lost_registration,
  check_connection_health,
}

-- An entry passes the test.
unfoldable pub any {ℓ} : {V : Type ℓ} → (ℕ → V → Bool) → Table V → Bool
any p [] = false
any p ((k, v) ∷ m) = p k v || any p m

first_expired-none :
    (now : ℕ) (m : Table Registration)
    → first_expired now m ≡ none
    → any (λ k reg. ltb reg.expires_at now) m ≡ false
unfolding first_expired any
first_expired-none now [] h = refl
first_expired-none now ((k, reg) ∷ m) h = ground (arith, first_expired-none now m)

first_expired-some :
    (now ssid : ℕ) (m : Table Registration)
    → first_expired now m ≡ some ssid
    → any (λ k reg. k == ssid && ltb reg.expires_at now) m ≡ true
unfolding first_expired any
first_expired-some now ssid [] h = cc
first_expired-some now ssid ((k, reg) ∷ m) h = ground (arith, first_expired-some now ssid m)

first_expired-any :
    (now : ℕ) (m : Table Registration)
    → any (λ k reg. ltb reg.expires_at now) m ≡ false
    → first_expired now m ≡ none
unfolding first_expired any
first_expired-any now [] h = refl
first_expired-any now ((k, reg) ∷ m) h = ground (arith, first_expired-any now m)

module _ {W K : Type 0} (env : Environment W K) where
  first_closed-none :
      (w : W) (m : Table K)
      → first_closed env w m ≡ none
      → any (λ k conn. not (env.is_connected conn w)) m ≡ false
  unfolding first_closed any
  first_closed-none w [] h = refl
  first_closed-none w ((k, conn) ∷ m) h = ground (arith, first_closed-none w m)

  first_closed-any :
      (w : W) (m : Table K)
      → any (λ k conn. not (env.is_connected conn w)) m ≡ false
      → first_closed env w m ≡ none
  unfolding first_closed any
  first_closed-any w [] h = refl
  first_closed-any w ((k, conn) ∷ m) h = ground (arith, first_closed-any w m)

  first_closed-some :
      (w : W) (ssid : ℕ) (m : Table K)
      → first_closed env w m ≡ some ssid
      → any (λ k conn. k == ssid && not (env.is_connected conn w)) m ≡ true
  unfolding first_closed any
  first_closed-some w ssid [] h = cc
  first_closed-some w ssid ((k, conn) ∷ m) h = ground (arith, first_closed-some w ssid m)

  -- At a time, in a world, a registration is past its end, or a connection is closed.
  abbrev pub is_lost : W × ℕ → Client W K → Bool
  is_lost (w, now) c =
      any (λ k reg. ltb reg.expires_at now) c.registrations
      || any (λ k conn. not (env.is_connected conn w)) c.connections

  abbrev pub is_lost_for : ℕ → W × ℕ → Client W K → Bool
  is_lost_for ssid (w, now) c =
      any (λ k reg. k == ssid && ltb reg.expires_at now) c.registrations
      || any (λ k conn. k == ssid && not (env.is_connected conn w)) c.connections

  -- In Registered, and not reconnecting: where no registration is past its end and no connection is
  -- closed, only the clock has been looked at.
  pub check_connection_health-healthy :
      (c : Client W K)
      → c.state ≡ registered
      → c.reconnecting ≡ false
      → is_lost (env.system_now c.world) c ≡ false
      → check_connection_health env c ≡ record c { world = (env.system_now c.world).0 }
  unfolding check_connection_health lost_registration lost_connection
  check_connection_health-healthy c in_state idle_yet h =
      let (w, now) = env.system_now c.world in
      grind (arith, first_expired-any now, first_closed-any w)

  -- In Registered, and not reconnecting: where a registration is past its end or a connection is
  -- closed, the client ends in Error and is reconnecting, with no attempt counted yet, to a server
  -- whose registration or connection it is, and whose registration it has dropped.
  pub check_connection_health-lost :
      (c : Client W K)
      → c.state ≡ registered
      → c.reconnecting ≡ false
      → is_lost (env.system_now c.world) c ≡ true
      → let c' = check_connection_health env c in
        (c'.state ≡ error)
        × (c'.reconnecting ≡ true)
        × (c'.reconnect_attempts ≡ 0)
        × (is_lost_for c'.reconnect_ssid (env.system_now c.world) c ≡ true)
        × (c'.registrations ≡ erase c'.reconnect_ssid c.registrations)
  unfolding check_connection_health lost_registration lost_connection handle_connection_lost
      set_state
  check_connection_health-lost c in_state idle_yet h =
      let (w, now) = env.system_now c.world in
      grind (
        arith,
        first_expired-some now,
        first_closed-some w,
        first_expired-none now,
        first_closed-none w,
      )
