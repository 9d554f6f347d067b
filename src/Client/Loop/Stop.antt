-- ===== src/Client/Loop/Stop.antt =====
-- src/client.cpp: what stop leaves.
use ferriot.Prelude.{
  present, ℕ, ◌≡◌, refl, ◌∙◌, Bool, true, false, ◌&&◌, ◌||◌, List, [], ◌∷◌, arith, ◌==◌,
}
use ferriot.Prelude.Table.{Table, erase, find, keys}
use ferriot.Client.State.{idle, Client, Environment, set_state}
use ferriot.Client.Registration.{deregister}
use ferriot.Client.Registration.Outcomes.{
  deregister_lem, deregister-connections, deregister-reconnecting, deregister-running,
}
use ferriot.Client.Loop.{deregister_each, disconnect_each, stop_all, stop}

contains : ℕ → List ℕ → Bool
contains k [] = false
contains k (j ∷ js) = j == k || contains k js

-- Every key of the table is in the list.
covers : {V : Type 0} → List ℕ → Table V → Bool
covers ks [] = true
covers ks ((j, v) ∷ m) = contains j ks && covers ks m

covers-erase :
    {V : Type 0} (k : ℕ) (ks : List ℕ) (m : Table V)
    → covers (k ∷ ks) m ≡ true
    → covers ks (erase k m) ≡ true
unfolding covers contains erase
covers-erase k ks [] h = refl
covers-erase k ks ((j, v) ∷ m) h = ground (arith, covers-erase k ks m)

covers-cons :
    {V : Type 0} (k : ℕ) (ks : List ℕ) (m : Table V) → covers ks m ≡ true → covers (k ∷ ks) m ≡ true
unfolding covers contains
covers-cons k ks [] h = refl
covers-cons k ks ((j, v) ∷ m) h = ground (arith, covers-cons k ks m)

covers-keys : {V : Type 0} (m : Table V) → covers (keys m) m ≡ true
unfolding covers contains keys
covers-keys [] = refl
covers-keys ((j, v) ∷ m) = ground (arith, covers-keys m, covers-cons j (keys m) m)

covers-none : {V : Type 0} (m : Table V) → covers [] m ≡ true → m ≡ []
unfolding covers contains
covers-none [] h = refl
covers-none ((j, v) ∷ m) h = ground arith

erase-absent : {V : Type 0} (k : ℕ) (m : Table V) → present (find k m) ≡ false → erase k m ≡ m
unfolding find erase
erase-absent k [] h = refl
erase-absent k ((j, v) ∷ m) h = ground (arith, erase-absent k m)

module _ {W K : Type 0} (env : Environment W K) where
  deregister-erase :
      (ssid : ℕ) (c : Client W K)
      → (deregister env ssid c).0.registrations ≡ erase ssid c.registrations
  deregister-erase ssid c = ground (
    arith,
    deregister_lem env c ssid (find ssid c.registrations) refl,
    erase-absent ssid c.registrations,
  )

  deregister_each-covers :
      (ssids : List ℕ) (c : Client W K)
      → covers ssids c.registrations ≡ true
      → (deregister_each env ssids c).registrations ≡ []
  unfolding deregister_each
  deregister_each-covers [] c h = covers-none c.registrations h
  deregister_each-covers (ssid ∷ ssids) c h =
      deregister_each-covers ssids _
        (rw (deregister-erase ssid c) (covers-erase ssid ssids c.registrations h))

  deregister_each-connections :
      (ssids : List ℕ) (c : Client W K) → (deregister_each env ssids c).connections ≡ c.connections
  unfolding deregister_each
  deregister_each-connections [] c = refl
  deregister_each-connections (ssid ∷ ssids) c =
      deregister_each-connections ssids _ ∙ deregister-connections env c ssid

  deregister_each-reconnecting :
      (ssids : List ℕ) (c : Client W K)
      → (deregister_each env ssids c).reconnecting ≡ c.reconnecting
  unfolding deregister_each
  deregister_each-reconnecting [] c = refl
  deregister_each-reconnecting (ssid ∷ ssids) c =
      deregister_each-reconnecting ssids _ ∙ deregister-reconnecting env c ssid

  deregister_each-running :
      (ssids : List ℕ) (c : Client W K) → (deregister_each env ssids c).running ≡ c.running
  unfolding deregister_each
  deregister_each-running [] c = refl
  deregister_each-running (ssid ∷ ssids) c =
      deregister_each-running ssids _ ∙ deregister-running env c ssid

  -- Stopping on another thread than the event loop's deregisters from every server, so that no
  -- registration is left before the table is cleared; it then disconnects each connection that
  -- there was when it was called, and ends in Idle, not running, with no connection, and
  -- reconnecting if it was.
  pub stop_lem :
      (c : Client W K)
      → let c₁ = deregister_each env (keys c.registrations) (record c { running = false }) in
        let c' = stop env false c in
        (c₁.registrations ≡ [])
        × (c'.registrations ≡ [])
        × (c'.connections ≡ [])
        × (c'.state ≡ idle)
        × (c'.running ≡ false)
        × (c'.reconnecting ≡ c.reconnecting)
        × (c'.world ≡ disconnect_each env c.connections c₁.world)
  unfolding stop stop_all set_state
  stop_lem c =
      let c₀ : Client W K = record c { running = false } in
      let all_gone =
        deregister_each-covers (keys c.registrations) c₀ (covers-keys c.registrations) in
      let same = deregister_each-connections (keys c.registrations) c₀ in
      let reconnecting = deregister_each-reconnecting (keys c.registrations) c₀ in
      let still = deregister_each-running (keys c.registrations) c₀ in
      (
        all_gone,
        ground arith,
        ground arith,
        ground arith,
        ground (arith, still),
        ground (arith, reconnecting),
        ground (arith, same),
      )
