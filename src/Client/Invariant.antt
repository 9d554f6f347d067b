-- ===== src/Client/Invariant.antt =====
-- src/client.cpp: what holds of a client's registrations and its state between two calls.
pub mod Loop
pub mod World
use ferriot.Prelude.{
  [], present, is_empty, ℕ, ◌≡◌, refl, Bool, true, false, ◌&&◌, ◌||◌, Option, none, some, ◌∷◌,
  arith, ◌⊎◌, inl, inr, if_elim,
}
use ferriot.Prelude.Table.{Table, find, find-erase}
use ferriot.Result.{Result, ok, err, Error}
use ferriot.Client.State.{
  ClientState, idle, registered, error, ◌is◌, Registration, Client, Environment, Event, set_state,
  notify,
}
use ferriot.Client.Registration.{register_with_server, update_registration, deregister}
use ferriot.Client.Registration.Outcomes.{
  is_for, without_end, map_option, register_with_server-ok, register_with_server-err,
  update_registration-ok, update_registration-err, deregister_lem,
}
use ferriot.Client.Reconnect.{handle_connection_lost}

abbrev pub is_good : ℕ → Option Registration → Bool
is_good ssid none = true
is_good ssid (some reg) = is_for ssid (some reg)

-- No call is under way.
abbrev pub is_settled : ClientState → Bool
is_settled s = s is idle || (s is registered || s is error)

-- Each registration is for the server that it is found by, and has a location; and in the state
-- Registered there is one.
pub record IsValid {W K : Type 0} (c : Client W K) : Type 0 where
  pub located : (j : ℕ) → is_good j (find j c.registrations) ≡ true
  pub registered_some : (c.state is registered && is_empty c.registrations) ≡ false
  pub settled : is_settled c.state ≡ true

present-not_empty :
    (ssid : ℕ) (m : Table Registration) → present (find ssid m) ≡ true → is_empty m ≡ false
unfolding find
present-not_empty ssid [] h = cc
present-not_empty ssid (x ∷ m) h = refl

is_good-without_end :
    (j : ℕ) (a b : Option Registration)
    → map_option without_end a ≡ map_option without_end b
    → is_good j b ≡ true
    → is_good j a ≡ true
is_good-without_end j a b e h = ground arith

Result-cases : {A : Type 0} (r : Result A) → ((a : A) × (r ≡ ok a)) ⊎ ((e : Error) × (r ≡ err e))
Result-cases (ok a) = inl (a, refl)
Result-cases (err e) = inr (e, refl)

module _ {W K : Type 0} (env : Environment W K) (c : Client W K) (v : IsValid c) where
  pub register_with_server-IsValid : (ssid : ℕ) → IsValid (register_with_server env ssid c).0
  register_with_server-IsValid ssid = elim (Result-cases (register_with_server env ssid c).1) [
    | inl (_, done) ↦ record {
      located = λ j. ground (arith, register_with_server-ok env c ssid j done, v.located j);
      registered_some = ground (
        arith,
        register_with_server-ok env c ssid ssid done,
        present-not_empty ssid (register_with_server env ssid c).0.registrations,
      );
      settled = ground (arith, register_with_server-ok env c ssid ssid done);
    }
    | inr (e, failed) ↦
        let (same, state) = register_with_server-err env c ssid failed in
        record {
          located = λ j. rw same (v.located j);
          registered_some = rw same (ground (arith, v.registered_some));
          settled = ground (arith, state, v.settled);
        }
  ]

  pub update_registration-IsValid : (ssid : ℕ) → IsValid (update_registration env ssid c).0
  update_registration-IsValid ssid = elim (Result-cases (update_registration env ssid c).1) [
    | inl (_, done) ↦ record {
      located =
          λ j. is_good-without_end j _ _ (update_registration-ok env c ssid j done).1 (v.located j);
      registered_some = ground (
        arith,
        update_registration-ok env c ssid ssid done,
        present-not_empty ssid (update_registration env ssid c).0.registrations,
      );
      settled = ground (arith, update_registration-ok env c ssid ssid done);
    }
    | inr (e, failed) ↦
        let (same, state) = update_registration-err env c ssid failed in
        record {
          located = λ j. rw same (v.located j);
          registered_some =
              rw same
                (ground (arith, state, v.registered_some, present-not_empty ssid c.registrations));
          settled = ground (arith, state, v.settled);
        }
  ]

  pub deregister-IsValid : (ssid : ℕ) → IsValid (deregister env ssid c).0
  deregister-IsValid ssid =
      let (_, registrations, state) = deregister_lem env c ssid (find ssid c.registrations) refl in
      record {
        located = λ j. rw registrations (grind (arith, find-erase, v.located j));
        registered_some = rw (registrations, state) (ground (arith, v.registered_some));
        settled = ground (arith, state, v.settled);
      }

  pub handle_connection_lost-IsValid : (ssid : ℕ) → IsValid (handle_connection_lost env ssid c)
  unfolding handle_connection_lost set_state
  handle_connection_lost-IsValid ssid = record {
    located = λ j. grind (arith, find-erase, v.located j);
    registered_some = ground (arith, v.registered_some);
    settled = ground (arith, v.settled);
  }

pub IsValid-same :
    {W K : Type 0} (c d : Client W K)
    → d.registrations ≡ c.registrations
    → d.state ≡ c.state
    → IsValid c
    → IsValid d
IsValid-same c d same state v = record {
  located = λ j. rw same (v.located j);
  registered_some = rw (same, state) v.registered_some;
  settled = rw state v.settled;
}

pub set_state-IsValid :
    {W K : Type 0} (new_state : ClientState) (c : Client W K)
    → new_state is registered ≡ false
    → is_settled new_state ≡ true
    → IsValid c
    → IsValid (set_state new_state c)
unfolding set_state
set_state-IsValid new_state c other ends v = record {
  located = λ j. ground (arith, v.located j);
  registered_some = ground arith;
  settled = ground arith;
}

pub notify-IsValid :
    {W K : Type 0} (set : Bool) (event : Event) (c : Client W K)
    → IsValid c
    → IsValid (notify set event c)
notify-IsValid set event c v = if_elim IsValid set (IsValid-same c _ refl refl v) v
