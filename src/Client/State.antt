-- ===== src/Client/State.antt =====
-- include/lwm2m/client.hpp: what a client holds, what it calls, and the methods that are state and
-- a result.
--
-- `W` is the world outside of the client's own members: the objects, the network and the clocks.
-- `K` is a connection, the CoapClient that a unique_ptr owns, whose own state is in the world.
-- Requests that arrive while the client waits for a response are handled inside the send, and change
-- the world; they are taken not to call update_registration. Those that a poll handles may. A time
-- is a count of nanoseconds.
use Prim.Native.String.{String}
use ferriot.Prelude.{
  ℕ, ◌*◌, ◌^◌, Bool, not, ◌&&◌, Option, none, some, List, ◌∷◌, ◌==◌, if◌then◌else◌, Bytes,
}
use ferriot.Prelude.Table.{Table}
use ferriot.Result.{Result, ok, err, ErrorCode, fail}
use ferriot.Object.{Object}
use ferriot.Objects.Security.{SecurityObject}
use ferriot.Objects.Security.Connection.{ConnectionConfig}
use ferriot.Objects.Server.{ServerObject}
use ferriot.Transport.{CoapRequest, CoapResponse}

pub data ClientState : Type 0 where
  idle registering registered updating deregistering : ClientState
  bootstrap_pending bootstrapping error : ClientState

-- The enumerators in their order.
abbrev pub state_value : ClientState → ℕ
state_value idle = 0
state_value registering = 1
state_value registered = 2
state_value updating = 3
state_value deregistering = 4
state_value bootstrap_pending = 5
state_value bootstrapping = 6
state_value error = 7

infix 50 ◌is◌
abbrev pub ◌is◌ : ClientState → ClientState → Bool
a is b = state_value a == state_value b

abbrev pub client_state_to_string : ClientState → String
client_state_to_string idle = "Idle"
client_state_to_string registering = "Registering"
client_state_to_string registered = "Registered"
client_state_to_string updating = "Updating"
client_state_to_string deregistering = "Deregistering"
client_state_to_string bootstrap_pending = "BootstrapPending"
client_state_to_string bootstrapping = "Bootstrapping"
client_state_to_string error = "Error"

pub record Registration : Type 0 where
  pub location : Bytes
  pub short_server_id : ℕ
  pub registered_at : ℕ
  pub expires_at : ℕ

-- ClientConfig, but for the members that nothing reads; `threshold` is a lifetime in seconds times
-- update_trigger_threshold, a double that is not negative, in whole seconds.
pub record ClientConfig : Type 0 where
  pub endpoint_name : Bytes
  pub poll_interval : ℕ
  pub threshold : ℕ → ℕ

-- `scaled` is a time in seconds times backoff_multiplier, a double that is not negative, in whole
-- seconds.
pub record ReconnectionConfig : Type 0 where
  pub enabled : Bool
  pub max_retries : ℕ
  pub initial_backoff : ℕ
  pub max_backoff : ℕ
  pub scaled : ℕ → ℕ

-- Which of the callbacks are set.
pub record ClientCallbacks : Type 0 where
  pub on_state_change : Bool
  pub on_registered : Bool
  pub on_deregistered : Bool
  pub on_error : Bool
  pub on_connection_lost : Bool
  pub on_reconnecting : Bool
  pub on_reconnected : Bool

-- The calls of the callbacks.
pub data Event : Type 0 where
  state_change : ClientState → ClientState → Event
  registered_event : ℕ → Registration → Event
  deregistered : ℕ → Event
  error_event : ErrorCode → String → Event
  connection_lost : ℕ → Event
  reconnecting_event : ℕ → ℕ → Event
  reconnected : ℕ → Event

pub record Client (W K : Type 0) : Type 0 where
  pub config : ClientConfig
  pub callbacks : ClientCallbacks
  pub objects : Table (Object W)
  pub connections : Table K
  pub registrations : Table Registration
  pub state : ClientState
  pub running : Bool
  pub reconnect_config : ReconnectionConfig
  pub reconnecting : Bool
  pub reconnect_attempts : ℕ
  pub reconnect_ssid : ℕ
  pub next_reconnect_time : ℕ
  pub world : W
  -- The calls made so far, the last one first.
  pub events : List Event

-- The members security_ and server_, the connections and the clocks.
pub record Environment (W K : Type 0) : Type 0 where
  pub security : W → SecurityObject
  pub server : W → ServerObject
  -- CoapClient::create, connect, and set_request_handler if it succeeds.
  pub connect : ConnectionConfig → W → W × Result K
  pub disconnect : K → W → W
  pub is_connected : K → W → Bool
  pub send : K → CoapRequest → W → W × Result CoapResponse
  -- The requests that a poll handles, in their order. Each changes the world, and says for which
  -- server it calls the registration update callback, if it does.
  pub poll_connection : K → ℕ → W → List (W → W × Option ℕ)
  pub system_now : W → W × ℕ
  pub steady_now : W → W × ℕ

-- std::chrono::seconds as a duration of the clocks.
abbrev pub seconds : ℕ → ℕ
seconds n = n * 10 ^ 9

module _ {W K : Type 0} where
  abbrev pub notify : Bool → Event → Client W K → Client W K
  notify set event c = if set then record c { events = event ∷ c.events } else c

  unfoldable pub set_state : ClientState → Client W K → Client W K
  set_state new_state c =
      notify (not (c.state is new_state) && c.callbacks.on_state_change)
        (state_change c.state new_state) (record c { state = new_state })

-- A method that returns a Result, over the state that it changes.
abbrev pub Action : Type 0 → Type 0 → Type 0
Action S A = S → S × Result A

abbrev or_error : {A : Type 0} → Option A → ErrorCode → String → Result A
or_error none code message = fail code message
or_error (some a) code message = ok a

module _ {S A : Type 0} where
  abbrev pub pure : A → Action S A
  pure a s = (s, ok a)

  abbrev pub raise : ErrorCode → String → Action S A
  raise code message s = (s, fail code message)

  abbrev pub or_raise : Option A → ErrorCode → String → Action S A
  or_raise o code message s = (s, or_error o code message)

abbrev pub modify : {S : Type 0} → (S → S) → Action S (Unit {0})
modify f s = (f s, ok tt)

abbrev pub continue : {S A B : Type 0} → S × Result A → (A → Action S B) → S × Result B
continue (s, ok a) next = next a s
continue (s, err e) next = (s, err e)

infixl 5 ◌>>=◌ ◌>>◌
abbrev pub ◌>>=◌ : {S A B : Type 0} → Action S A → (A → Action S B) → Action S B
◌>>=◌ m next s = continue (m s) next

abbrev pub ◌>>◌ : {S A B : Type 0} → Action S A → Action S B → Action S B
m >> rest = m >>= λ _. rest
