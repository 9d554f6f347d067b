-- ===== src/Client/Network.antt =====
-- src/client.cpp over src/transport/coap_client.cpp: a client's connections, as libcoap's sessions.
--
-- The connections are kept by a handle each, in place of the address of the CoapClientImpl. `Wire` has
-- what comes in there, besides libcoap's functions. A registration update that is triggered by a
-- request while send waits is not modelled, one by a request of a poll is.
pub mod Answered
pub mod Handles
pub mod Counted
use ferriot.Prelude.{
  present, ℕ, ◌+◌, Bool, true, false, Option, none, some, List, [], ◌∷◌, Bytes, if◌then◌else◌,
}
use ferriot.Prelude.Int.{ℤ}
use ferriot.Prelude.Table.{Table, find, put, erase}
use ferriot.Result.{Result, ok, err, fail, invalid_state, timeout}
use ferriot.Objects.Security.Connection.{ConnectionConfig}
use ferriot.Object.Standard.{Standard}
use ferriot.Transport.{CoapRequest, CoapResponse}
use ferriot.Transport.Incoming.{Pdu, Message}
use ferriot.Transport.Connection
use ferriot.Transport.Connection.{Coap, CoapClient}
use ferriot.Transport.Exchange
use ferriot.Transport.Exchange.{CoapEvent, event_handler, Network, Sender}
use ferriot.Client.State.{Environment}
use ferriot.Client.Wire.{handle_message}

-- The members of a CoapClientImpl that are kept between its calls.
pub record Link (X S : Type 0) : Type 0 where
  pub ctx : Option X
  pub session : Option S
  pub connected : Bool
  pub psk_identity : Bytes
  pub psk_key : Bytes
  pub next_token : ℕ

-- The objects, the connections with coap_init_count, and libcoap's world.
pub record System (W X S : Type 0) : Type 0 where
  pub objects : Standard
  pub links : Table (Link X S)
  pub next_handle : ℕ
  pub init_count : ℕ
  pub wire : W

-- What a poll passes to the other two handlers.
pub data Incoming : Type 0 where
  request : Message → Incoming
  event : CoapEvent → Incoming

pub record Wire (W X S A : Type 0) : Type 0 where
  pub coap : Coap W X S A
  -- What send of a connection meets, and what comes in there while it waits and in a poll, for a
  -- time, with libcoap's world after it; the world tells whether send has come to wait.
  pub network : ℕ → Network W
  pub meanwhile : ℕ → W → W × List Incoming
  pub polled : ℕ → ℕ → W → W × List Incoming
  pub system_now : W → W × ℕ
  pub steady_now : W → W × ℕ

-- CoapClientImpl, when it is created.
abbrev pub created : {X S : Type 0} → Link X S
created = record {
  ctx = none;
  session = none;
  connected = false;
  psk_identity = [];
  psk_key = [];
  next_token = 0;
}

-- The result of send, which times out if its rounds run out.
abbrev pub or_timeout : Option (Result CoapResponse) → Result CoapResponse
or_timeout none = fail timeout "Request timeout"
or_timeout (some r) = r

module _ {W X S : Type 0} where
  abbrev pub opened : Link X S → System W X S → CoapClient W X S
  opened link s = record {
    ctx = link.ctx;
    session = link.session;
    connected = link.connected;
    psk_identity = link.psk_identity;
    psk_key = link.psk_key;
    init_count = s.init_count;
    world = s.wire;
  }

  abbrev pub closed : ℕ → ℕ → CoapClient W X S → System W X S → System W X S
  closed handle next_token c s = record s {
    links =
        put handle
          (record {
            ctx = c.ctx;
            session = c.session;
            connected = c.connected;
            psk_identity = c.psk_identity;
            psk_key = c.psk_key;
            next_token = next_token;
          })
          s.links;
    init_count = c.init_count;
    wire = c.world;
  }

  abbrev pub set_connected : ℕ → CoapEvent → Option (Link X S) → System W X S → System W X S
  set_connected handle e none s = s
  set_connected handle e (some link) s = record s {
    links = put handle (record link { connected = event_handler e link.connected }) s.links;
  }

module _ {W X S A : Type 0} where
  module _ (wire : Wire W X S A) where
    -- A connection that fails is destroyed with its unique_ptr, and disconnected there.
    kept : CoapClient W X S × Result (Unit {0}) → System W X S → System W X S × Result ℕ
    kept (c, ok done) s =
        (closed s.next_handle 0 c (record s { next_handle = s.next_handle + 1 }), ok s.next_handle)
    kept (c, err e) s =
        let c' = Connection.disconnect wire.coap c in
        (record s { init_count = c'.init_count; wire = c'.world }, err e)

    unfoldable pub connect : ConnectionConfig → System W X S → System W X S × Result ℕ
    unfolding kept
    connect config s = kept (Connection.connect wire.coap config (opened created s)) s

    disconnected : ℕ → Option (Link X S) → System W X S → System W X S
    disconnected handle none s = s
    disconnected handle (some link) s =
        closed handle link.next_token (Connection.disconnect wire.coap (opened link s)) s

    unfoldable pub disconnect : ℕ → System W X S → System W X S
    unfolding disconnected
    disconnect handle s = disconnected handle (find handle s.links) s

    has_context : Option (Link X S) → Bool
    has_context none = false
    has_context (some link) = present link.ctx

    linked : Option (Link X S) → Bool
    linked none = false
    linked (some link) = link.connected

    unfoldable pub is_connected : ℕ → System W X S → Bool
    unfolding linked
    is_connected handle s = linked (find handle s.links)

    module _ (widen : ℕ → ℕ) (pdu : Pdu) (now : ℤ) where
      -- One request or event, and the call of the registration update callback.
      unfoldable pub take : ℕ → Incoming → System W X S → System W X S × Option ℕ
      take handle (request message) s =
          let (objects, trigger) = handle_message widen pdu now message s.objects in
          (record s { objects = objects }, trigger)
      take handle (event e) s = (set_connected handle e (find handle s.links) s, none)

      unfoldable pub take_each : ℕ → List Incoming → System W X S → System W X S
      take_each handle [] s = s
      take_each handle (incoming ∷ rest) s = take_each handle rest (take handle incoming s).0

      waited : Bool → ℕ → System W X S → System W X S
      waited false handle s = s
      waited true handle s =
          let (w, incoming) = wire.meanwhile handle s.wire in
          take_each handle incoming (record s { wire = w })

      module _ (limit rounds : ℕ) where
        sent_on :
            ℕ → CoapRequest → Option (Link X S) → System W X S → System W X S × Result CoapResponse
        unfolding waited
        sent_on handle message none s = (s, fail invalid_state "Not connected")
        sent_on handle message (some link) s =
            let (sender, r) = Exchange.send (wire.network handle) limit rounds message (record {
              connected = link.connected;
              next_token = link.next_token;
              world = s.wire;
            }) in
            (
              waited link.connected handle (record s {
                links = put handle (record link { next_token = sender.next_token }) s.links;
                wire = sender.world;
              }),
              or_timeout r,
            )

        unfoldable pub send : ℕ → CoapRequest → System W X S → System W X S × Result CoapResponse
        unfolding sent_on
        send handle message s = sent_on handle message (find handle s.links) s

        steps_of : ℕ → List Incoming → List (System W X S → System W X S × Option ℕ)
        steps_of handle [] = []
        steps_of handle (incoming ∷ rest) = take handle incoming ∷ steps_of handle rest

        -- The steps of a poll, where there is a context.
        unfoldable pub poll : ℕ → ℕ → System W X S → List (System W X S → System W X S × Option ℕ)
        unfolding steps_of has_context
        poll handle time s =
            let (w, incoming) = wire.polled handle time s.wire in
            if has_context (find handle s.links)
            then (λ s. (record s { wire = w }, none)) ∷ steps_of handle incoming
            else []

        abbrev pub clock : (W → W × ℕ) → System W X S → System W X S × ℕ
        clock read s = let (w, time) = read s.wire in (record s { wire = w }, time)

        -- What the client calls.
        unfoldable pub environment : Environment (System W X S) ℕ
        environment = record {
          security = λ s. s.objects.security;
          server = λ s. s.objects.server;
          connect = connect;
          disconnect = disconnect;
          is_connected = is_connected;
          send = send;
          poll_connection = poll;
          system_now = clock wire.system_now;
          steady_now = clock wire.steady_now;
        }
