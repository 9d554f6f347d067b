-- ===== src/Client/Network/Counted.antt =====
-- src/client.cpp over src/transport/coap_client.cpp: the count of libcoap's initialisations, which all
-- connections share.
pub mod Calls
use ferriot.Transport.Incoming.{Pdu}
use ferriot.Prelude.{
  ℕ, ◌+◌, ◌-◌, ◌≡◌, refl, Bool, true, false, ◌&&◌, Option, none, some, List, [], ◌∷◌, Bytes, arith,
  ◌==◌, present, if_elim,
}
use ferriot.Prelude.Int.{ℤ}
use ferriot.Prelude.Table.{Table, find, put}
use ferriot.Result.{Result, ok, err}
use ferriot.Objects.Security.Connection.{ConnectionConfig}
use ferriot.Transport.{CoapRequest}
use ferriot.Transport.Connection
use ferriot.Transport.Connection.{CoapClient}
use ferriot.Transport.Exchange
use ferriot.Transport.Exchange.{event_handler}
use ferriot.Transport.Connection.Outcomes.{
  own_count, IsCounted, connect-IsCounted, disconnect-init_count, disconnect-IsCounted,
}
use ferriot.Client.Network.Handles.{
  contexts, below, contexts-put, own_found-le, below-put, below-suc, below-find, below-none,
}
use ferriot.Client.Network.{
  Link, System, Wire, Incoming, request, event, created, kept, connect, disconnected, disconnect,
  opened, set_connected, take, take_each, waited, sent_on, send, steps_of, has_context, poll,
  environment,
}
use ferriot.Client.State.{Client}
use ferriot.Client.Registration.World.{AllKeep, IsKept}
use ferriot.Client.Calls.{Call, run, run-world}

-- libcoap is initialised once for each connection that has a context, and the handles are new.
abbrev pub is_counted : {W X S : Type 0} → System W X S → Bool
is_counted s = s.init_count == contexts s.links && below s.next_handle s.links

module _ {W X S A : Type 0} (wire : Wire W X S A) where
  -- A connection that takes another's place, with the count that goes with it.
  replaced-is_counted :
      (handle : ℕ) (old new : Link X S) (links : Table (Link X S))
      (init_count next_handle others : ℕ)
      → find handle links ≡ some old
      → contexts links ≡ others + own_count old.ctx
      → below next_handle links ≡ true
      → init_count ≡ others + own_count new.ctx
      → (init_count == contexts (put handle new links) && below next_handle (put handle new links))
        ≡ true
  replaced-is_counted handle old new links init_count next_handle others found counted fresh own =
      ground (
        arith,
        contexts-put handle new links,
        below-find next_handle handle links {link = old} fresh found,
        below-put next_handle handle new links fresh,
      )

  others_of :
      (handle : ℕ) (links : Table (Link X S)) {link : Link X S}
      → find handle links ≡ some link
      → contexts links ≡ (contexts links - own_count link.ctx) + own_count link.ctx
  others_of handle links {link} found = ground (arith, own_found-le handle links)

  disconnect-is_counted :
      (handle : ℕ) (s : System W X S)
      → is_counted s ≡ true
      → is_counted (disconnect wire handle s) ≡ true
  unfolding disconnect
  disconnect-is_counted handle s h = by_link (find handle s.links) refl
    where
      by_link :
          (o : Option (Link X S))
          → find handle s.links ≡ o
          → is_counted (disconnected wire handle o s) ≡ true
      by_link none e = unfold disconnected in h
      by_link (some link) e =
          let others = contexts s.links - own_count link.ctx in
          let c = Connection.disconnect wire.coap (opened link s) in
          let counted =
            disconnect-IsCounted wire.coap others (opened link s)
              (ground (arith, others_of handle s.links {link = link} e)) in
          unfold disconnected in
          replaced-is_counted handle link
            (record {
              ctx = c.ctx;
              session = c.session;
              connected = c.connected;
              psk_identity = c.psk_identity;
              psk_key = c.psk_key;
              next_token = link.next_token;
            })
            s.links c.init_count s.next_handle others e (others_of handle s.links {link = link} e)
            (ground arith) counted

  -- A connection that is made, or fails, where a context can always be created.
  kept-is_counted :
      (c : CoapClient W X S) (r : Result (Unit {0})) (s : System W X S)
      → is_counted s ≡ true
      → IsCounted wire.coap s.init_count c
      → is_counted (kept wire (c, r) s).0 ≡ true
  unfolding kept
  kept-is_counted c (ok done) s h counted = ground (
    arith,
    contexts-put s.next_handle
        (record {
          ctx = c.ctx;
          session = c.session;
          connected = c.connected;
          psk_identity = c.psk_identity;
          psk_key = c.psk_key;
          next_token = 0;
        })
        s.links,
    below-none s.next_handle s.links,
    below-suc s.next_handle s.links,
    below-put (s.next_handle + 1) s.next_handle
        (record {
          ctx = c.ctx;
          session = c.session;
          connected = c.connected;
          psk_identity = c.psk_identity;
          psk_key = c.psk_key;
          next_token = 0;
        })
        s.links,
  )
  kept-is_counted c (err e) s h counted =
      ground (arith, disconnect-init_count wire.coap s.init_count c counted)

  connect-is_counted :
      (config : ConnectionConfig) (s : System W X S)
      → ((w : W) → present (wire.coap.new_context w).1 ≡ true)
      → is_counted s ≡ true
      → is_counted (connect wire config s).0 ≡ true
  unfolding connect
  connect-is_counted config s contexts h =
      let counted =
        connect-IsCounted wire.coap s.init_count config (opened created s) contexts
          (ground arith) in
      let (c, r) = Connection.connect wire.coap config (opened created s) in
      kept-is_counted c r s h counted

  module _ (widen : ℕ → ℕ) (pdu : Pdu) (now : ℤ) where
    take-is_counted :
        (handle : ℕ) (incoming : Incoming) (s : System W X S)
        → is_counted s ≡ true
        → is_counted (take wire widen pdu now handle incoming s).0 ≡ true
    unfolding take
    take-is_counted handle (request message) s h = h
    take-is_counted handle (event e) s h = by_link (find handle s.links) refl
      where
        by_link :
            (o : Option (Link X S))
            → find handle s.links ≡ o
            → is_counted (set_connected handle e o s) ≡ true
        by_link none f = h
        by_link (some link) f =
            replaced-is_counted handle link
              (record link { connected = event_handler e link.connected }) s.links s.init_count
              s.next_handle (contexts s.links - own_count link.ctx) f
              (others_of handle s.links {link = link} f) (ground arith)
              (ground (arith, others_of handle s.links {link = link} f))

    take_each-is_counted :
        (handle : ℕ) (incoming : List Incoming) (s : System W X S)
        → is_counted s ≡ true
        → is_counted (take_each wire widen pdu now handle incoming s) ≡ true
    unfolding take_each
    take_each-is_counted handle [] s h = h
    take_each-is_counted handle (x ∷ rest) s h =
        take_each-is_counted handle rest (take wire widen pdu now handle x s).0
          (take-is_counted handle x s h)

    waited-is_counted :
        (b : Bool) (handle : ℕ) (s : System W X S)
        → is_counted s ≡ true
        → is_counted (waited wire widen pdu now b handle s) ≡ true
    unfolding waited
    waited-is_counted false handle s h = h
    waited-is_counted true handle s h =
        let (w, incoming) = wire.meanwhile handle s.wire in
        take_each-is_counted handle incoming (record s { wire = w }) h

    module _ (limit rounds : ℕ) where
      send-is_counted :
          (handle : ℕ) (message : CoapRequest) (s : System W X S)
          → is_counted s ≡ true
          → is_counted (send wire widen pdu now limit rounds handle message s).0 ≡ true
      unfolding send
      send-is_counted handle message s h = by_link (find handle s.links) refl
        where
          by_link :
              (o : Option (Link X S))
              → find handle s.links ≡ o
              → is_counted (sent_on wire widen pdu now limit rounds handle message o s).0 ≡ true
          by_link none f = unfold sent_on in h
          by_link (some link) f =
              let sender =
                (Exchange.send (wire.network handle) limit rounds message (record {
                  connected = link.connected;
                  next_token = link.next_token;
                  world = s.wire;
                })).0 in
              let link' = record link { next_token = sender.next_token } in
              unfold sent_on in
              waited-is_counted link.connected handle
                (record s { links = put handle link' s.links; wire = sender.world })
                (replaced-is_counted handle link link' s.links s.init_count s.next_handle
                  (contexts s.links - own_count link.ctx) f
                  (others_of handle s.links {link = link} f) (ground arith)
                  (ground (arith, others_of handle s.links {link = link} f)))
