-- ===== src/Client/Network/Answered.antt =====
-- src/client.cpp over src/transport/coap_client.cpp: a registration that is answered.
use ferriot.Transport.Incoming.{Pdu}
use ferriot.Prelude.{ℕ, ◌≡◌, refl, true, Option, none, some, arith}
use ferriot.Prelude.Int.{ℤ}
use ferriot.Prelude.Table.{find}
use ferriot.Result.{Result, ok}
use ferriot.Transport.{CoapRequest, CoapResponse}
use ferriot.Transport.Exchange
use ferriot.Transport.Exchange.{Sender, take_token, token_of, message_of}
use ferriot.Transport.Exchange.Responses.{IsAnswered, arrivals, send-ok, send-transmit}
use ferriot.Objects.Server
use ferriot.Objects.Server.{ServerInstance}
use ferriot.Client.Links.{build_registration_payload}
use ferriot.Client.State.{Client}
use ferriot.Client.Registration.{registration_request, register_with_server}
use ferriot.Client.Registration.Sent.{IsFrom, reached, register_with_server-IsSent}
use ferriot.Client.Network.{Link, System, Wire, sent_on, send, or_timeout, environment}

module _ {W X S A : Type 0} (wire : Wire W X S A) (widen : ℕ → ℕ) (pdu : Pdu) (now : ℤ)
    (limit rounds : ℕ) where
  abbrev pub sender_of : Link X S → System W X S → Sender W
  sender_of link s = record {
    connected = link.connected;
    next_token = link.next_token;
    world = s.wire;
  }

  -- The request was sent over the connection with a handle, which was established, in a state, with
  -- the connection's next token, and the response is that of responses with this token.
  abbrev pub IsReceived : System W X S → ℕ → CoapRequest → CoapResponse → Type 0
  IsReceived s handle request response =
      (link : Link X S) × (k : ℕ) × (find handle s.links ≡ some link)
      × (link.connected ≡ true)
      × (let network = wire.network handle in
          let token = token_of (take_token link.next_token) in
          let message = message_of network.split_uri token request in
          let sent = Exchange.send network limit rounds request (sender_of link s) in
          ((network.transmit message request.content_format (network.new_pdu s.wire).0).1 ≡ true)
          × (sent.1 ≡ some (ok response))
          × IsAnswered token (arrivals (network.arrived sent.0.world) 0 k) response)

  or_timeout-ok :
      (o : Option (Result CoapResponse)) {response : CoapResponse}
      → or_timeout o ≡ ok response
      → o ≡ some (ok response)
  or_timeout-ok none h = absurd (ground arith)
  or_timeout-ok (some r) h = ground arith

  sent_on-IsReceived :
      (handle : ℕ) (message : CoapRequest) (link : Option (Link X S)) (s : System W X S)
      {response : CoapResponse}
      → find handle s.links ≡ link
      → (sent_on wire widen pdu now limit rounds handle message link s).1 ≡ ok response
      → IsReceived s handle message response
  unfolding sent_on
  sent_on-IsReceived handle message none s e h = absurd (ground arith)
  sent_on-IsReceived handle message (some link) s e h =
      let sender = sender_of link s in
      let network = wire.network handle in
      let came = or_timeout-ok (Exchange.send network limit rounds message sender).1 h in
      let (k, answered) = send-ok network limit rounds message sender came in
      let (connected, transmitted) = send-transmit network limit rounds message sender came in
      (link, k, e, connected, (transmitted, came, answered))

  send-IsReceived :
      (handle : ℕ) (message : CoapRequest) (s : System W X S) {response : CoapResponse}
      → (send wire widen pdu now limit rounds handle message s).1 ≡ ok response
      → IsReceived s handle message response
  unfolding send
  send-IsReceived handle message s h =
      sent_on-IsReceived handle message (find handle s.links) s refl h

  -- Registering over libcoap's sessions that succeeds has sent the request to register, with the
  -- endpoint's name, the lifetime and binding of the server's instance and the links of the objects,
  -- over the connection that there was for the server or that was created for it, which is the
  -- server's connection after it. The registration is taken from a response that is a success:
  -- responses with the request's own token, the next one of this connection, have come in there,
  -- before any nested send, and the location of the registration is that of the options that are
  -- stored of them.
  pub register_with_server-IsReceived :
      (ssid : ℕ) (c : Client (System W X S) ℕ)
      → let env = environment wire widen pdu now limit rounds in
        let (c', r) = register_with_server env ssid c in
        let (s, o) = reached env ssid c in
        r ≡ ok tt
        → (srv_inst : ServerInstance) × (handle : ℕ) × (response : CoapResponse)
          × (Server.find_by_short_server_id c.world.objects.server ssid ≡ some srv_inst)
          × (o ≡ some handle)
          × (find ssid c'.connections ≡ some handle)
          × IsReceived s handle
              (registration_request c.config.endpoint_name srv_inst
                (build_registration_payload c.objects s))
              response
          × IsFrom response (find ssid c'.registrations)
  unfolding environment
  register_with_server-IsReceived ssid c h =
      let env = environment wire widen pdu now limit rounds in
      let (srv_inst, found, sent) = register_with_server-IsSent env ssid c h in
      let (handle, response, there, kept, came, from) = sent in
      let (s, o) = reached env ssid c in
      let request =
        registration_request c.config.endpoint_name srv_inst
          (build_registration_payload c.objects s) in
      let received = send-IsReceived handle request s came in
      (srv_inst, handle, response, found, there, kept, received, from)
