-- ===== src/Transport/Incoming/Replies.antt =====
-- src/transport/coap_client.cpp: what the request handler is given of a message, and what is
-- replied.
use ferriot.Prelude.{
  ◌≡◌, refl, Option, none, some, not, ◌&&◌, if◌then◌else◌, is_empty, Bytes, arith,
}
use ferriot.Types.{ObjectPath}
use ferriot.Types.Path.{to_string}
use ferriot.Types.Path.RoundTrip.{IsPath}
use ferriot.Transport.{CoapMethod, CoapRequest, CoapResponse}
use ferriot.Transport.Options.{split_path}
use ferriot.Transport.Incoming.{
  Pdu, Message, method_of, build_request, incoming_request_handler, answered, reply_of,
}
use ferriot.Transport.Incoming.Paths.{uri_path_values}

-- A message with a method and a path.
abbrev pub IsFor : CoapMethod → ObjectPath → Message → Type 0
IsFor method path message =
    IsPath path
    × (method_of message.code ≡ some method)
    × (uri_path_values message.options ≡ split_path (to_string path))

-- What is replied of a response's payload: nothing where it is empty or does not fit.
abbrev pub carried : Pdu → Message → CoapResponse → Option Bytes
carried pdu message response =
    if not (is_empty response.payload) && pdu.fits message response.content_format response.payload
    then some response.payload
    else none

module _ (pdu : Pdu) where
  reply_of-carried :
      (message : Message) (response : CoapResponse)
      → ((reply_of pdu message response).code ≡ response.code)
        × ((reply_of pdu message response).body ≡ carried pdu message response)
  unfolding reply_of
  reply_of-carried message response = ground arith

  -- The handler's response is replied, with its code, and with its payload where that fits.
  pub incoming_request_handler-answered :
      {W : Type 0} (handler : CoapRequest → W → W × CoapResponse) (message : Message) (w : W)
      {method : CoapMethod}
      → method_of message.code ≡ some method
      → let (w', reply) = incoming_request_handler pdu (some handler) message w in
        let (v, response) = handler (build_request pdu method message) w in
        (w' ≡ v) × (reply.code ≡ response.code) × (reply.body ≡ carried pdu message response)
  unfolding incoming_request_handler answered
  incoming_request_handler-answered handler message w {method} coded =
      let response = (handler (build_request pdu method message) w).1 in
      let (code, body) = reply_of-carried message response in rw coded (refl, code, body)
