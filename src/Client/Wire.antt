-- ===== src/Client/Wire.antt =====
-- src/client.cpp over src/transport/coap_client.cpp: the handler that register_with_server sets on a
-- connection, on the messages that come in there.
pub mod RoundTrip
pub mod Trigger
use ferriot.Prelude.{ℕ, Option, none, some, ◌==◌, if◌then◌else◌, Bytes}
use ferriot.Prelude.Int.{ℤ}
use ferriot.Types.{ObjectPath}
use ferriot.Types.Path.{parse}
use ferriot.Object.{Object}
use ferriot.Object.Standard.{Standard, standard_objects}
use ferriot.Objects.Server
use ferriot.Transport.{CoapMethod, post, CoapRequest, CoapResponse}
use ferriot.Transport.Incoming.{
  Pdu, Message, Reply, method_of, build_request, incoming_request_handler,
}
use ferriot.Client.Requests.{Target, of_resource, target, handle_incoming_request}

module _ (widen : ℕ → ℕ) (pdu : Pdu) where
  -- The lambda given to set_request_handler.
  abbrev pub request_handler :
      {S : Type 0} → (ℕ → Option (Object S)) → CoapRequest → S → S × CoapResponse
  request_handler objects request s = handle_incoming_request widen objects s request

  -- A message that comes in on a connection of a client with the objects.
  unfoldable pub on_message : {S : Type 0} → (ℕ → Option (Object S)) → Message → S → S × Reply
  on_message objects message s =
      incoming_request_handler pdu (some (request_handler objects)) message s

  -- The call of the registration update callback, which process_execute makes through the Server
  -- object: its server, if it is made.
  unfoldable pub callback_on : Standard → ObjectPath → Target → Bytes → Option ℕ
  callback_on s path (of_resource iid rid) arguments =
      if path.object_id == 1 then (Server.execute_resource s.server iid rid arguments).0 else none
  callback_on s path _ arguments = none

  unfoldable pub callback_of_request : Standard → CoapRequest → Option ObjectPath → Option ℕ
  unfolding callback_on
  callback_of_request s request none = none
  callback_of_request s request (some path) = by_method request.method
    where
      by_method : CoapMethod → Option ℕ
      by_method post = callback_on s path (target path) request.payload
      by_method _ = none

  unfoldable pub callback_of : Standard → Message → Option CoapMethod → Option ℕ
  callback_of s message none = none
  callback_of s message (some method) =
      let request = build_request pdu method message in
      callback_of_request s request (parse request.uri_path)

  -- The same message as a step of a poll: what becomes of the objects, and the callback's call.
  unfoldable pub handle_message : ℤ → Message → Standard → Standard × Option ℕ
  handle_message now message s = (
    (on_message (standard_objects now) message s).0,
    callback_of s message (method_of message.code),
  )
