-- ===== src/Client/Wire/RoundTrip.antt =====
-- src/client.cpp over src/transport/coap_client.cpp: resources read and written by messages.
use ferriot.Prelude.{
  ℕ, ◌≡◌, ◌≢◌, refl, arith, if◌then◌else◌, ap, ◌∙◌, Option, none, some, [], ◌∷◌, Bytes,
}
use ferriot.Prelude.Int.{ℤ}
use ferriot.Result.{ok}
use ferriot.Types.{ObjectPath, resource_path}
use ferriot.Resource.{ResourceValue, get_resource_type}
use ferriot.Tlv.{resource}
use ferriot.Tlv.Encoder.{encode_resource}
use ferriot.Tlv.Decoder.{decode}
use ferriot.Tlv.Values.{IsStorable}
use ferriot.Tlv.Structure.{Fits, leaves}
use ferriot.Object.{Object}
use ferriot.Object.Standard.{Standard, standard_objects}
use ferriot.Objects.Server
use ferriot.Objects.Server.{field_of}
use ferriot.Objects.Server.Laws.{narrow}
use ferriot.Transport.{CoapMethod, get, put, content, changed, tlv_lwm2m, CoapResponse}
use ferriot.Transport.Incoming.{Pdu, Message, or_empty, build_request}
use ferriot.Transport.Incoming.Replies.{IsFor, carried, incoming_request_handler-answered}
use ferriot.Transport.Incoming.Paths.{build_request-split_path}
use ferriot.Client.Requests.{
  dispatch, process_write, process_read, handle_parsed, handle_incoming_request,
}
use ferriot.Client.Requests.RoundTrip.{process_read-format}
use ferriot.Client.Requests.PutGet.{process_read-process_write}
use ferriot.Client.Wire.{on_message, request_handler}

-- The body of a reply to a message: the bytes that a resource with a value is decoded from, if they
-- fit there with the format TLV, and none otherwise.
abbrev pub Carries : Pdu → Message → ℕ → ResourceValue → Option Bytes → Type 0
Carries pdu message rid v body =
    (bytes : Bytes) × (decode bytes ≡ ok (leaves resource ((rid, v) ∷ [])))
    × (body ≡ (if pdu.fits message tlv_lwm2m bytes then some bytes else none))

decode-leaves : (rid : ℕ) (v : ResourceValue) → decode [] ≢ ok (leaves resource ((rid, v) ∷ []))
unfolding decode
decode-leaves rid v h = ground arith

carried-Carries :
    (pdu : Pdu) (message : Message) (rid : ℕ) (v : ResourceValue) (response : CoapResponse)
    {body : Option Bytes}
    → body ≡ carried pdu message response
    → response.content_format ≡ tlv_lwm2m
    → decode response.payload ≡ ok (leaves resource ((rid, v) ∷ []))
    → Carries pdu message rid v body
carried-Carries pdu message rid v response {body} e format decoded =
    (response.payload, decoded, e ∙ by_payload response.payload refl)
  where
    by_payload :
        (payload : Bytes)
        → response.payload ≡ payload
        → carried pdu message response
          ≡ (if pdu.fits message tlv_lwm2m response.payload then some response.payload else none)
    by_payload [] h = absurd (decode-leaves rid v (rw h at decoded))
    by_payload (b ∷ bs) h = rw (format, h) refl

module _ (widen : ℕ → ℕ) (pdu : Pdu) where
  module _ {S : Type 0} (objects : ℕ → Option (Object S)) (s : S) where
    -- A message is answered as its method and path are dispatched, and with the response's code, and
    -- its payload where that fits.
    pub on_message-dispatch :
        (method : CoapMethod) (path : ObjectPath) (message : Message)
        → IsFor method path message
        → let (s', reply) = on_message widen pdu objects message s in
          let (t, response) = dispatch widen objects method s path (or_empty message.body) in
          (s' ≡ t) × (reply.code ≡ response.code) × (reply.body ≡ carried pdu message response)
    unfolding on_message handle_incoming_request handle_parsed build_request
    on_message-dispatch method path message (v, coded, sent) =
        let parsed = (build_request-split_path pdu method message path v sent).1 in
        rw parsed at (
          incoming_request_handler-answered pdu (request_handler widen pdu objects) message s coded)

-- A PUT message for a resource of the Server object with the bytes of a value of its type, which the
-- object accepts, is replied to with 2.04 Changed, and a GET message for it that comes in then with
-- 2.05 Content, also when the messages differ in their tokens and in what else their options hold.
-- The bytes of the value, with integers cast to the member's width, are the second reply's payload if
-- they fit there, and otherwise it has none. Both values fit a record.
pub on_message-put :
    (widen : ℕ → ℕ) (pdu : Pdu) (now : ℤ) (s : Standard) (iid rid : ℕ) (v : ResourceValue)
    (written asked : Message)
    → let path = resource_path 1 iid rid in
      IsFor put path written
      → IsFor get path asked
      → Server.get_resource_type s.server iid rid ≡ some (get_resource_type v)
      → (Server.write_resource s.server iid rid none v).1 ≡ ok tt
      → IsStorable v
      → Fits ((rid, v) ∷ [])
      → Fits ((rid, narrow (field_of rid) v) ∷ [])
      → encode_resource rid v ≡ ok (or_empty written.body)
      → let receive = on_message widen pdu (standard_objects now) in
        let (s', acknowledged) = receive written s in
        let (s'', reply) = receive asked s' in
        (acknowledged.code ≡ some changed)
        × (s'' ≡ s')
        × (reply.code ≡ some content)
        × Carries pdu asked rid (narrow (field_of rid) v) reply.body
unfolding dispatch
on_message-put widen pdu now s iid rid v written asked for_put for_get typed accepted storable fits
      fits' encoded =
    let objects = standard_objects now in
    let path = resource_path 1 iid rid in
    let (after, code, body) = on_message-dispatch widen pdu objects s put path written for_put in
    let s' = (process_write widen objects s path (or_empty written.body)).0 in
    let (same, code', body') = on_message-dispatch widen pdu objects s' get path asked for_get in
    let (done, read, bytes) =
      process_read-process_write widen now s iid rid v typed accepted storable fits fits' encoded in
    let value = narrow (field_of rid) v in
    let response = process_read widen objects s' path in
    let format = process_read-format widen objects s' path in
    let carries = carried-Carries pdu asked rid value response body' format bytes in
    rw after (code ∙ ap CoapResponse.code done, same, code' ∙ read, carries)
