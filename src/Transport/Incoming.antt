-- ===== src/Transport/Incoming.antt =====
-- src/transport/coap_client.cpp: CoapClientImpl::incoming_request_handler.
--
-- A message is what libcoap's accessors give of a PDU, and a reply is what the handler sets of the
-- response's. The handler is the one of set_request_handler, and may change the world. The writing
-- to stderr is not modelled; what coap_add_data answers is only written there.
pub mod Paths
pub mod Replies
use ferriot.Prelude.{
  ℕ, ◌%◌, ◌^◌, ◌≡◌, refl, ap, ◌∙◌, Bool, true, false, not, ◌&&◌, Option, none, some, List, [], ◌∷◌,
  ◌++◌, ◌==◌, if◌then◌else◌, Bytes, arith, append_assoc,
}
use ferriot.Transport.{
  CoapMethod, get, post, put, delete, CoapCode, not_found, method_not_allowed, ContentFormat,
  text_plain, link_format, xml, octet_stream, json, cbor, tlv_lwm2m, json_lwm2m, senml_json,
  senml_cbor, other_format, CoapRequest, CoapResponse,
}
use ferriot.Transport.Options.{preceded}

pub record Message : Type 0 where
  pub code : ℕ
  pub token : Bytes
  pub options : List (ℕ × Bytes)
  pub body : Option Bytes

pub record Reply : Type 0 where
  -- None where the handler's response has no code assigned.
  pub code : Option CoapCode
  pub content_format : Option ContentFormat
  pub body : Option Bytes

-- libcoap's coap_decode_var_bytes, and whether coap_add_data adds a payload to the response for a
-- message, after the content format: it does not where the PDU has no room for it.
pub record Pdu : Type 0 where
  pub decode_var_bytes : Bytes → ℕ
  pub fits : Message → ContentFormat → Bytes → Bool

-- COAP_OPTION_URI_PATH and COAP_OPTION_CONTENT_FORMAT
abbrev pub option_uri_path : ℕ
option_uri_path = 11

abbrev pub option_content_format : ℕ
option_content_format = 12

-- COAP_REQUEST_CODE_GET, POST, PUT and DELETE
unfoldable pub method_of : ℕ → Option CoapMethod
method_of code =
    if code == 1
    then some get
    else if code == 2
    then some post
    else if code == 3
    then some put
    else if code == 4
    then some delete
    else none

-- static_cast<ContentFormat>
unfoldable pub cast_format : ℕ → ContentFormat
cast_format n =
    let value = n % 2 ^ 16 in
    if value == 0
    then text_plain
    else if value == 40
    then link_format
    else if value == 41
    then xml
    else if value == 42
    then octet_stream
    else if value == 50
    then json
    else if value == 60
    then cbor
    else if value == 11542
    then tlv_lwm2m
    else if value == 11543
    then json_lwm2m
    else if value == 110
    then senml_json
    else if value == 112
    then senml_cbor
    else other_format value

-- `uri_path += "/"` unless it is empty, and the segment.
abbrev pub append_segment : Bytes → Bytes → Bytes
append_segment [] segment = segment
append_segment (b ∷ bs) segment = (b ∷ bs) ++ b'/' ∷ segment

-- The loop over the options that are left, for the path so far.
unfoldable pub path_of_options : Bytes → List (ℕ × Bytes) → Bytes
path_of_options uri_path [] = uri_path
path_of_options uri_path ((number, value) ∷ options) =
    path_of_options (if number == option_uri_path then append_segment uri_path value else uri_path)
      options

-- `// Prepend / to path`
abbrev pub rooted : Bytes → Bytes
rooted [] = []
rooted (b ∷ bs) = b'/' ∷ b ∷ bs

abbrev pub or_empty : Option Bytes → Bytes
or_empty none = []
or_empty (some body) = body

module _ (pdu : Pdu) where
  abbrev pub format_in : Bytes → ContentFormat → ContentFormat
  format_in [] format = format
  format_in (b ∷ bs) format = cast_format (pdu.decode_var_bytes (b ∷ bs))

  -- The same loop, for the content format.
  unfoldable pub format_of_options : ContentFormat → List (ℕ × Bytes) → ContentFormat
  format_of_options format [] = format
  format_of_options format ((number, value) ∷ options) =
      format_of_options (if number == option_content_format then format_in value format else format)
        options

  unfoldable pub build_request : CoapMethod → Message → CoapRequest
  build_request method message = record {
    method = method;
    uri_path = rooted (path_of_options [] message.options);
    options = [];
    payload = or_empty message.body;
    content_format = format_of_options tlv_lwm2m message.options;
  }

  abbrev pub refuse : CoapCode → Reply
  refuse code = record { code = some code; content_format = none; body = none }

  -- `// Add Content-Format option if we have payload`, and the payload, for a message.
  reply_of : Message → CoapResponse → Reply
  reply_of message response = with_payload response.payload
    where
      with_payload : Bytes → Reply
      with_payload [] = record { code = response.code; content_format = none; body = none }
      with_payload (b ∷ bs) = record {
        code = response.code;
        content_format = some response.content_format;
        body = if pdu.fits message response.content_format (b ∷ bs) then some (b ∷ bs) else none;
      }

  module _ {W : Type 0} where
    answered : Option CoapMethod → (CoapRequest → W → W × CoapResponse) → Message → W → W × Reply
    unfolding reply_of
    answered none handler message w = (w, refuse method_not_allowed)
    answered (some method) handler message w =
        let (w', response) = handler (build_request method message) w in
        (w', reply_of message response)

    unfoldable pub incoming_request_handler :
        Option (CoapRequest → W → W × CoapResponse) → Message → W → W × Reply
    unfolding answered
    incoming_request_handler none message w = (w, refuse not_found)
    incoming_request_handler (some handler) message w =
        answered (method_of message.code) handler message w
