-- ===== src/Transport.antt =====
-- include/lwm2m/transport/coap_client.hpp: the requests and responses of CoAP.
--
-- `CoapResponse response;` leaves the code without a value until it is assigned: it is an Option
-- here, none until then.
pub mod Options
pub mod Incoming
pub mod Connection
pub mod Exchange
pub mod Downloader
use ferriot.Prelude.{
  String, ℕ, Bool, false, ◌&&◌, Option, none, some, List, [], ◌∷◌, ◌++◌, ◌==◌, leb, ltb,
  if◌then◌else◌, Bytes,
}

pub data CoapMethod : Type 0 where
  get post put delete : CoapMethod

pub data CoapCode : Type 0 where
  created deleted valid changed content : CoapCode
  bad_request unauthorized bad_option forbidden not_found : CoapCode
  method_not_allowed not_acceptable : CoapCode
  internal_server_error not_implemented bad_gateway : CoapCode
  service_unavailable gateway_timeout : CoapCode
  -- A value that no enumerator has, which a cast from a received code can give.
  other_code : ℕ → CoapCode

abbrev pub code_value : CoapCode → ℕ
code_value created = 65
code_value deleted = 66
code_value valid = 67
code_value changed = 68
code_value content = 69
code_value bad_request = 128
code_value unauthorized = 129
code_value bad_option = 130
code_value forbidden = 131
code_value not_found = 132
code_value method_not_allowed = 133
code_value not_acceptable = 134
code_value internal_server_error = 160
code_value not_implemented = 161
code_value bad_gateway = 162
code_value service_unavailable = 163
code_value gateway_timeout = 164
code_value (other_code n) = n

pub data ContentFormat : Type 0 where
  text_plain link_format xml octet_stream json cbor : ContentFormat
  tlv_lwm2m json_lwm2m senml_json senml_cbor : ContentFormat
  other_format : ℕ → ContentFormat

abbrev pub format_value : ContentFormat → ℕ
format_value text_plain = 0
format_value link_format = 40
format_value xml = 41
format_value octet_stream = 42
format_value json = 50
format_value cbor = 60
format_value tlv_lwm2m = 11542
format_value json_lwm2m = 11543
format_value senml_json = 110
format_value senml_cbor = 112
format_value (other_format n) = n

pub record CoapRequest : Type 0 where
  pub method : CoapMethod
  pub uri_path : Bytes
  pub options : List (ℕ × Bytes)
  pub payload : Bytes
  pub content_format : ContentFormat

pub record CoapResponse : Type 0 where
  pub code : Option CoapCode
  pub content_format : ContentFormat
  pub options : List (ℕ × Bytes)
  pub payload : Bytes

-- CoapResponse{}
abbrev pub no_response : CoapResponse
no_response = record { code = none; content_format = tlv_lwm2m; options = []; payload = [] }

abbrev pub respond : CoapCode → CoapResponse
respond code = record no_response { code = some code }

abbrev success_code : Option CoapCode → Bool
success_code none = false
success_code (some code) = leb 64 (code_value code) && ltb (code_value code) 128

unfoldable pub is_success : CoapResponse → Bool
is_success response = success_code response.code

-- The loop of get_location_path over the options that are left, with `location` so far.
unfoldable pub location_of : Bytes → List (ℕ × Bytes) → Bytes
location_of location [] = location
location_of [] ((option_num, value) ∷ options) =
    location_of (if option_num == 8 then value else []) options
location_of (c ∷ location) ((option_num, value) ∷ options) =
    location_of (if option_num == 8 then (c ∷ location) ++ b'/' ∷ value else c ∷ location) options

rooted : Bytes → Bytes
rooted [] = []
rooted (c ∷ location) = b'/' ∷ c ∷ location

unfoldable pub get_location_path : CoapResponse → Bytes
unfolding location_of rooted
get_location_path response = rooted (location_of [] response.options)

abbrev pub coap_method_to_string : CoapMethod → String
coap_method_to_string get = "GET"
coap_method_to_string post = "POST"
coap_method_to_string put = "PUT"
coap_method_to_string delete = "DELETE"

abbrev pub coap_code_to_string : CoapCode → String
coap_code_to_string created = "2.01 Created"
coap_code_to_string deleted = "2.02 Deleted"
coap_code_to_string valid = "2.03 Valid"
coap_code_to_string changed = "2.04 Changed"
coap_code_to_string content = "2.05 Content"
coap_code_to_string bad_request = "4.00 Bad Request"
coap_code_to_string unauthorized = "4.01 Unauthorized"
coap_code_to_string bad_option = "4.02 Bad Option"
coap_code_to_string forbidden = "4.03 Forbidden"
coap_code_to_string not_found = "4.04 Not Found"
coap_code_to_string method_not_allowed = "4.05 Method Not Allowed"
coap_code_to_string not_acceptable = "4.06 Not Acceptable"
coap_code_to_string internal_server_error = "5.00 Internal Server Error"
coap_code_to_string not_implemented = "5.01 Not Implemented"
coap_code_to_string bad_gateway = "5.02 Bad Gateway"
coap_code_to_string service_unavailable = "5.03 Service Unavailable"
coap_code_to_string gateway_timeout = "5.04 Gateway Timeout"
coap_code_to_string (other_code n) = "Unknown"
