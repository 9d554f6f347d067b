-- ===== src/Client/Requests.antt =====
-- src/client.cpp: the answers to a server's requests, handle_incoming_request and the process_
-- functions that it calls.
--
-- `objects` is objects_, by identifier, over the one state of all objects. The lines that print
-- to stderr are left out. A path that is parsed gives a level only below one that it gives, so
-- `target` never meets a resource without its instance, where the source would read an empty
-- optional.
pub mod Codes
pub mod RoundTrip
pub mod PutGet
pub mod WriteBack
use ferriot.Prelude.{
  ℕ, Bool, true, false, Option, none, some, List, [], ◌∷◌, ◌++◌, if◌then◌else◌, Bytes,
}
use ferriot.Result.{
  Result, ok, err, Error, ErrorCode, not_found, method_not_allowed, bad_request, unauthorized,
  forbidden, value_or,
}
use ferriot.Types.{ObjectPath}
use ferriot.Types.Path.{parse}
use ferriot.Resource.{ResourceValue, ResourceType}
use ferriot.Tlv.{TlvType, TlvRecords, tlv_record, no_records, record_and, resource}
use ferriot.Tlv.Encoder.{encode_resource, encode_instance}
use ferriot.Tlv.Decoder.{decode}
use ferriot.Tlv.Deserialize.{decode_resource}
use ferriot.Object.{Object}
use ferriot.Transport
use ferriot.Transport.{
  CoapMethod, get, post, put, delete, CoapCode, content, changed, created, deleted,
  internal_server_error, CoapRequest, CoapResponse, no_response, respond,
}

unfoldable pub error_to_coap_code : ErrorCode → CoapCode
error_to_coap_code not_found = CoapCode.not_found
error_to_coap_code method_not_allowed = CoapCode.method_not_allowed
error_to_coap_code bad_request = CoapCode.bad_request
error_to_coap_code unauthorized = CoapCode.unauthorized
error_to_coap_code forbidden = CoapCode.forbidden
error_to_coap_code _ = internal_server_error

-- What a path names: the tests is_object, is_instance and is_resource. A resource instance is
-- none of the three.
pub data Target : Type 0 where
  whole_object : Target
  of_instance : ℕ → Target
  of_resource : ℕ → ℕ → Target
  of_resource_instance : ℕ → ℕ → ℕ → Target

unfoldable pub levels : Option ℕ → Option ℕ → Option ℕ → Target
levels none _ _ = whole_object
levels (some iid) none _ = of_instance iid
levels (some iid) (some rid) none = of_resource iid rid
levels (some iid) (some rid) (some riid) = of_resource_instance iid rid riid

abbrev pub target : ObjectPath → Target
target path = levels path.instance_id path.resource_id path.resource_instance_id

-- `result ? code : error_to_coap_code(result.error().code())`
abbrev pub code_by : {A : Type 0} → CoapCode → Result A → CoapCode
code_by code (ok a) = code
code_by code (err e) = error_to_coap_code e.code

abbrev pub or_string : Option ResourceType → ResourceType
or_string none = ResourceType.string
or_string (some type) = type

-- `if (result) { resources.emplace_back(…); }`, before the resources that follow.
abbrev pub readable_and :
    ℕ → Result ResourceValue → List (ℕ × ResourceValue) → List (ℕ × ResourceValue)
readable_and rid (ok v) rest = (rid, v) ∷ rest
readable_and rid (err e) rest = rest

abbrev pub encoded_answer : Result Bytes → CoapResponse
encoded_answer (ok bytes) = record (respond content) { payload = bytes }
encoded_answer (err e) = respond internal_server_error

abbrev pub read_answer : ℕ → Result ResourceValue → CoapResponse
read_answer rid (err e) = respond (error_to_coap_code e.code)
read_answer rid (ok v) = encoded_answer (encode_resource rid v)

module _ {S : Type 0} where
  abbrev pub answer : {A : Type 0} → CoapCode → S × Result A → S × CoapResponse
  answer code (s, r) = (s, respond (code_by code r))

  -- The loop of encode_instance_tlv over the resources that are left.
  unfoldable pub readable : Object S → S → ℕ → List ℕ → List (ℕ × ResourceValue)
  readable object s iid [] = []
  readable object s iid (rid ∷ rids) =
      readable_and rid (object.read_resource s iid rid none) (readable object s iid rids)

  unfoldable pub encode_instance_tlv : Object S → S → ℕ → Bytes
  encode_instance_tlv object s iid =
      value_or (encode_instance iid (readable object s iid (object.list_resources s iid))) []

  -- The loop over the instances of an object that are left.
  unfoldable pub encode_instances_tlv : Object S → S → List ℕ → Bytes
  encode_instances_tlv object s [] = []
  encode_instances_tlv object s (iid ∷ iids) =
      encode_instance_tlv object s iid ++ encode_instances_tlv object s iids

  unfoldable pub read_target : Object S → S → Target → CoapResponse
  read_target object s whole_object = record (respond content) {
    payload = encode_instances_tlv object s (object.list_instances s);
  }
  read_target object s (of_instance iid) =
      if object.has_instance s iid
      then record (respond content) { payload = encode_instance_tlv object s iid }
      else respond Transport.not_found
  read_target object s (of_resource iid rid) = read_answer rid (object.read_resource s iid rid none)
  read_target object s (of_resource_instance iid rid riid) = no_response

  read_object : Option (Object S) → S → Target → CoapResponse
  unfolding read_target
  read_object none s t = respond Transport.not_found
  read_object (some object) s t = read_target object s t

  unfoldable pub execute_target : Option (Object S) → S → Target → Bytes → S × CoapResponse
  execute_target none s (of_resource iid rid) args = (s, respond Transport.not_found)
  execute_target (some object) s (of_resource iid rid) args =
      answer changed (object.execute_resource s iid rid args)
  execute_target _ s _ args = (s, respond Transport.method_not_allowed)

  unfoldable pub delete_target : Option (Object S) → S → Target → S × CoapResponse
  delete_target none s (of_instance iid) = (s, respond Transport.not_found)
  delete_target (some object) s (of_instance iid) = answer deleted (object.delete_instance s iid)
  delete_target _ s _ = (s, respond Transport.method_not_allowed)

  -- `widen` is the conversion of a float to a double in the TLV decoder.
  module _ (widen : ℕ → ℕ) where
    abbrev pub write_decoded : Object S → S → ℕ → ℕ → Result ResourceValue → S × CoapResponse
    write_decoded object s iid rid (ok v) = answer changed (object.write_resource s iid rid none v)
    write_decoded object s iid rid (err e) = (s, respond Transport.bad_request)

    expected : Object S → S → ℕ → ℕ → Bytes → Result ResourceValue
    expected object s iid rid bytes =
        decode_resource widen bytes (or_string (object.get_resource_type s iid rid))

    -- One record of the loop over an instance's records, whatever the write answers.
    abbrev pub write_ignored : Object S → S → ℕ → ℕ → Result ResourceValue → S
    write_ignored object s iid rid (ok v) = (object.write_resource s iid rid none v).0
    write_ignored object s iid rid (err e) = s

    unfoldable pub write_records : Object S → S → ℕ → TlvRecords → S
    unfolding expected
    write_records object s iid no_records = s
    write_records object s iid (record_and (tlv_record resource id value _) rest) =
        write_records object (write_ignored object s iid id (expected object s iid id value)) iid
          rest
    write_records object s iid (record_and _ rest) = write_records object s iid rest

    unfoldable pub write_target : Object S → S → Target → TlvRecords → S × CoapResponse
    unfolding expected write_records
    write_target object s whole_object rs = answer created (object.create_instance s none)
    write_target object s (of_instance iid) rs = (write_records object s iid rs, respond changed)
    write_target object s (of_resource iid rid) no_records = (s, respond Transport.bad_request)
    write_target object s (of_resource iid rid) (record_and (tlv_record _ _ value _) _) =
        write_decoded object s iid rid (expected object s iid rid value)
    write_target object s (of_resource_instance iid rid riid) rs = (s, no_response)

    unfoldable pub write_object :
        Option (Object S) → S → Target → Result TlvRecords → S × CoapResponse
    unfolding write_target
    write_object none s t records = (s, respond Transport.not_found)
    write_object (some object) s t (err e) = (s, respond Transport.bad_request)
    write_object (some object) s t (ok records) = write_target object s t records

    module _ (objects : ℕ → Option (Object S)) where
      unfoldable pub process_read : S → ObjectPath → CoapResponse
      unfolding read_object
      process_read s path = read_object (objects path.object_id) s (target path)

      unfoldable pub process_write : S → ObjectPath → Bytes → S × CoapResponse
      unfolding write_object
      process_write s path payload =
          write_object (objects path.object_id) s (target path) (decode payload)

      unfoldable pub process_execute : S → ObjectPath → Bytes → S × CoapResponse
      unfolding execute_target
      process_execute s path payload =
          execute_target (objects path.object_id) s (target path) payload

      unfoldable pub process_delete : S → ObjectPath → S × CoapResponse
      unfolding delete_target
      process_delete s path = delete_target (objects path.object_id) s (target path)

      -- `path_opt->is_resource()` for a POST.
      unfoldable pub process_post : S → ObjectPath → Target → Bytes → S × CoapResponse
      unfolding process_execute process_write
      process_post s path (of_resource iid rid) payload = process_execute s path payload
      process_post s path _ payload = process_write s path payload

      unfoldable pub dispatch : CoapMethod → S → ObjectPath → Bytes → S × CoapResponse
      unfolding process_read process_write process_post process_delete
      dispatch get s path payload = (s, process_read s path)
      dispatch put s path payload = process_write s path payload
      dispatch post s path payload = process_post s path (target path) payload
      dispatch delete s path payload = process_delete s path

      unfoldable pub handle_parsed : S → CoapRequest → Option ObjectPath → S × CoapResponse
      unfolding dispatch
      handle_parsed s request none = (s, respond Transport.bad_request)
      handle_parsed s request (some path) = dispatch request.method s path request.payload

      unfoldable pub handle_incoming_request : S → CoapRequest → S × CoapResponse
      unfolding handle_parsed
      handle_incoming_request s request = handle_parsed s request (parse request.uri_path)
