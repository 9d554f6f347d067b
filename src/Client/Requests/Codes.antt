-- ===== src/Client/Requests/Codes.antt =====
-- src/client.cpp: which requests are answered with a code, and which change an object.
use ferriot.Prelude.{
  present, ℕ, ◌≡◌, refl, ap, Bool, true, false, not, ◌&&◌, Option, none, some, ◌⊎◌, Bytes, arith,
  inl, inr,
}
use ferriot.Result.{Result, Error, ok, err, is_ok}
use ferriot.Types.{ObjectPath}
use ferriot.Types.Path.{parse}
use ferriot.Resource.{ResourceValue}
use ferriot.Tlv.{
  object_instance, resource_instance, multi_resource, resource, TlvRecords, tlv_record, no_records,
  record_and,
}
use ferriot.Tlv.Decoder.{decode}
use ferriot.Object.{Object}
use ferriot.Transport.{CoapMethod, get, post, put, delete, CoapRequest, respond, changed}
use ferriot.Client.Requests.{
  Target, of_instance, of_resource_instance, target, read_target, read_object, execute_target,
  delete_target, write_ignored, expected, write_records, write_target, write_object, process_read,
  process_write, process_execute, process_delete, process_post, dispatch, handle_parsed,
  handle_incoming_request,
}

abbrev pub is_resource_instance : Target → Bool
is_resource_instance (of_resource_instance iid rid riid) = true
is_resource_instance _ = false

module _ {S : Type 0} (objects : ℕ → Option (Object S)) where
  -- The requests on a resource instance that get as far as the choice by level.
  abbrev pub reaches_levels : CoapMethod → ObjectPath → Bytes → Bool
  reaches_levels get path payload = present (objects path.object_id)
  reaches_levels put path payload = present (objects path.object_id) && is_ok (decode payload)
  reaches_levels post path payload = present (objects path.object_id) && is_ok (decode payload)
  reaches_levels delete path payload = false

module _ {S : Type 0} (widen : ℕ → ℕ) (objects : ℕ → Option (Object S)) where
  -- A request with a path is answered with a code, except where the path names a resource instance
  -- of an object that is there and the method is GET, or PUT or POST with a payload that decodes:
  -- the response then leaves with the code that nothing has assigned.
  pub handle_incoming_request_code :
      (s : S) (request : CoapRequest) {path : ObjectPath}
      → parse request.uri_path ≡ some path
      → present (handle_incoming_request widen objects s request).1.code
        ≡ not (
            is_resource_instance (target path)
            && reaches_levels objects request.method path request.payload)
  unfolding handle_incoming_request handle_parsed dispatch process_read process_write
      process_execute process_delete process_post read_object read_target execute_target
      delete_target write_object write_target
  handle_incoming_request_code s request {path} h = rw h (ground arith)

  -- A GET changes nothing, nor does a request whose path does not parse.
  pub handle_incoming_request-get :
      (s : S) (request : CoapRequest)
      → (request.method ≡ get) ⊎ (parse request.uri_path ≡ none)
      → (handle_incoming_request widen objects s request).0 ≡ s
  unfolding handle_incoming_request handle_parsed dispatch
  handle_incoming_request-get s request (inl h) = ground arith
  handle_incoming_request-get s request (inr h) = rw h refl

module _ {S : Type 0} (widen : ℕ → ℕ) (object : Object S) (s : S) (iid : ℕ) where
  write_ignored-refused :
      (rid : ℕ) (r : Result ResourceValue)
      → ((rid : ℕ) (v : ResourceValue)
          → (e : Error) × (object.write_resource s iid rid none v ≡ (s, err e)))
      → write_ignored widen object s iid rid r ≡ s
  write_ignored-refused rid (ok v) h = ap (λ x. x.0) (h rid v).1
  write_ignored-refused rid (err e) h = refl

  write_records-refused :
      (rs : TlvRecords)
      → ((rid : ℕ) (v : ResourceValue)
          → (e : Error) × (object.write_resource s iid rid none v ≡ (s, err e)))
      → write_records widen object s iid rs ≡ s
  unfolding write_records
  write_records-refused no_records h = refl
  write_records-refused (record_and (tlv_record resource id value children) rest) h =
      rw (write_ignored-refused id (expected widen object s iid id value) h)
        (write_records-refused rest h)
  write_records-refused (record_and (tlv_record object_instance id value children) rest) h =
      write_records-refused rest h
  write_records-refused (record_and (tlv_record resource_instance id value children) rest) h =
      write_records-refused rest h
  write_records-refused (record_and (tlv_record multi_resource id value children) rest) h =
      write_records-refused rest h

  -- A write of an instance is answered with 2.04 Changed even where the object refuses the write of
  -- every resource and nothing changes.
  pub process_write-refused :
      (objects : ℕ → Option (Object S)) (path : ObjectPath) (payload : Bytes) {rs : TlvRecords}
      → objects path.object_id ≡ some object
      → target path ≡ of_instance iid
      → decode payload ≡ ok rs
      → ((rid : ℕ) (v : ResourceValue)
          → (e : Error) × (object.write_resource s iid rid none v ≡ (s, err e)))
      → process_write widen objects s path payload ≡ (s, respond changed)
  unfolding process_write write_object write_target
  process_write-refused objects path payload {rs} found at_instance decoded refused =
      rw (found, at_instance, decoded)
        (ap (λ x. (x, respond changed)) (write_records-refused rs refused))
