-- ===== src/Client/Requests/RoundTrip.antt =====
-- src/client.cpp with src/codec/tlv.cpp: a resource's value through a request and its response.
use ferriot.Prelude.{arith, ℕ, ◌≡◌, refl, ap, sym, Option, none, some, [], ◌∷◌, Bytes, ◌∙◌}
use ferriot.Result.{ok, ◌>>=◌}
use ferriot.Types.{ObjectPath}
use ferriot.Resource.{ResourceValue, get_resource_type}
use ferriot.Tlv.{resource}
use ferriot.Tlv.Encoder.{encode_resource}
use ferriot.Tlv.Decoder.{decode}
use ferriot.Tlv.Values.{IsStorable, stored, decode_resource-serialize}
use ferriot.Tlv.Structure.{Fits, leaves, decode-encode_resource}
use ferriot.Object.{Object}
use ferriot.Transport.{content, changed, tlv_lwm2m}
use ferriot.Client.Requests.{
  of_resource, target, answer, expected, write_target, write_object, process_write, read_target,
  read_object, process_read,
}

module _ {S : Type 0} (widen : ℕ → ℕ) (objects : ℕ → Option (Object S)) (s : S)
    (path : ObjectPath) where
  -- A resource that is read is answered with 2.05 Content and the bytes of one Resource record: the
  -- resource's identifier with the value that the object gives, as long as that fits a record.
  pub process_read-decode :
      {object : Object S} {iid rid : ℕ} {v : ResourceValue}
      → objects path.object_id ≡ some object
      → target path ≡ of_resource iid rid
      → object.read_resource s iid rid none ≡ ok v
      → Fits ((rid, v) ∷ [])
      → ((process_read widen objects s path).code ≡ some content)
        × (decode (process_read widen objects s path).payload
            ≡ ok (leaves resource ((rid, v) ∷ [])))
  unfolding process_read read_object read_target encode_resource
  process_read-decode {object} {iid} {rid} {v} found at reads fits =
      rw (found, at, reads) (refl, decode-encode_resource rid v fits)

  pub process_read-format : (process_read widen objects s path).content_format ≡ tlv_lwm2m
  unfolding process_read read_object read_target encode_resource
  process_read-format = ground arith

  -- Writing a resource with the bytes that a value is encoded to, at the type that the object
  -- announces for the resource, is answered as the object answers to the write of that value, up
  -- to what is stored of a time and a link. The value is one that the source's types can hold, and it
  -- fits a record. The identifier in the bytes is not looked at.
  pub process_write-encode_resource :
      {object : Object S} {iid rid : ℕ} (other_id : ℕ) (v : ResourceValue) {payload : Bytes}
      → objects path.object_id ≡ some object
      → target path ≡ of_resource iid rid
      → object.get_resource_type s iid rid ≡ some (get_resource_type v)
      → IsStorable v
      → Fits ((other_id, v) ∷ [])
      → encode_resource other_id v ≡ ok payload
      → process_write widen objects s path payload
        ≡ answer changed (object.write_resource s iid rid none (stored v))
  unfolding process_write write_object write_target expected
  process_write-encode_resource {object} {iid} {rid} other_id v {payload} found at typed storable
        fits encoded =
      rw (found, at, decoded, typed, decode_resource-serialize widen v storable) refl
    where
      decoded : decode payload ≡ ok (leaves resource ((other_id, v) ∷ []))
      decoded = sym (ap (λ r. r >>= decode) encoded) ∙ decode-encode_resource other_id v fits
