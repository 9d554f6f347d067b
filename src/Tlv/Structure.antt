-- ===== src/Tlv/Structure.antt =====
-- Round trips of whole encodings of src/codec/tlv.cpp: resources, object instances and multiple
-- resources, encoded and decoded.
use ferriot.Prelude.{
  ℕ, ◌+◌, ◌-◌, ◌^◌, ◌≤◌, ◌<◌, ◌≡◌, refl, ap, sym, ◌∙◌, arith, List, [], ◌∷◌, ◌++◌, Bytes, length,
  false, drop, drop-append_length, append_assoc, append-nil,
}
use ferriot.Result.{Result, ok, map, ◌>>=◌}
use ferriot.Resource.{ResourceValue}
use ferriot.Tlv.{
  TlvType, TlvRecord, TlvRecords, tlv_record, no_records, record_and, object_instance,
  resource_instance, multi_resource, resource,
}
use ferriot.Tlv.Serialize.{serialize}
use ferriot.Tlv.Encoder.{
  encode_record, type_byte, id_field, length_field, length_bits, as_resource_instance,
  encode_resource, encode_resources, encode_instances, encode_instance, encode_multi_resource,
}
use ferriot.Tlv.Framing.{parse_record-encode_record}
use ferriot.Tlv.Decoder.{children_of, has_children, decode_impl, decode, max_tlv_depth}
use ferriot.Tlv.Loop.{decode_impl-within, decode_impl-decode_body}

-- A record that `encode_record` wrote decodes to the record first, and then the rest.
pub decode_impl-encode_record :
    (t : TlvType) (id : ℕ) (v rest : Bytes) (depth : ℕ)
    → depth ≤ max_tlv_depth
    → id < 2 ^ 16
    → length v < 2 ^ 24
    → decode_impl (encode_record t id v ++ rest) depth
      ≡ map
          (record_and (tlv_record t id v (children_of (λ w. decode_impl w (depth + 1)) t v)))
          (decode_impl rest depth)
unfolding encode_record
decode_impl-encode_record t id v rest depth hd hid hv =
    decode_impl-within depth (max_tlv_depth - depth) (type_byte t id (length v))
      ((id_field id ++ (length_field (length v) ++ v)) ++ rest) (omega arith) (omega arith)
    ∙ ap
        (λ (m : Result (TlvRecord × ℕ)). m >>= λ (r, n).
          map (record_and r) (decode_impl (drop n (encode_record t id v ++ rest)) depth))
        (parse_record-encode_record (λ w. decode_impl w (depth + 1)) t id v rest hid hv)
    ∙ ap
        (λ bytes.
          map (record_and (tlv_record t id v (children_of (λ w. decode_impl w (depth + 1)) t v)))
            (decode_impl bytes depth))
        (drop-append_length (encode_record t id v) rest)

-- Values as records of one type without children, and the bytes of these records.
abbrev pub leaves : TlvType → List (ℕ × ResourceValue) → TlvRecords
leaves t [] = no_records
leaves t ((id, v) ∷ rest) = record_and (tlv_record t id (serialize v) no_records) (leaves t rest)

abbrev pub framed : TlvType → List (ℕ × ResourceValue) → Bytes
framed t [] = []
framed t ((id, v) ∷ rest) = encode_record t id (serialize v) ++ framed t rest

-- Identifiers are uint16_t, and a value's length fits the length field.
abbrev pub Fits : List (ℕ × ResourceValue) → Type 0
Fits [] = Unit
Fits ((id, v) ∷ rest) = (id < 2 ^ 16) × (length (serialize v) < 2 ^ 24) × Fits rest

decode_impl-nil : (depth : ℕ) → depth ≤ max_tlv_depth → decode_impl [] depth ≡ ok no_records
decode_impl-nil depth h = ground (arith, decode_impl-decode_body [] depth)

children_of-leaf :
    (nested : Bytes → Result TlvRecords) (t : TlvType) (v : Bytes)
    → has_children t ≡ false
    → children_of nested t v ≡ no_records
unfolding children_of
children_of-leaf nested t v h = rw h

decode_impl-framed :
    (t : TlvType) (rs : List (ℕ × ResourceValue)) (depth : ℕ)
    → has_children t ≡ false
    → depth ≤ max_tlv_depth
    → Fits rs
    → decode_impl (framed t rs) depth ≡ ok (leaves t rs)
decode_impl-framed t [] depth leaf hd h = decode_impl-nil depth hd
decode_impl-framed t ((id, v) ∷ rs) depth leaf hd h =
    decode_impl-encode_record t id (serialize v) (framed t rs) depth hd h.0 h.1
    ∙ rw (
      children_of-leaf (λ w. decode_impl w (depth + 1)) t (serialize v) leaf,
      decode_impl-framed t rs depth leaf hd h.2,
    )

decode_lem : (bytes : Bytes) → decode bytes ≡ decode_impl bytes 0
unfolding decode
decode_lem bytes = refl

-- A record on its own.
decode-encode_record :
    (t : TlvType) (id : ℕ) (v : Bytes)
    → id < 2 ^ 16
    → length v < 2 ^ 24
    → decode (encode_record t id v)
      ≡ ok (record_and (tlv_record t id v (children_of (λ w. decode_impl w 1) t v)) no_records)
decode-encode_record t id v hid hv =
    ap decode (sym (append-nil (encode_record t id v)))
    ∙ decode_lem (encode_record t id v ++ [])
    ∙ decode_impl-encode_record t id v [] 0 (omega arith) hid hv
    ∙ rw (decode_impl-nil 0 (omega arith))

encode_resources-framed :
    (inner : Bytes) (rs : List (ℕ × ResourceValue))
    → encode_resources inner rs ≡ ok (inner ++ framed resource rs)
unfolding encode_resources
encode_resources-framed inner [] = rw append-nil
encode_resources-framed inner ((id, v) ∷ rs) =
    encode_resources-framed (inner ++ encode_record resource id (serialize v)) rs ∙ rw append_assoc

as_resource_instance-encode_record :
    (id : ℕ) (v : Bytes)
    → as_resource_instance (encode_record resource id v) ≡ encode_record resource_instance id v
unfolding as_resource_instance encode_record type_byte length_bits
as_resource_instance-encode_record id v = ground arith

encode_instances-framed :
    (inner : Bytes) (rs : List (ℕ × ResourceValue))
    → encode_instances inner rs ≡ ok (inner ++ framed resource_instance rs)
unfolding encode_instances
encode_instances-framed inner [] = rw append-nil
encode_instances-framed inner ((id, v) ∷ rs) =
    rw (as_resource_instance-encode_record id (serialize v)) (
      encode_instances-framed (inner ++ encode_record resource_instance id (serialize v)) rs
      ∙ rw append_assoc)

-- Encoding one resource and decoding the bytes gives one Resource record with the identifier and
-- the value's bytes, where the identifier is a uint16_t and these are fewer than 2 ^ 24.
pub decode-encode_resource :
    (rid : ℕ) (v : ResourceValue)
    → Fits ((rid, v) ∷ [])
    → (encode_resource rid v >>= decode) ≡ ok (leaves resource ((rid, v) ∷ []))
unfolding encode_resource
decode-encode_resource rid v h =
    decode-encode_record resource rid (serialize v) h.0 h.1
    ∙ rw (children_of-leaf (λ w. decode_impl w 1) resource (serialize v) refl)

-- Encoding an object instance and decoding the bytes gives one ObjectInstance record, whose
-- children are the Resource records of the resources, in order. The identifiers are uint16_t, and
-- each value, and all the records inside together, are shorter than 2 ^ 24 bytes.
pub decode-encode_instance :
    (iid : ℕ) (rs : List (ℕ × ResourceValue))
    → iid < 2 ^ 16
    → Fits rs
    → length (framed resource rs) < 2 ^ 24
    → (encode_instance iid rs >>= decode)
      ≡ ok (
          record_and
            (tlv_record object_instance iid (framed resource rs) (leaves resource rs))
            no_records)
unfolding encode_instance children_of
decode-encode_instance iid rs hid h hlen = rw (encode_resources-framed [] rs) (
    decode-encode_record object_instance iid (framed resource rs) hid hlen
    ∙ rw (decode_impl-framed resource rs 1 refl (omega arith) h))

-- Encoding a multiple resource and decoding the bytes gives one MultiResource record, whose
-- children are the ResourceInstance records of the instances, in order. The identifiers are uint16_t, and
-- each value, and all the records inside together, are shorter than 2 ^ 24 bytes.
pub decode-encode_multi_resource :
    (rid : ℕ) (rs : List (ℕ × ResourceValue))
    → rid < 2 ^ 16
    → Fits rs
    → length (framed resource_instance rs) < 2 ^ 24
    → (encode_multi_resource rid rs >>= decode)
      ≡ ok (
          record_and
            (tlv_record multi_resource rid
              (framed resource_instance rs)
              (leaves resource_instance rs))
            no_records)
unfolding encode_multi_resource children_of
decode-encode_multi_resource rid rs hid h hlen = rw (encode_instances-framed [] rs) (
    decode-encode_record multi_resource rid (framed resource_instance rs) hid hlen
    ∙ rw (decode_impl-framed resource_instance rs 1 refl (omega arith) h))
