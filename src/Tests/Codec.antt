-- ===== src/Tests/Codec.antt =====
-- src/codec/tlv.cpp on concrete bytes.
use ferriot.Prelude.{
  ℕ, zero, suc, ◌+◌, ◌*◌, ◌%◌, ◌^◌, ◌≤◌, ◌<◌, ◌≡◌, refl, true, arith, List, [], ◌∷◌, ◌++◌, Bytes,
  codes, length, take,
}
use ferriot.Prelude.Int.{negsuc}
use ferriot.Result.{Result, ok, is_err, ◌>>=◌}
use ferriot.Types.{resource_path, instance_path}
use ferriot.Resource.{ResourceValue, ResourceType, integer, string, object_link, get_resource_type}
use ferriot.Tlv.{
  TlvRecords, tlv_record, no_records, record_and, object_instance, resource_instance, resource,
}
use ferriot.Tlv.Serialize.{serialize, serialize_int}
use ferriot.Tlv.Deserialize.{decode_resource}
use ferriot.Tlv.Encoder.{encode_record, type_byte, id_field, length_field, encode_instance}
use ferriot.Tlv.Decoder.{
  parse_record, parse_records, parse_id, parse_length, parse_value, children_of, decode,
  decode_impl, decode_levels, max_tlv_depth,
}
use ferriot.Tlv.Values.{decode_resource-serialize}
use ferriot.Tlv.Framing.{parse_record-encode_record, parse_record-encode_record_overflow}
use ferriot.Tlv.Loop.{decode_body, decode_impl-decode_body}
use ferriot.Tlv.Structure.{framed, leaves, Fits, decode-encode_instance}
use ferriot.Tlv.Depth.{depth, count, decode_bounds}
use ferriot.Tlv.Truncation.{parse_record-take-is_err}

-- Nested values that are not looked into.
abbrev flat : Bytes → Result TlvRecords
flat bytes = ok no_records

abbrev pub widen_zero : ℕ → ℕ
widen_zero bits = 0

abbrev pub one_record : Bytes
one_record = 193 ∷ 5 ∷ 42 ∷ []

abbrev resources : List (ℕ × ResourceValue)
resources = (0, string (codes "coap://h")) ∷ (300, integer (negsuc 299)) ∷ []

pub decode-one :
    decode one_record ≡ ok (record_and (tlv_record resource 5 (42 ∷ []) no_records) no_records)
unfolding decode decode_impl decode_levels parse_records parse_record parse_id parse_length
    parse_value
decode-one = refl

encode_record-long : encode_record resource 300 (1 ∷ 2 ∷ []) ≡ 226 ∷ 1 ∷ 44 ∷ 1 ∷ 2 ∷ []
unfolding encode_record type_byte id_field length_field
encode_record-long = refl

decode_resource-serialize_example :
    decode_resource widen_zero
      (serialize (object_link (resource_path 3 0 9)))
      ResourceType.object_link
    ≡ ok (object_link (instance_path 3 0))
unfolding get_resource_type
decode_resource-serialize_example =
    decode_resource-serialize widen_zero (object_link (resource_path 3 0 9))
      (omega arith, omega arith)

parse_record-encode_record_example :
    parse_record flat (encode_record resource 300 (1 ∷ 2 ∷ []) ++ 255 ∷ [])
    ≡ ok (
      tlv_record resource 300 (1 ∷ 2 ∷ []) (children_of flat resource (1 ∷ 2 ∷ [])),
      length (encode_record resource 300 (1 ∷ 2 ∷ [])),
    )
parse_record-encode_record_example =
    parse_record-encode_record flat resource 300 (1 ∷ 2 ∷ []) (255 ∷ []) (omega arith) (omega arith)

-- A value of any length.
unfoldable zeros : ℕ → Bytes
zeros zero = []
zeros (suc n) = 0 ∷ zeros n

length-zeros : (n : ℕ) → length (zeros n) ≡ n
unfolding zeros
length-zeros zero = refl
length-zeros (suc n) = omega (arith, length-zeros n)

parse_record-encode_record_overflow_example :
    (n : ℕ) × (parse_record flat (encode_record resource 5 (zeros (2 ^ 24 + 3)))
      ≡ ok (
        tlv_record resource 5 (take (length (zeros (2 ^ 24 + 3)) % 2 ^ 24) (zeros (2 ^ 24 + 3))) (
            children_of flat resource
              (take (length (zeros (2 ^ 24 + 3)) % 2 ^ 24) (zeros (2 ^ 24 + 3)))),
        n,
      ))
    × (n + 2 ^ 24 ≤ length (encode_record resource 5 (zeros (2 ^ 24 + 3))))
parse_record-encode_record_overflow_example =
    parse_record-encode_record_overflow flat resource 5 (zeros (2 ^ 24 + 3)) (omega arith)
      (omega (arith, length-zeros (2 ^ 24 + 3)))

resources-Fits : Fits resources
unfolding serialize serialize_int
resources-Fits = (omega arith, omega arith, (omega arith, omega arith, tt))

length-framed_lt :
    (length (framed resource resources) < 2 ^ 24)
    × (length (framed resource_instance resources) < 2 ^ 24)
unfolding encode_record type_byte id_field length_field serialize serialize_int
length-framed_lt = (omega arith, omega arith)

decode-encode_instance_example :
    (encode_instance 1 resources >>= decode)
    ≡ ok (
        record_and
          (tlv_record object_instance 1 (framed resource resources) (leaves resource resources))
          no_records)
decode-encode_instance_example =
    decode-encode_instance 1 resources (omega arith) resources-Fits length-framed_lt.0

decode_bounds_example :
    (depth (record_and (tlv_record resource 5 (42 ∷ []) no_records) no_records) ≤ max_tlv_depth + 1)
    × (2 * count (record_and (tlv_record resource 5 (42 ∷ []) no_records) no_records)
        ≤ length one_record)
decode_bounds_example = decode_bounds one_record decode-one

decode_impl-decode_body_example : decode_impl one_record 8 ≡ decode_body decode_impl one_record 8
decode_impl-decode_body_example = decode_impl-decode_body one_record 8

parse_record-take-is_err_example :
    is_err (parse_record flat (take 4 (encode_record resource 300 (1 ∷ 2 ∷ [])))) ≡ true
unfolding encode_record type_byte id_field length_field
parse_record-take-is_err_example =
    parse_record-take-is_err flat resource 300 (1 ∷ 2 ∷ []) 4 (omega arith) (omega arith)
      (omega arith)
