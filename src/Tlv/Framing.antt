-- ===== src/Tlv/Framing.antt =====
-- Round trip of the record framing of src/codec/tlv.cpp: encode_record and parse_record.
use ferriot.Prelude.{
  ℕ, ◌+◌, ◌%◌, ◌^◌, ◌≤◌, ◌<◌, ◌≡◌, refl, ap, sym, ◌∙◌, arith, ltb, ◌==◌, if◌then◌else◌, [], ◌++◌,
  Bytes, length, take, length-append, take-append_length, append_assoc, append-nil,
}
use ferriot.Prelude.Words.{shr}
use ferriot.Result.{Result, ok}
use ferriot.Tlv.{
  TlvType, TlvRecords, object_instance, resource_instance, multi_resource, resource, type_bits,
  type_of_bits, tlv_record,
}
use ferriot.Tlv.Encoder.{encode_record, length_bits, id_field, length_field, type_byte}
use ferriot.Tlv.Decoder.{parse_id, parse_length, parse_value, parse_record, children_of}

-- The value of the length field that encode_record writes: the length, in 24 bits at most.
abbrev pub length_24 : ℕ → ℕ
length_24 len = if ltb len 65536 then len else len % 2 ^ 24

type_of_bits-type_bits : (t : TlvType) → type_of_bits (type_bits t) ≡ t
type_of_bits-type_bits object_instance = refl
type_of_bits-type_bits _ = refl

type_bits-type_byte : (t : TlvType) (id len : ℕ) → type_of_bits (shr (type_byte t id len) 6 % 4) ≡ t
unfolding type_byte length_bits
type_bits-type_byte t id len = ap type_of_bits (bits t) ∙ type_of_bits-type_bits t
  where
    bits : (t : TlvType) → shr (type_byte t id len) 6 % 4 ≡ type_bits t
    bits object_instance = ground arith
    bits resource_instance = ground arith
    bits multi_resource = ground arith
    bits resource = ground arith

id_bit-type_byte : (t : TlvType) (id len : ℕ) → (shr (type_byte t id len) 5 % 2 == 1) ≡ ltb 255 id
unfolding type_byte length_bits
id_bit-type_byte object_instance id len = ground arith
id_bit-type_byte _ id len = ground arith

parse_id-id_field :
    (id pos : ℕ) (rest : Bytes)
    → id < 2 ^ 16
    → parse_id (ltb 255 id) pos (id_field id ++ rest) ≡ ok (id, pos + length (id_field id), rest)
unfolding parse_id id_field
parse_id-id_field id pos rest h = ground arith

parse_length-length_field :
    (t : TlvType) (id len pos : ℕ) (rest : Bytes)
    → parse_length
        (shr (type_byte t id len) 3 % 4)
        (type_byte t id len % 8)
        pos
        (length_field len ++ rest)
      ≡ ok (length_24 len, pos + length (length_field len), rest)
unfolding parse_length length_field type_byte length_bits
parse_length-length_field object_instance id len pos rest = ground arith
parse_length-length_field _ id len pos rest = ground arith

parse_value-append :
    (nested : Bytes → Result TlvRecords) (t : TlvType) (id pos : ℕ) (v rest : Bytes)
    → parse_value nested t id (length v, pos, v ++ rest)
      ≡ ok (tlv_record t id v (children_of nested t v), pos + length v)
unfolding parse_value
parse_value-append nested t id pos v rest =
    rw take-append_length (ground (arith, length-append v rest))

length_24_small : (len : ℕ) → len < 2 ^ 24 → length_24 len ≡ len
length_24_small len h = ground arith

length_24_large : (len : ℕ) → 2 ^ 24 ≤ len → length_24 len ≡ len % 2 ^ 24
length_24_large len h = ground arith

length-encode_record :
    (t : TlvType) (id : ℕ) (v : Bytes)
    → length (encode_record t id v)
      ≡ 1 + length (id_field id) + length (length_field (length v)) + length v
unfolding encode_record
length-encode_record t id v = omega (
  arith,
  length-append (id_field id) (length_field (length v) ++ v),
  length-append (length_field (length v)) v,
)

-- The bytes that `encode_record` writes before the value.
abbrev pub header_length : ℕ → ℕ → ℕ
header_length id len = 1 + length (id_field id) + length (length_field len)

-- Whatever the value's length, the header reads back, with the length that its field holds.
parse_record-header :
    (nested : Bytes → Result TlvRecords) (t : TlvType) (id : ℕ) (v rest : Bytes)
    → id < 2 ^ 16
    → parse_record nested (encode_record t id v ++ rest)
      ≡ parse_value nested t id (length_24 (length v), header_length id (length v), v ++ rest)
unfolding parse_record encode_record
parse_record-header nested t id v rest hid = rw (
  append_assoc,
  append_assoc,
  id_bit-type_byte t id (length v),
  parse_id-id_field id 1 (length_field (length v) ++ (v ++ rest)) hid,
  parse_length-length_field t id (length v) (1 + length (id_field id)) (v ++ rest),
  type_bits-type_byte t id (length v),
)

-- `parse_record` reads a record that `encode_record` wrote off the front of any input: the type,
-- the identifier and the value are those written, the children are those of the value, and exactly
-- the record's bytes are consumed. The identifier is a uint16_t and the value is shorter than
-- 2 ^ 24 bytes.
pub parse_record-encode_record :
    (nested : Bytes → Result TlvRecords) (t : TlvType) (id : ℕ) (v rest : Bytes)
    → id < 2 ^ 16
    → length v < 2 ^ 24
    → parse_record nested (encode_record t id v ++ rest)
      ≡ ok (tlv_record t id v (children_of nested t v), length (encode_record t id v))
parse_record-encode_record nested t id v rest hid hv =
    parse_record-header nested t id v rest hid
    ∙ rw (length_24_small (length v) hv, parse_value-append)
        (ap (λ n. ok (tlv_record t id v (children_of nested t v), n))
          (sym (length-encode_record t id v)))

parse_value-prefix :
    (nested : Bytes → Result TlvRecords) (t : TlvType) (id k pos : ℕ) (v : Bytes)
    → k ≤ length v
    → parse_value nested t id (k, pos, v)
      ≡ ok (tlv_record t id (take k v) (children_of nested t (take k v)), pos + k)
unfolding parse_value
parse_value-prefix nested t id k pos v h = ground arith

-- A value of 2 ^ 24 bytes or more, under a uint16_t identifier, does not survive: its record reads back as one with the first
-- (length mod 2 ^ 24) bytes of the value, which ends before the bytes written do, so that the
-- other bytes are left to be read as records.
pub parse_record-encode_record_overflow :
    (nested : Bytes → Result TlvRecords) (t : TlvType) (id : ℕ) (v : Bytes)
    → id < 2 ^ 16
    → 2 ^ 24 ≤ length v
    → (n : ℕ) × (parse_record nested (encode_record t id v)
        ≡ ok (
          tlv_record t id
              (take (length v % 2 ^ 24) v)
              (children_of nested t (take (length v % 2 ^ 24) v)),
          n,
        ))
      × (n + 2 ^ 24 ≤ length (encode_record t id v))
parse_record-encode_record_overflow nested t id v hid hv = (
  header_length id (length v) + length v % 2 ^ 24,
  ap (parse_record nested) (sym (append-nil (encode_record t id v)))
      ∙ parse_record-header nested t id v [] hid
      ∙ rw (append-nil, length_24_large (length v) hv)
          (parse_value-prefix nested t id (length v % 2 ^ 24) (header_length id (length v)) v
            (omega arith)),
  omega (arith, length-encode_record t id v),
)
