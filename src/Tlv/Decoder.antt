-- ===== src/Tlv/Decoder.antt =====
-- src/codec/tlv.cpp: the framing half of TlvDecoder.
--
-- A pointer into the buffer with the length that is left is the list of the bytes that are left,
-- and goes with the position `pos` from the record's first byte. A test such as `pos + 1 >= len`
-- is then the test that the list has fewer than two bytes.
use ferriot.Prelude.{
  ℕ, zero, suc, ◌+◌, ◌-◌, ◌*◌, ◌%◌, ◌^◌, Bool, true, false, [], ◌∷◌, ltb, ◌==◌, if◌then◌else◌,
  Bytes, length, take, drop,
}
use ferriot.Prelude.Words.{shr}
use ferriot.Result.{Result, ok, err, fail, decoding_error, map, ◌>>=◌}
use ferriot.Tlv.{
  TlvType, TlvRecord, TlvRecords, object_instance, multi_resource, type_of_bits, tlv_record,
  no_records, record_and,
}

-- A field's value, the position behind it and the bytes from there.
abbrev pub Field : Type 0
Field = ℕ × ℕ × Bytes

-- uint16_t and size_t words from bytes.
unfoldable pub parse_id : Bool → ℕ → Bytes → Result Field
parse_id true pos (a ∷ b ∷ rest) = ok ((a * 2 ^ 8 + b) % 2 ^ 16, pos + 2, rest)
parse_id false pos (a ∷ rest) = ok (a, pos + 1, rest)
parse_id _ pos _ = fail decoding_error "Truncated TLV"

-- By the length type, bits 4-3 of the type byte; `inline` is bits 2-0.
unfoldable pub parse_length : ℕ → ℕ → ℕ → Bytes → Result Field
parse_length zero inline pos rest = ok (inline, pos, rest)
parse_length (suc zero) inline pos (a ∷ rest) = ok (a, pos + 1, rest)
parse_length (suc (suc zero)) inline pos (a ∷ b ∷ rest) = ok (a * 2 ^ 8 + b, pos + 2, rest)
parse_length (suc (suc (suc n))) inline pos (a ∷ b ∷ c ∷ rest) =
    ok (a * 2 ^ 16 + b * 2 ^ 8 + c, pos + 3, rest)
parse_length _ inline pos _ = fail decoding_error "Truncated TLV"

-- `type == ObjectInstance || type == MultiResource`
abbrev pub has_children : TlvType → Bool
has_children object_instance = true
has_children multi_resource = true
has_children _ = false

abbrev pub or_none : Result TlvRecords → TlvRecords
or_none (ok rs) = rs
or_none (err e) = no_records

-- A nested value that does not decode leaves `children` empty.
unfoldable pub children_of : (Bytes → Result TlvRecords) → TlvType → Bytes → TlvRecords
children_of nested type value =
    let inner = nested value in if has_children type then or_none inner else no_records

-- From `// Extract value` on, at `pos` with `rest` from there.
unfoldable pub parse_value :
    (Bytes → Result TlvRecords) → TlvType → ℕ → Field → Result (TlvRecord × ℕ)
unfolding children_of
parse_value nested type id (value_length, pos, rest) =
    let value = take value_length rest in
    if ltb (length rest) value_length
    then fail decoding_error "Truncated TLV value"
    else ok (tlv_record type id value (children_of nested type value), pos + value_length)

-- `nested` is `decode_impl(·, depth + 1)`. The second part of the result is the bytes consumed.
unfoldable pub parse_record : (Bytes → Result TlvRecords) → Bytes → Result (TlvRecord × ℕ)
parse_record nested [] = fail decoding_error "Empty TLV data"
parse_record nested (type_byte ∷ rest) =
    parse_id (shr type_byte 5 % 2 == 1) 1 rest >>= λ (id, pos, rest').
    parse_length (shr type_byte 3 % 4) (type_byte % 8) pos rest' >>= λ field.
    parse_value nested (type_of_bits (shr type_byte 6 % 4)) id field

-- `while (pos < data.size())`, on the bytes from `pos`. Each record takes two bytes or more, so the
-- number of bytes is fuel enough.
unfoldable pub parse_records : (Bytes → Result TlvRecords) → ℕ → Bytes → Result TlvRecords
unfolding parse_record
parse_records nested fuel [] = ok no_records
parse_records nested zero (b ∷ bs) = ok no_records
parse_records nested (suc fuel) (b ∷ bs) = parse_record nested (b ∷ bs) >>= λ (r, consumed).
    map (record_and r) (parse_records nested fuel (drop consumed (b ∷ bs)))

abbrev pub max_tlv_depth : ℕ
max_tlv_depth = 8

-- decode_impl by the nesting levels that are left: depth d leaves max_tlv_depth + 1 - d of them,
-- and none are left where `depth > kMaxTlvDepth`.
unfoldable pub decode_levels : ℕ → Bytes → Result TlvRecords
unfolding parse_records
decode_levels zero bytes = fail decoding_error "TLV nesting too deep"
decode_levels (suc levels) bytes = parse_records (decode_levels levels) (length bytes) bytes

unfoldable pub decode_impl : Bytes → ℕ → Result TlvRecords
unfolding decode_levels
decode_impl bytes depth = decode_levels (max_tlv_depth + 1 - depth) bytes

unfoldable pub decode : Bytes → Result TlvRecords
unfolding decode_impl
decode bytes = decode_impl bytes 0
