-- ===== src/Tlv/Deserialize.antt =====
-- src/codec/tlv.cpp: the value deserializers of TlvDecoder and decode_resource.
--
-- `(value << 8) | byte` is written `value * 2 ^ 8 + byte`, since the low eight bits of the shifted
-- value are clear, and wraps at the width of `value`. The sign-extension mask has only bits above
-- those of the value read, so `|=` is written `+`.
use ferriot.Prelude.{
  ℕ, ◌+◌, ◌-◌, ◌*◌, ◌/◌, ◌%◌, ◌^◌, Bool, false, not, ◌&&◌, ◌||◌, [], ◌∷◌, ltb, ◌==◌, if◌then◌else◌,
  Bytes, length,
}
use ferriot.Prelude.Int.{ℤ}
use ferriot.Prelude.Words.{word64, signed64}
use ferriot.Result.{Result, ok, fail, decoding_error, map}
use ferriot.Types.{ObjectPath, instance_path}
use ferriot.Resource.{ResourceValue, ResourceType}
use ferriot.Resource.ResourceValue.{monostate}
use ferriot.Tlv.Serialize.{ticks_per_second}

unfoldable pub deserialize_bool : Bytes → Result Bool
deserialize_bool [] = fail decoding_error "Empty boolean value"
deserialize_bool (b ∷ _) = ok (not (b == 0))

-- The loop `value = (value << 8) | data[i]` on a word of w bits.
unfoldable pub big_endian : ℕ → ℕ → Bytes → ℕ
big_endian w value [] = value
big_endian w value (b ∷ bs) = big_endian w ((value * 2 ^ 8 + b) % 2 ^ w) bs

-- `(data[0] & 0x80) != 0`
unfoldable pub is_negative : Bytes → Bool
is_negative [] = false
is_negative (b ∷ _) = b / 2 ^ 7 % 2 == 1

unfoldable pub bad_length : ℕ → Bool
bad_length len = len == 0 || ltb 8 len

unfoldable pub deserialize_int : Bytes → Result ℤ
unfolding big_endian is_negative bad_length
deserialize_int bytes =
    let len = length bytes in
    let value = big_endian 64 0 bytes in
    if bad_length len
    then fail decoding_error "Invalid integer length"
    else if is_negative bytes && ltb len 8
    then ok (signed64 (value + (2 ^ 64 - 2 ^ (len * 8))))
    else ok (signed64 value)

unfoldable pub deserialize_uint : Bytes → Result ℕ
unfolding big_endian bad_length
deserialize_uint bytes =
    if bad_length (length bytes)
    then fail decoding_error "Invalid integer length"
    else ok (big_endian 64 0 bytes)

unfoldable pub deserialize_string : Bytes → Result Bytes
deserialize_string bytes = ok bytes

-- time_point{seconds{s}}: the product by the ticks of a second wraps at 64 bits.
unfoldable pub of_seconds : ℤ → ℤ
of_seconds s = signed64 (word64 s * ticks_per_second % 2 ^ 64)

unfoldable pub deserialize_time : Bytes → Result ℤ
unfolding deserialize_int of_seconds
deserialize_time bytes = map of_seconds (deserialize_int bytes)

unfoldable pub deserialize_objlink : Bytes → Result ObjectPath
deserialize_objlink (a ∷ b ∷ c ∷ d ∷ []) =
    ok (instance_path ((a * 2 ^ 8 + b) % 2 ^ 16) ((c * 2 ^ 8 + d) % 2 ^ 16))
deserialize_objlink _ = fail decoding_error "Invalid object link length"

-- `widen` is the conversion of a float to a double, on their bit patterns.
module _ (widen : ℕ → ℕ) where
  unfoldable pub deserialize_float : Bytes → Result ℕ
  unfolding big_endian
  deserialize_float bytes =
      if length bytes == 4
      then ok (widen (big_endian 32 0 bytes))
      else if length bytes == 8
      then ok (big_endian 64 0 bytes)
      else fail decoding_error "Invalid float length"

  unfoldable pub decode_resource : Bytes → ResourceType → Result ResourceValue
  unfolding deserialize_bool deserialize_int deserialize_uint deserialize_float deserialize_string
      deserialize_time deserialize_objlink
  decode_resource bytes ResourceType.boolean = map ResourceValue.boolean (deserialize_bool bytes)
  decode_resource bytes ResourceType.integer = map ResourceValue.integer (deserialize_int bytes)
  decode_resource bytes ResourceType.unsigned_integer =
      map ResourceValue.unsigned_integer (deserialize_uint bytes)
  decode_resource bytes ResourceType.float = map ResourceValue.float (deserialize_float bytes)
  decode_resource bytes ResourceType.string = map ResourceValue.string (deserialize_string bytes)
  decode_resource bytes ResourceType.opaque = ok (ResourceValue.opaque bytes)
  decode_resource bytes ResourceType.time = map ResourceValue.time (deserialize_time bytes)
  decode_resource bytes ResourceType.object_link =
      map ResourceValue.object_link (deserialize_objlink bytes)
  decode_resource bytes ResourceType.none_type = ok monostate
