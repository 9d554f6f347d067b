-- ===== src/Tlv/Encoder.antt =====
-- src/codec/tlv.cpp: the framing half of TlvEncoder. The bits of the type byte do not overlap, so
-- each `|=` is written `+`.
use ferriot.Prelude.{ℕ, ◌+◌, ◌*◌, ◌^◌, ◌%◌, List, [], ◌∷◌, ◌++◌, ltb, if◌then◌else◌, Bytes, length}
use ferriot.Prelude.Words.{shr, low8}
use ferriot.Result.{Result, ok, ◌>>=◌}
use ferriot.Resource.{ResourceValue}
use ferriot.Tlv.{TlvType, type_bits, object_instance, resource_instance, multi_resource, resource}
use ferriot.Tlv.Serialize.{serialize}

-- Bits 4 to 0 of the type byte.
unfoldable pub length_bits : ℕ → ℕ
length_bits len =
    if ltb len 8 then len else if ltb len 256 then 0x08 else if ltb len 65536 then 0x10 else 0x18

unfoldable pub id_field : ℕ → Bytes
id_field id = if ltb 255 id then low8 (shr id 8) ∷ low8 id ∷ [] else low8 id ∷ []

unfoldable pub length_field : ℕ → Bytes
length_field len =
    if ltb len 8
    then []
    else if ltb len 256
    then low8 len ∷ []
    else if ltb len 65536
    then low8 (shr len 8) ∷ low8 len ∷ []
    else low8 (shr len 16) ∷ low8 (shr len 8) ∷ low8 len ∷ []

unfoldable pub type_byte : TlvType → ℕ → ℕ → ℕ
unfolding length_bits
type_byte type id len = type_bits type * 2 ^ 6 + (if ltb 255 id then 0x20 else 0) + length_bits len

unfoldable pub encode_record : TlvType → ℕ → Bytes → Bytes
encode_record type id value =
    type_byte type id (length value) ∷ (id_field id ++ (length_field (length value) ++ value))

unfoldable pub encode_resource : ℕ → ResourceValue → Result Bytes
unfolding encode_record serialize
encode_resource rid value = ok (encode_record resource rid (serialize value))

-- `data[0] = (data[0] & 0x3F) | (ResourceInstance << 6)`, if there is a first byte.
unfoldable pub as_resource_instance : Bytes → Bytes
as_resource_instance [] = []
as_resource_instance (b ∷ bs) = (b % 2 ^ 6 + type_bits resource_instance * 2 ^ 6) ∷ bs

-- The loops of encode_multi_resource and encode_instance over what is left, with `inner` so far.
unfoldable pub encode_instances : Bytes → List (ℕ × ResourceValue) → Result Bytes
unfolding encode_resource as_resource_instance
encode_instances inner [] = ok inner
encode_instances inner ((riid, value) ∷ rest) = encode_resource riid value >>= λ bytes.
    encode_instances (inner ++ as_resource_instance bytes) rest

unfoldable pub encode_multi_resource : ℕ → List (ℕ × ResourceValue) → Result Bytes
unfolding encode_instances encode_record
encode_multi_resource rid instances =
    encode_instances [] instances >>= λ inner. ok (encode_record multi_resource rid inner)

unfoldable pub encode_resources : Bytes → List (ℕ × ResourceValue) → Result Bytes
unfolding encode_resource
encode_resources inner [] = ok inner
encode_resources inner ((rid, value) ∷ rest) =
    encode_resource rid value >>= λ bytes. encode_resources (inner ++ bytes) rest

unfoldable pub encode_instance : ℕ → List (ℕ × ResourceValue) → Result Bytes
unfolding encode_resources encode_record
encode_instance iid resources =
    encode_resources [] resources >>= λ inner. ok (encode_record object_instance iid inner)
