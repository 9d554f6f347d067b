-- ===== src/Tlv/Serialize.antt =====
-- src/codec/tlv.cpp: the value serializers of TlvEncoder. A signed value's bytes are those of its
-- 64-bit two's complement pattern, where an arithmetic shift followed by `& 0xFF` reads them.
use ferriot.Prelude.{
  ℕ, zero, suc, ◌+◌, ◌-◌, ◌*◌, ◌/◌, Bool, ◌&&◌, Option, none, some, [], ◌∷◌, leb, if◌then◌else◌,
  Bytes,
}
use ferriot.Prelude.Int.{ℤ, pos, negsuc, leb_ℤ}
use ferriot.Prelude.Words.{word64, shr, low8}
use ferriot.Types.{ObjectPath}
use ferriot.Resource.{
  ResourceValue, monostate, boolean, integer, unsigned_integer, float, string, opaque, time,
  object_link,
}

unfoldable pub serialize_bool : Bool → Bytes
serialize_bool b = (if b then 1 else 0) ∷ []

abbrev two_bytes : ℕ → Bytes
two_bytes w = low8 (shr w 8) ∷ low8 w ∷ []

abbrev four_bytes : ℕ → Bytes
four_bytes w = low8 (shr w 24) ∷ low8 (shr w 16) ∷ low8 (shr w 8) ∷ low8 w ∷ []

abbrev eight_bytes : ℕ → Bytes
eight_bytes w =
    low8 (shr w 56)
    ∷ low8 (shr w 48)
    ∷ low8 (shr w 40)
    ∷ low8 (shr w 32)
    ∷ low8 (shr w 24)
    ∷ low8 (shr w 16)
    ∷ low8 (shr w 8)
    ∷ low8 w
    ∷ []

-- lo <= v && v <= hi.
abbrev within : ℤ → ℤ → ℤ → Bool
within lo hi v = leb_ℤ lo v && leb_ℤ v hi

unfoldable pub serialize_int : ℤ → Bytes
serialize_int v =
    if within (negsuc 127) (pos 127) v
    then low8 (word64 v) ∷ []
    else if within (negsuc 32767) (pos 32767) v
    then two_bytes (word64 v)
    else if within (negsuc 8388607) (pos 8388607) v
    then four_bytes (word64 v)
    else eight_bytes (word64 v)

unfoldable pub serialize_uint : ℕ → Bytes
serialize_uint w =
    if leb w 255
    then low8 w ∷ []
    else if leb w 65535
    then two_bytes w
    else if leb w 16777215
    then four_bytes w
    else eight_bytes w

-- `for (int i = 7; i >= 0; --i)`, by the number of bytes left to write.
float_bytes : ℕ → ℕ → Bytes
float_bytes zero bits = []
float_bytes (suc i) bits = low8 (shr bits (i * 8)) ∷ float_bytes i bits

-- A double is its bit pattern already.
unfoldable pub serialize_float : ℕ → Bytes
unfolding float_bytes
serialize_float bits = float_bytes 8 bits

unfoldable pub serialize_string : Bytes → Bytes
serialize_string s = s

abbrev pub ticks_per_second : ℕ
ticks_per_second = 1_000_000_000

-- duration_cast<seconds>, which drops the fraction: it rounds towards zero.
unfoldable pub to_seconds : ℤ → ℤ
to_seconds (pos n) = pos (n / ticks_per_second)
to_seconds (negsuc n) =
    let q = (n + 1) / ticks_per_second in if leb q 0 then pos 0 else negsuc (q - 1)

unfoldable pub serialize_time : ℤ → Bytes
unfolding to_seconds serialize_int
serialize_time t = serialize_int (to_seconds t)

abbrev instance_or_zero : Option ℕ → ℕ
instance_or_zero none = 0
instance_or_zero (some iid) = iid

unfoldable pub serialize_objlink : ObjectPath → Bytes
serialize_objlink p = low8 (shr oid 8) ∷ low8 oid ∷ low8 (shr iid 8) ∷ low8 iid ∷ []
  where
    oid : ℕ
    oid = p.object_id

    iid : ℕ
    iid = instance_or_zero p.instance_id

-- The visitor of encode_resource.
unfoldable pub serialize : ResourceValue → Bytes
unfolding serialize_bool serialize_int serialize_uint serialize_float serialize_string
    serialize_time serialize_objlink
serialize monostate = []
serialize (boolean b) = serialize_bool b
serialize (integer i) = serialize_int i
serialize (unsigned_integer n) = serialize_uint n
serialize (float f) = serialize_float f
serialize (string s) = serialize_string s
serialize (opaque v) = v
serialize (time t) = serialize_time t
serialize (object_link p) = serialize_objlink p
