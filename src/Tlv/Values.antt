-- ===== src/Tlv/Values.antt =====
-- Round trips of the value serializers of src/codec/tlv.cpp.
use ferriot.Prelude.{
  ℕ, ◌+◌, ◌-◌, ◌*◌, ◌/◌, ◌^◌, ◌<◌, ◌≡◌, refl, ap, inl, inr, true, false, arith, leb, if◌then◌else◌,
  Option, some, none, [], ◌∷◌, Bool-cases,
}
use ferriot.Prelude.Int.{ℤ, pos, negsuc}
use ferriot.Prelude.Words.{IsInt64, shr, low8}
use ferriot.Result.{ok, map}
use ferriot.Types.{instance_path}
use ferriot.Resource.{
  ResourceValue, monostate, boolean, integer, unsigned_integer, float, string, opaque, time,
  object_link, get_resource_type,
}
use ferriot.Tlv.Serialize.{
  serialize_int, serialize_uint, serialize_float, serialize_time, serialize_objlink, serialize,
  to_seconds, ticks_per_second,
}
use ferriot.Tlv.Deserialize.{
  deserialize_int, deserialize_uint, big_endian, deserialize_float, deserialize_time,
  deserialize_objlink, decode_resource, of_seconds,
}

big_endian_two : (w : ℕ) → w < 2 ^ 16 → big_endian 64 0 (low8 (shr w 8) ∷ low8 w ∷ []) ≡ w
unfolding big_endian
big_endian_two w h = omega arith

big_endian_four :
    (w : ℕ)
    → w < 2 ^ 32
    → big_endian 64 0 (low8 (shr w 24) ∷ low8 (shr w 16) ∷ low8 (shr w 8) ∷ low8 w ∷ []) ≡ w
unfolding big_endian
big_endian_four w h = omega arith

big_endian_eight :
    (w : ℕ)
    → w < 2 ^ 64
    → big_endian 64 0 (
        low8 (shr w 56)
        ∷ low8 (shr w 48)
        ∷ low8 (shr w 40)
        ∷ low8 (shr w 32)
        ∷ low8 (shr w 24)
        ∷ low8 (shr w 16)
        ∷ low8 (shr w 8)
        ∷ low8 w
        ∷ [])
      ≡ w
unfolding big_endian
big_endian_eight w h = omega arith

pub deserialize_uint-serialize_uint :
    (w : ℕ) → w < 2 ^ 64 → deserialize_uint (serialize_uint w) ≡ ok w
unfolding deserialize_uint serialize_uint
deserialize_uint-serialize_uint w h =
    ground (arith, big_endian_two w, big_endian_four w, big_endian_eight w)

pub deserialize_int-serialize_int : (v : ℤ) → IsInt64 v → deserialize_int (serialize_int v) ≡ ok v
unfolding deserialize_int serialize_int
deserialize_int-serialize_int (pos n) h = ground arith
deserialize_int-serialize_int (negsuc n) h = ground arith

deserialize_float-serialize_float :
    (widen : ℕ → ℕ) (f : ℕ) → f < 2 ^ 64 → deserialize_float widen (serialize_float f) ≡ ok f
unfolding deserialize_float serialize_float
deserialize_float-serialize_float widen f h =
    let unshifted : f / 1 ≡ f = omega arith in rw unshifted (ap ok (big_endian_eight f h))

-- The time point at the whole second towards zero.
abbrev pub whole_seconds : ℤ → ℤ
whole_seconds (pos n) = pos (n / ticks_per_second * ticks_per_second)
whole_seconds (negsuc n) =
    let q = (n + 1) / ticks_per_second in
    if leb q 0 then pos 0 else negsuc (q * ticks_per_second - 1)

of_seconds-to_seconds : (t : ℤ) → IsInt64 t → of_seconds (to_seconds t) ≡ whole_seconds t
unfolding of_seconds to_seconds
of_seconds-to_seconds (pos n) h = ground arith
of_seconds-to_seconds (negsuc n) h = ground arith

to_seconds-IsInt64 : (t : ℤ) → IsInt64 t → IsInt64 (to_seconds t)
unfolding to_seconds
to_seconds-IsInt64 (pos n) h = omega arith
to_seconds-IsInt64 (negsuc n) h = elim (Bool-cases (leb ((n + 1) / ticks_per_second) 0)) [
  | inl e ↦ rw e (omega arith)
  | inr e ↦ rw e (omega arith)
]

deserialize_time-serialize_time :
    (t : ℤ) → IsInt64 t → deserialize_time (serialize_time t) ≡ ok (whole_seconds t)
unfolding deserialize_time serialize_time
deserialize_time-serialize_time t h =
    rw (deserialize_int-serialize_int (to_seconds t) (to_seconds-IsInt64 t h))
      (ap ok (of_seconds-to_seconds t h))

-- The numbers that the source's types hold: uint16_t identifiers, 64-bit integers and doubles.
abbrev pub IsId? : Option ℕ → Type 0
IsId? none = Unit
IsId? (some n) = n < 2 ^ 16

abbrev pub IsStorable : ResourceValue → Type 0
IsStorable (integer i) = IsInt64 i
IsStorable (unsigned_integer n) = n < 2 ^ 64
IsStorable (float f) = f < 2 ^ 64
IsStorable (time t) = IsInt64 t
IsStorable (object_link p) = (p.object_id < 2 ^ 16) × IsId? p.instance_id
IsStorable _ = Unit

-- What is left of a value on the wire: a time loses its fraction of a second, and a link keeps
-- two levels, with instance 0 where it had none.
abbrev pub link_instance : Option ℕ → ℕ
link_instance none = 0
link_instance (some iid) = iid

abbrev pub stored : ResourceValue → ResourceValue
stored (time t) = time (whole_seconds t)
stored (object_link p) = object_link (instance_path p.object_id (link_instance p.instance_id))
stored v = v

link_bytes :
    (o : ℕ) (i : ℕ)
    → o < 2 ^ 16
    → i < 2 ^ 16
    → deserialize_objlink (low8 (shr o 8) ∷ low8 o ∷ low8 (shr i 8) ∷ low8 i ∷ [])
      ≡ ok (instance_path o i)
unfolding deserialize_objlink
link_bytes o i ho hi = ground arith

deserialize_objlink-serialize_objlink :
    (o : ℕ) (i r s : Option ℕ)
    → o < 2 ^ 16
    → IsId? i
    → deserialize_objlink (
        serialize_objlink
          (record { object_id = o; instance_id = i; resource_id = r; resource_instance_id = s }))
      ≡ ok (instance_path o (link_instance i))
unfolding serialize_objlink
deserialize_objlink-serialize_objlink o none r s ho hi = link_bytes o 0 ho (omega arith)
deserialize_objlink-serialize_objlink o (some i) r s ho hi = link_bytes o i ho hi

-- Decoding the bytes of a value at the value's own type gives the value back, for every value that
-- the source's types can hold, up to the fraction of a second of a time and the lower levels of a
-- link.
pub decode_resource-serialize :
    (widen : ℕ → ℕ) (v : ResourceValue)
    → IsStorable v
    → decode_resource widen (serialize v) (get_resource_type v) ≡ ok (stored v)
unfolding decode_resource serialize get_resource_type
decode_resource-serialize widen monostate h = refl
decode_resource-serialize widen (boolean true) h = refl
decode_resource-serialize widen (boolean false) h = refl
decode_resource-serialize widen (integer i) h =
    ap (map ResourceValue.integer) (deserialize_int-serialize_int i h)
decode_resource-serialize widen (unsigned_integer n) h =
    ap (map ResourceValue.unsigned_integer) (deserialize_uint-serialize_uint n h)
decode_resource-serialize widen (float f) h =
    ap (map ResourceValue.float) (deserialize_float-serialize_float widen f h)
decode_resource-serialize widen (string s) h = refl
decode_resource-serialize widen (opaque v) h = refl
decode_resource-serialize widen (time t) h =
    ap (map ResourceValue.time) (deserialize_time-serialize_time t h)
decode_resource-serialize widen (object_link p) h = ap (map ResourceValue.object_link) (
    deserialize_objlink-serialize_objlink p.object_id p.instance_id p.resource_id
      p.resource_instance_id h.0 h.1)
