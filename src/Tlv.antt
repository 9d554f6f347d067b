-- ===== src/Tlv.antt =====
-- include/lwm2m/codec/tlv.hpp: the record types of the TLV codec. The children have the codec of
-- src/codec/tlv.cpp, its values, its framing, and the theorems on each.
pub mod Serialize
pub mod Deserialize
pub mod Encoder
pub mod Decoder
pub mod Values
pub mod Framing
pub mod Loop
pub mod Structure
pub mod Depth
pub mod Truncation
use ferriot.Prelude.{ℕ, zero, suc, Bytes}

pub data TlvType : Type 0 where
  object_instance resource_instance multi_resource resource : TlvType

-- The enumerators' values, 0b00 to 0b11.
abbrev pub type_bits : TlvType → ℕ
type_bits object_instance = 0
type_bits resource_instance = 1
type_bits multi_resource = 2
type_bits resource = 3

-- static_cast<TlvType>(n) for n in two bits.
abbrev pub type_of_bits : ℕ → TlvType
type_of_bits zero = object_instance
type_of_bits (suc zero) = resource_instance
type_of_bits (suc (suc zero)) = multi_resource
type_of_bits _ = resource

-- A record holds the vector of its children, so the vector stands in the block: its constructors
-- are the empty vector and a first record with the others.
mutual
  pub data TlvRecord : Type 0 where
    tlv_record : TlvType → ℕ → Bytes → TlvRecords → TlvRecord

  pub data TlvRecords : Type 0 where
    no_records : TlvRecords
    record_and : TlvRecord → TlvRecords → TlvRecords
