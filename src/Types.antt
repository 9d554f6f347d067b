-- ===== src/Types.antt =====
-- include/lwm2m/types.hpp and src/types.cpp: object paths, printed and parsed.
--
-- The strong identifier types (StrongType<uint16_t, Tag>) are their numbers, below 2 ^ 16.
pub mod Decimal
pub mod Path
use ferriot.Prelude.{ℕ, Bool, true, false, not, ◌&&◌, Option, none, some}

pub record ObjectPath : Type 0 where
  pub object_id : ℕ
  pub instance_id : Option ℕ
  pub resource_id : Option ℕ
  pub resource_instance_id : Option ℕ

-- ObjectPath::object, ::instance and ::resource.
abbrev pub object_path : ℕ → ObjectPath
object_path oid = record {
  object_id = oid;
  instance_id = none;
  resource_id = none;
  resource_instance_id = none;
}

abbrev pub instance_path : ℕ → ℕ → ObjectPath
instance_path oid iid = record {
  object_id = oid;
  instance_id = some iid;
  resource_id = none;
  resource_instance_id = none;
}

abbrev pub resource_path : ℕ → ℕ → ℕ → ObjectPath
resource_path oid iid rid = record {
  object_id = oid;
  instance_id = some iid;
  resource_id = some rid;
  resource_instance_id = none;
}

abbrev pub has_value {ℓ} : {A : Type ℓ} → Option A → Bool
has_value none = false
has_value (some a) = true

unfoldable pub is_object : ObjectPath → Bool
is_object p = not (has_value p.instance_id)

unfoldable pub is_instance : ObjectPath → Bool
is_instance p = has_value p.instance_id && not (has_value p.resource_id)

unfoldable pub is_resource : ObjectPath → Bool
is_resource p = has_value p.resource_id && not (has_value p.resource_instance_id)

unfoldable pub is_resource_instance : ObjectPath → Bool
is_resource_instance p = has_value p.resource_instance_id
