-- ===== src/Object/Announced.antt =====
-- src/objects/: the types that the standard objects announce of their resources.
use ferriot.Prelude.{ℕ, ◌≡◌, ◌≢◌, Option, some, arith}
use ferriot.Prelude.Int.{ℤ}
use ferriot.Result.{ok}
use ferriot.Resource.{ResourceValue, get_resource_type}
use ferriot.Object.{Object}
use ferriot.Object.Standard.{Standard, standard_objects}
use ferriot.Objects.Security.Laws.{security_resource_type}
use ferriot.Objects.Server.Laws.{server_resource_type}
use ferriot.Objects.Firmware.Laws.{firmware_resource_type}
use ferriot.Objects.Connectivity.Laws.{connectivity_resource_type}

-- A value that is read through a standard object other than Device has the type that the object
-- announces for the resource.
pub get_resource_type-read_resource :
    (now : ℤ) (s : Standard) (oid iid rid : ℕ) (riid : Option ℕ) {object : Object Standard}
    {v : ResourceValue}
    → standard_objects now oid ≡ some object
    → oid ≢ 3
    → object.read_resource s iid rid riid ≡ ok v
    → object.get_resource_type s iid rid ≡ some (get_resource_type v)
unfolding standard_objects
get_resource_type-read_resource now s oid iid rid riid {object} {v} found other reads = ground (
  arith,
  security_resource_type s.security iid rid riid {v = v},
  server_resource_type s.server iid rid riid {v = v},
  connectivity_resource_type s.connectivity iid rid riid {v = v},
  firmware_resource_type s.firmware_update iid rid riid {v = v},
)
