-- ===== src/Resource.antt =====
-- include/lwm2m/resource.hpp and src/resource.cpp: resource values, their types, and a resource
-- with its access rights and handlers.
--
-- A std::string is the list of its bytes, a double is its IEEE 754 bit pattern, and a time point
-- is the count of nanoseconds since the epoch (the tick of libstdc++'s system_clock).
-- A std::function that may be empty is an Option, and its effect on the application is its result.
pub mod Access
use Prim.Native.Nat.{bit_and, bit_or}
use ferriot.Prelude.{ℕ, Bool, true, false, Option, none, some, Bytes, ◌==◌, if◌then◌else◌}
use ferriot.Prelude.Int.{ℤ}
use ferriot.Result.{Result, ok, fail, method_not_allowed, not_implemented}
use ferriot.Types.{ObjectPath}

pub data ResourceValue : Type 0 where
  monostate : ResourceValue
  boolean : Bool → ResourceValue
  integer : ℤ → ResourceValue
  unsigned_integer : ℕ → ResourceValue
  float : ℕ → ResourceValue
  string : Bytes → ResourceValue
  opaque : Bytes → ResourceValue
  time : ℤ → ResourceValue
  object_link : ObjectPath → ResourceValue

pub data ResourceType : Type 0 where
  none_type boolean integer unsigned_integer float string opaque time object_link : ResourceType

unfoldable pub get_resource_type : ResourceValue → ResourceType
get_resource_type monostate = ResourceType.none_type
get_resource_type (boolean b) = ResourceType.boolean
get_resource_type (integer i) = ResourceType.integer
get_resource_type (unsigned_integer n) = ResourceType.unsigned_integer
get_resource_type (float f) = ResourceType.float
get_resource_type (string s) = ResourceType.string
get_resource_type (opaque v) = ResourceType.opaque
get_resource_type (time t) = ResourceType.time
get_resource_type (object_link p) = ResourceType.object_link

-- enum class ResourceAccess, and the bits of its members.
pub data ResourceAccess : Type 0 where
  no_access read write execute read_write : ResourceAccess

abbrev pub access_bits : ResourceAccess → ℕ
access_bits no_access = 0
access_bits read = 1
access_bits write = 2
access_bits execute = 4
access_bits read_write = bit_or 1 2

-- has_access, on the bits of the rights (`operator|` makes any combination).
unfoldable pub has_access : ℕ → ResourceAccess → Bool
has_access perms required = bit_and perms (access_bits required) == access_bits required

pub record ResourceDefinition : Type 0 where
  pub id : ℕ
  pub name : Bytes
  pub type : ResourceType
  pub access : ℕ
  pub multiple_instances : Bool
  pub mandatory : Bool

abbrev pub ReadHandler : Type 0
ReadHandler = ℕ → Option ℕ → Result ResourceValue

abbrev pub WriteHandler : Type 0
WriteHandler = ℕ → Option ℕ → ResourceValue → Result (Unit {0})

abbrev pub ExecuteHandler : Type 0
ExecuteHandler = ℕ → Bytes → Result (Unit {0})

pub record Resource : Type 0 where
  pub def : ResourceDefinition
  pub read_handler : Option ReadHandler
  pub write_handler : Option WriteHandler
  pub execute_handler : Option ExecuteHandler

-- Resource::Resource.
unfoldable pub make : ResourceDefinition → Resource
make def = record { def = def; read_handler = none; write_handler = none; execute_handler = none }

unfoldable pub on_read : ReadHandler → Resource → Resource
on_read h r = record r { read_handler = some h }

unfoldable pub on_write : WriteHandler → Resource → Resource
on_write h r = record r { write_handler = some h }

unfoldable pub on_execute : ExecuteHandler → Resource → Resource
on_execute h r = record r { execute_handler = some h }

call_read : Option ReadHandler → ℕ → Option ℕ → Result ResourceValue
call_read none iid riid = fail not_implemented "No read handler registered"
call_read (some h) iid riid = h iid riid

unfoldable pub read_value : Resource → ℕ → Option ℕ → Result ResourceValue
unfolding has_access call_read
read_value r iid riid =
    if has_access r.def.access read
    then call_read r.read_handler iid riid
    else fail method_not_allowed "Resource is not readable"

call_write : Option WriteHandler → ℕ → Option ℕ → ResourceValue → Result (Unit {0})
call_write none iid riid v = fail not_implemented "No write handler registered"
call_write (some h) iid riid v = h iid riid v

unfoldable pub write_value : Resource → ℕ → Option ℕ → ResourceValue → Result (Unit {0})
unfolding has_access call_write
write_value r iid riid v =
    if has_access r.def.access write
    then call_write r.write_handler iid riid v
    else fail method_not_allowed "Resource is not writable"

call_execute : Option ExecuteHandler → ℕ → Bytes → Result (Unit {0})
call_execute none iid args = fail not_implemented "No execute handler registered"
call_execute (some h) iid args = h iid args

unfoldable pub execute_value : Resource → ℕ → Bytes → Result (Unit {0})
unfolding has_access call_execute
execute_value r iid args =
    if has_access r.def.access execute
    then call_execute r.execute_handler iid args
    else fail method_not_allowed "Resource is not executable"
