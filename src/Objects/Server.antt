-- ===== src/Objects/Server.antt =====
-- include/lwm2m/objects/server.hpp and src/objects/server.cpp: the Server object (1).
--
-- The resource identifiers that the switches name are a data type, and `field_of` is the switch.
-- The registration update callback is the application's: the object knows whether there is one,
-- and `execute_resource` answers with the short server id that it is called with, if it is.
pub mod Laws
use ferriot.Prelude.{
  ℕ, Bool, true, false, Option, none, some, List, [], ◌∷◌, ◌==◌, if◌then◌else◌, Bytes, codes,
}
use ferriot.Prelude.Int.{ℤ, pos}
use ferriot.Prelude.Words.{word16, word32}
use ferriot.Prelude.Table.{find, put}
use ferriot.Result.{Result, ok, err, fail, bad_request, not_found, method_not_allowed}
use ferriot.Resource.{ResourceValue, ResourceType, boolean, integer, string}
use ferriot.Objects.Instances.{
  Instances, find_by, list_instances as list_in, has_instance as has_in, get_instance as get_in,
  create_instance as create_in, delete_instance as delete_in, add_server as add_in,
}

pub record ServerInstance : Type 0 where
  pub short_server_id : ℕ
  pub lifetime : ℕ
  pub default_min_period : ℕ
  pub default_max_period : ℕ
  pub disable_timeout_present : Bool
  pub disable_timeout : ℕ
  pub notification_storing : Bool
  pub binding : Bytes

-- ServerInstance{}
abbrev pub default_instance : ServerInstance
default_instance = record {
  short_server_id = 0;
  lifetime = 86400;
  default_min_period = 0;
  default_max_period = 0;
  disable_timeout_present = false;
  disable_timeout = 86400;
  notification_storing = false;
  binding = codes "U";
}

pub record ServerObject : Type 0 where
  pub table : Instances ServerInstance
  pub has_callback : Bool

abbrev with_table :
    {A : Type 0} → ServerObject → Instances ServerInstance × Result A → ServerObject × Result A
with_table s (table, r) = (record s { table = table }, r)

abbrev pub list_instances : ServerObject → List ℕ
list_instances s = list_in s.table

abbrev pub has_instance : ServerObject → ℕ → Bool
has_instance s iid = has_in s.table iid

abbrev pub get_instance : ServerObject → ℕ → Option ServerInstance
get_instance s iid = get_in s.table iid

abbrev pub create_instance : ServerObject → Option ℕ → ServerObject × Result ℕ
create_instance s suggested = with_table s (create_in default_instance s.table suggested)

abbrev pub delete_instance : ServerObject → ℕ → ServerObject × Result (Unit {0})
delete_instance s iid = with_table s (delete_in s.table iid)

abbrev pub add_server : ServerObject → ServerInstance → ServerObject × Result ℕ
add_server s config = with_table s (add_in default_instance s.table config)

pub data Field : Type 0 where
  short_server_id lifetime default_min_period default_max_period disable : Field
  disable_timeout notification_storing binding registration_update_trigger : Field
  bootstrap_request_trigger other : Field

-- `switch (rid.value)`, with `other` for the default.
unfoldable pub field_of : ℕ → Field
field_of rid =
    if rid == 0
    then short_server_id
    else if rid == 1
    then lifetime
    else if rid == 2
    then default_min_period
    else if rid == 3
    then default_max_period
    else if rid == 4
    then disable
    else if rid == 5
    then disable_timeout
    else if rid == 6
    then notification_storing
    else if rid == 7
    then binding
    else if rid == 8
    then registration_update_trigger
    else if rid == 9
    then bootstrap_request_trigger
    else other

unfoldable pub list_resources : ServerObject → ℕ → List ℕ
list_resources s iid = 0 ∷ 1 ∷ 2 ∷ 3 ∷ 4 ∷ 5 ∷ 6 ∷ 7 ∷ 8 ∷ []

unfoldable pub field_type : Field → Option ResourceType
field_type short_server_id = some ResourceType.integer
field_type lifetime = some ResourceType.integer
field_type default_min_period = some ResourceType.integer
field_type default_max_period = some ResourceType.integer
field_type disable_timeout = some ResourceType.integer
field_type notification_storing = some ResourceType.boolean
field_type binding = some ResourceType.string
field_type _ = none

unfoldable pub get_resource_type : ServerObject → ℕ → ℕ → Option ResourceType
get_resource_type s iid rid = field_type (field_of rid)

unfoldable pub read_field : Field → ServerInstance → Result ResourceValue
read_field short_server_id inst = ok (integer (pos inst.short_server_id))
read_field lifetime inst = ok (integer (pos inst.lifetime))
read_field default_min_period inst = ok (integer (pos inst.default_min_period))
read_field default_max_period inst = ok (integer (pos inst.default_max_period))
read_field disable_timeout inst = ok (integer (pos inst.disable_timeout))
read_field notification_storing inst = ok (boolean inst.notification_storing)
read_field binding inst = ok (string inst.binding)
read_field _ inst = fail not_found "Resource not found"

unfoldable pub read_in : Option ServerInstance → Field → Result ResourceValue
read_in none f = fail not_found "Instance not found"
read_in (some inst) f = read_field f inst

unfoldable pub read_resource : ServerObject → ℕ → ℕ → Option ℕ → Result ResourceValue
read_resource s iid rid riid = read_in (find iid s.table.instances) (field_of rid)

-- The switch of write_resource, with the instance as it is written.
unfoldable pub write_field : Field → ResourceValue → ServerInstance → Result ServerInstance
write_field short_server_id (integer i) inst = ok (record inst { short_server_id = word16 i })
write_field lifetime (integer i) inst = ok (record inst { lifetime = word32 i })
write_field default_min_period (integer i) inst = ok (record inst { default_min_period = word32 i })
write_field default_max_period (integer i) inst = ok (record inst { default_max_period = word32 i })
write_field disable_timeout (integer i) inst = ok (record inst { disable_timeout = word32 i })
write_field notification_storing (boolean b) inst = ok (record inst { notification_storing = b })
write_field binding (string s) inst = ok (record inst { binding = s })
write_field disable v inst = fail not_found "Resource not found"
write_field registration_update_trigger v inst = fail not_found "Resource not found"
write_field bootstrap_request_trigger v inst = fail not_found "Resource not found"
write_field other v inst = fail not_found "Resource not found"
write_field _ v inst = fail bad_request "Invalid value type"

with_instances : ServerObject → ℕ → ServerInstance → ServerObject
with_instances s iid inst =
    let table = s.table in
    record s { table = record table { instances = put iid inst table.instances } }

unfoldable pub store : ServerObject → ℕ → Result ServerInstance → ServerObject × Result (Unit {0})
unfolding with_instances
store s iid (ok inst) = (with_instances s iid inst, ok tt)
store s iid (err e) = (s, err e)

unfoldable pub write_in :
    ServerObject
    → ℕ
    → Option ServerInstance
    → Field
    → ResourceValue
    → ServerObject × Result (Unit {0})
write_in s iid none f v = (s, fail not_found "Instance not found")
write_in s iid (some inst) f v = store s iid (write_field f v inst)

unfoldable pub write_resource :
    ServerObject → ℕ → ℕ → Option ℕ → ResourceValue → ServerObject × Result (Unit {0})
write_resource s iid rid riid v = write_in s iid (find iid s.table.instances) (field_of rid) v

-- The callback's call and the result.
unfoldable pub execute_field : Bool → Field → ServerInstance → Option ℕ × Result (Unit {0})
execute_field has_callback disable inst = (none, ok tt)
execute_field has_callback registration_update_trigger inst =
    (if has_callback then some inst.short_server_id else none, ok tt)
execute_field has_callback bootstrap_request_trigger inst = (none, ok tt)
execute_field has_callback _ inst = (none, fail method_not_allowed "Resource is not executable")

unfoldable pub execute_in : Bool → Option ServerInstance → Field → Option ℕ × Result (Unit {0})
execute_in has_callback none f = (none, fail not_found "Instance not found")
execute_in has_callback (some inst) f = execute_field has_callback f inst

unfoldable pub execute_resource : ServerObject → ℕ → ℕ → Bytes → Option ℕ × Result (Unit {0})
execute_resource s iid rid arguments =
    execute_in s.has_callback (find iid s.table.instances) (field_of rid)

unfoldable pub set_registration_update_callback : ServerObject → ServerObject
set_registration_update_callback s = record s { has_callback = true }

unfoldable pub find_by_short_server_id : ServerObject → ℕ → Option ServerInstance
unfolding find_by
find_by_short_server_id s ssid =
    find_by (λ inst. ServerInstance.short_server_id inst == ssid) s.table.instances
