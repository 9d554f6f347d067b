-- ===== src/Objects/Security.antt =====
-- include/lwm2m/objects/security.hpp and src/objects/security.cpp: the Security object (0).
--
-- The resource identifiers that the switches name are a data type, and `field_of` is the switch.
-- `security_mode` is the number that the enumeration holds, a uint8_t: writing it casts any
-- integer. The instance table is that of Objects.Instances.
pub mod Laws
pub mod Connection
use ferriot.Prelude.{
  ℕ, Bool, true, false, Option, none, some, List, [], ◌∷◌, ◌==◌, if◌then◌else◌, Bytes,
}
use ferriot.Prelude.Int.{ℤ, pos}
use ferriot.Prelude.Words.{word8, word16, word32}
use ferriot.Prelude.Table.{find, put}
use ferriot.Result.{Result, ok, err, fail, bad_request, not_found, map}
use ferriot.Resource.{ResourceValue, ResourceType, boolean, integer, string, opaque}
use ferriot.Objects.Instances.{Instances, find_by}

pub record SecurityInstance : Type 0 where
  pub server_uri : Bytes
  pub bootstrap_server : Bool
  pub security_mode : ℕ
  pub public_key_identity : Bytes
  pub server_public_key : Bytes
  pub secret_key : Bytes
  pub sms_security_mode : ℕ
  pub sms_key_parameters : Bytes
  pub sms_secret_key : Bytes
  pub sms_server_number : Bytes
  pub short_server_id : ℕ
  pub client_hold_off_time : ℕ
  pub bootstrap_timeout : ℕ

-- SecurityInstance{}
abbrev pub default_instance : SecurityInstance
default_instance = record {
  server_uri = [];
  bootstrap_server = false;
  security_mode = 3;
  public_key_identity = [];
  server_public_key = [];
  secret_key = [];
  sms_security_mode = 255;
  sms_key_parameters = [];
  sms_secret_key = [];
  sms_server_number = [];
  short_server_id = 0;
  client_hold_off_time = 0;
  bootstrap_timeout = 0;
}

abbrev pub SecurityObject : Type 0
SecurityObject = Instances SecurityInstance

pub data Field : Type 0 where
  server_uri bootstrap_server security_mode public_key_identity server_public_key : Field
  secret_key sms_security_mode sms_key_parameters sms_secret_key sms_server_number : Field
  short_server_id client_hold_off_time bootstrap_timeout other : Field

-- `switch (rid.value)`, with `other` for the default.
unfoldable pub field_of : ℕ → Field
field_of rid =
    if rid == 0
    then server_uri
    else if rid == 1
    then bootstrap_server
    else if rid == 2
    then security_mode
    else if rid == 3
    then public_key_identity
    else if rid == 4
    then server_public_key
    else if rid == 5
    then secret_key
    else if rid == 6
    then sms_security_mode
    else if rid == 7
    then sms_key_parameters
    else if rid == 8
    then sms_secret_key
    else if rid == 9
    then sms_server_number
    else if rid == 10
    then short_server_id
    else if rid == 11
    then client_hold_off_time
    else if rid == 12
    then bootstrap_timeout
    else other

unfoldable pub list_resources : SecurityObject → ℕ → List ℕ
list_resources s iid = 0 ∷ 1 ∷ 2 ∷ 3 ∷ 4 ∷ 5 ∷ 10 ∷ 11 ∷ 12 ∷ []

unfoldable pub field_type : Field → Option ResourceType
field_type server_uri = some ResourceType.string
field_type sms_server_number = some ResourceType.string
field_type bootstrap_server = some ResourceType.boolean
field_type security_mode = some ResourceType.integer
field_type sms_security_mode = some ResourceType.integer
field_type short_server_id = some ResourceType.integer
field_type client_hold_off_time = some ResourceType.integer
field_type bootstrap_timeout = some ResourceType.integer
field_type public_key_identity = some ResourceType.opaque
field_type server_public_key = some ResourceType.opaque
field_type secret_key = some ResourceType.opaque
field_type sms_key_parameters = some ResourceType.opaque
field_type sms_secret_key = some ResourceType.opaque
field_type other = none

unfoldable pub get_resource_type : SecurityObject → ℕ → ℕ → Option ResourceType
get_resource_type s iid rid = field_type (field_of rid)

unfoldable pub read_field : Field → SecurityInstance → Result ResourceValue
read_field server_uri inst = ok (string inst.server_uri)
read_field bootstrap_server inst = ok (boolean inst.bootstrap_server)
read_field security_mode inst = ok (integer (pos inst.security_mode))
read_field public_key_identity inst = ok (opaque inst.public_key_identity)
read_field server_public_key inst = ok (opaque inst.server_public_key)
read_field secret_key inst = ok (opaque inst.secret_key)
read_field short_server_id inst = ok (integer (pos inst.short_server_id))
read_field client_hold_off_time inst = ok (integer (pos inst.client_hold_off_time))
read_field bootstrap_timeout inst = ok (integer (pos inst.bootstrap_timeout))
read_field _ inst = fail not_found "Resource not found"

unfoldable pub read_in : Option SecurityInstance → Field → Result ResourceValue
read_in none f = fail not_found "Instance not found"
read_in (some inst) f = read_field f inst

unfoldable pub read_resource : SecurityObject → ℕ → ℕ → Option ℕ → Result ResourceValue
read_resource s iid rid riid = read_in (find iid s.instances) (field_of rid)

abbrev invalid : Result SecurityInstance
invalid = fail bad_request "Invalid value type"

-- The switch of write_resource, with the instance as it is written.
unfoldable pub write_field : Field → ResourceValue → SecurityInstance → Result SecurityInstance
write_field server_uri (string s) inst = ok (record inst { server_uri = s })
write_field bootstrap_server (boolean b) inst = ok (record inst { bootstrap_server = b })
write_field security_mode (integer i) inst = ok (record inst { security_mode = word8 i })
write_field public_key_identity (opaque v) inst = ok (record inst { public_key_identity = v })
write_field server_public_key (opaque v) inst = ok (record inst { server_public_key = v })
write_field secret_key (opaque v) inst = ok (record inst { secret_key = v })
write_field short_server_id (integer i) inst = ok (record inst { short_server_id = word16 i })
write_field client_hold_off_time (integer i) inst =
    ok (record inst { client_hold_off_time = word32 i })
write_field bootstrap_timeout (integer i) inst = ok (record inst { bootstrap_timeout = word32 i })
write_field sms_security_mode v inst = fail not_found "Resource not found"
write_field sms_key_parameters v inst = fail not_found "Resource not found"
write_field sms_secret_key v inst = fail not_found "Resource not found"
write_field sms_server_number v inst = fail not_found "Resource not found"
write_field other v inst = fail not_found "Resource not found"
write_field _ v inst = invalid

unfoldable pub store :
    SecurityObject → ℕ → Result SecurityInstance → SecurityObject × Result (Unit {0})
store s iid (ok inst) = (record s { instances = put iid inst s.instances }, ok tt)
store s iid (err e) = (s, err e)

unfoldable pub write_in :
    SecurityObject
    → ℕ
    → Option SecurityInstance
    → Field
    → ResourceValue
    → SecurityObject × Result (Unit {0})
write_in s iid none f v = (s, fail not_found "Instance not found")
write_in s iid (some inst) f v = store s iid (write_field f v inst)

unfoldable pub write_resource :
    SecurityObject → ℕ → ℕ → Option ℕ → ResourceValue → SecurityObject × Result (Unit {0})
write_resource s iid rid riid v = write_in s iid (find iid s.instances) (field_of rid) v

unfoldable pub find_by_short_server_id : SecurityObject → ℕ → Option SecurityInstance
unfolding find_by
find_by_short_server_id s ssid =
    find_by (λ inst. SecurityInstance.short_server_id inst == ssid) s.instances
