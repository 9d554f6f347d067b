-- ===== src/Objects/Firmware.antt =====
-- include/lwm2m/objects/firmware_update.hpp and src/objects/firmware_update.cpp: the Firmware
-- Update object (5), a state machine.
--
-- The application's callbacks are members that may be empty, as functions to their results: what
-- they do outside the object is not modelled, and they do not call back into the object. Nothing
-- in the source calls `on_cancel`, so it is not a member here.
pub mod Types
pub mod Step
pub mod Laws
pub mod Package
pub use Types.*
use ferriot.Prelude.{
  ℕ, ◌+◌, Bool, true, false, not, ◌&&◌, Option, none, some, List, [], ◌∷◌, ◌==◌, if◌then◌else◌,
  Bytes, get_elem?,
}
use ferriot.Prelude.Int.{ℤ, pos}
use ferriot.Result.{Result, ok, err, fail, bad_request, not_found, method_not_allowed}
use ferriot.Resource.{ResourceValue, ResourceType, integer, string, opaque}

abbrev pub Outcome : Type 0
Outcome = FirmwareUpdateObject × Result (Unit {0})

unfoldable pub list_resources : FirmwareUpdateObject → ℕ → List ℕ
list_resources s iid = 0 ∷ 1 ∷ 2 ∷ 3 ∷ 5 ∷ 6 ∷ 7 ∷ 8 ∷ 9 ∷ []

unfoldable pub get_resource_type : FirmwareUpdateObject → ℕ → ℕ → Option ResourceType
get_resource_type s iid rid =
    if rid == 0
    then some ResourceType.opaque
    else if rid == 1
    then some ResourceType.string
    else if rid == 6
    then some ResourceType.string
    else if rid == 7
    then some ResourceType.string
    else if rid == 3
    then some ResourceType.integer
    else if rid == 5
    then some ResourceType.integer
    else if rid == 8
    then some ResourceType.integer
    else if rid == 9
    then some ResourceType.integer
    else none

protocol_at : Option FirmwareProtocol → Result ResourceValue
protocol_at none = fail not_found "Resource instance not found"
protocol_at (some p) = ok (integer (pos (protocol_value p)))

-- Resource 8, of one instance or of the first.
unfoldable pub read_protocol : List FirmwareProtocol → Option ℕ → Result ResourceValue
unfolding protocol_at
read_protocol protocols (some riid) = protocol_at (get_elem? protocols riid)
read_protocol [] none = fail not_found "No protocols defined"
read_protocol (p ∷ ps) none = ok (integer (pos (protocol_value p)))

unfoldable pub read_resource : FirmwareUpdateObject → ℕ → ℕ → Option ℕ → Result ResourceValue
unfolding read_protocol
read_resource s iid rid riid =
    if not (iid == 0)
    then fail not_found "Instance not found"
    else if rid == 0
    then fail method_not_allowed "Package is write-only"
    else if rid == 1
    then fail method_not_allowed "Package URI is write-only"
    else if rid == 3
    then ok (integer (pos (state_value s.state)))
    else if rid == 5
    then ok (integer (pos (result_value s.update_result)))
    else if rid == 6
    then ok (string s.package_name)
    else if rid == 7
    then ok (string s.package_version)
    else if rid == 8
    then read_protocol s.supported_protocols riid
    else if rid == 9
    then ok (integer (pos (method_value s.delivery_method)))
    else fail not_found "Resource not found"

-- `if (callbacks_.verify_package) { … }` in push_package: true where there is none.
unfoldable pub verified : Option (Bytes → Result (Unit {0})) → Bytes → Result (Unit {0})
verified none bytes = ok tt
verified (some verify) bytes = verify bytes

pushed : FirmwareUpdateObject → Result (Unit {0}) → Outcome
pushed s (ok _) = (record s { state = downloaded }, ok tt)
pushed s (err e) = (record s { package_data = []; update_result = integrity_check_failure }, err e)

unfoldable pub push_package : FirmwareUpdateObject → Bytes → Outcome
unfolding verified pushed
push_package s bytes =
    if not (s.state is idle) && not (s.state is downloaded)
    then (s, fail method_not_allowed "Cannot push package in current state")
    else pushed (record s { package_data = bytes; update_result = initial })
        (verified s.callbacks.verify_package bytes)

-- `case 0` of write_resource.
write_package : FirmwareUpdateObject → ResourceValue → Outcome
unfolding push_package
write_package s (opaque bytes) = push_package s bytes
write_package s _ = (s, fail bad_request "Invalid value type")

started : FirmwareUpdateObject → Result (Unit {0}) → Outcome
started s (ok _) = (record s { state = downloading }, ok tt)
started s (err e) = (record s { update_result = invalid_uri }, err e)

start : FirmwareUpdateObject → Option (Bytes → Result (Unit {0})) → Bytes → Outcome
unfolding started
start s none uri = (s, ok tt)
start s (some download) uri = started s (download uri)

-- `case 1` of write_resource.
write_uri : FirmwareUpdateObject → ResourceValue → Outcome
unfolding start
write_uri s (string uri) =
    start (record s { package_uri = uri; update_result = initial }) s.callbacks.start_download uri
write_uri s _ = (s, fail bad_request "Invalid value type")

unfoldable pub write_resource : FirmwareUpdateObject → ℕ → ℕ → Option ℕ → ResourceValue → Outcome
unfolding write_package write_uri
write_resource s iid rid riid v =
    if not (iid == 0)
    then (s, fail not_found "Instance not found")
    else if rid == 0
    then if not (s.state is idle) && not (s.state is downloaded)
      then (s, fail method_not_allowed "Cannot write package in current state")
      else write_package s v
    else if rid == 1
    then if not (s.state is idle)
      then (s, fail method_not_allowed "Cannot write URI in current state")
      else write_uri s v
    else (s, fail method_not_allowed "Resource is read-only")

applied : FirmwareUpdateObject → Result (Unit {0}) → Outcome
applied s (ok _) = (s, ok tt)
applied s (err e) = (record s { state = idle; update_result = update_failed }, err e)

-- `if (callbacks_.apply_update) { … }`
apply : FirmwareUpdateObject → Option (Result (Unit {0})) → Outcome
unfolding applied
apply s none = (s, ok tt)
apply s (some r) = applied (record s { state = updating }) r

unfoldable pub execute_resource : FirmwareUpdateObject → ℕ → ℕ → Bytes → Outcome
unfolding apply
execute_resource s iid rid arguments =
    if not (iid == 0)
    then (s, fail not_found "Instance not found")
    else if rid == 2
    then if not (s.state is downloaded)
      then (s, fail method_not_allowed "Cannot update: not in Downloaded state")
      else apply s s.callbacks.apply_update
    else (s, fail method_not_allowed "Resource is not executable")

unfoldable pub set_callbacks : FirmwareUpdateObject → FirmwareUpdateCallbacks → FirmwareUpdateObject
set_callbacks s callbacks = record s { callbacks = callbacks }

unfoldable pub set_state : FirmwareUpdateObject → FirmwareState → FirmwareUpdateObject
set_state s state = record s { state = state }

unfoldable pub set_update_result : FirmwareUpdateObject → UpdateResult → FirmwareUpdateObject
set_update_result s result = record s { update_result = result }

unfoldable pub set_package_info : FirmwareUpdateObject → Bytes → Bytes → FirmwareUpdateObject
set_package_info s name version = record s { package_name = name; package_version = version }

unfoldable pub set_supported_protocols :
    FirmwareUpdateObject → List FirmwareProtocol → FirmwareUpdateObject
set_supported_protocols s protocols = record s { supported_protocols = protocols }

unfoldable pub set_delivery_method :
    FirmwareUpdateObject → FirmwareDeliveryMethod → FirmwareUpdateObject
set_delivery_method s method = record s { delivery_method = method }

unfoldable pub download_complete : FirmwareUpdateObject → Bool → FirmwareUpdateObject
download_complete s ok_download =
    if not (s.state is downloading)
    then s
    else if ok_download
    then record s { state = downloaded }
    else record s { state = idle; update_result = connection_lost_during_download }

unfoldable pub update_complete : FirmwareUpdateObject → UpdateResult → FirmwareUpdateObject
update_complete s result =
    let done = record s { state = idle; update_result = result; package_data = [] } in
    if result_value result == 1
    then record done { package_name = []; package_version = [] }
    else done
