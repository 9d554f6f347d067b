-- ===== src/Objects/Device.antt =====
-- include/lwm2m/objects/device.hpp and src/objects/device.cpp: the Device object (3).
--
-- The clock is not the object's: `read_resource` takes its time. The reboot and factory reset
-- callbacks are the application's: the object knows which are set, and `execute_resource` answers
-- with the one that it calls, if it calls one.
pub mod Config
pub mod Errors
pub mod Laws
pub use Config.*
use ferriot.Prelude.{
  ℕ, Bool, true, false, not, ◌&&◌, Option, none, some, List, [], ◌∷◌, ◌++◌, ◌==◌, if◌then◌else◌,
  Bytes, codes,
}
use ferriot.Prelude.Int.{ℤ, pos}
use ferriot.Result.{Result, ok, fail, bad_request, not_found, method_not_allowed}
use ferriot.Resource.{ResourceValue, integer, string, time}
use ferriot.Objects.Multiple.{read_multiple}

pub record DeviceObject : Type 0 where
  pub config : DeviceConfig
  pub error_codes : List DeviceErrorCode
  pub has_reboot_callback : Bool
  pub has_factory_reset_callback : Bool

-- The constructor.
abbrev pub device_object : DeviceConfig → DeviceObject
device_object config = record {
  config = config;
  error_codes = no_error ∷ [];
  has_reboot_callback = false;
  has_factory_reset_callback = false;
}

unfoldable pub list_resources : DeviceObject → ℕ → List ℕ
list_resources s iid =
    0 ∷ 1 ∷ 2 ∷ 3 ∷ 4 ∷ 5 ∷ 6 ∷ 7 ∷ 8 ∷ 9 ∷ 10 ∷ 11 ∷ 12 ∷ 13 ∷ 14 ∷ 15 ∷ 16 ∷ 17 ∷ 18 ∷ 19 ∷ 20
    ∷ 21 ∷ []

pub data Field : Type 0 where
  manufacturer model_number serial_number firmware_version reboot factory_reset : Field
  available_power_sources power_source_voltage power_source_current battery_level : Field
  memory_free error_code reset_error_code current_time utc_offset timezone : Field
  supported_bindings device_type hardware_version software_version battery_status : Field
  memory_total other : Field

-- `switch (rid.value)`, with `other` for the default.
unfoldable pub field_of : ℕ → Field
field_of rid =
    if rid == 0
    then manufacturer
    else if rid == 1
    then model_number
    else if rid == 2
    then serial_number
    else if rid == 3
    then firmware_version
    else if rid == 4
    then reboot
    else if rid == 5
    then factory_reset
    else if rid == 6
    then available_power_sources
    else if rid == 7
    then power_source_voltage
    else if rid == 8
    then power_source_current
    else if rid == 9
    then battery_level
    else if rid == 10
    then memory_free
    else if rid == 11
    then error_code
    else if rid == 12
    then reset_error_code
    else if rid == 13
    then current_time
    else if rid == 14
    then utc_offset
    else if rid == 15
    then timezone
    else if rid == 16
    then supported_bindings
    else if rid == 17
    then device_type
    else if rid == 18
    then hardware_version
    else if rid == 19
    then software_version
    else if rid == 20
    then battery_status
    else if rid == 21
    then memory_total
    else other

-- The switch of read_resource, at a time of the clock.
unfoldable pub read_field : ℤ → DeviceObject → Field → Option ℕ → Result ResourceValue
read_field now s manufacturer riid = ok (string s.config.manufacturer)
read_field now s model_number riid = ok (string s.config.model_number)
read_field now s serial_number riid = ok (string s.config.serial_number)
read_field now s firmware_version riid = ok (string s.config.firmware_version)
read_field now s available_power_sources riid =
    read_multiple (fail not_found "No power sources") (λ n. integer (pos n))
      s.config.available_power_sources riid
read_field now s power_source_voltage riid =
    read_multiple (fail not_found "No voltage data") integer s.config.power_source_voltages riid
read_field now s power_source_current riid =
    read_multiple (fail not_found "No current data") integer s.config.power_source_currents riid
read_field now s battery_level riid = ok (integer (pos s.config.battery_level))
read_field now s memory_free riid = ok (integer s.config.memory_free)
read_field now s error_code riid =
    read_multiple (ok (integer (pos (error_value no_error)))) (λ c. integer (pos (error_value c)))
      s.error_codes riid
read_field now s current_time riid = ok (time now)
read_field now s utc_offset riid = ok (string s.config.utc_offset)
read_field now s timezone riid = ok (string s.config.timezone)
read_field now s supported_bindings riid = ok (string s.config.supported_bindings)
read_field now s device_type riid = ok (string s.config.device_type)
read_field now s hardware_version riid = ok (string s.config.hardware_version)
read_field now s software_version riid = ok (string s.config.software_version)
read_field now s battery_status riid = ok (integer (pos (status_value s.config.battery_status)))
read_field now s memory_total riid = ok (integer s.config.memory_total)
read_field now s reboot riid = fail not_found "Resource not found"
read_field now s factory_reset riid = fail not_found "Resource not found"
read_field now s reset_error_code riid = fail not_found "Resource not found"
read_field now s other riid = fail not_found "Resource not found"

unfoldable pub read_resource : ℤ → DeviceObject → ℕ → ℕ → Option ℕ → Result ResourceValue
read_resource now s iid rid riid =
    if iid == 0 then read_field now s (field_of rid) riid else fail not_found "Instance not found"

with_config : DeviceObject → DeviceConfig → DeviceObject
with_config s config = record s { config = config }

-- The switch of write_resource.
unfoldable pub write_field : DeviceObject → Field → ResourceValue → DeviceObject × Result (Unit {0})
unfolding with_config
write_field s current_time v = (s, fail method_not_allowed "Current Time is read-only")
write_field s utc_offset (string text) =
    let config = s.config in (with_config s (record config { utc_offset = text }), ok tt)
write_field s utc_offset v = (s, fail bad_request "Invalid value type")
write_field s timezone (string text) =
    let config = s.config in (with_config s (record config { timezone = text }), ok tt)
write_field s timezone v = (s, fail bad_request "Invalid value type")
write_field s _ v = (s, fail method_not_allowed "Resource is read-only")

unfoldable pub write_resource :
    DeviceObject → ℕ → ℕ → Option ℕ → ResourceValue → DeviceObject × Result (Unit {0})
write_resource s iid rid riid v =
    if iid == 0 then write_field s (field_of rid) v else (s, fail not_found "Instance not found")

unfoldable pub clear_error_codes : DeviceObject → DeviceObject
clear_error_codes s = record s { error_codes = no_error ∷ [] }

-- `error_codes_[0] == NoError`, with a test that there is a first code.
unfoldable pub starts_with_no_error : List DeviceErrorCode → Bool
starts_with_no_error [] = false
starts_with_no_error (c ∷ codes) = error_value c == 0

unfoldable pub add_error_code : DeviceObject → DeviceErrorCode → DeviceObject
unfolding starts_with_no_error
add_error_code s code =
    let kept =
      (if not (error_value code == 0) && starts_with_no_error s.error_codes
        then []
        else s.error_codes) in
    record s { error_codes = kept ++ code ∷ [] }

pub data Callback : Type 0 where
  reboot_callback factory_reset_callback : Callback

-- The switch of execute_resource: the object, the callback that is called, and the result.
unfoldable pub execute_field :
    DeviceObject → Field → DeviceObject × Option Callback × Result (Unit {0})
execute_field s reboot = (s, if s.has_reboot_callback then some reboot_callback else none, ok tt)
execute_field s factory_reset =
    (s, if s.has_factory_reset_callback then some factory_reset_callback else none, ok tt)
execute_field s reset_error_code = (clear_error_codes s, none, ok tt)
execute_field s _ = (s, none, fail method_not_allowed "Resource is not executable")

unfoldable pub execute_resource :
    DeviceObject → ℕ → ℕ → Bytes → DeviceObject × Option Callback × Result (Unit {0})
execute_resource s iid rid arguments =
    if iid == 0
    then execute_field s (field_of rid)
    else (s, none, fail not_found "Instance not found")

unfoldable pub set_battery_level : DeviceObject → ℕ → DeviceObject
set_battery_level s level =
    let config = s.config in record s { config = record config { battery_level = level } }

unfoldable pub set_battery_status : DeviceObject → BatteryStatus → DeviceObject
set_battery_status s status =
    let config = s.config in record s { config = record config { battery_status = status } }

unfoldable pub set_memory_free : DeviceObject → ℤ → DeviceObject
set_memory_free s kb =
    let config = s.config in record s { config = record config { memory_free = kb } }

unfoldable pub set_reboot_callback : DeviceObject → DeviceObject
set_reboot_callback s = record s { has_reboot_callback = true }

unfoldable pub set_factory_reset_callback : DeviceObject → DeviceObject
set_factory_reset_callback s = record s { has_factory_reset_callback = true }
