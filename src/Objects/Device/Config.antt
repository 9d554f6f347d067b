-- ===== src/Objects/Device/Config.antt =====
-- include/lwm2m/objects/device.hpp: the error codes, the battery states and the configuration of the
-- Device object.
use ferriot.Prelude.{ℕ, List, [], ◌∷◌, Bytes, codes}
use ferriot.Prelude.Int.{ℤ, pos}

pub data DeviceErrorCode : Type 0 where
  no_error low_battery_power external_power_supply_off gps_module_failure : DeviceErrorCode
  low_received_signal_strength out_of_memory sms_failure : DeviceErrorCode
  ip_connectivity_failure peripheral_malfunction : DeviceErrorCode

abbrev pub error_value : DeviceErrorCode → ℕ
error_value no_error = 0
error_value low_battery_power = 1
error_value external_power_supply_off = 2
error_value gps_module_failure = 3
error_value low_received_signal_strength = 4
error_value out_of_memory = 5
error_value sms_failure = 6
error_value ip_connectivity_failure = 7
error_value peripheral_malfunction = 8

pub data BatteryStatus : Type 0 where
  normal charging charge_complete damaged low_battery not_installed unknown : BatteryStatus

abbrev pub status_value : BatteryStatus → ℕ
status_value normal = 0
status_value charging = 1
status_value charge_complete = 2
status_value damaged = 3
status_value low_battery = 4
status_value not_installed = 5
status_value unknown = 6

pub record DeviceConfig : Type 0 where
  pub manufacturer : Bytes
  pub model_number : Bytes
  pub serial_number : Bytes
  pub firmware_version : Bytes
  pub software_version : Bytes
  pub hardware_version : Bytes
  pub device_type : Bytes
  pub available_power_sources : List ℕ
  pub power_source_voltages : List ℤ
  pub power_source_currents : List ℤ
  pub battery_level : ℕ
  pub battery_status : BatteryStatus
  pub memory_free : ℤ
  pub memory_total : ℤ
  pub timezone : Bytes
  pub utc_offset : Bytes
  pub supported_bindings : Bytes

-- DeviceConfig{}
abbrev pub default_config : DeviceConfig
default_config = record {
  manufacturer = codes "Ferriot";
  model_number = codes "Ferriot";
  serial_number = [];
  firmware_version = codes "1.0.0";
  software_version = codes "1.0.0";
  hardware_version = codes "1.0";
  device_type = codes "TCU";
  available_power_sources = 0 ∷ [];
  power_source_voltages = pos 12000 ∷ [];
  power_source_currents = pos 0 ∷ [];
  battery_level = 100;
  battery_status = normal;
  memory_free = pos 0;
  memory_total = pos 0;
  timezone = [];
  utc_offset = [];
  supported_bindings = codes "U";
}
