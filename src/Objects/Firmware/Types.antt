-- ===== src/Objects/Firmware/Types.antt =====
-- include/lwm2m/objects/firmware_update.hpp: the states, the results and the members of the Firmware
-- Update object.
use ferriot.Prelude.{ℕ, Bool, Option, none, List, [], ◌∷◌, ◌==◌, Bytes}
use ferriot.Result.{Result}

pub data FirmwareState : Type 0 where
  idle downloading downloaded updating : FirmwareState

abbrev pub state_value : FirmwareState → ℕ
state_value idle = 0
state_value downloading = 1
state_value downloaded = 2
state_value updating = 3

infix 50 ◌is◌
abbrev pub ◌is◌ : FirmwareState → FirmwareState → Bool
a is b = state_value a == state_value b

pub data UpdateResult : Type 0 where
  initial success not_enough_flash_memory out_of_ram : UpdateResult
  connection_lost_during_download integrity_check_failure : UpdateResult
  unsupported_package_type invalid_uri update_failed unsupported_protocol : UpdateResult

abbrev pub result_value : UpdateResult → ℕ
result_value initial = 0
result_value success = 1
result_value not_enough_flash_memory = 2
result_value out_of_ram = 3
result_value connection_lost_during_download = 4
result_value integrity_check_failure = 5
result_value unsupported_package_type = 6
result_value invalid_uri = 7
result_value update_failed = 8
result_value unsupported_protocol = 9

-- FirmwareProtocol and FirmwareDeliveryMethod by their enumerators' values.
pub data FirmwareProtocol : Type 0 where
  coap coaps http https coap_tcp coaps_tcp : FirmwareProtocol

abbrev pub protocol_value : FirmwareProtocol → ℕ
protocol_value coap = 0
protocol_value coaps = 1
protocol_value http = 2
protocol_value https = 3
protocol_value coap_tcp = 4
protocol_value coaps_tcp = 5

pub data FirmwareDeliveryMethod : Type 0 where
  pull push both : FirmwareDeliveryMethod

abbrev pub method_value : FirmwareDeliveryMethod → ℕ
method_value pull = 0
method_value push = 1
method_value both = 2

pub record FirmwareUpdateCallbacks : Type 0 where
  pub start_download : Option (Bytes → Result (Unit {0}))
  pub verify_package : Option (Bytes → Result (Unit {0}))
  pub apply_update : Option (Result (Unit {0}))

pub record FirmwareUpdateObject : Type 0 where
  pub state : FirmwareState
  pub update_result : UpdateResult
  pub package_uri : Bytes
  pub package_data : Bytes
  pub package_name : Bytes
  pub package_version : Bytes
  pub supported_protocols : List FirmwareProtocol
  pub delivery_method : FirmwareDeliveryMethod
  pub callbacks : FirmwareUpdateCallbacks

abbrev pub no_callbacks : FirmwareUpdateCallbacks
no_callbacks = record { start_download = none; verify_package = none; apply_update = none }

-- FirmwareUpdateObject::FirmwareUpdateObject
abbrev pub created : FirmwareUpdateObject
created = record {
  state = idle;
  update_result = initial;
  package_uri = [];
  package_data = [];
  package_name = [];
  package_version = [];
  supported_protocols = coap ∷ coaps ∷ http ∷ https ∷ [];
  delivery_method = both;
  callbacks = no_callbacks;
}
