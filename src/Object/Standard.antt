-- ===== src/Object/Standard.antt =====
-- src/client.cpp: the objects that the constructor of Client adds, behind the interface, over one
-- state that holds them.
--
-- The calls that an object makes of the application are not part of the state: what the reboot and
-- the registration update callbacks are called with is dropped here.
use ferriot.Prelude.{ℕ, Option, none, some, ◌==◌, if◌then◌else◌}
use ferriot.Prelude.Int.{ℤ}
use ferriot.Result.{Result}
use ferriot.Object.{
  Object, Resources, base_resource_type, base_execute_resource, single_list_instances,
  single_has_instance, single_create_instance, single_delete_instance,
}
use ferriot.Objects.Instances.{list_instances, has_instance, create_instance, delete_instance}
use ferriot.Objects.Security
use ferriot.Objects.Security.{SecurityObject}
use ferriot.Objects.Server
use ferriot.Objects.Server.{ServerObject}
use ferriot.Objects.Firmware
use ferriot.Objects.Firmware.{FirmwareUpdateObject}
use ferriot.Objects.Connectivity
use ferriot.Objects.Connectivity.{ConnectivityConfig}
use ferriot.Objects.Device
use ferriot.Objects.Device.{DeviceObject}

pub record Standard : Type 0 where
  pub security : SecurityObject
  pub server : ServerObject
  pub device : DeviceObject
  pub device_resources : Resources
  pub connectivity : ConnectivityConfig
  pub firmware_update : FirmwareUpdateObject

module _ {A : Type 0} (s : Standard) where
  abbrev pub set_security : SecurityObject × Result A → Standard × Result A
  set_security (o, r) = (record s { security = o }, r)

  abbrev pub set_server : ServerObject × Result A → Standard × Result A
  set_server (o, r) = (record s { server = o }, r)

  abbrev pub set_device : DeviceObject × Result A → Standard × Result A
  set_device (o, r) = (record s { device = o }, r)

  abbrev pub set_connectivity : ConnectivityConfig × Result A → Standard × Result A
  set_connectivity (o, r) = (record s { connectivity = o }, r)

  abbrev pub set_firmware : FirmwareUpdateObject × Result A → Standard × Result A
  set_firmware (o, r) = (record s { firmware_update = o }, r)

abbrev pub security_object : Object Standard
security_object = record {
  list_instances = λ s. list_instances s.security;
  has_instance = λ s. has_instance s.security;
  create_instance = λ s suggested.
      set_security s (create_instance Security.default_instance s.security suggested);
  delete_instance = λ s iid. set_security s (delete_instance s.security iid);
  list_resources = λ s. Security.list_resources s.security;
  get_resource_type = λ s iid rid. Security.get_resource_type s.security iid rid;
  read_resource = λ s. Security.read_resource s.security;
  write_resource =
      λ s iid rid riid v. set_security s (Security.write_resource s.security iid rid riid v);
  execute_resource = base_execute_resource;
}

abbrev pub server_object : Object Standard
server_object = record {
  list_instances = λ s. Server.list_instances s.server;
  has_instance = λ s. Server.has_instance s.server;
  create_instance = λ s suggested. set_server s (Server.create_instance s.server suggested);
  delete_instance = λ s iid. set_server s (Server.delete_instance s.server iid);
  list_resources = λ s. Server.list_resources s.server;
  get_resource_type = λ s iid rid. Server.get_resource_type s.server iid rid;
  read_resource = λ s. Server.read_resource s.server;
  write_resource = λ s iid rid riid v. set_server s (Server.write_resource s.server iid rid riid v);
  execute_resource =
      λ s iid rid arguments. (s, (Server.execute_resource s.server iid rid arguments).1);
}

abbrev pub device_object : ℤ → Object Standard
device_object now = record {
  list_instances = single_list_instances;
  has_instance = single_has_instance;
  create_instance = single_create_instance;
  delete_instance = single_delete_instance;
  list_resources = λ s. Device.list_resources s.device;
  get_resource_type = λ s iid rid. base_resource_type s.device_resources rid;
  read_resource = λ s. Device.read_resource now s.device;
  write_resource = λ s iid rid riid v. set_device s (Device.write_resource s.device iid rid riid v);
  execute_resource = λ s iid rid arguments.
      set_device s (let (o, _, r) = Device.execute_resource s.device iid rid arguments in (o, r));
}

abbrev pub connectivity_object : Object Standard
connectivity_object = record {
  list_instances = single_list_instances;
  has_instance = single_has_instance;
  create_instance = single_create_instance;
  delete_instance = single_delete_instance;
  list_resources = λ s. Connectivity.list_resources s.connectivity;
  get_resource_type = λ s iid rid. Connectivity.get_resource_type s.connectivity iid rid;
  read_resource = λ s. Connectivity.read_resource s.connectivity;
  write_resource = λ s iid rid riid v.
      set_connectivity s (Connectivity.write_resource s.connectivity iid rid riid v);
  execute_resource = λ s iid rid arguments.
      set_connectivity s (Connectivity.execute_resource s.connectivity iid rid arguments);
}

abbrev pub firmware_update_object : Object Standard
firmware_update_object = record {
  list_instances = single_list_instances;
  has_instance = single_has_instance;
  create_instance = single_create_instance;
  delete_instance = single_delete_instance;
  list_resources = λ s. Firmware.list_resources s.firmware_update;
  get_resource_type = λ s iid rid. Firmware.get_resource_type s.firmware_update iid rid;
  read_resource = λ s. Firmware.read_resource s.firmware_update;
  write_resource =
      λ s iid rid riid v. set_firmware s (Firmware.write_resource s.firmware_update iid rid riid v);
  execute_resource = λ s iid rid arguments.
      set_firmware s (Firmware.execute_resource s.firmware_update iid rid arguments);
}

-- objects_, by the objects' identifiers.
unfoldable pub standard_objects : ℤ → ℕ → Option (Object Standard)
standard_objects now oid =
    if oid == 0
    then some security_object
    else if oid == 1
    then some server_object
    else if oid == 3
    then some (device_object now)
    else if oid == 4
    then some connectivity_object
    else if oid == 5
    then some firmware_update_object
    else none
