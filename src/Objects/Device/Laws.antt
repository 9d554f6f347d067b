-- ===== src/Objects/Device/Laws.antt =====
-- src/objects/device.cpp: the Device object's resources written, set, executed and reported.
use ferriot.Prelude.{
  ℕ, ◌≡◌, false, ◌&&◌, ◌||◌, Option, none, some, ◌==◌, if◌then◌else◌, Bytes, arith,
}
use ferriot.Prelude.Int.{ℤ, pos}
use ferriot.Result.{ok, is_ok}
use ferriot.Resource.{ResourceValue, integer}
use ferriot.Objects.Device.{
  BatteryStatus, status_value, DeviceObject, field_of, read_field, read_resource, write_field,
  write_resource, clear_error_codes, reboot_callback, factory_reset_callback, execute_field,
  execute_resource, set_battery_level, set_battery_status, set_memory_free,
}

-- After a successful write the resource reads back as the value that was written, and every other
-- resource reads as before.
pub device_read-write :
    (now : ℤ) (s : DeviceObject) (iid rid iid' rid' : ℕ) (riid riid' : Option ℕ) (v : ResourceValue)
    → (write_resource s iid rid riid v).1 ≡ ok tt
    → read_resource now (write_resource s iid rid riid v).0 iid' rid' riid'
      ≡ (if (iid == iid') && (rid == rid') then ok v else read_resource now s iid' rid' riid')
unfolding write_resource write_field read_resource read_field field_of
device_read-write now s iid rid iid' rid' riid riid' v h = ground arith

-- A write that fails changes nothing.
pub device_write-err :
    (s : DeviceObject) (iid rid : ℕ) (riid : Option ℕ) (v : ResourceValue)
    → is_ok (write_resource s iid rid riid v).1 ≡ false
    → (write_resource s iid rid riid v).0 ≡ s
unfolding write_resource write_field field_of
device_write-err s iid rid riid v h = ground arith

-- Each setter changes the one resource that it is for, to the value that it is given, and leaves
-- every other reading as it was.
pub read_resource-set :
    (now : ℤ) (s : DeviceObject) (iid rid : ℕ) (riid : Option ℕ) (level : ℕ)
    (status : BatteryStatus) (kb : ℤ)
    → (read_resource now (set_battery_level s level) iid rid riid ≡ (
        if (iid == 0) && (rid == 9)
        then ok (integer (pos level))
        else read_resource now s iid rid riid))
      × (read_resource now (set_battery_status s status) iid rid riid ≡ (
          if (iid == 0) && (rid == 20)
          then ok (integer (pos (status_value status)))
          else read_resource now s iid rid riid))
      × (read_resource now (set_memory_free s kb) iid rid riid ≡ (
          if (iid == 0) && (rid == 10) then ok (integer kb) else read_resource now s iid rid riid))
unfolding read_resource read_field field_of set_battery_level set_battery_status set_memory_free
read_resource-set now s iid rid riid level status kb = ground arith

-- Executing a resource succeeds for 4, 5 and 12 of instance 0. It calls the reboot callback for 4
-- and the factory reset callback for 5, where they are set, and changes the object by clearing the
-- error codes for 12 alone.
pub execute_resource-effects :
    (s : DeviceObject) (iid rid : ℕ) (arguments : Bytes)
    → ((execute_resource s iid rid arguments).0
        ≡ (if (iid == 0) && (rid == 12) then clear_error_codes s else s))
      × ((execute_resource s iid rid arguments).1 ≡ (
          if (iid == 0) && ((rid == 4) && s.has_reboot_callback)
          then some reboot_callback
          else if (iid == 0) && ((rid == 5) && s.has_factory_reset_callback)
          then some factory_reset_callback
          else none))
      × (is_ok (execute_resource s iid rid arguments).2
          ≡ (iid == 0) && ((rid == 4) || ((rid == 5) || (rid == 12))))
unfolding execute_resource execute_field field_of
execute_resource-effects s iid rid arguments = ground arith
