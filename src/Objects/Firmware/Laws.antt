-- ===== src/Objects/Firmware/Laws.antt =====
-- src/objects/firmware_update.cpp: what each operation does, on every branch.
use ferriot.Prelude.{
  ℕ, ◌≡◌, Bool, false, not, ◌&&◌, ◌||◌, Option, some, [], Bytes, arith, if◌then◌else◌,
}
use ferriot.Result.{ok, is_ok}
use ferriot.Resource.{ResourceValue, opaque, string}
use ferriot.Resource
use ferriot.Objects.Firmware.{
  FirmwareState, idle, downloading, downloaded, updating, ◌is◌, UpdateResult, initial, success,
  integrity_check_failure, connection_lost_during_download, update_failed, FirmwareUpdateObject,
  read_resource, read_protocol, write_resource, execute_resource, push_package, download_complete,
  update_complete,
}
use ferriot.Objects.Firmware

-- A resource that is read has the type that get_resource_type announces.
pub firmware_resource_type :
    (s : FirmwareUpdateObject) (iid rid : ℕ) (riid : Option ℕ) {v : ResourceValue}
    → read_resource s iid rid riid ≡ ok v
    → Firmware.get_resource_type s iid rid ≡ some (Resource.get_resource_type v)
unfolding read_resource Firmware.get_resource_type Resource.get_resource_type
firmware_resource_type s iid rid riid h = ground arith

-- A write that fails leaves the state of the machine, and the name and the version of the package,
-- as they were.
pub firmware_write-err :
    (s : FirmwareUpdateObject) (iid rid : ℕ) (riid : Option ℕ) (v : ResourceValue)
    → is_ok (write_resource s iid rid riid v).1 ≡ false
    → ((write_resource s iid rid riid v).0.state ≡ s.state)
      × ((write_resource s iid rid riid v).0.package_name ≡ s.package_name)
      × ((write_resource s iid rid riid v).0.package_version ≡ s.package_version)
unfolding write_resource
firmware_write-err s iid rid riid v h = ground arith

-- Pushing a package is accepted exactly in the states Idle and Downloaded, if the application's
-- verification, where there is one, accepts the package; then the state is Downloaded and the
-- object holds the package. A refusal by the verification leaves the state, holds no package and
-- reports the failed integrity check; a refusal by the state changes nothing.
pub push_package_lem :
    (s : FirmwareUpdateObject) (bytes : Bytes)
    → let (s', r) = push_package s bytes in
      let accepting = (s.state is idle) || (s.state is downloaded) in
      (s'.state ≡ (if is_ok r then downloaded else s.state))
      × (s'.package_data ≡ (if accepting then if is_ok r then bytes else [] else s.package_data))
      × (s'.update_result ≡ (
          if accepting
          then if is_ok r then initial else integrity_check_failure
          else s.update_result))
      × (is_ok r ≡ (accepting && is_ok (Firmware.verified s.callbacks.verify_package bytes)))
unfolding push_package
push_package_lem s bytes = ground arith

-- A download that ends has an effect in the state Downloading alone: the state is then Downloaded,
-- or Idle with a lost connection reported.
pub download_complete_lem :
    (s : FirmwareUpdateObject) (done : Bool)
    → let s' = download_complete s done in
      (s'.state ≡ (if s.state is downloading then if done then downloaded else idle else s.state))
      × (s'.update_result ≡ (
          if (s.state is downloading) && not done
          then connection_lost_during_download
          else s.update_result))
unfolding download_complete
download_complete_lem s done = ground arith
