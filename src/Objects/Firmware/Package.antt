-- ===== src/Objects/Firmware/Package.antt =====
-- src/objects/firmware_update.cpp: whole updates, and what happens to the package in them.
use ferriot.Prelude.{◌≡◌, true, none, some, [], Bytes, arith}
use ferriot.Result.{Result, ok, err, Error}
use ferriot.Resource.{string}
use ferriot.Objects.Firmware.{
  idle, downloading, downloaded, updating, UpdateResult, FirmwareUpdateObject, write_resource,
  execute_resource, push_package, download_complete, update_complete,
}

-- Where the application's download and update callbacks succeed, an update by pull goes through all
-- states: writing the URI in Idle starts the download, its end makes the package Downloaded,
-- executing resource 2 starts the update, and its end leaves Idle with the update's result.
pub pull_update :
    (s : FirmwareUpdateObject) (uri arguments : Bytes) (result : UpdateResult)
    {download : Bytes → Result (Unit {0})}
    → s.state ≡ idle
    → s.callbacks.start_download ≡ some download
    → download uri ≡ ok tt
    → s.callbacks.apply_update ≡ some (ok tt)
    → let (s₁, r₁) = write_resource s 0 1 none (string uri) in
      let s₂ = download_complete s₁ true in
      let (s₃, r₃) = execute_resource s₂ 0 2 arguments in
      let s₄ = update_complete s₃ result in
      ((r₁ ≡ ok tt) × (s₁.state ≡ downloading) × (s₁.package_uri ≡ uri))
      × (s₂.state ≡ downloaded)
      × ((r₃ ≡ ok tt) × (s₃.state ≡ updating))
      × ((s₄.state ≡ idle) × (s₄.update_result ≡ result) × (s₄.package_data ≡ []))
unfolding write_resource download_complete execute_resource update_complete
pull_update s uri arguments result h start started apply = ground arith

-- A package that is refused by the verification in the state Downloaded takes the verified package
-- with it and leaves the state: the object is still Downloaded, with no package, and executing
-- resource 2 still starts an update, where the application's update callback succeeds.
pub update_without_package :
    (s : FirmwareUpdateObject) (bytes arguments : Bytes) {e : Error}
    {verify : Bytes → Result (Unit {0})}
    → s.state ≡ downloaded
    → s.callbacks.verify_package ≡ some verify
    → verify bytes ≡ err e
    → s.callbacks.apply_update ≡ some (ok tt)
    → let s₁ = (push_package s bytes).0 in
      let (s₂, r₂) = execute_resource s₁ 0 2 arguments in
      ((s₁.state ≡ downloaded) × (s₁.package_data ≡ []))
      × ((s₂.state ≡ updating) × (s₂.package_data ≡ []) × (r₂ ≡ ok tt))
unfolding push_package execute_resource
update_without_package s bytes arguments h verify refused apply = ground arith
