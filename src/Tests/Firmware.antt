-- ===== src/Tests/Firmware.antt =====
-- src/objects/firmware_update.cpp on concrete calls.
use ferriot.Prelude.{◌≡◌, refl, true, none, some, List, [], ◌∷◌, ◌++◌, Bytes, codes}
use ferriot.Result.{Result, ok, fail, bad_request}
use ferriot.Resource.{string}
use ferriot.Objects.Firmware.{
  FirmwareState, idle, downloading, downloaded, updating, ◌is◌, UpdateResult, initial, success,
  integrity_check_failure, connection_lost_during_download, FirmwareUpdateCallbacks,
  FirmwareUpdateObject, created, write_resource, execute_resource, push_package, download_complete,
  update_complete,
}
use ferriot.Objects.Firmware
use ferriot.Objects.Firmware.Step.{
  Call, push_call, execute_call, step, run, Moves, IsEntry, step-Moves, run_updating,
}
use ferriot.Objects.Firmware.Package.{pull_update, update_without_package}

abbrev accept : Bytes → Result (Unit {0})
accept bytes = ok tt

abbrev refuse : Bytes → Result (Unit {0})
refuse bytes = fail bad_request "refused"

abbrev callbacks : FirmwareUpdateCallbacks
callbacks = record {
  start_download = some accept;
  verify_package = some refuse;
  apply_update = some (ok tt);
}

abbrev ready : FirmwareUpdateObject
ready = record created { callbacks = callbacks }

-- An object with a package, and without a verification.
abbrev loaded : FirmwareUpdateObject
loaded = record ready { state = downloaded; package_data = 1 ∷ [] }

abbrev trusting : FirmwareUpdateObject
trusting = record ready { callbacks = record callbacks { verify_package = none } }

abbrev update_calls : List Call
update_calls = push_call (1 ∷ 2 ∷ []) ∷ execute_call 0 2 [] ∷ []

pull_update_example :
    let (s₁, r₁) = write_resource ready 0 1 none (string (codes "coap://h/f")) in
    let s₂ = download_complete s₁ true in
    let (s₃, r₃) = execute_resource s₂ 0 2 [] in
    let s₄ = update_complete s₃ success in
    ((r₁ ≡ ok tt) × (s₁.state ≡ downloading) × (s₁.package_uri ≡ codes "coap://h/f"))
    × (s₂.state ≡ downloaded)
    × ((r₃ ≡ ok tt) × (s₃.state ≡ updating))
    × ((s₄.state ≡ idle) × (s₄.update_result ≡ success) × (s₄.package_data ≡ []))
pull_update_example = pull_update ready (codes "coap://h/f") [] success refl refl refl refl

update_without_package_example :
    let s₁ = (push_package loaded (7 ∷ [])).0 in
    let (s₂, r₂) = execute_resource s₁ 0 2 [] in
    ((s₁.state ≡ downloaded) × (s₁.package_data ≡ []))
    × ((s₂.state ≡ updating) × (s₂.package_data ≡ []) × (r₂ ≡ ok tt))
update_without_package_example = update_without_package loaded (7 ∷ []) [] refl refl refl refl

step-Moves_example :
    Moves (execute_call 0 2 []) downloaded (step loaded (execute_call 0 2 [])).state
step-Moves_example = step-Moves loaded (execute_call 0 2 [])

run_updating_example :
    (before : List Call) × (c : Call) × (after : List Call) × (update_calls ≡ before ++ c ∷ after)
    × ((step (run trusting before) c).state ≡ updating)
    × IsEntry (run trusting before).state c
unfolding run step push_package execute_resource Firmware.verified
run_updating_example = run_updating trusting update_calls refl refl
