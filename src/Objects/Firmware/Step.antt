-- ===== src/Objects/Firmware/Step.antt =====
-- The state machine of src/objects/firmware_update.cpp: the calls on the object, and the changes of
-- state that they can make.
use ferriot.Prelude.{
  ℕ, ◌≡◌, refl, Bool, true, false, Option, List, [], ◌∷◌, ◌++◌, Bytes, arith, ap, inl, inr,
  Bool-cases,
}
use ferriot.Resource.{ResourceValue}
use ferriot.Objects.Firmware.{
  FirmwareState, idle, downloading, downloaded, updating, ◌is◌, UpdateResult, FirmwareProtocol,
  FirmwareDeliveryMethod, FirmwareUpdateCallbacks, FirmwareUpdateObject, write_resource,
  execute_resource, push_package, download_complete, update_complete, set_callbacks, set_state,
  set_update_result, set_package_info, set_supported_protocols, set_delivery_method,
}

pub data Call : Type 0 where
  write_call : ℕ → ℕ → Option ℕ → ResourceValue → Call
  execute_call : ℕ → ℕ → Bytes → Call
  push_call : Bytes → Call
  download_call : Bool → Call
  update_call : UpdateResult → Call
  callbacks_call : FirmwareUpdateCallbacks → Call
  state_call : FirmwareState → Call
  result_call : UpdateResult → Call
  info_call : Bytes → Bytes → Call
  protocols_call : List FirmwareProtocol → Call
  delivery_call : FirmwareDeliveryMethod → Call

unfoldable pub step : FirmwareUpdateObject → Call → FirmwareUpdateObject
unfolding write_resource execute_resource push_package download_complete update_complete
    set_callbacks set_state set_update_result set_package_info set_supported_protocols
    set_delivery_method
step s (write_call iid rid riid v) = (write_resource s iid rid riid v).0
step s (execute_call iid rid arguments) = (execute_resource s iid rid arguments).0
step s (push_call bytes) = (push_package s bytes).0
step s (download_call done) = download_complete s done
step s (update_call result) = update_complete s result
step s (callbacks_call callbacks) = set_callbacks s callbacks
step s (state_call state) = set_state s state
step s (result_call result) = set_update_result s result
step s (info_call name version) = set_package_info s name version
step s (protocols_call protocols) = set_supported_protocols s protocols
step s (delivery_call method) = set_delivery_method s method

unfoldable pub run : FirmwareUpdateObject → List Call → FirmwareUpdateObject
unfolding step
run s [] = s
run s (c ∷ cs) = run (step s c) cs

-- The edges of the state machine.
pub data Transition : FirmwareState → FirmwareState → Type 0 where
  stay : (a : FirmwareState) → Transition a a
  download_started : Transition idle downloading
  package_pushed : Transition idle downloaded
  download_done : Transition downloading downloaded
  update_started : Transition downloaded updating
  finished : (a : FirmwareState) → Transition a idle

-- The same as a test.
abbrev allowed : FirmwareState → FirmwareState → Bool
allowed a idle = true
allowed idle downloading = true
allowed downloading downloading = true
allowed idle downloaded = true
allowed downloading downloaded = true
allowed downloaded downloaded = true
allowed downloaded updating = true
allowed updating updating = true
allowed _ _ = false

allowed-Transition : (a b : FirmwareState) → allowed a b ≡ true → Transition a b
allowed-Transition a idle h = finished a
allowed-Transition idle downloading h = download_started
allowed-Transition downloading downloading h = stay downloading
allowed-Transition idle downloaded h = package_pushed
allowed-Transition downloading downloaded h = download_done
allowed-Transition downloaded downloaded h = stay downloaded
allowed-Transition downloaded updating h = update_started
allowed-Transition updating updating h = stay updating
allowed-Transition _ _ h = cc

abbrev sets_state : Call → Bool
sets_state (state_call state) = true
sets_state _ = false

step-allowed :
    (s : FirmwareUpdateObject) (c : Call)
    → sets_state c ≡ false
    → allowed s.state (step s c).state ≡ true
unfolding step
step-allowed s (write_call iid rid riid v) own = ground arith
step-allowed s (execute_call iid rid arguments) own = ground arith
step-allowed s (push_call bytes) own = ground arith
step-allowed s (download_call done) own = ground arith
step-allowed s (update_call result) own = ground arith
step-allowed s _ own = ground arith

-- What a call may do to the state: set_state sets the one that it is given.
abbrev pub Moves : Call → FirmwareState → FirmwareState → Type 0
Moves (state_call state) a b = b ≡ state
Moves _ a b = Transition a b

-- Every call but set_state moves the state along an edge of the machine, or leaves it; set_state sets
-- the state that it is given, whatever the state was.
pub step-Moves : (s : FirmwareUpdateObject) (c : Call) → Moves c s.state (step s c).state
step-Moves s (state_call state) = unfold step in refl
step-Moves s (write_call iid rid riid v) =
    allowed-Transition s.state _ (step-allowed s (write_call iid rid riid v) refl)
step-Moves s (execute_call iid rid arguments) =
    allowed-Transition s.state _ (step-allowed s (execute_call iid rid arguments) refl)
step-Moves s (push_call bytes) =
    allowed-Transition s.state _ (step-allowed s (push_call bytes) refl)
step-Moves s (download_call done) =
    allowed-Transition s.state _ (step-allowed s (download_call done) refl)
step-Moves s (update_call result) =
    allowed-Transition s.state _ (step-allowed s (update_call result) refl)
step-Moves s (callbacks_call callbacks) =
    allowed-Transition s.state _ (step-allowed s (callbacks_call callbacks) refl)
step-Moves s (result_call result) =
    allowed-Transition s.state _ (step-allowed s (result_call result) refl)
step-Moves s (info_call name version) =
    allowed-Transition s.state _ (step-allowed s (info_call name version) refl)
step-Moves s (protocols_call protocols) =
    allowed-Transition s.state _ (step-allowed s (protocols_call protocols) refl)
step-Moves s (delivery_call method) =
    allowed-Transition s.state _ (step-allowed s (delivery_call method) refl)

is-eq : (a b : FirmwareState) → (a is b) ≡ true → a ≡ b
is-eq a b h = ground arith

-- The calls that lead to Updating, by the state before: executing resource 2 of instance 0 in
-- Downloaded, and set_state.
abbrev pub IsEntry : FirmwareState → Call → Type 0
IsEntry a (execute_call iid rid arguments) = (a ≡ downloaded) × (iid ≡ 0) × (rid ≡ 2)
IsEntry a (state_call state) = state ≡ updating
IsEntry a _ = ⊥

step-IsEntry :
    (s : FirmwareUpdateObject) (c : Call)
    → (s.state is updating) ≡ false
    → (step s c).state ≡ updating
    → IsEntry s.state c
unfolding step
step-IsEntry s (execute_call iid rid arguments) h e = ground arith
step-IsEntry s (state_call state) h e = e
step-IsEntry s (write_call iid rid riid v) h e = absurd (ground arith)
step-IsEntry s (push_call bytes) h e = absurd (ground arith)
step-IsEntry s (download_call done) h e = absurd (ground arith)
step-IsEntry s (update_call result) h e = absurd (ground arith)
step-IsEntry s _ h e = absurd (ground arith)

-- A run of any calls that ends in Updating and did not begin there has a call that led to Updating:
-- executing resource 2 of instance 0, in the state Downloaded, or set_state with Updating.
pub run_updating :
    (s : FirmwareUpdateObject) (cs : List Call)
    → (s.state is updating) ≡ false
    → (run s cs).state ≡ updating
    → (before : List Call) × (c : Call) × (after : List Call) × (cs ≡ before ++ c ∷ after)
      × ((step (run s before) c).state ≡ updating)
      × IsEntry (run s before).state c
unfolding run
run_updating s [] h e = absurd (ground arith)
run_updating s (c ∷ cs) h e = elim (Bool-cases ((step s c).state is updating)) [
  | inl now ↦
      let reached = is-eq (step s c).state updating now in
      ([], c, cs, refl, reached, step-IsEntry s c h reached)
  | inr later ↦
      let (before, d, after, split, reached, entry) = run_updating (step s c) cs later e in
      (c ∷ before, d, after, ap (◌∷◌ c) split, reached, entry)
]
