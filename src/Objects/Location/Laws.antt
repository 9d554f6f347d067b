-- ===== src/Objects/Location/Laws.antt =====
-- src/objects/location.cpp: which positions are read.
use ferriot.Prelude.{ℕ, ◌≡◌, Bool, true, not, ◌||◌, Option, none, List, [], ◌∷◌, arith}
use ferriot.Result.{is_ok}
use ferriot.Objects.Location.{
  GpsPosition, LocationObject, is_valid, update_position, refresh_position, read_position,
  read_resource,
}

module _ (within : ℕ → ℕ → Bool) where
  -- What is called: a position is set, or a resource read, with the provider's answer.
  pub data Use : Type 0 where
    update : GpsPosition → Use
    read : Option GpsPosition → ℕ → ℕ → Use

  abbrev pub step : LocationObject → Use → LocationObject
  step s (update position) = update_position within s position
  step s (read answer iid rid) = (read_resource within s answer iid rid none).0

  abbrev pub run : LocationObject → List Use → LocationObject
  run s [] = s
  run s (use' ∷ uses) = run (step s use') uses

  -- A position that is there is valid.
  abbrev pub IsLocated : LocationObject → Type 0
  IsLocated s = (not s.has_position || is_valid within s.position) ≡ true

  step-IsLocated : (use' : Use) (s : LocationObject) → IsLocated s → IsLocated (step s use')
  unfolding update_position read_resource refresh_position
  step-IsLocated (update position) s h = ground arith
  step-IsLocated (read answer iid rid) s h = ground arith

  run-IsLocated : (uses : List Use) (s : LocationObject) → IsLocated s → IsLocated (run s uses)
  run-IsLocated [] s h = h
  run-IsLocated (use' ∷ uses) s h = run-IsLocated uses (step s use') (step-IsLocated use' s h)

  -- Whatever has been set and read before, from an object whose position is valid if it has one: a
  -- resource is read only of a valid position, the object's own after the read.
  pub read_resource-run :
      (uses : List Use) (s : LocationObject) (answer : Option GpsPosition) (iid rid : ℕ)
      (riid : Option ℕ)
      → IsLocated s
      → is_ok (read_resource within (run s uses) answer iid rid riid).1 ≡ true
      → let (s', r) = read_resource within (run s uses) answer iid rid riid in
        (is_valid within s'.position ≡ true) × (r ≡ read_position s'.position rid)
  unfolding read_resource refresh_position update_position
  read_resource-run uses s answer iid rid riid v h = ground (arith, run-IsLocated uses s v)
