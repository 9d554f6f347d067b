-- ===== src/Tests/Objects.antt =====
-- src/objects/connectivity.cpp and src/objects/location.cpp on concrete objects.
use ferriot.Prelude.{ℕ, ◌≡◌, refl, Bool, true, none, [], ◌∷◌, leb}
use ferriot.Prelude.Int.{pos}
use ferriot.Objects.Location
use ferriot.Objects.Location.{
  GpsPosition, LocationObject, location_object, is_valid, read_position, update_position,
  refresh_position,
}
use ferriot.Objects.Location.Laws.{update, read, run, read_resource-run}

abbrev here : GpsPosition
here = record {
  latitude = 40;
  longitude = 3;
  altitude = 600;
  speed = 0;
  radius = 5;
  timestamp = pos 9;
}

-- Small numbers stand for their doubles.
abbrev within : ℕ → ℕ → Bool
within x n = leb x n

read_resource-run_example :
    let (s', r) =
      Location.read_resource within
        (run within (location_object (pos 0)) (update here ∷ read none 0 1 ∷ []))
        none
        0
        2
        none in
    (is_valid within s'.position ≡ true) × (r ≡ read_position s'.position 2)
unfolding Location.read_resource update_position refresh_position read_position
read_resource-run_example =
    read_resource-run within (update here ∷ read none 0 1 ∷ []) (location_object (pos 0)) none 0 2
      none refl refl
