-- ===== src/Objects/Location.antt =====
-- include/lwm2m/objects/location.hpp and src/objects/location.cpp: the Location object (6).
--
-- The bits of a double stand for it, as in ResourceValue; `within x n` is the test that x is from
-- -n to n. A read asks the provider for a position, which is given as its answer, and keeps it.
pub mod Laws
use ferriot.Prelude.{
  ℕ, Bool, true, false, ◌&&◌, Option, none, some, List, [], ◌∷◌, ◌==◌, if◌then◌else◌, Bytes,
}
use ferriot.Prelude.Int.{ℤ}
use ferriot.Result.{Result, ok, fail, not_found, method_not_allowed}
use ferriot.Resource.{ResourceValue, float, time}

pub record GpsPosition : Type 0 where
  pub latitude : ℕ
  pub longitude : ℕ
  pub altitude : ℕ
  pub speed : ℕ
  pub radius : ℕ
  pub timestamp : ℤ

pub record LocationObject : Type 0 where
  pub position : GpsPosition
  pub has_position : Bool
  pub has_provider : Bool

-- The constructor, at a time of the clock; 0 is the bits of 0.0.
abbrev pub location_object : ℤ → LocationObject
location_object now = record {
  position = record {
    latitude = 0;
    longitude = 0;
    altitude = 0;
    speed = 0;
    radius = 0;
    timestamp = now;
  };
  has_position = false;
  has_provider = false;
}

unfoldable pub list_resources : LocationObject → ℕ → List ℕ
list_resources s iid = 0 ∷ 1 ∷ 2 ∷ 3 ∷ 5 ∷ 6 ∷ []

unfoldable pub set_gps_provider : LocationObject → LocationObject
set_gps_provider s = record s { has_provider = true }

-- The switch of read_resource.
unfoldable pub read_position : GpsPosition → ℕ → Result ResourceValue
read_position position rid =
    if rid == 0
    then ok (float position.latitude)
    else if rid == 1
    then ok (float position.longitude)
    else if rid == 2
    then ok (float position.altitude)
    else if rid == 3
    then ok (float position.radius)
    else if rid == 4
    then fail not_found "Velocity not implemented"
    else if rid == 5
    then ok (time position.timestamp)
    else if rid == 6
    then ok (float position.speed)
    else fail not_found "Resource not found"

unfoldable pub write_resource :
    LocationObject → ℕ → ℕ → Option ℕ → ResourceValue → LocationObject × Result (Unit {0})
write_resource s iid rid riid v = (
  s,
  if iid == 0
      then fail method_not_allowed "Location resources are read-only"
      else fail not_found "Instance not found",
)

unfoldable pub execute_resource :
    LocationObject → ℕ → ℕ → Bytes → LocationObject × Result (Unit {0})
execute_resource s iid rid arguments = (
  s,
  if iid == 0
      then fail method_not_allowed "Resource is not executable"
      else fail not_found "Instance not found",
)

module _ (within : ℕ → ℕ → Bool) where
  abbrev pub is_valid : GpsPosition → Bool
  is_valid position = within position.latitude 90 && within position.longitude 180

  unfoldable pub update_position : LocationObject → GpsPosition → LocationObject
  update_position s position = record s { position = position; has_position = is_valid position }

  -- The provider's answer, where there is a provider.
  unfoldable pub refresh_position : LocationObject → Option GpsPosition → LocationObject
  refresh_position s none = s
  refresh_position s (some position) = if s.has_provider then update_position s position else s

  unfoldable pub read_resource :
      LocationObject → Option GpsPosition → ℕ → ℕ → Option ℕ → LocationObject × Result ResourceValue
  read_resource s answer iid rid riid =
      let s' = refresh_position s answer in
      if iid == 0
      then (
        s',
        if s'.has_position
            then read_position s'.position rid
            else fail not_found "Position not available",
      )
      else (s, fail not_found "Instance not found")
