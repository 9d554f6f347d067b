-- ===== src/Tests/Instances.antt =====
-- The instances of src/objects/security.cpp and src/objects/server.cpp on
-- concrete objects.
use ferriot.Prelude.{ℕ, ◌-◌, ◌^◌, ◌≡◌, refl, arith, none, some, [], ◌∷◌}
use ferriot.Prelude.Table.{find}
use ferriot.Result.{fail, bad_request}
use ferriot.Objects.Instances.{Instances, has_instance, create_instance}
use ferriot.Objects.Instances.Laws.{IsBounded, create_instance-wraps}

-- Two instances, by their identifiers, of numbers.
abbrev numbers : Instances ℕ
numbers = record { instances = (0, 10) ∷ (4, 14) ∷ []; next_instance_id = 5 }

numbers-IsBounded : IsBounded numbers
numbers-IsBounded = ground arith

create_instance-wraps_example :
    (create_instance 17 (create_instance 17 numbers (some (2 ^ 16 - 1))).0 none).1
    ≡ fail bad_request "Instance already exists"
unfolding has_instance find
create_instance-wraps_example = create_instance-wraps 17 numbers (omega arith) refl refl
