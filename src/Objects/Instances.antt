-- ===== src/Objects/Instances.antt =====
-- The instances of a multiple-instance object: the members `instances_` and `next_instance_id_`
-- and the operations on them, which src/objects/security.cpp and src/objects/server.cpp have in
-- the same words, over the instance type and its default value.
--
-- An operation that changes the object returns it with the result.
pub mod Laws
use ferriot.Prelude.{
  ℕ, ◌+◌, ◌%◌, ◌^◌, Bool, true, false, Option, none, some, List, [], ◌∷◌, leb, if◌then◌else◌,
}
use ferriot.Prelude.Table.{Table, find, put, erase, keys}
use ferriot.Result.{Result, ok, err, fail, bad_request, not_found}

pub record Instances (V : Type 0) : Type 0 where
  pub instances : Table V
  pub next_instance_id : ℕ

abbrev pub or_else {ℓ} : {A : Type ℓ} → Option A → A → A
or_else none d = d
or_else (some a) d = a

abbrev pub is_some {ℓ} : {A : Type ℓ} → Option A → Bool
is_some none = false
is_some (some a) = true

module _ {V : Type 0} where
  unfoldable pub empty : Instances V
  empty = record { instances = []; next_instance_id = 0 }

  unfoldable pub list_instances : Instances V → List ℕ
  list_instances s = keys s.instances

  unfoldable pub has_instance : Instances V → ℕ → Bool
  has_instance s iid = is_some (find iid s.instances)

  unfoldable pub get_instance : Instances V → ℕ → Option V
  get_instance s iid = find iid s.instances

  -- With the new instance's value, `V{}` in the source.
  unfoldable pub create_instance : V → Instances V → Option ℕ → Instances V × Result ℕ
  create_instance fresh s suggested =
      let new_id = or_else suggested s.next_instance_id in
      if is_some (find new_id s.instances)
      then (s, fail bad_request "Instance already exists")
      else (
        record s {
          instances = put new_id fresh s.instances;
          next_instance_id =
              if leb s.next_instance_id new_id then (new_id + 1) % 2 ^ 16 else s.next_instance_id;
        },
        ok new_id,
      )

  unfoldable pub delete_instance : Instances V → ℕ → Instances V × Result (Unit {0})
  delete_instance s iid =
      if is_some (find iid s.instances)
      then (record s { instances = erase iid s.instances }, ok tt)
      else (s, fail not_found "Instance not found")

  unfoldable pub configured : V → Instances V × Result ℕ → Instances V × Result ℕ
  configured config (s, ok iid) = (record s { instances = put iid config s.instances }, ok iid)
  configured config (s, err e) = (s, err e)

  unfoldable pub add_server : V → Instances V → V → Instances V × Result ℕ
  unfolding create_instance configured
  add_server fresh s config = configured config (create_instance fresh s none)

  -- The loop of find_by_short_server_id, by the test on an instance.
  unfoldable pub find_by : (V → Bool) → Table V → Option V
  find_by test [] = none
  find_by test ((_, inst) ∷ rest) = if test inst then some inst else find_by test rest
