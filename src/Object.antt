-- ===== src/Object.antt =====
-- include/lwm2m/object.hpp and src/object.cpp: the interface of an object, and what the base
-- classes answer.
--
-- The virtual functions are a record over the type of the state that they read and change: all
-- objects of a client share one state, so that an object that calls another through a callback is
-- among them. The transaction functions have empty bodies and nothing calls them.
pub mod Standard
pub mod Announced
use ferriot.Prelude.{ℕ, Bool, true, false, Option, none, some, List, [], ◌∷◌, ◌==◌, Bytes}
use ferriot.Prelude.Table.{Table, find, put}
use ferriot.Result.{Result, ok, fail, method_not_allowed}
use ferriot.Resource.{ResourceValue, ResourceType, Resource}

pub record Object (S : Type 0) : Type 0 where
  pub list_instances : S → List ℕ
  pub has_instance : S → ℕ → Bool
  pub create_instance : S → Option ℕ → S × Result ℕ
  pub delete_instance : S → ℕ → S × Result (Unit {0})
  pub list_resources : S → ℕ → List ℕ
  pub get_resource_type : S → ℕ → ℕ → Option ResourceType
  pub read_resource : S → ℕ → ℕ → Option ℕ → Result ResourceValue
  pub write_resource : S → ℕ → ℕ → Option ℕ → ResourceValue → S × Result (Unit {0})
  pub execute_resource : S → ℕ → ℕ → Bytes → S × Result (Unit {0})

-- The member resources_ of the base class.
abbrev pub Resources : Type 0
Resources = Table Resource

-- `emplace`, which keeps an entry that is there.
kept : Resources → Resource → Option Resource → Resources
kept resources resource none = put resource.def.id resource resources
kept resources resource (some old) = resources

unfoldable pub register_resource : Resources → Resource → Resources
unfolding kept
register_resource resources resource = kept resources resource (find resource.def.id resources)

unfoldable pub find_resource : Resources → ℕ → Option Resource
find_resource resources rid = find rid resources

type_of : Option Resource → Option ResourceType
type_of none = none
type_of (some resource) = some resource.def.type

-- Object::get_resource_type.
unfoldable pub base_resource_type : Resources → ℕ → Option ResourceType
unfolding find_resource type_of
base_resource_type resources rid = type_of (find_resource resources rid)

module _ {S : Type 0} where
  -- Object::execute_resource.
  abbrev pub base_execute_resource : S → ℕ → ℕ → Bytes → S × Result (Unit {0})
  base_execute_resource s iid rid arguments =
      (s, fail method_not_allowed "Resource is not executable")

  -- SingleInstanceObject.
  abbrev pub single_list_instances : S → List ℕ
  single_list_instances s = 0 ∷ []

  abbrev pub single_has_instance : S → ℕ → Bool
  single_has_instance s iid = iid == 0

  abbrev pub single_create_instance : S → Option ℕ → S × Result ℕ
  single_create_instance s suggested = (s, fail method_not_allowed "Single instance object")

  abbrev pub single_delete_instance : S → ℕ → S × Result (Unit {0})
  single_delete_instance s iid = (s, fail method_not_allowed "Single instance object")
