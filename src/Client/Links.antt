-- ===== src/Client/Links.antt =====
-- src/client.cpp: the lists of links in CoRE Link Format, of process_discover and of
-- build_registration_payload.
pub mod RoundTrip
use ferriot.Prelude.{
  ℕ, Bool, true, false, Option, none, some, List, [], ◌∷◌, ◌++◌, if◌then◌else◌, Bytes,
}
use ferriot.Prelude.Table.{Table}
use ferriot.Types.{ObjectPath, instance_path, resource_path}
use ferriot.Types.Path.{to_string}
use ferriot.Object.{Object}
use ferriot.Transport
use ferriot.Transport.{CoapResponse, content, respond}
use ferriot.Client.Requests.{
  Target, whole_object, of_instance, of_resource, of_resource_instance, target,
}

-- `"<" << … << ">"` round the numbers of a path.
abbrev pub link : ObjectPath → Bytes
link path = b'<' ∷ (to_string path ++ b'>' ∷ [])

-- The links that are left, with a comma before each but the first of all.
unfoldable pub links : Bool → List ObjectPath → Bytes
links first [] = []
links first (path ∷ paths) = (if first then [] else b',' ∷ []) ++ (link path ++ links false paths)

abbrev pub map_list {ℓ κ} : {A : Type ℓ} {B : Type κ} → (A → B) → List A → List B
map_list f [] = []
map_list f (x ∷ xs) = f x ∷ map_list f xs

module _ {S : Type 0} where
  -- The two loops of build_registration_payload.
  unfoldable pub instance_paths : Table (Object S) → S → List ObjectPath
  instance_paths [] s = []
  instance_paths ((oid, object) ∷ objects) s =
      map_list (instance_path oid) (object.list_instances s) ++ instance_paths objects s

  unfoldable pub build_registration_payload : Table (Object S) → S → Bytes
  build_registration_payload objects s = links true (instance_paths objects s)

  -- The loops of process_discover over an object.
  unfoldable pub resource_paths : Object S → S → ℕ → List ℕ → List ObjectPath
  resource_paths object s oid [] = []
  resource_paths object s oid (iid ∷ iids) =
      map_list (resource_path oid iid) (object.list_resources s iid)
      ++ resource_paths object s oid iids

  unfoldable pub discovered : Object S → S → ℕ → Target → List ObjectPath
  discovered object s oid whole_object = resource_paths object s oid (object.list_instances s)
  discovered object s oid (of_instance iid) =
      map_list (resource_path oid iid) (object.list_resources s iid)
  discovered object s oid (of_resource iid rid) = resource_path oid iid rid ∷ []
  discovered object s oid (of_resource_instance iid rid riid) = []

  discover_object : Option (Object S) → S → ℕ → Target → CoapResponse
  discover_object none s oid t = respond Transport.not_found
  discover_object (some object) s oid t = record (respond content) {
    payload = links true (discovered object s oid t);
  }

  unfoldable pub process_discover : (ℕ → Option (Object S)) → S → ObjectPath → CoapResponse
  unfolding discover_object discovered
  process_discover objects s path =
      discover_object (objects path.object_id) s path.object_id (target path)
