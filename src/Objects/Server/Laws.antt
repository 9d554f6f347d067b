-- ===== src/Objects/Server/Laws.antt =====
-- src/objects/server.cpp: resources of the Server object read, written and typed.
use mathlib.Core.Option
use ferriot.Prelude.{
  ℕ, ◌<◌, ◌≡◌, refl, ap, Bool, true, false, Option, none, some, [], ◌==◌, leb, if◌then◌else◌, arith,
  not, ◌&&◌, Bytes, All,
}
use ferriot.Prelude.Int.{pos}
use ferriot.Prelude.Words.{word16, word32}
use ferriot.Prelude.Table.{find, find-put}
use ferriot.Result.{Result, ok, err, is_ok}
use ferriot.Resource.{ResourceValue, integer, string, get_resource_type}
use ferriot.Objects.Server
use ferriot.Objects.Server.{
  ServerInstance, ServerObject, Field, short_server_id, lifetime, default_min_period,
  default_max_period, disable, disable_timeout, notification_storing, binding,
  registration_update_trigger, bootstrap_request_trigger, other, field_of, field_type,
  list_resources, read_field, read_in, read_resource, write_field, store, write_in, write_resource,
  execute_field, execute_in, execute_resource,
}

abbrev field_id : Field → ℕ
field_id short_server_id = 0
field_id lifetime = 1
field_id default_min_period = 2
field_id default_max_period = 3
field_id disable = 4
field_id disable_timeout = 5
field_id notification_storing = 6
field_id binding = 7
field_id registration_update_trigger = 8
field_id bootstrap_request_trigger = 9
field_id other = 10

field_id-field_of : (rid : ℕ) → field_id (field_of rid) ≡ (if leb rid 9 then rid else 10)
unfolding field_of
field_id-field_of rid = ground arith

read_field_type :
    (f : Field) (inst : ServerInstance) {v : ResourceValue}
    → read_field f inst ≡ ok v
    → field_type f ≡ some (get_resource_type v)
unfolding read_field field_type get_resource_type
read_field_type lifetime inst h = ground arith
read_field_type _ inst h = ground arith

-- A resource that is read has the type that get_resource_type announces.
pub server_resource_type :
    (s : ServerObject) (iid rid : ℕ) (riid : Option ℕ) {v : ResourceValue}
    → read_resource s iid rid riid ≡ ok v
    → Server.get_resource_type s iid rid ≡ some (get_resource_type v)
unfolding read_resource Server.get_resource_type
server_resource_type s iid rid riid h = in_instance (find iid s.table.instances) h
  where
    in_instance :
        (o : Option ServerInstance) {v : ResourceValue}
        → read_in o (field_of rid) ≡ ok v
        → field_type (field_of rid) ≡ some (get_resource_type v)
    in_instance none e = unfold read_in in cc
    in_instance (some inst) e = read_field_type (field_of rid) inst (unfold read_in in e)

-- The value as the instance's member holds it: integers are cast to the member's width.
abbrev pub narrow : Field → ResourceValue → ResourceValue
narrow short_server_id (integer i) = integer (pos (word16 i))
narrow lifetime (integer i) = integer (pos (word32 i))
narrow default_min_period (integer i) = integer (pos (word32 i))
narrow default_max_period (integer i) = integer (pos (word32 i))
narrow disable_timeout (integer i) = integer (pos (word32 i))
narrow _ v = v

read_field-write_field :
    (f g : Field) (v : ResourceValue) (inst : ServerInstance) {inst' : ServerInstance}
    → write_field f v inst ≡ ok inst'
    → (field_id f < 10)
      × (read_field g inst'
          ≡ (if field_id f == field_id g then ok (narrow f v) else read_field g inst))
unfolding write_field read_field
read_field-write_field binding binding (string x) inst h = ground arith
read_field-write_field _ _ _ inst h = ground arith

same_field :
    (f : Field) (rid rid' : ℕ)
    → field_of rid ≡ f
    → field_id f < 10
    → (field_id f == field_id (field_of rid')) ≡ (rid == rid')
same_field f rid rid' e lt =
    ground (arith, ap field_id e, field_id-field_of rid, field_id-field_of rid')

-- A successful write of one instance, in the table.
read_in-store :
    (s : ServerObject) (iid rid iid' rid' : ℕ) (v : ResourceValue) (inst : ServerInstance)
    (r : Result ServerInstance)
    → find iid s.table.instances ≡ some inst
    → write_field (field_of rid) v inst ≡ r
    → (store s iid r).1 ≡ ok tt
    → read_in (find iid' (store s iid r).0.table.instances) (field_of rid') ≡ (
        if iid == iid'
        then if rid == rid'
          then ok (narrow (field_of rid) v)
          else read_in (find iid' s.table.instances) (field_of rid')
        else read_in (find iid' s.table.instances) (field_of rid'))
unfolding store read_in
read_in-store s iid rid iid' rid' v inst (err e) found w h = cc
read_in-store s iid rid iid' rid' v inst (ok inst') found w h =
    let (known, reads) = read_field-write_field (field_of rid) (field_of rid') v inst w in
    rw (find-put iid iid' inst' s.table.instances)
      (ground (arith, found, reads, same_field (field_of rid) rid rid' refl known))

-- After a successful write the resource reads back as the value, with integers cast to the member's
-- width, and every other resource of every instance reads as before.
pub server_read-write :
    (s : ServerObject) (iid rid iid' rid' : ℕ) (riid riid' : Option ℕ) (v : ResourceValue)
    → (write_resource s iid rid riid v).1 ≡ ok tt
    → read_resource (write_resource s iid rid riid v).0 iid' rid' riid' ≡ (
        if iid == iid'
        then if rid == rid' then ok (narrow (field_of rid) v) else read_resource s iid' rid' riid'
        else read_resource s iid' rid' riid')
unfolding write_resource read_resource
server_read-write s iid rid iid' rid' riid riid' v = in_instance (find iid s.table.instances) refl
  where
    in_instance :
        (o : Option ServerInstance)
        → find iid s.table.instances ≡ o
        → (write_in s iid o (field_of rid) v).1 ≡ ok tt
        → read_in (find iid' (write_in s iid o (field_of rid) v).0.table.instances) (field_of rid')
          ≡ (if iid == iid'
              then if rid == rid'
                then ok (narrow (field_of rid) v)
                else read_in (find iid' s.table.instances) (field_of rid')
              else read_in (find iid' s.table.instances) (field_of rid'))
    in_instance none e h = unfold write_in in cc
    in_instance (some inst) e h =
        unfold write_in in
        read_in-store s iid rid iid' rid' v inst (write_field (field_of rid) v inst) e refl h

-- A write that fails changes nothing.
pub server_write-err :
    (s : ServerObject) (iid rid : ℕ) (riid : Option ℕ) (v : ResourceValue)
    → is_ok (write_resource s iid rid riid v).1 ≡ false
    → (write_resource s iid rid riid v).0 ≡ s
unfolding write_resource
server_write-err s iid rid riid v = in_instance (find iid s.table.instances)
  where
    stored : (r : Result ServerInstance) → is_ok (store s iid r).1 ≡ false → (store s iid r).0 ≡ s
    stored (ok inst) h = unfold store in cc
    stored (err e) h = unfold store in refl

    in_instance :
        (o : Option ServerInstance)
        → is_ok (write_in s iid o (field_of rid) v).1 ≡ false
        → (write_in s iid o (field_of rid) v).0 ≡ s
    in_instance none h = unfold write_in in refl
    in_instance (some inst) h = unfold write_in in stored (write_field (field_of rid) v inst) h

abbrev is_executable : Field → Bool
is_executable disable = true
is_executable registration_update_trigger = true
is_executable bootstrap_request_trigger = true
is_executable _ = false

abbrev pub is_some {ℓ} : {A : Type ℓ} → Option A → Bool
is_some none = false
is_some (some a) = true

-- Each resource that is listed for an instance can be read in it or executed in it, and not both.
pub list_resources-usable :
    (s : ServerObject) (iid : ℕ) (riid : Option ℕ) {inst : ServerInstance}
    → find iid s.table.instances ≡ some inst
    → All
        (λ rid.
          is_ok (read_resource s iid rid riid) ≡ not (is_ok (execute_resource s iid rid []).1))
        (list_resources s iid)
unfolding list_resources read_resource execute_resource
list_resources-usable s iid riid {inst} found =
    rw found (unfold field_of read_in read_field execute_in execute_field in ground arith)

-- The registration update callback is called exactly by executing resource 8 of an instance that is
-- there, with that instance's short server id, where a callback is set.
pub execute_resource-callback :
    (s : ServerObject) (iid rid : ℕ) (arguments : Bytes)
    → (execute_resource s iid rid arguments).0 ≡ (
        if s.has_callback && rid == 8
        then Option.map ServerInstance.short_server_id (find iid s.table.instances)
        else none)
unfolding execute_resource execute_in execute_field field_of
execute_resource-callback s iid rid arguments = ground arith
