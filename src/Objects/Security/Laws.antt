-- ===== src/Objects/Security/Laws.antt =====
-- src/objects/security.cpp: resources of the Security object read, written and typed.
use ferriot.Prelude.{
  ℕ, ◌<◌, ◌≡◌, refl, ap, true, false, Option, none, some, ◌==◌, leb, if◌then◌else◌, arith, All,
}
use ferriot.Prelude.Int.{pos}
use ferriot.Prelude.Words.{word8, word16, word32}
use ferriot.Prelude.Table.{find, find-put}
use ferriot.Result.{Result, ok, err, is_ok}
use ferriot.Resource.{ResourceValue, integer, string, get_resource_type}
use ferriot.Objects.Security
use ferriot.Objects.Security.{
  SecurityInstance, SecurityObject, Field, server_uri, bootstrap_server, security_mode,
  public_key_identity, server_public_key, secret_key, sms_security_mode, sms_key_parameters,
  sms_secret_key, sms_server_number, short_server_id, client_hold_off_time, bootstrap_timeout,
  other, field_of, field_type, list_resources, read_field, read_in, read_resource, write_field,
  store, write_in, write_resource,
}

abbrev field_id : Field → ℕ
field_id server_uri = 0
field_id bootstrap_server = 1
field_id security_mode = 2
field_id public_key_identity = 3
field_id server_public_key = 4
field_id secret_key = 5
field_id sms_security_mode = 6
field_id sms_key_parameters = 7
field_id sms_secret_key = 8
field_id sms_server_number = 9
field_id short_server_id = 10
field_id client_hold_off_time = 11
field_id bootstrap_timeout = 12
field_id other = 13

field_id-field_of : (rid : ℕ) → field_id (field_of rid) ≡ (if leb rid 12 then rid else 13)
unfolding field_of
field_id-field_of rid = ground arith

read_field_type :
    (f : Field) (inst : SecurityInstance) {v : ResourceValue}
    → read_field f inst ≡ ok v
    → field_type f ≡ some (get_resource_type v)
unfolding read_field field_type get_resource_type
read_field_type server_uri inst h = ground arith
read_field_type _ inst h = ground arith

-- A resource that is read has the type that get_resource_type announces.
pub security_resource_type :
    (s : SecurityObject) (iid rid : ℕ) (riid : Option ℕ) {v : ResourceValue}
    → read_resource s iid rid riid ≡ ok v
    → Security.get_resource_type s iid rid ≡ some (get_resource_type v)
unfolding read_resource Security.get_resource_type
security_resource_type s iid rid riid h = in_instance (find iid s.instances) h
  where
    in_instance :
        (o : Option SecurityInstance) {v : ResourceValue}
        → read_in o (field_of rid) ≡ ok v
        → field_type (field_of rid) ≡ some (get_resource_type v)
    in_instance none e = unfold read_in in cc
    in_instance (some inst) e = read_field_type (field_of rid) inst (unfold read_in in e)

-- The value as the instance's member holds it: integers are cast to the member's width.
abbrev pub narrow : Field → ResourceValue → ResourceValue
narrow security_mode (integer i) = integer (pos (word8 i))
narrow short_server_id (integer i) = integer (pos (word16 i))
narrow client_hold_off_time (integer i) = integer (pos (word32 i))
narrow bootstrap_timeout (integer i) = integer (pos (word32 i))
narrow _ v = v

read_field-write_field :
    (f g : Field) (v : ResourceValue) (inst : SecurityInstance) {inst' : SecurityInstance}
    → write_field f v inst ≡ ok inst'
    → (field_id f < 13)
      × (read_field g inst'
          ≡ (if field_id f == field_id g then ok (narrow f v) else read_field g inst))
unfolding write_field read_field
read_field-write_field server_uri server_uri (string x) inst h = ground arith
read_field-write_field _ _ _ inst h = ground arith

same_field :
    (f : Field) (rid rid' : ℕ)
    → field_of rid ≡ f
    → field_id f < 13
    → (field_id f == field_id (field_of rid')) ≡ (rid == rid')
same_field f rid rid' e lt =
    ground (arith, ap field_id e, field_id-field_of rid, field_id-field_of rid')

-- A successful write of one instance, in the table.
read_in-store :
    (s : SecurityObject) (iid rid iid' rid' : ℕ) (v : ResourceValue) (inst : SecurityInstance)
    (r : Result SecurityInstance)
    → find iid s.instances ≡ some inst
    → write_field (field_of rid) v inst ≡ r
    → (store s iid r).1 ≡ ok tt
    → read_in (find iid' (store s iid r).0.instances) (field_of rid') ≡ (
        if iid == iid'
        then if rid == rid'
          then ok (narrow (field_of rid) v)
          else read_in (find iid' s.instances) (field_of rid')
        else read_in (find iid' s.instances) (field_of rid'))
unfolding store read_in
read_in-store s iid rid iid' rid' v inst (err e) found w h = cc
read_in-store s iid rid iid' rid' v inst (ok inst') found w h =
    let (known, reads) = read_field-write_field (field_of rid) (field_of rid') v inst w in
    rw (find-put iid iid' inst' s.instances)
      (ground (arith, found, reads, same_field (field_of rid) rid rid' refl known))

-- After a successful write the resource reads back as the value, with integers cast to the member's
-- width, and every other resource of every instance reads as before.
pub security_read-write :
    (s : SecurityObject) (iid rid iid' rid' : ℕ) (riid riid' : Option ℕ) (v : ResourceValue)
    → (write_resource s iid rid riid v).1 ≡ ok tt
    → read_resource (write_resource s iid rid riid v).0 iid' rid' riid' ≡ (
        if iid == iid'
        then if rid == rid' then ok (narrow (field_of rid) v) else read_resource s iid' rid' riid'
        else read_resource s iid' rid' riid')
unfolding write_resource read_resource
security_read-write s iid rid iid' rid' riid riid' v = in_instance (find iid s.instances) refl
  where
    in_instance :
        (o : Option SecurityInstance)
        → find iid s.instances ≡ o
        → (write_in s iid o (field_of rid) v).1 ≡ ok tt
        → read_in (find iid' (write_in s iid o (field_of rid) v).0.instances) (field_of rid') ≡ (
            if iid == iid'
            then if rid == rid'
              then ok (narrow (field_of rid) v)
              else read_in (find iid' s.instances) (field_of rid')
            else read_in (find iid' s.instances) (field_of rid'))
    in_instance none e h = unfold write_in in cc
    in_instance (some inst) e h =
        unfold write_in in
        read_in-store s iid rid iid' rid' v inst (write_field (field_of rid) v inst) e refl h

-- A write that fails changes nothing.
pub security_write-err :
    (s : SecurityObject) (iid rid : ℕ) (riid : Option ℕ) (v : ResourceValue)
    → is_ok (write_resource s iid rid riid v).1 ≡ false
    → (write_resource s iid rid riid v).0 ≡ s
unfolding write_resource
security_write-err s iid rid riid v = in_instance (find iid s.instances)
  where
    stored : (r : Result SecurityInstance) → is_ok (store s iid r).1 ≡ false → (store s iid r).0 ≡ s
    stored (ok inst) h = unfold store in cc
    stored (err e) h = unfold store in refl

    in_instance :
        (o : Option SecurityInstance)
        → is_ok (write_in s iid o (field_of rid) v).1 ≡ false
        → (write_in s iid o (field_of rid) v).0 ≡ s
    in_instance none h = unfold write_in in refl
    in_instance (some inst) h = unfold write_in in stored (write_field (field_of rid) v inst) h

-- Every resource that is listed for an instance can be read in it.
pub list_resources-readable :
    (s : SecurityObject) (iid : ℕ) (riid : Option ℕ) {inst : SecurityInstance}
    → find iid s.instances ≡ some inst
    → All (λ rid. is_ok (read_resource s iid rid riid) ≡ true) (list_resources s iid)
unfolding list_resources read_resource field_of read_field
list_resources-readable s iid riid {inst} found = rw found readable
  where
    readable : All (λ rid. is_ok (read_in (some inst) (field_of rid)) ≡ true) (list_resources s iid)
    readable = unfold read_in in ground arith
