-- ===== src/Client/Requests/PutGet.antt =====
-- src/client.cpp with src/objects/server.cpp: a PUT of a resource of the Server object, and a GET.
use ferriot.Prelude.{ℕ, ◌≡◌, refl, ◌∙◌, none, some, [], ◌∷◌, Bytes, arith}
use ferriot.Prelude.Int.{ℤ}
use ferriot.Result.{ok}
use ferriot.Types.{resource_path}
use ferriot.Resource.{ResourceValue, get_resource_type}
use ferriot.Tlv.{resource}
use ferriot.Tlv.Encoder.{encode_resource}
use ferriot.Tlv.Decoder.{decode}
use ferriot.Tlv.Values.{IsStorable, stored}
use ferriot.Tlv.Structure.{Fits, leaves}
use ferriot.Objects.Server
use ferriot.Objects.Server.{field_of, field_type, Field}
use ferriot.Objects.Server.Laws.{narrow, server_read-write}
use ferriot.Object.Standard.{Standard, standard_objects, server_object}
use ferriot.Transport.{changed, content, respond}
use ferriot.Client.Requests.{levels, answer, process_read, process_write}
use ferriot.Client.Requests.RoundTrip.{process_read-decode, process_write-encode_resource}

stored-field_type :
    (f : Field) (v : ResourceValue) → field_type f ≡ some (get_resource_type v) → stored v ≡ v
unfolding field_type get_resource_type
stored-field_type f v h = ground arith

read-written :
    (s : Standard) (iid rid : ℕ) (v : ResourceValue)
    → (Server.write_resource s.server iid rid none v).1 ≡ ok tt
    → Server.read_resource (Server.write_resource s.server iid rid none v).0 iid rid none
      ≡ ok (narrow (field_of rid) v)
read-written s iid rid v h = server_read-write s.server iid rid iid rid none none v h ∙ ground arith

-- A resource of the Server object that is written with the bytes of a value of its type, where the
-- object accepts the value, is answered with 2.04 Changed, and is then read with 2.05 Content and
-- the bytes of the value, with integers cast to the member's width. Both values fit a record.
pub process_read-process_write :
    (widen : ℕ → ℕ) (now : ℤ) (s : Standard) (iid rid : ℕ) (v : ResourceValue) {payload : Bytes}
    → Server.get_resource_type s.server iid rid ≡ some (get_resource_type v)
    → (Server.write_resource s.server iid rid none v).1 ≡ ok tt
    → IsStorable v
    → Fits ((rid, v) ∷ [])
    → Fits ((rid, narrow (field_of rid) v) ∷ [])
    → encode_resource rid v ≡ ok payload
    → let path = resource_path 1 iid rid in
      let (s', response) = process_write widen (standard_objects now) s path payload in
      (response ≡ respond changed)
      × ((process_read widen (standard_objects now) s' path).code ≡ some content)
      × (decode (process_read widen (standard_objects now) s' path).payload
          ≡ ok (leaves resource ((rid, narrow (field_of rid) v) ∷ [])))
unfolding standard_objects levels Server.get_resource_type
process_read-process_write widen now s iid rid v {payload} typed accepted storable fits fits'
      encoded =
    let written : process_write widen (standard_objects now) s (resource_path 1 iid rid) payload
        ≡ answer changed (server_object.write_resource s iid rid none (stored v)) =
      process_write-encode_resource widen (standard_objects now) s (resource_path 1 iid rid)
        {object = server_object} rid v refl refl typed storable fits encoded in
    let read =
      process_read-decode widen (standard_objects now)
        (record s { server = (Server.write_resource s.server iid rid none v).0 })
        (resource_path 1 iid rid) {object = server_object} refl refl
        (read-written s iid rid v accepted) fits' in
    rw (written, stored-field_type (field_of rid) v typed, accepted) (refl, read.0, read.1)
