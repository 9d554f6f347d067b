-- ===== src/Client/Requests/WriteBack.antt =====
-- src/client.cpp with src/objects/: a resource of a standard object that is written as it was read.
use ferriot.Prelude.{ℕ, ◌≡◌, ◌≢◌, refl, none, some, [], ◌∷◌}
use ferriot.Prelude.Int.{ℤ}
use ferriot.Result.{ok}
use ferriot.Types.{ObjectPath}
use ferriot.Resource.{ResourceValue}
use ferriot.Tlv.Encoder.{encode_resource}
use ferriot.Tlv.Values.{IsStorable, stored}
use ferriot.Tlv.Structure.{Fits}
use ferriot.Object.{Object}
use ferriot.Object.Standard.{Standard, standard_objects}
use ferriot.Object.Announced.{get_resource_type-read_resource}
use ferriot.Transport.{content, changed}
use ferriot.Client.Requests.{
  of_resource, target, answer, read_target, read_object, process_write, process_read,
}
use ferriot.Client.Requests.RoundTrip.{process_write-encode_resource}

-- The object announces the type of a value that it reads: the bytes that a read of a resource is
-- answered with, at a standard object other than Device, are decoded at that type when they are
-- written back, and the write is answered as the object answers to the write of the value that it
-- read, up to what is stored of a time and a link. The value is one that the source's types can hold,
-- and it fits a record.
pub process_write-process_read :
    (widen : ℕ → ℕ) (now : ℤ) (s : Standard) (path : ObjectPath) {object : Object Standard}
    {iid rid : ℕ} {v : ResourceValue}
    → standard_objects now path.object_id ≡ some object
    → path.object_id ≢ 3
    → target path ≡ of_resource iid rid
    → object.read_resource s iid rid none ≡ ok v
    → IsStorable v
    → Fits ((rid, v) ∷ [])
    → let response = process_read widen (standard_objects now) s path in
      (response.code ≡ some content)
      × (process_write widen (standard_objects now) s path response.payload
          ≡ answer changed (object.write_resource s iid rid none (stored v)))
unfolding process_read read_object read_target encode_resource
process_write-process_read widen now s path {object} {iid} {rid} {v} found other at reads storable
      fits =
    let typed =
      get_resource_type-read_resource now s path.object_id iid rid none found other reads in
    rw (found, at, reads)
      (
        refl,
        process_write-encode_resource widen (standard_objects now) s path {object = object} rid v
            found at typed storable fits refl,
      )
