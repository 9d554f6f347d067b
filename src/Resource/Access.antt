-- ===== src/Resource/Access.antt =====
-- src/resource.cpp: the access rights of a resource and its handlers.
use ferriot.Prelude.{ℕ, ◌≡◌, Option, if◌then◌else◌, Bytes, arith}
use ferriot.Result.{fail, method_not_allowed}
use ferriot.Resource.{
  ResourceValue, read, write, execute, has_access, Resource, ReadHandler, WriteHandler,
  ExecuteHandler, on_read, on_write, on_execute, read_value, write_value, execute_value,
}

-- With its three handlers registered, in this order, a resource answers each request with the
-- handler of that kind, where its access has the right for it, and refuses the request without
-- calling a handler, where it has not.
pub handlers_by_access :
    (r : Resource) (rd : ReadHandler) (wr : WriteHandler) (ex : ExecuteHandler) (iid : ℕ)
    (riid : Option ℕ) (v : ResourceValue) (args : Bytes)
    → let r' = on_execute ex (on_write wr (on_read rd r)) in
      (read_value r' iid riid ≡ (
        if has_access r.def.access read
        then rd iid riid
        else fail method_not_allowed "Resource is not readable"))
      × (write_value r' iid riid v ≡ (
          if has_access r.def.access write
          then wr iid riid v
          else fail method_not_allowed "Resource is not writable"))
      × (execute_value r' iid args ≡ (
          if has_access r.def.access execute
          then ex iid args
          else fail method_not_allowed "Resource is not executable"))
unfolding on_read on_write on_execute read_value write_value execute_value
handlers_by_access r rd wr ex iid riid v args = ground arith
