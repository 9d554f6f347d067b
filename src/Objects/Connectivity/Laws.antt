-- ===== src/Objects/Connectivity/Laws.antt =====
-- src/objects/connectivity.cpp: what the setters give to be read.
use ferriot.Prelude.{ℕ, ◌≤◌, ◌≡◌, refl, Option, some, List, [], ◌∷◌, arith}
use ferriot.Prelude.Int.{pos}
use ferriot.Result.{ok}
use ferriot.Resource.{ResourceValue, integer, get_resource_type}
use ferriot.Objects.Multiple.{read_multiple}
use ferriot.Objects.Connectivity
use ferriot.Objects.Connectivity.{
  ConnectivityConfig, Field, read_field, read_resource, field_of, field_type, Setter, set, set_all,
}

-- The percentages are at most 100.
abbrev pub ArePercentages : ConnectivityConfig → Type 0
ArePercentages s = (s.link_quality ≤ 100) × (s.link_utilization ≤ 100)

set-ArePercentages :
    (setter : Setter) (s : ConnectivityConfig) → ArePercentages s → ArePercentages (set setter s)
unfolding set
set-ArePercentages setter s h = ground arith

set_all-ArePercentages :
    (setters : List Setter) (s : ConnectivityConfig)
    → ArePercentages s
    → ArePercentages (set_all setters s)
unfolding set_all
set_all-ArePercentages [] s h = h
set_all-ArePercentages (setter ∷ setters) s h =
    set_all-ArePercentages setters (set setter s) (set-ArePercentages setter s h)

-- Whatever is set, from percentages that are at most 100 on, the link's quality and its utilization
-- are read as numbers that are at most 100.
pub read_resource-set_all :
    (setters : List Setter) (s : ConnectivityConfig) (riid : Option ℕ)
    → ArePercentages s
    → ((n : ℕ) × (n ≤ 100) × (read_resource (set_all setters s) 0 3 riid ≡ ok (integer (pos n))))
      × ((n : ℕ) × (n ≤ 100) × (read_resource (set_all setters s) 0 6 riid ≡ ok (integer (pos n))))
unfolding read_resource read_field field_of
read_resource-set_all setters s riid h =
    let (quality, utilization) = set_all-ArePercentages setters s h in
    ((_, quality, refl), (_, utilization, refl))

read_field_type :
    (f : Field) (s : ConnectivityConfig) (riid : Option ℕ) {v : ResourceValue}
    → read_field s f riid ≡ ok v
    → field_type f ≡ some (get_resource_type v)
unfolding read_field field_type get_resource_type read_multiple
read_field_type f s riid h = ground arith

-- A resource that is read has the type that get_resource_type announces.
pub connectivity_resource_type :
    (s : ConnectivityConfig) (iid rid : ℕ) (riid : Option ℕ) {v : ResourceValue}
    → read_resource s iid rid riid ≡ ok v
    → Connectivity.get_resource_type s iid rid ≡ some (get_resource_type v)
unfolding read_resource Connectivity.get_resource_type
connectivity_resource_type s iid rid riid {v} h =
    ground (arith, read_field_type (field_of rid) s riid {v = v})
