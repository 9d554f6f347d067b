-- ===== src/Objects/Connectivity.antt =====
-- include/lwm2m/objects/connectivity.hpp and src/objects/connectivity.cpp: the Connectivity
-- Monitoring object (4). A network bearer is the number of its enumerator, and a percentage a
-- uint8_t.
pub mod Laws
use ferriot.Prelude.{ℕ, Option, none, some, List, [], ◌∷◌, ◌==◌, ltb, if◌then◌else◌, Bytes}
use ferriot.Prelude.Int.{ℤ, pos, negsuc}
use ferriot.Result.{Result, ok, fail, not_found, method_not_allowed}
use ferriot.Resource.{ResourceValue, ResourceType, integer, string}
use ferriot.Objects.Multiple.{read_multiple}

pub record ConnectivityConfig : Type 0 where
  pub network_bearer : ℕ
  pub available_bearers : List ℕ
  pub radio_signal_strength : ℤ
  pub link_quality : ℕ
  pub ip_addresses : List Bytes
  pub router_ip_addresses : List Bytes
  pub link_utilization : ℕ
  pub apn_list : List Bytes
  pub cell_id : ℕ
  pub smnc : ℕ
  pub smcc : ℕ

-- ConnectivityConfig{}: the bearer is Ethernet.
abbrev pub default_config : ConnectivityConfig
default_config = record {
  network_bearer = 41;
  available_bearers = 41 ∷ [];
  radio_signal_strength = negsuc 69;
  link_quality = 100;
  ip_addresses = [];
  router_ip_addresses = [];
  link_utilization = 0;
  apn_list = [];
  cell_id = 0;
  smnc = 0;
  smcc = 0;
}

unfoldable pub list_resources : ConnectivityConfig → ℕ → List ℕ
list_resources s iid = 0 ∷ 1 ∷ 2 ∷ 3 ∷ 4 ∷ 5 ∷ 6 ∷ 7 ∷ 8 ∷ 9 ∷ 10 ∷ []

pub data Field : Type 0 where
  network_bearer available_network_bearer radio_signal_strength link_quality : Field
  ip_addresses router_ip_addresses link_utilization apn cell_id smnc smcc other : Field

-- `switch (rid.value)`, with `other` for the default.
unfoldable pub field_of : ℕ → Field
field_of rid =
    if rid == 0
    then network_bearer
    else if rid == 1
    then available_network_bearer
    else if rid == 2
    then radio_signal_strength
    else if rid == 3
    then link_quality
    else if rid == 4
    then ip_addresses
    else if rid == 5
    then router_ip_addresses
    else if rid == 6
    then link_utilization
    else if rid == 7
    then apn
    else if rid == 8
    then cell_id
    else if rid == 9
    then smnc
    else if rid == 10
    then smcc
    else other

-- The switch of read_resource.
unfoldable pub read_field : ConnectivityConfig → Field → Option ℕ → Result ResourceValue
read_field s network_bearer riid = ok (integer (pos s.network_bearer))
read_field s available_network_bearer riid =
    read_multiple (fail not_found "No bearers available") (λ n. integer (pos n)) s.available_bearers
      riid
read_field s radio_signal_strength riid = ok (integer s.radio_signal_strength)
read_field s link_quality riid = ok (integer (pos s.link_quality))
read_field s ip_addresses riid =
    read_multiple (fail not_found "No IP addresses") string s.ip_addresses riid
read_field s router_ip_addresses riid =
    read_multiple (fail not_found "No router IP addresses") string s.router_ip_addresses riid
read_field s link_utilization riid = ok (integer (pos s.link_utilization))
read_field s apn riid = read_multiple (fail not_found "No APNs configured") string s.apn_list riid
read_field s cell_id riid = ok (integer (pos s.cell_id))
read_field s smnc riid = ok (integer (pos s.smnc))
read_field s smcc riid = ok (integer (pos s.smcc))
read_field s other riid = fail not_found "Resource not found"

unfoldable pub read_resource : ConnectivityConfig → ℕ → ℕ → Option ℕ → Result ResourceValue
read_resource s iid rid riid =
    if iid == 0 then read_field s (field_of rid) riid else fail not_found "Instance not found"

unfoldable pub write_resource :
    ConnectivityConfig → ℕ → ℕ → Option ℕ → ResourceValue → ConnectivityConfig × Result (Unit {0})
write_resource s iid rid riid v = (
  s,
  if iid == 0
      then fail method_not_allowed "Connectivity resources are read-only"
      else fail not_found "Instance not found",
)

unfoldable pub execute_resource :
    ConnectivityConfig → ℕ → ℕ → Bytes → ConnectivityConfig × Result (Unit {0})
execute_resource s iid rid arguments = (
  s,
  if iid == 0
      then fail method_not_allowed "Resource is not executable"
      else fail not_found "Instance not found",
)

-- The switch of get_resource_type.
unfoldable pub field_type : Field → Option ResourceType
field_type ip_addresses = some ResourceType.string
field_type router_ip_addresses = some ResourceType.string
field_type apn = some ResourceType.string
field_type other = none
field_type _ = some ResourceType.integer

unfoldable pub get_resource_type : ConnectivityConfig → ℕ → ℕ → Option ResourceType
get_resource_type s iid rid = field_type (field_of rid)

-- `percent > 100 ? 100 : percent`
abbrev pub clamped : ℕ → ℕ
clamped percent = if ltb 100 percent then 100 else percent

-- The setters, with their arguments.
pub data Setter : Type 0 where
  set_network_bearer : ℕ → Setter
  set_available_bearers : List ℕ → Setter
  set_signal_strength : ℤ → Setter
  set_link_quality set_link_utilization : ℕ → Setter
  set_ip_addresses set_router_ip_addresses set_apn_list : List Bytes → Setter
  set_cellular_info : ℕ → ℕ → ℕ → Setter

unfoldable pub set : Setter → ConnectivityConfig → ConnectivityConfig
set (set_network_bearer bearer) s = record s { network_bearer = bearer }
set (set_available_bearers bearers) s = record s { available_bearers = bearers }
set (set_signal_strength dbm) s = record s { radio_signal_strength = dbm }
set (set_link_quality percent) s = record s { link_quality = clamped percent }
set (set_link_utilization percent) s = record s { link_utilization = clamped percent }
set (set_ip_addresses addresses) s = record s { ip_addresses = addresses }
set (set_router_ip_addresses addresses) s = record s { router_ip_addresses = addresses }
set (set_apn_list apns) s = record s { apn_list = apns }
set (set_cellular_info cell mcc mnc) s = record s { cell_id = cell; smcc = mcc; smnc = mnc }

unfoldable pub set_all : List Setter → ConnectivityConfig → ConnectivityConfig
set_all [] s = s
set_all (setter ∷ setters) s = set_all setters (set setter s)
