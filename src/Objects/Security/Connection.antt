-- ===== src/Objects/Security/Connection.antt =====
-- src/objects/security.cpp: SecurityObject::to_connection_config, with the types of
-- include/lwm2m/transport/coap_client.hpp that it fills.
use ferriot.Prelude.{ℕ, ◌≡◌, Option, none, some, [], ◌==◌, if◌then◌else◌, Bytes, arith}
use ferriot.Prelude.Table.{find}
use ferriot.Objects.Security.{SecurityInstance, SecurityObject}

pub data SecurityMode : Type 0 where
  no_sec psk rpk certificate : SecurityMode

pub record PskCredentials : Type 0 where
  pub identity : Bytes
  pub key : Bytes

pub record RpkCredentials : Type 0 where
  pub public_key : Bytes
  pub private_key : Bytes
  pub server_public_key : Bytes

pub record ConnectionConfig : Type 0 where
  pub server_uri : Bytes
  pub port : ℕ
  pub security_mode : SecurityMode
  pub psk_credentials : Option PskCredentials
  pub rpk_credentials : Option RpkCredentials
  pub ack_timeout : ℕ
  pub exchange_lifetime : ℕ
  pub max_retransmit : ℕ

-- ConnectionConfig{}
abbrev pub default_config : ConnectionConfig
default_config = record {
  server_uri = [];
  port = 5683;
  security_mode = no_sec;
  psk_credentials = none;
  rpk_credentials = none;
  ack_timeout = 2;
  exchange_lifetime = 247;
  max_retransmit = 4;
}

-- `switch (inst.security_mode)`, which has no default: another value leaves the mode as it was.
unfoldable pub with_mode : SecurityInstance → ConnectionConfig → ConnectionConfig
with_mode inst config =
    if inst.security_mode == 3
    then record config { security_mode = no_sec }
    else if inst.security_mode == 0
    then record config {
      security_mode = psk;
      psk_credentials =
          some (record { identity = inst.public_key_identity; key = inst.secret_key });
    }
    else if inst.security_mode == 1
    then record config {
      security_mode = rpk;
      rpk_credentials = some (record {
        public_key = inst.public_key_identity;
        private_key = inst.secret_key;
        server_public_key = inst.server_public_key;
      });
    }
    else if inst.security_mode == 2
    then record config { security_mode = certificate }
    else if inst.security_mode == 4
    then record config { security_mode = certificate }
    else config

unfoldable pub config_of : Option SecurityInstance → ConnectionConfig
config_of none = default_config
config_of (some inst) = with_mode inst (record default_config { server_uri = inst.server_uri })

unfoldable pub to_connection_config : SecurityObject → ℕ → ConnectionConfig
unfolding config_of with_mode
to_connection_config s iid = config_of (find iid s.instances)

-- The configuration goes to the instance's server, whatever its mode.
pub to_connection_config-server_uri :
    (s : SecurityObject) (iid : ℕ) {inst : SecurityInstance}
    → find iid s.instances ≡ some inst
    → (to_connection_config s iid).server_uri ≡ inst.server_uri
unfolding to_connection_config
to_connection_config-server_uri s iid {inst} found = rw found (ground arith)
