-- ===== src/Transport/Connection.antt =====
-- src/transport/coap_client.cpp: connect, disconnect and the credentials.
--
-- `Coap` is what the code calls of libcoap: `X` is a context, with the handlers that connect
-- registers on it, `S` a session, `A` an address, and `W` the world that libcoap changes. The count
-- of initialisations, which all clients share, is kept with the client.
pub mod Outcomes
use ferriot.Prelude.{
  is_empty, ℕ, ◌+◌, ◌-◌, Bool, true, false, not, ◌&&◌, Option, none, some, [], ◌∷◌, ◌==◌,
  if◌then◌else◌, Bytes,
}
use ferriot.Result.{
  Result, ok, err, fail, bad_request, internal_server_error, not_implemented, connection_failed,
}
use ferriot.Objects.Security.Connection.{
  SecurityMode, no_sec, psk, rpk, certificate, PskCredentials, RpkCredentials, ConnectionConfig,
}

-- What coap_split_uri finds; `secure` is for the schemes coaps and coaps+tcp.
pub record Uri : Type 0 where
  pub host : Bytes
  pub port : ℕ
  pub secure : Bool

pub record Coap (W X S A : Type 0) : Type 0 where
  pub startup : W → W
  pub cleanup : W → W
  pub new_context : W → W × Option X
  pub free_context : X → W → W
  pub split_uri : Bytes → Option Uri
  pub resolve : Bytes → ℕ → Bool → W → W × Option A
  pub new_session_psk : X → A → Bytes → Bytes → W → W × Option S
  pub new_session : X → A → Bool → W → W × Option S
  pub release_session : S → W → W

pub record CoapClient (W X S : Type 0) : Type 0 where
  pub ctx : Option X
  pub session : Option S
  pub connected : Bool
  pub psk_identity : Bytes
  pub psk_key : Bytes
  pub init_count : ℕ
  pub world : W

module _ {W X S A : Type 0} (coap : Coap W X S A) where
  unfoldable pub init_libcoap : CoapClient W X S → CoapClient W X S
  init_libcoap c = record c {
    init_count = c.init_count + 1;
    world = if c.init_count == 0 then coap.startup c.world else c.world;
  }

  unfoldable pub cleanup_libcoap : CoapClient W X S → CoapClient W X S
  cleanup_libcoap c = record c {
    init_count = c.init_count - 1;
    world = if c.init_count == 1 then coap.cleanup c.world else c.world;
  }

  released : Option S → CoapClient W X S → CoapClient W X S
  released none c = c
  released (some session) c = record c {
    session = none;
    world = coap.release_session session c.world;
  }

  freed : Option X → CoapClient W X S → CoapClient W X S
  freed none c = c
  freed (some ctx) c =
      cleanup_libcoap (record c { ctx = none; world = coap.free_context ctx c.world })

  unfoldable pub disconnect : CoapClient W X S → CoapClient W X S
  unfolding released freed
  disconnect c₀ =
      let c₁ = released c₀.session c₀ in
      let c₂ = freed c₁.ctx c₁ in record c₂ { psk_identity = []; psk_key = []; connected = false }

  unfoldable pub setup_dtls_psk :
      PskCredentials → CoapClient W X S → CoapClient W X S × Result (Unit {0})
  setup_dtls_psk credentials c =
      if is_empty credentials.identity
      then (c, fail bad_request "PSK identity cannot be empty")
      else if is_empty credentials.key
      then (c, fail bad_request "PSK key cannot be empty")
      else (record c { psk_identity = credentials.identity; psk_key = credentials.key }, ok tt)

  abbrev pub setup_dtls_rpk :
      RpkCredentials → CoapClient W X S → CoapClient W X S × Result (Unit {0})
  setup_dtls_rpk credentials c = (c, fail not_implemented "RPK support not yet implemented")

  -- The cases of `switch (config.security_mode)`, before the disconnect that each error makes.
  setup_psk : Option PskCredentials → CoapClient W X S → CoapClient W X S × Result (Unit {0})
  setup_psk none c = (c, fail bad_request "PSK credentials required")
  setup_psk (some credentials) c = setup_dtls_psk credentials c

  setup_rpk : Option RpkCredentials → CoapClient W X S → CoapClient W X S × Result (Unit {0})
  setup_rpk none c = (c, fail bad_request "RPK credentials required")
  setup_rpk (some credentials) c = setup_dtls_rpk credentials c

  setup_mode :
      SecurityMode → ConnectionConfig → CoapClient W X S → CoapClient W X S × Result (Unit {0})
  unfolding setup_psk setup_rpk
  setup_mode psk config c = setup_psk config.psk_credentials c
  setup_mode rpk config c = setup_rpk config.rpk_credentials c
  setup_mode no_sec config c = (c, fail bad_request "Security mode mismatch")
  setup_mode certificate config c = (c, fail not_implemented "Certificate mode not yet implemented")

  -- `// Setup DTLS if needed`
  setup : Bool → ConnectionConfig → CoapClient W X S → CoapClient W X S × Result (Unit {0})
  unfolding setup_mode
  setup false config c = (c, ok tt)
  setup true config c = setup_mode config.security_mode config c

  -- The rest of connect, from the session, the address, the credentials, the uri and the context on.
  with_session : Option S → CoapClient W X S → CoapClient W X S × Result (Unit {0})
  with_session none c = (disconnect c, fail connection_failed "Failed to create CoAP session")
  with_session (some session) c = (record c { session = some session; connected = true }, ok tt)

  create_session : X → A → Bool → CoapClient W X S → W × Option S
  create_session ctx address use_dtls c =
      if use_dtls && not (is_empty c.psk_identity)
      then coap.new_session_psk ctx address c.psk_identity c.psk_key c.world
      else coap.new_session ctx address use_dtls c.world

  with_address : X → Uri → Option A → CoapClient W X S → CoapClient W X S × Result (Unit {0})
  unfolding with_session create_session
  with_address ctx uri none c =
      (disconnect c, fail connection_failed "Failed to resolve server address")
  with_address ctx uri (some address) c =
      let (w, session) = create_session ctx address uri.secure c in
      with_session session (record c { world = w })

  with_credentials :
      X → Uri → CoapClient W X S × Result (Unit {0}) → CoapClient W X S × Result (Unit {0})
  unfolding with_address
  with_credentials ctx uri (c, err e) = (disconnect c, err e)
  with_credentials ctx uri (c, ok done) =
      let (w, address) = coap.resolve uri.host uri.port uri.secure c.world in
      with_address ctx uri address (record c { world = w })

  with_uri :
      ConnectionConfig → X → Option Uri → CoapClient W X S → CoapClient W X S × Result (Unit {0})
  unfolding with_credentials setup
  with_uri config ctx none c = (disconnect c, fail bad_request "Invalid server URI")
  with_uri config ctx (some uri) c = with_credentials ctx uri (setup uri.secure config c)

  with_context :
      ConnectionConfig → Option X → CoapClient W X S → CoapClient W X S × Result (Unit {0})
  unfolding with_uri
  with_context config none c = (c, fail internal_server_error "Failed to create CoAP context")
  with_context config (some ctx) c =
      with_uri config ctx (coap.split_uri config.server_uri) (record c { ctx = some ctx })

  unfoldable pub connect :
      ConnectionConfig → CoapClient W X S → CoapClient W X S × Result (Unit {0})
  unfolding with_context
  connect config c =
      let c₁ = init_libcoap (disconnect c) in
      let (w, ctx) = coap.new_context c₁.world in with_context config ctx (record c₁ { world = w })
