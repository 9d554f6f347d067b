-- ===== src/Transport/Connection/Outcomes.antt =====
-- src/transport/coap_client.cpp: what connect and disconnect leave.
use ferriot.Prelude.{
  ap, present, is_empty, ℕ, ◌+◌, ◌≡◌, refl, ◌∙◌, Bool, true, false, not, ◌&&◌, ◌||◌, Option, none,
  some, [], if◌then◌else◌, arith,
}
use ferriot.Result.{Result, ok, err, Error}
use ferriot.Prelude.Table.{find}
use ferriot.Objects.Security.{SecurityObject, SecurityInstance}
use ferriot.Objects.Security.Connection.{
  SecurityMode, psk, ConnectionConfig, default_config, to_connection_config,
  to_connection_config-server_uri,
}
use ferriot.Transport.Connection.{
  Uri, Coap, CoapClient, init_libcoap, cleanup_libcoap, released, freed, disconnect, setup_dtls_psk,
  setup_psk, setup_rpk, setup_mode, setup, with_session, create_session, with_address,
  with_credentials, with_uri, with_context, connect,
}

-- The client has no context, no session and no credentials.
abbrev pub IsClosed : {W X S : Type 0} → CoapClient W X S → Type 0
IsClosed c =
    (c.connected ≡ false)
    × (c.session ≡ none)
    × (c.ctx ≡ none)
    × (c.psk_identity ≡ [])
    × (c.psk_key ≡ [])

abbrev pub is_psk : SecurityMode → Bool
is_psk psk = true
is_psk _ = false

abbrev pub is_secure : Option Uri → Bool
is_secure none = false
is_secure (some uri) = uri.secure

-- How many of the initialisations are this client's.
abbrev pub own_count : {X : Type 0} → Option X → ℕ
own_count ctx = if present ctx then 1 else 0

module _ {W X S A : Type 0} (coap : Coap W X S A) where
  pub disconnect-IsClosed : (c : CoapClient W X S) → IsClosed (disconnect coap c)
  unfolding disconnect released freed cleanup_libcoap
  disconnect-IsClosed c = ground arith

  -- Connecting that fails leaves the client with no context, no session and no credentials.
  pub connect-err :
      (config : ConnectionConfig) (c : CoapClient W X S) {e : Error}
      → (connect coap config c).1 ≡ err e
      → IsClosed (connect coap config c).0
  unfolding connect init_libcoap with_context with_uri with_credentials with_address with_session
      create_session setup setup_mode setup_psk setup_rpk setup_dtls_psk
  connect-err config c h = grind (arith, disconnect-IsClosed)

  -- Connecting that succeeds leaves the client connected, with a context and a session, and where
  -- the server's uri asks for DTLS, in the mode with a pre-shared key and with an identity and a
  -- key that are not empty.
  pub connect-ok :
      (config : ConnectionConfig) (c : CoapClient W X S)
      → (connect coap config c).1 ≡ ok tt
      → let c' = (connect coap config c).0 in
        (c'.connected ≡ true)
        × (present c'.session ≡ true)
        × (present c'.ctx ≡ true)
        × ((not (is_secure (coap.split_uri config.server_uri))
              || (is_psk config.security_mode
                  && (not (is_empty c'.psk_identity) && not (is_empty c'.psk_key))))
            ≡ true)
  unfolding connect init_libcoap with_context with_uri with_credentials with_address with_session
      create_session setup setup_mode setup_psk setup_rpk setup_dtls_psk
  connect-ok config c h = grind arith

  with_uri-is_secure :
      (config config' : ConnectionConfig) (ctx : X) (uri : Option Uri) (c : CoapClient W X S)
      → is_secure uri ≡ false
      → with_uri coap config ctx uri c ≡ with_uri coap config' ctx uri c
  unfolding with_uri setup
  with_uri-is_secure config config' ctx none c h = refl
  with_uri-is_secure config config' ctx (some uri) c h = rw h refl

  connect-is_secure :
      (config config' : ConnectionConfig) (c : CoapClient W X S)
      → config.server_uri ≡ config'.server_uri
      → is_secure (coap.split_uri config'.server_uri) ≡ false
      → connect coap config c ≡ connect coap config' c
  unfolding connect with_context
  connect-is_secure config config' c same h =
      let c₁ = init_libcoap coap (disconnect coap c) in
      let (w, ctx) = coap.new_context c₁.world in by_context ctx (record c₁ { world = w })
    where
      by_context :
          (ctx : Option X) (c₂ : CoapClient W X S)
          → with_context coap config ctx c₂ ≡ with_context coap config' ctx c₂
      by_context none c₂ = refl
      by_context (some ctx) c₂ =
          let c₃ : CoapClient W X S = record c₂ { ctx = some ctx } in
          ap (λ uri. with_uri coap config ctx (coap.split_uri uri) c₃) same
          ∙ with_uri-is_secure config config' ctx (coap.split_uri config'.server_uri) c₃ h

  -- An instance whose uri does not have a scheme of DTLS is connected to without security, whatever
  -- its mode is: connecting as its configuration says does what connecting to its server with the
  -- mode NoSec and without credentials does, in the mode with a pre-shared key too.
  pub connect-to_connection_config :
      (s : SecurityObject) (iid : ℕ) (c : CoapClient W X S) {inst : SecurityInstance}
      → find iid s.instances ≡ some inst
      → is_secure (coap.split_uri inst.server_uri) ≡ false
      → connect coap (to_connection_config s iid) c
        ≡ connect coap (record default_config { server_uri = inst.server_uri }) c
  connect-to_connection_config s iid c {inst} found insecure =
      connect-is_secure (to_connection_config s iid)
        (record default_config { server_uri = inst.server_uri }) c
        (to_connection_config-server_uri s iid found) insecure

module _ {W X S A : Type 0} (coap : Coap W X S A) (others : ℕ) where
  -- The initialisations that are counted are those of the others, and one for the client's context.
  abbrev pub IsCounted : CoapClient W X S → Type 0
  IsCounted c = c.init_count ≡ others + own_count c.ctx

  pub disconnect-init_count :
      (c : CoapClient W X S) → IsCounted c → (disconnect coap c).init_count ≡ others
  unfolding disconnect released freed cleanup_libcoap
  disconnect-init_count c h = ground arith

  pub disconnect-IsCounted : (c : CoapClient W X S) → IsCounted c → IsCounted (disconnect coap c)
  disconnect-IsCounted c h = ground (arith, disconnect-init_count c h, disconnect-IsClosed coap c)

  with_address-IsCounted :
      (ctx : X) (uri : Uri) (address : Option A) (c : CoapClient W X S)
      → IsCounted c
      → IsCounted (with_address coap ctx uri address c).0
  unfolding with_address with_session create_session
  with_address-IsCounted ctx uri address c h = grind (arith, disconnect-IsCounted)

  with_credentials-IsCounted :
      (ctx : X) (uri : Uri) (r : CoapClient W X S × Result (Unit {0}))
      → IsCounted r.0
      → IsCounted (with_credentials coap ctx uri r).0
  unfolding with_credentials
  with_credentials-IsCounted ctx uri (c, err e) h = disconnect-IsCounted c h
  with_credentials-IsCounted ctx uri (c, ok done) h = with_address-IsCounted ctx uri _ _ h

  setup-IsCounted :
      (use_dtls : Bool) (config : ConnectionConfig) (c : CoapClient W X S)
      → IsCounted c
      → IsCounted (setup coap use_dtls config c).0
  unfolding setup setup_mode setup_psk setup_rpk setup_dtls_psk
  setup-IsCounted use_dtls config c h = ground arith

  with_uri-IsCounted :
      (config : ConnectionConfig) (ctx : X) (uri : Option Uri) (c : CoapClient W X S)
      → IsCounted c
      → IsCounted (with_uri coap config ctx uri c).0
  unfolding with_uri
  with_uri-IsCounted config ctx none c h = disconnect-IsCounted c h
  with_uri-IsCounted config ctx (some uri) c h =
      with_credentials-IsCounted ctx uri _ (setup-IsCounted uri.secure config c h)

  with_context-IsCounted :
      (config : ConnectionConfig) (ctx : Option X) (c : CoapClient W X S)
      → present ctx ≡ true
      → c.init_count ≡ others + 1
      → IsCounted (with_context coap config ctx c).0
  unfolding with_context
  with_context-IsCounted config none c there h = ground arith
  with_context-IsCounted config (some ctx) c there h = with_uri-IsCounted config ctx _ _ h

  -- Where a context can always be created, connecting keeps the count of libcoap's initialisations:
  -- those of the other clients, and one for the context that the client has, if it has one.
  pub connect-IsCounted :
      (config : ConnectionConfig) (c : CoapClient W X S)
      → ((w : W) → present (coap.new_context w).1 ≡ true)
      → IsCounted c
      → IsCounted (connect coap config c).0
  unfolding connect init_libcoap
  connect-IsCounted config c contexts h =
      with_context-IsCounted config _ _ (contexts _) (ap (λ n. n + 1) (disconnect-init_count c h))
