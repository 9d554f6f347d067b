-- ===== src/Transport/Exchange/Requests.antt =====
-- src/client.cpp and src/transport/coap_client.cpp: the options of the request to register.
use ferriot.Prelude.{
  ℕ, ◌≡◌, refl, true, Option, some, List, [], ◌∷◌, ◌++◌, Bytes, codes, arith, append-nil,
}
use ferriot.Types.Decimal.{decimal, AllDigits, decimal-AllDigits}
use ferriot.Objects.Server.{ServerInstance}
use ferriot.Transport.Options.{
  preceded, separated, lacks, are_parts, split_path, path_segments, until, split_query-separated,
}
use ferriot.Transport.Incoming.{option_uri_path}
use ferriot.Transport.Exchange.{option_uri_query, numbered, message_of}
use ferriot.Client.Registration.{registration_request}

lacks-append :
    (c : ℕ) (xs ys : Bytes) → lacks c xs ≡ true → lacks c ys ≡ true → lacks c (xs ++ ys) ≡ true
lacks-append c [] ys h k = k
lacks-append c (x ∷ xs) ys h k = ground (arith, lacks-append c xs ys)

lacks-digits : (xs : Bytes) → AllDigits xs → lacks b'&' xs ≡ true
lacks-digits [] h = refl
lacks-digits (x ∷ xs) h = ground (arith, lacks-digits xs h.2)

-- The parameters of the request to register.
abbrev pub registration_parameters : Bytes → ServerInstance → List Bytes
registration_parameters endpoint_name srv_inst =
    (codes "ep=" ++ endpoint_name)
    ∷ (codes "lt=" ++ decimal srv_inst.lifetime)
    ∷ codes "lwm2m=1.1"
    ∷ (codes "b=" ++ srv_inst.binding)
    ∷ []

registration_parameters-separated :
    (endpoint_name payload : Bytes) (srv_inst : ServerInstance)
    → (registration_request endpoint_name srv_inst payload).uri_path
      ≡ codes "/rd?" ++ separated b'&' (registration_parameters endpoint_name srv_inst)
unfolding registration_request preceded
registration_parameters-separated endpoint_name payload srv_inst =
    rw (append-nil srv_inst.binding) refl

split_rd : split_path (codes "rd") ≡ codes "rd" ∷ []
unfolding split_path path_segments until
split_rd = refl

-- The request to register has the path rd, and its parameters are the endpoint's name, the
-- lifetime, the version and the binding, each an option of its own, where neither the name nor the
-- binding has an ampersand in it, and libcoap splits the uri at its question mark.
pub message_of-registration_request :
    (split_uri : Bytes → Option (Bytes × Bytes)) (token endpoint_name payload : Bytes)
    (srv_inst : ServerInstance)
    → ((query : Bytes)
        → split_uri (codes "coap://localhost/rd?" ++ query) ≡ some (codes "rd", query))
    → lacks b'&' endpoint_name ≡ true
    → lacks b'&' srv_inst.binding ≡ true
    → (message_of split_uri token (registration_request endpoint_name srv_inst payload)).options
      ≡ (option_uri_path, codes "rd")
        ∷ numbered option_uri_query (registration_parameters endpoint_name srv_inst)
unfolding message_of
message_of-registration_request split_uri token endpoint_name payload srv_inst splits h k =
    let parameters = registration_parameters endpoint_name srv_inst in
    let parts : are_parts b'&' parameters ≡ true =
      ground
        (arith, lacks-digits (decimal srv_inst.lifetime) (decimal-AllDigits srv_inst.lifetime)) in
    rw
      (
        registration_parameters-separated endpoint_name payload srv_inst,
        splits (separated b'&' parameters),
        split_rd,
        split_query-separated parameters parts,
      )
      refl
