-- ===== src/Transport/Incoming/Paths.antt =====
-- src/transport/coap_client.cpp and src/types.cpp: a path, as the options of a message.
use ferriot.Prelude.{
  ℕ, ◌≡◌, ◌≢◌, append-nil, refl, ap, sym, ◌∙◌, true, Option, none, some, List, [], ◌∷◌, ◌++◌, ◌==◌,
  if◌then◌else◌, Bytes, arith, append_assoc,
}
use ferriot.Types.{ObjectPath}
use ferriot.Types.Decimal.{decimal, AllDigits, decimal-AllDigits, decimal-ne-nil}
use ferriot.Types.Path.{segment?, to_string, parse}
use ferriot.Types.Path.RoundTrip.{IsPath, parse-to_string}
use ferriot.Transport.{CoapMethod}
use ferriot.Transport.Options.{preceded, lacks, is_part, are_parts, split_path, split_path-preceded}
use ferriot.Transport.Incoming.{
  Pdu, Message, option_uri_path, path_of_options, rooted, build_request,
}

-- The values of the options for the path.
abbrev pub uri_path_values : List (ℕ × Bytes) → List Bytes
uri_path_values [] = []
uri_path_values ((number, value) ∷ options) =
    let rest = uri_path_values options in if number == option_uri_path then value ∷ rest else rest

path_of_options-cons :
    (b : ℕ) (bs : Bytes) (options : List (ℕ × Bytes))
    → path_of_options (b ∷ bs) options ≡ (b ∷ bs) ++ preceded b'/' (uri_path_values options)
unfolding path_of_options preceded
path_of_options-cons b bs [] = ap (◌∷◌ b) (sym (append-nil bs))
path_of_options-cons b bs ((number, value) ∷ options) = ground (
  arith,
  path_of_options-cons b bs options,
  path_of_options-cons b (bs ++ b'/' ∷ value) options,
  append_assoc bs (b'/' ∷ value) (preceded b'/' (uri_path_values options)),
)

path_of_options-preceded :
    (options : List (ℕ × Bytes))
    → are_parts b'/' (uri_path_values options) ≡ true
    → rooted (path_of_options [] options) ≡ preceded b'/' (uri_path_values options)
unfolding path_of_options preceded
path_of_options-preceded [] h = refl
path_of_options-preceded ((number, []) ∷ options) h =
    ground (arith, path_of_options-preceded options)
path_of_options-preceded ((number, b ∷ bs) ∷ options) h =
    ground (arith, path_of_options-preceded options, path_of_options-cons b bs options)

-- The numbers of a path that is printed.
abbrev segments : Option ℕ → List Bytes → List Bytes
segments none rest = []
segments (some id) rest = decimal id ∷ rest

abbrev segments_of : ObjectPath → List Bytes
segments_of path =
    decimal path.object_id
    ∷ segments path.instance_id (segments path.resource_id (segments path.resource_instance_id []))

lacks-digits : (xs : Bytes) → AllDigits xs → lacks b'/' xs ≡ true
lacks-digits [] h = refl
lacks-digits (x ∷ xs) h = ground (arith, lacks-digits xs h.2)

is_part-decimal : (n : ℕ) → is_part b'/' (decimal n) ≡ true
is_part-decimal n =
    part (decimal n) (decimal-ne-nil n) (lacks-digits (decimal n) (decimal-AllDigits n))
  where
    part : (xs : Bytes) → xs ≢ [] → lacks b'/' xs ≡ true → is_part b'/' xs ≡ true
    part [] ne h = absurd (ne refl)
    part (x ∷ xs) ne h = h

are_parts-segments :
    (o : Option ℕ) (rest : List Bytes)
    → are_parts b'/' rest ≡ true
    → are_parts b'/' (segments o rest) ≡ true
are_parts-segments none rest h = refl
are_parts-segments (some id) rest h = ground (arith, is_part-decimal id)

preceded-segments :
    (o : Option ℕ) (rest : List Bytes) (printed : Bytes)
    → preceded b'/' rest ≡ printed
    → preceded b'/' (segments o rest) ≡ segment? o printed
unfolding preceded
preceded-segments none rest printed h = refl
preceded-segments (some id) rest printed h = rw h refl

to_string-preceded : (path : ObjectPath) → to_string path ≡ preceded b'/' (segments_of path)
unfolding to_string preceded
to_string-preceded path =
    ap (λ printed. b'/' ∷ (decimal path.object_id ++ printed))
      (sym (
        preceded-segments path.instance_id _ _ (
          preceded-segments path.resource_id _ _
            (preceded-segments path.resource_instance_id [] [] refl))))

segments_of-parts : (path : ObjectPath) → are_parts b'/' (segments_of path) ≡ true
segments_of-parts path =
    let below = are_parts-segments path.resource_instance_id [] refl in
    let resource =
      are_parts-segments path.resource_id (segments path.resource_instance_id []) below in
    let instances =
      are_parts-segments path.instance_id
        (segments path.resource_id (segments path.resource_instance_id [])) resource in
    ground (arith, is_part-decimal path.object_id)

split_path-to_string : (path : ObjectPath) → split_path (to_string path) ≡ segments_of path
split_path-to_string path =
    rw (to_string-preceded path) (split_path-preceded (segments_of path) (segments_of-parts path))

-- A message whose options for the path are the ones that send makes of a printed path, whatever
-- other options stand between them, gives a request with the printed path, which parses as the path.
pub build_request-split_path :
    (pdu : Pdu) (method : CoapMethod) (message : Message) (path : ObjectPath)
    → IsPath path
    → uri_path_values message.options ≡ split_path (to_string path)
    → let request = build_request pdu method message in
      (request.uri_path ≡ to_string path) × (parse request.uri_path ≡ some path)
unfolding build_request
build_request-split_path pdu method message path v sent =
    let values : uri_path_values message.options ≡ segments_of path =
      sent ∙ split_path-to_string path in
    let built : rooted (path_of_options [] message.options) ≡ to_string path =
      path_of_options-preceded message.options (rw values (segments_of-parts path))
      ∙ ap (preceded b'/') values
      ∙ sym (to_string-preceded path) in
    (built, rw built (parse-to_string path v))
