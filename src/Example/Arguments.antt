-- ===== src/Example/Arguments.antt =====
-- src/examples/lwm2m_client.cpp: the arguments.
use ferriot.Prelude.{◌≡◌, refl, Bool, List, [], ◌∷◌, ◌++◌, Bytes, codes, if◌then◌else◌, arith}
use ferriot.Prelude.Strings.{same_bytes}
use ferriot.Example.{Options, argument_of, parse_arguments}

-- An option with its value, in its long or its short spelling.
pub data Setting : Type 0 where
  sets_uri sets_endpoint sets_security : Bool → Bytes → Setting

abbrev spelled : Setting → List Bytes → List Bytes
spelled (sets_uri is_long value) rest =
    (if is_long then codes "--uri" else codes "-u") ∷ value ∷ rest
spelled (sets_endpoint is_long value) rest =
    (if is_long then codes "--endpoint" else codes "-e") ∷ value ∷ rest
spelled (sets_security is_long value) rest =
    (if is_long then codes "--security" else codes "-s") ∷ value ∷ rest

abbrev pub arguments_of : List Setting → List Bytes
arguments_of [] = []
arguments_of (setting ∷ settings) = spelled setting (arguments_of settings)

abbrev set_by : Setting → Options → Options
set_by (sets_uri is_long value) o = record o { server_uri = value }
set_by (sets_endpoint is_long value) o = record o { endpoint_name = value }
set_by (sets_security is_long value) o = record o { security_mode = value }

-- The options after the settings, the last of which counts.
abbrev pub after : List Setting → Options → Options
after [] o = o
after (setting ∷ settings) o = after settings (set_by setting o)

-- Arguments that are options with a value each, in their long or short spellings, are taken one after
-- the other, whatever the values are, so that the last one of a kind counts, and then the arguments
-- that follow are taken.
pub parse_arguments-arguments_of :
    (settings : List Setting) (o : Options) (rest : List Bytes)
    → parse_arguments o (arguments_of settings ++ rest) ≡ parse_arguments (after settings o) rest
unfolding parse_arguments argument_of same_bytes
parse_arguments-arguments_of [] o rest = refl
parse_arguments-arguments_of (setting ∷ settings) o rest =
    ground (arith, parse_arguments-arguments_of settings (set_by setting o) rest)
