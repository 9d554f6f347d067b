-- ===== src/Tests/Paths.antt =====
-- src/types.cpp on concrete texts.
use ferriot.Prelude.{◌≡◌, refl, arith, none, some, codes}
use ferriot.Types.{resource_path}
use ferriot.Types.Decimal.{from_chars}
use ferriot.Types.Path.{
  to_string, parse, parsed, parse_loop, split_segment, set_component, segment_value,
  ends_with_slash,
}
use ferriot.Types.Path.RoundTrip.{parse-to_string}

parse-bad : parse (codes "/3/x") ≡ none
unfolding parse parsed parse_loop split_segment segment_value ends_with_slash from_chars
    set_component
parse-bad = refl

parse-good : parse (codes "/3/0/9") ≡ some (resource_path 3 0 9)
unfolding parse parsed parse_loop split_segment segment_value ends_with_slash from_chars
    set_component
parse-good = refl

parse-to_string_example : parse (to_string (resource_path 3 0 9)) ≡ some (resource_path 3 0 9)
parse-to_string_example =
    parse-to_string (resource_path 3 0 9) (omega arith, (omega arith, omega arith))
