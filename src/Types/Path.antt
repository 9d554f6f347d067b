-- ===== src/Types/Path.antt =====
-- src/types.cpp: ObjectPath::to_string and ObjectPath::parse, on the bytes of the text.
pub mod RoundTrip
pub mod Sound
use ferriot.Prelude.{
  ℕ, zero, suc, ◌+◌, Bool, true, false, not, ◌&&◌, ◌||◌, Option, none, some, bind, [], ◌∷◌, ◌++◌,
  leb, ltb, ◌==◌, if◌then◌else◌, Bytes, length,
}
use ferriot.Types.{ObjectPath, object_path, has_value}
use ferriot.Types.Decimal.{decimal, from_chars}

-- `oss << "/" << id`, and what `rest` prints, if there is an id.
abbrev pub segment? : Option ℕ → Bytes → Bytes
segment? none rest = []
segment? (some id) rest = b'/' ∷ (decimal id ++ rest)

unfoldable pub to_string : ObjectPath → Bytes
to_string p =
    b'/'
    ∷ (decimal p.object_id
        ++ segment? p.instance_id (segment? p.resource_id (segment? p.resource_instance_id [])))

-- path.substr(pos, end - pos) for the next '/' or the end, and the text from end + 1.
unfoldable pub split_segment : Bytes → Bytes × Bytes
split_segment [] = ([], [])
split_segment (c ∷ cs) =
    let (segment, rest) = split_segment cs in if c == b'/' then ([], cs) else (c ∷ segment, rest)

-- `switch (component)`.
unfoldable pub set_component : ℕ → ℕ → ObjectPath → ObjectPath
set_component zero value p = record p { object_id = value }
set_component (suc zero) value p = record p { instance_id = some value }
set_component (suc (suc zero)) value p = record p { resource_id = some value }
set_component (suc (suc (suc zero))) value p = record p { resource_instance_id = some value }
set_component (suc (suc (suc (suc n)))) value p = p

whole : ℕ × Bytes → Option ℕ
whole (value, []) = some value
whole (value, _ ∷ _) = none

-- A segment's number: from_chars has to reach the segment's end, and fails on an empty one.
unfoldable pub segment_value : Bytes → Option ℕ
unfolding whole
segment_value segment = bind (from_chars segment) whole

-- `while (pos < path.size() && component < 4)`, with `left` the components still to come and the
-- text from pos; the result has `component` with the path.
unfoldable pub parse_loop : ℕ → ℕ → ObjectPath → Bytes → Option (ℕ × ObjectPath)
parse_loop left component result [] = some (component, result)
parse_loop zero component result (c ∷ cs) = some (component, result)
parse_loop (suc left) component result (c ∷ cs) =
    let (segment, rest) = split_segment (c ∷ cs) in
    bind (segment_value segment)
      λ value. parse_loop left (component + 1) (set_component component value result) rest

-- `path.back() == '/'`
unfoldable pub ends_with_slash : Bytes → Bool
ends_with_slash [] = false
ends_with_slash (c ∷ []) = c == b'/'
ends_with_slash (c ∷ d ∷ cs) = ends_with_slash (d ∷ cs)

-- `component == 0` after the loop.
unfoldable pub parsed : Option (ℕ × ObjectPath) → Option ObjectPath
parsed none = none
parsed (some (component, result)) = if component == 0 then none else some result

unfoldable pub parse : Bytes → Option ObjectPath
parse [] = none
parse (c ∷ cs) =
    if not (c == b'/')
    then none
    else if ltb 1 (length (c ∷ cs)) && ends_with_slash (c ∷ cs)
    then none
    else parsed (parse_loop 4 0 (object_path 0) cs)
