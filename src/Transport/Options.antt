-- ===== src/Transport/Options.antt =====
-- src/transport/coap_client.cpp: the loops of CoapClientImpl::send that split a path and a query
-- into options.
use ferriot.Prelude.{
  ℕ, zero, suc, ◌≤◌, ◌≡◌, refl, Bool, true, false, not, ◌&&◌, List, [], ◌∷◌, ◌++◌, ◌==◌,
  if◌then◌else◌, Bytes, length, length-append, arith,
}

-- The inner loop: the bytes before the next `c` or the end, and those from there on.
unfoldable pub until : ℕ → Bytes → Bytes × Bytes
until c [] = ([], [])
until c (b ∷ bs) =
    let (segment, rest) = until c bs in if b == c then ([], b ∷ bs) else (b ∷ segment, rest)

-- The loop over a path, on fuel: a round takes a byte at least. The bytes from one that is not a
-- slash are a segment that is not empty.
unfoldable pub path_segments : ℕ → Bytes → List Bytes
path_segments zero p = []
path_segments (suc n) [] = []
path_segments (suc n) (b ∷ p) =
    let skipped = path_segments n p in
    let (segment, rest) = until b'/' (b ∷ p) in
    let others = path_segments n rest in if b == b'/' then skipped else segment ∷ others

unfoldable pub split_path : Bytes → List Bytes
split_path p = path_segments (length p) p

-- `// Skip &`
abbrev pub skip : ℕ → Bytes → Bytes
skip c [] = []
skip c (b ∷ bs) = if b == c then bs else b ∷ bs

abbrev pub cons_full : Bytes → List Bytes → List Bytes
cons_full [] rest = rest
cons_full (b ∷ bs) rest = (b ∷ bs) ∷ rest

-- The loop over a query, on fuel likewise.
unfoldable pub query_parameters : ℕ → Bytes → List Bytes
query_parameters zero q = []
query_parameters (suc n) [] = []
query_parameters (suc n) (b ∷ q) =
    let (param, rest) = until b'&' (b ∷ q) in
    let others = query_parameters n (skip b'&' rest) in cons_full param others

unfoldable pub split_query : Bytes → List Bytes
split_query q = query_parameters (length q) q

-- A part is not empty, and has no separator in it.
abbrev pub lacks : ℕ → Bytes → Bool
lacks c [] = true
lacks c (b ∷ bs) = not (b == c) && lacks c bs

abbrev pub is_part : ℕ → Bytes → Bool
is_part c [] = false
is_part c (b ∷ bs) = lacks c (b ∷ bs)

abbrev pub are_parts : ℕ → List Bytes → Bool
are_parts c [] = true
are_parts c (part ∷ parts) = is_part c part && are_parts c parts

-- The parts with the separator before each, and between them.
unfoldable pub preceded : ℕ → List Bytes → Bytes
preceded c [] = []
preceded c (part ∷ parts) = c ∷ (part ++ preceded c parts)

abbrev pub separated : ℕ → List Bytes → Bytes
separated c [] = []
separated c (part ∷ parts) = part ++ preceded c parts

until-append :
    (c : ℕ) (part : Bytes) (parts : List Bytes)
    → lacks c part ≡ true
    → until c (part ++ preceded c parts) ≡ (part, preceded c parts)
unfolding until preceded
until-append c [] [] h = refl
until-append c [] (x ∷ xs) h = ground arith
until-append c (b ∷ part) parts h = ground (arith, until-append c part parts)

path_segments-preceded :
    (n : ℕ) (parts : List Bytes)
    → are_parts b'/' parts ≡ true
    → length (preceded b'/' parts) ≤ n
    → path_segments n (preceded b'/' parts) ≡ parts
unfolding path_segments preceded
path_segments-preceded zero [] h le = refl
path_segments-preceded (suc n) [] h le = refl
path_segments-preceded zero (part ∷ parts) h le = ground arith
path_segments-preceded (suc zero) (part ∷ parts) h le =
    ground (arith, length-append part (preceded b'/' parts))
path_segments-preceded (suc (suc n)) ([] ∷ parts) h le = ground arith
path_segments-preceded (suc (suc n)) ((b ∷ part) ∷ parts) h le = ground (
  arith,
  until-append b'/' (b ∷ part) parts,
  length-append part (preceded b'/' parts),
  path_segments-preceded n parts,
)

query_parameters-separated :
    (n : ℕ) (parts : List Bytes)
    → are_parts b'&' parts ≡ true
    → length (separated b'&' parts) ≤ n
    → query_parameters n (separated b'&' parts) ≡ parts
unfolding query_parameters preceded
query_parameters-separated zero [] h le = refl
query_parameters-separated (suc n) [] h le = refl
query_parameters-separated zero (part ∷ parts) h le =
    ground (arith, length-append part (preceded b'&' parts))
query_parameters-separated (suc n) ([] ∷ parts) h le = ground arith
query_parameters-separated (suc n) ((b ∷ part) ∷ []) h le =
    ground (arith, until-append b'&' (b ∷ part) [], query_parameters-separated n [])
query_parameters-separated (suc n) ((b ∷ part) ∷ next ∷ parts) h le = ground (
  arith,
  until-append b'&' (b ∷ part) (next ∷ parts),
  length-append part (preceded b'&' (next ∷ parts)),
  query_parameters-separated n (next ∷ parts),
)

-- Parts that are not empty and have no slash in them are the segments of the path that has a slash
-- before each.
pub split_path-preceded :
    (parts : List Bytes) → are_parts b'/' parts ≡ true → split_path (preceded b'/' parts) ≡ parts
unfolding split_path
split_path-preceded parts h = path_segments-preceded _ parts h (omega arith)

-- Parts that are not empty and have no ampersand in them are the parameters of the query that has
-- an ampersand between them.
pub split_query-separated :
    (parts : List Bytes) → are_parts b'&' parts ≡ true → split_query (separated b'&' parts) ≡ parts
unfolding split_query
split_query-separated parts h = query_parameters-separated _ parts h (omega arith)
