-- ===== src/Client/Links/RoundTrip.antt =====
-- src/client.cpp and src/types.cpp: a list of links, read back.
use ferriot.Prelude.{
  ℕ, ◌≡◌, refl, ap, ap₂, ◌∙◌, Bool, true, false, not, ◌&&◌, Option, none, some, List, [], ◌∷◌, ◌++◌,
  ◌==◌, leb, if◌then◌else◌, Bytes, arith,
}
use ferriot.Prelude.Table.{Table}
use ferriot.Types.{ObjectPath}
use ferriot.Types.Decimal.{decimal, AllDigits, decimal-AllDigits}
use ferriot.Types.Path.{segment?, to_string, parse}
use ferriot.Types.Path.RoundTrip.{IsPath, parse-to_string}
use ferriot.Object.{Object}
use ferriot.Transport.Options.{until, lacks}
use ferriot.Client.Links.{link, links, map_list, instance_paths, build_registration_payload}

-- The text at its commas.
cons_head : ℕ → List Bytes → List Bytes
cons_head b [] = (b ∷ []) ∷ []
cons_head b (piece ∷ pieces') = (b ∷ piece) ∷ pieces'

unfoldable pub pieces : Bytes → List Bytes
unfolding cons_head
pieces [] = [] ∷ []
pieces (b ∷ bs) = let rest = pieces bs in if b == b',' then [] ∷ rest else cons_head b rest

-- The path of a link: what stands between its brackets.
unfoldable pub read_link : Bytes → Option ObjectPath
read_link [] = none
read_link (b ∷ bs) = if b == b'<' then parse (until b'>' bs).0 else none

-- A list of links, by the paths in it.
unfoldable pub read_links : Bytes → List (Option ObjectPath)
read_links [] = []
read_links (b ∷ bs) = map_list read_link (pieces (b ∷ bs))

-- A byte that a printed path does not have.
abbrev is_foreign : ℕ → Bool
is_foreign c = not (c == b'/') && not (leb b'0' c && leb c b'9')

lacks-append :
    (c : ℕ) (xs ys : Bytes) → lacks c xs ≡ true → lacks c ys ≡ true → lacks c (xs ++ ys) ≡ true
lacks-append c [] ys h k = k
lacks-append c (x ∷ xs) ys h k = ground (arith, lacks-append c xs ys)

lacks-digits : (c : ℕ) (xs : Bytes) → is_foreign c ≡ true → AllDigits xs → lacks c xs ≡ true
lacks-digits c [] foreign h = refl
lacks-digits c (x ∷ xs) foreign h = ground (arith, lacks-digits c xs foreign h.2)

lacks-segment :
    (c : ℕ) (o : Option ℕ) (rest : Bytes)
    → is_foreign c ≡ true
    → lacks c rest ≡ true
    → lacks c (segment? o rest) ≡ true
lacks-segment c none rest foreign h = refl
lacks-segment c (some id) rest foreign h = ground (
  arith,
  lacks-append c (decimal id) rest,
  lacks-digits c (decimal id) foreign (decimal-AllDigits id),
)

lacks-to_string :
    (c : ℕ) (path : ObjectPath) → is_foreign c ≡ true → lacks c (to_string path) ≡ true
unfolding to_string
lacks-to_string c path foreign = lacks-segment c (some path.object_id) _ foreign (
    lacks-segment c path.instance_id _ foreign (
      lacks-segment c path.resource_id _ foreign
        (lacks-segment c path.resource_instance_id [] foreign refl)))

until-lacks : (c : ℕ) (xs : Bytes) → lacks c xs ≡ true → (until c (xs ++ c ∷ [])).0 ≡ xs
unfolding until
until-lacks c [] h = ground arith
until-lacks c (x ∷ xs) h = ground (arith, until-lacks c xs)

read_link-link : (path : ObjectPath) → IsPath path → read_link (link path) ≡ some path
unfolding read_link
read_link-link path v =
    rw (until-lacks b'>' (to_string path) (lacks-to_string b'>' path refl)) (parse-to_string path v)

lacks-link : (path : ObjectPath) → lacks b',' (link path) ≡ true
lacks-link path =
    lacks-append b',' (to_string path) (b'>' ∷ []) (lacks-to_string b',' path refl) refl

abbrev pub All {ℓ κ} : {A : Type ℓ} → (A → Type κ) → List A → Type κ
All P [] = Unit
All P (x ∷ xs) = P x × All P xs

pieces-links :
    (part : Bytes) (paths : List ObjectPath)
    → lacks b',' part ≡ true
    → pieces (part ++ links false paths) ≡ part ∷ map_list link paths
unfolding pieces links
pieces-links [] [] h = refl
pieces-links [] (path ∷ paths) h = ap (◌∷◌ []) (pieces-links (link path) paths (lacks-link path))
pieces-links (b ∷ part) paths h = ground (arith, pieces-links part paths)

map_list-read_link :
    (paths : List ObjectPath)
    → All IsPath paths
    → map_list read_link (map_list link paths) ≡ map_list some paths
map_list-read_link [] v = refl
map_list-read_link (path ∷ paths) v =
    ap₂ (λ x xs. x ∷ xs) (read_link-link path v.0) (map_list-read_link paths v.1)

read_links-links :
    (paths : List ObjectPath)
    → All IsPath paths
    → read_links (links true paths) ≡ map_list some paths
unfolding read_links links
read_links-links [] v = refl
read_links-links (path ∷ paths) v =
    ap (map_list read_link) (pieces-links (link path) paths (lacks-link path))
    ∙ map_list-read_link (path ∷ paths) v

-- The payload of a registration, split at its commas and each link read between its brackets, gives
-- the paths of the objects' instances back, in their order, where the identifiers are below 2 ^ 16.
pub read_links-build_registration_payload :
    {S : Type 0} (objects : Table (Object S)) (s : S)
    → All IsPath (instance_paths objects s)
    → read_links (build_registration_payload objects s) ≡ map_list some (instance_paths objects s)
unfolding build_registration_payload
read_links-build_registration_payload objects s v = read_links-links (instance_paths objects s) v
