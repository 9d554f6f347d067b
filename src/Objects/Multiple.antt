-- ===== src/Objects/Multiple.antt =====
-- src/objects/: the reading of a multiple-instance resource that is held as a vector.
use ferriot.Prelude.{ℕ, Option, none, some, List, [], ◌∷◌, get_elem?}
use ferriot.Result.{Result, ok, fail, not_found}
use ferriot.Resource.{ResourceValue}

found {ℓ} : {A : Type ℓ} → (A → ResourceValue) → Option A → Result ResourceValue
found value none = fail not_found "Resource instance not found"
found value (some a) = ok (value a)

-- The element that the resource instance names, or without one the first element, where `empty` is
-- the answer for a vector with no element.
unfoldable pub read_multiple {ℓ} :
    {A : Type ℓ}
    → Result ResourceValue
    → (A → ResourceValue)
    → List A
    → Option ℕ
    → Result ResourceValue
unfolding found
read_multiple empty value elements (some riid) = found value (get_elem? elements riid)
read_multiple empty value [] none = empty
read_multiple empty value (a ∷ elements) none = ok (value a)
