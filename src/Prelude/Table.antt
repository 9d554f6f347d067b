-- ===== src/Prelude/Table.antt =====
-- std::unordered_map with a uint16_t key, as a list of entries: the order of the list stands for
-- the iteration order, which the standard leaves open. Used qualified.
use ferriot.Prelude.{
  ℕ, Bool, true, false, Option, none, some, List, [], ◌∷◌, ◌≡◌, refl, arith, ◌==◌, ==_iff,
  Bool-cases, inl, inr, if◌then◌else◌,
}
use mathlib.Core.Path.{subst₂}
use mathlib.Core.Option.{some-injective}

abbrev pub Table {ℓ} : Type ℓ → Type ℓ
Table V = List (ℕ × V)

module _ {ℓ} {V : Type ℓ} where
  -- m.find(k), and the value found.
  unfoldable pub find : ℕ → Table V → Option V
  find k [] = none
  find k ((j, v) ∷ m) = if j == k then some v else find k m

  -- m[k] = v
  unfoldable pub put : ℕ → V → Table V → Table V
  put k v [] = (k, v) ∷ []
  put k v ((j, w) ∷ m) = if j == k then (k, v) ∷ m else (j, w) ∷ put k v m

  -- m.erase(k)
  unfoldable pub erase : ℕ → Table V → Table V
  erase k [] = []
  erase k ((j, w) ∷ m) = if j == k then erase k m else (j, w) ∷ erase k m

  unfoldable pub keys : Table V → List ℕ
  keys [] = []
  keys ((j, w) ∷ m) = j ∷ keys m

  pub find-put :
      (k j : ℕ) (v : V) (m : Table V) → find j (put k v m) ≡ (if k == j then some v else find j m)
  unfolding find put
  find-put k j v [] = refl
  find-put k j v ((i, w) ∷ m) = ground (arith, find-put k j v m)

  pub find-erase :
      (k j : ℕ) (m : Table V) → find j (erase k m) ≡ (if k == j then none else find j m)
  unfolding find erase
  find-erase k j [] = ground arith
  find-erase k j ((i, w) ∷ m) = ground (arith, find-erase k j m)

  -- Every entry has a property of its key and value.
  abbrev pub All {κ} : (ℕ → V → Type κ) → Table V → Type κ
  All P [] = Unit
  All P ((k, v) ∷ m) = P k v × All P m

  pub All-put {κ} :
      (P : ℕ → V → Type κ) (k : ℕ) (v : V) (m : Table V) → P k v → All P m → All P (put k v m)
  unfolding put
  All-put P k v [] p h = (p, tt)
  All-put P k v ((j, w) ∷ m) p h = put_head (j == k) (All-put P k v m p h.1)
    where
      put_head :
          (b : Bool) → All P (put k v m) → All P (if b then (k, v) ∷ m else (j, w) ∷ put k v m)
      put_head true rest = (p, h.1)
      put_head false rest = (h.0, rest)

  pub All-mono {κ κ'} :
      (P : ℕ → V → Type κ) (Q : ℕ → V → Type κ') (m : Table V)
      → ((k : ℕ) (v : V) → P k v → Q k v)
      → All P m
      → All Q m
  All-mono P Q [] f h = tt
  All-mono P Q ((k, v) ∷ m) f h = (f k v h.0, All-mono P Q m f h.1)

  pub All-find {κ} :
      (P : ℕ → V → Type κ) (k : ℕ) (m : Table V) {v : V} → All P m → find k m ≡ some v → P k v
  unfolding find
  All-find P k [] h e = cc
  All-find P k ((j, w) ∷ m) {v} h e = elim (Bool-cases (j == k)) [
    | inl same ↦ found ((==_iff j k).0 same) (some-injective w v (rw same at e))
    | inr other ↦ All-find P k m h.1 (rw other at e)
  ]
    where
      found : j ≡ k → w ≡ v → P k v
      found p q = subst₂ P p q h.0
