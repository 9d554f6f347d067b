-- ===== src/Types/Path/Sound.antt =====
-- src/types.cpp: what ObjectPath::parse accepts.
use mathlib.Core.Path.{subst}
use mathlib.Core.Option.{some-injective}
use native.Mathlib.Numerals.{add-one}
use ferriot.Prelude.{
  ℕ, zero, suc, ◌+◌, ◌^◌, ◌<◌, ◌≡◌, refl, Option, none, some, [], ◌∷◌, arith, Bytes, bind-eq-some,
  Bool-cases, inl, inr, ◌==◌, false,
}
use ferriot.Types.{ObjectPath, object_path}
use ferriot.Types.Decimal.{from_chars, from_chars-lt}
use ferriot.Types.Path.{
  split_segment, set_component, whole, segment_value, parse_loop, parsed, parse,
}
use ferriot.Types.Path.RoundTrip.{IsPath, IsLevels, path_of}

-- The path after k components.
abbrev Shape : ℕ → ℕ → Option ℕ → Option ℕ → Option ℕ → Type 0
Shape zero o none none none = Unit
Shape (suc zero) o none none none = o < 2 ^ 16
Shape (suc (suc zero)) o (some i) none none = (o < 2 ^ 16) × (i < 2 ^ 16)
Shape (suc (suc (suc zero))) o (some i) (some r) none = (o < 2 ^ 16) × (i < 2 ^ 16) × (r < 2 ^ 16)
Shape (suc (suc (suc (suc zero)))) o (some i) (some r) (some s) =
    (o < 2 ^ 16) × (i < 2 ^ 16) × (r < 2 ^ 16) × (s < 2 ^ 16)
Shape _ _ _ _ _ = ⊥

abbrev HasShape : ℕ → ObjectPath → Type 0
HasShape k p = Shape k p.object_id p.instance_id p.resource_id p.resource_instance_id

set_component-HasShape :
    (k v o : ℕ) (i r s : Option ℕ)
    → k < 4
    → v < 2 ^ 16
    → Shape k o i r s
    → HasShape (suc k) (set_component k v (path_of o i r s))
unfolding set_component
set_component-HasShape zero v o none none none hk hv h = hv
set_component-HasShape (suc zero) v o none none none hk hv h = (h, hv)
set_component-HasShape (suc (suc zero)) v o (some i) none none hk hv h = (h.0, h.1, hv)
set_component-HasShape (suc (suc (suc zero))) v o (some i) (some r) none hk hv h =
    (h.0, h.1, h.2, hv)
set_component-HasShape _ v o i r s hk hv h = absurd (omega arith)

segment_value-lt : (segment : Bytes) {n : ℕ} → segment_value segment ≡ some n → n < 2 ^ 16
unfolding segment_value whole
segment_value-lt segment h =
    let (f, e, h') = bind-eq-some (from_chars segment) _ h in
    whole_lt f (from_chars-lt segment e) h'
  where
    whole_lt : (f : ℕ × Bytes) {n : ℕ} → f.0 < 2 ^ 16 → whole f ≡ some n → n < 2 ^ 16
    whole_lt (v, []) lt h = ground arith
    whole_lt (v, _ ∷ _) lt h = cc

parse_loop-HasShape :
    (left k : ℕ) (p : ObjectPath) (bytes : Bytes) (q : ℕ × ObjectPath)
    → left + k ≡ 4
    → HasShape k p
    → parse_loop left k p bytes ≡ some q
    → HasShape q.0 q.1
unfolding parse_loop
parse_loop-HasShape zero k p [] q e h r = subst (λ x. HasShape x.0 x.1) (some-injective _ _ r) h
parse_loop-HasShape (suc left) k p [] q e h r =
    subst (λ x. HasShape x.0 x.1) (some-injective _ _ r) h
parse_loop-HasShape zero k p (c ∷ cs) q e h r =
    subst (λ x. HasShape x.0 x.1) (some-injective _ _ r) h
parse_loop-HasShape (suc left) k p (c ∷ cs) q e h r =
    let (v, value, r') = bind-eq-some (segment_value (split_segment (c ∷ cs)).0) _ r in
    parse_loop-HasShape left (k + 1) (set_component k v p) (split_segment (c ∷ cs)).1 q
      (omega arith)
      (rw (add-one k) (
        set_component-HasShape k v p.object_id p.instance_id p.resource_id p.resource_instance_id
          (omega arith) (segment_value-lt _ value) h))
      r'

Shape-IsLevels :
    (k o : ℕ) (i r s : Option ℕ)
    → (k == 0) ≡ false
    → Shape k o i r s
    → (o < 2 ^ 16) × IsLevels i r s
Shape-IsLevels zero o i r s ne h = cc
Shape-IsLevels (suc zero) o none none none ne h = (h, tt)
Shape-IsLevels (suc (suc zero)) o (some i) none none ne h = h
Shape-IsLevels (suc (suc (suc zero))) o (some i) (some r) none ne h = (h.0, (h.1, h.2))
Shape-IsLevels (suc (suc (suc (suc zero)))) o (some i) (some r) (some s) ne h =
    (h.0, (h.1, h.2, h.3))
Shape-IsLevels _ o i r s ne h = absurd h

-- Whatever text is parsed, the path that comes out has uint16_t identifiers, and gives a level only
-- below one that it gives.
pub parse-IsPath : (bytes : Bytes) {p : ObjectPath} → parse bytes ≡ some p → IsPath p
unfolding parse parsed
parse-IsPath [] h = cc
parse-IsPath (c ∷ cs) {p} h = done (parse_loop 4 0 (object_path 0) cs) refl (ground arith)
  where
    done :
        (m : Option (ℕ × ObjectPath))
        → parse_loop 4 0 (object_path 0) cs ≡ m
        → parsed m ≡ some p
        → IsPath p
    done none e r = cc
    done (some (k, q)) e r = elim (Bool-cases (k == 0)) [
      | inl nothing ↦ cc (rw nothing at r)
      | inr nonzero ↦ subst IsPath (some-injective _ _ (rw nonzero at r)) (
          Shape-IsLevels k q.object_id q.instance_id q.resource_id q.resource_instance_id nonzero
            (parse_loop-HasShape 4 0 (object_path 0) cs (k, q) (omega arith) tt e))
    ]
