-- ===== src/Result/Laws.antt =====
-- Facts on include/lwm2m/result.hpp.
use ferriot.Prelude.{◌≡◌, refl, ap}
use ferriot.Result.{Result, ok, err, map, value_or, ◌>>=◌}

pub ok-injective {ℓ} : {A : Type ℓ} {a b : A} → ok a ≡ ok b → a ≡ b
ok-injective {a} h = ap (λ r. value_or r a) h

module _ {ℓ κ} {A : Type ℓ} {B : Type κ} where
  -- A chain succeeds where its first part and what follows it do.
  pub >>=-eq-ok :
      (r : Result A) (next : A → Result B) {b : B}
      → (r >>= next) ≡ ok b
      → (a : A) × (r ≡ ok a) × (next a ≡ ok b)
  >>=-eq-ok (err e) next h = cc
  >>=-eq-ok (ok a) next h = (a, refl, h)

  -- Two continuations that agree on the value of a success.
  pub bind-cong :
      (r : Result A) {f g : A → Result B} → ((a : A) → r ≡ ok a → f a ≡ g a) → (r >>= f) ≡ (r >>= g)
  bind-cong (ok a) h = h a refl
  bind-cong (err e) h = refl

  pub map-eq-ok :
      (f : A → B) (r : Result A) {b : B} → map f r ≡ ok b → (a : A) × (r ≡ ok a) × (f a ≡ b)
  map-eq-ok f (ok a) h = (a, refl, ok-injective h)
  map-eq-ok f (err e) h = cc
