-- ===== src/Errors/Chain.antt =====
-- The laws by which fallible calls are chained.
use contextsnap.Base.{◌≡◌, refl}
use contextsnap.Errors.{Result, value, error, ◌>>=◌, map_result}

module _ {ℓ κ μ} {A : Type ℓ} {B : Type κ} {C : Type μ} where
  pub bind_assoc :
      (m : Result A) (f : A → Result B) (g : B → Result C)
      → (m >>= f >>= g) ≡ (m >>= λ a. f a >>= g)
  bind_assoc (value a) f g = refl
  bind_assoc (error e) f g = refl

pub map_result-bind {ℓ κ} :
    {A : Type ℓ} {B : Type κ} (f : A → B) (m : Result A) → map_result f m ≡ (m >>= λ a. value (f a))
unfolding map_result
map_result-bind f (value a) = refl
map_result-bind f (error e) = refl

-- Inversion of a chain that succeeded.
pub bind-eq-value {ℓ κ} :
    {A : Type ℓ} {B : Type κ} (m : Result A) (f : A → Result B) {b : B}
    → (m >>= f) ≡ value b
    → (a : A) × (m ≡ value a) × (f a ≡ value b)
bind-eq-value (value a) f h = (a, refl, h)
bind-eq-value (error e) f h = cc

pub value_injective {ℓ} : {A : Type ℓ} {a b : A} → value a ≡ value b → a ≡ b
value_injective e = cc
