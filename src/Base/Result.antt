-- ===== src/Base/Result.antt =====
-- Results of code that can stop: a value, or what stopped it. `>>=` runs a step behind another.
use mathlib.Core.Path.{◌≡◌, refl}

pub data Result {ℓ κ} (Stop : Type κ) (Value : Type ℓ) : Type (ℓ ⊔ κ) where
  ok : Value → Result Stop Value
  err : Stop → Result Stop Value

infixl 5 ◌>>=◌
abbrev pub ◌>>=◌ {ℓ κ ι} :
    {Stop : Type κ} {V : Type ℓ} {W : Type ι} → Result Stop V → (V → Result Stop W) → Result Stop W
first >>= next = elim first [ ok v ↦ next v | err stop ↦ err stop ]

module _ {ℓ κ ι} {Stop : Type κ} {V : Type ℓ} {W : Type ι} (next : V → Result Stop W) where
  -- Two steps that succeed together succeed one by one.
  pub bind_ok :
      (first : Result Stop V) {w : W}
      → (first >>= next) ≡ ok w
      → (v : V) × (first ≡ ok v) × (next v ≡ ok w)
  bind_ok (ok v) done = (v, refl, done)
  bind_ok (err stop) done = cc
