-- ===== src/Common/Results.antt =====
-- `Result<A, E>` of Rust, and the `?` operator as its bind.
use mathlib.Core.Path.{◌≡◌, refl, ap}
use mathlib.Core.Logic.{◌⊎◌, inl, inr}

pub data Result {ℓ κ} (E : Type κ) (A : Type ℓ) : Type (ℓ ⊔ κ) where
  ok : A → Result E A
  err : E → Result E A

infixl 5 ◌>>=◌
infixl 5 ◌>>◌
abbrev pub ◌>>=◌ {ℓ κ μ} :
    {Error : Type μ} {Value : Type ℓ} {Next : Type κ}
    → Result Error Value
    → (Value → Result Error Next)
    → Result Error Next
err failure >>= next = err failure
ok value >>= next = next value

-- `check?; rest`
abbrev pub ◌>>◌ {ℓ κ} :
    {Error : Type κ} {Value : Type ℓ}
    → Result Error (Unit {0})
    → (rest : Result Error Value) → Result Error Value
check >> rest = check >>= (λ done. rest)

module _ {ℓ κ} {A : Type ℓ} {E : Type κ} where
  pub Result-cases : (r : Result E A) → ((a : A) × (r ≡ ok a)) ⊎ ((e : E) × (r ≡ err e))
  Result-cases (ok a) = inl (a, refl)
  Result-cases (err e) = inr (e, refl)

  -- A chain succeeds only if its first part does.
  pub >>=-eq-ok {μ} :
      {Next : Type μ} (r : Result E A) (next : A → Result E Next) {b : Next}
      → (r >>= next) ≡ ok b
      → (a : A) × (r ≡ ok a) × (next a ≡ ok b)
  >>=-eq-ok (err failure) next accepted = cc
  >>=-eq-ok (ok value) next accepted = (value, refl, accepted)

  abbrev value_or : A → Result E A → A
  value_or d (ok a) = a
  value_or d (err e) = d

  pub ok-injective : {a b : A} → ◌≡◌ {A = Result E A} (ok a) (ok b) → a ≡ b
  ok-injective {a = a} e = ap (value_or a) e
