-- ===== src/Prelude/Expected.antt =====
-- llvm::Expected: a value, or the error in its place.
use mathlib.Core.Path.{◌≡◌, refl}
use mathlib.Core.Logic.{◌⊎◌, inl, inr}

pub data Expected {ℓ} (Error : Type 0) (T : Type ℓ) : Type ℓ where
  success : T → Expected Error T
  failure : Error → Expected Error T

-- Going on with the value, by a call that can fail too.
infixl 5 ◌>>=◌
abbrev pub ◌>>=◌ {ℓ κ} :
    {Error : Type 0} {T : Type ℓ} {U : Type κ}
    → Expected Error T
    → (T → Expected Error U)
    → Expected Error U
failure error >>= continue = failure error
success x >>= continue = continue x

module _ {ℓ} {Error : Type 0} {T : Type ℓ} where
  pub Expected-cases :
      (call : Expected Error T)
      → ((x : T) × (call ≡ success x)) ⊎ ((error : Error) × (call ≡ failure error))
  Expected-cases (failure error) = inr (error, refl)
  Expected-cases (success x) = inl (x, refl)

-- Two ways to go on that agree on every value.
pub >>=-congr {ℓ κ} :
    {Error : Type 0} {T : Type ℓ} {U : Type κ} (call : Expected Error T)
    (continue go_on : T → Expected Error U)
    → ((x : T) → continue x ≡ go_on x)
    → (call >>= continue) ≡ (call >>= go_on)
>>=-congr (failure error) continue go_on agree = refl
>>=-congr (success x) continue go_on agree = agree x

-- What holds of the value, if there is one.
abbrev pub Ensures {ℓ κ} : {Error : Type 0} {T : Type ℓ} → (T → Type κ) → Expected Error T → Type κ
Ensures P (failure error) = Unit
Ensures P (success x) = P x

pub bind-Ensures {ℓ κ} :
    {Error : Type 0} {T : Type ℓ} {U : Type κ} (P : T → Type 0) (Q : U → Type 0)
    (call : Expected Error T) (continue : T → Expected Error U)
    → Ensures P call
    → ((x : T) → P x → Ensures Q (continue x))
    → Ensures Q (call >>= continue)
bind-Ensures P Q (failure error) continue holds next = tt
bind-Ensures P Q (success x) continue holds next = next x holds
