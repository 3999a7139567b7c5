-- ===== src/Prelude/Checked.antt =====
-- What a function gives that may throw: a value, or the error.
use mathlib.Core.Path.{◌≡◌, refl}

pub data Checked {ℓ} (E : Type 0) (A : Type ℓ) : Type ℓ where
  valid : A → Checked E A
  invalid : E → Checked E A

module _ {ℓ κ} {E : Type 0} {A : Type ℓ} {B : Type κ} where
  abbrev pub if_valid : (A → Checked E B) → Checked E A → Checked E B
  if_valid use_value (invalid error) = invalid error
  if_valid use_value (valid a) = use_value a

  infixl 5 ◌>>=◌
  abbrev pub ◌>>=◌ : Checked E A → (A → Checked E B) → Checked E B
  checked >>= use_value = if_valid use_value checked

infixl 5 ◌>>◌
abbrev pub ◌>>◌ {κ} : {E : Type 0} {B : Type κ} → Checked E (Unit {0}) → Checked E B → Checked E B
first >> second = first >>= (λ _. second)

-- What has succeeded has succeeded in its first part, with a value for the second.
pub >>=-valid {ℓ κ} :
    {E : Type 0} {A : Type ℓ} {B : Type κ} (m : Checked E A) (f : A → Checked E B) (b : B)
    → (m >>= f) ≡ valid b
    → (a : A) × (m ≡ valid a) × (f a ≡ valid b)
>>=-valid (valid a) f b h = (a, refl, h)
>>=-valid (invalid e) f b h = cc
