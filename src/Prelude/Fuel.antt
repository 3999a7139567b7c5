-- ===== src/Prelude/Fuel.antt =====
-- What a loop on fuel gives, once it has enough.
use Prim.Native.Nat.{ℕ, zero, suc, ◌≤◌}
use mathlib.Core.Path.{◌≡◌, ◌∙◌, refl}
use mathlib.Core.Option.{Option, some}
use native.Mathlib.Omega.{arith}

module _ {ℓ} {A : Type ℓ} where
  -- There is a bound from which on the loop gives the value.
  abbrev pub Within : (ℕ → Option A) → A → Type ℓ
  Within f a = (bound : ℕ) × ((fuel : ℕ) → bound ≤ fuel → f fuel ≡ some a)

  pub at_once : (a : A) → Within (λ _. some a) a
  at_once a = (0, λ fuel l. refl)

  -- One round of a loop, and then the rest.
  pub one_round :
      (f g : ℕ → Option A) (a : A) → ((n : ℕ) → f (suc n) ≡ g n) → Within g a → Within f a
  one_round f g a e (b, p) = (suc b, enough)
    where
      enough : (fuel : ℕ) → suc b ≤ fuel → f fuel ≡ some a
      enough zero l = absurd (omega arith)
      enough (suc n) l = e n ∙ p n (omega arith)
