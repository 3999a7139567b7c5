-- ===== src/Prelude/Dict.antt =====
-- A JavaScript `Map` as an association list in insertion order, with keys compared by a test.
use Prim.Native.Nat.{ℕ}
use Prim.Native.String.{String}
use mathlib.Core.Path.{◌≡◌, refl}
use mathlib.Core.Bool.{Bool, true, false}
use mathlib.Core.Logic.{◌↔◌}
use mathlib.Core.List.{List, [], ◌∷◌}
use mathlib.Core.Option.{Option, none, some}
use native.Mathlib.Omega.{arith}
use text.Mathlib.Text.{◌==◌ as str_eq}
use text.Mathlib.TextEquality.{eq_iff}
use temporalio_sdk_typescrip.Prelude.Tests.{if◌then◌else◌, ◌==◌, ==_iff}

pub record Key (K : Type 0) : Type 0 where
  pub same : K → K → Bool
  pub same_iff : (a b : K) → (same a b ≡ true) ↔ (a ≡ b)

instance abbrev pub nat_key : Key ℕ
nat_key = record { same = ◌==◌; same_iff = ==_iff }

instance abbrev pub string_key : Key String
string_key = record { same = str_eq; same_iff = eq_iff }

module _ {K V : Type 0} ⦃e : Key K⦄ where
  abbrev pub lookup : K → List (K × V) → Option V
  lookup k [] = none
  lookup k ((j, v) ∷ m) = if e.same j k then some v else lookup k m

  -- `Map.set` keeps the place of a key that is there.
  abbrev pub insert : K → V → List (K × V) → List (K × V)
  insert k v [] = (k, v) ∷ []
  insert k v ((j, w) ∷ m) = if e.same j k then (j, v) ∷ m else (j, w) ∷ insert k v m

  abbrev pub remove : K → List (K × V) → List (K × V)
  remove k [] = []
  remove k ((j, w) ∷ m) = if e.same j k then remove k m else (j, w) ∷ remove k m

  pub lookup-insert :
      (k j : K) (v : V) (m : List (K × V))
      → lookup j (insert k v m) ≡ (if e.same k j then some v else lookup j m)
  lookup-insert k j v [] = refl
  lookup-insert k j v ((i, w) ∷ m) =
      ground (arith, e.same_iff k j, e.same_iff i k, e.same_iff i j, lookup-insert k j v m)

  pub lookup-remove :
      (k j : K) (m : List (K × V))
      → lookup j (remove k m) ≡ (if e.same k j then none else lookup j m)
  lookup-remove k j [] = ground arith
  lookup-remove k j ((i, w) ∷ m) =
      ground (arith, e.same_iff k j, e.same_iff i k, e.same_iff i j, lookup-remove k j m)

abbrev pub is_some {ℓ} : {A : Type ℓ} → Option A → Bool
is_some none = false
is_some (some _) = true
