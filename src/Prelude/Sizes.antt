-- ===== src/Prelude/Sizes.antt =====
-- How many entries a dictionary has, and how many entries of a list have a key.
use Prim.Native.Nat.{ℕ, suc, ◌+◌}
use mathlib.Core.Path.{◌≡◌, refl}
use mathlib.Core.Bool.{false}
use mathlib.Core.Logic.{inl, inr}
use mathlib.Core.List.{List, [], ◌∷◌, ◌++◌}
use mathlib.Core.Option.{none, some}
use native.Mathlib.Omega.{arith}
use temporalio_sdk_typescrip.Prelude.Tests.{if◌then◌else◌, Bool-cases}
use temporalio_sdk_typescrip.Prelude.Lists.{length}
use temporalio_sdk_typescrip.Prelude.Dict.{
  Key, lookup, insert, remove, lookup-insert, lookup-remove,
}

module _ {K V : Type 0} ⦃e : Key K⦄ where
  -- Every key has one entry.
  abbrev pub IsUnique : List (K × V) → Type 0
  IsUnique [] = Unit
  IsUnique ((k, v) ∷ m) = (lookup k m ≡ none) × IsUnique m

  -- The number of entries of a key.
  abbrev pub count : K → List (K × V) → ℕ
  count k [] = 0
  count k ((j, v) ∷ m) = (if e.same j k then 1 else 0) + count k m

  pub count-append : (k : K) (m n : List (K × V)) → count k (m ++ n) ≡ count k m + count k n
  count-append k [] n = omega arith
  count-append k ((j, v) ∷ m) n = omega (arith, count-append k m n)

  -- The list without the first entry of a key.
  abbrev pub remove_first : K → List (K × V) → List (K × V)
  remove_first k [] = []
  remove_first k ((j, v) ∷ m) = if e.same j k then m else (j, v) ∷ remove_first k m

  pub count-remove_first :
      (k j : K) (m : List (K × V)) (v : V)
      → lookup k m ≡ some v
      → count j m ≡ (if e.same k j then 1 else 0) + count j (remove_first k m)
  count-remove_first k j [] v h = ground arith
  count-remove_first k j ((i, w) ∷ m) v h = elim (Bool-cases (e.same i k)) [
    | inl q ↦ rw ((e.same_iff i k).0 q, (e.same_iff k k).1 refl) refl
    | inr q ↦
        let below : lookup k m ≡ some v = rw q at h in
        rw q (omega (arith, count-remove_first k j m v below))
  ]

  pub remove_absent : (k : K) (m : List (K × V)) → lookup k m ≡ none → remove k m ≡ m
  remove_absent k [] h = refl
  remove_absent k ((j, v) ∷ m) h = ground (arith, remove_absent k m)

  pub length-remove :
      (k : K) (m : List (K × V)) (v : V)
      → IsUnique m
      → lookup k m ≡ some v
      → length m ≡ suc (length (remove k m))
  length-remove k [] v u h = ground arith
  length-remove k ((j, w) ∷ m) v (a, u) h =
      ground (arith, e.same_iff j k, remove_absent k m, length-remove k m v u)

  pub length-insert_new :
      (k : K) (v : V) (m : List (K × V))
      → lookup k m ≡ none
      → length (insert k v m) ≡ suc (length m)
  length-insert_new k v [] h = refl
  length-insert_new k v ((j, w) ∷ m) h = ground (arith, length-insert_new k v m)

  pub length-insert_old :
      (k : K) (v w : V) (m : List (K × V)) → lookup k m ≡ some w → length (insert k v m) ≡ length m
  length-insert_old k v w [] h = ground arith
  length-insert_old k v w ((j, x) ∷ m) h = ground (arith, length-insert_old k v w m)

  pub insert-IsUnique : (k : K) (v : V) (m : List (K × V)) → IsUnique m → IsUnique (insert k v m)
  insert-IsUnique k v [] u = (refl, tt)
  insert-IsUnique k v ((j, w) ∷ m) (a, u) = elim (Bool-cases (e.same j k)) [
    | inl q ↦ rw q (a, u)
    | inr q ↦
        let other : e.same k j ≡ false = ground (arith, e.same_iff j k, e.same_iff k j) in
        rw q (rw (lookup-insert k j v m, other) a, insert-IsUnique k v m u)
  ]

  pub remove-IsUnique : (k : K) (m : List (K × V)) → IsUnique m → IsUnique (remove k m)
  remove-IsUnique k [] u = tt
  remove-IsUnique k ((j, w) ∷ m) (a, u) = elim (Bool-cases (e.same j k)) [
    | inl q ↦ rw q (remove-IsUnique k m u)
    | inr q ↦
        let other : e.same k j ≡ false = ground (arith, e.same_iff j k, e.same_iff k j) in
        rw q (rw (lookup-remove k j m, other) a, remove-IsUnique k m u)
  ]
