-- ===== src/Base/Dict.antt =====
-- A hash map from numbers, as an association list that holds each key once.
use Prim.Native.Nat.{ℕ}
use mathlib.Core.Path.{◌≡◌, refl}
use mathlib.Core.List.{List, [], ◌∷◌}
use mathlib.Core.Option.{Option, none, some}
use native.Mathlib.Omega.{arith}
use passkey.Base.Tests.{◌==◌, if◌then◌else◌}

module _ {ℓ} {V : Type ℓ} where
  unfoldable pub lookup : ℕ → List (ℕ × V) → Option V
  lookup k [] = none
  lookup k ((j, v) ∷ m) = if j == k then some v else lookup k m

  unfoldable pub erase : ℕ → List (ℕ × V) → List (ℕ × V)
  erase k [] = []
  erase k ((j, v) ∷ m) = if j == k then erase k m else (j, v) ∷ erase k m

  unfoldable pub insert : ℕ → V → List (ℕ × V) → List (ℕ × V)
  unfolding erase
  insert k v m = (k, v) ∷ erase k m

  pub erase-erase : (k : ℕ) (m : List (ℕ × V)) → erase k (erase k m) ≡ erase k m
  unfolding erase
  erase-erase k [] = refl
  erase-erase k ((j, v) ∷ m) = ground (arith, erase-erase k m)

  lookup-erase :
      (k j : ℕ) (m : List (ℕ × V)) → lookup j (erase k m) ≡ (if k == j then none else lookup j m)
  unfolding lookup erase
  lookup-erase k j [] = ground arith
  lookup-erase k j ((i, v) ∷ m) = ground (arith, lookup-erase k j m)

  pub lookup-insert :
      (k j : ℕ) (v : V) (m : List (ℕ × V))
      → lookup j (insert k v m) ≡ (if k == j then some v else lookup j m)
  unfolding lookup insert
  lookup-insert k j v m = ground (arith, lookup-erase k j m)

  pub erase-insert : (k : ℕ) (v : V) (m : List (ℕ × V)) → erase k (insert k v m) ≡ erase k m
  unfolding insert
  erase-insert k v m = ground (arith, erase-erase k m)

  pub insert-insert :
      (k : ℕ) (v w : V) (m : List (ℕ × V)) → insert k v (insert k w m) ≡ insert k v m
  unfolding insert
  insert-insert k v w m = ground (arith, erase-erase k m)
