-- ===== src/Common/Maps.antt =====
-- Hash maps keyed by numbers, as association lists: `find`, `map[k] = v` and `erase`.
use Prim.Native.Nat.{ℕ}
use mathlib.Core.Path.{◌≡◌, refl}
use mathlib.Core.List.{List, [], ◌∷◌}
use mathlib.Core.Option.{Option, none, some}
use native.Mathlib.Omega.{arith}
use eu_nex.Common.Tests.{◌==◌, if◌then◌else◌}

module _ {ℓ} {V : Type ℓ} where
  abbrev pub lookup : ℕ → List (ℕ × V) → Option V
  lookup k [] = none
  lookup k ((j, v) ∷ m) = if j == k then some v else lookup k m

  abbrev pub insert : ℕ → V → List (ℕ × V) → List (ℕ × V)
  insert k v [] = (k, v) ∷ []
  insert k v (e ∷ m) = if e.0 == k then (k, v) ∷ m else e ∷ insert k v m

  abbrev pub erase : ℕ → List (ℕ × V) → List (ℕ × V)
  erase k [] = []
  erase k (e ∷ m) = if e.0 == k then m else e ∷ erase k m

  -- `map[k]`, where a missing key gets a fresh value.
  abbrev pub get_or : Option V → V → V
  get_or none v = v
  get_or (some w) v = w

  pub lookup-insert :
      (k j : ℕ) (v : V) (m : List (ℕ × V))
      → lookup k (insert j v m) ≡ (if j == k then some v else lookup k m)
  lookup-insert k j v [] = refl
  lookup-insert k j v (e ∷ m) = ground (arith, lookup-insert k j v m)

  -- `erase(it)` by the key of the entry, which no other entry has.
  abbrev pub remove : ℕ → List (ℕ × V) → List (ℕ × V)
  remove k [] = []
  remove k (e ∷ m) = if e.0 == k then remove k m else e ∷ remove k m

  pub lookup-remove :
      (k j : ℕ) (m : List (ℕ × V)) → lookup k (remove j m) ≡ (if j == k then none else lookup k m)
  lookup-remove k j [] = ground arith
  lookup-remove k j (e ∷ m) = ground (arith, lookup-remove k j m)
