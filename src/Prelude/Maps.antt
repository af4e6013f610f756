-- ===== src/Prelude/Maps.antt =====
-- A Go map keyed by uint64: an association list. A nil map reads as the empty one.
use Prim.Native.Nat.{ℕ, ◌+◌, ◌≤◌}
use mathlib.Core.Path.{◌≡◌, refl}
use mathlib.Core.List.{List, [], ◌∷◌}
use mathlib.Core.Option.{Option, none, some}
use native.Mathlib.Omega.{arith}
use webtransport_h2_go.Prelude.Tests.{◌==◌, if◌then◌else◌}

abbrev pub Map {ℓ} : Type ℓ → Type ℓ
Map V = List (ℕ × V)

module _ {ℓ} {V : Type ℓ} where
  -- `v, ok := m[key]`
  unfoldable pub lookup : ℕ → Map V → Option V
  lookup key [] = none
  lookup key ((other, v) ∷ rest) =
      let later = lookup key rest in if other == key then some v else later

  -- `m[key] = v`
  unfoldable pub insert : ℕ → V → Map V → Map V
  insert key v [] = (key, v) ∷ []
  insert key v ((other, old) ∷ rest) =
      let kept = (other, old) ∷ insert key v rest in if other == key then (key, v) ∷ rest else kept

  -- `delete(m, key)`
  unfoldable pub delete : ℕ → Map V → Map V
  delete key [] = []
  delete key ((other, old) ∷ rest) =
      let kept = delete key rest in if other == key then kept else (other, old) ∷ kept

  pub lookup-insert :
      (key asked : ℕ) (v : V) (entries : Map V)
      → lookup asked (insert key v entries)
        ≡ (if key == asked then some v else lookup asked entries)
  unfolding lookup insert
  lookup-insert key asked v [] = refl
  lookup-insert key asked v ((other, old) ∷ rest) = ground (arith, lookup-insert key asked v rest)

  pub lookup-delete :
      (key asked : ℕ) (entries : Map V)
      → lookup asked (delete key entries) ≡ (if key == asked then none else lookup asked entries)
  unfolding lookup delete
  lookup-delete key asked [] = ground arith
  lookup-delete key asked ((other, old) ∷ rest) = ground (arith, lookup-delete key asked rest)

-- `m[k]` of a map to numbers, 0 where there is no entry.
unfoldable pub get : ℕ → Map ℕ → ℕ
get k m = elim (lookup k m) [ none ↦ 0 | some v ↦ v ]

pub get-insert : (k j v : ℕ) (m : Map ℕ) → get j (insert k v m) ≡ (if k == j then v else get j m)
unfolding get
get-insert k j v m = ground (arith, lookup-insert k j v m)

-- The sum of the entries.
unfoldable pub total : Map ℕ → ℕ
total [] = 0
total ((k, v) ∷ m) = v + total m

pub total-insert : (k v : ℕ) (m : Map ℕ) → total (insert k v m) + get k m ≡ total m + v
unfolding total insert get lookup
total-insert k v [] = omega arith
total-insert k v ((j, w) ∷ m) = ground (arith, total-insert k v m)

pub get-le-total : (k : ℕ) (m : Map ℕ) → get k m ≤ total m
unfolding total get lookup
get-le-total k [] = omega arith
get-le-total k ((j, w) ∷ m) = ground (arith, get-le-total k m)
