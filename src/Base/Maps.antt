-- ===== src/Base/Maps.antt =====
-- Go's `map[string]V` as an association list. The order of the list is the order in which a
-- `range` loop visits the keys; theorems hold for every list, so for every order.
use Prim.Native.Nat.{ℕ, suc, ◌+◌, ◌≤◌}
use Prim.Native.String.{String}
use mathlib.Core.Path.{◌≡◌, refl, sym, ap, ◌∙◌}
use mathlib.Core.Bool.{false}
use mathlib.Core.Logic.{◌≢◌, inl, inr}
use mathlib.Core.Option.{Option, none, some}
use mathlib.Core.List.{List, [], ◌∷◌}
use native.Mathlib.Omega.{arith}
use text.Mathlib.Text.{◌==◌}
use text.Mathlib.TextEquality.{eq_iff}
use text.Mathlib.TextPositions.{eq_refl}
use agent_runtime_client.Base.Tests.{if◌then◌else◌, Bool-cases}
use agent_runtime_client.Base.Lists.{length}

-- Two texts that differ do not compare equal.
pub differs : (s t : String) → s ≢ t → (s == t) ≡ false
differs s t h = ground (arith, eq_iff s t)

abbrev pub Map {ℓ} : Type ℓ → Type ℓ
Map V = List (String × V)

module _ {ℓ} {V : Type ℓ} where
  unfoldable pub lookup : String → Map V → Option V
  lookup key [] = none
  lookup key ((k, v) ∷ rest) = if k == key then some v else lookup key rest

  -- `m[key] = value`
  unfoldable pub put : String → V → Map V → Map V
  put key value [] = (key, value) ∷ []
  put key value ((k, v) ∷ rest) =
      if k == key then (k, value) ∷ rest else (k, v) ∷ put key value rest

  -- `delete(m, key)`
  unfoldable pub delete : String → Map V → Map V
  delete key [] = []
  delete key ((k, v) ∷ rest) = if k == key then delete key rest else (k, v) ∷ delete key rest

  pub lookup-put :
      (key j : String) (value : V) (m : Map V)
      → lookup j (put key value m) ≡ (if key == j then some value else lookup j m)
  unfolding lookup put
  lookup-put key j value [] = refl
  lookup-put key j value ((k, v) ∷ rest) =
      ground (arith, eq_iff k key, eq_iff key j, eq_iff k j, lookup-put key j value rest)

  pub lookup-delete :
      (key j : String) (m : Map V)
      → lookup j (delete key m) ≡ (if key == j then none else lookup j m)
  unfolding lookup delete
  lookup-delete key j [] = ground arith
  lookup-delete key j ((k, v) ∷ rest) =
      ground (arith, eq_iff k key, eq_iff key j, eq_iff k j, lookup-delete key j rest)

  -- A write adds one key at most.
  pub length-put : (key : String) (value : V) (m : Map V) → length (put key value m) ≤ length m + 1
  unfolding put
  length-put key value [] = omega arith
  length-put key value ((k, v) ∷ rest) = ground (arith, length-put key value rest)

  -- A write adds one key where there is none yet.
  abbrev pub grown : Option V → ℕ → ℕ
  grown none n = suc n
  grown (some v) n = n

  pub grown-suc : (found : Option V) (n : ℕ) → grown found (suc n) ≡ suc (grown found n)
  grown-suc none n = refl
  grown-suc (some v) n = refl

  pub length-put-grown :
      (key : String) (value : V) (m : Map V)
      → length (put key value m) ≡ grown (lookup key m) (length m)
  unfolding put lookup
  length-put-grown key value [] = refl
  length-put-grown key value ((k, v) ∷ rest) = elim (Bool-cases (k == key)) [
    | inl e ↦ rw e refl
    | inr e ↦
        rw e (
          ap suc (length-put-grown key value rest)
          ∙ sym (grown-suc (lookup key rest) (length rest)))
  ]

  pub lookup-put_self :
      (key : String) (value : V) (m : Map V) → lookup key (put key value m) ≡ some value
  lookup-put_self key value m = rw (lookup-put key key value m, eq_refl key)

  pub lookup-delete_self : (key : String) (m : Map V) → lookup key (delete key m) ≡ none
  lookup-delete_self key m = rw (lookup-delete key key m, eq_refl key)
