-- ===== src/Base/Map.antt =====
-- A Go map as an association list: a write replaces the entry of its key or adds one at the end, and
-- `delete` removes the key. `size` is Go's `len`.
use j_ui.Base.Tests.{Equality, ◌==◌, if◌then◌else◌}
use j_ui.Base.Lists.{length}
use Prim.Native.Nat.{ℕ, suc, ◌≤◌}
use mathlib.Core.Path.{◌≡◌, refl}
use mathlib.Core.Bool.{Bool, true, false}
use mathlib.Core.List.{List, [], ◌∷◌}
use mathlib.Core.Option.{Option, none, some}
use native.Mathlib.Omega.{arith}

abbrev pub Map {ℓ κ} : Type ℓ → Type κ → Type (ℓ ⊔ κ)
Map K V = List (K × V)

module _ {ℓ κ} {K : Type ℓ} {V : Type κ} where
  abbrev pub size : Map K V → ℕ
  size m = length m

  abbrev pub keys : Map K V → List K
  keys [] = []
  keys ((k, v) ∷ m) = k ∷ keys m

abbrev pub is_some {κ} : {V : Type κ} → Option V → Bool
is_some none = false
is_some (some v) = true

abbrev pub get_or {κ} : {V : Type κ} → Option V → V → V
get_or none d = d
get_or (some v) d = v

module _ {ℓ κ} {K : Type ℓ} {V : Type κ} ⦃e : Equality K⦄ where
  unfoldable pub lookup : K → Map K V → Option V
  lookup key [] = none
  lookup key ((other, v) ∷ rest) = if other == key then some v else lookup key rest

  unfoldable pub insert : K → V → Map K V → Map K V
  insert key v [] = (key, v) ∷ []
  insert key v ((other, w) ∷ rest) =
      if other == key then (other, v) ∷ rest else (other, w) ∷ insert key v rest

  unfoldable pub delete : K → Map K V → Map K V
  delete key [] = []
  delete key ((other, w) ∷ rest) =
      if other == key then delete key rest else (other, w) ∷ delete key rest

  -- The comma-ok form `_, ok := rest[key]`.
  unfoldable pub has : K → Map K V → Bool
  has key rest = is_some (lookup key rest)

  pub lookup-insert :
      (key other : K) (v : V) (rest : Map K V)
      → lookup other (insert key v rest) ≡ (if key == other then some v else lookup other rest)
  unfolding lookup insert
  lookup-insert key other v [] = refl
  lookup-insert key other v ((first, w) ∷ rest) = ground (
    arith,
    e.same_iff key other,
    e.same_iff first key,
    e.same_iff first other,
    lookup-insert key other v rest,
  )

  pub lookup-delete :
      (key other : K) (rest : Map K V)
      → lookup other (delete key rest) ≡ (if key == other then none else lookup other rest)
  unfolding lookup delete
  lookup-delete key other [] = ground arith
  lookup-delete key other ((first, w) ∷ rest) = ground (
    arith,
    e.same_iff key other,
    e.same_iff first key,
    e.same_iff first other,
    lookup-delete key other rest,
  )

  pub size-insert :
      (key : K) (v : V) (rest : Map K V)
      → size (insert key v rest) ≡ (if has key rest then size rest else suc (size rest))
  unfolding lookup insert has
  size-insert key v [] = refl
  size-insert key v ((first, w) ∷ rest) = ground (arith, size-insert key v rest)

  pub size-delete-le : (key : K) (rest : Map K V) → size (delete key rest) ≤ size rest
  unfolding delete
  size-delete-le key [] = omega arith
  size-delete-le key ((first, w) ∷ rest) = ground (arith, size-delete-le key rest)

  pub size-delete-lt :
      (key : K) (rest : Map K V) → has key rest ≡ true → suc (size (delete key rest)) ≤ size rest
  unfolding delete lookup has
  size-delete-lt key [] h = cc
  size-delete-lt key ((first, w) ∷ rest) h =
      ground (arith, size-delete-lt key rest, size-delete-le key rest)

  -- No key has two entries.
  abbrev pub Distinct : Map K V → Type κ
  Distinct [] = Unit
  Distinct ((key, v) ∷ rest) = (lookup key rest ≡ none) × Distinct rest

  pub insert-Distinct :
      (key : K) (v : V) (rest : Map K V) → Distinct rest → Distinct (insert key v rest)
  unfolding lookup insert
  insert-Distinct key v [] d = (refl, tt)
  insert-Distinct key v ((first, w) ∷ rest) d = ground (
    arith,
    e.same_iff first key,
    e.same_iff key first,
    lookup-insert key first v rest,
    insert-Distinct key v rest,
  )

  pub delete-Distinct : (key : K) (rest : Map K V) → Distinct rest → Distinct (delete key rest)
  unfolding lookup delete
  delete-Distinct key [] d = tt
  delete-Distinct key ((first, w) ∷ rest) d =
      ground (arith, lookup-delete key first rest, delete-Distinct key rest d.1)
