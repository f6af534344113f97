-- ===== src/Auth/Limiter/Room.antt =====
-- The sources that either map of the limiter knows: those with failures, and those that are only busy.
use Prim.Native.Nat.{ℕ, suc, ◌+◌, ◌≤◌}
use Prim.Native.String.{String}
use mathlib.Core.Path.{◌≡◌, refl}
use mathlib.Core.Bool.{true, false}
use mathlib.Core.List.{[], ◌∷◌}
use mathlib.Core.Option.{none}
use native.Mathlib.Omega.{arith}
use text.Mathlib.TextEquality.{eq_iff}
use j_ui.Base.{if◌then◌else◌, string_equality}
use j_ui.Base.Map.{
  Map, lookup, insert, delete, has, size, Distinct, lookup-insert, lookup-delete, size-insert,
  size-delete-le, size-delete-lt,
}

-- The busy sources without failures.
unfoldable pub fresh {ℓ κ} : {V : Type ℓ} {W : Type κ} → Map String V → Map String W → ℕ
fresh f [] = 0
fresh f ((k, v) ∷ b) = if has k f then fresh f b else suc (fresh f b)

module _ {ℓ} {V : Type ℓ} where
  pub has-insert :
      (k j : String) (v : V) (f : Map String V)
      → has j (insert k v f) ≡ (if string_equality.same k j then true else has j f)
  unfolding has
  has-insert k j v f = ground (arith, lookup-insert k j v f)

  pub has-delete :
      (k j : String) (f : Map String V)
      → has j (delete k f) ≡ (if string_equality.same k j then false else has j f)
  unfolding has
  has-delete k j f = ground (arith, lookup-delete k j f)

module _ {ℓ κ} {V : Type ℓ} {W : Type κ} where
  abbrev pub room : Map String V → Map String W → ℕ
  room f b = size f + fresh f b

  fresh-delete_absent :
      (k : String) (f : Map String V) (b : Map String W)
      → lookup k b ≡ none
      → fresh (delete k f) b ≡ fresh f b
  unfolding fresh lookup
  fresh-delete_absent k f [] h = refl
  fresh-delete_absent k f ((j, w) ∷ b) h =
      ground (arith, eq_iff j k, eq_iff k j, has-delete k j f, fresh-delete_absent k f b)

  fresh-delete_le :
      (k : String) (f : Map String V) (b : Map String W)
      → Distinct b
      → fresh (delete k f) b ≤ suc (fresh f b)
  unfolding fresh
  fresh-delete_le k f [] d = omega arith
  fresh-delete_le k f ((j, w) ∷ b) d =
      ground
        (arith, eq_iff k j, has-delete k j f, fresh-delete_absent k f b, fresh-delete_le k f b d.1)

  fresh-delete_same :
      (k : String) (f : Map String V) (b : Map String W)
      → has k f ≡ false
      → fresh (delete k f) b ≡ fresh f b
  unfolding fresh
  fresh-delete_same k f [] h = refl
  fresh-delete_same k f ((j, w) ∷ b) h =
      ground (arith, eq_iff k j, has-delete k j f, fresh-delete_same k f b h)

  -- To forget a source's failures adds no source.
  pub room-delete :
      (k : String) (f : Map String V) (b : Map String W)
      → Distinct b
      → room (delete k f) b ≤ room f b
  room-delete k f b d = ground (
    arith,
    fresh-delete_le k f b d,
    fresh-delete_same k f b,
    size-delete-lt k f,
    size-delete-le k f,
  )

  fresh-insert_known :
      (k : String) (v : V) (f : Map String V) (b : Map String W)
      → has k f ≡ true
      → fresh (insert k v f) b ≡ fresh f b
  unfolding fresh
  fresh-insert_known k v f [] h = refl
  fresh-insert_known k v f ((j, w) ∷ b) h =
      ground (arith, eq_iff k j, has-insert k j v f, fresh-insert_known k v f b h)

  pub room-insert_known :
      (k : String) (v : V) (f : Map String V) (b : Map String W)
      → has k f ≡ true
      → room (insert k v f) b ≡ room f b
  room-insert_known k v f b h = ground (arith, fresh-insert_known k v f b h, size-insert k v f)

  fresh-insert_le :
      (k : String) (v : V) (f : Map String V) (b : Map String W)
      → fresh (insert k v f) b ≤ fresh f b
  unfolding fresh
  fresh-insert_le k v f [] = omega arith
  fresh-insert_le k v f ((j, w) ∷ b) = ground (arith, has-insert k j v f, fresh-insert_le k v f b)

  -- A busy source that gets its first failure moves from one map to the other.
  fresh-insert_busy :
      (k : String) (v : V) (f : Map String V) (b : Map String W)
      → has k f ≡ false
      → has k b ≡ true
      → suc (fresh (insert k v f) b) ≤ fresh f b
  unfolding fresh has lookup
  fresh-insert_busy k v f [] h g = cc
  fresh-insert_busy k v f ((j, w) ∷ b) h g = ground (
    arith,
    eq_iff j k,
    eq_iff k j,
    lookup-insert k j v f,
    fresh-insert_le k v f b,
    fresh-insert_busy k v f b h,
  )

  pub room-insert_busy :
      (k : String) (v : V) (f : Map String V) (b : Map String W)
      → has k b ≡ true
      → room (insert k v f) b ≤ room f b
  room-insert_busy k v f b h =
      ground (arith, fresh-insert_busy k v f b, fresh-insert_le k v f b, size-insert k v f)

  -- With a source that is only busy, the failure table is short of the room.
  pub size-lt-room :
      (k : String) (f : Map String V) (b : Map String W)
      → has k f ≡ false
      → has k b ≡ true
      → suc (size f) ≤ room f b
  unfolding fresh has lookup
  size-lt-room k f [] h g = cc
  size-lt-room k f ((j, w) ∷ b) h g = ground (arith, eq_iff j k, size-lt-room k f b h)

  pub fresh-insert_right :
      (k : String) (w : W) (f : Map String V) (b : Map String W)
      → fresh f (insert k w b)
        ≡ (if has k b then fresh f b else if has k f then fresh f b else suc (fresh f b))
  unfolding fresh has lookup insert
  fresh-insert_right k w f [] = refl
  fresh-insert_right k w f ((j, u) ∷ b) = ground (arith, eq_iff j k, fresh-insert_right k w f b)

  pub fresh-delete_right :
      (k : String) (f : Map String V) (b : Map String W) → fresh f (delete k b) ≤ fresh f b
  unfolding fresh delete
  fresh-delete_right k f [] = omega arith
  fresh-delete_right k f ((j, u) ∷ b) = ground (arith, fresh-delete_right k f b)

  pub fresh_le_size : (f : Map String V) (b : Map String W) → fresh f b ≤ size b
  unfolding fresh
  fresh_le_size f [] = omega arith
  fresh_le_size f ((j, u) ∷ b) = ground (arith, fresh_le_size f b)
