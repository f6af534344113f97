-- ===== src/Store/Nodes/Sorted.antt =====
-- Rows in the order of their keys: what is taken out and put back is in its place again.
use Prim.Native.Nat.{ℕ, ◌<◌}
use mathlib.Core.Path.{◌≡◌, refl, ◌∙◌, ap}
use mathlib.Core.Logic.{inl, inr}
use mathlib.Core.Bool.{Bool, not, ◌||◌}
use mathlib.Core.List.{List, [], ◌∷◌}
use mathlib.Core.Option.{none, some}
use native.Mathlib.Omega.{arith}
use j_ui.Base.{◌==◌, nat_equality, nat_same_iff, ltb, All, find, keep, Bool-cases}
use j_ui.Base.Map.{is_some}
use j_ui.Store.Nodes.{insert_at, insert_rows, shares_key}

module _ {A : Type 0} (key : A → ℕ) where
  abbrev pub IsBelow : ℕ → A → Type 0
  IsBelow k x = k < key x

  -- The keys grow.
  abbrev pub IsSorted : List A → Type 0
  IsSorted [] = Unit
  IsSorted (x ∷ xs) = All (IsBelow (key x)) xs × IsSorted xs

  pub keep-IsBelow :
      (p : A → Bool) (k : ℕ) (xs : List A) → All (IsBelow k) xs → All (IsBelow k) (keep p xs)
  keep-IsBelow p k [] a = tt
  keep-IsBelow p k (x ∷ xs) a = ground (arith, a.0, keep-IsBelow p k xs a.1)

  insert_at-least : (x : A) (xs : List A) → All (IsBelow (key x)) xs → insert_at key x xs ≡ x ∷ xs
  unfolding insert_at
  insert_at-least x [] a = refl
  insert_at-least x (y ∷ xs) a = ground (arith, a.0)

  find-least : (x : A) (xs : List A) → All (IsBelow (key x)) xs → find (shares_key key x) xs ≡ none
  find-least x [] a = refl
  find-least x (y ∷ xs) a = ground (arith, a.0, nat_same_iff (key x) (key y), find-least x xs a.1)

  insert_rows-cons :
      (x : A) (new xs rows : List A)
      → All (IsBelow (key x)) new
      → insert_rows key new xs ≡ some rows
      → insert_rows key new (x ∷ xs) ≡ some (x ∷ rows)
  unfolding insert_rows insert_at
  insert_rows-cons x [] xs rows a e = ground (arith, e)
  insert_rows-cons x (n ∷ new) xs rows a e =
      elim (Bool-cases (is_some (find (shares_key key n) xs))) [
        | inl there ↦ absurd (ground (arith, rw there at e))
        | inr fresh ↦ elim (Bool-cases (ltb (key n) (key x) || key n == key x)) [
          | inl below ↦ absurd (ground (arith, below, a.0, nat_same_iff (key n) (key x)))
          | inr above ↦
              let later = insert_rows-cons x new (insert_at key n xs) rows a.1 (rw fresh at e) in
              ground (arith, above, fresh, later)
        ]
      ]

  -- What a test takes out of a table goes back to its places.
  pub insert_rows-keep :
      (p : A → Bool) (xs : List A)
      → IsSorted xs
      → insert_rows key (keep p xs) (keep (λ x. not (p x)) xs) ≡ some xs
  unfolding insert_rows
  insert_rows-keep p [] s = refl
  insert_rows-keep p (x ∷ xs) s =
      let rest =
        insert_rows-cons x (keep p xs) (keep (λ y. not (p y)) xs) xs (keep-IsBelow p (key x) xs s.0)
          (insert_rows-keep p xs s.1) in
      let others = keep-IsBelow (λ y. not (p y)) (key x) xs s.0 in
      elim (Bool-cases (p x)) [
        | inl out ↦
            rw (out, find-least x (keep (λ y. not (p y)) xs) others)
              (ap (insert_rows key (keep p xs))
                  (insert_at-least x (keep (λ y. not (p y)) xs) others)
                ∙ rest)
        | inr stays ↦ rw stays rest
      ]

  keep-none : (id : ℕ) (xs : List A) → All (IsBelow id) xs → keep (λ x. key x == id) xs ≡ []
  keep-none id [] a = refl
  keep-none id (x ∷ xs) a = ground (arith, a.0, keep-none id xs a.1, nat_same_iff (key x) id)

  -- One row has the key that is found.
  pub keep-find :
      (id : ℕ) (xs : List A) (found : A)
      → IsSorted xs
      → find (λ x. key x == id) xs ≡ some found
      → keep (λ x. key x == id) xs ≡ found ∷ []
  keep-find id [] found s e = cc e
  keep-find id (x ∷ xs) found s e = elim (Bool-cases (key x == id)) [
    | inl same ↦
        let k : key x ≡ id = (nat_same_iff (key x) id).0 same in
        let here : x ≡ found = ground (arith, rw same at e) in
        rw same (ap (λ l. x ∷ l) (keep-none id xs (rw k at s.0)) ∙ ap (λ y. y ∷ []) here)
    | inr other ↦ rw other (keep-find id xs found s.1 (rw other at e))
  ]
