-- ===== src/Store/Nodes/Grown.antt =====
-- The statements that add rows, or change one, keep the tables sound.
use Prim.Native.Nat.{ℕ, ◌<◌}
use mathlib.Core.Path.{◌≡◌, refl, ◌∙◌, subst}
use mathlib.Core.Logic.{inl, inr}
use mathlib.Core.Bool.{Bool, true, false}
use mathlib.Core.List.{List, [], ◌∷◌}
use mathlib.Core.Option.{none, some}
use native.Mathlib.Omega.{arith}
use j_ui.Base.{
  ltb, nat_equality, nat_same_iff, All, All-weaken, All-both, find, Bool-cases, Option-cases,
}
use j_ui.Base.Map.{is_some}
use j_ui.Base.Text.{text_equality, text_same_iff}
use j_ui.Model.{Node}
use j_ui.Store.Nodes.{collides, is_taken, node_key, shares_key, insert_at, insert_rows}
use j_ui.Store.Nodes.Sorted.{IsBelow, IsSorted}

module _ {A : Type 0} (key : A → ℕ) where
  pub insert_at-All :
      (P : A → Type 0) (new : A) (xs : List A) → P new → All P xs → All P (insert_at key new xs)
  unfolding insert_at
  insert_at-All P new [] h a = (h, tt)
  insert_at-All P new (x ∷ xs) h a = elim (Bool-cases (ltb (key new) (key x))) [
    | inl below ↦ rw (below, insert_at) (h, a)
    | inr above ↦ rw (above, insert_at) (a.0, insert_at-All P new xs h a.1)
  ]

  pub insert_at-IsSorted :
      (new : A) (xs : List A)
      → find (shares_key key new) xs ≡ none
      → IsSorted key xs
      → IsSorted key (insert_at key new xs)
  unfolding insert_at
  insert_at-IsSorted new [] f s = (tt, tt)
  insert_at-IsSorted new (x ∷ xs) f s = elim (Bool-cases (ltb (key new) (key x))) [
    | inl below ↦
        let under : key new < key x = ground (arith, below) in
        rw (below, insert_at)
          (
            (
              under,
              All-weaken (IsBelow key (key x)) (IsBelow key (key new)) xs
                  (λ y h. omega (arith, h, under)) s.0,
            ),
            s,
          )
    | inr above ↦
        let over : key x < key new = ground (arith, above, f, nat_same_iff (key new) (key x)) in
        let rest : find (shares_key key new) xs ≡ none = ground (arith, f) in
        rw (above, insert_at)
          (insert_at-All (IsBelow key (key x)) new xs over s.0, insert_at-IsSorted new xs rest s.1)
  ]

  pub insert_rows-IsSorted :
      (new xs ys : List A) → insert_rows key new xs ≡ some ys → IsSorted key xs → IsSorted key ys
  unfolding insert_rows
  insert_rows-IsSorted [] xs ys e s =
      let same : xs ≡ ys = ground (arith, e) in subst (IsSorted key) same s
  insert_rows-IsSorted (n ∷ new) xs ys e s = elim (Option-cases (find (shares_key key n) xs)) [
    | inl fresh ↦
        insert_rows-IsSorted new (insert_at key n xs) ys (rw (fresh, insert_rows) at e)
          (insert_at-IsSorted n xs fresh s)
    | inr (old, there) ↦ absurd (ground (arith, rw (there, insert_rows) at e))
  ]

  pub insert_rows-All :
      (P : A → Type 0) (new xs ys : List A)
      → insert_rows key new xs ≡ some ys
      → All P new
      → All P xs
      → All P ys
  unfolding insert_rows
  insert_rows-All P [] xs ys e h a = let same : xs ≡ ys = ground (arith, e) in subst (All P) same a
  insert_rows-All P (n ∷ new) xs ys e h a = elim (Option-cases (find (shares_key key n) xs)) [
    | inl fresh ↦
        insert_rows-All P new (insert_at key n xs) ys (rw (fresh, insert_rows) at e) h.1
          (insert_at-All P n xs h.0 a)
    | inr (old, there) ↦ absurd (ground (arith, rw (there, insert_rows) at e))
  ]

  pub find-above :
      (k : ℕ) (new : A) (xs : List A)
      → key new ≡ k
      → All (λ x. key x < k) xs
      → find (shares_key key new) xs ≡ none
  find-above k new [] e a = refl
  find-above k new (x ∷ xs) e a =
      ground (arith, e, a.0, find-above k new xs e a.1, nat_same_iff (key new) (key x))

  pub insert_at-finds-others :
      (p : A → Bool) (new : A) (xs : List A)
      → is_some (find p xs) ≡ true
      → is_some (find p (insert_at key new xs)) ≡ true
  unfolding insert_at
  insert_at-finds-others p new [] e = cc e
  insert_at-finds-others p new (x ∷ xs) e = ground (arith, e, insert_at-finds-others p new xs)

pub collides_sym : (a b : Node) → collides a b ≡ collides b a
collides_sym a b = ground (
  arith,
  nat_same_iff a.id b.id,
  nat_same_iff b.id a.id,
  nat_same_iff a.port b.port,
  nat_same_iff b.port a.port,
  text_same_iff a.listen b.listen,
  text_same_iff b.listen a.listen,
)

pub is_taken-All :
    (n : Node) (nodes : List Node)
    → is_taken n nodes ≡ false
    → All (λ m. collides n m ≡ false) nodes
unfolding is_taken
is_taken-All n [] e = tt
is_taken-All n (m ∷ nodes) e = elim (Bool-cases (collides n m)) [
  | inl hit ↦ absurd (ground (arith, rw hit at e))
  | inr free ↦ (free, is_taken-All n nodes (rw free at e))
]

is_taken-insert :
    (n new : Node) (nodes : List Node)
    → is_taken n nodes ≡ false
    → collides n new ≡ false
    → is_taken n (insert_at node_key new nodes) ≡ false
unfolding is_taken insert_at
is_taken-insert n new [] e c = ground (arith, c)
is_taken-insert n new (m ∷ nodes) e c = ground (arith, e, c, is_taken-insert n new nodes)

-- A node more that is not in the way.
pub insert_node-free :
    (new : Node) (nodes : List Node)
    → is_taken new nodes ≡ false
    → All (λ n. is_taken n nodes ≡ false) nodes
    → (let rows = insert_at node_key new nodes in All (λ n. is_taken n rows ≡ false) rows)
insert_node-free new nodes e a =
    let rows = insert_at node_key new nodes in
    let own : collides new new ≡ false = ground (arith, nat_same_iff new.id new.id) in
    insert_at-All node_key (λ n. is_taken n rows ≡ false) new nodes
      (is_taken-insert new new nodes e own)
      (All-weaken (λ n. (is_taken n nodes ≡ false) × (collides new n ≡ false)) _ nodes
        (λ n h. is_taken-insert n new nodes h.0 (collides_sym n new ∙ h.1))
        (All-both _ _ nodes a (is_taken-All new nodes e)))
