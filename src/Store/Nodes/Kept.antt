-- ===== src/Store/Nodes/Kept.antt =====
-- The statements on nodes keep the tables sound.
use Prim.Native.Nat.{ℕ}
use mathlib.Core.Path.{◌≡◌, subst}
use mathlib.Core.Logic.{inl, inr}
use mathlib.Core.Bool.{Bool, true, false, not}
use mathlib.Core.List.{List, [], ◌∷◌}
use native.Mathlib.Omega.{arith}
use j_ui.Base.{◌==◌, nat_equality, nat_same_iff, All, All-weaken, find, keep, Bool-cases}
use j_ui.Base.Map.{is_some}
use j_ui.Base.Text.{text_equality}
use j_ui.Model.{Node, Client}
use j_ui.Store.Nodes.{
  Tables, written, has_node_id, has_owner, find_node, is_taken, node_key, client_key, delete_node,
}
use j_ui.Store.Nodes.Sorted.{IsSorted, keep-IsBelow}
use j_ui.Store.Nodes.Restore.{IsSound, without, is_taken-keep}

keep-All : {A : Type 0} (P : A → Type 0) (q : A → Bool) (xs : List A) → All P xs → All P (keep q xs)
keep-All P q [] a = tt
keep-All P q (x ∷ xs) a = elim (Bool-cases (q x)) [
  | inl stays ↦ rw stays (a.0, keep-All P q xs a.1)
  | inr goes ↦ rw goes (keep-All P q xs a.1)
]

keep-IsSorted :
    {A : Type 0} (key : A → ℕ) (q : A → Bool) (xs : List A)
    → IsSorted key xs
    → IsSorted key (keep q xs)
keep-IsSorted key q [] s = tt
keep-IsSorted key q (x ∷ xs) s = elim (Bool-cases (q x)) [
  | inl stays ↦ rw stays (keep-IsBelow key q (key x) xs s.0, keep-IsSorted key q xs s.1)
  | inr goes ↦ rw goes (keep-IsSorted key q xs s.1)
]

-- Another node is still found.
find-others :
    (id other : ℕ) (nodes : List Node)
    → (other == id) ≡ false
    → is_some (find (has_node_id other) nodes) ≡ true
    → is_some (find (has_node_id other) (keep (λ n. not (has_node_id id n)) nodes)) ≡ true
find-others id other [] d e = cc e
find-others id other (n ∷ nodes) d e = ground (
  arith,
  d,
  e,
  find-others id other nodes d,
  nat_same_iff n.id id,
  nat_same_iff n.id other,
  nat_same_iff other id,
)

owned-keep :
    (id : ℕ) (nodes : List Node) (clients : List Client)
    → All (λ c. is_some (find (has_node_id c.node_id) nodes) ≡ true) clients
    → All
        (λ c.
          is_some (find (has_node_id c.node_id) (keep (λ n. not (has_node_id id n)) nodes)) ≡ true)
        (keep (λ c. not (has_owner id c)) clients)
owned-keep id nodes [] a = tt
owned-keep id nodes (c ∷ clients) a = elim (Bool-cases (has_owner id c)) [
  | inl goes ↦ rw goes (owned-keep id nodes clients a.1)
  | inr stays ↦ rw stays (find-others id c.node_id nodes stays a.0, owned-keep id nodes clients a.1)
]

without-IsSound : (id : ℕ) (t : Tables) → IsSound t → IsSound (without id t)
without-IsSound id t s = record {
  nodes = keep-IsSorted node_key (λ n. not (has_node_id id n)) t.nodes s.nodes;
  clients = keep-IsSorted client_key (λ c. not (has_owner id c)) t.clients s.clients;
  free =
      keep-All _ (λ n. not (has_node_id id n)) t.nodes
        (All-weaken (λ n. is_taken n t.nodes ≡ false) _ t.nodes
          (λ n h. is_taken-keep n (λ m. not (has_node_id id m)) t.nodes h) s.free);
  linked = keep-All _ (λ n. not (has_node_id id n)) t.nodes s.linked;
  owned = owned-keep id t.nodes t.clients s.owned;
}

-- `DeleteNode` keeps the tables sound.
pub delete_node-IsSound :
    (id : ℕ) (t u : Tables) → IsSound t → delete_node id t ≡ written u → IsSound u
unfolding delete_node
delete_node-IsSound id t u s e = elim (Bool-cases (not (is_some (find_node id t)))) [
  | inl missing ↦ absurd (ground (arith, rw missing at e))
  | inr there ↦
      let made : without id t ≡ u = ground (arith, rw there at e) in
      subst IsSound made (without-IsSound id t s)
]
