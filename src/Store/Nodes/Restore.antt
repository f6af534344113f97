-- ===== src/Store/Nodes/Restore.antt =====
-- `RestoreNode` after `DeleteNode`.
use Prim.Native.Nat.{ℕ}
use mathlib.Core.Path.{◌≡◌, refl, ◌∙◌, sym, ap, subst}
use mathlib.Core.Logic.{inl, inr}
use mathlib.Core.Bool.{Bool, true, false, not}
use mathlib.Core.List.{List, [], ◌∷◌}
use mathlib.Core.Option.{some}
use native.Mathlib.Omega.{arith}
use j_ui.Base.{nat_equality, nat_same_iff, All, find, find_kept, keep, Bool-cases}
use j_ui.Base.Map.{is_some}
use j_ui.Model.{Node, Client}
use j_ui.Store.Nodes.{
  Tables, written, has_node_id, has_owner, find_node, clients_of, is_taken, refers, node_key,
  client_key, insert_at, insert_rows, owned_by, delete_node, restore_node,
}
use j_ui.Store.Nodes.Sorted.{IsSorted, insert_rows-keep, keep-find}

-- What the constraints of the schema keep true: the rows stand in the order of their ids, no two nodes
-- listen on the same port of the same address, each names an outbound that there is, and each client
-- belongs to a node that there is.
pub record IsSound (t : Tables) : Type 0 where
  pub nodes : IsSorted node_key t.nodes
  pub clients : IsSorted client_key t.clients
  pub free : All (λ n. is_taken n t.nodes ≡ false) t.nodes
  pub linked : All (λ n. refers n.outbound_id t.outbounds ≡ true) t.nodes
  pub owned : All (λ c. is_some (find (has_node_id c.node_id) t.nodes) ≡ true) t.clients

pub All-find :
    {A : Type 0} (P : A → Type 0) (p : A → Bool) (xs : List A) (x : A)
    → All P xs
    → find p xs ≡ some x
    → P x
All-find P p [] x a e = cc e
All-find P p (y ∷ xs) x a e = elim (Bool-cases (p y)) [
  | inl hit ↦ let same : y ≡ x = ground (arith, rw hit at e) in subst P same a.0
  | inr miss ↦ All-find P p xs x a.1 (rw miss at e)
]

pub find-passes :
    {A : Type 0} (p : A → Bool) (xs : List A) (x : A) → find p xs ≡ some x → p x ≡ true
find-passes p [] x e = cc e
find-passes p (y ∷ xs) x e = elim (Bool-cases (p y)) [
  | inl hit ↦ let same : y ≡ x = ground (arith, rw hit at e) in ap p (sym same) ∙ hit
  | inr miss ↦ find-passes p xs x (rw miss at e)
]

-- The clients of a node belong to it already.
owned_by-clients :
    (id : ℕ) (clients : List Client)
    → owned_by id (keep (has_owner id) clients) ≡ keep (has_owner id) clients
owned_by-clients id [] = refl
owned_by-clients id (c ∷ clients) = elim (Bool-cases (has_owner id c)) [
  | inl ours ↦
      let same : c.node_id ≡ id = (nat_same_iff c.node_id id).0 ours in
      rw ours (
        ap (λ (k : ℕ). record c { node_id = k } ∷ owned_by id (keep (has_owner id) clients))
          (sym same)
        ∙ ap (λ l. c ∷ l) (owned_by-clients id clients))
  | inr other ↦ rw other (owned_by-clients id clients)
]

pub is_taken-keep :
    (n : Node) (q : Node → Bool) (nodes : List Node)
    → is_taken n nodes ≡ false
    → is_taken n (keep q nodes) ≡ false
unfolding is_taken
is_taken-keep n q [] e = refl
is_taken-keep n q (m ∷ nodes) e = ground (arith, is_taken-keep n q nodes)

abbrev pub without : ℕ → Tables → Tables
without id t = record t {
  nodes = keep (λ n. not (has_node_id id n)) t.nodes;
  clients = keep (λ c. not (has_owner id c)) t.clients;
}

insert_at-back :
    (id : ℕ) (nodes : List Node) (n : Node)
    → IsSorted node_key nodes
    → find (has_node_id id) nodes ≡ some n
    → insert_at node_key n (keep (λ m. not (has_node_id id m)) nodes) ≡ nodes
unfolding insert_rows
insert_at-back id nodes n s e =
    let back = insert_rows-keep node_key (has_node_id id) nodes s in
    let one = keep-find node_key id nodes n s e in ground (arith, rw one at back)

-- In sound tables, a node that is deleted and then restored with the clients that it had is accepted,
-- and the tables are what they were.
pub restore_node-delete :
    (id : ℕ) (t : Tables) (n : Node)
    → IsSound t
    → find_node id t ≡ some n
    → (delete_node id t ≡ written (without id t))
      × (restore_node n (clients_of id t) (without id t) ≡ written t)
unfolding delete_node find_node clients_of restore_node is_taken
restore_node-delete id t n s e =
    let same : n.id ≡ id = (nat_same_iff n.id id).0 (find-passes (has_node_id id) t.nodes n e) in
    let others = keep (λ m. not (has_node_id id m)) t.nodes in
    let gone = ap (λ k. find (has_node_id k) others) same ∙ find_kept (has_node_id id) t.nodes in
    let free =
      is_taken-keep n (λ m. not (has_node_id id m)) t.nodes
        (All-find (λ m. is_taken m t.nodes ≡ false) (has_node_id id) t.nodes n s.free e) in
    let linked =
      All-find (λ m. refers m.outbound_id t.outbounds ≡ true) (has_node_id id) t.nodes n s.linked
        e in
    let clients =
      ap (λ k. owned_by k (keep (has_owner id) t.clients)) same ∙ owned_by-clients id t.clients in
    let rows = insert_rows-keep client_key (has_owner id) t.clients s.clients in
    let nodes = insert_at-back id t.nodes n s.nodes e in
    (rw e refl, rw (gone, free, linked, clients, rows, nodes) refl)
