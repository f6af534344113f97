-- ===== src/Store/Nodes/Back.antt =====
-- `UpdateNode` and `CreateNode`, taken back.
use Prim.Native.Nat.{ℕ, ◌<◌}
use mathlib.Core.Path.{◌≡◌, refl, ◌∙◌, sym, ap, subst}
use mathlib.Core.Logic.{inl, inr}
use mathlib.Core.Bool.{Bool, true, false, not}
use mathlib.Core.List.{List, [], ◌∷◌}
use mathlib.Core.Option.{some}
use native.Mathlib.Omega.{arith}
use j_ui.Base.{◌==◌, ltb, nat_equality, nat_same_iff, All, All-weaken, find, keep, Bool-cases}
use j_ui.Base.Map.{is_some}
use j_ui.Base.Text.{text_equality}
use j_ui.Model.{Node, Client}
use j_ui.Store.Nodes.{
  Tables, written, has_node_id, has_owner, find_node, is_taken, refers, node_key, client_key,
  insert_at, next_id, set_columns, update_row, create_node, update_node, delete_node,
}
use j_ui.Store.Nodes.Sorted.{IsBelow, IsSorted}
use j_ui.Store.Nodes.Restore.{IsSound, All-find}

pub update_row-find :
    (id : ℕ) (c : Node) (nodes : List Node)
    → is_some (find (has_node_id id) (update_row c nodes)) ≡ is_some (find (has_node_id id) nodes)
unfolding update_row
update_row-find id c [] = refl
update_row-find id c (n ∷ nodes) = ground (arith, update_row-find id c nodes)

pub update_row-taken :
    (m c : Node) (nodes : List Node)
    → m.id ≡ c.id
    → is_taken m (update_row c nodes) ≡ is_taken m nodes
unfolding update_row is_taken
update_row-taken m c [] e = refl
update_row-taken m c (n ∷ nodes) e = elim (Bool-cases (n.id == c.id)) [
  | inl same ↦
      let own : (m.id == n.id) ≡ true =
        (nat_same_iff m.id n.id).1 (e ∙ sym ((nat_same_iff n.id c.id).0 same)) in
      rw (same, own) (update_row-taken m c nodes e)
  | inr other ↦ rw other ground (arith, update_row-taken m c nodes e)
]

update_row-above :
    (c : Node) (nodes : List Node) → All (IsBelow node_key c.id) nodes → update_row c nodes ≡ nodes
unfolding update_row
update_row-above c [] a = refl
update_row-above c (n ∷ nodes) a =
    ground (arith, a.0, update_row-above c nodes a.1, nat_same_iff n.id c.id)

update_row-back :
    (old c : Node) (nodes : List Node)
    → IsSorted node_key nodes
    → c.id ≡ old.id
    → find (has_node_id old.id) nodes ≡ some old
    → update_row old (update_row c nodes) ≡ nodes
unfolding update_row
update_row-back old c [] s e f = refl
update_row-back old c (n ∷ nodes) s e f = elim (Bool-cases (n.id == old.id)) [
  | inl same ↦
      let here : n ≡ old = ground (arith, rw same at f) in
      let id : n.id ≡ old.id = (nat_same_iff n.id old.id).0 same in
      let changed : (n.id == c.id) ≡ true = (nat_same_iff n.id c.id).1 (id ∙ sym e) in
      let first =
        update_row-above c nodes (subst (λ k. All (IsBelow node_key k) nodes) (id ∙ sym e) s.0) in
      let second =
        update_row-above old nodes (subst (λ k. All (IsBelow node_key k) nodes) id s.0) in
      rw (changed, update_row, same)
        (ap (λ m. set_columns m n ∷ update_row old (update_row c nodes)) (sym here)
          ∙ ap (λ l. n ∷ update_row old l) first
          ∙ ap (λ l. n ∷ l) second)
  | inr other ↦
      let kept : (n.id == c.id) ≡ false = ap (λ k. n.id == k) e ∙ other in
      rw (kept, update_row, other)
        (ap (λ l. n ∷ l) (update_row-back old c nodes s.1 e (rw other at f)))
]

accepted :
    (old c : Node) (t : Tables)
    → IsSound t
    → find_node old.id t ≡ some old
    → c.id ≡ old.id
    → update_node old (record t { nodes = update_row c t.nodes }) ≡ written t
unfolding update_node find_node
accepted old c t s f e =
    let there = update_row-find old.id c t.nodes ∙ ap (is_some {V = Node}) f in
    let free =
      update_row-taken old c t.nodes (sym e)
      ∙ All-find (λ m. is_taken m t.nodes ≡ false) (has_node_id old.id) t.nodes old s.free f in
    let linked =
      All-find (λ m. refers m.outbound_id t.outbounds ≡ true) (has_node_id old.id) t.nodes old
        s.linked f in
    rw (there, free, linked, update_row-back old c t.nodes s.nodes e f) refl

-- In sound tables, a node that is updated and then updated with the row that it had is accepted both
-- times or the first is refused, and the tables are what they were.
pub update_node-back :
    (old c : Node) (t u : Tables)
    → IsSound t
    → find_node old.id t ≡ some old
    → c.id ≡ old.id
    → update_node c t ≡ written u
    → update_node old u ≡ written t
unfolding update_node find_node
update_node-back old c t u s f e w =
    elim (Bool-cases (not (is_some (find (has_node_id c.id) t.nodes)))) [
      | inl gone ↦ absurd (ground (arith, rw gone at w))
      | inr there ↦ elim (Bool-cases (is_taken c t.nodes)) [
        | inl taken ↦ absurd (ground (arith, rw (there, taken) at w))
        | inr free ↦ elim (Bool-cases (not (refers c.outbound_id t.outbounds))) [
          | inl dangling ↦ absurd (ground (arith, rw (there, free, dangling) at w))
          | inr linked ↦
              let made : record t { nodes = update_row c t.nodes } ≡ u =
                ground (arith, rw (there, free, linked) at w) in
              subst (λ v. update_node old v ≡ written t) made (accepted old c t s f e)
        ]
      ]
    ]

-- Below `next_id` are all the keys.
pub next_id-above : {A : Type 0} (key : A → ℕ) (xs : List A) → All (λ x. key x < next_id key xs) xs
unfolding next_id
next_id-above key [] = tt
next_id-above key (x ∷ xs) = (
  ground arith,
  All-weaken (λ y. key y < next_id key xs) (λ y. key y < next_id key (x ∷ xs)) xs
      (λ y h. ground (arith, h)) (next_id-above key xs),
)

keep_others :
    {A : Type 0} (p : A → Bool) (xs : List A)
    → All (λ x. p x ≡ false) xs
    → keep (λ x. not (p x)) xs ≡ xs
keep_others p [] a = refl
keep_others p (x ∷ xs) a = ground (arith, a.0, keep_others p xs a.1)

keep-insert_at :
    {A : Type 0} (key : A → ℕ) (p : A → Bool) (new : A) (xs : List A)
    → p new ≡ true
    → All (λ x. p x ≡ false) xs
    → keep (λ x. not (p x)) (insert_at key new xs) ≡ xs
unfolding insert_at
keep-insert_at key p new [] h a = ground (arith, h)
keep-insert_at key p new (x ∷ xs) h a = elim (Bool-cases (ltb (key new) (key x))) [
  | inl below ↦ rw (below, h, a.0) (ap (λ l. x ∷ l) (keep_others p xs a.1))
  | inr above ↦ rw (above, a.0) (ap (λ l. x ∷ l) (keep-insert_at key p new xs h a.1))
]

pub insert_at-finds :
    {A : Type 0} (key : A → ℕ) (p : A → Bool) (new : A) (xs : List A)
    → p new ≡ true
    → is_some (find p (insert_at key new xs)) ≡ true
unfolding insert_at
insert_at-finds key p new [] h = ground (arith, h)
insert_at-finds key p new (x ∷ xs) h = ground (arith, h, insert_at-finds key p new xs h)

-- No row has the next id.
no_node :
    (k : ℕ) (nodes : List Node)
    → All (λ n. n.id < k) nodes
    → All (λ n. has_node_id k n ≡ false) nodes
no_node k [] a = tt
no_node k (n ∷ nodes) a = (ground (arith, a.0, nat_same_iff n.id k), no_node k nodes a.1)

known_below :
    (id k : ℕ) (nodes : List Node)
    → All (λ n. n.id < k) nodes
    → is_some (find (has_node_id id) nodes) ≡ true
    → id < k
known_below id k [] a e = cc e
known_below id k (n ∷ nodes) a e = elim (Bool-cases (has_node_id id n)) [
  | inl same ↦ ground (arith, a.0, (nat_same_iff n.id id).0 same)
  | inr other ↦ known_below id k nodes a.1 (rw other at e)
]

no_client :
    (k : ℕ) (nodes : List Node) (clients : List Client)
    → All (λ n. n.id < k) nodes
    → All (λ c. is_some (find (has_node_id c.node_id) nodes) ≡ true) clients
    → All (λ c. has_owner k c ≡ false) clients
no_client k nodes [] a o = tt
no_client k nodes (c ∷ clients) a o = (
  ground (arith, known_below c.node_id k nodes a o.0, nat_same_iff c.node_id k),
  no_client k nodes clients a o.1,
)

-- The rows that a creation writes.
abbrev pub new_node : Node → Tables → Node
new_node node t = record node { id = next_id node_key t.nodes }

abbrev pub new_client : Client → Tables → Client
new_client client t = record client {
  id = next_id client_key t.clients;
  node_id = next_id node_key t.nodes;
  user_id = 1;
  enabled = true;
}

abbrev pub with_rows : Node → Client → Tables → Tables
with_rows node client t = record t {
  nodes = insert_at node_key node t.nodes;
  clients = insert_at client_key client t.clients;
}

abbrev pub created_rows : Node → Client → Tables → Node × Tables
created_rows node client t = (new_node node t, with_rows (new_node node t) (new_client client t) t)

deleted :
    (node : Node) (client : Client) (t : Tables)
    → IsSound t
    → delete_node (next_id node_key t.nodes) (created_rows node client t).1 ≡ written t
unfolding delete_node find_node
deleted node client t s =
    let k = next_id node_key t.nodes in
    let own : (k == k) ≡ true = (nat_same_iff k k).1 refl in
    let below = next_id-above node_key t.nodes in
    let there = insert_at-finds node_key (has_node_id k) (new_node node t) t.nodes own in
    let nodes =
      keep-insert_at node_key (has_node_id k) (new_node node t) t.nodes own
        (no_node k t.nodes below) in
    let clients =
      keep-insert_at client_key (has_owner k) (new_client client t) t.clients own
        (no_client k t.nodes t.clients below s.owned) in
    rw (there, nodes, clients) refl

-- In sound tables, a node that is created and then deleted leaves the tables as they were.
pub delete_node-create :
    (node : Node) (client : Client) (t : Tables) (new : Node) (u : Tables)
    → IsSound t
    → create_node node client t ≡ written (new, u)
    → delete_node new.id u ≡ written t
unfolding create_node
delete_node-create node client t new u s w =
    elim (Bool-cases (is_taken (new_node node t) t.nodes)) [
      | inl taken ↦ absurd (ground (arith, rw taken at w))
      | inr free ↦ elim (Bool-cases (not (refers node.outbound_id t.outbounds))) [
        | inl dangling ↦ absurd (ground (arith, rw (free, dangling) at w))
        | inr linked ↦
            let rows : Node × Tables = (new, u) in
            let made : created_rows node client t ≡ rows = ground (arith, rw (free, linked) at w) in
            subst (λ r. delete_node r.0.id r.1 ≡ written t) made (deleted node client t s)
      ]
    ]
