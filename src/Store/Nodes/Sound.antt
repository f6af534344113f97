-- ===== src/Store/Nodes/Sound.antt =====
-- Creation, update and restoration of a node keep the tables sound.
use Prim.Native.Nat.{ℕ}
use mathlib.Core.Path.{◌≡◌, refl, ◌∙◌, ap, subst}
use mathlib.Core.Logic.{inl, inr}
use mathlib.Core.Bool.{true, false, not, ◌&&◌}
use mathlib.Core.List.{List, [], ◌∷◌}
use native.Mathlib.Omega.{arith}
use j_ui.Base.{◌==◌, nat_equality, nat_same_iff, All, All-weaken, All-both, find, Bool-cases}
use j_ui.Base.Map.{is_some}
use j_ui.Base.Text.{text_equality}
use j_ui.Model.{Node, Client}
use j_ui.Store.Nodes.{
  Tables, written, has_node_id, find_node, collides, is_taken, refers, node_key, client_key,
  next_id, set_columns, update_row, create_node, update_node,
}
use j_ui.Store.Nodes.Sorted.{IsBelow, IsSorted}
use j_ui.Store.Nodes.Restore.{IsSound}
use j_ui.Store.Nodes.Back.{
  update_row-find, update_row-taken, next_id-above, insert_at-finds, new_node, new_client,
  created_rows,
}
use j_ui.Store.Nodes.Grown.{
  insert_at-All, insert_at-IsSorted, find-above, insert_at-finds-others, collides_sym, is_taken-All,
  insert_node-free,
}

created-IsSound :
    (node : Node) (client : Client) (t : Tables)
    → IsSound t
    → is_taken (new_node node t) t.nodes ≡ false
    → refers node.outbound_id t.outbounds ≡ true
    → IsSound (created_rows node client t).1
created-IsSound node client t s e l =
    let new = new_node node t in
    let k = next_id node_key t.nodes in
    let own : has_node_id k new ≡ true = (nat_same_iff k k).1 refl in
    record {
      nodes =
          insert_at-IsSorted node_key new t.nodes
            (find-above node_key k new t.nodes refl (next_id-above node_key t.nodes)) s.nodes;
      clients =
          insert_at-IsSorted client_key (new_client client t) t.clients
            (find-above client_key (next_id client_key t.clients) (new_client client t) t.clients
              refl (next_id-above client_key t.clients))
            s.clients;
      free = insert_node-free new t.nodes e s.free;
      linked =
          insert_at-All node_key (λ n. refers n.outbound_id t.outbounds ≡ true) new t.nodes l
            s.linked;
      owned =
          insert_at-All client_key _ (new_client client t) t.clients
            (insert_at-finds node_key (has_node_id k) new t.nodes own)
            (All-weaken (λ c. is_some (find (has_node_id c.node_id) t.nodes) ≡ true) _ t.clients
              (λ c h. insert_at-finds-others node_key (has_node_id c.node_id) new t.nodes h)
              s.owned);
    }

-- `CreateNode` keeps the tables sound.
pub create_node-IsSound :
    (node : Node) (client : Client) (t : Tables) (new : Node) (u : Tables)
    → IsSound t
    → create_node node client t ≡ written (new, u)
    → IsSound u
unfolding create_node
create_node-IsSound node client t new u s w =
    elim (Bool-cases (is_taken (new_node node t) t.nodes)) [
      | inl taken ↦ absurd (ground (arith, rw taken at w))
      | inr free ↦ elim (Bool-cases (refers node.outbound_id t.outbounds)) [
        | inr dangling ↦ absurd (ground (arith, rw (free, dangling) at w))
        | inl linked ↦
            let rows : Node × Tables = (new, u) in
            let made : created_rows node client t ≡ rows = ground (arith, rw (free, linked) at w) in
            subst (λ r. IsSound r.1) made (created-IsSound node client t s free linked)
      ]
    ]

update_row-above :
    (k : ℕ) (c : Node) (nodes : List Node)
    → All (IsBelow node_key k) nodes
    → All (IsBelow node_key k) (update_row c nodes)
unfolding update_row
update_row-above k c [] a = tt
update_row-above k c (n ∷ nodes) a = elim (Bool-cases (n.id == c.id)) [
  | inl same ↦ rw (same, update_row) (a.0, update_row-above k c nodes a.1)
  | inr other ↦ rw (other, update_row) (a.0, update_row-above k c nodes a.1)
]

update_row-IsSorted :
    (c : Node) (nodes : List Node)
    → IsSorted node_key nodes
    → IsSorted node_key (update_row c nodes)
unfolding update_row
update_row-IsSorted c [] s = tt
update_row-IsSorted c (n ∷ nodes) s = elim (Bool-cases (n.id == c.id)) [
  | inl same ↦
      rw (same, update_row) (update_row-above n.id c nodes s.0, update_row-IsSorted c nodes s.1)
  | inr other ↦
      rw (other, update_row) (update_row-above n.id c nodes s.0, update_row-IsSorted c nodes s.1)
]

-- What holds of the other rows and of the changed one.
update_row-All :
    (P : Node → Type 0) (c : Node) (nodes : List Node)
    → ((n : Node) → n.id ≡ c.id → P (set_columns c n))
    → All (λ n. (n.id == c.id) ≡ false → P n) nodes
    → All P (update_row c nodes)
unfolding update_row
update_row-All P c [] h a = tt
update_row-All P c (n ∷ nodes) h a = elim (Bool-cases (n.id == c.id)) [
  | inl same ↦
      rw (same, update_row) (h n ((nat_same_iff n.id c.id).0 same), update_row-All P c nodes h a.1)
  | inr other ↦ rw (other, update_row) (a.0 other, update_row-All P c nodes h a.1)
]

-- The changed row is not in the way of another that it did not collide with.
is_taken-update :
    (m c : Node) (nodes : List Node)
    → is_taken m nodes ≡ false
    → collides m c ≡ false
    → is_taken m (update_row c nodes) ≡ false
unfolding is_taken update_row
is_taken-update m c [] e h = refl
is_taken-update m c (n ∷ nodes) e h = elim (Bool-cases (collides m n)) [
  | inl hit ↦ absurd (ground (arith, rw hit at e))
  | inr free ↦ elim (Bool-cases (n.id == c.id)) [
    | inl same ↦
        let id : n.id ≡ c.id = (nat_same_iff n.id c.id).0 same in
        let apart : collides m (set_columns c n) ≡ false =
          ap (λ k. not (m.id == k) && (m.listen == c.listen && m.port == c.port)) id ∙ h in
        rw (same, update_row, apart) (is_taken-update m c nodes (rw free at e) h)
    | inr other ↦ rw (other, update_row, free) (is_taken-update m c nodes (rw free at e) h)
  ]
]

updated-IsSound :
    (c : Node) (t : Tables)
    → IsSound t
    → is_taken c t.nodes ≡ false
    → refers c.outbound_id t.outbounds ≡ true
    → IsSound (record t { nodes = update_row c t.nodes })
unfolding is_taken
updated-IsSound c t s e l = record {
  nodes = update_row-IsSorted c t.nodes s.nodes;
  clients = s.clients;
  free =
      update_row-All (λ n. is_taken n (update_row c t.nodes) ≡ false) c t.nodes
        (λ n id.
          update_row-taken (set_columns c n) c t.nodes id
          ∙ ap (λ (k : ℕ). is_taken (record c { id = k }) t.nodes) id
          ∙ e)
        (All-weaken (λ n. (is_taken n t.nodes ≡ false) × (collides c n ≡ false)) _ t.nodes
          (λ n h other. is_taken-update n c t.nodes h.0 (collides_sym n c ∙ h.1))
          (All-both _ _ t.nodes s.free (is_taken-All c t.nodes e)));
  linked =
      update_row-All (λ n. refers n.outbound_id t.outbounds ≡ true) c t.nodes (λ n id. l)
        (All-weaken _ _ t.nodes (λ n h other. h) s.linked);
  owned =
      All-weaken (λ k. is_some (find (has_node_id k.node_id) t.nodes) ≡ true) _ t.clients
        (λ k h. update_row-find k.node_id c t.nodes ∙ h) s.owned;
}

-- `UpdateNode` keeps the tables sound.
pub update_node-IsSound :
    (c : Node) (t u : Tables) → IsSound t → update_node c t ≡ written u → IsSound u
unfolding update_node
update_node-IsSound c t u s w = elim (Bool-cases (not (is_some (find_node c.id t)))) [
  | inl gone ↦ absurd (ground (arith, rw gone at w))
  | inr there ↦ elim (Bool-cases (is_taken c t.nodes)) [
    | inl taken ↦ absurd (ground (arith, rw (there, taken) at w))
    | inr free ↦ elim (Bool-cases (refers c.outbound_id t.outbounds)) [
      | inr dangling ↦ absurd (ground (arith, rw (there, free, dangling) at w))
      | inl linked ↦
          let made : record t { nodes = update_row c t.nodes } ≡ u =
            ground (arith, rw (there, free, linked) at w) in
          subst IsSound made (updated-IsSound c t s free linked)
    ]
  ]
]
