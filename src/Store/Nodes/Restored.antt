-- ===== src/Store/Nodes/Restored.antt =====
-- The restoration of a node keeps the tables sound.
use Prim.Native.Nat.{ℕ}
use mathlib.Core.Path.{◌≡◌, refl, ◌∙◌, ap, subst}
use mathlib.Core.Logic.{inl, inr}
use mathlib.Core.Bool.{true, false}
use mathlib.Core.List.{List, [], ◌∷◌}
use mathlib.Core.Option.{none, some}
use native.Mathlib.Omega.{arith}
use j_ui.Base.{nat_equality, nat_same_iff, All, All-weaken, find, Bool-cases, Option-cases}
use j_ui.Base.Map.{is_some}
use j_ui.Model.{Node, Client}
use j_ui.Store.Nodes.{
  Tables, written, has_node_id, find_node, is_taken, refers, node_key, client_key, shares_key,
  insert_at, insert_rows, owned_by, restore_node,
}
use j_ui.Store.Nodes.Restore.{IsSound}
use j_ui.Store.Nodes.Back.{insert_at-finds}
use j_ui.Store.Nodes.Grown.{
  insert_at-All, insert_at-IsSorted, insert_rows-IsSorted, insert_rows-All, insert_at-finds-others,
  insert_node-free,
}

find-shares :
    (n : Node) (nodes : List Node)
    → is_some (find (has_node_id n.id) nodes) ≡ false
    → find (shares_key node_key n) nodes ≡ none
find-shares n [] e = refl
find-shares n (m ∷ nodes) e =
    ground (arith, e, find-shares n nodes, nat_same_iff n.id m.id, nat_same_iff m.id n.id)

owned_by-All :
    (id : ℕ) (P : Client → Type 0) (clients : List Client)
    → ((c : Client) → c.node_id ≡ id → P c)
    → All P (owned_by id clients)
owned_by-All id P [] h = tt
owned_by-All id P (c ∷ clients) h =
    (h (record c { node_id = id }) refl, owned_by-All id P clients h)

restored-IsSound :
    (node : Node) (clients rows : List Client) (t : Tables)
    → IsSound t
    → is_some (find_node node.id t) ≡ false
    → is_taken node t.nodes ≡ false
    → refers node.outbound_id t.outbounds ≡ true
    → insert_rows client_key (owned_by node.id clients) t.clients ≡ some rows
    → IsSound (record t { nodes = insert_at node_key node t.nodes; clients = rows })
unfolding find_node
restored-IsSound node clients rows t s f e l r =
    let own : has_node_id node.id node ≡ true = (nat_same_iff node.id node.id).1 refl in
    let nodes = insert_at node_key node t.nodes in
    let there = insert_at-finds node_key (has_node_id node.id) node t.nodes own in
    record {
      nodes = insert_at-IsSorted node_key node t.nodes (find-shares node t.nodes f) s.nodes;
      clients =
          insert_rows-IsSorted client_key (owned_by node.id clients) t.clients rows r s.clients;
      free = insert_node-free node t.nodes e s.free;
      linked =
          insert_at-All node_key (λ n. refers n.outbound_id t.outbounds ≡ true) node t.nodes l
            s.linked;
      owned =
          insert_rows-All client_key (λ c. is_some (find (has_node_id c.node_id) nodes) ≡ true)
            (owned_by node.id clients) t.clients rows r
            (owned_by-All node.id _ clients
              λ c same. ap (λ k. is_some (find (has_node_id k) nodes)) same ∙ there)
            (All-weaken (λ c. is_some (find (has_node_id c.node_id) t.nodes) ≡ true) _ t.clients
              (λ c h. insert_at-finds-others node_key (has_node_id c.node_id) node t.nodes h)
              s.owned);
    }

-- `RestoreNode` keeps the tables sound.
pub restore_node-IsSound :
    (node : Node) (clients : List Client) (t u : Tables)
    → IsSound t
    → restore_node node clients t ≡ written u
    → IsSound u
unfolding restore_node
restore_node-IsSound node clients t u s w = elim (Bool-cases (is_some (find_node node.id t))) [
  | inl there ↦ absurd (ground (arith, rw there at w))
  | inr gone ↦ elim (Bool-cases (is_taken node t.nodes)) [
    | inl taken ↦ absurd (ground (arith, rw (gone, taken) at w))
    | inr free ↦ elim (Bool-cases (refers node.outbound_id t.outbounds)) [
      | inr dangling ↦ absurd (ground (arith, rw (gone, free, dangling) at w))
      | inl linked ↦
          elim (Option-cases (insert_rows client_key (owned_by node.id clients) t.clients)) [
            | inl clash ↦ absurd (ground (arith, rw (gone, free, linked, clash) at w))
            | inr (rows, fits) ↦
                let made : record t { nodes = insert_at node_key node t.nodes; clients = rows }
                    ≡ u =
                  ground (arith, rw (gone, free, linked, fits) at w) in
                subst IsSound made (restored-IsSound node clients rows t s gone free linked fits)
          ]
    ]
  ]
]
