-- ===== src/Store/Nodes.antt =====
-- The tables nodes, node_clients and outbounds of internal/database/store.go, each in the order of its
-- id, and the statements on nodes and clients. A statement that a constraint refuses changes nothing.
pub mod Sorted
pub mod Restore
pub mod Back
pub mod Kept
pub mod Grown
pub mod Sound
pub mod Restored
use Prim.Native.Nat.{ℕ, suc}
use mathlib.Core.Bool.{Bool, true, false, not, ◌&&◌, ◌||◌}
use mathlib.Core.List.{List, [], ◌∷◌}
use mathlib.Core.Option.{Option, none, some}
use j_ui.Base.{◌==◌, if◌then◌else◌, nat_equality, ltb, keep, find}
use j_ui.Base.Map.{is_some}
use j_ui.Base.Text.{Text, text_equality}
use j_ui.Model.{Node, Client, Outbound}

pub record Tables : Type 0 where
  pub nodes : List Node
  pub clients : List Client
  pub outbounds : List Outbound

-- A statement's end: `ErrConflict` for a unique constraint, another error for the rest.
pub data Written (A : Type 0) : Type 0 where
  written : A → Written A
  conflict refused no_rows : Written A

abbrev pub has_node_id : ℕ → Node → Bool
has_node_id id n = n.id == id

abbrev pub has_owner : ℕ → Client → Bool
has_owner id c = c.node_id == id

-- `Node`.
unfoldable pub find_node : ℕ → Tables → Option Node
find_node id t = find (has_node_id id) t.nodes

-- `Clients`.
unfoldable pub clients_of : ℕ → Tables → List Client
clients_of id t = keep (has_owner id) t.clients

-- `Outbound`.
unfoldable pub find_outbound : ℕ → List Outbound → Option Outbound
find_outbound id outbounds = find (λ o. o.id == id) outbounds

-- The constraint UNIQUE(listen, port), for a node against the others.
abbrev pub collides : Node → Node → Bool
collides a b = not (a.id == b.id) && (a.listen == b.listen && a.port == b.port)

unfoldable pub is_taken : Node → List Node → Bool
is_taken n nodes = is_some (find (collides n) nodes)

-- The reference of a node to an outbound.
abbrev pub refers : Option ℕ → List Outbound → Bool
refers none outbounds = true
refers (some id) outbounds = is_some (find_outbound id outbounds)

-- A row in the order of the keys.
unfoldable pub insert_at : {A : Type 0} → (A → ℕ) → A → List A → List A
insert_at key new [] = new ∷ []
insert_at key new (x ∷ xs) =
    if ltb (key new) (key x) then new ∷ x ∷ xs else x ∷ insert_at key new xs

abbrev pub shares_key : {A : Type 0} → (A → ℕ) → A → A → Bool
shares_key key a b = key a == key b

-- Rows one after the other; one whose key is there already is refused.
unfoldable pub insert_rows : {A : Type 0} → (A → ℕ) → List A → List A → Option (List A)
unfolding insert_at
insert_rows key [] xs = some xs
insert_rows key (new ∷ more) xs =
    let rest = insert_rows key more (insert_at key new xs) in
    if is_some (find (shares_key key new) xs) then none else rest

abbrev pub node_key : Node → ℕ
node_key n = n.id

abbrev pub client_key : Client → ℕ
client_key c = c.id

-- The id that SQLite gives a new row: one more than the greatest.
unfoldable pub next_id : {A : Type 0} → (A → ℕ) → List A → ℕ
next_id key [] = 1
next_id key (x ∷ xs) = let rest = next_id key xs in if ltb (key x) rest then rest else suc (key x)

-- `CreateNode`: a node and its first client, which belongs to the user 1.
unfoldable pub create_node : Node → Client → Tables → Written (Node × Tables)
unfolding is_taken insert_at next_id
create_node node client t =
    let new : Node = record node { id = next_id node_key t.nodes } in
    let first : Client = record client {
      id = next_id client_key t.clients;
      node_id = new.id;
      user_id = 1;
      enabled = true;
    } in
    if is_taken new t.nodes
    then conflict
    else if not (refers node.outbound_id t.outbounds)
    then refused
    else written (
      new,
      record t {
        nodes = insert_at node_key new t.nodes;
        clients = insert_at client_key first t.clients;
      },
    )

-- The columns that `UpdateNode` sets; the protocol stays.
abbrev pub set_columns : Node → Node → Node
set_columns node old = record node { id = old.id; protocol = old.protocol }

unfoldable pub update_row : Node → List Node → List Node
update_row node [] = []
update_row node (n ∷ nodes) =
    let rest = update_row node nodes in
    if n.id == node.id then set_columns node n ∷ rest else n ∷ rest

-- `UpdateNode`.
unfoldable pub update_node : Node → Tables → Written Tables
unfolding find_node is_taken update_row
update_node node t =
    if not (is_some (find_node node.id t))
    then no_rows
    else if is_taken node t.nodes
    then conflict
    else if not (refers node.outbound_id t.outbounds)
    then refused
    else written (record t { nodes = update_row node t.nodes })

-- `DeleteNode`; the clients go with their node.
unfoldable pub delete_node : ℕ → Tables → Written Tables
unfolding find_node
delete_node id t =
    if not (is_some (find_node id t))
    then no_rows
    else written (record t {
      nodes = keep (λ n. not (has_node_id id n)) t.nodes;
      clients = keep (λ c. not (has_owner id c)) t.clients;
    })

-- The rows that `RestoreNode` writes for the clients.
abbrev pub owned_by : ℕ → List Client → List Client
owned_by id [] = []
owned_by id (c ∷ clients) = record c { node_id = id } ∷ owned_by id clients

-- `RestoreNode`: the rows of a node and of its clients, with their ids.
unfoldable pub restore_node : Node → List Client → Tables → Written Tables
unfolding find_node is_taken insert_at insert_rows
restore_node node clients t =
    if is_some (find_node node.id t)
      || (is_taken node t.nodes || not (refers node.outbound_id t.outbounds))
    then refused
    else elim (insert_rows client_key (owned_by node.id clients) t.clients) [
      | none ↦ refused
      | some rows ↦ written (record t { nodes = insert_at node_key node t.nodes; clients = rows })
    ]
