-- ===== src/Node/Mutations.antt =====
-- The transactions of internal/node/service.go that change nodes: the writes, the reconciliation, and
-- the compensation where it fails.
pub mod Atomic
pub mod Rollback
pub mod Expiry
pub mod Invariant
use Prim.Native.Nat.{ℕ}
use Prim.Native.String.{String}
use mathlib.Core.Bool.{Bool, true, false, not, ◌&&◌, ◌||◌}
use mathlib.Core.List.{List, [], ◌∷◌}
use mathlib.Core.Option.{Option, none, some}
use j_ui.Base.{◌==◌, leb, if◌then◌else◌, nat_equality}
use j_ui.Base.Text.{Text, codes, text_equality, trim_space}
use j_ui.Model.{Node, Client, Outbound}
use j_ui.Store.Nodes.{
  Tables, Written, written, conflict, refused, no_rows, find_node, clients_of, find_outbound,
  create_node, update_node, delete_node, restore_node,
}
use j_ui.Node.Panel.{
  Setup, Panel, Fault, invalid, conflicting, missing, Answer, done, failed, Act, pure, fail, ◌>>=◌,
  ◌>>◌, query, statement, record_event, compensate, or_else,
}
use j_ui.Node.Reconcile.{map_string, temporary_source, list_nodes, reconcile}

-- A statement that only changes the tables.
abbrev pub changed : Written Tables → Written (Unit {0} × Tables)
changed (written t) = written (tt, t)
changed conflict = conflict
changed refused = refused
changed no_rows = no_rows

abbrev pub found : {A : Type 0} → Option A → Answer A
found none = failed missing
found (some a) = done a

abbrev pub temporary_expiry_setting : Text
temporary_expiry_setting = codes "jui_temporary_expires_at"

module _ {Host : Type 0} (setup : Setup Host) where
  abbrev pub node_of : ℕ → Act Host Node
  node_of id = query setup.down λ p. found (find_node id p.tables)

  abbrev pub delete_rows : ℕ → Act Host (Unit {0})
  delete_rows id = statement setup.down λ t. changed (delete_node id t)

  abbrev pub update_rows : Node → Act Host (Unit {0})
  update_rows node = statement setup.down λ t. changed (update_node node t)

  abbrev pub restore_rows : Node → List Client → Act Host (Unit {0})
  restore_rows node clients = statement setup.down λ t. changed (restore_node node clients t)

  -- `Delete`.
  unfoldable pub delete : ℕ → Act Host (Unit {0})
  delete id = do
    previous ← node_of id
    clients ← query setup.down λ p. done (clients_of id p.tables)
    delete_rows id
    or_else (reconcile setup)
        (λ e. compensate setup.down e (restore_rows previous clients ∷ reconcile setup ∷ []))
        (pure tt)

  -- `updateLocked`, from the write on: the candidate is checked.
  unfoldable pub commit_update : Node → Node → Act Host (Unit {0})
  commit_update previous candidate = do
    update_rows candidate
    or_else (reconcile setup)
        (λ e. compensate setup.down e (update_rows previous ∷ reconcile setup ∷ [])) (pure tt)

  -- `Create`, from the write on.
  unfoldable pub commit_create : Node → Client → Act Host Node
  commit_create node client = do
    created ← statement setup.down λ t. create_node node client t
    or_else (reconcile setup)
        (λ e. compensate setup.down e (delete_rows created.id ∷ reconcile setup ∷ []))
        (pure created)

  abbrev pub usable : Bool → Option Outbound → Act Host (Unit {0})
  usable node_enabled none = fail invalid
  usable node_enabled (some o) = if node_enabled && not o.enabled then fail conflicting else pure tt

  unfoldable pub validate_outbound_binding : Option ℕ → Bool → Act Host (Unit {0})
  unfolding find_outbound
  validate_outbound_binding none node_enabled = pure tt
  validate_outbound_binding (some id) node_enabled = do
    outbound ← query setup.down λ p. done (find_outbound id p.tables.outbounds)
    usable node_enabled outbound

  -- `parse_time` is `time.Parse` for RFC 3339; times are numbers.
  module _ (parse_time : Text → Option ℕ) where
    unfoldable pub temporary_expiry : Node → Option ℕ
    unfolding map_string temporary_source
    temporary_expiry node =
        let value = trim_space (map_string node.settings temporary_expiry_setting) in
        if value == [] || temporary_source node == [] then none else parse_time value

    abbrev pub is_over : ℕ → Option ℕ → Bool
    is_over now none = false
    is_over now (some expires_at) = leb expires_at now

    unfoldable pub is_expired : ℕ → Node → Bool
    unfolding temporary_expiry temporary_source
    is_expired now node =
        temporary_source node == codes "vpngate" && is_over now (temporary_expiry node)

    unfoldable pub expire_each : ℕ → List Node → Act Host (Unit {0})
    expire_each now [] = pure tt
    expire_each now (node ∷ nodes) =
        let rest = expire_each now nodes in
        if is_expired now node
        then delete node.id >> record_event setup.down "info" "temporary_node_expired" >> rest
        else rest

    unfoldable pub expire_temporary : ℕ → Act Host (Unit {0})
    unfolding expire_each
    expire_temporary now = do nodes ← list_nodes setup; expire_each now nodes
