-- ===== src/Node/Transactions.antt =====
-- Runs of the transactions on nodes on concrete inputs, and the theorems at those inputs.
use Prim.Native.Nat.{ℕ, suc}
use mathlib.Core.Path.{◌≡◌, refl}
use mathlib.Core.Bool.{true, false, not}
use mathlib.Core.List.{[], ◌∷◌}
use mathlib.Core.Option.{none, some}
use native.Mathlib.Omega.{arith}
use j_ui.Base.Text.{codes, text_same, trim_space, trim_left, is_space}
use j_ui.Base.{keep}
use j_ui.Model.{Node, Client, string}
use j_ui.Store.Nodes.{
  Tables, written, is_taken, find_node, clients_of, restore_node, update_node, delete_node,
  create_node,
}
use j_ui.Store.Nodes.Restore.{IsSound, without}
use j_ui.Store.Nodes.Restore
use j_ui.Node.Sync.{
  Manager, sync_firewall, sync_rules, managed_firewall_rules, drop_stale, open_all, in_key_order,
  desired_rules, tracked_set, verify,
}
use j_ui.Base.Map.{lookup}
use j_ui.Node.Ports.{firewall_protocols}
use j_ui.Node.Reconcile.{
  temporary_source, map_string, reconcile, firewall_step, gather, ai_routing, generated, deploy,
  apply_runtime, uses_temporary_runtime, listeners_of, listeners_for_node, default_listen,
}
use j_ui.Node.Panel.{
  Panel, Setup, done, record_event, save_config_version, statement, query, or_else, pure, ◌>>=◌,
}
use j_ui.Node.Mutations.{
  delete, commit_update, commit_create, expire_temporary, is_expired, expire_each, temporary_expiry,
}
use j_ui.Node.Mutations.Atomic.{IsAtomic}
use j_ui.Node.Mutations.Rollback
use j_ui.Node.Mutations.Expiry
use j_ui.Node.Mutations.Invariant

abbrev node : ℕ → ℕ → Node
node id port = record {
  id = id;
  name = codes "node";
  protocol = "hysteria2";
  listen = codes "::";
  port = port;
  enabled = true;
  public_host_override = [];
  outbound_id = none;
  settings = [];
  secret = [];
  status = "running";
}

abbrev client : ℕ → ℕ → Client
client id node_id = record {
  id = id;
  node_id = node_id;
  user_id = 1;
  name = codes "default";
  credential = [];
  enabled = true;
}

abbrev tables : Tables
tables = record {
  nodes = node 1 9000 ∷ node 4 9001 ∷ [];
  clients = client 1 4 ∷ client 2 1 ∷ client 5 4 ∷ [];
  outbounds = [];
}

tables-IsSound : IsSound tables
unfolding is_taken text_same
tables-IsSound = record {
  nodes = ((omega arith, tt), (tt, tt));
  clients = ((omega arith, (omega arith, tt)), ((omega arith, tt), (tt, tt)));
  free = (refl, (refl, tt));
  linked = (refl, (refl, tt));
  owned = (refl, (refl, (refl, tt)));
}

abbrev manager : Manager ℕ
manager = record {
  backend = λ h. (some "ufw", h);
  ensure = λ protocol port h. (some (record { ownership = "owned"; backend = "ufw" }), suc h);
  close = λ protocol port backend h. (true, h);
}

-- No configuration can be generated, so each reconciliation fails and the compensation runs.
abbrev setup : Setup ℕ
setup = record {
  manager = manager;
  down = λ n. false;
  local_listen = λ listen. false;
  parse_landing = λ uri. none;
  generate = λ items outbounds routing. none;
  apply = λ config listeners h. (true, h);
  runtime = none;
}

abbrev panel : Panel ℕ
panel = record {
  tables = tables;
  world = record { rules = []; host = 0; verified = false; ticks = 0; calls = [] };
  landing = none;
  events = [];
  versions = [];
}

delete-IsAtomic_example :
    IsAtomic tables
      (λ u t. delete_node 4 tables ≡ written t)
      (delete setup 4 panel).0
      (delete setup 4 panel).1.tables
delete-IsAtomic_example = Rollback.delete-IsAtomic setup 4 panel tables-IsSound

found : find_node 4 tables ≡ some (node 4 9001)
unfolding find_node
found = refl

commit_update-IsAtomic_example :
    IsAtomic tables
      (λ u t. update_node (node 4 9002) tables ≡ written t)
      (commit_update setup (node 4 9001) (node 4 9002) panel).0
      (commit_update setup (node 4 9001) (node 4 9002) panel).1.tables
commit_update-IsAtomic_example =
    Rollback.commit_update-IsAtomic setup (node 4 9001) (node 4 9002) panel tables-IsSound found
      refl

commit_create-IsAtomic_example :
    IsAtomic tables
      (λ new t. create_node (node 0 9002) (client 0 0) tables ≡ written (new, t))
      (commit_create setup (node 0 9002) (client 0 0) panel).0
      (commit_create setup (node 0 9002) (client 0 0) panel).1.tables
commit_create-IsAtomic_example =
    Rollback.commit_create-IsAtomic setup (node 0 9002) (client 0 0) panel tables-IsSound

restore_node-delete_example :
    (delete_node 4 tables ≡ written (without 4 tables))
    × (restore_node (node 4 9001) (clients_of 4 tables) (without 4 tables) ≡ written tables)
restore_node-delete_example =
    Restore.restore_node-delete 4 tables (node 4 9001) tables-IsSound found

-- A temporary node of VPNGate whose time is over, between two others.
abbrev temporary : Node
temporary = record (node 2 9100) {
  settings =
      (codes "jui_temporary_source", string (codes "vpngate"))
      ∷ (codes "jui_temporary_expires_at", string (codes "then"))
      ∷ [];
}

abbrev working : Setup ℕ
working = record setup {
  local_listen = λ listen. true;
  generate = λ items outbounds routing. some [];
}

abbrev mixed : Panel ℕ
mixed = record panel {
  tables = record {
    nodes = node 1 9000 ∷ temporary ∷ node 4 9001 ∷ [];
    clients = [];
    outbounds = [];
  };
}

expire_temporary_lem : (expire_temporary working (λ text. some 5) 9 mixed).0 ≡ done tt
unfolding expire_temporary expire_each is_expired temporary_expiry temporary_source map_string
    lookup delete find_node delete_node clients_of reconcile firewall_step gather ai_routing
    generated deploy apply_runtime uses_temporary_runtime listeners_of listeners_for_node
    firewall_protocols default_listen record_event save_config_version statement query or_else pure
    ◌>>=◌ sync_firewall sync_rules managed_firewall_rules drop_stale open_all in_key_order
    desired_rules tracked_set verify trim_space trim_left is_space text_same
expire_temporary_lem = refl

expire_temporary-done_example :
    (expire_temporary working (λ text. some 5) 9 mixed).1.tables.nodes
    ≡ keep (λ n. not (is_expired working (λ text. some 5) 9 n)) mixed.tables.nodes
expire_temporary-done_example =
    Expiry.expire_temporary-done working (λ text. some 5) 9 mixed
      ((omega arith, (omega arith, tt)), ((omega arith, tt), (tt, tt))) expire_temporary_lem

serve_all-IsSound_example :
    IsSound
      (Invariant.serve_all setup
        (λ text. some 5)
        (Invariant.deletion 4
          ∷ Invariant.creation (node 0 9000) (client 0 0)
          ∷ Invariant.expiry 9
          ∷ [])
        panel).tables
serve_all-IsSound_example =
    Invariant.serve_all-IsSound setup (λ text. some 5)
      (Invariant.deletion 4
        ∷ Invariant.creation (node 0 9000) (client 0 0)
        ∷ Invariant.expiry 9
        ∷ [])
      panel tables-IsSound
