-- ===== src/Node/Reconcile.antt =====
-- `reconcile` of internal/node/service.go: the firewall, the configuration of the engine and that of
-- the temporary runtime, from the nodes that the database has.
pub mod Stability
use Prim.Native.Nat.{ℕ}
use Prim.Native.String.{String}
use mathlib.Core.Bool.{Bool, true, false, not, ◌&&◌, ◌||◌}
use mathlib.Core.List.{List, [], ◌∷◌, ◌++◌}
use mathlib.Core.Option.{Option, none, some}
use j_ui.Base.{◌==◌, if◌then◌else◌, nat_equality}
use j_ui.Base.Map.{lookup, is_some}
use j_ui.Base.Text.{Text, codes, text_equality, trim_space}
use j_ui.Model.{Node, Client, Outbound, Value, string, other, Settings}
use j_ui.Store.Nodes.{Tables, clients_of, find_outbound}
use j_ui.Node.Ports.{firewall_protocols}
use j_ui.Node.Sync.{sync_firewall}
use j_ui.Node.Panel.{
  Panel, Setup, Landing, Endpoint, AiRouting, Item, TemporaryNode, Listener, Fault, landing_uri,
  no_inbound, generation, engine_apply, runtime_apply, Answer, done, failed, Act, pure, fail, ◌>>=◌,
  ◌>>◌, query, record_event, firewall_answer, save_config_version, or_else,
}

abbrev pub text_value : Option Value → Text
text_value none = []
text_value (some (other v)) = []
text_value (some (string t)) = trim_space t

-- `mapString`.
unfoldable pub map_string : Settings → Text → Text
unfolding lookup
map_string settings key = text_value (lookup key settings)

abbrev pub temporary_source_setting : Text
temporary_source_setting = codes "jui_temporary_source"

unfoldable pub temporary_source : Node → Text
unfolding map_string
temporary_source node = trim_space (map_string node.settings temporary_source_setting)

unfoldable pub default_listen : Text → Text
default_listen value = if trim_space value == [] then codes "0.0.0.0" else trim_space value

abbrev pub listeners_on : List String → Node → List Listener
listeners_on [] node = []
listeners_on (network ∷ networks) node =
    record { network = network; host = default_listen node.listen; port = node.port }
    ∷ listeners_on networks node

unfoldable pub listeners_for_node : Node → List Listener
unfolding firewall_protocols default_listen
listeners_for_node node = listeners_on (firewall_protocols node.protocol) node

-- The listeners of the enabled nodes.
unfoldable pub listeners_of : List Item → List Listener
unfolding listeners_for_node
listeners_of [] = []
listeners_of (item ∷ items) =
    if item.node.enabled
    then listeners_for_node item.node ++ listeners_of items
    else listeners_of items

abbrev pub outbound_of : Option ℕ → List Outbound → Option Outbound
outbound_of none outbounds = none
outbound_of (some id) outbounds = find_outbound id outbounds

-- The inbounds whose traffic the landing takes.
unfoldable pub landing_inbounds : Landing → List Item → List ℕ
unfolding temporary_source
landing_inbounds landing [] = []
landing_inbounds landing (item ∷ items) =
    let rest = landing_inbounds landing items in
    if not item.node.enabled
      || (is_some item.node.outbound_id || not (temporary_source item.node == []))
    then rest
    else if landing.inbound_id == 0 || landing.inbound_id == item.node.id
    then item.node.id ∷ rest
    else rest

abbrev pub is_empty : List ℕ → Bool
is_empty [] = true
is_empty (x ∷ xs) = false

module _ {Host : Type 0} (setup : Setup Host) where
  -- `usesTemporaryRuntime`.
  unfoldable pub uses_temporary_runtime : Node → Bool
  unfolding temporary_source
  uses_temporary_runtime node = is_some setup.runtime && not (temporary_source node == [])

  abbrev pub list_nodes : Act Host (List Node)
  list_nodes = query setup.down λ p. done p.tables.nodes

  abbrev pub list_outbounds : Act Host (List Outbound)
  list_outbounds = query setup.down λ p. done p.tables.outbounds

  abbrev pub clients : ℕ → Act Host (List Client)
  clients id = query setup.down λ p. done (clients_of id p.tables)

  unfoldable pub firewall_step : List Node → Act Host (Unit {0})
  unfolding sync_firewall
  firewall_step nodes p =
      let r = sync_firewall setup.manager setup.down setup.local_listen nodes p.world in
      (firewall_answer r.0, record p { world = r.1 })

  -- The nodes with their clients: those of the main engine and the temporary ones.
  unfoldable pub gather : List Outbound → List Node → Act Host (List Item × List TemporaryNode)
  gather outbounds [] = pure ([], [])
  gather outbounds (node ∷ nodes) = do
    own ← clients node.id
    rest ← gather outbounds nodes
    pure (
        if uses_temporary_runtime node
        then (
          rest.0,
          record { node = node; clients = own; outbound = outbound_of node.outbound_id outbounds }
              ∷ rest.1,
        )
        else (record { node = node; clients = own } ∷ rest.0, rest.1))

  abbrev pub with_endpoint : Landing → List Item → Option Endpoint → Act Host (Option AiRouting)
  with_endpoint landing items none = fail landing_uri
  with_endpoint landing items (some endpoint) =
      let inbounds = landing_inbounds landing items in
      if not (landing.inbound_id == 0) && is_empty inbounds
      then fail no_inbound
      else pure (
          some (record {
            endpoint = endpoint;
            inbound_ids = inbounds;
            include = landing.include;
            exclude = landing.exclude;
            base = landing.base;
          }))

  -- The routing of the landing, if one is enabled.
  unfoldable pub ai_routing : List Item → Option Landing → Act Host (Option AiRouting)
  unfolding landing_inbounds
  ai_routing items none = pure none
  ai_routing items (some landing) =
      if landing.enabled
      then with_endpoint landing items (setup.parse_landing landing.uri)
      else pure none

  -- An error event, then the error.
  unfoldable pub report : {A : Type 0} → String → Fault → Act Host A
  report code fault = record_event setup.down "error" code >> fail fault

  unfoldable pub generated : Option Text → Act Host Text
  generated none = report "config_generation_failed" generation
  generated (some config) = pure config

  abbrev pub on_host : (Host → Bool × Host) → Fault → Act Host (Unit {0})
  on_host f fault p =
      let r = f p.world.host in
      (if r.0 then done tt else failed fault, record p { world = record p.world { host = r.1 } })

  unfoldable pub apply_runtime :
      List TemporaryNode → Option (List TemporaryNode → Host → Bool × Host) → Act Host (Unit {0})
  apply_runtime items none = pure tt
  apply_runtime items (some run) =
      or_else (on_host (run items) runtime_apply) (report "temporary_config_apply_failed") (pure tt)

  -- From the configuration on.
  unfoldable pub deploy : List Item → List TemporaryNode → Text → Act Host (Unit {0})
  unfolding listeners_of
  deploy items temporary config = do
    or_else (on_host (setup.apply config (listeners_of items)) engine_apply)
        (report "config_apply_failed") (pure tt)
    apply_runtime temporary setup.runtime
    or_else (save_config_version setup.down config) (report "config_version_failed") (pure tt)
    record_event setup.down "info" "config_applied"

  unfoldable pub reconcile : Act Host (Unit {0})
  reconcile = do
    nodes ← list_nodes
    firewall_step nodes
    outbounds ← list_outbounds
    items ← gather outbounds nodes
    landing ← query setup.down λ p. done p.landing
    routing ← ai_routing items.0 landing
    config ← generated (setup.generate items.0 outbounds routing)
    deploy items.0 items.1 config
