-- ===== src/Node/Reconcile/Stability.antt =====
-- The reconciliation reads the tables of nodes, clients and outbounds and does not change them.
use Prim.Native.String.{String}
use mathlib.Core.Path.{refl}
use mathlib.Core.Bool.{Bool}
use mathlib.Core.List.{List, [], ◌∷◌}
use mathlib.Core.Option.{Option, none, some}
use j_ui.Base.Text.{Text}
use j_ui.Model.{Node, Outbound}
use j_ui.Node.Panel.{Setup, Landing, Endpoint, Item, TemporaryNode, Fault}
use j_ui.Node.Panel.Stability.{Stable, Stable-bind, Stable-query, Stable-pure, stable_rules}
use j_ui.Node.Reconcile.{
  firewall_step, gather, with_endpoint, ai_routing, report, generated, on_host, apply_runtime,
  deploy, reconcile,
}

module _ {Host : Type 0} (setup : Setup Host) where
  firewall_step-Stable : (nodes : List Node) → Stable (firewall_step setup nodes)
  unfolding firewall_step
  firewall_step-Stable nodes = record { same = λ p. refl }

  gather-Stable :
      (outbounds : List Outbound) (nodes : List Node) → Stable (gather setup outbounds nodes)
  unfolding gather
  gather-Stable outbounds [] = search stable_rules
  gather-Stable outbounds (node ∷ nodes) =
      Stable-bind _ _ (Stable-query _ _)
        λ own. Stable-bind _ _ (gather-Stable outbounds nodes) λ rest. Stable-pure _

  with_endpoint-Stable :
      (landing : Landing) (items : List Item) (e : Option Endpoint)
      → Stable (with_endpoint setup landing items e)
  with_endpoint-Stable landing items none = search stable_rules
  with_endpoint-Stable landing items (some e) = search stable_rules

  ai_routing-Stable :
      (items : List Item) (landing : Option Landing) → Stable (ai_routing setup items landing)
  unfolding ai_routing
  ai_routing-Stable items none = search stable_rules
  ai_routing-Stable items (some landing) = search (stable_rules, with_endpoint-Stable)

  report-Stable : {A : Type 0} (code : String) (f : Fault) → Stable (report setup {A = A} code f)
  unfolding report
  report-Stable code f = search stable_rules

  on_host-Stable : (f : Host → Bool × Host) (fault : Fault) → Stable (on_host setup f fault)
  on_host-Stable f fault = record { same = λ p. refl }

  generated-Stable : (config : Option Text) → Stable (generated setup config)
  unfolding generated
  generated-Stable none = report-Stable _ _
  generated-Stable (some config) = search stable_rules

  apply_runtime-Stable :
      (items : List TemporaryNode) (run : Option (List TemporaryNode → Host → Bool × Host))
      → Stable (apply_runtime setup items run)
  unfolding apply_runtime
  apply_runtime-Stable items none = search stable_rules
  apply_runtime-Stable items (some run) = search (stable_rules, on_host-Stable, report-Stable)

  deploy-Stable :
      (items : List Item) (temporary : List TemporaryNode) (config : Text)
      → Stable (deploy setup items temporary config)
  unfolding deploy
  deploy-Stable items temporary config =
      search (stable_rules, on_host-Stable, report-Stable, apply_runtime-Stable) depth 9

  pub reconcile-Stable : Stable (reconcile setup)
  unfolding reconcile
  reconcile-Stable =
      search
        (
          stable_rules, firewall_step-Stable, gather-Stable, ai_routing-Stable, generated-Stable,
          deploy-Stable,
        )
        depth 12
