-- ===== src/Engine/Summary.antt =====
-- The counts of nodes that `Snapshot` of internal/monitor/service.go takes from the engine of the system.
use Prim.Native.Nat.{◌≤◌}
use mathlib.Core.Path.{◌≡◌}
use mathlib.Core.Logic.{◌⊎◌}
use mathlib.Core.Bool.{Bool, true}
use mathlib.Core.List.{List}
use mathlib.Core.Option.{Option, some}
use j_ui.Base.{length}
use j_ui.Base.Text.{Text}
use j_ui.Engine.Sockets.{listener_statuses}
use j_ui.Engine.Sockets.Owners.{length-listener_statuses}
use j_ui.Firewall.{Runner, Shell}
use j_ui.Model.{Node}
use j_ui.Monitor.Summary.{NodeSummary, enabled_listeners, bulk_summary}
use j_ui.Monitor.Summary.Counts.{enabled_count, bulk_summary-le}
use j_ui.Node.Panel.{Listener}

module _ {Address : Type 0} (parse : Text → Option Address) (unspecified four : Address → Bool)
    (equal : Address → Address → Bool) {Host : Type 0} (runner : Runner Host) (unit : Text)
    (shell : Shell Host) where
  -- What `ListenerStatuses` answers on this host.
  abbrev pub answer : List Listener → Option (List Bool)
  answer listeners = (listener_statuses parse unspecified four equal runner unit listeners shell).0

  -- With `ListenerStatuses` of `System`, whatever its commands answer, `Snapshot` always counts the
  -- nodes: no slice of the answer is out of range, `enabled` is the number of enabled nodes, no more
  -- are faulted than enabled and no more enabled than there are. All enabled nodes are faulted unless
  -- the engine is healthy and the check of their listeners succeeds.
  pub system_summary-le :
      (engine_healthy : Bool) (nodes : List Node)
      → (r : NodeSummary) × (bulk_summary engine_healthy answer nodes ≡ some r)
        × (r.total ≡ length nodes)
        × (r.enabled ≡ enabled_count nodes)
        × (r.faulted ≤ r.enabled)
        × (r.enabled ≤ r.total)
        × ((r.faulted ≡ r.enabled)
            ⊎ ((engine_healthy ≡ true)
                × ((statuses : List Bool) × (answer (enabled_listeners nodes) ≡ some statuses))))
  system_summary-le engine_healthy nodes =
      bulk_summary-le engine_healthy answer
        (λ listeners statuses.
          length-listener_statuses parse unspecified four equal runner unit listeners shell
            statuses)
        nodes
