-- ===== src/Monitor/Summary.antt =====
-- The counts of nodes and exits in `Snapshot` of internal/monitor/service.go. The engine may check all
-- listeners at once, and then each node takes its part of the answer.
pub mod Bulk
pub mod Counts
use Prim.Native.Nat.{ℕ, zero, suc, ◌+◌, ◌-◌}
use Prim.Native.String.{String}
use mathlib.Core.Bool.{Bool, true, false, not, ◌&&◌, ◌||◌}
use mathlib.Core.List.{List, [], ◌∷◌, ◌++◌}
use mathlib.Core.Option.{Option, none, some}
use j_ui.Base.{◌==◌, leb, if◌then◌else◌, string_equality, length}
use j_ui.Model.{Node}
use j_ui.Model.Protocol.{hysteria2, tuic}
use j_ui.Node.Panel.{Listener}

pub record NodeSummary : Type 0 where
  pub total : ℕ
  pub enabled : ℕ
  pub faulted : ℕ

pub record ExitSummary : Type 0 where
  pub total : ℕ
  pub running : ℕ
  pub faulted : ℕ

unfoldable pub count_exits : List String → ExitSummary → ExitSummary
count_exits [] summary = summary
count_exits (status ∷ statuses) summary = count_exits statuses (
    if status == "running"
    then record summary { running = suc summary.running }
    else if status == "faulted"
    then record summary { faulted = suc summary.faulted }
    else summary)

-- The summary of the exits, from their statuses.
unfoldable pub exit_summary : List String → ExitSummary
unfolding count_exits
exit_summary statuses =
    count_exits statuses (record { total = length statuses; running = 0; faulted = 0 })

-- The state of OpenVPN that the summary shows.
unfoldable pub openvpn_state : ExitSummary → String
openvpn_state summary =
    if leb 1 summary.faulted
    then "degraded"
    else if leb 1 summary.running
    then "active"
    else if leb 1 summary.total
    then "inactive"
    else "not-configured"

unfoldable pub all_healthy : List Bool → Bool
all_healthy [] = true
all_healthy (healthy ∷ statuses) = if not healthy then false else all_healthy statuses

unfoldable pub node_listeners : Node → List Listener
node_listeners node =
    record {
      network = if node.protocol == hysteria2 || node.protocol == tuic then "udp" else "tcp";
      host = node.listen;
      port = node.port;
    }
    ∷ []

abbrev pub listeners_if : Node → List Listener
listeners_if node = if node.enabled then node_listeners node else []

unfoldable pub enabled_listeners : List Node → List Listener
unfolding node_listeners
enabled_listeners [] = []
enabled_listeners (node ∷ nodes) = listeners_if node ++ enabled_listeners nodes

-- Where the listeners of each node begin and end in the list of all.
unfoldable pub ranges_from : ℕ → List Node → List (ℕ × ℕ)
unfolding node_listeners
ranges_from start [] = []
ranges_from start (node ∷ nodes) =
    let end = start + length (listeners_if node) in (start, end) ∷ ranges_from end nodes

abbrev pub drop : ℕ → List Bool → List Bool
drop zero xs = xs
drop (suc n) [] = []
drop (suc n) (x ∷ xs) = drop n xs

abbrev pub take : ℕ → List Bool → List Bool
take zero xs = []
take (suc n) [] = []
take (suc n) (x ∷ xs) = x ∷ take n xs

-- `statuses[start:end]`; an end beyond the list is a panic.
unfoldable pub slice : ℕ × ℕ → List Bool → Option (List Bool)
slice (start, end) statuses =
    if leb end (length statuses) then some (take (end - start) (drop start statuses)) else none

-- What the bulk check says of one node; `none` outside is the panic, `none` inside the nil slice.
abbrev pub from_bulk : ℕ × ℕ → Option (List Bool) → Option Bool
from_bulk range none = some false
from_bulk range (some statuses) = elim (slice range statuses) [
  | none ↦ none
  | some part ↦ some (all_healthy part)
]

-- Enabled and faulted nodes, from a check of each.
abbrev pub add_node : Node → Bool → NodeSummary → NodeSummary
add_node node healthy summary = record summary {
  enabled = if node.enabled then suc summary.enabled else summary.enabled;
  faulted = if node.enabled && not healthy then suc summary.faulted else summary.faulted;
}

abbrev pub empty_summary : List Node → NodeSummary
empty_summary nodes = record { total = length nodes; enabled = 0; faulted = 0 }

-- With one check per node: `check` is `ListenersHealthy`.
unfoldable pub count_single : Bool → (List Listener → Bool) → List Node → NodeSummary → NodeSummary
unfolding node_listeners
count_single engine_healthy check [] summary = summary
count_single engine_healthy check (node ∷ nodes) summary = count_single engine_healthy check nodes (
    add_node node
      (if node.enabled && engine_healthy then check (node_listeners node) else engine_healthy)
      summary)

unfoldable pub count_bulk :
    Bool → Option (List Bool) → List (Node × (ℕ × ℕ)) → NodeSummary → Option NodeSummary
count_bulk engine_healthy statuses [] summary = some summary
count_bulk engine_healthy statuses ((node, range) ∷ nodes) summary =
    let answer =
      if node.enabled && engine_healthy then from_bulk range statuses else some engine_healthy in
    elim answer [
      | none ↦ none
      | some healthy ↦ count_bulk engine_healthy statuses nodes (add_node node healthy summary)
    ]

abbrev pub zip : List Node → List (ℕ × ℕ) → List (Node × (ℕ × ℕ))
zip [] ranges = []
zip (node ∷ nodes) [] = []
zip (node ∷ nodes) (range ∷ ranges) = (node, range) ∷ zip nodes ranges

abbrev pub ask_bulk :
    Bool → (List Listener → Option (List Bool)) → List Listener → Option (List Bool)
ask_bulk engine_healthy check [] = none
ask_bulk engine_healthy check (l ∷ listeners) =
    if engine_healthy then check (l ∷ listeners) else none

-- The summary with one check per node, and with one check for all: `check` is `ListenerStatuses`.
unfoldable pub single_summary : Bool → (List Listener → Bool) → List Node → NodeSummary
unfolding count_single
single_summary engine_healthy check nodes =
    count_single engine_healthy check nodes (empty_summary nodes)

unfoldable pub bulk_summary :
    Bool → (List Listener → Option (List Bool)) → List Node → Option NodeSummary
unfolding enabled_listeners ranges_from count_bulk
bulk_summary engine_healthy check nodes =
    count_bulk engine_healthy (ask_bulk engine_healthy check (enabled_listeners nodes))
      (zip nodes (ranges_from 0 nodes)) (empty_summary nodes)
