-- ===== src/Node/Tests.antt =====
-- Runs of internal/node on concrete inputs, and the theorems at those inputs.
use Prim.Native.Nat.{ℕ, ◌≤◌, ◌<◌}
use Prim.Native.String.{String}
use mathlib.Core.Path.{◌≡◌, refl, ap}
use mathlib.Core.Logic.{◌⊎◌, ◌≢◌, inl}
use mathlib.Core.Bool.{Bool, true, false, not}
use mathlib.Core.List.{List, [], ◌∷◌}
use mathlib.Core.Option.{none, some}
use native.Mathlib.Omega.{arith}
use j_ui.Base.{◌==◌, if◌then◌else◌, elem, nat_equality}
use j_ui.Base.Map.{Map, lookup, insert, has}
use j_ui.Base.Text.{
  text_before, Text, codes, text_equality, text_same, itoa, digits_of, strip_prefix, strip_suffix,
}
use j_ui.Model.{Node}
use j_ui.Node.Ports.{
  refused, argo_conflict, planned, plan_ports, allocate, reserve_argo, managed_listeners,
  is_managed, can_move_to, port_for, or_no_port, move_to, rename_port, next_protocol_port,
  next_configured_port, firewall_protocols, scan_ports, pick_port, port_settings, set_start_answer,
  used_ports,
}
use j_ui.Node.Ports.Search
use j_ui.Node.Ports.Answer
use j_ui.Node.Ports.Moves
use j_ui.Node.Ports.Conflict
use j_ui.Node.Sync.Trace.{Inv}
use j_ui.Node.Sync.Safety
use j_ui.Node.Sync.Entries
use j_ui.Node.Sync.Cleanup.Laws as CleanupLaws
use j_ui.Node.Sync.Cleanup.{add_missing, unique_rules, close_all, cleanup_firewall}
use j_ui.Node.Sync.Keys
use j_ui.Base.Transport.{IsTransport}
use j_ui.Node.Sync.Success
use j_ui.Node.Sync.{
  ok, World, Manager, ensured, closed, firewall_rule_key, want, insert_by_key, in_key_order,
  tracked_set, desired_rules, statement, managed_firewall_rules, ask_backend, close, close_quietly,
  ensure, drop_rule, drop_stale, leave_backend, settle_opening, open_rule, open_wanted, open_all,
  verify, sync_rules, sync_firewall,
}
use j_ui.Store.Rules.{
  Rule, is_rule, owned, borrowed, ufw, find_rule, is_tracked, track_firewall_rule, insert_rule,
  forget_firewall_rule, set_firewall_rule_ownership, update_rule,
}

abbrev node : ℕ → String → String → ℕ → Node
node id name protocol port = record {
  id = id;
  name = codes name;
  protocol = protocol;
  listen = codes "::";
  port = port;
  enabled = true;
  public_host_override = [];
  outbound_id = none;
  settings = [];
  secret = [];
  status = "running";
}

abbrev nodes : List Node
nodes =
    node 1 "hy_9000" "hysteria2" 9000
    ∷ node 2 "argo" "vless_argo" 8881
    ∷ node 3 "hy9001" "tuic" 9001
    ∷ []

-- Port 8882 belongs to another program.
abbrev open_port : String → Text → ℕ → Bool
open_port network listen port = not (port == 8882)

abbrev moved : List Node
moved =
    record (node 1 "hy_8883" "hysteria2" 8883) { status = "pending" }
    ∷ record (node 2 "argo" "vless_argo" 8881) { status = "pending" }
    ∷ record (node 3 "hy9001" "tuic" 8884) { status = "pending" }
    ∷ []

moved_lem : plan_ports open_port 8881 nodes ≡ planned moved
unfolding plan_ports allocate reserve_argo managed_listeners is_managed can_move_to port_for
    or_no_port move_to rename_port next_protocol_port firewall_protocols scan_ports pick_port itoa
    digits_of strip_prefix strip_suffix text_same
moved_lem = refl

plan_ports_example :
    Moves.DistinctPorts moved × Moves.AllMoved open_port 8881 (managed_listeners nodes) nodes moved
plan_ports_example = Moves.plan_ports_lem open_port 8881 nodes moved (omega arith) moved_lem

next_configured_port_example :
    ((port : ℕ) × (next_configured_port 8881 nodes ≡ some port)
      × Search.IsFirst 8881 65536 (λ p. not (elem p (used_ports nodes))) port)
    ⊎ ((next_configured_port 8881 nodes ≡ none)
        × ((p : ℕ) → 8881 ≤ p → p < 65536 → elem p (used_ports nodes) ≡ true))
next_configured_port_example = Search.next_configured_port_lem 8881 nodes (omega arith)

set_start_answer_example :
    (port_settings 8000 (node 2 "argo" "vless_argo" 8881 ∷ [])
      ≡ some (record { start_port = 8000; next_port = 8000 }))
    × ((set_start_answer 8000 (node 2 "argo" "vless_argo" 8881 ∷ [])).next_port ≢ 8000)
set_start_answer_example =
    Answer.set_start_answer-ne 8000 (node 2 "argo" "vless_argo" 8881) [] (omega arith) refl

-- A firewall that opens and closes what it is asked to.
abbrev obliging : Manager (Unit {0})
obliging = record {
  backend = λ h. (some ufw, h);
  ensure = λ p n h. (some (record { ownership = owned; backend = ufw }), h);
  close = λ p n b h. (true, h);
}

-- The seventh statement fails.
abbrev seventh : ℕ → Bool
seventh n = n == 6

abbrev tracked : List Rule
tracked =
    record { protocol = "tcp"; port = 22; ownership = borrowed; backend = ufw }
    ∷ record { protocol = "tcp"; port = 9000; ownership = owned; backend = ufw }
    ∷ []

abbrev before : World (Unit {0})
before = record { rules = tracked; host = tt; verified = false; ticks = 0; calls = [] }

abbrev local_listen : Text → Bool
local_listen listen = listen == codes "127.0.0.1"

before-IsTable :
    (find_rule "tcp" 22 tracked
      ≡ some (record { protocol = "tcp"; port = 22; ownership = borrowed; backend = ufw }))
    × ((find_rule "tcp" 9000 tracked
          ≡ some (record { protocol = "tcp"; port = 9000; ownership = owned; backend = ufw }))
        × Unit {0})
unfolding find_rule
before-IsTable = (refl, (refl, tt))

sync_firewall_example : Inv tracked (sync_firewall obliging seventh local_listen nodes before).1
sync_firewall_example =
    Safety.sync_firewall-Inv obliging seventh local_listen nodes before refl before-IsTable

-- The failed statement leaves the rule that was tracked before the opening.
interrupted :
    ((sync_firewall obliging seventh local_listen nodes before).1).calls
    ≡ ensured "udp" 9000 (some (record { ownership = owned; backend = ufw }))
      ∷ ensured "tcp" 8881 (some (record { ownership = owned; backend = ufw }))
      ∷ closed "tcp" 9000 ufw true
      ∷ []
unfolding sync_firewall sync_rules desired_rules want firewall_protocols firewall_rule_key itoa
    digits_of text_same text_before insert_by_key in_key_order tracked_set statement
    managed_firewall_rules ask_backend close close_quietly ensure drop_rule drop_stale leave_backend
    settle_opening open_rule open_wanted open_all verify lookup insert has find_rule is_tracked
    track_firewall_rule insert_rule forget_firewall_rule set_firewall_rule_ownership update_rule
interrupted = refl

-- No statement fails.
abbrev never : ℕ → Bool
never n = false

undisturbed : (sync_firewall obliging never local_listen nodes before).0 ≡ ok tt
unfolding sync_firewall sync_rules desired_rules want firewall_protocols firewall_rule_key itoa
    digits_of text_same text_before insert_by_key in_key_order tracked_set statement
    managed_firewall_rules ask_backend close close_quietly ensure drop_rule drop_stale leave_backend
    settle_opening open_rule open_wanted open_all verify lookup insert has find_rule is_tracked
    track_firewall_rule insert_rule forget_firewall_rule set_firewall_rule_ownership update_rule
undisturbed = refl

sync_firewall-tracked_example :
    ((p : String) (n : ℕ)
      → IsTransport p
      → is_tracked p n (sync_firewall obliging never local_listen nodes before).1.rules
        ≡ Keys.is_wanted local_listen p n nodes)
    × ((sync_firewall obliging never local_listen nodes before).1.verified ≡ true)
sync_firewall-tracked_example =
    Success.sync_firewall-tracked obliging never local_listen nodes before before-IsTable
      (inl refl, (inl refl, tt)) undisturbed

abbrev in_order : Map Text Rule → List Rule
in_order [] = []
in_order (x ∷ m) = x.1 ∷ in_order m

in_order-every :
    (m : Map Text Rule) (p : String) (n : ℕ)
    → CleanupLaws.visits p n (in_order m) ≡ Entries.listed p n m
in_order-every [] p n = refl
in_order-every (x ∷ m) p n = ap (λ b. if is_rule p n x.1 then true else b) (in_order-every m p n)

cleaned : (cleanup_firewall obliging never in_order local_listen nodes before).0 ≡ []
unfolding cleanup_firewall close_all unique_rules add_missing firewall_protocols firewall_rule_key
    itoa digits_of text_same tracked_set statement managed_firewall_rules ask_backend close
    close_quietly ensure drop_rule drop_stale leave_backend settle_opening open_rule open_wanted
    open_all verify lookup insert has find_rule is_tracked track_firewall_rule insert_rule
    forget_firewall_rule set_firewall_rule_ownership update_rule
cleaned = refl

cleanup_firewall-tracked_example :
    is_tracked "tcp" 9000
      (cleanup_firewall obliging never in_order local_listen nodes before).1.rules
    ≡ false
cleanup_firewall-tracked_example =
    CleanupLaws.cleanup_firewall-tracked obliging never in_order local_listen nodes before
      in_order-every (inl refl, (inl refl, tt)) cleaned "tcp" 9000 (inl refl)

abbrev two_argo : List Node
two_argo = node 1 "a" "vless_argo" 8881 ∷ node 2 "b" "vless_argo" 8881 ∷ []

plan_ports_conflict_example :
    ((q : ℕ)
      → plan_ports open_port 8881 two_argo ≡ refused (argo_conflict q)
      → 2 ≤ Conflict.argo_count q two_argo)
    × (((q : ℕ) → Conflict.argo_count q two_argo ≤ 1)
        ⊎ ((q : ℕ) × (plan_ports open_port 8881 two_argo ≡ refused (argo_conflict q))
            × (2 ≤ Conflict.argo_count q two_argo)))
plan_ports_conflict_example = Conflict.plan_ports_conflict open_port 8881 two_argo
