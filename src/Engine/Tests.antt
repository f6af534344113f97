-- ===== src/Engine/Tests.antt =====
-- Runs of internal/engine on concrete inputs, and the theorems at those inputs.
use Prim.Native.Nat.{ℕ, ◌≤◌}
use mathlib.Core.Path.{◌≡◌, refl}
use mathlib.Core.Logic.{◌⊎◌}
use mathlib.Core.Bool.{Bool, true, false}
use mathlib.Core.List.{List, [], ◌∷◌}
use mathlib.Core.Option.{Option, none, some}
use j_ui.Base.{◌==◌, nat_equality, if◌then◌else◌, length}
use j_ui.Base.Int.{atoi, digits_value, parse_uint, signed}
use j_ui.Base.Run.{pure, ◌>>=◌}
use j_ui.Base.Scan.{fields, split}
use j_ui.Base.Text.{
  Text, codes, text_equality, text_same, strip_prefix, after_first, is_space, trim_left, trim_space,
}
use j_ui.Engine.Sockets.{
  begins_with, owned_loop, socket_owned_by_pid, last_split, int_value_is, socket_port_is, bare_host,
  socket_host_matches, shows, any_shows, match_listeners, unit_or_default, listener_statuses,
}
use j_ui.Engine.Sockets.Owners
use j_ui.Engine.Summary
use j_ui.Firewall.{Runner, command}
use j_ui.Model.{Node}
use j_ui.Monitor.Summary.{NodeSummary, enabled_listeners, bulk_summary}
use j_ui.Monitor.Summary.Counts.{enabled_count}
use j_ui.Monitor.{uint_value, uint_loop}
use j_ui.Node.Panel.{Listener}

abbrev line : Text
line = codes "udp UNCONN 0 0 *:443 *:* users:((\"sing-box\",pid=123,fd=7))"

socket_owned_by_pid-names_example : socket_owned_by_pid line 12 ≡ Owners.names 12 line
socket_owned_by_pid-names_example = Owners.socket_owned_by_pid-names line 12

owned_by_123 : socket_owned_by_pid line 123 ≡ true
unfolding socket_owned_by_pid owned_loop begins_with after_first strip_prefix atoi parse_uint
    digits_value signed
owned_by_123 = refl

not_owned_by_12 : socket_owned_by_pid line 12 ≡ false
unfolding socket_owned_by_pid owned_loop begins_with after_first strip_prefix atoi parse_uint
    digits_value signed
not_owned_by_12 = refl

-- A host whose sing-box is process 123.
abbrev run : List Text → Unit {0} → Option Text × Unit {0}
run [] h = (none, h)
run (name ∷ words) h =
    if text_same name (codes "ss") then (some line, h) else (some (codes "123\n"), h)

abbrev runner : Runner (Unit {0})
runner = record { run = run; finds = λ name h. true }

abbrev listener : ℕ → Listener
listener port = record { network = "udp"; host = codes "::"; port = port }

-- No text is an address, so hosts are compared as texts.
statuses_lem :
    (listener_statuses {Address = ℕ}
      (λ text. none)
      (λ a. false)
      (λ a. false)
      (λ a b. a == b)
      runner
      []
      (listener 443 ∷ listener 8443 ∷ [])
      (record { host = tt; log = [] })).0
    ≡ some (true ∷ false ∷ [])
unfolding listener_statuses unit_or_default trim_space trim_left is_space atoi parse_uint
    digits_value signed split match_listeners any_shows shows fields text_same socket_port_is
    socket_host_matches bare_host last_split int_value_is uint_value uint_loop socket_owned_by_pid
    owned_loop begins_with after_first strip_prefix command pure ◌>>=◌
statuses_lem = refl

abbrev node : ℕ → Bool → Node
node port enabled = record {
  id = port;
  name = codes "node";
  protocol = "tuic";
  listen = codes "::";
  port = port;
  enabled = enabled;
  public_host_override = [];
  outbound_id = none;
  settings = [];
  secret = [];
  status = "running";
}

abbrev nodes : List Node
nodes = node 443 true ∷ node 2 false ∷ node 8443 true ∷ []

abbrev check : List Listener → Option (List Bool)
check =
    Summary.answer {Address = ℕ} (λ text. none) (λ a. false) (λ a. false) (λ a b. a == b) runner []
      (record { host = tt; log = [] })

system_summary-le_example :
    (r : NodeSummary) × (bulk_summary true check nodes ≡ some r)
    × (r.total ≡ length nodes)
    × (r.enabled ≡ enabled_count nodes)
    × (r.faulted ≤ r.enabled)
    × (r.enabled ≤ r.total)
    × ((r.faulted ≡ r.enabled)
        ⊎ ((true ≡ true)
            × ((statuses : List Bool) × (check (enabled_listeners nodes) ≡ some statuses))))
system_summary-le_example =
    Summary.system_summary-le {Address = ℕ} (λ text. none) (λ a. false) (λ a. false) (λ a b. a == b)
      runner [] (record { host = tt; log = [] }) true nodes
