-- ===== src/Monitor/Tests.antt =====
-- Runs of internal/monitor on concrete inputs, and the theorems at those inputs.
use Prim.Native.Nat.{ℕ, ◌+◌, ◌≤◌}
use mathlib.Core.Path.{◌≡◌, refl}
use mathlib.Core.Bool.{Bool, true, false}
use mathlib.Core.List.{List, [], ◌∷◌, map}
use mathlib.Core.Option.{some}
use native.Mathlib.Omega.{arith}
use j_ui.Base.{◌==◌, nat_equality}
use j_ui.Base.Map.{lookup, insert}
use j_ui.Base.Scan.{fields, split}
use j_ui.Base.Text.{Text, codes, text_same, strip_suffix, strip_prefix, is_space}
use j_ui.Model.{Node}
use j_ui.Node.Panel.{Listener}
use j_ui.Monitor.{
  CpuTimes, Usage, cpu_times, parse_memory, memory_values, uint_value, uint_loop, sum_words,
  value_at, percent,
}
use j_ui.Monitor.Bounds
use j_ui.Monitor.Summary.{all_healthy, bulk_summary, single_summary, exit_summary}
use j_ui.Monitor.Summary.Bulk
use j_ui.Monitor.Summary.Counts

-- A percentage without its fraction.
abbrev percentage : ℕ → ℕ → ℕ × ℕ
percentage a b = (a, b)

abbrev meminfo : Text
meminfo = codes "MemTotal: 8 kB\nMemFree: 1 kB\nMemAvailable: 3 kB"

abbrev usage : Usage (ℕ × ℕ) (0, 1) percentage
usage = record { total = 8192; used = 5120; percent = (5120, 8192) }

usage_lem : parse_memory (ℕ × ℕ) (0, 1) percentage meminfo ≡ some usage
unfolding parse_memory memory_values uint_value uint_loop percent fields split lookup insert
    text_same strip_suffix is_space strip_prefix
usage_lem = refl

parse_memory-le_example :
    (1 ≤ usage.total)
    × (usage.total ≡ Bounds.memory_value "MemTotal" meminfo)
    × (usage.used + Bounds.memory_value "MemAvailable" meminfo ≡ usage.total)
    × (usage.used ≤ usage.total)
    × (usage.percent ≡ percentage usage.used usage.total)
parse_memory-le_example = Bounds.parse_memory-le (ℕ × ℕ) (0, 1) percentage meminfo usage usage_lem

abbrev counters : List ℕ
counters = 10 ∷ 0 ∷ 5 ∷ 80 ∷ 5 ∷ []

abbrev times : CpuTimes
times = record { total = 100; idle = 85 }

times_lem : cpu_times (some counters) ≡ some times
unfolding sum_words value_at
times_lem = refl

cpu_times-le_example : (times.total ≡ Bounds.sum counters) × (times.idle ≤ times.total)
cpu_times-le_example = Bounds.cpu_times-le counters times (omega arith) times_lem

abbrev node : ℕ → Bool → Node
node port enabled = record {
  id = port;
  name = codes "node";
  protocol = "tuic";
  listen = codes "::";
  port = port;
  enabled = enabled;
  public_host_override = [];
  outbound_id = some 1;
  settings = [];
  secret = [];
  status = "running";
}

abbrev nodes : List Node
nodes = node 1 true ∷ node 2 false ∷ node 3 true ∷ []

abbrev up : Listener → Bool
up l = l.port == 1

bulk_summary-single_example :
    bulk_summary true (λ listeners. some (map up listeners)) nodes
    ≡ some (single_summary true (λ listeners. all_healthy (map up listeners)) nodes)
bulk_summary-single_example = Bulk.bulk_summary-single up true nodes

exit_summary-le_example :
    (let r = exit_summary ("running" ∷ "faulted" ∷ "stopped" ∷ []) in
      (r.running + r.faulted ≤ r.total) × (r.total ≡ 3))
exit_summary-le_example = Counts.exit_summary-le ("running" ∷ "faulted" ∷ "stopped" ∷ [])
