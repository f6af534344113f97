-- ===== src/Monitor/Summary/Counts.antt =====
-- Bounds on the counts of nodes and exits.
use Prim.Native.Nat.{ℕ, suc, ◌+◌, ◌-◌, ◌≤◌}
use Prim.Native.String.{String}
use mathlib.Core.Path.{◌≡◌, refl}
use mathlib.Core.Logic.{◌⊎◌, inl, inr}
use mathlib.Core.Bool.{Bool, true, false, ◌&&◌}
use mathlib.Core.List.{List, [], ◌∷◌}
use mathlib.Core.Option.{Option, none, some}
use native.Mathlib.Omega.{arith}
use j_ui.Base.{
  ◌==◌, leb, if◌then◌else◌, string_equality, length, length-append, Bool-cases, Option-cases,
}
use j_ui.Model.{Node}
use j_ui.Node.Panel.{Listener}
use j_ui.Monitor.Summary.{
  NodeSummary, ExitSummary, add_node, empty_summary, all_healthy, drop, take, slice, from_bulk,
  listeners_if, enabled_listeners, ranges_from, count_bulk, zip, ask_bulk, bulk_summary,
  count_exits, exit_summary,
}

abbrev pub enabled_count : List Node → ℕ
enabled_count [] = 0
enabled_count (node ∷ nodes) =
    if node.enabled then suc (enabled_count nodes) else enabled_count nodes

enabled_count-le : (nodes : List Node) → enabled_count nodes ≤ length nodes
enabled_count-le [] = omega arith
enabled_count-le (node ∷ nodes) = ground (arith, enabled_count-le nodes)

-- Where there is an answer, it covers a number of listeners.
abbrev Covers : Option (List Bool) → ℕ → Type 0
Covers none n = Unit
Covers (some statuses) n = n ≤ length statuses

Covers-le :
    (statuses : Option (List Bool)) (n m : ℕ) → m ≤ n → Covers statuses n → Covers statuses m
Covers-le none n m h c = tt
Covers-le (some statuses) n m h c = omega (arith, h, c)

-- A slice within the answer is found.
from_bulk_cases :
    (statuses : Option (List Bool)) (start end : ℕ)
    → Covers statuses end
    → (healthy : Bool) × (from_bulk (start, end) statuses ≡ some healthy)
      × ((statuses ≡ none) × (healthy ≡ false) ⊎ ((answer : List Bool) × (statuses ≡ some answer)))
unfolding slice
from_bulk_cases none start end c = (false, refl, inl (refl, refl))
from_bulk_cases (some statuses) start end c =
    let fits : leb end (length statuses) ≡ true = ground (arith, c) in
    (
      all_healthy (take (end - start) (drop start statuses)),
      rw (fits, from_bulk) refl,
      inr (statuses, refl),
    )

-- The engine is healthy and the check of its listeners answered.
abbrev Asked : Bool → Option (List Bool) → Type 0
Asked engine_healthy statuses =
    (engine_healthy ≡ true) × ((answer : List Bool) × (statuses ≡ some answer))

node_cases :
    (on engine_healthy : Bool) (statuses : Option (List Bool)) (start end : ℕ)
    → Covers statuses end
    → (healthy : Bool) × ((if on && engine_healthy
          then from_bulk (start, end) statuses
          else some engine_healthy)
        ≡ some healthy)
      × ((healthy ≡ false) ⊎ (on ≡ false) ⊎ Asked engine_healthy statuses)
node_cases true true statuses start end c =
    let (healthy, e, k) = from_bulk_cases statuses start end c in
    (healthy, e, elim k [ inl (n, f) ↦ inl f | inr a ↦ inr (inr (refl, a)) ])
node_cases true false statuses start end c = (false, refl, inl refl)
node_cases false engine_healthy statuses start end c = (engine_healthy, refl, inr (inl refl))

-- How far the counts of a summary are from those of another.
record IsCounted (s r : NodeSummary) (n : ℕ) (asked : Type 0) : Type 0 where
  total : r.total ≡ s.total
  enabled : r.enabled ≡ s.enabled + n
  faulted : r.faulted ≤ s.faulted + n
  exact : (r.faulted ≡ s.faulted + n) ⊎ asked

IsCounted-add_node :
    {asked : Type 0} (node : Node) (healthy : Bool) (s r : NodeSummary) (n : ℕ)
    → (healthy ≡ false) ⊎ (node.enabled ≡ false) ⊎ asked
    → IsCounted (add_node node healthy s) r n asked
    → IsCounted s r (if node.enabled then suc n else n) asked
IsCounted-add_node node healthy s r n k c = record {
  total = c.total;
  enabled = ground (arith, c.enabled);
  faulted = ground (arith, c.faulted);
  exact = elim c.exact [
    | inr a ↦ inr a
    | inl e ↦ elim k [
      | inl sick ↦ inl (ground (arith, e, sick))
      | inr (inl off) ↦ inl (ground (arith, e, off))
      | inr (inr a) ↦ inr a
    ]
  ];
}

count_bulk-IsCounted :
    (engine_healthy : Bool) (statuses : Option (List Bool)) (nodes : List Node) (start : ℕ)
    (s : NodeSummary)
    → Covers statuses (start + length (enabled_listeners nodes))
    → (r : NodeSummary) × (count_bulk engine_healthy statuses
          (zip nodes (ranges_from start nodes))
          s
        ≡ some r)
      × IsCounted s r (enabled_count nodes) (Asked engine_healthy statuses)
unfolding count_bulk ranges_from enabled_listeners
count_bulk-IsCounted engine_healthy statuses [] start s c = (
  s,
  refl,
  record { total = refl; enabled = omega arith; faulted = omega arith; exact = inl (omega arith) },
)
count_bulk-IsCounted engine_healthy statuses (node ∷ nodes) start s c =
    let own = listeners_if node in
    let end = start + length own in
    let more = enabled_listeners nodes in
    let (healthy, e, k) =
      node_cases node.enabled engine_healthy statuses start end
        (Covers-le statuses _ end (omega (arith, length-append own more)) c) in
    let (r, e', counted) =
      count_bulk-IsCounted engine_healthy statuses nodes end (add_node node healthy s)
        (Covers-le statuses _ (end + length more) (omega (arith, length-append own more)) c) in
    (r, rw (count_bulk, e) e', IsCounted-add_node node healthy s r (enabled_count nodes) k counted)

ask_bulk-Covers :
    (engine_healthy : Bool) (check : List Listener → Option (List Bool))
    → ((listeners : List Listener) (statuses : List Bool)
        → check listeners ≡ some statuses
        → length statuses ≡ length listeners)
    → (listeners : List Listener)
    → Covers (ask_bulk engine_healthy check listeners) (length listeners)
ask_bulk-Covers engine_healthy check full [] = tt
ask_bulk-Covers false check full (l ∷ listeners) = tt
ask_bulk-Covers true check full (l ∷ listeners) = elim (Option-cases (check (l ∷ listeners))) [
  | inl failed ↦ rw failed tt
  | inr (statuses, e) ↦ rw e (omega (arith, full (l ∷ listeners) statuses e))
]

ask_bulk-Asked :
    (engine_healthy : Bool) (check : List Listener → Option (List Bool)) (listeners : List Listener)
    → Asked engine_healthy (ask_bulk engine_healthy check listeners)
    → Asked engine_healthy (check listeners)
ask_bulk-Asked engine_healthy check [] (h, (answer, e)) = absurd (ground (arith, e))
ask_bulk-Asked engine_healthy check (l ∷ listeners) (h, (answer, e)) = (h, (answer, rw h at e))

-- The counts from a check that answers for each listener.
pub bulk_summary-le :
    (engine_healthy : Bool) (check : List Listener → Option (List Bool))
    → ((listeners : List Listener) (statuses : List Bool)
        → check listeners ≡ some statuses
        → length statuses ≡ length listeners)
    → (nodes : List Node)
    → (r : NodeSummary) × (bulk_summary engine_healthy check nodes ≡ some r)
      × (r.total ≡ length nodes)
      × (r.enabled ≡ enabled_count nodes)
      × (r.faulted ≤ r.enabled)
      × (r.enabled ≤ r.total)
      × ((r.faulted ≡ r.enabled)
          ⊎ ((engine_healthy ≡ true)
              × ((statuses : List Bool) × (check (enabled_listeners nodes) ≡ some statuses))))
unfolding bulk_summary
bulk_summary-le engine_healthy check full nodes =
    let listeners = enabled_listeners nodes in
    let (r, e, c) =
      count_bulk-IsCounted engine_healthy (ask_bulk engine_healthy check listeners) nodes 0
        (empty_summary nodes)
        (Covers-le (ask_bulk engine_healthy check listeners) _ _ (omega arith)
          (ask_bulk-Covers engine_healthy check full listeners)) in
    (
      r,
      e,
      c.total,
      omega (arith, c.enabled),
      omega (arith, c.enabled, c.faulted),
      omega (arith, c.enabled, c.total, enabled_count-le nodes),
      elim c.exact [
        | inl all ↦ inl (omega (arith, all, c.enabled))
        | inr asked ↦ inr (ask_bulk-Asked engine_healthy check listeners asked)
      ],
    )

count_exits-le :
    (statuses : List String) (s : ExitSummary)
    → (let r = count_exits statuses s in
        (r.running + r.faulted ≤ s.running + s.faulted + length statuses) × (r.total ≡ s.total))
unfolding count_exits
count_exits-le [] s = (omega arith, refl)
count_exits-le (status ∷ statuses) s = elim (Bool-cases (status == "running")) [
  | inl runs ↦
      let rest = count_exits-le statuses (record s { running = suc s.running }) in
      rw (runs, count_exits) (omega (arith, rest.0), rest.1)
  | inr other ↦ elim (Bool-cases (status == "faulted")) [
    | inl fails ↦
        let rest = count_exits-le statuses (record s { faulted = suc s.faulted }) in
        rw (other, fails, count_exits) (omega (arith, rest.0), rest.1)
    | inr neither ↦
        let rest = count_exits-le statuses s in
        rw (other, neither, count_exits) (omega (arith, rest.0), rest.1)
  ]
]

-- In the summary of the exits, those that run and those that are faulted are no more than there are.
pub exit_summary-le :
    (statuses : List String)
    → (let r = exit_summary statuses in
        (r.running + r.faulted ≤ r.total) × (r.total ≡ length statuses))
unfolding exit_summary
exit_summary-le statuses =
    let rest =
      count_exits-le statuses (record { total = length statuses; running = 0; faulted = 0 }) in
    (omega (arith, rest.0, rest.1), rest.1)
