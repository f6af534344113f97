-- ===== src/Monitor/Summary/Bulk.antt =====
-- One check of all listeners against one check for each node.
use Prim.Native.Nat.{ℕ, ◌+◌, ◌-◌}
use mathlib.Core.Path.{◌≡◌, refl, ◌∙◌, sym, ap}
use mathlib.Core.Logic.{◌⊎◌, inl, inr}
use mathlib.Core.Bool.{Bool, true, false, ◌&&◌}
use mathlib.Core.List.{List, [], ◌∷◌, ◌++◌, map, append_assoc}
use mathlib.Core.Option.{none, some}
use native.Mathlib.Omega.{arith}
use j_ui.Base.{leb, if◌then◌else◌, length, length-append}
use j_ui.Model.{Node}
use j_ui.Node.Panel.{Listener}
use j_ui.Monitor.Summary.{
  NodeSummary, all_healthy, node_listeners, listeners_if, enabled_listeners, ranges_from, drop,
  take, slice, from_bulk, add_node, count_single, count_bulk, zip, ask_bulk, single_summary,
  bulk_summary, empty_summary,
}

drop-append : (a b : List Bool) → drop (length a) (a ++ b) ≡ b
drop-append [] b = refl
drop-append (x ∷ a) b = drop-append a b

take-append : (a b : List Bool) → take (length a) (a ++ b) ≡ a
take-append [] b = refl
take-append (x ∷ a) b = ap (λ l. x ∷ l) (take-append a b)

-- The part in the middle of a list.
slice-append : (a m c : List Bool) → slice (length a, length a + length m) (a ++ (m ++ c)) ≡ some m
unfolding slice
slice-append a m c =
    let fits : leb (length a + length m) (length (a ++ (m ++ c))) ≡ true =
      ground (arith, length-append a (m ++ c), length-append m c) in
    let width : (length a + length m) - length a ≡ length m = omega arith in
    rw (fits, width, drop-append a (m ++ c), take-append m c) refl

map-append : (up : Listener → Bool) (a b : List Listener) → map up (a ++ b) ≡ map up a ++ map up b
map-append up [] b = refl
map-append up (x ∷ a) b = ap (λ l. up x ∷ l) (map-append up a b)

length-map : (up : Listener → Bool) (a : List Listener) → length (map up a) ≡ length a
length-map up [] = refl
length-map up (x ∷ a) = omega (arith, length-map up a)

module _ (up : Listener → Bool) where
  -- What the check of one node says where each listener is up or not.
  abbrev all_up : List Listener → Bool
  all_up listeners = all_healthy (map up listeners)

  from_bulk-part :
      (on engine_healthy : Bool) (own more : List Listener) (statuses pre : List Bool) (start : ℕ)
      → statuses ≡ pre ++ map up ((if on then own else []) ++ more)
      → start ≡ length pre
      → (if on && engine_healthy
          then from_bulk (start, start + length (if on then own else [])) (some statuses)
          else some engine_healthy)
        ≡ some (if on && engine_healthy then all_up own else engine_healthy)
  from_bulk-part true true own more statuses pre start e k =
      let part =
        ap (λ i. slice (i, i + length own) statuses) k
        ∙ ap (slice (length pre, length pre + length own)) e
        ∙ ap (λ i. slice (length pre, length pre + i) (pre ++ map up (own ++ more)))
            (sym (length-map up own))
        ∙ ap (λ l. slice (length pre, length pre + length (map up own)) (pre ++ l))
            (map-append up own more)
        ∙ slice-append pre (map up own) (map up more) in
      rw (part, from_bulk) refl
  from_bulk-part true false own more statuses pre start e k = refl
  from_bulk-part false engine_healthy own more statuses pre start e k = refl

  from_none :
      (on engine_healthy : Bool) (l : Listener) (more : List Listener) (range : ℕ × ℕ)
      → (engine_healthy ≡ false) ⊎ ((if on then l ∷ [] else []) ++ more ≡ [])
      → ((if on && engine_healthy then from_bulk range none else some engine_healthy)
          ≡ some (if on && engine_healthy then all_up (l ∷ []) else engine_healthy))
        × ((engine_healthy ≡ false) ⊎ (more ≡ []))
  from_none true true l more range (inl sick) = absurd (ground (arith, sick))
  from_none true true l more range (inr empty) = absurd (ground (arith, empty))
  from_none true false l more range h = (refl, inl refl)
  from_none false engine_healthy l more range h = (refl, h)

  count_bulk-single :
      (engine_healthy : Bool) (nodes : List Node) (statuses pre : List Bool) (start : ℕ)
      (s : NodeSummary)
      → statuses ≡ pre ++ map up (enabled_listeners nodes)
      → start ≡ length pre
      → count_bulk engine_healthy (some statuses) (zip nodes (ranges_from start nodes)) s
        ≡ some (count_single engine_healthy all_up nodes s)
  unfolding count_bulk count_single ranges_from enabled_listeners
  count_bulk-single engine_healthy [] statuses pre start s e k = refl
  count_bulk-single engine_healthy (node ∷ nodes) statuses pre start s e k =
      let own = listeners_if node in
      let more = enabled_listeners nodes in
      let healthy =
        if node.enabled && engine_healthy then all_up (node_listeners node) else engine_healthy in
      let rest =
        count_bulk-single engine_healthy nodes statuses (pre ++ map up own) (start + length own)
          (add_node node healthy s)
          (e
            ∙ ap (λ l. pre ++ l) (map-append up own more)
            ∙ sym (append_assoc pre (map up own) (map up more)))
          (omega (arith, k, length-append pre (map up own), length-map up own)) in
      let part =
        from_bulk-part node.enabled engine_healthy (node_listeners node) more statuses pre start e
          k in
      rw (count_bulk, part) rest

  -- Without a healthy engine, or without a listener, nothing is asked.
  count_bulk-unasked :
      (engine_healthy : Bool) (nodes : List Node) (start : ℕ) (s : NodeSummary)
      → (engine_healthy ≡ false) ⊎ (enabled_listeners nodes ≡ [])
      → count_bulk engine_healthy none (zip nodes (ranges_from start nodes)) s
        ≡ some (count_single engine_healthy all_up nodes s)
  unfolding count_bulk count_single ranges_from enabled_listeners node_listeners
  count_bulk-unasked engine_healthy [] start s h = refl
  count_bulk-unasked engine_healthy (node ∷ nodes) start s h =
      let end = start + length (listeners_if node) in
      let (here, later) =
        from_none node.enabled engine_healthy _ (enabled_listeners nodes) (start, end) h in
      rw (count_bulk, here) (count_bulk-unasked engine_healthy nodes end _ later)

  asked :
      (engine_healthy : Bool) (nodes : List Node) (listeners : List Listener)
      → enabled_listeners nodes ≡ listeners
      → count_bulk engine_healthy
          (ask_bulk engine_healthy (λ listeners. some (map up listeners)) listeners)
          (zip nodes (ranges_from 0 nodes))
          (empty_summary nodes)
        ≡ some (count_single engine_healthy all_up nodes (empty_summary nodes))
  asked engine_healthy nodes [] e =
      count_bulk-unasked engine_healthy nodes 0 (empty_summary nodes) (inr e)
  asked false nodes (l ∷ listeners) e =
      count_bulk-unasked false nodes 0 (empty_summary nodes) (inl refl)
  asked true nodes (l ∷ listeners) e =
      count_bulk-single true nodes (map up (l ∷ listeners)) [] 0 (empty_summary nodes)
        (ap (map up) (sym e)) refl

  -- Where both find the same listeners up, the summary with one check for all is the summary with a
  -- check per node; in particular, no part of the answer lies outside of it.
  pub bulk_summary-single :
      (engine_healthy : Bool) (nodes : List Node)
      → bulk_summary engine_healthy (λ listeners. some (map up listeners)) nodes
        ≡ some (single_summary engine_healthy all_up nodes)
  unfolding bulk_summary single_summary
  bulk_summary-single engine_healthy nodes =
      asked engine_healthy nodes (enabled_listeners nodes) refl
