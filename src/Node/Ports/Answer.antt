-- ===== src/Node/Ports/Answer.antt =====
-- The two answers of internal/node/service.go to "which port comes next".
use Prim.Native.Nat.{ℕ, ◌≤◌}
use mathlib.Core.Path.{◌≡◌, ◌∙◌, ap}
use mathlib.Core.Logic.{inl, inr, ◌≢◌}
use mathlib.Core.Bool.{false}
use mathlib.Core.List.{List, ◌∷◌}
use mathlib.Core.Option.{some}
use native.Mathlib.Omega.{arith}
use j_ui.Base.{elem, nat_equality, Bool-cases, ltb, ltb→lt}
use j_ui.Model.{Node}
use j_ui.Node.Ports.Search.{next_configured_port_lem}
use j_ui.Node.Ports.{port_settings, set_start_answer, max_port, used_ports, next_configured_port}

-- A first port that is itself free is the one that the search returns.
next_configured_port_start :
    (start : ℕ) (nodes : List Node)
    → start ≤ max_port
    → elem start (used_ports nodes) ≡ false
    → next_configured_port start nodes ≡ some start
next_configured_port_start start nodes h free = elim (next_configured_port_lem start nodes h) [
  | inl (port, e, first) ↦ elim (Bool-cases (ltb start port)) [
    | inl later ↦
        let taken = first.first start (omega arith) (ltb→lt start port later) in
        absurd (ground (arith, taken, free))
    | inr here ↦ let same : port ≡ start = ground (arith, first.above) in e ∙ ap some same
  ]
  | inr (e, all) ↦ absurd (cc (all start (omega arith) (omega arith), free))
]

-- Wherever nodes exist and none has the start port, `SetStartPort` reports another next port than
-- `PortSettings` then does, which reports the start port itself.
pub set_start_answer-ne :
    (start : ℕ) (n : Node) (nodes : List Node)
    → start ≤ max_port
    → elem start (used_ports (n ∷ nodes)) ≡ false
    → (port_settings start (n ∷ nodes) ≡ some (record { start_port = start; next_port = start }))
      × ((set_start_answer start (n ∷ nodes)).next_port ≢ start)
unfolding port_settings set_start_answer
set_start_answer-ne start n nodes h free =
    (ground (arith, next_configured_port_start start (n ∷ nodes) h free), omega arith)
