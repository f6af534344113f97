-- ===== src/Node/Ports/Conflict.antt =====
-- When `SetStartPort` of internal/node/service.go reports a conflict of Argo origin ports.
use Prim.Native.Nat.{ℕ, suc, ◌+◌, ◌≤◌}
use Prim.Native.String.{String}
use mathlib.Core.Path.{◌≡◌, refl, ◌∙◌, sym}
use mathlib.Core.Logic.{◌⊎◌, inl, inr}
use mathlib.Core.Bool.{Bool, true, false, ◌&&◌}
use mathlib.Core.List.{List, [], ◌∷◌}
use native.Mathlib.Omega.{arith}
use j_ui.Base.{◌==◌, if◌then◌else◌, nat_equality, string_equality, elem, Bool-cases, nat_same_iff}
use j_ui.Base.Text.{Text}
use j_ui.Model.{Node}
use j_ui.Model.Protocol
use j_ui.Node.Ports.{
  Plan, PlanError, planned, refused, argo_conflict, no_port, managed_listeners, reserve_argo,
  port_for, allocate, plan_ports, or_no_port,
}

-- How many Argo nodes have the port.
abbrev pub argo_count : ℕ → List Node → ℕ
argo_count q [] = 0
argo_count q (n ∷ nodes) =
    if n.protocol == Protocol.vless_argo && n.port == q
    then suc (argo_count q nodes)
    else argo_count q nodes

abbrev once : Bool → ℕ
once true = 1
once false = 0

reserve_argo-refused :
    (used : List ℕ) (nodes : List Node) (e : PlanError)
    → reserve_argo used nodes ≡ refused e
    → (q : ℕ) × (e ≡ argo_conflict q) × (2 ≤ argo_count q nodes + once (elem q used))
unfolding reserve_argo
reserve_argo-refused used [] e h = cc
reserve_argo-refused used (n ∷ nodes) e h = elim (Bool-cases (n.protocol == Protocol.vless_argo)) [
  | inr other ↦
      let (q, same, two) = reserve_argo-refused used nodes e (rw (other, reserve_argo) at h) in
      (q, same, ground (arith, other, two))
  | inl argo ↦ elim (Bool-cases (elem n.port used)) [
    | inl taken ↦ (
      n.port,
      ground (arith, argo, taken, h),
      ground (arith, argo, taken, nat_same_iff n.port n.port),
    )
    | inr fresh ↦
        let (q, same, two) =
          reserve_argo-refused (n.port ∷ used) nodes e (rw (argo, fresh, reserve_argo) at h) in
        (q, same, ground (arith, argo, fresh, two, nat_same_iff n.port q))
  ]
]

reserve_argo-planned :
    (used : List ℕ) (nodes : List Node) (out : List ℕ) (q : ℕ)
    → reserve_argo used nodes ≡ planned out
    → argo_count q nodes + once (elem q used) ≤ 1
unfolding reserve_argo
reserve_argo-planned used [] out q h = ground arith
reserve_argo-planned used (n ∷ nodes) out q h = ground (
  arith,
  reserve_argo-planned used nodes out q,
  reserve_argo-planned (n.port ∷ used) nodes out q,
  nat_same_iff n.port q,
)

Plan-cases {ℓ} :
    {A : Type ℓ} (m : Plan A) → ((e : PlanError) × (m ≡ refused e)) ⊎ ((a : A) × (m ≡ planned a))
Plan-cases (planned a) = inr (a, refl)
Plan-cases (refused e) = inl (e, refl)

module _ (open_port : String → Text → ℕ → Bool) (start : ℕ) where
  port_for-refused :
      (managed : List (String × ℕ)) (used : List ℕ) (n : Node) (e : PlanError)
      → port_for open_port start managed used n ≡ refused e
      → e ≡ no_port
  unfolding port_for or_no_port
  port_for-refused managed used n e h = ground arith

  allocate-refused :
      (managed : List (String × ℕ)) (used : List ℕ) (nodes : List Node) (e : PlanError)
      → allocate open_port start managed used nodes ≡ refused e
      → e ≡ no_port
  unfolding allocate
  allocate-refused managed used [] e h = cc
  allocate-refused managed used (n ∷ nodes) e h =
      elim (Plan-cases (port_for open_port start managed used n)) [
        | inl (f, no_one) ↦
            let same : f ≡ e = ground (arith, rw (no_one, allocate) at h) in
            sym same ∙ port_for-refused managed used n f no_one
        | inr (port, got) ↦
            elim (Plan-cases (allocate open_port start managed (port ∷ used) nodes)) [
              | inl (f, later) ↦
                  allocate-refused managed (port ∷ used) nodes e
                    (later ∙ (rw (got, later, allocate) at h))
              | inr (rest, fine) ↦ ground (arith, rw (got, fine, allocate) at h)
            ]
      ]

-- `SetStartPort` refuses a plan for an Argo conflict exactly when two Argo nodes share a port: it
-- names a port only if at least two Argo nodes have it, and if some port is that of two Argo nodes it
-- names one such port instead of planning or reporting that no port is left.
pub plan_ports_conflict :
    (open_port : String → Text → ℕ → Bool) (start : ℕ) (nodes : List Node)
    → ((q : ℕ)
        → plan_ports open_port start nodes ≡ refused (argo_conflict q)
        → 2 ≤ argo_count q nodes)
      × (((q : ℕ) → argo_count q nodes ≤ 1)
          ⊎ ((q : ℕ) × (plan_ports open_port start nodes ≡ refused (argo_conflict q))
              × (2 ≤ argo_count q nodes)))
unfolding plan_ports
plan_ports_conflict open_port start nodes = elim (Plan-cases (reserve_argo [] nodes)) [
  | inl (e, bad) ↦
      let (q, same, two) = reserve_argo-refused [] nodes e bad in
      (
        λ p h. ground (arith, bad, same, two, h),
        inr (q, ground (arith, bad, same), omega (arith, two)),
      )
  | inr (used, fine) ↦ (
    λ p h.
        let e =
          allocate-refused open_port start (managed_listeners nodes) used nodes (argo_conflict p)
            (ground (arith, fine, h)) in
        absurd (cc e),
    inl (λ q. omega (arith, reserve_argo-planned [] nodes used q fine)),
  )
]
