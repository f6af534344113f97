-- ===== src/Node/Ports/Moves.antt =====
-- What `SetStartPort` of internal/node/service.go plans for the nodes.
use Prim.Native.Nat.{ℕ, ◌≤◌}
use Prim.Native.String.{String}
use mathlib.Core.Path.{◌≡◌, refl, ap}
use mathlib.Core.Logic.{◌⊎◌, inl, inr, ◌≢◌}
use mathlib.Core.Bool.{Bool, true, false}
use mathlib.Core.List.{List, [], ◌∷◌, ◌++◌}
use native.Mathlib.Omega.{arith}
use text.Mathlib.TextEquality.{eq_iff}
use j_ui.Base.{◌==◌, nat_equality, string_equality, elem, Bool-cases, Option-cases, nat_same_iff}
use j_ui.Base.Affixes.{strip_suffix-append, strip_suffix-some}
use j_ui.Base.Text.{Text, itoa, strip_suffix}
use j_ui.Model.{Node}
use j_ui.Model.Protocol
use j_ui.Node.Ports.Search.{IsPick, next_protocol_port-IsPick}
use j_ui.Node.Ports.{
  Plan, planned, refused, ◌>>=◌, max_port, used_ports, next_protocol_port, managed_listeners,
  firewall_protocols, reserve_argo, rename_port, move_to, can_move_to, port_for, allocate,
  plan_ports, or_no_port,
}

pub bind-eq-planned {ℓ κ} :
    {A : Type ℓ} {B : Type κ} (m : Plan A) (f : A → Plan B) {b : B}
    → (m >>= f) ≡ planned b
    → (a : A) × (m ≡ planned a) × (f a ≡ planned b)
bind-eq-planned (planned a) f e = (a, refl, e)
bind-eq-planned (refused r) f e = cc

-- No two nodes have one port.
abbrev pub DistinctPorts : List Node → Type 0
DistinctPorts [] = Unit
DistinctPorts (n ∷ nodes) = (elem n.port (used_ports nodes) ≡ false) × DistinctPorts nodes

-- No Argo node of the list has the port.
abbrev NoArgo : ℕ → List Node → Type 0
NoArgo port [] = Unit
NoArgo port (n ∷ nodes) = (n.protocol ≡ Protocol.vless_argo → n.port ≢ port) × NoArgo port nodes

-- The ports of the Argo nodes are distinct, and all of them are reserved.
abbrev ArgoReserved : List ℕ → List Node → Type 0
ArgoReserved used [] = Unit
ArgoReserved used (n ∷ nodes) =
    (n.protocol ≡ Protocol.vless_argo → (elem n.port used ≡ true) × NoArgo n.port nodes)
    × ArgoReserved used nodes

-- A name that is a stem, "_" and the old port becomes the stem, "_" and the new one, and any other name
-- stays.
abbrev pub Renamed : ℕ → ℕ → Text → Text → Type 0
Renamed old new name renamed =
    ((stem : Text) × (name ≡ stem ++ (b'_' ∷ itoa old)) × (renamed ≡ stem ++ (b'_' ∷ itoa new)))
    ⊎ (((stem : Text) → name ≢ stem ++ (b'_' ∷ itoa old)) × (renamed ≡ name))

rename_port-Renamed : (name : Text) (old new : ℕ) → Renamed old new name (rename_port name old new)
unfolding rename_port
rename_port-Renamed name old new = elim (Option-cases (strip_suffix (b'_' ∷ itoa old) name)) [
  | inl other ↦ inr (
    λ stem e.
        cc (
          other,
          ap (strip_suffix (b'_' ∷ itoa old)) e,
          strip_suffix-append stem (b'_' ∷ itoa old),
        ),
    rw (other, rename_port) refl,
  )
  | inr (stem, found) ↦
      inl (stem, strip_suffix-some (b'_' ∷ itoa old) name stem found, rw (found, rename_port) refl)
]

-- What a candidate has to satisfy: it is the node but for its name, its port and its status.
abbrev pub Moved : (String → Text → ℕ → Bool) → ℕ → List (String × ℕ) → Node → Node → Type 0
Moved open_port start managed n m =
    (m ≡ record n { name = m.name; port = m.port; status = "pending" })
    × Renamed n.port m.port n.name m.name
    × ((n.protocol ≡ Protocol.vless_argo) × (m.port ≡ n.port)
        ⊎ (n.protocol ≢ Protocol.vless_argo)
          × ((used : List ℕ) × IsPick start n.protocol used
                (can_move_to open_port managed (firewall_protocols n.protocol) n.listen) m.port))

abbrev pub AllMoved :
    (String → Text → ℕ → Bool) → ℕ → List (String × ℕ) → List Node → List Node → Type 0
AllMoved open_port start managed [] [] = Unit
AllMoved open_port start managed [] (m ∷ moved) = ⊥
AllMoved open_port start managed (n ∷ nodes) [] = ⊥
AllMoved open_port start managed (n ∷ nodes) (m ∷ moved) =
    Moved open_port start managed n m × AllMoved open_port start managed nodes moved

module _ (open_port : String → Text → ℕ → Bool) (start : ℕ) (managed : List (String × ℕ))
    (low : start ≤ 65536) where
  -- The port of one candidate: an Argo node's own, and else one that is not used.
  port_for_cases :
      (used : List ℕ) (n : Node) (port : ℕ)
      → port_for open_port start managed used n ≡ planned port
      → ((n.protocol ≡ Protocol.vless_argo) × (port ≡ n.port))
        ⊎ ((n.protocol ≢ Protocol.vless_argo)
            × IsPick start n.protocol used
                (can_move_to open_port managed (firewall_protocols n.protocol) n.listen)
                port)
  unfolding port_for or_no_port
  port_for_cases used n port e = elim (Bool-cases (n.protocol == Protocol.vless_argo)) [
    | inl argo ↦ inl ((eq_iff _ _).0 argo, ground arith)
    | inr other ↦ inr (
      λ same. cc (other, (eq_iff _ _).1 same),
      next_protocol_port-IsPick start n.protocol used
          (can_move_to open_port managed (firewall_protocols n.protocol) n.listen) port low
          (ground (
            arith,
            Option-cases (
                next_protocol_port start n.protocol used
                  (can_move_to open_port managed (firewall_protocols n.protocol) n.listen)),
          )),
    )
  ]

  -- A port that is already used goes to no later candidate but an Argo node that has it.
  later_ne :
      (used : List ℕ) (nodes out : List Node) (q : ℕ)
      → allocate open_port start managed used nodes ≡ planned out
      → elem q used ≡ true
      → NoArgo q nodes
      → elem q (used_ports out) ≡ false
  unfolding allocate move_to
  later_ne used [] out q e h a = ground arith
  later_ne used (n ∷ nodes) out q e h a =
      let (port, got, e') = bind-eq-planned (port_for open_port start managed used n) _ e in
      let (rest, got', e'') =
        bind-eq-planned (allocate open_port start managed (port ∷ used) nodes) _ e' in
      ground (
        arith,
        e'',
        nat_same_iff port q,
        port_for_cases used n port got,
        later_ne (port ∷ used) nodes rest q got',
        a.0,
        a.1,
      )

  -- An unused port belongs to no Argo node, whose ports are all reserved.
  unused-NoArgo :
      (used : List ℕ) (nodes : List Node) (q : ℕ)
      → ArgoReserved used nodes
      → elem q used ≡ false
      → NoArgo q nodes
  unused-NoArgo used [] q r h = tt
  unused-NoArgo used (n ∷ nodes) q r h = (
    λ argo same. cc (ap (λ (p : ℕ). elem p used) same, (r.0 argo).0),
    unused-NoArgo used nodes q r.1 h,
  )

  ArgoReserved-cons :
      (used : List ℕ) (nodes : List Node) (q : ℕ)
      → ArgoReserved used nodes
      → ArgoReserved (q ∷ used) nodes
  ArgoReserved-cons used [] q r = tt
  ArgoReserved-cons used (n ∷ nodes) q r =
      (λ argo. (ground (arith, (r.0 argo).0), (r.0 argo).1), ArgoReserved-cons used nodes q r.1)

  allocate-DistinctPorts :
      (used : List ℕ) (nodes out : List Node)
      → allocate open_port start managed used nodes ≡ planned out
      → ArgoReserved used nodes
      → DistinctPorts out
  unfolding allocate move_to
  allocate-DistinctPorts used [] out e r = ground arith
  allocate-DistinctPorts used (n ∷ nodes) out e r =
      let (port, got, e') = bind-eq-planned (port_for open_port start managed used n) _ e in
      let (rest, got', e'') =
        bind-eq-planned (allocate open_port start managed (port ∷ used) nodes) _ e' in
      let alone : NoArgo port nodes = elim (port_for_cases used n port got) [
        | inl (argo, same) ↦ rw same (r.0 argo).1
        | inr (other, pick) ↦ unused-NoArgo used nodes port r.1 pick.unused
      ] in
      ground (
        arith,
        e'',
        nat_same_iff port port,
        later_ne (port ∷ used) nodes rest port got',
        alone,
        allocate-DistinctPorts (port ∷ used) nodes rest got'
            (ArgoReserved-cons used nodes port r.1),
      )

  allocate-AllMoved :
      (used : List ℕ) (nodes out : List Node)
      → allocate open_port start managed used nodes ≡ planned out
      → AllMoved open_port start managed nodes out
  unfolding allocate move_to
  allocate-AllMoved used [] [] e = tt
  allocate-AllMoved used [] (m ∷ out) e = cc
  allocate-AllMoved used (n ∷ nodes) out e =
      let (port, got, e') = bind-eq-planned (port_for open_port start managed used n) _ e in
      let (rest, got', e'') =
        bind-eq-planned (allocate open_port start managed (port ∷ used) nodes) _ e' in
      let same : out ≡ move_to port n ∷ rest = cc in
      rw same (
        (
          refl,
          rename_port-Renamed n.name n.port port,
          elim (port_for_cases used n port got) [
            | inl (argo, own) ↦ inl (argo, own)
            | inr (other, pick) ↦ inr (other, (used, pick))
          ],
        ),
        allocate-AllMoved (port ∷ used) nodes rest got',
      )

reserve_argo-keeps :
    (used : List ℕ) (nodes : List Node) (out : List ℕ) (q : ℕ)
    → reserve_argo used nodes ≡ planned out
    → elem q used ≡ true
    → (elem q out ≡ true) × NoArgo q nodes
unfolding reserve_argo
reserve_argo-keeps used [] out q e h = (ground arith, tt)
reserve_argo-keeps used (n ∷ nodes) out q e h =
    elim (Bool-cases (n.protocol == Protocol.vless_argo)) [
      | inl argo ↦ elim (Bool-cases (elem n.port used)) [
        | inl taken ↦ absurd (ground arith)
        | inr new ↦
            let (there, alone) =
              reserve_argo-keeps (n.port ∷ used) nodes out q (ground arith) (ground arith) in
            (there, (λ a same. cc (new, h, ap (λ (p : ℕ). elem p used) same), alone))
      ]
      | inr other ↦
          let (there, alone) = reserve_argo-keeps used nodes out q (ground arith) h in
          (there, (λ a same. cc (other, (eq_iff _ _).1 a), alone))
    ]

reserve_argo-ArgoReserved :
    (used : List ℕ) (nodes : List Node) (out : List ℕ)
    → reserve_argo used nodes ≡ planned out
    → ArgoReserved out nodes
unfolding reserve_argo
reserve_argo-ArgoReserved used [] out e = tt
reserve_argo-ArgoReserved used (n ∷ nodes) out e =
    elim (Bool-cases (n.protocol == Protocol.vless_argo)) [
      | inl argo ↦ elim (Bool-cases (elem n.port used)) [
        | inl taken ↦ absurd (ground arith)
        | inr new ↦ (
          λ a.
              reserve_argo-keeps (n.port ∷ used) nodes out n.port (ground arith)
                (ground (arith, nat_same_iff n.port n.port)),
          reserve_argo-ArgoReserved (n.port ∷ used) nodes out (ground arith),
        )
      ]
      | inr other ↦ (
        λ a. absurd (cc (other, (eq_iff _ _).1 a)),
        reserve_argo-ArgoReserved used nodes out (ground arith),
      )
    ]

-- A plan of `SetStartPort` that succeeds gives every node a port of its own. An Argo node keeps its
-- port; a VLESS-WS node gets a Cloudflare port and any other node a port from the start port up to
-- 65535, each one that the engine already listens on or that can be bound. The order stays, and
-- so does all of a node but its name, its port and its status, which is pending: a name that ends in
-- "_" and the old port ends in "_" and the new one, and any other name stays.
pub plan_ports_lem :
    (open_port : String → Text → ℕ → Bool) (start : ℕ) (nodes out : List Node)
    → start ≤ max_port
    → plan_ports open_port start nodes ≡ planned out
    → DistinctPorts out × AllMoved open_port start (managed_listeners nodes) nodes out
unfolding plan_ports
plan_ports_lem open_port start nodes out low e =
    let (used, got, e') = bind-eq-planned (reserve_argo [] nodes) _ e in
    (
      allocate-DistinctPorts open_port start (managed_listeners nodes) (omega arith) used nodes out
          e' (reserve_argo-ArgoReserved [] nodes used got),
      allocate-AllMoved open_port start (managed_listeners nodes) (omega arith) used nodes out e',
    )
