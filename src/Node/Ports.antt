-- ===== src/Node/Ports.antt =====
-- Port allocation of internal/node/service.go: the search for a free port, and the plan by which
-- `SetStartPort` moves every node.
pub mod Search
pub mod Answer
pub mod Moves
pub mod Conflict
use Prim.Native.Nat.{ℕ, zero, suc, ◌+◌, ◌-◌}
use Prim.Native.String.{String}
use mathlib.Core.Bool.{Bool, true, false, not, ◌&&◌, ◌||◌}
use mathlib.Core.List.{List, [], ◌∷◌, ◌++◌, map}
use mathlib.Core.Option.{Option, none, some}
use j_ui.Base.{◌==◌, leb, ltb, if◌then◌else◌, nat_equality, string_equality, elem, length}
use j_ui.Base.Text.{Text, codes, itoa, strip_suffix}
use j_ui.Model.{Node, cloudflare_https_ports}
use j_ui.Model.Protocol

abbrev pub max_port : ℕ
max_port = 65535

abbrev pub default_start_port : ℕ
default_start_port = 8881

unfoldable pub firewall_protocols : String → List String
firewall_protocols p =
    if p == Protocol.hysteria2 || p == Protocol.tuic then "udp" ∷ [] else "tcp" ∷ []

-- `for port := start; port <= 65535; port++`: the rounds that are left, and the port.
unfoldable pub scan_ports : ℕ → ℕ → (ℕ → Bool) → Option ℕ
scan_ports zero port free = none
scan_ports (suc rounds) port free =
    let later = scan_ports rounds (port + 1) free in if free port then some port else later

-- The first of a list of ports that is free.
unfoldable pub pick_port : List ℕ → (ℕ → Bool) → Option ℕ
pick_port [] free = none
pick_port (port ∷ ports) free = if free port then some port else pick_port ports free

abbrev pub used_ports : List Node → List ℕ
used_ports [] = []
used_ports (n ∷ nodes) = n.port ∷ used_ports nodes

unfoldable pub next_configured_port : ℕ → List Node → Option ℕ
unfolding scan_ports
next_configured_port start nodes =
    scan_ports (suc max_port - start) start (λ port. not (elem port (used_ports nodes)))

unfoldable pub next_protocol_port : ℕ → String → List ℕ → (ℕ → Bool) → Option ℕ
unfolding scan_ports pick_port
next_protocol_port start protocol used available =
    let free = λ (port : ℕ). not (elem port used) && available port in
    if protocol == Protocol.vless_ws_tls
    then pick_port cloudflare_https_ports free
    else scan_ports (suc max_port - start) start free

pub record PortSettings : Type 0 where
  pub start_port : ℕ
  pub next_port : ℕ

-- What the method `PortSettings` answers from the start port and the stored nodes.
unfoldable pub port_settings : ℕ → List Node → Option PortSettings
unfolding next_configured_port
port_settings start nodes = elim (next_configured_port start nodes) [
  | none ↦ none
  | some port ↦ some (record { start_port = start; next_port = port })
]

-- What `SetStartPort` answers once the candidates are stored and deployed.
unfoldable pub set_start_answer : ℕ → List Node → PortSettings
set_start_answer start candidates = record {
  start_port = start;
  next_port = start + length candidates;
}

-- The listeners of the enabled nodes, which the engine itself holds open: `managedListeners`.
unfoldable pub managed_listeners : List Node → List (String × ℕ)
unfolding firewall_protocols
managed_listeners [] = []
managed_listeners (n ∷ nodes) =
    if n.enabled
    then map (λ network. (network, n.port)) (firewall_protocols n.protocol)
      ++ managed_listeners nodes
    else managed_listeners nodes

unfoldable pub is_managed : List (String × ℕ) → String → ℕ → Bool
is_managed [] network port = false
is_managed ((other, p) ∷ managed) network port =
    if other == network && p == port then true else is_managed managed network port

-- Why a plan fails: an Argo origin port that two Argo nodes share, or no port left.
pub data PlanError : Type 0 where
  argo_conflict : ℕ → PlanError
  no_port : PlanError

pub data Plan {ℓ} (A : Type ℓ) : Type ℓ where
  planned : A → Plan A
  refused : PlanError → Plan A

infixl 5 ◌>>=◌
abbrev pub ◌>>=◌ {ℓ κ} : {A : Type ℓ} {B : Type κ} → Plan A → (A → Plan B) → Plan B
planned a >>= f = f a
refused e >>= f = refused e

-- The first loop over the candidates: the ports of the Argo nodes are reserved.
unfoldable pub reserve_argo : List ℕ → List Node → Plan (List ℕ)
reserve_argo used [] = planned used
reserve_argo used (n ∷ nodes) =
    if n.protocol == Protocol.vless_argo
    then if elem n.port used
      then refused (argo_conflict n.port)
      else reserve_argo (n.port ∷ used) nodes
    else reserve_argo used nodes

-- A name that ends in "_" and the old port gets the new one.
unfoldable pub rename_port : Text → ℕ → ℕ → Text
rename_port name old new = elim (strip_suffix (b'_' ∷ itoa old) name) [
  | none ↦ name
  | some stem ↦ stem ++ b'_' ∷ itoa new
]

unfoldable pub move_to : ℕ → Node → Node
unfolding rename_port
move_to port n = record n { name = rename_port n.name n.port port; port = port; status = "pending" }

unfoldable pub or_no_port : Option ℕ → Plan ℕ
or_no_port none = refused no_port
or_no_port (some port) = planned port

-- `checkNetworkPort`, which binds a socket, is `open_port network listen port`.
module _ (open_port : String → Text → ℕ → Bool) where
  -- The test that `SetStartPort` passes to `nextProtocolPort`.
  unfoldable pub can_move_to : List (String × ℕ) → List String → Text → ℕ → Bool
  unfolding is_managed
  can_move_to managed [] listen port = true
  can_move_to managed (network ∷ networks) listen port =
      if is_managed managed network port || open_port network listen port
      then can_move_to managed networks listen port
      else false

  -- The port of one candidate.
  unfoldable pub port_for : ℕ → List (String × ℕ) → List ℕ → Node → Plan ℕ
  unfolding can_move_to or_no_port next_protocol_port firewall_protocols
  port_for start managed used n =
      if n.protocol == Protocol.vless_argo
      then planned n.port
      else or_no_port (
          next_protocol_port start n.protocol used
            (can_move_to managed (firewall_protocols n.protocol) n.listen))

  -- The second loop over the candidates.
  unfoldable pub allocate : ℕ → List (String × ℕ) → List ℕ → List Node → Plan (List Node)
  unfolding port_for move_to
  allocate start managed used [] = planned []
  allocate start managed used (n ∷ nodes) = do
    port ← port_for start managed used n
    rest ← allocate start managed (port ∷ used) nodes
    planned (move_to port n ∷ rest)

  -- The candidates of `SetStartPort`.
  unfoldable pub plan_ports : ℕ → List Node → Plan (List Node)
  unfolding allocate reserve_argo managed_listeners
  plan_ports start nodes = do
    used ← reserve_argo [] nodes
    allocate start (managed_listeners nodes) used nodes
