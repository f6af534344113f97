-- ===== src/Model.antt =====
-- internal/model/model.go: the protocols, their ports, and the records that the services share.
pub mod Protocol
use Prim.Native.Nat.{ℕ}
use Prim.Native.String.{String}
use mathlib.Core.Bool.{Bool, true, false, ◌||◌}
use mathlib.Core.List.{List, [], ◌∷◌}
use mathlib.Core.Option.{Option}
use j_ui.Base.{◌==◌, nat_equality, string_equality}
use j_ui.Base.Map.{Map}
use j_ui.Base.Text.{Text}

unfoldable pub supported_protocol : String → Bool
supported_protocol p =
    p == Protocol.vless_reality
    || p == Protocol.vless_grpc_reality
    || p == Protocol.vless_ws_tls
    || p == Protocol.vless_argo
    || p == Protocol.trojan_tls
    || p == Protocol.hysteria2
    || p == Protocol.tuic
    || p == Protocol.anytls
    || p == Protocol.anytls_reality

unfoldable pub cloudflare_https_port : ℕ → Bool
cloudflare_https_port port =
    port == 443 || port == 2053 || port == 2083 || port == 2087 || port == 2096 || port == 8443

abbrev pub cloudflare_https_ports : List ℕ
cloudflare_https_ports = 8443 ∷ 2053 ∷ 2083 ∷ 2087 ∷ 2096 ∷ 443 ∷ []

-- An entry of a JSON object: a string, or a value of another kind by its encoding.
pub data Value : Type 0 where
  string : Text → Value
  other : Text → Value

abbrev pub Settings : Type 0
Settings = Map Text Value

-- The columns of a node, less its times.
pub record Node : Type 0 where
  pub id : ℕ
  pub name : Text
  pub protocol : String
  pub listen : Text
  pub port : ℕ
  pub enabled : Bool
  pub public_host_override : Text
  pub outbound_id : Option ℕ
  pub settings : Settings
  pub secret : Settings
  pub status : String

-- The columns of a client of a node, less its time.
pub record Client : Type 0 where
  pub id : ℕ
  pub node_id : ℕ
  pub user_id : ℕ
  pub name : Text
  pub credential : Settings
  pub enabled : Bool

-- What the nodes need of an outbound.
pub record Outbound : Type 0 where
  pub id : ℕ
  pub name : Text
  pub enabled : Bool
