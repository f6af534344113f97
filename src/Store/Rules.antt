-- ===== src/Store/Rules.antt =====
-- The table `managed_firewall_rules` of internal/database/store.go, in the order of its primary key
-- (protocol, port). The constraints of the schema are tests; a statement that the database refuses
-- changes nothing.
pub mod Laws
pub mod Recovery
use Prim.Native.Nat.{ℕ}
use Prim.Native.String.{String}
use mathlib.Core.Bool.{Bool, true, false, not, ◌&&◌, ◌||◌}
use mathlib.Core.List.{List, [], ◌∷◌}
use mathlib.Core.Option.{Option, none, some}
use j_ui.Base.{◌==◌, leb, ltb, if◌then◌else◌, nat_equality, string_equality}
use j_ui.Base.Map.{is_some}

abbrev pub pending : String
pending = "pending"

abbrev pub owned : String
owned = "owned"

abbrev pub borrowed : String
borrowed = "borrowed"

abbrev pub unknown : String
unknown = "unknown"

abbrev pub firewalld : String
firewalld = "firewalld"

abbrev pub ufw : String
ufw = "ufw"

abbrev pub nftables : String
nftables = "nftables"

pub record Rule : Type 0 where
  pub protocol : String
  pub port : ℕ
  pub ownership : String
  pub backend : String

abbrev pub is_rule : String → ℕ → Rule → Bool
is_rule protocol port r = r.protocol == protocol && r.port == port

unfoldable pub find_rule : String → ℕ → List Rule → Option Rule
find_rule protocol port [] = none
find_rule protocol port (r ∷ rules) =
    if is_rule protocol port r then some r else find_rule protocol port rules

unfoldable pub is_tracked : String → ℕ → List Rule → Bool
unfolding find_rule
is_tracked protocol port rules = is_some (find_rule protocol port rules)

-- The CHECK constraints of the columns `protocol` and `port`.
abbrev pub is_valid_key : String → ℕ → Bool
is_valid_key protocol port =
    (protocol == "tcp" || protocol == "udp") && (leb 1 port && leb port 65535)

-- The order of the primary key, where "tcp" and "udp" are the only protocols.
abbrev pub before : String → ℕ → Rule → Bool
before protocol port r = if r.protocol == protocol then ltb port r.port else protocol == "tcp"

unfoldable pub insert_rule : Rule → List Rule → List Rule
insert_rule new [] = new ∷ []
insert_rule new (r ∷ rules) =
    if before new.protocol new.port r then new ∷ r ∷ rules else r ∷ insert_rule new rules

-- `TrackFirewallRule`: `INSERT … ON CONFLICT(protocol, port) DO NOTHING`.
unfoldable pub track_firewall_rule : String → ℕ → List Rule → Option (List Rule)
unfolding is_tracked insert_rule
track_firewall_rule protocol port rules =
    if not (is_valid_key protocol port)
    then none
    else if is_tracked protocol port rules
    then some rules
    else some (
        insert_rule
          (record { protocol = protocol; port = port; ownership = pending; backend = unknown })
          rules)

-- `ForgetFirewallRule`.
unfoldable pub forget_firewall_rule : String → ℕ → List Rule → List Rule
forget_firewall_rule protocol port [] = []
forget_firewall_rule protocol port (r ∷ rules) =
    let rest = forget_firewall_rule protocol port rules in
    if is_rule protocol port r then rest else r ∷ rest

unfoldable pub update_rule : String → ℕ → String → String → List Rule → List Rule
update_rule protocol port ownership backend [] = []
update_rule protocol port ownership backend (r ∷ rules) =
    let rest = update_rule protocol port ownership backend rules in
    if is_rule protocol port r
    then record r { ownership = ownership; backend = backend } ∷ rest
    else r ∷ rest

abbrev pub is_ownership : String → Bool
is_ownership ownership = ownership == owned || ownership == borrowed

abbrev pub is_backend : String → Bool
is_backend backend = backend == firewalld || backend == ufw || backend == nftables

-- `SetFirewallRuleOwnership`; the primary key lets the statement change one row at most.
unfoldable pub set_firewall_rule_ownership :
    String → ℕ → String → String → List Rule → Option (List Rule)
unfolding is_tracked update_rule
set_firewall_rule_ownership protocol port ownership backend rules =
    if not (is_ownership ownership) || not (is_backend backend)
    then none
    else if is_tracked protocol port rules
    then some (update_rule protocol port ownership backend rules)
    else none
