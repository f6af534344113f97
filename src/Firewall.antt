-- ===== src/Firewall.antt =====
-- internal/firewall/firewall.go: the commands by which ports are opened and closed. The runner of the
-- commands and the search for a tool are parameters; each run is kept in a log.
pub mod Manager
pub mod Firewalld
pub mod Ufw
pub mod Nft
pub mod System
pub mod Management
mod Tests
mod ManagementTests
use Prim.Native.Nat.{ℕ}
use Prim.Native.String.{String}
use mathlib.Core.Bool.{Bool, true, false, ◌&&◌, ◌||◌}
use mathlib.Core.List.{List, [], ◌∷◌, ◌++◌}
use mathlib.Core.Option.{Option, none, some}
use j_ui.Base.{◌==◌, leb, nat_equality, string_equality}
use j_ui.Base.Run.{Run}
use j_ui.Base.Text.{Text, codes, itoa}

abbrev pub backend_unknown : String
backend_unknown = "unknown"

abbrev pub backend_firewalld : String
backend_firewalld = "firewalld"

abbrev pub backend_ufw : String
backend_ufw = "ufw"

abbrev pub backend_nftables : String
backend_nftables = "nftables"

abbrev pub owned : String
owned = "owned"

abbrev pub borrowed : String
borrowed = "borrowed"

-- `engine.Runner` and `Lookup`, over the state of the host; `none` is a command that fails.
pub record Runner (Host : Type 0) : Type 0 where
  pub run : List Text → Host → Option Text × Host
  pub finds : String → Host → Bool

-- The host, and the commands run so far, newest first.
pub record Shell (Host : Type 0) : Type 0 where
  pub host : Host
  pub log : List (List Text)

abbrev pub Command : Type 0 → Type 0 → Type 0
Command Host A = Run (Shell Host) A

-- What the code must know of a rule: `validateRule`.
unfoldable pub validate_rule : String → ℕ → Bool
validate_rule protocol port =
    (protocol == "tcp" || protocol == "udp") && (leb 1 port && leb port 65535)

unfoldable pub rule_marker : String → ℕ → Text
rule_marker protocol port = codes "jui-" ++ (codes protocol ++ (b'-' ∷ itoa port))

-- "80/tcp".
unfoldable pub port_spec : String → ℕ → Text
port_spec protocol port = itoa port ++ (b'/' ∷ codes protocol)

module _ {Host : Type 0} (runner : Runner Host) where
  -- `Runner.Run`.
  unfoldable pub command : List Text → Command Host Text
  command words s =
      let r = runner.run words s.host in (r.0, record s { host = r.1; log = words ∷ s.log })

  -- `lookup`.
  unfoldable pub lookup : String → Command Host Bool
  lookup name s = (some (runner.finds name s.host), s)
