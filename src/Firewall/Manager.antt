-- ===== src/Firewall/Manager.antt =====
-- What internal/firewall/firewall.go offers to its clients.
use Prim.Native.Nat.{ℕ}
use Prim.Native.String.{String}
use mathlib.Core.Bool.{Bool}
use mathlib.Core.Option.{Option}

-- `firewall.Result`.
pub record Opening : Type 0 where
  pub ownership : String
  pub backend : String

-- The interface `firewall.Manager`, over the state of the host; `none` and `false` are errors.
pub record Manager (Host : Type 0) : Type 0 where
  pub backend : Host → Option String × Host
  pub ensure : String → ℕ → Host → Option Opening × Host
  pub close : String → ℕ → String → Host → Bool × Host
