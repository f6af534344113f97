-- ===== src/Firewall/System.antt =====
-- The type `System` of internal/firewall/firewall.go, which chooses among the tools.
pub mod Answers
use Prim.Native.Nat.{ℕ}
use Prim.Native.String.{String}
use mathlib.Core.Bool.{Bool, true, false, not, ◌&&◌, ◌||◌}
use mathlib.Core.List.{List, [], ◌∷◌}
use mathlib.Core.Option.{Option, none, some}
use j_ui.Base.{◌==◌, if◌then◌else◌, string_equality}
use j_ui.Base.Map.{is_some}
use j_ui.Base.Run.{Run, pure, fail, attempt, ◌>>=◌, ◌>>◌}
use j_ui.Base.Text.{Text, codes, texts, after_first}
use j_ui.Firewall.Manager.{Opening, Manager}
use j_ui.Firewall.Firewalld.{firewalld_ensure, firewalld_close}
use j_ui.Firewall.Ufw.{ufw_ensure, ufw_close}
use j_ui.Firewall.Nft.{NftObject, nft_ensure, nft_close}
use j_ui.Firewall.{
  Runner, Shell, Command, command, lookup, validate_rule, backend_unknown, backend_firewalld,
  backend_ufw, backend_nftables,
}

module _ {Host : Type 0} (runner : Runner Host) (lower : ℕ → ℕ)
    (decode : Text → Option (List NftObject)) where
  unfoldable pub has_firewalld : Command Host Bool
  has_firewalld = do
    found ← lookup runner "firewall-cmd"
    if not found
        then pure false
        else attempt
            (command runner (texts ("systemctl" ∷ "is-active" ∷ "--quiet" ∷ "firewalld" ∷ [])))
          >>= λ active. pure (is_some active)

  abbrev pub is_active : Option Text → Bool
  is_active none = false
  is_active (some output) = is_some (after_first (codes "Status: active") output)

  unfoldable pub has_ufw : Command Host Bool
  has_ufw = do
    found ← lookup runner "ufw"
    if not found
        then pure false
        else attempt (command runner (texts ("ufw" ∷ "status" ∷ []))) >>= λ output.
            pure (is_active output)

  unfoldable pub has_nft : Command Host String
  has_nft = do found ← lookup runner "nft"; if found then pure backend_nftables else fail

  unfoldable pub backend : Command Host String
  backend = do
    firewalld ← has_firewalld
    if firewalld
        then pure backend_firewalld
        else has_ufw >>= λ ufw. if ufw then pure backend_ufw else has_nft

  unfoldable pub ensure_by : String → ℕ → String → Command Host Opening
  ensure_by protocol port chosen =
      if chosen == backend_firewalld
      then firewalld_ensure runner protocol port
      else if chosen == backend_ufw
      then ufw_ensure runner lower protocol port
      else nft_ensure runner decode protocol port

  unfoldable pub ensure : String → ℕ → Command Host Opening
  ensure protocol port =
      if not (validate_rule protocol port)
      then fail
      else backend >>= λ chosen. ensure_by protocol port chosen

  -- A rule whose backend was not recorded.
  unfoldable pub close_unknown : String → ℕ → Command Host (Unit {0})
  close_unknown protocol port = do
    firewalld ← has_firewalld
    if firewalld
        then firewalld_close runner protocol port
        else has_ufw >>= λ ufw.
            if ufw
            then ufw_close runner lower protocol port
            else nft_close runner decode protocol port

  -- A tool that must be there.
  unfoldable pub require : String → Command Host (Unit {0}) → Command Host (Unit {0})
  require name rest = do found ← lookup runner name; if found then rest else fail

  unfoldable pub close : String → ℕ → String → Command Host (Unit {0})
  close protocol port recorded =
      if not (validate_rule protocol port)
      then fail
      else if recorded == backend_firewalld
      then require "firewall-cmd" (firewalld_close runner protocol port)
      else if recorded == backend_ufw
      then require "ufw" (ufw_close runner lower protocol port)
      else if recorded == backend_nftables
      then nft_close runner decode protocol port
      else if recorded == "" || recorded == backend_unknown
      then close_unknown protocol port
      else fail

  -- `System` as a manager of the firewall.
  unfoldable pub system : Manager (Shell Host)
  system = record {
    backend = backend;
    ensure = ensure;
    close =
        λ protocol port recorded s. let r = close protocol port recorded s in (is_some r.0, r.1);
  }
