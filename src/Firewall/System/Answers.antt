-- ===== src/Firewall/System/Answers.antt =====
-- What `System` answers to `Ensure`: openings that the table of rules can record.
use Prim.Native.Nat.{ℕ}
use Prim.Native.String.{String}
use mathlib.Core.Path.{◌≡◌, refl}
use mathlib.Core.Bool.{Bool, true}
use mathlib.Core.List.{List, [], ◌∷◌}
use mathlib.Core.Option.{Option}
use j_ui.Base.{string_equality}
use j_ui.Base.Run.{Answers, answers_rules}
use j_ui.Base.Text.{Text}
use j_ui.Firewall.Manager.{Opening}
use j_ui.Firewall.Firewalld.{reload_if, firewalld_ensure}
use j_ui.Firewall.Ufw.{ufw_decide, ufw_ensure}
use j_ui.Firewall.Nft.{
  NftObject, NftChainRef, open_in_chains, open_in_own_chain, open_by_chains, nft_ensure,
}
use j_ui.Firewall.System.{ensure_by, ensure}
use j_ui.Firewall.{Runner, owned, borrowed, backend_firewalld, backend_ufw, backend_nftables}
use j_ui.Store.Rules.{is_ownership, is_backend}

-- The answer is one that can be recorded.
pub record IsAnswer (o : Opening) : Type 0 where
  pub ownership : is_ownership o.ownership ≡ true
  pub backend : is_backend o.backend ≡ true

answer :
    (ownership backend : String)
    → is_ownership ownership ≡ true
    → is_backend backend ≡ true
    → IsAnswer (record { ownership = ownership; backend = backend })
answer ownership backend h k = record { ownership = h; backend = k }

by_firewalld : IsAnswer (record { ownership = owned; backend = backend_firewalld })
by_firewalld = answer owned backend_firewalld refl refl

by_ufw : IsAnswer (record { ownership = owned; backend = backend_ufw })
by_ufw = answer owned backend_ufw refl refl

borrowed_by_ufw : IsAnswer (record { ownership = borrowed; backend = backend_ufw })
borrowed_by_ufw = answer borrowed backend_ufw refl refl

by_nftables : IsAnswer (record { ownership = owned; backend = backend_nftables })
by_nftables = answer owned backend_nftables refl refl

ruleset answers = (answers_rules, by_firewalld, by_ufw, borrowed_by_ufw, by_nftables)

module _ {Host : Type 0} (runner : Runner Host) (lower : ℕ → ℕ)
    (decode : Text → Option (List NftObject)) where
  reload_if-IsAnswer : (changed : Bool) → Answers IsAnswer (reload_if runner changed)
  unfolding reload_if
  reload_if-IsAnswer changed = search answers

  firewalld_ensure-IsAnswer :
      (protocol : String) (port : ℕ) → Answers IsAnswer (firewalld_ensure runner protocol port)
  unfolding firewalld_ensure
  firewalld_ensure-IsAnswer protocol port = search (answers, reload_if-IsAnswer) depth 8

  ufw_decide-IsAnswer :
      (protocol : String) (port : ℕ) (rule : Bool × Bool)
      → Answers IsAnswer (ufw_decide runner lower protocol port rule)
  unfolding ufw_decide
  ufw_decide-IsAnswer protocol port rule = search answers depth 8

  ufw_ensure-IsAnswer :
      (protocol : String) (port : ℕ) → Answers IsAnswer (ufw_ensure runner lower protocol port)
  unfolding ufw_ensure
  ufw_ensure-IsAnswer protocol port = search (answers, ufw_decide-IsAnswer) depth 8

  open_in_chains-IsAnswer :
      (args : List Text) → Answers IsAnswer (open_in_chains runner decode args)
  unfolding open_in_chains
  open_in_chains-IsAnswer [] = search answers
  open_in_chains-IsAnswer (w ∷ args) = search answers

  open_in_own_chain-IsAnswer :
      (protocol : String) (port : ℕ)
      → Answers IsAnswer (open_in_own_chain runner decode protocol port)
  unfolding open_in_own_chain
  open_in_own_chain-IsAnswer protocol port = search answers depth 9

  open_by_chains-IsAnswer :
      (protocol : String) (port : ℕ) (objects : List NftObject) (chains : List NftChainRef)
      → Answers IsAnswer (open_by_chains runner decode protocol port objects chains)
  open_by_chains-IsAnswer protocol port objects [] = open_in_own_chain-IsAnswer protocol port
  open_by_chains-IsAnswer protocol port objects (c ∷ chains) = open_in_chains-IsAnswer _

  nft_ensure-IsAnswer :
      (protocol : String) (port : ℕ) → Answers IsAnswer (nft_ensure runner decode protocol port)
  unfolding nft_ensure
  nft_ensure-IsAnswer protocol port = search (answers, open_by_chains-IsAnswer) depth 9

  pub ensure-IsAnswer :
      (protocol : String) (port : ℕ) → Answers IsAnswer (ensure runner lower decode protocol port)
  unfolding ensure ensure_by
  ensure-IsAnswer protocol port =
      search (answers, firewalld_ensure-IsAnswer, ufw_ensure-IsAnswer, nft_ensure-IsAnswer) depth 9
