-- ===== src/Store/Tests.antt =====
-- Runs of internal/database on concrete inputs, and the theorem at one.
use Prim.Native.Nat.{ℕ}
use Prim.Native.String.{String}
use mathlib.Core.Path.{◌≡◌, refl}
use mathlib.Core.List.{List, [], ◌∷◌}
use mathlib.Core.Option.{some}
use j_ui.Store.Rules.{Rule, find_rule, is_tracked, insert_rule}
use j_ui.Store.Rules.Recovery

abbrev rule : ℕ → String → String → Rule
rule port ownership backend = record {
  protocol = "tcp";
  port = port;
  ownership = ownership;
  backend = backend;
}

-- The backup has a rule for the borrowed port 80, and one that is new.
abbrev recovery : List Rule
recovery = rule 80 "owned" "nftables" ∷ rule 443 "owned" "ufw" ∷ []

abbrev table : List Rule
table = rule 80 "borrowed" "ufw" ∷ []

abbrev merged : List Rule
merged = rule 80 "borrowed" "ufw" ∷ rule 443 "owned" "ufw" ∷ []

merged_lem : Recovery.merge_recovery_rules recovery table ≡ some merged
unfolding Recovery.merge_recovery_rules Recovery.merge_rule Recovery.merge_row is_tracked find_rule
    insert_rule
merged_lem = refl

merge_recovery_rules-borrowed_example : find_rule "tcp" 80 merged ≡ some (rule 80 "borrowed" "ufw")
unfolding find_rule
merge_recovery_rules-borrowed_example =
    Recovery.merge_recovery_rules-borrowed recovery table merged "tcp" 80 (rule 80 "borrowed" "ufw")
      merged_lem refl refl
