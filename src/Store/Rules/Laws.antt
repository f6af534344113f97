-- ===== src/Store/Rules/Laws.antt =====
-- What the statements on `managed_firewall_rules` change.
use Prim.Native.Nat.{ℕ}
use Prim.Native.String.{String}
use mathlib.Core.Path.{◌≡◌, refl}
use mathlib.Core.Bool.{Bool, true, false, ◌&&◌}
use mathlib.Core.List.{List, [], ◌∷◌}
use mathlib.Core.Option.{some}
use native.Mathlib.Omega.{arith}
use text.Mathlib.TextEquality.{eq_iff}
use j_ui.Base.{◌==◌, if◌then◌else◌, nat_equality, string_equality, nat_same_iff}
use j_ui.Store.Rules.{
  Rule, is_rule, is_tracked, insert_rule, track_firewall_rule, forget_firewall_rule, update_rule,
  set_firewall_rule_ownership, pending, unknown,
}

-- Two keys are one.
abbrev pub same_key : String → ℕ → String → ℕ → Bool
same_key p n q m = p == q && n == m

pub is_tracked-insert_rule :
    (new : Rule) (q : String) (m : ℕ) (rules : List Rule)
    → is_tracked q m (insert_rule new rules)
      ≡ (if is_rule q m new then true else is_tracked q m rules)
unfolding is_tracked insert_rule
is_tracked-insert_rule new q m [] = ground arith
is_tracked-insert_rule new q m (r ∷ rules) = ground (arith, is_tracked-insert_rule new q m rules)

-- A rule that is tracked stays so, and the new one is.
pub is_tracked-track :
    (p : String) (n : ℕ) (q : String) (m : ℕ) (rules out : List Rule)
    → track_firewall_rule p n rules ≡ some out
    → is_tracked q m out ≡ (if same_key p n q m then true else is_tracked q m rules)
unfolding track_firewall_rule
is_tracked-track p n q m rules out e = ground (
  arith,
  eq_iff p q,
  nat_same_iff n m,
  is_tracked-insert_rule (record { protocol = p; port = n; ownership = pending; backend = unknown })
      q m rules,
)

pub is_tracked-forget :
    (p : String) (n : ℕ) (q : String) (m : ℕ) (rules : List Rule)
    → is_tracked q m (forget_firewall_rule p n rules)
      ≡ (if same_key p n q m then false else is_tracked q m rules)
unfolding is_tracked forget_firewall_rule
is_tracked-forget p n q m [] = ground arith
is_tracked-forget p n q m (r ∷ rules) = ground (
  arith,
  eq_iff p q,
  eq_iff r.protocol p,
  eq_iff r.protocol q,
  nat_same_iff n m,
  nat_same_iff r.port n,
  nat_same_iff r.port m,
  is_tracked-forget p n q m rules,
)

is_tracked-update_rule :
    (p : String) (n : ℕ) (o b q : String) (m : ℕ) (rules : List Rule)
    → is_tracked q m (update_rule p n o b rules) ≡ is_tracked q m rules
unfolding is_tracked update_rule
is_tracked-update_rule p n o b q m [] = refl
is_tracked-update_rule p n o b q m (r ∷ rules) =
    ground (arith, is_tracked-update_rule p n o b q m rules)

pub is_tracked-set_ownership :
    (p : String) (n : ℕ) (o b q : String) (m : ℕ) (rules out : List Rule)
    → set_firewall_rule_ownership p n o b rules ≡ some out
    → is_tracked q m out ≡ is_tracked q m rules
unfolding set_firewall_rule_ownership
is_tracked-set_ownership p n o b q m rules out e =
    ground (arith, is_tracked-update_rule p n o b q m rules)
