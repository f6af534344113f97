-- ===== src/Store/Rules/Recovery.antt =====
-- `MergeFirewallRecoveryRules` of internal/database/store.go: rules of a backup join the table.
use Prim.Native.Nat.{ℕ}
use Prim.Native.String.{String}
use mathlib.Core.Path.{◌≡◌, ◌∙◌, sym, ap}
use mathlib.Core.Logic.{inl, inr}
use mathlib.Core.Bool.{true, false, not, ◌||◌}
use mathlib.Core.List.{List, [], ◌∷◌}
use mathlib.Core.Option.{Option, none, some}
use native.Mathlib.Omega.{arith}
use text.Mathlib.TextEquality.{eq_iff}
use j_ui.Base.{◌==◌, if◌then◌else◌, nat_equality, string_equality, nat_same_iff, Bool-cases}
use j_ui.Base.Map.{is_some}
use j_ui.Store.Rules.{
  Rule, pending, owned, borrowed, unknown, is_backend, is_rule, is_valid_key, find_rule, is_tracked,
  insert_rule,
}

-- The row of a rule that is there: a borrowed one stays.
abbrev pub merged_row : Rule → Rule → Rule
merged_row new r =
    if r.ownership == borrowed
    then r
    else record r { ownership = new.ownership; backend = new.backend }

unfoldable pub merge_row : Rule → List Rule → List Rule
merge_row new [] = []
merge_row new (r ∷ rules) =
    let rest = merge_row new rules in
    if is_rule new.protocol new.port r then merged_row new r ∷ rest else r ∷ rest

-- `INSERT … ON CONFLICT(protocol, port) DO UPDATE`.
unfoldable pub merge_rule : Rule → List Rule → List Rule
unfolding merge_row
merge_rule new rules =
    if is_tracked new.protocol new.port rules then merge_row new rules else insert_rule new rules

-- One rule after the other; a refusal rolls all back.
unfoldable pub merge_recovery_rules : List Rule → List Rule → Option (List Rule)
unfolding merge_rule
merge_recovery_rules [] rules = some rules
merge_recovery_rules (new ∷ more) rules =
    let skip = merge_recovery_rules more rules in
    let next = merge_recovery_rules more (merge_rule new rules) in
    if not (is_valid_key new.protocol new.port)
    then none
    else if not (new.ownership == pending || new.ownership == owned)
    then skip
    else if not (new.backend == unknown || is_backend new.backend)
    then none
    else next

find-merge_row :
    (new : Rule) (p : String) (n : ℕ) (rules : List Rule) (r : Rule)
    → (r.ownership == borrowed) ≡ true
    → find_rule p n rules ≡ some r
    → find_rule p n (merge_row new rules) ≡ some r
unfolding find_rule merge_row
find-merge_row new p n [] r b f = cc f
find-merge_row new p n (x ∷ rules) r b f = elim (Bool-cases (is_rule p n x)) [
  | inl here ↦
      let same : x ≡ r = ground (arith, rw (here, find_rule) at f) in
      let kept : (x.ownership == borrowed) ≡ true =
        ap (λ (y : Rule). y.ownership == borrowed) same ∙ b in
      elim (Bool-cases (is_rule new.protocol new.port x)) [
        | inl ours ↦ rw (ours, merge_row, kept, here, find_rule) (ap some same)
        | inr other ↦ rw (other, merge_row, here, find_rule) (ap some same)
      ]
  | inr there ↦
      let rest = find-merge_row new p n rules r b (rw (there, find_rule) at f) in
      elim (Bool-cases (is_rule new.protocol new.port x)) [
        | inl ours ↦ elim (Bool-cases (x.ownership == borrowed)) [
          | inl kept ↦ rw (ours, merge_row, kept, there, find_rule) rest
          | inr changed ↦ rw (ours, merge_row, changed, there, find_rule) rest
        ]
        | inr other ↦ rw (other, merge_row, there, find_rule) rest
      ]
]

find-insert_rule :
    (new : Rule) (p : String) (n : ℕ) (rules : List Rule)
    → is_rule p n new ≡ false
    → find_rule p n (insert_rule new rules) ≡ find_rule p n rules
unfolding find_rule insert_rule
find-insert_rule new p n [] h = ground (arith, h)
find-insert_rule new p n (x ∷ rules) h = ground (arith, h, find-insert_rule new p n rules h)

-- A rule that is not tracked has another key than one that is found.
other_key :
    (new : Rule) (p : String) (n : ℕ) (rules : List Rule) (r : Rule)
    → is_tracked new.protocol new.port rules ≡ false
    → find_rule p n rules ≡ some r
    → is_rule p n new ≡ false
unfolding is_tracked
other_key new p n rules r t f = elim (Bool-cases (is_rule p n new)) [
  | inr other ↦ other
  | inl same ↦
      let q : new.protocol ≡ p = ground (arith, same, eq_iff new.protocol p) in
      let m : new.port ≡ n = ground (arith, same, nat_same_iff new.port n) in
      absurd (
        ground (
          arith,
          ap (λ a. is_some (find_rule a n rules)) q ∙ ap is_some f,
          ap (λ k. is_some (find_rule new.protocol k rules)) m,
          t,
        ))
]

-- A merge that succeeds leaves every borrowed rule as it was, whatever the backup says of its port.
pub merge_recovery_rules-borrowed :
    (recovery rules out : List Rule) (p : String) (n : ℕ) (r : Rule)
    → merge_recovery_rules recovery rules ≡ some out
    → (r.ownership == borrowed) ≡ true
    → find_rule p n rules ≡ some r
    → find_rule p n out ≡ some r
unfolding merge_recovery_rules merge_rule
merge_recovery_rules-borrowed [] rules out p n r e b f =
    let same : rules ≡ out = ground (arith, e) in ap (find_rule p n) (sym same) ∙ f
merge_recovery_rules-borrowed (new ∷ more) rules out p n r e b f =
    elim (Bool-cases (not (is_valid_key new.protocol new.port))) [
      | inl bad ↦ absurd (ground (arith, rw (bad, merge_recovery_rules) at e))
      | inr good ↦ elim (Bool-cases (not (new.ownership == pending || new.ownership == owned))) [
        | inl skipped ↦
            merge_recovery_rules-borrowed more rules out p n r
              (rw (good, skipped, merge_recovery_rules) at e) b f
        | inr ours ↦ elim (Bool-cases (not (new.backend == unknown || is_backend new.backend))) [
          | inl bad ↦ absurd (ground (arith, rw (good, ours, bad, merge_recovery_rules) at e))
          | inr known ↦
              merge_recovery_rules-borrowed more (merge_rule new rules) out p n r
                (rw (good, ours, known, merge_recovery_rules) at e) b
                (elim (Bool-cases (is_tracked new.protocol new.port rules)) [
                  | inl tracked ↦ rw tracked (find-merge_row new p n rules r b f)
                  | inr free ↦
                      rw free
                        (find-insert_rule new p n rules (other_key new p n rules r free f) ∙ f)
                ])
        ]
      ]
    ]
