-- ===== src/Node/Sync/Tracked.antt =====
-- The table of the rules after the second loop of `syncFirewall`, where that reports no error.
use Prim.Native.Nat.{ℕ}
use Prim.Native.String.{String}
use mathlib.Core.Path.{◌≡◌, subst, refl, ◌∙◌, sym, ap}
use mathlib.Core.Logic.{inl, inr}
use mathlib.Core.Bool.{Bool, true, ◌&&◌}
use mathlib.Core.List.{List, [], ◌∷◌}
use mathlib.Core.Option.{Option, some}
use native.Mathlib.Omega.{arith}
use text.Mathlib.TextEquality.{eq_iff}
use j_ui.Base.{
  if◌then◌else◌, nat_equality, string_equality, nat_same_iff, All, All-weaken, All-both, Bool-cases,
  Option-cases,
}
use j_ui.Base.Map.{Map, has, lookup, is_some}
use j_ui.Base.Text.{Text, text_equality}
use j_ui.Store.Rules.{Rule, is_rule, is_tracked, find_rule, track_firewall_rule}
use j_ui.Store.Rules.Laws.{is_tracked-track}
use j_ui.Node.Sync.Trace.{IsTable, bind-eq-ok}
use j_ui.Node.Sync.Open.{Keyed}
use j_ui.Node.Sync.Safety.{tracked_set-IsStart}
use j_ui.Base.Transport.{IsTransport}
use j_ui.Node.Sync.Keys.{firewall_rule_key_injective}
use j_ui.Node.Sync.Entries.{in_key_order-All, Transported, listed, has-keys}
use j_ui.Node.Sync.Grows.{after_track-here}
use j_ui.Node.Sync.{
  World, Manager, Result, ok, firewall_rule_key, key_of, statement, open_rule, open_wanted,
  open_all, tracked_set, in_key_order,
}

module _ {Host : Type 0} (manager : Manager Host) (down : ℕ → Bool) where
  track_tracked :
      (rule : Rule) (w : World Host) (p : String) (n : ℕ)
      → (statement manager down (track_firewall_rule rule.protocol rule.port) w).0 ≡ ok tt
      → is_tracked p n
          (statement manager down (track_firewall_rule rule.protocol rule.port) w).1.rules
        ≡ (if is_rule p n rule then true else is_tracked p n w.rules)
  unfolding statement
  track_tracked rule w p n e = ground (
    arith,
    is_tracked-track rule.protocol rule.port p n w.rules
        (statement manager down (track_firewall_rule rule.protocol rule.port) w).1.rules,
  )

  open_rule-tracked :
      (before : Option Rule) (rule : Rule) (w : World Host) (p : String) (n : ℕ)
      → (open_rule manager down before rule w).0 ≡ ok tt
      → is_tracked p n (open_rule manager down before rule w).1.rules
        ≡ (if is_rule p n rule then true else is_tracked p n w.rules)
  unfolding open_rule
  open_rule-tracked before rule w p n e =
      let (u, tracked, whole) =
        bind-eq-ok (statement manager down (track_firewall_rule rule.protocol rule.port)) _ w tt
          e in
      ap (λ (r : Result (Unit {0}) × World Host). is_tracked p n r.1.rules) whole
      ∙ after_track-here manager down p n rule before _
      ∙ track_tracked rule w p n tracked

  -- A rule that is skipped is tracked already.
  abbrev pub Skips : Map Text Rule → List Rule → Text × Rule → Type 0
  Skips tracked rules x =
      (b : Rule) → lookup x.0 tracked ≡ some b → is_tracked x.1.protocol x.1.port rules ≡ true

  open_wanted-tracked :
      (tracked : Map Text Rule) (key : Text) (rule : Rule) (w : World Host) (p : String) (n : ℕ)
      → Skips tracked w.rules (key, rule)
      → (open_wanted manager down tracked key rule w).0 ≡ ok tt
      → is_tracked p n (open_wanted manager down tracked key rule w).1.rules
        ≡ (if is_rule p n rule then true else is_tracked p n w.rules)
  unfolding open_wanted
  open_wanted-tracked tracked key rule w p n skips e =
      elim (Bool-cases (is_some (lookup key tracked) && w.verified)) [
        | inl skip ↦
            rw (skip, open_wanted)
              (elim (Option-cases (lookup key tracked)) [
                | inl missing ↦ ground (arith, missing, skip)
                | inr (b, found) ↦
                    ground (arith, skips b found, eq_iff rule.protocol p, nat_same_iff rule.port n)
              ])
        | inr go ↦
            rw (go, open_wanted)
              (open_rule-tracked (lookup key tracked) rule w p n (rw (go, open_wanted) at e))
      ]

  pub open_all-tracked :
      (tracked : Map Text Rule) (rules : List (Text × Rule)) (w : World Host) (p : String) (n : ℕ)
      → All (Skips tracked w.rules) rules
      → (open_all manager down tracked rules w).0 ≡ ok tt
      → is_tracked p n (open_all manager down tracked rules w).1.rules
        ≡ (if listed p n rules then true else is_tracked p n w.rules)
  unfolding open_all
  open_all-tracked tracked [] w p n skips e = refl
  open_all-tracked tracked ((key, rule) ∷ rules) w p n (skip, skips) e =
      let (u, opened, whole) =
        bind-eq-ok (open_wanted manager down tracked key rule)
          (λ _. open_all manager down tracked rules) w tt e in
      let next : World Host = (open_wanted manager down tracked key rule w).1 in
      let more =
        All-weaken (Skips tracked w.rules) (Skips tracked next.rules) rules
          (λ x old b found.
            open_wanted-tracked tracked key rule w x.1.protocol x.1.port skip opened
            ∙ ground (arith, old b found))
          skips in
      ap (λ (r : Result (Unit {0}) × World Host). is_tracked p n r.1.rules) whole
      ∙ open_all-tracked tracked rules next p n more (rw whole at e)
      ∙ ground (arith, open_wanted-tracked tracked key rule w p n skip opened)

  find_rule-All {κ} :
      (P : Rule → Type κ) (p : String) (n : ℕ) (r : Rule) (rules : List Rule)
      → find_rule p n rules ≡ some r
      → All P rules
      → P r
  unfolding find_rule
  find_rule-All P p n r [] e a = cc
  find_rule-All P p n r (x ∷ rules) e a = elim (Bool-cases (is_rule p n x)) [
    | inl same ↦ let one : x ≡ r = ground (arith, e, same) in subst P one a.0
    | inr other ↦ find_rule-All P p n r rules (rw other at e) a.1
  ]

  -- The rules that the second loop may skip are tracked still.
  pub Skips-start :
      (desired : Map Text Rule) (start rules : List Rule)
      → IsTable start start
      → All (λ r. IsTransport r.protocol) start
      → Keyed desired
      → Transported desired
      → ((p : String) (n : ℕ)
          → is_tracked p n start ≡ true
          → has (firewall_rule_key p n) desired ≡ true
          → is_tracked p n rules ≡ true)
      → All (Skips (tracked_set [] start) rules) (in_key_order desired)
  unfolding is_tracked
  Skips-start desired start rules table transports keyed transported stays =
      let origin = tracked_set-IsStart start [] start (λ key r found. unfold lookup in cc) table in
      let one : (x : Text × Rule)
          → (key_of x.1 ≡ x.0) × IsTransport x.1.protocol
          → has x.0 desired ≡ true
          → Skips (tracked_set [] start) rules x =
        λ x (own, t) kept b found.
          let (at, same) = origin x.0 b found in
          let (p, n) =
            firewall_rule_key_injective b.protocol x.1.protocol b.port x.1.port
              (find_rule-All (λ r. IsTransport r.protocol) b.protocol b.port b start at transports)
              t (same ∙ sym own) in
          stays x.1.protocol x.1.port (ground (arith, at, p, n))
            (ap (λ (k : Text). has k desired) own ∙ kept) in
      in_key_order-All (Skips (tracked_set [] start) rules) desired (
        All-weaken (λ x. ((key_of x.1 ≡ x.0) × IsTransport x.1.protocol) × (has x.0 desired ≡ true))
          (Skips (tracked_set [] start) rules) desired (λ x h. one x h.0 h.1)
          (All-both (λ x. (key_of x.1 ≡ x.0) × IsTransport x.1.protocol)
            (λ x. has x.0 desired ≡ true) desired
            (All-both (λ x. key_of x.1 ≡ x.0) (λ x. IsTransport x.1.protocol) desired keyed
              transported)
            (has-keys desired)))
