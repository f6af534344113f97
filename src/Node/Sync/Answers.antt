-- ===== src/Node/Sync/Answers.antt =====
-- `syncFirewall` over a manager whose answers can be recorded, such as `System`.
use Prim.Native.Nat.{ℕ}
use Prim.Native.String.{String}
use mathlib.Core.Path.{◌≡◌, refl}
use mathlib.Core.Logic.{inl, inr}
use mathlib.Core.Bool.{Bool, true, false, not, ◌&&◌}
use mathlib.Core.List.{List, [], ◌∷◌}
use mathlib.Core.Option.{Option, none, some}
use native.Mathlib.Omega.{arith}
use j_ui.Base.{◌==◌, string_equality, Bool-cases, Option-cases}
use j_ui.Base.Map.{Map, has, lookup, is_some}
use j_ui.Base.Text.{Text, text_equality}
use j_ui.Model.{Node}
use j_ui.Firewall.Manager.{Opening, Manager}
use j_ui.Firewall.Nft.{NftObject}
use j_ui.Firewall.System.{system}
use j_ui.Firewall.System.Answers.{IsAnswer, ensure-IsAnswer}
use j_ui.Firewall.{Runner, Shell}
use j_ui.Store.Rules.{
  Rule, owned, borrowed, track_firewall_rule, forget_firewall_rule, set_firewall_rule_ownership,
}
use j_ui.Node.Sync.{
  World, Result, ok, err, Failure, Action, follow, ◌>>=◌, ◌>>◌, when, fail, key_of, desired_rules,
  statement, managed_firewall_rules, ask_backend, close, close_quietly, ensure, drop_rule,
  drop_stale, leave_backend, settle_opening, open_rule, open_wanted, open_all, verify, tracked_set,
  in_key_order, sync_rules, sync_firewall,
}

-- Not one of the two errors about an answer of the firewall.
abbrev pub IsClean {ℓ} : {A : Type ℓ} → Result A → Type 0
IsClean (ok a) = Unit
IsClean (err Failure.bad_ownership) = ⊥
IsClean (err Failure.bad_backend) = ⊥
IsClean (err e) = Unit

follow-IsClean :
    {Host A B : Type 0} (r : Result A) (w : World Host) (f : A → Action Host B)
    → IsClean r
    → ((a : A) → r ≡ ok a → IsClean (f a w).0)
    → IsClean (follow r w f).0
follow-IsClean (ok a) w f c k = k a refl
follow-IsClean (err Failure.bad_ownership) w f c k = c
follow-IsClean (err Failure.bad_backend) w f c k = c
follow-IsClean (err Failure.database) w f c k = tt
follow-IsClean (err Failure.no_backend) w f c k = tt
follow-IsClean (err Failure.close_failed) w f c k = tt
follow-IsClean (err Failure.ensure_failed) w f c k = tt
follow-IsClean (err Failure.backend_changed) w f c k = tt

-- An action that never returns one of them.
pub record Clean {Host A : Type 0} (m : Action Host A) : Type 0 where
  pub at : (w : World Host) → IsClean (m w).0

Clean-bind :
    {Host A B : Type 0} (m : Action Host A) (f : A → Action Host B)
    → Clean m
    → ((a : A) → (w : World Host) → (m w).0 ≡ ok a → IsClean (f a (m w).1).0)
    → Clean (m >>= f)
Clean-bind m f c k = record { at = λ w. follow-IsClean (m w).0 (m w).1 f (c.at w) (λ a e. k a w e) }

Clean-when : {Host : Type 0} (b : Bool) (m : Action Host (Unit {0})) → Clean m → Clean (when b m)
Clean-when true m c = c
Clean-when false m c = record { at = λ w. tt }

module _ {Host : Type 0} (manager : Manager Host) (down : ℕ → Bool) where
  statement-Clean :
      (change : List Rule → Option (List Rule)) → Clean (statement manager down change)
  unfolding statement
  statement-Clean change = record { at = λ w. ground (arith, Option-cases (change w.rules)) }

  managed_firewall_rules-Clean : Clean (managed_firewall_rules manager down)
  unfolding managed_firewall_rules
  managed_firewall_rules-Clean = record { at = λ w. ground arith }

  ask_backend-Clean : Clean (ask_backend manager down)
  unfolding ask_backend
  ask_backend-Clean = record { at = λ w. ground (arith, Option-cases (manager.backend w.host).0) }

  close-Clean : (p : String) (n : ℕ) (b : String) → Clean (close manager down p n b)
  unfolding close
  close-Clean p n b = record { at = λ w. ground arith }

  drop_rule-Clean : (r : Rule) → Clean (drop_rule manager down r)
  unfolding drop_rule
  drop_rule-Clean r =
      let dropped =
        Clean-when (not (r.ownership == borrowed)) (close manager down r.protocol r.port r.backend)
          (close-Clean r.protocol r.port r.backend) in
      Clean-bind _ _ dropped λ _ w _.
        (statement-Clean (λ rules. some (forget_firewall_rule r.protocol r.port rules))).at _

  drop_stale-Clean :
      (desired : Map Text Rule) (rules : List Rule) → Clean (drop_stale manager down desired rules)
  unfolding drop_stale
  drop_stale-Clean desired [] = record { at = λ w. tt }
  drop_stale-Clean desired (r ∷ rules) = elim (Bool-cases (has (key_of r) desired)) [
    | inl wanted ↦ record {
      at = λ w. rw (wanted, drop_stale) ((drop_stale-Clean desired rules).at w);
    }
    | inr stale ↦ record {
      at = λ w.
          rw (stale, drop_stale)
            ((Clean-bind (drop_rule manager down r) (λ _. drop_stale manager down desired rules)
                (drop_rule-Clean r) λ _ w _. (drop_stale-Clean desired rules).at _).at
              w);
    }
  ]

  leave_backend-Clean :
      (before : Option Rule) (active : String) (rule : Rule)
      → Clean (leave_backend manager down before active rule)
  unfolding leave_backend
  leave_backend-Clean none active rule = record { at = λ w. tt }
  leave_backend-Clean (some b) active rule =
      Clean-when _ _ (close-Clean rule.protocol rule.port b.backend)

  take_back-Clean :
      (rule : Rule) (o : Opening)
      → Clean (
          when (o.ownership == owned) (close_quietly manager down rule.protocol rule.port o.backend)
          >> fail {A = Unit {0}} Failure.backend_changed)
  unfolding close_quietly
  take_back-Clean rule o =
      let quiet : Clean (close_quietly manager down rule.protocol rule.port o.backend) = record {
        at = λ w. tt;
      } in
      Clean-bind _ _ (Clean-when (o.ownership == owned) _ quiet) λ _ w _. tt

  settle_opening-Clean :
      (rule : Rule) (active : String) (o : Opening)
      → IsAnswer o
      → Clean (settle_opening manager down rule active o)
  unfolding settle_opening
  settle_opening-Clean rule active o a = elim (Bool-cases (o.backend == active)) [
    | inl same ↦ record {
      at = λ w.
          rw (a.ownership, a.backend, same, settle_opening)
            ((statement-Clean
                (set_firewall_rule_ownership rule.protocol rule.port o.ownership o.backend)).at
              w);
    }
    | inr moved ↦ record {
      at = λ w. rw (a.ownership, a.backend, moved, settle_opening) ((take_back-Clean rule o).at w);
    }
  ]

  module _
      (answers : (p : String) (n : ℕ) (h : Host) (o : Opening)
        → (manager.ensure p n h).0 ≡ some o
        → IsAnswer o) where
    ensure-Clean : (p : String) (n : ℕ) → Clean (ensure manager down p n)
    unfolding ensure
    ensure-Clean p n = record {
      at = λ w. ground (arith, Option-cases (manager.ensure p n w.host).0);
    }

    ensure-answer :
        (p : String) (n : ℕ) (w : World Host) (o : Opening)
        → (ensure manager down p n w).0 ≡ ok o
        → (manager.ensure p n w.host).0 ≡ some o
    unfolding ensure
    ensure-answer p n w o e = ground (arith, Option-cases (manager.ensure p n w.host).0)

    open_rule-Clean :
        (before : Option Rule) (rule : Rule) → Clean (open_rule manager down before rule)
    unfolding open_rule
    open_rule-Clean before rule =
        Clean-bind _ _ (statement-Clean (track_firewall_rule rule.protocol rule.port)) λ _ u _.
          (Clean-bind _ _ ask_backend-Clean λ active v _.
              (Clean-bind _ _ (leave_backend-Clean before active rule) λ _ w _.
                  (Clean-bind _ _ (ensure-Clean rule.protocol rule.port) λ o x e.
                      (settle_opening-Clean rule active o (
                          answers rule.protocol rule.port x.host o
                            (ensure-answer rule.protocol rule.port x o e))).at
                        _).at
                    _).at
                _).at
            _

    open_wanted-Clean :
        (tracked : Map Text Rule) (key : Text) (rule : Rule)
        → Clean (open_wanted manager down tracked key rule)
    unfolding open_wanted
    open_wanted-Clean tracked key rule = record {
      at = λ w. elim (Bool-cases (is_some (lookup key tracked) && w.verified)) [
        | inl skip ↦ rw (skip, open_wanted) tt
        | inr go ↦ rw (go, open_wanted) ((open_rule-Clean (lookup key tracked) rule).at w)
      ];
    }

    open_all-Clean :
        (tracked : Map Text Rule) (rules : List (Text × Rule))
        → Clean (open_all manager down tracked rules)
    unfolding open_all
    open_all-Clean tracked [] = record { at = λ w. tt }
    open_all-Clean tracked ((key, rule) ∷ rules) =
        Clean-bind (open_wanted manager down tracked key rule) _
          (open_wanted-Clean tracked key rule) λ _ w _. (open_all-Clean tracked rules).at _

    sync_rules-Clean : (desired : Map Text Rule) → Clean (sync_rules manager down desired)
    unfolding sync_rules verify
    sync_rules-Clean desired = Clean-bind _ _ managed_firewall_rules-Clean λ tracked u _.
        (Clean-bind _ _ (drop_stale-Clean desired tracked) λ _ v _.
            (Clean-bind _ _ (open_all-Clean (tracked_set [] tracked) (in_key_order desired))
                λ _ w _. tt).at
              _).at
          _

-- Over `System`, `syncFirewall` never fails for an ownership or a backend that it cannot record,
-- whatever the commands of the host answer.
pub sync_firewall-IsClean :
    {Host : Type 0} (runner : Runner Host) (lower : ℕ → ℕ) (decode : Text → Option (List NftObject))
    (down : ℕ → Bool) (local_listen : Text → Bool) (nodes : List Node) (w : World (Shell Host))
    → IsClean (sync_firewall (system runner lower decode) down local_listen nodes w).0
unfolding sync_firewall system
sync_firewall-IsClean runner lower decode down local_listen nodes w =
    (sync_rules-Clean (system runner lower decode) down
        (λ p n h o e. (ensure-IsAnswer runner lower decode p n).at h o e)
        (desired_rules local_listen [] nodes)).at
      w
