-- ===== src/Node/Sync/Grows.antt =====
-- Which rules are tracked after the two loops of `syncFirewall`.
use Prim.Native.Nat.{ℕ}
use Prim.Native.String.{String}
use mathlib.Core.Path.{◌≡◌, refl, ◌∙◌}
use mathlib.Core.Logic.{inl, inr}
use mathlib.Core.Bool.{Bool}
use mathlib.Core.Option.{Option, none, some}
use native.Mathlib.Omega.{arith}
use j_ui.Base.{◌==◌, nat_equality, string_equality, Bool-cases, Option-cases}
use j_ui.Base.Text.{text_equality}
use j_ui.Store.Rules.{
  Rule, owned, is_ownership, is_backend, is_tracked, set_firewall_rule_ownership,
}
use j_ui.Store.Rules.Laws.{is_tracked-set_ownership}
use j_ui.Node.Sync.Trace.{bind-holds}
use j_ui.Node.Sync.Ready.{when-holds}
use j_ui.Node.Sync.{
  World, Manager, Opening, ◌>>=◌, ◌>>◌, fail, when, close, close_quietly, statement, ask_backend,
  leave_backend, ensure, settle_opening, backend_changed,
}

module _ {Host : Type 0} (manager : Manager Host) (down : ℕ → Bool) (p : String) (n : ℕ) where
  abbrev here : World Host → Bool
  here w = is_tracked p n w.rules

  close-here :
      (q : String) (m : ℕ) (b : String) (w : World Host)
      → here (close manager down q m b w).1 ≡ here w
  unfolding close
  close-here q m b w = ground arith

  ask_backend-here : (w : World Host) → here (ask_backend manager down w).1 ≡ here w
  unfolding ask_backend
  ask_backend-here w = ground arith

  ensure-here : (q : String) (m : ℕ) (w : World Host) → here (ensure manager down q m w).1 ≡ here w
  unfolding ensure
  ensure-here q m w = ground arith

  module _ (rule : Rule) where
    leave_backend-here :
        (before : Option Rule) (active : String) (w : World Host)
        → here (leave_backend manager down before active rule w).1 ≡ here w
    unfolding leave_backend
    leave_backend-here none active w = refl
    leave_backend-here (some b) active w =
        when-holds (λ u. here u ≡ here w) _ (close manager down rule.protocol rule.port b.backend) w
          refl λ h. close-here rule.protocol rule.port b.backend w

    take_back-here :
        (o : Opening) (w : World Host)
        → here
            ((when
                  (o.ownership == owned)
                  (close_quietly manager down rule.protocol rule.port o.backend)
                >> fail {A = Unit {0}} backend_changed)
              w).1
          ≡ here w
    unfolding close_quietly
    take_back-here o w =
        let shut =
          when-holds (λ u. here u ≡ here w) (o.ownership == owned)
            (close_quietly manager down rule.protocol rule.port o.backend) w refl
            (λ h. close-here rule.protocol rule.port o.backend w) in
        bind-holds (λ u. here u ≡ here w)
          (when (o.ownership == owned)
            (close_quietly manager down rule.protocol rule.port o.backend))
          (λ _. fail {A = Unit {0}} backend_changed) w shut (λ _ _. shut)

    record_opening-here :
        (o : Opening) (w : World Host)
        → here
            (statement manager down
              (set_firewall_rule_ownership rule.protocol rule.port o.ownership o.backend)
              w).1
          ≡ here w
    unfolding statement
    record_opening-here o w = ground (
      arith,
      Option-cases
          (set_firewall_rule_ownership rule.protocol rule.port o.ownership o.backend w.rules),
      is_tracked-set_ownership rule.protocol rule.port o.ownership o.backend p n w.rules
          (statement manager down
            (set_firewall_rule_ownership rule.protocol rule.port o.ownership o.backend) w).1.rules,
    )

    settle_opening-here :
        (active : String) (o : Opening) (w : World Host)
        → here (settle_opening manager down rule active o w).1 ≡ here w
    unfolding settle_opening
    settle_opening-here active o w = elim (Bool-cases (is_ownership o.ownership)) [
      | inr bad ↦ rw (bad, settle_opening) refl
      | inl fine ↦ elim (Bool-cases (is_backend o.backend)) [
        | inr bad ↦ rw (fine, bad, settle_opening) refl
        | inl known ↦ elim (Bool-cases (o.backend == active)) [
          | inl same ↦ rw (fine, known, same, settle_opening) (record_opening-here o w)
          | inr moved ↦ rw (fine, known, moved, settle_opening) (take_back-here o w)
        ]
      ]
    ]

    -- What follows the tracking changes no key of the table.
    pub after_track-here :
        (before : Option Rule) (w : World Host)
        → here
            ((ask_backend manager down >>= λ active.
                leave_backend manager down before active rule
                >> (ensure manager down rule.protocol rule.port
                    >>= settle_opening manager down rule active))
              w).1
          ≡ here w
    after_track-here before w =
        let asked = ask_backend-here w in
        bind-holds (λ u. here u ≡ here w) (ask_backend manager down) _ w asked
          λ active _.
            let left = leave_backend-here before active _ ∙ asked in
            bind-holds (λ u. here u ≡ here w) (leave_backend manager down before active rule) _ _
              left
              λ _ _.
                let opened = ensure-here rule.protocol rule.port _ ∙ left in
                bind-holds (λ u. here u ≡ here w) (ensure manager down rule.protocol rule.port)
                  (settle_opening manager down rule active) _ opened
                  λ o _. settle_opening-here active o _ ∙ opened
