-- ===== src/Node/Sync/Ready.antt =====
-- The calls of the second loop of `syncFirewall`, for a rule that is tracked.
use Prim.Native.Nat.{ℕ}
use Prim.Native.String.{String}
use mathlib.Core.Path.{◌≡◌, subst, refl, ◌∙◌}
use mathlib.Core.Logic.{◌⊎◌, inl, inr, ◌≢◌}
use mathlib.Core.Bool.{Bool, true, false}
use mathlib.Core.List.{List, ◌∷◌}
use mathlib.Core.Option.{Option, none, some}
use native.Mathlib.Omega.{arith}
use text.Mathlib.TextEquality.{eq_iff}
use j_ui.Base.{◌==◌, nat_equality, string_equality, nat_same_iff, Bool-cases, Option-cases}
use j_ui.Base.Text.{text_equality}
use j_ui.Store.Rules.{
  Rule, borrowed, owned, is_ownership, is_backend, is_tracked, track_firewall_rule,
  set_firewall_rule_ownership,
}
use j_ui.Store.Rules.Laws.{is_tracked-track, is_tracked-set_ownership}
use j_ui.Node.Sync.Trace.{
  Asked, MayClose, Justified, EnsuredTracked, EnsuredTracked-mono, Inv, bind-holds,
}
use j_ui.Node.Sync.{
  World, Manager, Call, ensured, closed, Opening, ok, Action, ◌>>◌, fail, when, close,
  close_quietly, statement, ask_backend, leave_backend, ensure, settle_opening, backend_changed,
}

pub when-holds {κ} :
    {Host : Type 0} (P : World Host → Type κ) (b : Bool) (m : Action Host (Unit {0}))
    (w : World Host)
    → P w
    → (b ≡ true → P (m w).1)
    → P (when b m w).1
when-holds P true m w p q = q refl
when-holds P false m w p q = p

pub owned_ne_borrowed : owned ≢ borrowed
owned_ne_borrowed = ground (arith, eq_iff owned borrowed)

module _ {Host : Type 0} (start : List Rule) where
  -- More rules, and the same calls.
  Inv-more :
      (v w : World Host)
      → ((p : String) (n : ℕ) → is_tracked p n v.rules ≡ true → is_tracked p n w.rules ≡ true)
      → w.calls ≡ v.calls
      → Inv start v
      → Inv start w
  Inv-more v w more same i = record {
    justified = rw same i.justified;
    opened = rw same (EnsuredTracked-mono v.rules w.rules v.calls more i.opened);
    kept = λ p n r found. elim (i.kept p n r found) [
      | inl here ↦ inl (more p n here)
      | inr (inl lent) ↦ inr (inl lent)
      | inr (inr shut) ↦ inr (inr (rw same shut))
    ];
  }

  -- One more call, and the same rules.
  Inv-call :
      (c : Call) (v w : World Host)
      → (Justified start v.calls → Justified start (c ∷ v.calls))
      → (EnsuredTracked v.rules v.calls → EnsuredTracked v.rules (c ∷ v.calls))
      → w.rules ≡ v.rules
      → w.calls ≡ c ∷ v.calls
      → Inv start v
      → Inv start w
  Inv-call c v w j o same more i = record {
    justified = rw more (j i.justified);
    opened = rw (same, more) (o i.opened);
    kept = λ p n r found. elim (i.kept p n r found) [
      | inl here ↦ inl (rw same here)
      | inr (inl lent) ↦ inr (inl lent)
      | inr (inr shut) ↦ inr (inr (rw more (inr shut)))
    ];
  }

  -- The rule is tracked, so the firewall may be asked for it.
  pub record Ready (p : String) (n : ℕ) (w : World Host) : Type 0 where
    pub inv : Inv start w
    pub here : is_tracked p n w.rules ≡ true

module _ {Host : Type 0} (manager : Manager Host) (down : ℕ → Bool) (start : List Rule)
    (rule : Rule) where
  abbrev pub track : Action Host (Unit {0})
  track = statement manager down (track_firewall_rule rule.protocol rule.port)

  abbrev pub ReadyFor : World Host → Type 0
  ReadyFor w = Ready start rule.protocol rule.port w

  track-grows :
      (w : World Host) (p : String) (n : ℕ)
      → is_tracked p n w.rules ≡ true
      → is_tracked p n (track w).1.rules ≡ true
  unfolding statement
  track-grows w p n h = ground (
    arith,
    Option-cases (track_firewall_rule rule.protocol rule.port w.rules),
    is_tracked-track rule.protocol rule.port p n w.rules (track w).1.rules,
  )

  track-calls : (w : World Host) → (track w).1.calls ≡ w.calls
  unfolding statement
  track-calls w = ground arith

  pub track-here :
      (w : World Host)
      → (track w).0 ≡ ok tt
      → is_tracked rule.protocol rule.port (track w).1.rules ≡ true
  unfolding statement
  track-here w e = ground (
    arith,
    eq_iff rule.protocol rule.protocol,
    nat_same_iff rule.port rule.port,
    is_tracked-track rule.protocol rule.port rule.protocol rule.port w.rules (track w).1.rules,
  )

  pub track-Inv : (w : World Host) → Inv start w → Inv start (track w).1
  track-Inv w i = Inv-more start w (track w).1 (track-grows w) (track-calls w) i

  same-Ready : (v w : World Host) → w.rules ≡ v.rules → w.calls ≡ v.calls → ReadyFor v → ReadyFor w
  same-Ready v w same more r = record {
    inv = Inv-more start v w (λ p n h. rw same h) more r.inv;
    here = rw same r.here;
  }

  pub ask_backend-Ready : (w : World Host) → ReadyFor w → ReadyFor (ask_backend manager down w).1
  ask_backend-Ready w r =
      same-Ready w _ (unfold ask_backend in ground arith) (unfold ask_backend in ground arith) r

  -- `Close` is asked for the rule, on a backend on which it may be.
  close-Ready :
      (backend : String) (w : World Host)
      → MayClose start rule.protocol rule.port backend
        ⊎ Asked
            (ensured rule.protocol rule.port
              (some (record { ownership = owned; backend = backend })))
            w.calls
      → ReadyFor w
      → ReadyFor (close manager down rule.protocol rule.port backend w).1
  close-Ready backend w why r =
      let same : (close manager down rule.protocol rule.port backend w).1.rules ≡ w.rules =
        unfold close in ground arith in
      record {
        inv =
            Inv-call start
              (closed rule.protocol rule.port backend
                (manager.close rule.protocol rule.port backend w.host).0)
              w _ (λ j. (why, j)) (λ o. o) same (unfold close in ground arith) r.inv;
        here = rw same r.here;
      }

  pub leave_backend-Ready :
      (before : Option Rule) (active : String) (w : World Host)
      → ((b : Rule)
          → before ≡ some b
          → b.ownership ≡ owned
          → MayClose start rule.protocol rule.port b.backend)
      → ReadyFor w
      → ReadyFor (leave_backend manager down before active rule w).1
  leave_backend-Ready none active w may r = unfold leave_backend in r
  leave_backend-Ready (some b) active w may r =
      unfold leave_backend in
      when-holds ReadyFor _ (close manager down rule.protocol rule.port b.backend) w r
        λ h. close-Ready b.backend w (inl (may b refl (ground (arith, eq_iff b.ownership owned)))) r

  pub ensure-Ready :
      (w : World Host) → ReadyFor w → ReadyFor (ensure manager down rule.protocol rule.port w).1
  ensure-Ready w r =
      let same : (ensure manager down rule.protocol rule.port w).1.rules ≡ w.rules =
        unfold ensure in ground arith in
      record {
        inv =
            Inv-call start
              (ensured rule.protocol rule.port (manager.ensure rule.protocol rule.port w.host).0) w
              _ (λ j. j) (λ o. (r.here, o)) same (unfold ensure in ground arith) r.inv;
        here = rw same r.here;
      }

  pub ensure-Asked :
      (w : World Host) (o : Opening)
      → (ensure manager down rule.protocol rule.port w).0 ≡ ok o
      → Asked
          (ensured rule.protocol rule.port (some o))
          (ensure manager down rule.protocol rule.port w).1.calls
  unfolding ensure
  ensure-Asked w o e =
      ground (arith, Option-cases (manager.ensure rule.protocol rule.port w.host).0)

  -- The answer that is taken back: J-UI's own, on the backend that the manager named.
  close_quietly-Ready :
      (o : Opening) (w : World Host)
      → Asked (ensured rule.protocol rule.port (some o)) w.calls
      → (o.ownership == owned) ≡ true
      → ReadyFor w
      → ReadyFor (close_quietly manager down rule.protocol rule.port o.backend w).1
  unfolding close_quietly
  close_quietly-Ready o w asked h r =
      close-Ready o.backend w
        (inr (
          subst
            (λ (s : String).
              Asked
                (ensured rule.protocol rule.port
                  (some (record { ownership = s; backend = o.backend })))
                w.calls)
            ((eq_iff _ _).0 h) asked))
        r

  abbrev take_back : Opening → Action Host (Unit {0})
  take_back o =
      when (o.ownership == owned) (close_quietly manager down rule.protocol rule.port o.backend)
      >> fail backend_changed

  take_back-Ready :
      (o : Opening) (w : World Host)
      → Asked (ensured rule.protocol rule.port (some o)) w.calls
      → ReadyFor w
      → ReadyFor (take_back o w).1
  take_back-Ready o w asked r =
      let closed_again =
        when-holds ReadyFor _ (close_quietly manager down rule.protocol rule.port o.backend) w r
          (λ h. close_quietly-Ready o w asked h r) in
      bind-holds ReadyFor
        (when (o.ownership == owned) (close_quietly manager down rule.protocol rule.port o.backend))
        (λ _. fail {A = Unit {0}} backend_changed) w closed_again (λ _ _. closed_again)

  abbrev set_ownership : Opening → Action Host (Unit {0})
  set_ownership o =
      statement manager down
        (set_firewall_rule_ownership rule.protocol rule.port o.ownership o.backend)

  set_ownership-tracked :
      (o : Opening) (w : World Host) (p : String) (n : ℕ)
      → is_tracked p n (set_ownership o w).1.rules ≡ is_tracked p n w.rules
  unfolding statement
  set_ownership-tracked o w p n = ground (
    arith,
    Option-cases
        (set_firewall_rule_ownership rule.protocol rule.port o.ownership o.backend w.rules),
    is_tracked-set_ownership rule.protocol rule.port o.ownership o.backend p n w.rules
        (set_ownership o w).1.rules,
  )

  set_ownership-Ready : (o : Opening) (w : World Host) → ReadyFor w → ReadyFor (set_ownership o w).1
  set_ownership-Ready o w r = record {
    inv =
        Inv-more start w (set_ownership o w).1 (λ p n h. set_ownership-tracked o w p n ∙ h)
          (unfold statement in ground arith) r.inv;
    here = set_ownership-tracked o w rule.protocol rule.port ∙ r.here;
  }

  pub settle_opening-Ready :
      (active : String) (o : Opening) (w : World Host)
      → Asked (ensured rule.protocol rule.port (some o)) w.calls
      → ReadyFor w
      → ReadyFor (settle_opening manager down rule active o w).1
  unfolding settle_opening
  settle_opening-Ready active o w asked r = elim (Bool-cases (is_ownership o.ownership)) [
    | inr bad ↦ rw (bad, settle_opening) r
    | inl fine ↦ elim (Bool-cases (is_backend o.backend)) [
      | inr bad ↦ rw (fine, bad, settle_opening) r
      | inl known ↦ elim (Bool-cases (o.backend == active)) [
        | inl same ↦ rw (fine, known, same, settle_opening) (set_ownership-Ready o w r)
        | inr moved ↦ rw (fine, known, moved, settle_opening) (take_back-Ready o w asked r)
      ]
    ]
  ]
