-- ===== src/Node/Sync/Stale.antt =====
-- The first loop of `syncFirewall`: rules that no node wants are closed, unless they are borrowed,
-- and only then forgotten.
use Prim.Native.Nat.{ℕ}
use Prim.Native.String.{String}
use mathlib.Core.Path.{◌≡◌, refl, ◌∙◌, ap}
use mathlib.Core.Logic.{◌⊎◌, inl, inr, ◌≢◌}
use mathlib.Core.Bool.{Bool, true, false, not, ◌&&◌}
use mathlib.Core.List.{List, [], ◌∷◌}
use mathlib.Core.Option.{some}
use native.Mathlib.Omega.{arith}
use text.Mathlib.TextEquality.{eq_iff}
use j_ui.Base.{if◌then◌else◌, nat_equality, string_equality, nat_same_iff, Bool-cases}
use j_ui.Base.Map.{Map, has}
use j_ui.Base.Text.{Text, text_equality}
use j_ui.Store.Rules.{Rule, is_rule, borrowed, is_tracked, find_rule, forget_firewall_rule}
use j_ui.Store.Rules.Laws.{same_key, is_tracked-forget}
use j_ui.Node.Sync.Trace.{Asked, IsTable, Justified, Kept, NoEnsure, bind-holds, bind-eq-ok}
use j_ui.Node.Sync.{
  World, Manager, Call, closed, ok, ◌>>◌, firewall_rule_key, key_of, drop_rule, drop_stale,
}

-- The invariant of the first loop, in which nothing is opened.
pub record Closing {Host : Type 0} (start : List Rule) (w : World Host) : Type 0 where
  pub justified : Justified start w.calls
  pub quiet : NoEnsure w.calls
  pub kept : Kept start w.rules w.calls

pub is_tracked-cons :
    (p : String) (n : ℕ) (r : Rule) (rules : List Rule)
    → is_tracked p n (r ∷ rules) ≡ (if is_rule p n r then true else is_tracked p n rules)
unfolding is_tracked
is_tracked-cons p n r rules = ground arith

has-key_of :
    (p : String) (n : ℕ) (r : Rule) (desired : Map Text Rule)
    → is_rule p n r ≡ true
    → has (key_of r) desired ≡ has (firewall_rule_key p n) desired
has-key_of p n r desired h = ground (arith, eq_iff r.protocol p, nat_same_iff r.port n)

module _ {Host : Type 0} (manager : Manager Host) (down : ℕ → Bool) where
  -- The two changes that the loop's body makes.
  pub record Drops (r : Rule) (v w : World Host) : Type 0 where
    pub asks :
        (w.calls ≡ v.calls)
        ⊎ (r.ownership ≢ borrowed)
          × ((done : Bool) × (w.calls ≡ closed r.protocol r.port r.backend done ∷ v.calls))
    pub forgets :
        (w.rules ≡ v.rules)
        ⊎ (w.rules ≡ forget_firewall_rule r.protocol r.port v.rules)
          × ((r.ownership ≡ borrowed)
              ⊎ (w.calls ≡ closed r.protocol r.port r.backend true ∷ v.calls))

  drop_rule-Drops : (r : Rule) (w : World Host) → Drops r w (drop_rule manager down r w).1
  unfolding drop_rule
  drop_rule-Drops r w = ground (arith, eq_iff r.ownership borrowed)

  pub drop_rule-ok :
      (r : Rule) (w : World Host)
      → (drop_rule manager down r w).0 ≡ ok tt
      → (drop_rule manager down r w).1.rules ≡ forget_firewall_rule r.protocol r.port w.rules
  unfolding drop_rule
  drop_rule-ok r w e = ground arith

  Drops-Justified :
      (start : List Rule) (r : Rule) (v w : World Host)
      → find_rule r.protocol r.port start ≡ some r
      → Drops r v w
      → Justified start v.calls
      → Justified start w.calls
  Drops-Justified start r v w own d j = elim d.asks [
    | inl e ↦ rw e j
    | inr (lent, (done, e)) ↦ rw e (inl (r, own, refl, lent, refl), j)
  ]

  Drops-NoEnsure : (r : Rule) (v w : World Host) → Drops r v w → NoEnsure v.calls → NoEnsure w.calls
  Drops-NoEnsure r v w d q = elim d.asks [ inl e ↦ rw e q | inr (lent, (done, e)) ↦ rw e q ]

  Drops-Asked :
      (r : Rule) (c : Call) (v w : World Host) → Drops r v w → Asked c v.calls → Asked c w.calls
  Drops-Asked r c v w d a = elim d.asks [ inl e ↦ rw e a | inr (lent, (done, e)) ↦ rw e (inr a) ]

  -- The rule that goes is closed, or it was borrowed.
  Drops-Kept :
      (start : List Rule) (r : Rule) (v w : World Host)
      → find_rule r.protocol r.port start ≡ some r
      → Drops r v w
      → Kept start v.rules v.calls
      → Kept start w.rules w.calls
  Drops-Kept start r v w own d k p n s found = elim (k p n s found) [
    | inl here ↦ elim d.forgets [
      | inl e ↦ inl (ap (is_tracked p n) e ∙ here)
      | inr (e, why) ↦ elim (Bool-cases (same_key r.protocol r.port p n)) [
        | inl same ↦
            let at : (r.protocol ≡ p) × (r.port ≡ n) =
              ground (arith, eq_iff r.protocol p, nat_same_iff r.port n) in
            let one : r ≡ s = ground (arith, at, own, found) in
            elim why [
              | inl lent ↦ inr (inl (ground (arith, one, lent)))
              | inr shut ↦ inr (inr (rw shut (inl (ground (arith, one, at)))))
            ]
        | inr other ↦ inl (
            ap (is_tracked p n) e ∙ ground (arith, is_tracked-forget r.protocol r.port p n v.rules))
      ]
    ]
    | inr (inl lent) ↦ inr (inl lent)
    | inr (inr shut) ↦ inr (inr (Drops-Asked r _ v w d shut))
  ]

  drop_rule-Closing :
      (start : List Rule) (r : Rule) (w : World Host)
      → find_rule r.protocol r.port start ≡ some r
      → Closing start w
      → Closing start (drop_rule manager down r w).1
  drop_rule-Closing start r w own c =
      let d = drop_rule-Drops r w in
      record {
        justified = Drops-Justified start r w _ own d c.justified;
        quiet = Drops-NoEnsure r w _ d c.quiet;
        kept = Drops-Kept start r w _ own d c.kept;
      }

  pub drop_stale-Closing :
      (start : List Rule) (desired : Map Text Rule) (rules : List Rule) (w : World Host)
      → IsTable start rules
      → Closing start w
      → Closing start (drop_stale manager down desired rules w).1
  unfolding drop_stale
  drop_stale-Closing start desired [] w t c = c
  drop_stale-Closing start desired (r ∷ rules) w t c = elim (Bool-cases (has (key_of r) desired)) [
    | inl wanted ↦ rw (wanted, drop_stale) (drop_stale-Closing start desired rules w t.1 c)
    | inr stale ↦
        rw (stale, drop_stale)
          (bind-holds (Closing start) (drop_rule manager down r)
            (λ _. drop_stale manager down desired rules) w (drop_rule-Closing start r w t.0 c)
            λ _ _.
              drop_stale-Closing start desired rules (drop_rule manager down r w).1 t.1
                (drop_rule-Closing start r w t.0 c))
  ]

  drop_stale_wanted_step :
      (desired : Map Text Rule) (r : Rule) (rules : List Rule) (w : World Host)
      → has (key_of r) desired ≡ true
      → drop_stale manager down desired (r ∷ rules) w ≡ drop_stale manager down desired rules w
  unfolding drop_stale
  drop_stale_wanted_step desired r rules w h = rw h

  drop_stale_stale_step :
      (desired : Map Text Rule) (r : Rule) (rules : List Rule) (w : World Host)
      → has (key_of r) desired ≡ false
      → drop_stale manager down desired (r ∷ rules) w
        ≡ (drop_rule manager down r >> drop_stale manager down desired rules) w
  unfolding drop_stale
  drop_stale_stale_step desired r rules w h = rw h

  -- After a successful first loop the rules of its list that no node wants are gone, and no other.
  pub drop_stale-tracked :
      (desired : Map Text Rule) (rules : List Rule) (w : World Host) (p : String) (n : ℕ)
      → (drop_stale manager down desired rules w).0 ≡ ok tt
      → is_tracked p n (drop_stale manager down desired rules w).1.rules ≡ (
          if is_tracked p n rules && not (has (firewall_rule_key p n) desired)
          then false
          else is_tracked p n w.rules)
  drop_stale-tracked desired [] w p n e = unfold drop_stale is_tracked in refl
  drop_stale-tracked desired (r ∷ rules) w p n e = elim (Bool-cases (has (key_of r) desired)) [
    | inl wanted ↦
        let step = drop_stale_wanted_step desired r rules w wanted in
        let ih = drop_stale-tracked desired rules w p n (rw step at e) in
        rw step (ground (arith, ih, wanted, is_tracked-cons p n r rules, has-key_of p n r desired))
    | inr stale ↦
        let step = drop_stale_stale_step desired r rules w stale in
        let (u, dropped, same) =
          bind-eq-ok (drop_rule manager down r) (λ _. drop_stale manager down desired rules) w tt
            (rw step at e) in
        let next : World Host = (drop_rule manager down r w).1 in
        let whole = step ∙ same in
        let ih = drop_stale-tracked desired rules next p n (rw whole at e) in
        rw whole (
          ground (
            arith,
            ih,
            stale,
            has-key_of p n r desired,
            drop_rule-ok r w dropped,
            is_tracked-forget r.protocol r.port p n w.rules,
            is_tracked-cons p n r rules,
            eq_iff r.protocol p,
            nat_same_iff r.port n,
          ))
  ]
