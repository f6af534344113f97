-- ===== src/Node/Mutations/Atomic.antt =====
-- The compensation of the transactions on nodes.
use Prim.Native.Nat.{ℕ}
use mathlib.Core.Path.{◌≡◌, refl, ◌∙◌, sym, ap}
use mathlib.Core.Logic.{◌⊎◌, inl, inr}
use mathlib.Core.Bool.{Bool, true, false}
use mathlib.Core.List.{[], ◌∷◌}
use native.Mathlib.Omega.{arith}
use j_ui.Base.{Bool-cases}
use j_ui.Store.Nodes.{Tables, Written, written, conflict, refused, no_rows}
use j_ui.Node.Panel.{
  Panel, Setup, Fault, joined, Answer, done, failed, Act, pure, ◌>>=◌, statement, commit, tick,
  run_steps, compensate, or_else,
}
use j_ui.Node.Panel.Stability.{Stable}
use j_ui.Node.Reconcile.{reconcile}
use j_ui.Node.Reconcile.Stability.{reconcile-Stable}

-- The error names more than its cause: a compensation failed too.
abbrev pub is_joined : Fault → Bool
is_joined (joined e f) = true
is_joined _ = false

pub Answer-cases :
    {A : Type 0} (r : Answer A) → ((a : A) × (r ≡ done a)) ⊎ ((f : Fault) × (r ≡ failed f))
Answer-cases (done a) = inl (a, refl)
Answer-cases (failed f) = inr (f, refl)

module _ {Host A : Type 0} (down : ℕ → Bool) (change : Tables → Written (A × Tables)) where
  commit-done :
      (r : Written (A × Tables)) (p : Panel Host) (a : A)
      → (commit r p).0 ≡ done a
      → r ≡ written (a, (commit r p).1.tables)
  commit-done (written (b, t)) p a e = ground (arith, e)
  commit-done conflict p a e = cc e
  commit-done refused p a e = cc e
  commit-done no_rows p a e = cc e

  commit-failed :
      (r : Written (A × Tables)) (p : Panel Host) (f : Fault)
      → (commit r p).0 ≡ failed f
      → (commit r p).1.tables ≡ p.tables
  commit-failed (written (b, t)) p f e = cc e
  commit-failed conflict p f e = refl
  commit-failed refused p f e = refl
  commit-failed no_rows p f e = refl

  pub statement-done :
      (p : Panel Host) (a : A)
      → (statement down change p).0 ≡ done a
      → change p.tables ≡ written (a, (statement down change p).1.tables)
  unfolding statement
  statement-done p a e = elim (Bool-cases (down p.world.ticks)) [
    | inl fails ↦ absurd (ground (arith, rw fails at e))
    | inr runs ↦ rw runs (commit-done (change p.tables) (tick p) a (rw runs at e))
  ]

  pub statement-failed :
      (p : Panel Host) (f : Fault)
      → (statement down change p).0 ≡ failed f
      → (statement down change p).1.tables ≡ p.tables
  unfolding statement
  statement-failed p f e = elim (Bool-cases (down p.world.ticks)) [
    | inl fails ↦ rw fails refl
    | inr runs ↦ rw runs (commit-failed (change p.tables) (tick p) f (rw runs at e))
  ]

module _ {Host A : Type 0} (down : ℕ → Bool) (e : Fault) (undo again : Act Host (Unit {0})) where
  -- An error that is not joined: each step went well.
  compensate-clean :
      (p : Panel Host) (f : Fault)
      → Stable again
      → (compensate {A = A} down e (undo ∷ again ∷ []) p).0 ≡ failed f
      → is_joined f ≡ false
      → ((undo p).0 ≡ done tt)
        × ((compensate {A = A} down e (undo ∷ again ∷ []) p).1.tables ≡ (undo p).1.tables)
  unfolding compensate run_steps
  compensate-clean p f s h j = elim (Answer-cases (undo p).0) [
    | inr (g, a) ↦ elim (Answer-cases (again (undo p).1).0) [
      | inl (v, b) ↦ absurd (ground (arith, rw (a, b) at h, j))
      | inr (k, b) ↦ absurd (ground (arith, rw (a, b) at h, j))
    ]
    | inl (u, a) ↦ elim (Answer-cases (again (undo p).1).0) [
      | inl (v, b) ↦ (a, rw (a, b) (s.same (undo p).1))
      | inr (g, b) ↦ absurd (ground (arith, rw (a, b) at h, j))
    ]
  ]

abbrev pub Settled : Bool → Tables → Tables → Type 0
Settled true before t = Unit
Settled false before t = t ≡ before

-- Where a run that begins with the tables `before` ends: with those of its success, or with an error
-- after which, unless it is joined, the tables are as they were.
abbrev pub IsAtomic : {A : Type 0} → Tables → (A → Tables → Type 0) → Answer A → Tables → Type 0
IsAtomic before after (done a) t = after a t
IsAtomic before after (failed f) t = Settled (is_joined f) before t

module _ {Host A : Type 0} (setup : Setup Host) (undo : Act Host (Unit {0})) (a : A) where
  -- The reconciliation, with the compensation that undoes a change.
  abbrev pub guarded : Act Host A
  guarded =
      or_else (reconcile setup) (λ e. compensate setup.down e (undo ∷ reconcile setup ∷ []))
        (pure a)

  guarded-failed :
      (before : Tables) (p : Panel Host) (f : Fault)
      → ((q : Panel Host) → q.tables ≡ p.tables → (undo q).0 ≡ done tt → (undo q).1.tables ≡ before)
      → (guarded p).0 ≡ failed f
      → is_joined f ≡ false
      → (guarded p).1.tables ≡ before
  unfolding or_else pure
  guarded-failed before p f undone h j = elim (Answer-cases (reconcile setup p).0) [
    | inl (u, e) ↦ absurd (ground (arith, rw e at h))
    | inr (g, e) ↦
        let clean =
          compensate-clean {A = A} setup.down g undo (reconcile setup) (reconcile setup p).1 f
            (reconcile-Stable setup) (rw e at h) j in
        rw e (clean.1 ∙ undone (reconcile setup p).1 ((reconcile-Stable setup).same p) clean.0)
  ]

  guarded-done :
      (p : Panel Host) (b : A)
      → (guarded p).0 ≡ done b
      → (a ≡ b) × ((guarded p).1.tables ≡ p.tables)
  unfolding or_else pure compensate
  guarded-done p b h = elim (Answer-cases (reconcile setup p).0) [
    | inl (u, e) ↦ (ground (arith, rw e at h), rw e ((reconcile-Stable setup).same p))
    | inr (g, e) ↦ absurd (ground (arith, rw e at h))
  ]

settled : (joint : Bool) (before t : Tables) → (joint ≡ false → t ≡ before) → Settled joint before t
settled true before t h = tt
settled false before t h = h refl

pub IsAtomic-intro :
    {A : Type 0} (before : Tables) (after : A → Tables → Type 0) (r : Answer A) (t : Tables)
    → ((a : A) → r ≡ done a → after a t)
    → ((f : Fault) → r ≡ failed f → is_joined f ≡ false → t ≡ before)
    → IsAtomic before after r t
IsAtomic-intro before after (done a) t h k = h a refl
IsAtomic-intro before after (failed f) t h k = settled (is_joined f) before t (k f refl)

module _ {Host A : Type 0} (setup : Setup Host) (change : Tables → Written (A × Tables))
    (undo : A → Tables → Written (Unit {0} × Tables)) where
  -- A statement that changes the tables, and the reconciliation whose failure undoes it.
  abbrev pub transaction : Act Host A
  transaction = statement setup.down change >>= λ a. guarded setup (statement setup.down (undo a)) a

  undo-back :
      (a : A) (before t : Tables) (q : Panel Host)
      → undo a t ≡ written (tt, before)
      → q.tables ≡ t
      → (statement setup.down (undo a) q).0 ≡ done tt
      → (statement setup.down (undo a) q).1.tables ≡ before
  undo-back a before t q back e d =
      let now = statement-done setup.down (undo a) q tt d in
      let same = sym now ∙ ap (undo a) e ∙ back in ground (arith, same)

  -- If undoing takes each result of the change back, the transaction is atomic.
  pub transaction-IsAtomic :
      (p : Panel Host)
      → ((a : A) (t : Tables)
          → change p.tables ≡ written (a, t)
          → undo a t ≡ written (tt, p.tables))
      → IsAtomic p.tables
          (λ a t. change p.tables ≡ written (a, t))
          (transaction p).0
          (transaction p).1.tables
  unfolding ◌>>=◌
  transaction-IsAtomic p back = elim (Answer-cases (statement setup.down change p).0) [
    | inr (f, e) ↦
        rw e (settled (is_joined f) p.tables _ λ _. statement-failed setup.down change p f e)
    | inl (a, e) ↦
        let q = (statement setup.down change p).1 in
        let wrote = statement-done setup.down change p a e in
        rw e (
          IsAtomic-intro p.tables _ (guarded setup (statement setup.down (undo a)) a q).0 _
            (λ b d.
              let g = guarded-done setup (statement setup.down (undo a)) a q b d in
              wrote ∙ ap (λ c. written (c, q.tables)) g.0 ∙ ap (λ t. written (b, t)) (sym g.1))
            (λ f d j.
              guarded-failed setup (statement setup.down (undo a)) a p.tables q f
                (λ r same ok. undo-back a p.tables q.tables r (back a q.tables wrote) same ok) d j))
  ]

  pub transaction-done :
      (p : Panel Host) (b : A)
      → (transaction p).0 ≡ done b
      → change p.tables ≡ written (b, (transaction p).1.tables)
  unfolding ◌>>=◌
  transaction-done p b e = elim (Answer-cases (statement setup.down change p).0) [
    | inr (f, failing) ↦ absurd (ground (arith, rw failing at e))
    | inl (a, wrote) ↦
        let q = (statement setup.down change p).1 in
        let g = guarded-done setup (statement setup.down (undo a)) a q b (rw wrote at e) in
        rw wrote (
          statement-done setup.down change p a wrote
          ∙ ap (λ c. written (c, q.tables)) g.0
          ∙ ap (λ t. written (b, t)) (sym g.1))
  ]
