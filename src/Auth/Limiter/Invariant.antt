-- ===== src/Auth/Limiter/Invariant.antt =====
-- The limiter's invariant, and that each of its operations keeps it.
use Prim.Native.Nat.{ℕ, suc, ◌+◌, ◌≤◌, ◌<◌}
use Prim.Native.String.{String}
use mathlib.Core.Path.{◌≡◌, refl, ◌∙◌, sym, ap}
use mathlib.Core.Logic.{inl, inr, ◌⊎◌}
use mathlib.Core.Bool.{true, false}
use mathlib.Core.List.{List, ◌∷◌}
use native.Mathlib.Omega.{arith}
use text.Mathlib.TextEquality.{eq_iff}
use j_ui.Base.{if◌then◌else◌, string_equality, length, count}
use j_ui.Base.Map.{Map, lookup, insert, has, size, get_or, Distinct, lookup-insert, insert-Distinct}
use j_ui.Auth.Limiter.Prune.{recent, prune}
use j_ui.Auth.Limiter.Room.{has-insert, room, fresh-insert_right, fresh_le_size}
use j_ui.Auth.Limiter.Thins.{
  kept, Thins, Thins-refl, Thins-trans, prune-Thins, prune_all-Thins, kept-prune,
}
use j_ui.Auth.Limiter.{
  Service, busy_of, limited, sweep, admit, reserve_attempt, max_active_logins, max_failure_sources,
}

-- What holds of the tables alone. `held` is the multiset of the logins in progress.
pub record Inv (s : Service) (held : List String) : Type 0 where
  pub total : s.active ≡ length held
  pub few : s.active ≤ max_active_logins
  pub counted : (source : String) → busy_of source s ≡ count source held
  pub positive : (source : String) → has source s.busy ≡ true → 0 < busy_of source s
  pub distinct : Distinct s.busy
  pub quota : (source : String) → length (kept source s.fails) + busy_of source s ≤ 5
  pub limit : room s.fails s.busy ≤ max_failure_sources

-- What an operation that only prunes does.
pub record Prunes (now : ℕ) (s t : Service) : Type 0 where
  pub thins : Thins now s.fails t.fails
  pub same_busy : t.busy ≡ s.busy
  pub same_active : t.active ≡ s.active

pub busy_of-same :
    (source : String) (s t : Service) → t.busy ≡ s.busy → busy_of source t ≡ busy_of source s
unfolding busy_of
busy_of-same source s t e = ap (λ (b : Map String ℕ). get_or (lookup source b) 0) e

pub Prunes-Inv :
    {now : ℕ} {s t : Service} {held : List String} → Prunes now s t → Inv s held → Inv t held
Prunes-Inv {s} {t} p v = record {
  total = p.same_active ∙ v.total;
  few = rw p.same_active v.few;
  counted = λ source. busy_of-same source s t p.same_busy ∙ v.counted source;
  positive = λ source h. omega (
    arith,
    busy_of-same source s t p.same_busy,
    v.positive source (ap (has source) (sym p.same_busy) ∙ h),
  );
  distinct = rw p.same_busy v.distinct;
  quota = λ source.
      omega (arith, p.thins.shorter source, v.quota source, busy_of-same source s t p.same_busy);
  limit = rw p.same_busy (omega (arith, p.thins.roomy s.busy v.distinct, v.limit));
}

pub Prunes-trans : {now : ℕ} {s t u : Service} → Prunes now s t → Prunes now t u → Prunes now s u
Prunes-trans p q = record {
  thins = Thins-trans p.thins q.thins;
  same_busy = q.same_busy ∙ p.same_busy;
  same_active = q.same_active ∙ p.same_active;
}

pub sweep-Prunes : (now : ℕ) (s : Service) → Prunes now s (sweep now s)
unfolding sweep
sweep-Prunes now s = record {
  thins = ground (arith, prune_all-Thins now s.fails, Thins-refl now s.fails);
  same_busy = refl;
  same_active = refl;
}

abbrev pub pruned : String → ℕ → Service → Service
pruned source now s = record s { fails = prune source now s.fails }

pub pruned-Prunes : (source : String) (now : ℕ) (s : Service) → Prunes now s (pruned source now s)
pruned-Prunes source now s = record {
  thins = prune-Thins source now s.fails;
  same_busy = refl;
  same_active = refl;
}

pub limited-Prunes :
    (source : String) (now : ℕ) (s : Service) → Prunes now s (limited source now s).1
unfolding limited
limited-Prunes source now s = pruned-Prunes source now s

-- The state after a granted attempt.
abbrev pub granted : String → Service → Service
granted source s = record s {
  busy = insert source (busy_of source s + 1) s.busy;
  active = s.active + 1;
}

-- The tests of `admit`, on the table that is already pruned.
abbrev pub Allowed : String → Service → Type 0
Allowed source s =
    (length (kept source s.fails) + busy_of source s < 5)
    × (s.active < max_active_logins)
    × ((has source s.fails ≡ true)
        ⊎ (has source s.busy ≡ true)
        ⊎ (size s.fails + size s.busy < max_failure_sources))

kept-pruned :
    (source : String) (now : ℕ) (s : Service)
    → kept source (prune source now s.fails) ≡ recent source now s.fails
unfolding recent
kept-pruned source now s =
    ground (arith, eq_iff source source, kept-prune source source now s.fails)

-- `admit` grants exactly what is allowed, and else it only prunes.
pub admit_cases :
    (source : String) (now : ℕ) (s : Service)
    → ((admit source now s ≡ (true, granted source (pruned source now s)))
        × Allowed source (pruned source now s))
      ⊎ ((admit source now s ≡ (false, pruned source now s))
          × (¬ Allowed source (pruned source now s)))
unfolding admit busy_of
admit_cases source now s = ground (arith, kept-pruned source now s)

busy_of-granted :
    (source j : String) (s : Service)
    → busy_of j (granted source s)
      ≡ (if string_equality.same source j then suc (busy_of j s) else busy_of j s)
unfolding busy_of
busy_of-granted source j s =
    ground
      (arith, eq_iff source j, lookup-insert source j (get_or (lookup source s.busy) 0 + 1) s.busy)

pub granted-Inv :
    (source : String) (s : Service) (held : List String)
    → Allowed source s
    → Inv s held
    → Inv (granted source s) (source ∷ held)
granted-Inv source s held a v = record {
  total = omega (arith, v.total);
  few = omega (arith, a.1);
  counted = λ j. ground (arith, busy_of-granted source j s, v.counted j);
  positive = λ j h. ground (
    arith,
    eq_iff source j,
    has-insert source j (busy_of source s + 1) s.busy,
    busy_of-granted source j s,
    v.positive j,
  );
  distinct = insert-Distinct source (busy_of source s + 1) s.busy v.distinct;
  quota = λ j. ground (arith, eq_iff source j, busy_of-granted source j s, v.quota j);
  limit = ground (
    arith,
    fresh-insert_right source (busy_of source s + 1) s.fails s.busy,
    fresh_le_size s.fails s.busy,
    v.limit,
  );
}

pub reserve_attempt-Inv :
    (source : String) (now : ℕ) (s : Service) (held : List String)
    → Inv s held
    → let r = reserve_attempt source now s in Inv r.1 (if r.0 then source ∷ held else held)
unfolding reserve_attempt
reserve_attempt-Inv source now s held v =
    let s' = pruned source now (sweep now s) in
    let v' : Inv s' held =
      Prunes-Inv (Prunes-trans (sweep-Prunes now s) (pruned-Prunes source now (sweep now s))) v in
    elim (admit_cases source now (sweep now s)) [
      | inl (e, a) ↦ rw e (granted-Inv source s' held a v')
      | inr (e, _) ↦ rw e v'
    ]
