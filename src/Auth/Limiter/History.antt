-- ===== src/Auth/Limiter/History.antt =====
-- The limiter's table against the specification's record of failures.
use Prim.Native.Nat.{ℕ, ◌≤◌}
use Prim.Native.String.{String}
use mathlib.Core.Path.{◌≡◌, refl, ◌∙◌}
use mathlib.Core.Logic.{inl, inr}
use mathlib.Core.Bool.{true}
use mathlib.Core.List.{List, [], ◌∷◌}
use native.Mathlib.Omega.{arith}
use native.Mathlib.Nat.{le_trans}
use text.Mathlib.TextEquality.{eq_iff}
use j_ui.Base.{if◌then◌else◌, string_equality, keep, keep-append, elem}
use j_ui.Base.Map.{lookup, has}
use j_ui.Auth.Limiter.Prune.{is_recent, recent}
use j_ui.Auth.Limiter.Room.{fresh}
use j_ui.Auth.Limiter.Thins.{kept, keep-keep}
use j_ui.Auth.Limiter.Invariant.{
  Inv, Prunes, Prunes-Inv, Prunes-trans, sweep-Prunes, pruned, pruned-Prunes, limited-Prunes,
  admit_cases, reserve_attempt-Inv,
}
use j_ui.Auth.Limiter.Finish.{outcome_failures, kept-finish_attempt, finish_attempt-Inv}
use j_ui.Auth.Limiter.World.{World, start, note, Step, reserve, finish, ask, Reach, initially, next}
use j_ui.Auth.Limiter.{
  Service, Outcome, fault, rejected, accepted, new_service, busy_of, reserve_attempt,
  finish_attempt, sweep,
}

-- From now on, table and record agree on every window.
abbrev pub Agrees : ℕ → Service → (String → List ℕ) → Type 0
Agrees clock s history =
    (source : String) (later : ℕ)
    → clock ≤ later
    → keep (is_recent later) (kept source s.fails) ≡ keep (is_recent later) (history source)

Prunes-Agrees :
    {clock now : ℕ} {s t : Service} (history : String → List ℕ)
    → clock ≤ now
    → Prunes now s t
    → Agrees clock s history
    → Agrees now t history
Prunes-Agrees history h p a source later e =
    p.thins.window source later e ∙ a source later (le_trans h e)

reserve_attempt-Agrees :
    {clock : ℕ} (source : String) (now : ℕ) (s : Service) (history : String → List ℕ)
    → clock ≤ now
    → Agrees clock s history
    → Agrees now (reserve_attempt source now s).1 history
unfolding reserve_attempt
reserve_attempt-Agrees source now s history h a =
    let p = Prunes-trans (sweep-Prunes now s) (pruned-Prunes source now (sweep now s)) in
    elim (admit_cases source now (sweep now s)) [
      | inl (e, _) ↦ rw e (Prunes-Agrees {t = pruned source now (sweep now s)} history h p a)
      | inr (e, _) ↦ rw e (Prunes-Agrees history h p a)
    ]

-- The windows of a table entry and of the record, after an outcome at time `now`.
note-window :
    (outcome : Outcome) (source : String) (now later : ℕ) (s : Service) (ts : List ℕ)
    → now ≤ later
    → keep (is_recent later) (kept source s.fails) ≡ keep (is_recent later) ts
    → keep (is_recent later) (outcome_failures outcome source now s)
      ≡ keep (is_recent later) (note outcome now ts)
unfolding recent
note-window fault source now later s ts h e = e
note-window rejected source now later s ts h e = ground (
  arith,
  keep-append (is_recent later) (keep (is_recent now) (kept source s.fails)) (now ∷ []),
  keep-append (is_recent later) ts (now ∷ []),
  keep-keep now later (kept source s.fails) h,
)
note-window accepted source now later s ts h e = refl

finish_attempt-Agrees :
    {clock : ℕ} (outcome : Outcome) (source : String) (now : ℕ) (s : Service) (held : List String)
    (history : String → List ℕ)
    → Inv s held
    → elem source held ≡ true
    → clock ≤ now
    → Agrees clock s history
    → Agrees now
        (finish_attempt outcome source now s)
        (λ j. if string_equality.same source j then note outcome now (history j) else history j)
finish_attempt-Agrees outcome source now s held history v mine h a j later e = ground (
  arith,
  eq_iff source j,
  kept-finish_attempt source now s held v mine outcome j,
  note-window outcome source now later s (history source) e (a source later (le_trans h e)),
  a j later (le_trans h e),
)

-- Invariant and agreement hold wherever the concurrent logins can lead.
pub record Holds (w : World) : Type 0 where
  pub inv : Inv w.service w.in_flight
  pub agrees : Agrees w.clock w.service w.history

Step-Holds : {v w : World} → Step v w → Holds v → Holds w
Step-Holds (reserve w source now h) k = record {
  inv = reserve_attempt-Inv source now w.service w.in_flight k.inv;
  agrees = reserve_attempt-Agrees source now w.service w.history h k.agrees;
}
Step-Holds (finish w outcome source now h mine) k = record {
  inv = finish_attempt-Inv source now w.service w.in_flight k.inv mine outcome;
  agrees =
      finish_attempt-Agrees outcome source now w.service w.in_flight w.history k.inv mine h
        k.agrees;
}
Step-Holds (ask w source now h) k = record {
  inv = Prunes-Inv (limited-Prunes source now w.service) k.inv;
  agrees = Prunes-Agrees w.history h (limited-Prunes source now w.service) k.agrees;
}

start-Holds : Holds start
unfolding new_service busy_of lookup
start-Holds = record {
  inv = record {
    total = refl;
    few = omega arith;
    counted = λ source. refl;
    positive = λ source h. unfold has lookup in cc;
    distinct = tt;
    quota = λ source. ground arith;
    limit = unfold fresh in omega arith;
  };
  agrees = λ source later h. refl;
}

pub Reach-Holds : {w : World} → Reach w → Holds w
Reach-Holds initially = start-Holds
Reach-Holds (next r st) = Step-Holds st (Reach-Holds r)
