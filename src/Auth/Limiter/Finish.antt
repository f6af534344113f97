-- ===== src/Auth/Limiter/Finish.antt =====
-- `finishAttempt` keeps the limiter's invariant, and never drops a failure.
use Prim.Native.Nat.{ℕ, suc, ◌-◌, ◌≤◌, ◌<◌}
use Prim.Native.String.{String}
use mathlib.Core.Path.{◌≡◌, refl, ◌∙◌, sym, ap}
use mathlib.Core.Bool.{true, false}
use mathlib.Core.List.{List, [], ◌∷◌, ◌++◌}
use native.Mathlib.Omega.{arith}
use text.Mathlib.TextEquality.{eq_iff}
use j_ui.Base.{
  if◌then◌else◌, string_equality, keep, length, length-keep-le, length-append, count, erase, elem,
}
use j_ui.Base.Map.{
  Map, lookup, has, size, get_or, Distinct, lookup-insert, lookup-delete, insert-Distinct,
  delete-Distinct,
}
use j_ui.Auth.Limiter.Prune.{is_recent, recent, prune, store}
use j_ui.Auth.Limiter.Room.{
  room, has-insert, has-delete, fresh, fresh-insert_right, fresh-delete_right, room-insert_busy,
  size-lt-room, room-delete,
}
use j_ui.Auth.Limiter.Thins.{kept, prune-Thins, kept-prune}
use j_ui.Auth.Limiter.Invariant.{Inv, busy_of-same}
use j_ui.Auth.Limiter.{
  Service, Outcome, fault, rejected, accepted, busy_of, release, record_failure, settle,
  finish_attempt, max_failure_sources,
}

-- A source with a login in progress has a busy entry.
pub has_of_busy : (source : String) (s : Service) → 0 < busy_of source s → has source s.busy ≡ true
unfolding busy_of has
has_of_busy source s h = ground arith

busy_of-release :
    (source j : String) (s : Service)
    → busy_of j (release source s)
      ≡ (if string_equality.same source j then busy_of j s - 1 else busy_of j s)
unfolding busy_of release
busy_of-release source j s = ground (
  arith,
  eq_iff source j,
  lookup-insert source j (get_or (lookup source s.busy) 0 - 1) s.busy,
  lookup-delete source j s.busy,
)

-- What stays busy after a release has a positive count.
positive-release :
    (source j : String) (s : Service)
    → has j (release source s).busy ≡ true
    → ((has j s.busy ≡ true) → 0 < busy_of j s)
    → 0 < busy_of j (release source s)
unfolding release
positive-release source j s h p = ground (
  arith,
  eq_iff source j,
  busy_of-release source j s,
  has-insert source j (busy_of source s - 1) s.busy,
  has-delete source j s.busy,
)

count-erase :
    (source j : String) (held : List String)
    → elem source held ≡ true
    → count j (erase source held)
      ≡ (if string_equality.same source j then count j held - 1 else count j held)
count-erase source j [] h = cc
count-erase source j (x ∷ held) h =
    ground (arith, eq_iff source j, eq_iff x source, eq_iff x j, count-erase source j held)

length-erase :
    (source : String) (held : List String)
    → elem source held ≡ true
    → suc (length (erase source held)) ≡ length held
length-erase source [] h = cc
length-erase source (x ∷ held) h = ground (arith, length-erase source held)

pub count_pos :
    (source : String) (held : List String) → elem source held ≡ true → 0 < count source held
count_pos source [] h = cc
count_pos source (x ∷ held) h = ground (arith, count_pos source held)

-- The release of a login frees no room that the table did not have.
fresh-release :
    (source : String) (f : Map String (List ℕ)) (s : Service)
    → has source s.busy ≡ true
    → fresh f (release source s).busy ≤ fresh f s.busy
unfolding release
fresh-release source f s h = ground (
  arith,
  fresh-delete_right source f s.busy,
  fresh-insert_right source (busy_of source s - 1) f s.busy,
)

Distinct-release :
    (source : String) (s : Service) → Distinct s.busy → Distinct (release source s).busy
unfolding release
Distinct-release source s d =
    ground (
      arith,
      insert-Distinct source (busy_of source s - 1) s.busy d,
      delete-Distinct source s.busy d,
    )

has-store_nil :
    (source : String) (ts : List ℕ) (f : Map String (List ℕ))
    → length ts ≡ 0
    → has source (store source ts f) ≡ false
has-store_nil source [] f e = ground (arith, eq_iff source source, has-delete source source f)
has-store_nil source (t ∷ ts) f e = absurd (omega arith)

-- Pruning forgets a source of which it keeps nothing.
pub has-prune :
    (source : String) (now : ℕ) (f : Map String (List ℕ))
    → length (recent source now f) ≡ 0
    → has source (prune source now f) ≡ false
unfolding prune
has-prune source now f e = has-store_nil source (recent source now f) f e

-- What each outcome leaves of a source's failures.
abbrev pub outcome_failures : Outcome → String → ℕ → Service → List ℕ
outcome_failures fault source now s = kept source s.fails
outcome_failures rejected source now s = recent source now s.fails ++ now ∷ []
outcome_failures accepted source now s = []

module _ (source : String) (now : ℕ) (s : Service) (held : List String) (v : Inv s held)
    (mine : elem source held ≡ true) where
  busy_pos : 0 < busy_of source s
  busy_pos = omega (arith, v.counted source, count_pos source held mine)

  mine_busy : has source s.busy ≡ true
  mine_busy = has_of_busy source s busy_pos

  -- The guard of case 1 always passes: the room that admission left is still there.
  pub record_failure-guard :
      length (recent source now s.fails) ≡ 0 → size (prune source now s.fails) < max_failure_sources
  record_failure-guard e = omega (
    arith,
    size-lt-room source (prune source now s.fails) s.busy (has-prune source now s.fails e)
        mine_busy,
    (prune-Thins source now s.fails).roomy s.busy v.distinct,
    v.limit,
  )

  -- So a rejected login adds its time to what the source has in the window.
  pub kept-record_failure :
      (j : String)
      → kept j (record_failure source now (release source s)).fails ≡ (
          if string_equality.same source j
          then recent source now s.fails ++ now ∷ []
          else kept j s.fails)
  unfolding record_failure release
  kept-record_failure j = ground (
    arith,
    record_failure-guard,
    lookup-insert source j (recent source now s.fails ++ now ∷ []) (prune source now s.fails),
    kept-prune source j now s.fails,
  )

  pub room-record_failure :
      room (record_failure source now (release source s)).fails s.busy ≤ max_failure_sources
  unfolding record_failure release
  room-record_failure = ground (
    arith,
    room-insert_busy source (recent source now s.fails ++ now ∷ []) (prune source now s.fails)
        s.busy mine_busy,
    (prune-Thins source now s.fails).roomy s.busy v.distinct,
    v.limit,
  )

  pub kept-finish_attempt :
      (outcome : Outcome) (j : String)
      → kept j (finish_attempt outcome source now s).fails ≡ (
          if string_equality.same source j
          then outcome_failures outcome source now s
          else kept j s.fails)
  unfolding finish_attempt settle release
  kept-finish_attempt fault j = ground (arith, eq_iff source j)
  kept-finish_attempt rejected j = unfold release in kept-record_failure j
  kept-finish_attempt accepted j = ground (arith, lookup-delete source j s.fails)

  pub room-finish_attempt :
      (outcome : Outcome)
      → room (finish_attempt outcome source now s).fails s.busy ≤ max_failure_sources
  unfolding finish_attempt settle release
  room-finish_attempt fault = v.limit
  room-finish_attempt rejected = unfold release in room-record_failure
  room-finish_attempt accepted =
      omega (arith, room-delete source s.fails s.busy v.distinct, v.limit)

  busy-finish_attempt :
      (outcome : Outcome) → (finish_attempt outcome source now s).busy ≡ (release source s).busy
  unfolding finish_attempt settle record_failure
  busy-finish_attempt fault = refl
  busy-finish_attempt rejected = ground arith
  busy-finish_attempt accepted = refl

  active-finish_attempt :
      (outcome : Outcome) → suc (finish_attempt outcome source now s).active ≡ s.active
  unfolding finish_attempt settle record_failure release
  active-finish_attempt fault = omega (arith, v.total, length-erase source held mine)
  active-finish_attempt rejected = ground (arith, v.total, length-erase source held mine)
  active-finish_attempt accepted = omega (arith, v.total, length-erase source held mine)

  busy_of-finish_attempt :
      (outcome : Outcome) (j : String)
      → busy_of j (finish_attempt outcome source now s)
        ≡ (if string_equality.same source j then busy_of j s - 1 else busy_of j s)
  busy_of-finish_attempt outcome j =
      busy_of-same j (release source s) (finish_attempt outcome source now s)
        (busy-finish_attempt outcome)
      ∙ busy_of-release source j s

  length-outcome_failures :
      (outcome : Outcome)
      → length (outcome_failures outcome source now s) ≤ suc (length (kept source s.fails))
  unfolding recent
  length-outcome_failures fault = omega arith
  length-outcome_failures rejected = omega (
    arith,
    length-append (keep (is_recent now) (kept source s.fails)) (now ∷ []),
    length-keep-le (is_recent now) (kept source s.fails),
  )
  length-outcome_failures accepted = omega arith

  pub finish_attempt-Inv :
      (outcome : Outcome) → Inv (finish_attempt outcome source now s) (erase source held)
  finish_attempt-Inv outcome = record {
    total = omega (arith, v.total, length-erase source held mine, active-finish_attempt outcome);
    few = omega (arith, v.few, active-finish_attempt outcome);
    counted = λ j.
        ground
          (arith, busy_of-finish_attempt outcome j, count-erase source j held mine, v.counted j);
    positive = λ j h. omega (
      arith,
      busy_of-same j (release source s) (finish_attempt outcome source now s)
          (busy-finish_attempt outcome),
      positive-release source j s (ap (has j) (sym (busy-finish_attempt outcome)) ∙ h)
          (v.positive j),
    );
    distinct = rw (busy-finish_attempt outcome) (Distinct-release source s v.distinct);
    quota = λ j. ground (
      arith,
      eq_iff source j,
      busy_of-finish_attempt outcome j,
      kept-finish_attempt outcome j,
      length-outcome_failures outcome,
      busy_pos,
      v.quota j,
    );
    limit = rw (busy-finish_attempt outcome) (
        omega (
          arith,
          fresh-release source (finish_attempt outcome source now s).fails s mine_busy,
          room-finish_attempt outcome,
        ));
  }
