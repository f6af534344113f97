-- ===== src/Auth/Limiter/Limits.antt =====
-- What the login limiter of internal/auth/service.go guarantees, whatever the order in which
-- concurrent requests reserve, finish and ask.
use Prim.Native.Nat.{ℕ, ◌+◌, ◌≤◌, ◌<◌}
use Prim.Native.String.{String}
use mathlib.Core.Path.{◌≡◌, refl, ◌∙◌, ap}
use mathlib.Core.Logic.{◌⊎◌, ◌↔◌}
use mathlib.Core.Bool.{true}
use native.Mathlib.Omega.{arith}
use native.Mathlib.Nat.{le_refl}
use text.Mathlib.TextEquality.{eq_iff}
use j_ui.Base.{leb, string_equality, keep, length, length-keep-le, count}
use j_ui.Base.Map.{size, has}
use j_ui.Auth.Limiter.Prune.{is_recent, recent}
use j_ui.Auth.Limiter.Thins.{kept, kept-prune}
use j_ui.Auth.Limiter.Invariant.{
  Inv, Prunes, Prunes-Inv, Prunes-trans, sweep-Prunes, pruned, pruned-Prunes, admit_cases,
  busy_of-same,
}
use j_ui.Auth.Limiter.Finish.{has_of_busy, has-prune}
use j_ui.Auth.Limiter.History.{Reach-Holds}
use j_ui.Auth.Limiter.World.{World, Reach, failures}
use j_ui.Auth.Limiter.{Service, busy_of, limited, sweep, reserve_attempt}

-- The service that the tests of `reserveAttempt` see, swept and pruned.
abbrev pub tested : String → ℕ → Service → Service
tested source now s = pruned source now (sweep now s)

module _ {w : World} (r : Reach w) where
  held-Inv : Inv w.service w.in_flight
  held-Inv = (Reach-Holds r).inv

  -- At any reachable state, for every later time, the failures that the table keeps for a source
  -- inside the window are exactly those of the source's record: none is dropped when the table is
  -- full, and none is added.
  pub window_agrees :
      (source : String) (now : ℕ)
      → w.clock ≤ now
      → keep (is_recent now) (kept source w.service.fails) ≡ failures source now w
  window_agrees source now h = (Reach-Holds r).agrees source now h

  -- At any reachable state, `Limited` answers true exactly when the source's rejected logins of the
  -- last 15 minutes since its last success and its logins in progress are at least five.
  pub limited_lem :
      (source : String) (now : ℕ)
      → w.clock ≤ now
      → (limited source now w.service).0
        ≡ leb 5 (length (failures source now w) + count source w.in_flight)
  unfolding limited recent
  limited_lem source now h = ground (
    arith,
    window_agrees source now h,
    held-Inv.counted source,
    busy_of-same source w.service (pruned source now w.service) refl,
  )

  -- At any reachable state, and for a window that ends then or later: a source's rejected logins in the
  -- window since its last accepted login, with its logins in progress, are at most five.
  pub failures-le :
      (source : String) (now : ℕ)
      → w.clock ≤ now
      → length (failures source now w) + count source w.in_flight ≤ 5
  failures-le source now h = omega (
    arith,
    ap length (window_agrees source now h),
    length-keep-le (is_recent now) (kept source w.service.fails),
    held-Inv.quota source,
    held-Inv.counted source,
  )

  -- At any reachable state at most four logins are in progress, `active` counts them, and the table
  -- of failures has at most 4096 sources.
  pub tables_bounded :
      (w.service.active ≡ length w.in_flight)
      × (length w.in_flight ≤ 4)
      × (size w.service.fails ≤ 4096)
  tables_bounded = omega (arith, held-Inv.total, held-Inv.few, held-Inv.limit)

  module _ (source : String) (now : ℕ) (h : w.clock ≤ now) where
    abbrev seen : Service
    seen = tested source now w.service

    seen-Prunes : Prunes now w.service seen
    seen-Prunes =
        Prunes-trans (sweep-Prunes now w.service) (pruned-Prunes source now (sweep now w.service))

    seen_failures : kept source seen.fails ≡ failures source now w
    seen_failures = ground (
      arith,
      eq_iff source source,
      kept-prune source source now (sweep now w.service).fails,
      (sweep-Prunes now w.service).thins.window source now (le_refl now),
      window_agrees source now h,
    )

    seen_busy : busy_of source seen ≡ count source w.in_flight
    seen_busy = busy_of-same source w.service seen seen-Prunes.same_busy ∙ held-Inv.counted source

    seen_active : seen.active ≡ length w.in_flight
    seen_active = seen-Prunes.same_active ∙ held-Inv.total

    known_failure : (has source seen.fails ≡ true) ↔ (0 < length (failures source now w))
    unfolding has recent
    known_failure = ground (
      arith,
      seen_failures,
      has-prune source now (sweep now w.service).fails,
      (sweep-Prunes now w.service).thins.window source now (le_refl now),
      window_agrees source now h,
    )

    known_busy : (has source seen.busy ≡ true) ↔ (0 < count source w.in_flight)
    known_busy = ground (
      arith,
      seen_busy,
      has_of_busy source seen,
      (Prunes-Inv seen-Prunes held-Inv).positive source,
    )

    -- At any reachable state, for every later time, `reserveAttempt` grants an attempt exactly when
    -- the source's rejected logins in the window since its last accepted login and its logins in
    -- progress are fewer than five, fewer than four logins are in progress in all, and the source is
    -- known by either or the two tables, swept and pruned, hold fewer than 4096 entries.
    pub reserve_attempt_iff : ((reserve_attempt source now w.service).0 ≡ true) ↔ (
        (length (failures source now w) + count source w.in_flight < 5)
        × (length w.in_flight < 4)
        × ((0 < length (failures source now w))
            ⊎ (0 < count source w.in_flight)
            ⊎ (size (tested source now w.service).fails + size (tested source now w.service).busy
                < 4096)))
    unfolding reserve_attempt
    reserve_attempt_iff = ground (
      arith,
      admit_cases source now (sweep now w.service),
      seen_failures,
      seen_busy,
      seen_active,
      known_failure,
      known_busy,
    )
