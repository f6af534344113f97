-- ===== src/Auth/Tests.antt =====
-- Runs of internal/auth on concrete inputs, and the theorems at those inputs.
use Prim.Native.Nat.{ℕ, ◌+◌, ◌≤◌, ◌<◌}
use mathlib.Core.Path.{◌≡◌, refl}
use mathlib.Core.Logic.{◌⊎◌, ◌↔◌}
use mathlib.Core.Bool.{Bool, true, false}
use native.Mathlib.Omega.{arith}
use j_ui.Base.{string_equality, leb, keep, length, count, elem}
use j_ui.Base.Map.{lookup, insert, delete, has, size}
use j_ui.Auth.Limiter.Prune.{is_recent}
use j_ui.Auth.Limiter.Thins.{kept}
use j_ui.Auth.Limiter.World.{
  World, Reach, start, after_reserve, after_finish, reserve, finish, initially, next, failures,
}
use j_ui.Auth.Limiter.Limits
use j_ui.Auth.Limiter.{
  rejected, new_service, limited, reserve_attempt, finish_attempt, admit, sweep, settle, release,
  record_failure,
}

-- One rejected login of a source, from the start.
abbrev once : World
once = after_finish rejected "10.0.0.1" 7 (after_reserve "10.0.0.1" 5 start)

once_mine : elem "10.0.0.1" (after_reserve "10.0.0.1" 5 start).in_flight ≡ true
unfolding new_service reserve_attempt admit sweep lookup has delete
once_mine = refl

once-Reach : Reach once
once-Reach =
    next (next initially (reserve start "10.0.0.1" 5 (omega arith)))
      (finish _ rejected "10.0.0.1" 7 (omega arith) once_mine)

window_agrees_example :
    keep (is_recent 9) (kept "10.0.0.1" once.service.fails) ≡ failures "10.0.0.1" 9 once
window_agrees_example = Limits.window_agrees once-Reach "10.0.0.1" 9 (omega arith)

limited_lem_example :
    (limited "10.0.0.1" 9 once.service).0
    ≡ leb 5 (length (failures "10.0.0.1" 9 once) + count "10.0.0.1" once.in_flight)
limited_lem_example = Limits.limited_lem once-Reach "10.0.0.1" 9 (omega arith)

failures-le_example : length (failures "10.0.0.1" 9 once) + count "10.0.0.1" once.in_flight ≤ 5
failures-le_example = Limits.failures-le once-Reach "10.0.0.1" 9 (omega arith)

tables_bounded_example :
    (once.service.active ≡ length once.in_flight)
    × (length once.in_flight ≤ 4)
    × (size once.service.fails ≤ 4096)
tables_bounded_example = Limits.tables_bounded once-Reach

reserve_attempt_iff_example : ((reserve_attempt "10.0.0.2" 9 once.service).0 ≡ true) ↔ (
    (length (failures "10.0.0.2" 9 once) + count "10.0.0.2" once.in_flight < 5)
    × (length once.in_flight < 4)
    × ((0 < length (failures "10.0.0.2" 9 once))
        ⊎ (0 < count "10.0.0.2" once.in_flight)
        ⊎ (size (Limits.tested "10.0.0.2" 9 once.service).fails
              + size (Limits.tested "10.0.0.2" 9 once.service).busy
            < 4096)))
reserve_attempt_iff_example = Limits.reserve_attempt_iff once-Reach "10.0.0.2" 9 (omega arith)

-- The fifth failure in a row closes the door, and it opens again when the window has passed.
abbrev five_failures : Bool × Bool
five_failures =
    let go = λ (w : World) (t : ℕ). after_finish rejected "a" t (after_reserve "a" t w) in
    let w = go (go (go (go (go start 1) 2) 3) 4) 5 in
    ((reserve_attempt "a" 6 w.service).0, (reserve_attempt "a" 900_000_000_006 w.service).0)

five_failures_lem : five_failures ≡ (false, true)
unfolding new_service reserve_attempt admit sweep finish_attempt settle release record_failure
    lookup has delete insert
five_failures_lem = refl
