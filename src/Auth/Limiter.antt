-- ===== src/Auth/Limiter.antt =====
-- The login limiter of internal/auth/service.go: the failure times and the logins in progress of each
-- source address. Times are nanoseconds on one clock; each call is given the time that it reads.
pub mod Prune
pub mod Room
pub mod Thins
pub mod World
pub mod Invariant
pub mod Finish
pub mod History
pub mod Limits
use Prim.Native.Nat.{ℕ, ◌+◌, ◌-◌, ◌%◌, ◌^◌}
use Prim.Native.String.{String}
use mathlib.Core.Bool.{Bool, true, false, not, ◌&&◌, ◌||◌}
use mathlib.Core.List.{List, [], ◌∷◌, ◌++◌}
use mathlib.Core.Option.{none, some}
use j_ui.Base.{◌==◌, ltb, leb, if◌then◌else◌, length, string_equality, nat_equality}
use j_ui.Base.Map.{Map, lookup, insert, delete, has, size, keys, get_or}
use Prune.{recent, prune, prune_all}

abbrev pub max_failure_sources : ℕ
max_failure_sources = 4096

abbrev pub max_active_logins : ℕ
max_active_logins = 4

abbrev pub sweep_interval : ℕ
sweep_interval = 64

-- The fields of `Service` that `mu` guards; `sweeps` is a uint64.
pub record Service : Type 0 where
  pub fails : Map String (List ℕ)
  pub busy : Map String ℕ
  pub sweeps : ℕ
  pub active : ℕ

unfoldable pub new_service : Service
new_service = record { fails = []; busy = []; sweeps = 0; active = 0 }

-- `s.busy[source]`, zero where there is no entry.
unfoldable pub busy_of : String → Service → ℕ
busy_of source s = get_or (lookup source s.busy) 0

unfoldable pub limited : String → ℕ → Service → Bool × Service
unfolding prune busy_of
limited source now s =
    let fails' = prune source now s.fails in
    let s' : Service = record s { fails = fails' } in
    (leb 5 (length (recent source now s.fails) + busy_of source s'), s')

-- The increment of `sweeps` and the sweep, before the source is looked at.
unfoldable pub sweep : ℕ → Service → Service
unfolding prune_all
sweep now s =
    let n = (s.sweeps + 1) % 2 ^ 64 in
    let due = n % sweep_interval == 0 || leb max_failure_sources (size s.fails) in
    record s { sweeps = n; fails = if due then prune_all now s.fails else s.fails }

-- The tests and the writes of `reserveAttempt` after the sweep.
unfoldable pub admit : String → ℕ → Service → Bool × Service
unfolding prune busy_of
admit source now s =
    let failures = length (recent source now s.fails) in
    let s' : Service = record s { fails = prune source now s.fails } in
    let known_failure = has source s'.fails in
    let known_busy = has source s'.busy in
    if leb 5 (failures + busy_of source s') || leb max_active_logins s'.active
    then (false, s')
    else if not known_failure
        && not known_busy
        && leb max_failure_sources (size s'.fails + size s'.busy)
    then (false, s')
    else (
      true,
      record s' { busy = insert source (busy_of source s' + 1) s'.busy; active = s'.active + 1 },
    )

unfoldable pub reserve_attempt : String → ℕ → Service → Bool × Service
reserve_attempt source now s = admit source now (sweep now s)

-- What `Login` reports: 0 a fault after the check, 1 wrong credentials, 2 a session.
pub data Outcome : Type 0 where
  fault rejected accepted : Outcome

-- The bookkeeping of `finishAttempt` before its switch.
unfoldable pub release : String → Service → Service
unfolding busy_of
release source s =
    let n = busy_of source s in
    record s {
      busy = if ltb 1 n then insert source (n - 1) s.busy else delete source s.busy;
      active = s.active - 1;
    }

-- Case 1 of the switch.
unfoldable pub record_failure : String → ℕ → Service → Service
unfolding prune
record_failure source now s =
    let kept = recent source now s.fails in
    let fails' = prune source now s.fails in
    if not (length kept == 0) || ltb (size fails') max_failure_sources
    then record s { fails = insert source (kept ++ now ∷ []) fails' }
    else record s { fails = fails' }

unfoldable pub settle : Outcome → String → ℕ → Service → Service
settle fault source now s = s
settle rejected source now s = record_failure source now s
settle accepted source now s = record s { fails = delete source s.fails }

unfoldable pub finish_attempt : Outcome → String → ℕ → Service → Service
finish_attempt outcome source now s = settle outcome source now (release source s)
