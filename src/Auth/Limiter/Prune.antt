-- ===== src/Auth/Limiter/Prune.antt =====
-- `prune` and `pruneAll` of internal/auth/service.go.
use Prim.Native.Nat.{ℕ, ◌+◌, ◌*◌}
use Prim.Native.String.{String}
use mathlib.Core.Bool.{Bool}
use mathlib.Core.List.{List, [], ◌∷◌}
use j_ui.Base.{ltb, keep, string_equality, nat_equality}
use j_ui.Base.Map.{Map, lookup, insert, delete, keys, get_or}

-- 15 minutes in nanoseconds.
abbrev pub failure_window : ℕ
failure_window = 15 * 60 * 1_000_000_000

-- `attempt.After(now.Add(-failureWindow))`.
abbrev pub is_recent : ℕ → ℕ → Bool
is_recent now attempt = ltb now (attempt + failure_window)

-- What `prune` returns.
unfoldable pub recent : String → ℕ → Map String (List ℕ) → List ℕ
recent source now fails = keep (is_recent now) (get_or (lookup source fails) [])

-- What `prune` leaves in the map.
abbrev pub store : String → List ℕ → Map String (List ℕ) → Map String (List ℕ)
store source [] fails = delete source fails
store source (t ∷ ts) fails = insert source (t ∷ ts) fails

unfoldable pub prune : String → ℕ → Map String (List ℕ) → Map String (List ℕ)
unfolding recent
prune source now fails = store source (recent source now fails) fails

-- The loop of `pruneAll` over the sources that the map holds when it starts.
unfoldable pub prune_each : List String → ℕ → Map String (List ℕ) → Map String (List ℕ)
prune_each [] now fails = fails
prune_each (source ∷ sources) now fails = prune_each sources now (prune source now fails)

unfoldable pub prune_all : ℕ → Map String (List ℕ) → Map String (List ℕ)
unfolding prune_each
prune_all now fails = prune_each (keys fails) now fails
