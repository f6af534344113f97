-- ===== src/Auth/Limiter/Thins.antt =====
-- What pruning does to the failure table: it keeps every failure inside the window, and it takes
-- no room.
use Prim.Native.Nat.{ℕ, ◌≤◌}
use Prim.Native.String.{String}
use mathlib.Core.Path.{◌≡◌, refl, ◌∙◌}
use mathlib.Core.Logic.{inl, inr, ◌⊎◌}
use mathlib.Core.Bool.{true}
use mathlib.Core.List.{List, [], ◌∷◌}
use native.Mathlib.Omega.{arith}
use native.Mathlib.Nat.{le_refl, le_trans}
use text.Mathlib.TextEquality.{eq_iff}
use j_ui.Base.{if◌then◌else◌, string_equality, keep, length, length-keep-le}
use j_ui.Base.Map.{Map, lookup, has, keys, get_or, Distinct, lookup-insert, lookup-delete}
use j_ui.Auth.Limiter.Prune.{is_recent, recent, store, prune, prune_each, prune_all}
use j_ui.Auth.Limiter.Room.{room, room-delete, room-insert_known}

abbrev pub kept : String → Map String (List ℕ) → List ℕ
kept source fails = get_or (lookup source fails) []

-- What lies in a later window lies in the earlier one.
pub keep-keep :
    (now later : ℕ) (ts : List ℕ)
    → now ≤ later
    → keep (is_recent later) (keep (is_recent now) ts) ≡ keep (is_recent later) ts
keep-keep now later [] h = refl
keep-keep now later (t ∷ ts) h = ground (arith, keep-keep now later ts h)

pub kept-store :
    (source j : String) (ts : List ℕ) (fails : Map String (List ℕ))
    → kept j (store source ts fails) ≡ (if string_equality.same source j then ts else kept j fails)
kept-store source j [] fails = ground (arith, lookup-delete source j fails)
kept-store source j (t ∷ ts) fails = ground (arith, lookup-insert source j (t ∷ ts) fails)

pub kept-prune :
    (source j : String) (now : ℕ) (fails : Map String (List ℕ))
    → kept j (prune source now fails) ≡ (
        if string_equality.same source j then keep (is_recent now) (kept j fails) else kept j fails)
unfolding prune
kept-prune source j now fails =
    ground (arith, eq_iff source j, kept-store source j (recent source now fails) fails)

-- `g` is `f` with some failures gone that are out of the window from `now` on.
pub record Thins (now : ℕ) (f g : Map String (List ℕ)) : Type 0 where
  pub window :
      (source : String) (later : ℕ)
      → now ≤ later
      → keep (is_recent later) (kept source g) ≡ keep (is_recent later) (kept source f)
  pub shorter : (source : String) → length (kept source g) ≤ length (kept source f)
  pub roomy : (b : Map String ℕ) → Distinct b → room g b ≤ room f b

pub Thins-refl : (now : ℕ) (f : Map String (List ℕ)) → Thins now f f
Thins-refl now f = record {
  window = λ source later h. refl;
  shorter = λ source. le_refl _;
  roomy = λ b d. le_refl _;
}

pub Thins-trans :
    {now : ℕ} {f g h : Map String (List ℕ)} → Thins now f g → Thins now g h → Thins now f h
Thins-trans p q = record {
  window = λ source later e. q.window source later e ∙ p.window source later e;
  shorter = λ source. le_trans (q.shorter source) (p.shorter source);
  roomy = λ b d. le_trans (q.roomy b d) (p.roomy b d);
}

-- Something is kept only for a source that the table has.
has_of_recent :
    (source : String) (now : ℕ) (fails : Map String (List ℕ)) (t : ℕ) (ts : List ℕ)
    → recent source now fails ≡ t ∷ ts
    → has source fails ≡ true
unfolding recent has
has_of_recent source now fails t ts e = ground arith

room-store :
    (source : String) (ts : List ℕ) (fails : Map String (List ℕ)) (b : Map String ℕ)
    → Distinct b
    → (ts ≡ []) ⊎ (has source fails ≡ true)
    → room (store source ts fails) b ≤ room fails b
room-store source [] fails b d h = room-delete source fails b d
room-store source (t ∷ ts) fails b d (inl e) = cc
room-store source (t ∷ ts) fails b d (inr h) =
    omega (arith, room-insert_known source (t ∷ ts) fails b h)

recent_cases :
    (source : String) (now : ℕ) (fails : Map String (List ℕ)) (ts : List ℕ)
    → recent source now fails ≡ ts
    → (ts ≡ []) ⊎ (has source fails ≡ true)
recent_cases source now fails [] e = inl refl
recent_cases source now fails (t ∷ ts) e = inr (has_of_recent source now fails t ts e)

pub prune-Thins :
    (source : String) (now : ℕ) (fails : Map String (List ℕ))
    → Thins now fails (prune source now fails)
prune-Thins source now fails = record {
  window = λ j later h.
      ground (arith, kept-prune source j now fails, keep-keep now later (kept j fails) h);
  shorter = λ j.
      ground (arith, kept-prune source j now fails, length-keep-le (is_recent now) (kept j fails));
  roomy = λ b d.
      unfold prune in
      room-store source (recent source now fails) fails b d (recent_cases source now fails _ refl);
}

prune_each-Thins :
    (sources : List String) (now : ℕ) (fails : Map String (List ℕ))
    → Thins now fails (prune_each sources now fails)
unfolding prune_each
prune_each-Thins [] now fails = Thins-refl now fails
prune_each-Thins (source ∷ sources) now fails =
    Thins-trans (prune-Thins source now fails)
      (prune_each-Thins sources now (prune source now fails))

pub prune_all-Thins :
    (now : ℕ) (fails : Map String (List ℕ)) → Thins now fails (prune_all now fails)
unfolding prune_all
prune_all-Thins now fails = prune_each-Thins (keys fails) now fails
