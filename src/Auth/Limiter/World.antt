-- ===== src/Auth/Limiter/World.antt =====
-- The limiter among its callers: which logins are between `reserveAttempt` and `finishAttempt`, and
-- the specification's own record of each source's failures.
use Prim.Native.Nat.{ℕ, ◌≤◌}
use Prim.Native.String.{String}
use mathlib.Core.Path.{◌≡◌}
use mathlib.Core.Bool.{true}
use mathlib.Core.List.{List, [], ◌∷◌, ◌++◌}
use j_ui.Base.{if◌then◌else◌, string_equality, keep, erase, elem}
use j_ui.Auth.Limiter.Prune.{is_recent}
use j_ui.Auth.Limiter.{
  Service, Outcome, fault, rejected, accepted, new_service, limited, reserve_attempt,
  finish_attempt,
}

-- `history source` lists every rejected login of a source since its last accepted one.
pub record World : Type 0 where
  pub service : Service
  pub in_flight : List String
  pub history : String → List ℕ
  pub clock : ℕ

abbrev pub start : World
start = record { service = new_service; in_flight = []; history = λ source. []; clock = 0 }

abbrev pub after_reserve : String → ℕ → World → World
after_reserve source now w =
    let r = reserve_attempt source now w.service in
    record w {
      service = r.1;
      in_flight = if r.0 then source ∷ w.in_flight else w.in_flight;
      clock = now;
    }

-- What an outcome adds to the specification's record.
abbrev pub note : Outcome → ℕ → List ℕ → List ℕ
note fault now ts = ts
note rejected now ts = ts ++ now ∷ []
note accepted now ts = []

abbrev pub after_finish : Outcome → String → ℕ → World → World
after_finish outcome source now w = record w {
  service = finish_attempt outcome source now w.service;
  in_flight = erase source w.in_flight;
  history =
      λ j. if string_equality.same source j then note outcome now (w.history j) else w.history j;
  clock = now;
}

abbrev pub after_ask : String → ℕ → World → World
after_ask source now w = record w { service = (limited source now w.service).1; clock = now }

-- Requests run concurrently: any of them may take its next step, under `mu`, at any later time.
-- `Login` finishes only an attempt that it has reserved.
pub data Step : World → World → Type 0 where
  reserve :
      (w : World) (source : String) (now : ℕ) → w.clock ≤ now → Step w (after_reserve source now w)
  finish :
      (w : World) (outcome : Outcome) (source : String) (now : ℕ)
      → w.clock ≤ now
      → elem source w.in_flight ≡ true
      → Step w (after_finish outcome source now w)
  ask : (w : World) (source : String) (now : ℕ) → w.clock ≤ now → Step w (after_ask source now w)

pub data Reach : World → Type 0 where
  initially : Reach start
  next : {v w : World} → Reach v → Step v w → Reach w

-- The rejected logins of a source since its last accepted one, inside the window that ends now.
abbrev pub failures : String → ℕ → World → List ℕ
failures source now w = keep (is_recent now) (w.history source)
