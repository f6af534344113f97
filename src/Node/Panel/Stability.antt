-- ===== src/Node/Panel/Stability.antt =====
-- Actions that leave the tables as they are.
use Prim.Native.Nat.{ℕ}
use Prim.Native.String.{String}
use mathlib.Core.Path.{◌≡◌, refl, ◌∙◌}
use mathlib.Core.Bool.{Bool, true, false}
use native.Mathlib.Omega.{arith}
use j_ui.Base.{if◌then◌else◌}
use j_ui.Base.Text.{Text}
use j_ui.Node.Panel.{
  Panel, Fault, Answer, done, failed, Act, pure, fail, continue, ◌>>=◌, query, record_event,
  save_config_version, unless_failed, or_else,
}

pub record Stable {Host A : Type 0} (m : Act Host A) : Type 0 where
  pub same : (p : Panel Host) → (m p).1.tables ≡ p.tables

module _ {Host A B : Type 0} where
  Stable-continue :
      (r : Answer A) (f : A → Act Host B) (p : Panel Host)
      → ((a : A) → Stable (f a))
      → (continue r f p).1.tables ≡ p.tables
  Stable-continue (done a) f p k = (k a).same p
  Stable-continue (failed fault) f p k = refl

  pub Stable-bind :
      (m : Act Host A) (f : A → Act Host B) → Stable m → ((a : A) → Stable (f a)) → Stable (m >>= f)
  unfolding ◌>>=◌
  Stable-bind m f s k = record { same = λ p. Stable-continue (m p).0 f (m p).1 k ∙ s.same p }

module _ {Host A : Type 0} where
  pub Stable-pure : (a : A) → Stable {Host = Host} (pure a)
  unfolding pure
  Stable-pure a = record { same = λ p. refl }

  pub Stable-fail : (f : Fault) → Stable {Host = Host} {A = A} (fail f)
  unfolding fail
  Stable-fail f = record { same = λ p. refl }

  pub Stable-query : (down : ℕ → Bool) (read : Panel Host → Answer A) → Stable (query down read)
  unfolding query
  Stable-query down read = record { same = λ p. refl }

  pub Stable-if : (c : Bool) (m n : Act Host A) → Stable m → Stable n → Stable (if c then m else n)
  Stable-if true m n s t = s
  Stable-if false m n s t = t

  Stable-unless :
      (r : Answer (Unit {0})) (handle : Fault → Act Host A) (n : Act Host A) (p : Panel Host)
      → ((f : Fault) → Stable (handle f))
      → Stable n
      → (unless_failed r n handle p).1.tables ≡ p.tables
  Stable-unless (done u) handle n p k t = t.same p
  Stable-unless (failed f) handle n p k t = (k f).same p

  pub Stable-else :
      (m : Act Host (Unit {0})) (handle : Fault → Act Host A) (n : Act Host A)
      → Stable m
      → ((f : Fault) → Stable (handle f))
      → Stable n
      → Stable (or_else m handle n)
  unfolding or_else
  Stable-else m handle n s k t = record {
    same = λ p. Stable-unless (m p).0 handle n (m p).1 k t ∙ s.same p;
  }

module _ {Host : Type 0} (down : ℕ → Bool) where
  pub Stable-event : (level code : String) → Stable {Host = Host} (record_event down level code)
  unfolding record_event
  Stable-event level code = record { same = λ p. ground arith }

  pub Stable-save : (config : Text) → Stable {Host = Host} (save_config_version down config)
  unfolding save_config_version
  Stable-save config = record { same = λ p. ground arith }

pub ruleset stable_rules = (
  Stable-bind, Stable-pure, Stable-fail, Stable-query, Stable-if, Stable-else, Stable-event,
  Stable-save,
)
