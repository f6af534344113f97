-- ===== src/Base/Run.antt =====
-- Code that changes a state and may return an error: the state comes back beside the error too. Two
-- kinds of facts with a rule for each way to build such code: what is kept, and what is answered.
use mathlib.Core.Path.{◌≡◌, refl, subst}
use mathlib.Core.Bool.{Bool, true, false}
use mathlib.Core.Option.{Option, none, some}
use j_ui.Base.Tests.{if◌then◌else◌}

abbrev pub Run : Type 0 → Type 0 → Type 0
Run S A = S → Option A × S

module _ {S A : Type 0} where
  unfoldable pub pure : A → Run S A
  pure a s = (some a, s)

  -- An error; what it says is not modelled.
  unfoldable pub fail : Run S A
  fail s = (none, s)

  -- The error as a value, `_, err := …`.
  unfoldable pub attempt : Run S A → Run S (Option A)
  attempt m s = (some (m s).0, (m s).1)

module _ {S A B : Type 0} where
  abbrev pub continue : Option A → (A → Run S B) → Run S B
  continue (some a) f s = f a s
  continue none f s = (none, s)

  infixl 5 ◌>>=◌ ◌>>◌
  unfoldable pub ◌>>=◌ : Run S A → (A → Run S B) → Run S B
  ◌>>=◌ m f s = continue (m s).0 f (m s).1

  abbrev pub ◌>>◌ : Run S A → Run S B → Run S B
  m >> n = m >>= λ _. n

-- A value that comes back has `Q`.
pub record Answers {S A : Type 0} (Q : A → Type 0) (m : Run S A) : Type 0 where
  pub at : (s : S) (a : A) → (m s).0 ≡ some a → Q a

-- What holds of the state before holds behind, an error or not.
pub record Keeps {S A : Type 0} (P : S → Type 0) (m : Run S A) : Type 0 where
  pub after : (s : S) → P s → P (m s).1

module _ {S A B : Type 0} {P : S → Type 0} where
  Keeps-continue :
      (r : Option A) (f : A → Run S B) (s : S)
      → ((a : A) → Keeps P (f a))
      → P s
      → P (continue r f s).1
  Keeps-continue none f s kf h = h
  Keeps-continue (some a) f s kf h = (kf a).after s h

  pub Keeps-bind :
      (m : Run S A) (f : A → Run S B) → Keeps P m → ((a : A) → Keeps P (f a)) → Keeps P (m >>= f)
  unfolding ◌>>=◌
  Keeps-bind m f km kf = record {
    after = λ s h. Keeps-continue (m s).0 f (m s).1 kf (km.after s h);
  }

module _ {S A B : Type 0} {Q : B → Type 0} where
  Answers-continue :
      (r : Option A) (f : A → Run S B) (s : S) (b : B)
      → ((a : A) → Answers Q (f a))
      → (continue r f s).0 ≡ some b
      → Q b
  Answers-continue none f s b kf e = cc e
  Answers-continue (some a) f s b kf e = (kf a).at s b e

  pub Answers-bind :
      (m : Run S A) (f : A → Run S B) → ((a : A) → Answers Q (f a)) → Answers Q (m >>= f)
  unfolding ◌>>=◌
  Answers-bind m f kf = record { at = λ s b e. Answers-continue (m s).0 f (m s).1 b kf e }

module _ {S A : Type 0} {Q : A → Type 0} {m n : Run S A} where
  pub Answers-if :
      (c : Bool)
      → (c ≡ false → Answers Q n)
      → (c ≡ true → Answers Q m)
      → Answers Q (if c then m else n)
  Answers-if false other chosen = other refl
  Answers-if true other chosen = chosen refl

module _ {S A : Type 0} {Q : A → Type 0} where
  pub Answers-fail : Answers {S = S} Q fail
  unfolding fail
  Answers-fail = record { at = λ s b e. cc e }

  pub Answers-pure : (a : A) → Q a → Answers {S = S} Q (pure a)
  unfolding pure
  Answers-pure a h = record { at = λ s b e. let same : a ≡ b = cc e in subst Q same h }

module _ {S A : Type 0} {P : S → Type 0} {m n : Run S A} where
  pub Keeps-if :
      (c : Bool) → (c ≡ false → Keeps P n) → (c ≡ true → Keeps P m) → Keeps P (if c then m else n)
  Keeps-if false other chosen = other refl
  Keeps-if true other chosen = chosen refl

module _ {S A : Type 0} {P : S → Type 0} where
  pub Keeps-fail : Keeps P (fail {A = A})
  unfolding fail
  Keeps-fail = record { after = λ _ held. held }

  pub Keeps-attempt : {m : Run S A} → Keeps P m → Keeps P (attempt m)
  unfolding attempt
  Keeps-attempt k = record { after = k.after }

  pub Keeps-pure : (a : A) → Keeps P (pure a)
  unfolding pure
  Keeps-pure a = record { after = λ _ held. held }

pub ruleset keeps_rules = (Keeps-bind, Keeps-if, Keeps-attempt, Keeps-fail, Keeps-pure)

pub ruleset answers_rules = (Answers-bind, Answers-if, Answers-fail, Answers-pure)
