-- ===== src/Node/Sync/Trace.antt =====
-- What a run of `syncFirewall` may have asked of the firewall, against the rules tracked at its start.
use Prim.Native.Nat.{ℕ}
use Prim.Native.String.{String}
use mathlib.Core.Path.{◌≡◌, refl}
use mathlib.Core.Logic.{◌⊎◌, ◌≢◌}
use mathlib.Core.Bool.{true}
use mathlib.Core.List.{List, [], ◌∷◌}
use mathlib.Core.Option.{some}
use j_ui.Base.{All}
use j_ui.Store.Rules.{Rule, borrowed, owned, is_tracked, find_rule}
use j_ui.Node.Sync.{
  World, Call, ensured, closed, Result, ok, err, Action, follow, ◌>>=◌, firewall_rule_key, key_of,
}

-- The call stands in the trace.
abbrev pub Asked : Call → List Call → Type 0
Asked c [] = ⊥
Asked c (d ∷ calls) = (d ≡ c) ⊎ Asked c calls

-- Each row is found under its own key, which is primary.
abbrev pub IsTable : List Rule → List Rule → Type 0
IsTable start rows = All (λ r. find_rule r.protocol r.port start ≡ some r) rows

-- A rule of the start with the key, and not a borrowed one, on the backend.
abbrev pub MayClose : List Rule → String → ℕ → String → Type 0
MayClose start p n b =
    (r : Rule) × (find_rule r.protocol r.port start ≡ some r)
    × (key_of r ≡ firewall_rule_key p n)
    × (r.ownership ≢ borrowed)
    × (r.backend ≡ b)

-- Every `Close` is of a rule that J-UI had opened: tracked at the start and not as borrowed, or just
-- opened by the `Ensure` before it.
abbrev pub Justified : List Rule → List Call → Type 0
Justified start [] = Unit
Justified start (ensured p n o ∷ calls) = Justified start calls
Justified start (closed p n b done ∷ calls) =
    (MayClose start p n b
      ⊎ Asked (ensured p n (some (record { ownership = owned; backend = b }))) calls)
    × Justified start calls

-- The key of every `Ensure`, whatever its answer, is tracked.
abbrev pub EnsuredTracked : List Rule → List Call → Type 0
EnsuredTracked rules [] = Unit
EnsuredTracked rules (ensured p n o ∷ calls) =
    (is_tracked p n rules ≡ true) × EnsuredTracked rules calls
EnsuredTracked rules (closed p n b done ∷ calls) = EnsuredTracked rules calls

-- A rule of the start is still tracked, or it was borrowed, or its backend closed it.
abbrev pub Kept : List Rule → List Rule → List Call → Type 0
Kept start rules calls =
    (p : String) (n : ℕ) (r : Rule)
    → find_rule p n start ≡ some r
    → (is_tracked p n rules ≡ true)
      ⊎ (r.ownership ≡ borrowed)
      ⊎ Asked (closed p n r.backend true) calls

pub record Inv {Host : Type 0} (start : List Rule) (w : World Host) : Type 0 where
  pub justified : Justified start w.calls
  pub opened : EnsuredTracked w.rules w.calls
  pub kept : Kept start w.rules w.calls

abbrev pub NoEnsure : List Call → Type 0
NoEnsure [] = Unit
NoEnsure (ensured p n o ∷ calls) = ⊥
NoEnsure (closed p n b done ∷ calls) = NoEnsure calls

pub NoEnsure-EnsuredTracked :
    (rules : List Rule) (calls : List Call) → NoEnsure calls → EnsuredTracked rules calls
NoEnsure-EnsuredTracked rules [] h = tt
NoEnsure-EnsuredTracked rules (ensured p n o ∷ calls) h = absurd h
NoEnsure-EnsuredTracked rules (closed p n b done ∷ calls) h = NoEnsure-EnsuredTracked rules calls h

pub EnsuredTracked-mono :
    (rules more : List Rule) (calls : List Call)
    → ((p : String) (n : ℕ) → is_tracked p n rules ≡ true → is_tracked p n more ≡ true)
    → EnsuredTracked rules calls
    → EnsuredTracked more calls
EnsuredTracked-mono rules more [] h e = tt
EnsuredTracked-mono rules more (ensured p n o ∷ calls) h e =
    (h p n e.0, EnsuredTracked-mono rules more calls h e.1)
EnsuredTracked-mono rules more (closed p n b done ∷ calls) h e =
    EnsuredTracked-mono rules more calls h e

follow-holds {κ} :
    {Host A B : Type 0} (P : World Host → Type κ) (r : Result A) (w : World Host)
    (f : A → Action Host B)
    → P w
    → ((a : A) → r ≡ ok a → P (f a w).1)
    → P (follow r w f).1
follow-holds P (ok a) w f p q = q a refl
follow-holds P (err e) w f p q = p

-- What holds after the first action and is kept by what follows holds after both, failure included.
pub bind-holds {κ} :
    {Host A B : Type 0} (P : World Host → Type κ) (m : Action Host A) (f : A → Action Host B)
    (w : World Host)
    → P (m w).1
    → ((a : A) → (m w).0 ≡ ok a → P (f a (m w).1).1)
    → P ((m >>= f) w).1
bind-holds P m f w p q = follow-holds P (m w).0 (m w).1 f p q

follow-eq-ok :
    {Host A B : Type 0} (r : Result A) (w : World Host) (f : A → Action Host B) (b : B)
    → (follow r w f).0 ≡ ok b
    → (a : A) × (r ≡ ok a) × (follow r w f ≡ f a w)
follow-eq-ok (ok a) w f b h = (a, refl, refl)
follow-eq-ok (err e) w f b h = cc

-- A chain succeeds only if its first action does.
pub bind-eq-ok :
    {Host A B : Type 0} (m : Action Host A) (f : A → Action Host B) (w : World Host) (b : B)
    → ((m >>= f) w).0 ≡ ok b
    → (a : A) × ((m w).0 ≡ ok a) × ((m >>= f) w ≡ f a (m w).1)
bind-eq-ok m f w b h = follow-eq-ok (m w).0 (m w).1 f b h
