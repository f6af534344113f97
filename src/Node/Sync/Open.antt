-- ===== src/Node/Sync/Open.antt =====
-- The second loop of `syncFirewall`: a rule is tracked before the firewall is asked to open it.
use Prim.Native.Nat.{ℕ}
use Prim.Native.String.{String}
use mathlib.Core.Path.{◌≡◌, refl, ◌∙◌, sym}
use mathlib.Core.Logic.{inl, inr}
use mathlib.Core.Bool.{Bool, ◌&&◌}
use mathlib.Core.List.{List, [], ◌∷◌}
use mathlib.Core.Option.{Option, some}
use j_ui.Base.{nat_equality, string_equality, All, Bool-cases}
use j_ui.Base.Map.{Map, lookup, is_some}
use j_ui.Base.Text.{Text, text_equality}
use j_ui.Store.Rules.{Rule, owned, find_rule}
use j_ui.Node.Sync.Trace.{MayClose, Inv, bind-holds}
use j_ui.Node.Sync.{
  World, Manager, ◌>>=◌, key_of, ask_backend, leave_backend, ensure, settle_opening, open_rule,
  open_wanted, open_all,
}
use j_ui.Node.Sync.Ready.{
  owned_ne_borrowed, track, ReadyFor, track-Inv, track-here, ask_backend-Ready, leave_backend-Ready,
  ensure-Ready, ensure-Asked, settle_opening-Ready,
}

module _ {Host : Type 0} (manager : Manager Host) (down : ℕ → Bool) (start : List Rule)
    (rule : Rule) where
  ensure_and_settle-Ready :
      (active : String) (w : World Host)
      → ReadyFor manager down start rule w
      → ReadyFor manager down start rule
          ((ensure manager down rule.protocol rule.port >>= settle_opening manager down rule active)
            w).1
  ensure_and_settle-Ready active w r =
      bind-holds (ReadyFor manager down start rule) (ensure manager down rule.protocol rule.port)
        (settle_opening manager down rule active) w (ensure-Ready manager down start rule w r)
        λ o got.
          settle_opening-Ready manager down start rule active o _
            (ensure-Asked manager down start rule w o got)
            (ensure-Ready manager down start rule w r)

  -- Whatever fails, a rule is opened only once it is tracked, and the invariant holds.
  pub open_rule-Inv :
      (before : Option Rule) (w : World Host)
      → ((b : Rule)
          → before ≡ some b
          → b.ownership ≡ owned
          → MayClose start rule.protocol rule.port b.backend)
      → Inv start w
      → Inv start (open_rule manager down before rule w).1
  unfolding open_rule
  open_rule-Inv before w may i =
      bind-holds (Inv start) (track manager down start rule) _ w
        (track-Inv manager down start rule w i)
        λ u done.
          let here : ReadyFor manager down start rule (track manager down start rule w).1 = record {
            inv = track-Inv manager down start rule w i;
            here = track-here manager down start rule w done;
          } in
          let asked =
            ask_backend-Ready manager down start rule (track manager down start rule w).1 here in
          (bind-holds (ReadyFor manager down start rule) (ask_backend manager down) _
            (track manager down start rule w).1 asked
            λ active _.
              let left = leave_backend-Ready manager down start rule before active _ may asked in
              bind-holds (ReadyFor manager down start rule)
                (leave_backend manager down before active rule) _ _ left
                λ _ _. ensure_and_settle-Ready active _ left).inv

-- The rule of a key, among those that the map of the start holds.
abbrev pub IsStart : List Rule → Map Text Rule → Type 0
IsStart start tracked =
    (key : Text) (r : Rule)
    → lookup key tracked ≡ some r
    → (find_rule r.protocol r.port start ≡ some r) × (key_of r ≡ key)

abbrev pub Keyed : List (Text × Rule) → Type 0
Keyed = All (λ x. key_of x.1 ≡ x.0)

module _ {Host : Type 0} (manager : Manager Host) (down : ℕ → Bool) (start : List Rule)
    (tracked : Map Text Rule) (origin : IsStart start tracked) where
  may_leave :
      (key : Text) (rule b : Rule)
      → key_of rule ≡ key
      → lookup key tracked ≡ some b
      → b.ownership ≡ owned
      → MayClose start rule.protocol rule.port b.backend
  may_leave key rule b own found mine =
      let (at, same) = origin key b found in
      (b, at, same ∙ sym own, (λ lent. owned_ne_borrowed (sym mine ∙ lent)), refl)

  open_wanted-Inv :
      (key : Text) (rule : Rule) (w : World Host)
      → key_of rule ≡ key
      → Inv start w
      → Inv start (open_wanted manager down tracked key rule w).1
  unfolding open_wanted
  open_wanted-Inv key rule w own i =
      elim (Bool-cases (is_some (lookup key tracked) && w.verified)) [
        | inl skip ↦ rw (skip, open_wanted) i
        | inr go ↦
            rw (go, open_wanted)
              (open_rule-Inv manager down start rule (lookup key tracked) w
                (λ b found mine. may_leave key rule b own found mine) i)
      ]

  pub open_all-Inv :
      (rules : List (Text × Rule)) (w : World Host)
      → Keyed rules
      → Inv start w
      → Inv start (open_all manager down tracked rules w).1
  unfolding open_all
  open_all-Inv [] w k i = i
  open_all-Inv ((key, rule) ∷ rules) w (own, k) i =
      let first = open_wanted-Inv key rule w own i in
      bind-holds (Inv start) (open_wanted manager down tracked key rule)
        (λ _. open_all manager down tracked rules) w first λ _ _. open_all-Inv rules _ k first
