-- ===== src/Node/Sync/Cleanup.antt =====
-- `CleanupFirewall` of internal/node/service.go, which closes and forgets every rule, past failures.
pub mod Laws
use Prim.Native.Nat.{ℕ, suc}
use Prim.Native.String.{String}
use mathlib.Core.Path.{◌≡◌, refl, ◌∙◌, sym, ap}
use mathlib.Core.Logic.{◌⊎◌, inl, inr}
use mathlib.Core.Bool.{Bool, true, false, not, ◌&&◌, ◌||◌}
use mathlib.Core.List.{List, [], ◌∷◌}
use mathlib.Core.Option.{Option, none, some}
use native.Mathlib.Omega.{arith}
use text.Mathlib.TextEquality.{eq_iff}
use j_ui.Base.{◌==◌, if◌then◌else◌, nat_equality, string_equality, nat_same_iff, All, Bool-cases}
use j_ui.Base.Map.{Map, has, lookup, lookup-insert, insert, is_some}
use j_ui.Base.Text.{Text, text_equality, text_same_iff}
use j_ui.Model.{Node}
use j_ui.Node.Ports.{firewall_protocols}
use j_ui.Store.Rules.{Rule, is_rule, is_tracked}
use j_ui.Store.Rules.Laws.{is_tracked-forget}
use j_ui.Node.Sync.Stale.{is_tracked-cons, drop_rule-ok}
use j_ui.Node.Sync.Open.{Keyed}
use j_ui.Base.Transport.{IsTransport}
use j_ui.Node.Sync.Keys.{key-same, firewall_protocols-IsTransport}
use j_ui.Node.Sync.Entries.{insert-Keyed, Transported, insert-Transported, listed, listed-has}
use j_ui.Node.Sync.{
  World, Manager, Failure, Result, ok, err, Action, firewall_rule_key, key_of, tracked_set,
  managed_firewall_rules, drop_rule,
}

-- The rules of one node that are not in the map yet.
unfoldable pub add_missing : List String → ℕ → Map Text Rule → Map Text Rule
add_missing [] port m = m
add_missing (protocol ∷ protocols) port m = add_missing protocols port (
    if has (firewall_rule_key protocol port) m
    then m
    else insert (firewall_rule_key protocol port)
        (record { protocol = protocol; port = port; ownership = ""; backend = "" }) m)

module _ (local_listen : Text → Bool) where
  -- The map `unique`, from the tracked rules on.
  unfoldable pub unique_rules : Map Text Rule → List Node → Map Text Rule
  unfolding add_missing
  unique_rules m [] = m
  unique_rules m (n ∷ nodes) =
      unique_rules
        (if not n.enabled || local_listen n.listen
          then m
          else add_missing (firewall_protocols n.protocol) n.port m)
        nodes

abbrev pub add_failure : Result (Unit {0}) → List Failure → List Failure
add_failure (ok a) failures = failures
add_failure (err e) failures = e ∷ failures

-- The order in which Go ranges over a map is a parameter.
module _ {Host : Type 0} (manager : Manager Host) (down : ℕ → Bool)
    (order : Map Text Rule → List Rule) where
  -- The loop, whose body does for a rule what `syncFirewall` does for a stale one.
  unfoldable pub close_all : List Rule → World Host → List Failure × World Host
  close_all [] w = ([], w)
  close_all (r ∷ rules) w =
      let first = drop_rule manager down r w in
      let rest = close_all rules first.1 in (add_failure first.0 rest.0, rest.1)

  abbrev pub close_unique :
      (Text → Bool) → List Node → Result (List Rule) → World Host → List Failure × World Host
  close_unique local_listen nodes (err e) w = (e ∷ [], w)
  close_unique local_listen nodes (ok rules) w =
      close_all (order (unique_rules local_listen (tracked_set [] rules) nodes)) w

  -- `nodes` is what the database lists.
  unfoldable pub cleanup_firewall :
      (Text → Bool) → List Node → World Host → List Failure × World Host
  cleanup_firewall local_listen nodes w =
      let read = managed_firewall_rules manager down w in
      close_unique local_listen nodes read.0 read.1
