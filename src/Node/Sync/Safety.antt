-- ===== src/Node/Sync/Safety.antt =====
-- The whole of `syncFirewall`, whatever statement or call fails.
use Prim.Native.Nat.{ℕ}
use mathlib.Core.Path.{◌≡◌, subst, ◌∙◌, ap}
use mathlib.Core.Logic.{inl, inr}
use mathlib.Core.Bool.{Bool}
use mathlib.Core.List.{List, [], ◌∷◌}
use mathlib.Core.Option.{some}
use native.Mathlib.Omega.{arith}
use j_ui.Base.{◌==◌, Bool-cases}
use j_ui.Base.Map.{Map, lookup, lookup-insert, insert, is_some}
use j_ui.Base.Text.{Text, text_equality, text_same_iff}
use j_ui.Model.{Node}
use j_ui.Store.Rules.{Rule, is_tracked, find_rule}
use j_ui.Node.Sync.Trace.{IsTable, NoEnsure-EnsuredTracked, Inv, bind-holds}
use j_ui.Node.Sync.Entries.{in_key_order-All, desired_rules-Keyed}
use j_ui.Node.Sync.Stale.{Closing, drop_stale-Closing}
use j_ui.Node.Sync.Open.{IsStart, Keyed, open_all-Inv}
use j_ui.Node.Sync.{
  World, Manager, ok, ◌>>◌, key_of, in_key_order, tracked_set, desired_rules,
  managed_firewall_rules, drop_stale, open_all, verify, sync_rules, sync_firewall,
}

-- The map of the tracked rules holds rules of the table under their keys.
pub tracked_set-IsStart :
    (start : List Rule) (m : Map Text Rule) (rules : List Rule)
    → IsStart start m
    → IsTable start rules
    → IsStart start (tracked_set m rules)
unfolding tracked_set
tracked_set-IsStart start m [] o t = o
tracked_set-IsStart start m (r ∷ rules) o t =
    tracked_set-IsStart start (insert (key_of r) r m) rules
      (λ key s found. elim (Bool-cases (key_of r == key)) [
        | inl same ↦
            let e : some r ≡ some s =
              ground (arith, lookup-insert (key_of r) key r m, found, same) in
            let one : r ≡ s = ground (arith, e) in
            subst (λ (s : Rule). (find_rule s.protocol s.port start ≡ some s) × (key_of s ≡ key))
              one (t.0, (text_same_iff _ _).0 same)
        | inr other ↦ o key s (ground (arith, lookup-insert (key_of r) key r m, found, other))
      ])
      t.1

Closing-start : {Host : Type 0} (w : World Host) → w.calls ≡ [] → Closing w.rules w
unfolding is_tracked
Closing-start w e = record {
  justified = rw e tt;
  quiet = rw e tt;
  kept = λ p n r found. inl (ap is_some found);
}

Closing-Inv : {Host : Type 0} (start : List Rule) (w : World Host) → Closing start w → Inv start w
Closing-Inv start w c = record {
  justified = c.justified;
  opened = NoEnsure-EnsuredTracked w.rules w.calls c.quiet;
  kept = c.kept;
}

module _ {Host : Type 0} (manager : Manager Host) (down : ℕ → Bool) where
  managed_firewall_rules-same :
      (w : World Host)
      → ((managed_firewall_rules manager down w).1.rules ≡ w.rules)
        × ((managed_firewall_rules manager down w).1.calls ≡ w.calls)
  unfolding managed_firewall_rules
  managed_firewall_rules-same w = ground arith

  managed_firewall_rules-ok :
      (w : World Host) (rules : List Rule)
      → (managed_firewall_rules manager down w).0 ≡ ok rules
      → rules ≡ w.rules
  unfolding managed_firewall_rules
  managed_firewall_rules-ok w rules e = ground arith

  managed_firewall_rules-Closing :
      (w : World Host) → w.calls ≡ [] → Closing w.rules (managed_firewall_rules manager down w).1
  managed_firewall_rules-Closing w e =
      let (same, quiet) = managed_firewall_rules-same w in
      subst (λ rules. Closing rules (managed_firewall_rules manager down w).1) same
        (Closing-start _ (quiet ∙ e))

  open_and_verify-Inv :
      (start : List Rule) (tracked : Map Text Rule) (rules : List (Text × Rule)) (w : World Host)
      → IsStart start tracked
      → Keyed rules
      → Inv start w
      → Inv start ((open_all manager down tracked rules >> verify manager down) w).1
  open_and_verify-Inv start tracked rules w o k i =
      let opened = open_all-Inv manager down start tracked o rules w k i in
      bind-holds (Inv start) (open_all manager down tracked rules) (λ _. verify manager down) w
        opened
        λ _ _.
          unfold verify in
          record { justified = opened.justified; opened = opened.opened; kept = opened.kept }

  pub sync_rules-Inv :
      (desired : Map Text Rule) (w : World Host)
      → w.calls ≡ []
      → IsTable w.rules w.rules
      → Keyed desired
      → Inv w.rules (sync_rules manager down desired w).1
  unfolding sync_rules
  sync_rules-Inv desired w e t k =
      let read = managed_firewall_rules-Closing w e in
      bind-holds (Inv w.rules) (managed_firewall_rules manager down) _ w
        (Closing-Inv w.rules _ read)
        λ tracked got.
          let same = managed_firewall_rules-ok w tracked got in
          let rows : IsTable w.rules tracked = rw same t in
          let dropped = drop_stale-Closing manager down w.rules desired tracked _ rows read in
          bind-holds (Inv w.rules) (drop_stale manager down desired tracked) _ _
            (Closing-Inv w.rules _ dropped)
            λ _ _.
              open_and_verify-Inv w.rules (tracked_set [] tracked) (in_key_order desired) _
                (tracked_set-IsStart w.rules [] tracked (λ key r found. unfold lookup in cc) rows)
                (in_key_order-All (λ x. key_of x.1 ≡ x.0) desired k) (Closing-Inv w.rules _ dropped)

  -- Whatever statement or call of the firewall fails, a run of `syncFirewall` over a table with its
  -- primary key closes only rules that it opened itself or that were tracked as J-UI's own (not
  -- borrowed) and on that backend; each rule that it asked the firewall to open is tracked at the end;
  -- and each rule tracked at the start is tracked at the end, or was borrowed, or was closed by its
  -- backend.
  pub sync_firewall-Inv :
      (local_listen : Text → Bool) (nodes : List Node) (w : World Host)
      → w.calls ≡ []
      → IsTable w.rules w.rules
      → Inv w.rules (sync_firewall manager down local_listen nodes w).1
  unfolding sync_firewall
  sync_firewall-Inv local_listen nodes w e t =
      sync_rules-Inv (desired_rules local_listen [] nodes) w e t
        (desired_rules-Keyed local_listen [] nodes tt)
