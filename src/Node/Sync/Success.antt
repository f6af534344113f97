-- ===== src/Node/Sync/Success.antt =====
-- What a run of `syncFirewall` that reports no error has reached.
use Prim.Native.Nat.{ℕ}
use Prim.Native.String.{String}
use mathlib.Core.Path.{◌≡◌, ◌∙◌, sym, ap}
use mathlib.Core.Bool.{Bool, true, false, not, ◌&&◌}
use mathlib.Core.List.{List, []}
use native.Mathlib.Omega.{arith}
use j_ui.Base.{if◌then◌else◌, nat_equality, string_equality, All}
use j_ui.Base.Map.{Map, has, lookup}
use j_ui.Base.Text.{Text, text_equality}
use j_ui.Model.{Node}
use j_ui.Store.Rules.{Rule, is_tracked}
use j_ui.Node.Sync.Trace.{IsTable, bind-eq-ok}
use j_ui.Node.Sync.Stale.{drop_stale-tracked}
use j_ui.Node.Sync.Open.{Keyed}
use j_ui.Base.Transport.{IsTransport}
use j_ui.Node.Sync.Keys.{is_wanted, has-desired_rules}
use j_ui.Node.Sync.Entries.{
  desired_rules-Keyed, Transported, desired_rules-Transported, listed, listed-has-in_key_order,
}
use j_ui.Node.Sync.{
  World, Manager, Result, ok, Action, ◌>>◌, firewall_rule_key, open_all, drop_stale,
  managed_firewall_rules, verify, tracked_set, in_key_order, desired_rules, sync_rules,
  sync_firewall,
}
use j_ui.Node.Sync.Tracked.{Skips, open_all-tracked, Skips-start}

module _ {Host : Type 0} (manager : Manager Host) (down : ℕ → Bool) where
  read_rules :
      (w : World Host) (rules : List Rule)
      → (managed_firewall_rules manager down w).0 ≡ ok rules
      → (rules ≡ w.rules) × ((managed_firewall_rules manager down w).1.rules ≡ w.rules)
  unfolding managed_firewall_rules
  read_rules w rules e = ground arith

  -- The second loop and what follows it.
  open_and_verify-tracked :
      (tracked : Map Text Rule) (rules : List (Text × Rule)) (w : World Host) (p : String) (n : ℕ)
      → All (Skips manager down tracked w.rules) rules
      → ((open_all manager down tracked rules >> verify manager down) w).0 ≡ ok tt
      → is_tracked p n ((open_all manager down tracked rules >> verify manager down) w).1.rules
        ≡ (if listed p n rules then true else is_tracked p n w.rules)
  unfolding verify
  open_and_verify-tracked tracked rules w p n skips e =
      let (u, opened, whole) =
        bind-eq-ok (open_all manager down tracked rules) (λ _. verify manager down) w tt e in
      ap (λ (r : Result (Unit {0}) × World Host). is_tracked p n r.1.rules) whole
      ∙ open_all-tracked manager down tracked rules w p n skips opened

  abbrev loops : Map Text Rule → List Rule → Action Host (Unit {0})
  loops desired start =
      drop_stale manager down desired start
      >> (open_all manager down (tracked_set [] start) (in_key_order desired)
          >> verify manager down)

  loops-tracked :
      (desired : Map Text Rule) (start : List Rule) (w : World Host) (p : String) (n : ℕ)
      → IsTransport p
      → w.rules ≡ start
      → IsTable start start
      → All (λ r. IsTransport r.protocol) start
      → Keyed desired
      → Transported desired
      → (loops desired start w).0 ≡ ok tt
      → is_tracked p n (loops desired start w).1.rules ≡ has (firewall_rule_key p n) desired
  loops-tracked desired start w p n t same table transports keyed transported e =
      let (u, dropped, whole) = bind-eq-ok (drop_stale manager down desired start) _ w tt e in
      let next : World Host = (drop_stale manager down desired start w).1 in
      let left : (q : String) (m : ℕ)
          → is_tracked q m next.rules ≡ (
              if is_tracked q m start && not (has (firewall_rule_key q m) desired)
              then false
              else is_tracked q m w.rules) =
        λ q m. drop_stale-tracked manager down desired start w q m dropped in
      let skips =
        Skips-start manager down desired start next.rules table transports keyed transported
          (λ q m was kept. ground (arith, left q m, was, kept, same)) in
      ap (λ (r : Result (Unit {0}) × World Host). is_tracked p n r.1.rules) whole
      ∙ open_and_verify-tracked (tracked_set [] start) (in_key_order desired) next p n skips
          (rw whole at e)
      ∙ ground (arith, left p n, same, listed-has-in_key_order p n desired t keyed transported)

  loops-verified :
      (desired : Map Text Rule) (start : List Rule) (w : World Host)
      → (loops desired start w).0 ≡ ok tt
      → (loops desired start w).1.verified ≡ true
  unfolding verify
  loops-verified desired start w e =
      let (u, dropped, whole) = bind-eq-ok (drop_stale manager down desired start) _ w tt e in
      let (v, opened, whole') =
        bind-eq-ok (open_all manager down (tracked_set [] start) (in_key_order desired))
          (λ _. verify manager down) _ tt (rw whole at e) in
      ap (λ (r : Result (Unit {0}) × World Host). r.1.verified) (whole ∙ whole')

  -- Where `syncFirewall` returns no error, over a table with its primary key whose protocols are TCP
  -- and UDP, the tracked rules are exactly those that the nodes want: the port of an enabled node that
  -- listens beyond the host, for the protocol of its listener; and the firewall counts as verified.
  pub sync_firewall-tracked :
      (local_listen : Text → Bool) (nodes : List Node) (w : World Host)
      → IsTable w.rules w.rules
      → All (λ r. IsTransport r.protocol) w.rules
      → (sync_firewall manager down local_listen nodes w).0 ≡ ok tt
      → ((p : String) (n : ℕ)
          → IsTransport p
          → is_tracked p n (sync_firewall manager down local_listen nodes w).1.rules
            ≡ is_wanted local_listen p n nodes)
        × ((sync_firewall manager down local_listen nodes w).1.verified ≡ true)
  unfolding sync_firewall sync_rules
  sync_firewall-tracked local_listen nodes w table transports e =
      let desired = desired_rules local_listen [] nodes in
      let (rules, read, whole) = bind-eq-ok (managed_firewall_rules manager down) _ w tt e in
      let (same, kept) = read_rules w rules read in
      let start_table : IsTable rules rules = rw same table in
      let start_transports : All (λ r. IsTransport r.protocol) rules = rw same transports in
      (
        λ p n t.
            ap (λ (r : Result (Unit {0}) × World Host). is_tracked p n r.1.rules) whole
            ∙ loops-tracked desired rules _ p n t (kept ∙ sym same) start_table start_transports
                (desired_rules-Keyed local_listen [] nodes tt)
                (desired_rules-Transported local_listen [] nodes tt) (rw whole at e)
            ∙ has-desired_rules local_listen p n [] nodes t
            ∙ unfold has lookup in ground arith,
        ap (λ (r : Result (Unit {0}) × World Host). r.1.verified) whole
            ∙ loops-verified desired rules _ (rw whole at e),
      )
