-- ===== src/Node/Sync/Cleanup/Laws.antt =====
-- What `CleanupFirewall` leaves behind.
use Prim.Native.Nat.{ℕ}
use Prim.Native.String.{String}
use mathlib.Core.Path.{◌≡◌, refl, ◌∙◌}
use mathlib.Core.Logic.{◌⊎◌, inl, inr}
use mathlib.Core.Bool.{Bool, true, false, not, ◌||◌}
use mathlib.Core.List.{List, [], ◌∷◌}
use native.Mathlib.Omega.{arith}
use text.Mathlib.TextEquality.{eq_iff}
use j_ui.Base.{if◌then◌else◌, nat_equality, string_equality, nat_same_iff, All, Bool-cases}
use j_ui.Base.Map.{Map, has, lookup-insert, insert}
use j_ui.Base.Text.{Text, text_equality}
use j_ui.Model.{Node}
use j_ui.Node.Ports.{firewall_protocols}
use j_ui.Store.Rules.{Rule, is_rule, is_tracked, find_rule}
use j_ui.Store.Rules.Laws.{is_tracked-forget}
use j_ui.Node.Sync.Stale.{drop_rule-ok}
use j_ui.Node.Sync.Open.{Keyed}
use j_ui.Base.Transport.{IsTransport}
use j_ui.Node.Sync.Keys.{key-same, firewall_protocols-IsTransport}
use j_ui.Node.Sync.Entries.{insert-Keyed, Transported, insert-Transported, listed, listed-has}
use j_ui.Node.Sync.{
  World, Manager, Failure, Result, ok, err, firewall_rule_key, key_of, tracked_set,
  managed_firewall_rules, drop_rule,
}
use j_ui.Node.Sync.Cleanup.{add_missing, unique_rules, close_all, cleanup_firewall}

-- The map is well formed: each rule under its key, with TCP or UDP.
abbrev Formed : Map Text Rule → Type 0
Formed m = Keyed m × Transported m

insert-Formed :
    (r : Rule) (m : Map Text Rule)
    → IsTransport r.protocol
    → Formed m
    → Formed (insert (key_of r) r m)
insert-Formed r m t f = (insert-Keyed r m f.0, insert-Transported (key_of r) r m t f.1)

tracked_set-Formed :
    (m : Map Text Rule) (rules : List Rule)
    → All (λ r. IsTransport r.protocol) rules
    → Formed m
    → Formed (tracked_set m rules)
unfolding tracked_set
tracked_set-Formed m [] a f = f
tracked_set-Formed m (r ∷ rules) a f =
    tracked_set-Formed (insert (key_of r) r m) rules a.1 (insert-Formed r m a.0 f)

-- Every tracked rule has its key in the map of the tracked rules.
has-tracked_set :
    (p : String) (n : ℕ) (m : Map Text Rule) (rules : List Rule)
    → IsTransport p
    → All (λ r. IsTransport r.protocol) rules
    → has (firewall_rule_key p n) (tracked_set m rules)
      ≡ (if is_tracked p n rules then true else has (firewall_rule_key p n) m)
unfolding tracked_set is_tracked find_rule has
has-tracked_set p n m [] t a = refl
has-tracked_set p n m (r ∷ rules) t a = ground (
  arith,
  has-tracked_set p n (insert (key_of r) r m) rules t a.1,
  lookup-insert (key_of r) (firewall_rule_key p n) r m,
  key-same p r.protocol n r.port t a.0,
)

add_missing-Formed :
    (protocols : List String) (port : ℕ) (m : Map Text Rule)
    → All IsTransport protocols
    → Formed m
    → Formed (add_missing protocols port m)
unfolding add_missing
add_missing-Formed [] port m a f = f
add_missing-Formed (p ∷ protocols) port m a f =
    add_missing-Formed protocols port
      (if has (firewall_rule_key p port) m
        then m
        else insert (firewall_rule_key p port)
            (record { protocol = p; port = port; ownership = ""; backend = "" }) m)
      a.1
      (elim (Bool-cases (has (firewall_rule_key p port) m)) [
        | inl there ↦ rw there f
        | inr missing ↦ rw missing (
            insert-Formed (record { protocol = p; port = port; ownership = ""; backend = "" }) m a.0
              f)
      ])

has-add_missing :
    (key : Text) (protocols : List String) (port : ℕ) (m : Map Text Rule)
    → has key m ≡ true
    → has key (add_missing protocols port m) ≡ true
unfolding add_missing has
has-add_missing key [] port m h = h
has-add_missing key (p ∷ protocols) port m h =
    let r : Rule = record { protocol = p; port = port; ownership = ""; backend = "" } in
    let k = firewall_rule_key p port in
    has-add_missing key protocols port (if has k m then m else insert k r m)
      (ground (arith, h, lookup-insert k key r m))

unique_rules-Formed :
    (local_listen : Text → Bool) (m : Map Text Rule) (nodes : List Node)
    → Formed m
    → Formed (unique_rules local_listen m nodes)
unfolding unique_rules
unique_rules-Formed local_listen m [] f = f
unique_rules-Formed local_listen m (n ∷ nodes) f =
    unique_rules-Formed local_listen
      (if not n.enabled || local_listen n.listen
        then m
        else add_missing (firewall_protocols n.protocol) n.port m)
      nodes
      (elim (Bool-cases (not n.enabled || local_listen n.listen)) [
        | inl skip ↦ rw skip f
        | inr take ↦ rw take (
            add_missing-Formed (firewall_protocols n.protocol) n.port m
              (firewall_protocols-IsTransport n.protocol) f)
      ])

has-unique_rules :
    (local_listen : Text → Bool) (key : Text) (m : Map Text Rule) (nodes : List Node)
    → has key m ≡ true
    → has key (unique_rules local_listen m nodes) ≡ true
unfolding unique_rules
has-unique_rules local_listen key m [] h = h
has-unique_rules local_listen key m (n ∷ nodes) h =
    has-unique_rules local_listen key
      (if not n.enabled || local_listen n.listen
        then m
        else add_missing (firewall_protocols n.protocol) n.port m)
      nodes (ground (arith, h, has-add_missing key (firewall_protocols n.protocol) n.port m))

-- A tracked rule is in the map that the clean-up ranges over.
listed-unique_rules :
    (local_listen : Text → Bool) (rules : List Rule) (nodes : List Node) (p : String) (n : ℕ)
    → IsTransport p
    → All (λ r. IsTransport r.protocol) rules
    → is_tracked p n rules ≡ true
    → listed p n (unique_rules local_listen (tracked_set [] rules) nodes) ≡ true
listed-unique_rules local_listen rules nodes p n t a h =
    let f =
      unique_rules-Formed local_listen (tracked_set [] rules) nodes
        (tracked_set-Formed [] rules a (tt, tt)) in
    listed-has p n (unique_rules local_listen (tracked_set [] rules) nodes) t f.0 f.1
    ∙ has-unique_rules local_listen (firewall_rule_key p n) (tracked_set [] rules) nodes
        (ground (arith, has-tracked_set p n [] rules t a, h))

-- The rule for the protocol and port is in the list.
abbrev pub visits : String → ℕ → List Rule → Bool
visits p n [] = false
visits p n (r ∷ rules) = if is_rule p n r then true else visits p n rules

module _ {Host : Type 0} (manager : Manager Host) (down : ℕ → Bool)
    (order : Map Text Rule → List Rule) where
  close_all-tracked :
      (rules : List Rule) (w : World Host) (p : String) (n : ℕ)
      → (close_all manager down order rules w).0 ≡ []
      → is_tracked p n (close_all manager down order rules w).1.rules
        ≡ (if visits p n rules then false else is_tracked p n w.rules)
  unfolding close_all
  close_all-tracked [] w p n e = refl
  close_all-tracked (r ∷ rules) w p n e =
      let next : World Host = (drop_rule manager down r w).1 in
      let done : (drop_rule manager down r w).0 ≡ ok tt = ground arith in
      let none_later : (close_all manager down order rules next).0 ≡ [] = ground arith in
      ground (
        arith,
        close_all-tracked rules next p n none_later,
        drop_rule-ok manager down r w done,
        is_tracked-forget r.protocol r.port p n w.rules,
        eq_iff r.protocol p,
        nat_same_iff r.port n,
      )

  read_rules :
      (w : World Host) (rules : List Rule)
      → (managed_firewall_rules manager down w).0 ≡ ok rules
      → (rules ≡ w.rules) × ((managed_firewall_rules manager down w).1.rules ≡ w.rules)
  unfolding managed_firewall_rules
  read_rules w rules e = ground arith

  Result-cases :
      (r : Result (List Rule)) → ((f : Failure) × (r ≡ err f)) ⊎ ((a : List Rule) × (r ≡ ok a))
  Result-cases (ok a) = inr (a, refl)
  Result-cases (err f) = inl (f, refl)

  -- Where `CleanupFirewall` reports no failure, over a table whose protocols are TCP and UDP, no rule is
  -- tracked any more, in whatever order the map of the rules is walked, as long as the walk visits
  -- every entry.
  pub cleanup_firewall-tracked :
      (local_listen : Text → Bool) (nodes : List Node) (w : World Host)
      → ((m : Map Text Rule) (p : String) (n : ℕ) → visits p n (order m) ≡ listed p n m)
      → All (λ r. IsTransport r.protocol) w.rules
      → (cleanup_firewall manager down order local_listen nodes w).0 ≡ []
      → (p : String) (n : ℕ) → IsTransport p
      → is_tracked p n (cleanup_firewall manager down order local_listen nodes w).1.rules ≡ false
  unfolding cleanup_firewall
  cleanup_firewall-tracked local_listen nodes w every a e p n t =
      elim (Result-cases (managed_firewall_rules manager down w).0) [
        | inl (f, failed) ↦ absurd (ground (arith, failed, e))
        | inr (rules, read) ↦
            let (same, kept) = read_rules w rules read in
            let next : World Host = (managed_firewall_rules manager down w).1 in
            let m = unique_rules local_listen (tracked_set [] rules) nodes in
            let all_ok : (close_all manager down order (order m) next).0 ≡ [] =
              rw (read, cleanup_firewall) at e in
            rw (read, cleanup_firewall)
              (close_all-tracked (order m) next p n all_ok
                ∙ ground (
                  arith,
                  every m p n,
                  listed-unique_rules local_listen rules nodes p n t (rw same a),
                  kept,
                  same,
                ))
      ]
