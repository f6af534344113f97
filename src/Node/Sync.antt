-- ===== src/Node/Sync.antt =====
-- `syncFirewall` of internal/node/service.go: the firewall rules that the enabled public nodes want,
-- against those that the database tracks. Every statement may fail, and every call of the firewall
-- manager may; what was done before stays done.
pub mod Trace
pub mod Stale
pub mod Ready
pub mod Open
pub mod Safety
pub mod Keys
pub mod Entries
pub mod Grows
pub mod Tracked
pub mod Success
pub mod Cleanup
pub mod Answers
use Prim.Native.Nat.{ℕ, suc}
use Prim.Native.String.{String}
use mathlib.Core.Bool.{Bool, true, false, not, ◌&&◌, ◌||◌}
use mathlib.Core.List.{List, [], ◌∷◌, ◌++◌}
use mathlib.Core.Option.{Option, none, some}
use j_ui.Base.{◌==◌, leb, ltb, if◌then◌else◌, nat_equality, string_equality}
use j_ui.Base.Map.{Map, lookup, insert, has, is_some}
use j_ui.Base.Text.{text_before, Text, codes, itoa, text_equality}
pub use j_ui.Firewall.Manager.{Opening, Manager}
use j_ui.Model.{Node}
use j_ui.Node.Ports.{firewall_protocols}
use j_ui.Store.Rules.{
  Rule, owned, borrowed, unknown, is_ownership, is_backend, track_firewall_rule,
  forget_firewall_rule, set_firewall_rule_ownership,
}

-- What a run asks of the manager, with the answers.
pub data Call : Type 0 where
  ensured : String → ℕ → Option Opening → Call
  closed : String → ℕ → String → Bool → Call

-- The tracked rules, the host, `firewallVerified`, the count of the statements so far, and the calls
-- so far, newest first.
pub record World (Host : Type 0) : Type 0 where
  pub rules : List Rule
  pub host : Host
  pub verified : Bool
  pub ticks : ℕ
  pub calls : List Call

pub data Failure : Type 0 where
  database no_backend close_failed ensure_failed bad_ownership bad_backend backend_changed : Failure

pub data Result {ℓ} (A : Type ℓ) : Type ℓ where
  ok : A → Result A
  err : Failure → Result A

abbrev pub Action : Type 0 → Type 0 → Type 0
Action Host A = World Host → Result A × World Host

-- The rest of a chain, unless the result so far is an error.
abbrev pub follow :
    {Host A B : Type 0} → Result A → World Host → (A → Action Host B) → Result B × World Host
follow (ok a) w f = f a w
follow (err e) w f = (err e, w)

infixl 5 ◌>>=◌ ◌>>◌
abbrev pub ◌>>=◌ : {Host A B : Type 0} → Action Host A → (A → Action Host B) → Action Host B
m >>= f = λ w. follow (m w).0 (m w).1 f

abbrev pub ◌>>◌ : {Host B : Type 0} → Action Host (Unit {0}) → Action Host B → Action Host B
m >> k = m >>= λ _. k

abbrev pub pass : {Host : Type 0} → Action Host (Unit {0})
pass w = (ok tt, w)

abbrev pub fail : {Host A : Type 0} → Failure → Action Host A
fail e w = (err e, w)

abbrev pub when : {Host : Type 0} → Bool → Action Host (Unit {0}) → Action Host (Unit {0})
when true m = m
when false m = pass

unfoldable pub firewall_rule_key : String → ℕ → Text
firewall_rule_key protocol port = codes protocol ++ b'/' ∷ itoa port

abbrev pub key_of : Rule → Text
key_of r = firewall_rule_key r.protocol r.port

unfoldable pub want : List String → ℕ → Map Text Rule → Map Text Rule
want [] port desired = desired
want (protocol ∷ protocols) port desired = want protocols port (
    insert (firewall_rule_key protocol port)
      (record { protocol = protocol; port = port; ownership = ""; backend = "" }) desired)

unfoldable pub insert_by_key : Text × Rule → List (Text × Rule) → List (Text × Rule)
insert_by_key new [] = new ∷ []
insert_by_key new (x ∷ xs) =
    if text_before new.0 x.0 then new ∷ x ∷ xs else x ∷ insert_by_key new xs

-- The entries of `desired` in the order of the sorted keys.
unfoldable pub in_key_order : Map Text Rule → List (Text × Rule)
unfolding insert_by_key text_before
in_key_order [] = []
in_key_order (x ∷ m) = insert_by_key x (in_key_order m)

-- The map `trackedSet`.
unfoldable pub tracked_set : Map Text Rule → List Rule → Map Text Rule
tracked_set m [] = m
tracked_set m (r ∷ rules) = tracked_set (insert (key_of r) r m) rules

-- `localListen`, which parses an address, is a parameter.
module _ (local_listen : Text → Bool) where
  unfoldable pub desired_rules : Map Text Rule → List Node → Map Text Rule
  unfolding want firewall_protocols
  desired_rules m [] = m
  desired_rules m (n ∷ nodes) =
      desired_rules
        (if not n.enabled || local_listen n.listen
          then m
          else want (firewall_protocols n.protocol) n.port m)
        nodes

-- The n-th statement fails where `down n`.
module _ {Host : Type 0} (manager : Manager Host) (down : ℕ → Bool) where
  unfoldable pub statement : (List Rule → Option (List Rule)) → Action Host (Unit {0})
  statement change w =
      let w' : World Host = record w { ticks = suc w.ticks } in
      if down w.ticks then (err database, w') else elim (change w.rules) [
        | none ↦ (err database, w')
        | some rules ↦ (ok tt, record w' { rules = rules })
      ]

  unfoldable pub managed_firewall_rules : Action Host (List Rule)
  managed_firewall_rules w =
      let w' : World Host = record w { ticks = suc w.ticks } in
      if down w.ticks then (err database, w') else (ok w.rules, w')

  unfoldable pub ask_backend : Action Host String
  ask_backend w =
      let r = manager.backend w.host in
      let w' : World Host = record w { host = r.1 } in
      elim r.0 [ none ↦ (err no_backend, w') | some b ↦ (ok b, w') ]

  unfoldable pub close : String → ℕ → String → Action Host (Unit {0})
  close protocol port backend w =
      let r = manager.close protocol port backend w.host in
      let w' : World Host = record w {
        host = r.1;
        calls = closed protocol port backend r.0 ∷ w.calls;
      } in
      if r.0 then (ok tt, w') else (err close_failed, w')

  -- `_ = s.firewall.Close(…)`.
  unfoldable pub close_quietly : String → ℕ → String → Action Host (Unit {0})
  unfolding close
  close_quietly protocol port backend w = (ok tt, (close protocol port backend w).1)

  unfoldable pub ensure : String → ℕ → Action Host Opening
  ensure protocol port w =
      let r = manager.ensure protocol port w.host in
      let w' : World Host = record w { host = r.1; calls = ensured protocol port r.0 ∷ w.calls } in
      elim r.0 [ none ↦ (err ensure_failed, w') | some o ↦ (ok o, w') ]

  -- The body of the first loop, for a rule that no node wants.
  unfoldable pub drop_rule : Rule → Action Host (Unit {0})
  unfolding close statement
  drop_rule r = do
    when (not (r.ownership == borrowed)) (close r.protocol r.port r.backend)
    statement (λ rules. some (forget_firewall_rule r.protocol r.port rules))

  unfoldable pub drop_stale : Map Text Rule → List Rule → Action Host (Unit {0})
  drop_stale desired [] = pass
  drop_stale desired (r ∷ rules) =
      let next = drop_stale desired rules in
      if has (key_of r) desired then next else drop_rule r >> next

  -- The rule is taken from the backend that had it before.
  unfoldable pub leave_backend : Option Rule → String → Rule → Action Host (Unit {0})
  unfolding close
  leave_backend none active rule = pass
  leave_backend (some before) active rule =
      when
        (before.ownership == owned
          && not (before.backend == unknown)
          && not (before.backend == active))
        (close rule.protocol rule.port before.backend)

  -- The checks of the manager's answer, and the record of it.
  unfoldable pub settle_opening : Rule → String → Opening → Action Host (Unit {0})
  unfolding close_quietly statement
  settle_opening rule active o =
      if not (is_ownership o.ownership)
      then fail bad_ownership
      else if not (is_backend o.backend)
      then fail bad_backend
      else if not (o.backend == active)
      then when (o.ownership == owned) (close_quietly rule.protocol rule.port o.backend)
        >> fail backend_changed
      else statement (set_firewall_rule_ownership rule.protocol rule.port o.ownership o.backend)

  -- The second loop past its `continue`.
  unfoldable pub open_rule : Option Rule → Rule → Action Host (Unit {0})
  open_rule before rule = do
    statement (track_firewall_rule rule.protocol rule.port)
    active ← ask_backend
    leave_backend before active rule
    o ← ensure rule.protocol rule.port
    settle_opening rule active o

  -- The body of the second loop.
  unfoldable pub open_wanted : Map Text Rule → Text → Rule → Action Host (Unit {0})
  open_wanted tracked key rule w =
      if is_some (lookup key tracked) && w.verified
      then (ok tt, w)
      else open_rule (lookup key tracked) rule w

  unfoldable pub open_all : Map Text Rule → List (Text × Rule) → Action Host (Unit {0})
  open_all tracked [] = pass
  open_all tracked ((key, rule) ∷ rules) = open_wanted tracked key rule >> open_all tracked rules

  unfoldable pub verify : Action Host (Unit {0})
  verify w = (ok tt, record w { verified = true })

  unfoldable pub sync_rules : Map Text Rule → Action Host (Unit {0})
  sync_rules desired = do
    tracked ← managed_firewall_rules
    drop_stale desired tracked
    open_all (tracked_set [] tracked) (in_key_order desired)
    verify

  unfoldable pub sync_firewall : (Text → Bool) → List Node → Action Host (Unit {0})
  sync_firewall local_listen nodes = sync_rules (desired_rules local_listen [] nodes)
