-- ===== src/Node/Sync/Entries.antt =====
-- The entries of the map `desired` in `syncFirewall`.
use Prim.Native.Nat.{ℕ}
use Prim.Native.String.{String}
use mathlib.Core.Path.{◌≡◌, refl, ◌∙◌, ap}
use mathlib.Core.Logic.{inl, inr}
use mathlib.Core.Bool.{Bool, true, false, not, ◌||◌}
use mathlib.Core.List.{List, [], ◌∷◌}
use native.Mathlib.Omega.{arith}
use j_ui.Base.{if◌then◌else◌, nat_equality, string_equality, All, All-weaken, Bool-cases}
use j_ui.Base.Map.{Map, lookup, insert, has}
use j_ui.Base.Text.{Text, text_equality, text_same_iff}
use j_ui.Model.{Node}
use j_ui.Node.Ports.{firewall_protocols}
use j_ui.Store.Rules.{Rule, is_rule}
use j_ui.Node.Sync.Open.{Keyed}
use j_ui.Base.Transport.{IsTransport}
use j_ui.Node.Sync.Keys.{key-same, firewall_protocols-IsTransport}
use j_ui.Node.Sync.{firewall_rule_key, key_of, want, insert_by_key, in_key_order, desired_rules}

insert_by_key-All {κ} :
    (P : Text × Rule → Type κ) (x : Text × Rule) (xs : List (Text × Rule))
    → P x
    → All P xs
    → All P (insert_by_key x xs)
unfolding insert_by_key
insert_by_key-All P x [] k h = (k, tt)
insert_by_key-All P x (y ∷ ys) k h = ground (arith, insert_by_key-All P x ys k h.1)

-- What holds of the entries holds of them in the order of the keys.
pub in_key_order-All {κ} :
    (P : Text × Rule → Type κ) (m : Map Text Rule) → All P m → All P (in_key_order m)
unfolding in_key_order
in_key_order-All P [] h = tt
in_key_order-All P (x ∷ m) h = insert_by_key-All P x (in_key_order m) h.0 (in_key_order-All P m h.1)

pub insert-Keyed : (r : Rule) (m : Map Text Rule) → Keyed m → Keyed (insert (key_of r) r m)
unfolding insert
insert-Keyed r [] h = (refl, tt)
insert-Keyed r ((other, s) ∷ m) h =
    ground (arith, text_same_iff other (key_of r), insert-Keyed r m h.1)

want-Keyed :
    (protocols : List String) (port : ℕ) (m : Map Text Rule)
    → Keyed m
    → Keyed (want protocols port m)
unfolding want
want-Keyed [] port m h = h
want-Keyed (p ∷ protocols) port m h =
    want-Keyed protocols port _
      (insert-Keyed (record { protocol = p; port = port; ownership = ""; backend = "" }) m h)

pub desired_rules-Keyed :
    (local_listen : Text → Bool) (m : Map Text Rule) (nodes : List Node)
    → Keyed m
    → Keyed (desired_rules local_listen m nodes)
unfolding desired_rules
desired_rules-Keyed local_listen m [] h = h
desired_rules-Keyed local_listen m (n ∷ nodes) h =
    elim (Bool-cases (not n.enabled || local_listen n.listen)) [
      | inl skip ↦ rw (skip, desired_rules) (desired_rules-Keyed local_listen m nodes h)
      | inr take ↦
          rw (take, desired_rules)
            (desired_rules-Keyed local_listen (want (firewall_protocols n.protocol) n.port m) nodes
              (want-Keyed (firewall_protocols n.protocol) n.port m h))
    ]

abbrev pub Transported : List (Text × Rule) → Type 0
Transported = All (λ x. IsTransport x.1.protocol)

pub insert-Transported :
    (key : Text) (r : Rule) (m : Map Text Rule)
    → IsTransport r.protocol
    → Transported m
    → Transported (insert key r m)
unfolding insert
insert-Transported key r [] t h = (t, tt)
insert-Transported key r ((other, s) ∷ m) t h = ground (arith, insert-Transported key r m t h.1)

want-Transported :
    (protocols : List String) (port : ℕ) (m : Map Text Rule)
    → All IsTransport protocols
    → Transported m
    → Transported (want protocols port m)
unfolding want
want-Transported [] port m a h = h
want-Transported (p ∷ protocols) port m a h =
    want-Transported protocols port _ a.1 (insert-Transported _ _ m a.0 h)

pub desired_rules-Transported :
    (local_listen : Text → Bool) (m : Map Text Rule) (nodes : List Node)
    → Transported m
    → Transported (desired_rules local_listen m nodes)
unfolding desired_rules
desired_rules-Transported local_listen m [] h = h
desired_rules-Transported local_listen m (n ∷ nodes) h =
    elim (Bool-cases (not n.enabled || local_listen n.listen)) [
      | inl skip ↦ rw (skip, desired_rules) (desired_rules-Transported local_listen m nodes h)
      | inr take ↦
          rw (take, desired_rules)
            (desired_rules-Transported local_listen (want (firewall_protocols n.protocol) n.port m)
              nodes
              (want-Transported (firewall_protocols n.protocol) n.port m
                (firewall_protocols-IsTransport n.protocol) h))
    ]

-- The rule for the protocol and port stands in the list.
abbrev pub listed : String → ℕ → List (Text × Rule) → Bool
listed p n [] = false
listed p n (x ∷ rules) = if is_rule p n x.1 then true else listed p n rules

listed-insert_by_key :
    (p : String) (n : ℕ) (x : Text × Rule) (xs : List (Text × Rule))
    → listed p n (insert_by_key x xs) ≡ listed p n (x ∷ xs)
unfolding insert_by_key
listed-insert_by_key p n x [] = refl
listed-insert_by_key p n x (y ∷ ys) = ground (arith, listed-insert_by_key p n x ys)

listed-in_key_order :
    (p : String) (n : ℕ) (m : Map Text Rule) → listed p n (in_key_order m) ≡ listed p n m
unfolding in_key_order
listed-in_key_order p n [] = refl
listed-in_key_order p n (x ∷ m) =
    listed-insert_by_key p n x (in_key_order m)
    ∙ ap (λ b. if is_rule p n x.1 then true else b) (listed-in_key_order p n m)

pub listed-has :
    (p : String) (n : ℕ) (m : Map Text Rule)
    → IsTransport p
    → Keyed m
    → Transported m
    → listed p n m ≡ has (firewall_rule_key p n) m
unfolding has lookup
listed-has p n [] t k h = refl
listed-has p n ((key, r) ∷ m) t k h =
    ground (arith, k.0, key-same p r.protocol n r.port t h.0, listed-has p n m t k.1 h.1)

-- The ordered entries are those of the keys of the map.
pub listed-has-in_key_order :
    (p : String) (n : ℕ) (m : Map Text Rule)
    → IsTransport p
    → Keyed m
    → Transported m
    → listed p n (in_key_order m) ≡ has (firewall_rule_key p n) m
listed-has-in_key_order p n m t k h = listed-in_key_order p n m ∙ listed-has p n m t k h

-- Each entry is found under its key.
pub has-keys : (m : Map Text Rule) → All (λ x. has x.0 m ≡ true) m
unfolding has lookup
has-keys [] = tt
has-keys ((key, r) ∷ m) = (
  ground (arith, text_same_iff key key),
  All-weaken (λ x. has x.0 m ≡ true) (λ x. has x.0 ((key, r) ∷ m) ≡ true) m
      (λ x h. ground (arith, h)) (has-keys m),
)
