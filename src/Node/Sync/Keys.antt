-- ===== src/Node/Sync/Keys.antt =====
-- The keys of the firewall rules in `syncFirewall`: one text for one protocol and port.
use Prim.Native.Nat.{ℕ}
use Prim.Native.String.{String}
use mathlib.Core.Path.{◌≡◌, refl, ◌∙◌, sym, ap}
use mathlib.Core.Logic.{inl, inr}
use mathlib.Core.Bool.{Bool, true, false, not, ◌&&◌, ◌||◌}
use mathlib.Core.List.{List, [], ◌∷◌}
use native.Mathlib.Omega.{arith}
use text.Mathlib.TextEquality.{eq_iff}
use j_ui.Base.{
  ◌==◌, if◌then◌else◌, nat_equality, string_equality, nat_same_iff, elem, All, Bool-cases,
}
use j_ui.Base.Map.{Map, lookup-insert, insert, has}
use j_ui.Base.Transport.{IsTransport}
use j_ui.Base.Numbers.{itoa_injective}
use j_ui.Base.Text.{Text, text_equality, text_same_iff}
use j_ui.Model.{Node}
use j_ui.Node.Ports.{firewall_protocols}
use j_ui.Store.Rules.{Rule}
use j_ui.Node.Sync.{firewall_rule_key, want, desired_rules}

abbrev first : Text → ℕ
first [] = 0
first (c ∷ s) = c

-- Two keys are one text only for one protocol and one port.
pub firewall_rule_key_injective :
    (p q : String) (n m : ℕ)
    → IsTransport p
    → IsTransport q
    → firewall_rule_key p n ≡ firewall_rule_key q m
    → (p ≡ q) × (n ≡ m)
unfolding firewall_rule_key
firewall_rule_key_injective p q n m (inl a) (inl b) e =
    let same : firewall_rule_key "tcp" n ≡ firewall_rule_key "tcp" m = rw (a, b) at e in
    (a ∙ sym b, itoa_injective n m (cc same))
firewall_rule_key_injective p q n m (inl a) (inr b) e =
    let same : firewall_rule_key "tcp" n ≡ firewall_rule_key "udp" m = rw (a, b) at e in
    let apart : ◌≡◌ {A = ℕ} 116 117 = ap first same in absurd (omega arith)
firewall_rule_key_injective p q n m (inr a) (inl b) e =
    let same : firewall_rule_key "udp" n ≡ firewall_rule_key "tcp" m = rw (a, b) at e in
    let apart : ◌≡◌ {A = ℕ} 117 116 = ap first same in absurd (omega arith)
firewall_rule_key_injective p q n m (inr a) (inr b) e =
    let same : firewall_rule_key "udp" n ≡ firewall_rule_key "udp" m = rw (a, b) at e in
    (a ∙ sym b, itoa_injective n m (cc same))

pub firewall_protocols-IsTransport : (p : String) → All IsTransport (firewall_protocols p)
unfolding firewall_protocols
firewall_protocols-IsTransport p = ground arith

-- Some enabled node that listens beyond the host wants the port open for the protocol.
abbrev pub is_wanted : (Text → Bool) → String → ℕ → List Node → Bool
is_wanted local_listen p n [] = false
is_wanted local_listen p n (x ∷ nodes) =
    if not (not x.enabled || local_listen x.listen)
      && (elem p (firewall_protocols x.protocol) && x.port == n)
    then true
    else is_wanted local_listen p n nodes

pub key-same :
    (p q : String) (n m : ℕ)
    → IsTransport p
    → IsTransport q
    → (firewall_rule_key q m == firewall_rule_key p n) ≡ (q == p && m == n)
key-same p q n m t u = ground (
  arith,
  text_same_iff (firewall_rule_key q m) (firewall_rule_key p n),
  firewall_rule_key_injective q p m n u t,
  eq_iff q p,
  nat_same_iff m n,
)

has-want :
    (protocols : List String) (p : String) (n port : ℕ) (m : Map Text Rule)
    → IsTransport p
    → All IsTransport protocols
    → has (firewall_rule_key p n) (want protocols port m)
      ≡ (if elem p protocols && port == n then true else has (firewall_rule_key p n) m)
unfolding want has
has-want [] p n port m t a = refl
has-want (q ∷ protocols) p n port m t (u, a) =
    let r : Rule = record { protocol = q; port = port; ownership = ""; backend = "" } in
    let more = insert (firewall_rule_key q port) r m in
    ground (
      arith,
      has-want protocols p n port more t a,
      lookup-insert (firewall_rule_key q port) (firewall_rule_key p n) r m,
      key-same p q n port t u,
    )

-- The keys of the map are those that the nodes want.
pub has-desired_rules :
    (local_listen : Text → Bool) (p : String) (n : ℕ) (m : Map Text Rule) (nodes : List Node)
    → IsTransport p
    → has (firewall_rule_key p n) (desired_rules local_listen m nodes)
      ≡ (if is_wanted local_listen p n nodes then true else has (firewall_rule_key p n) m)
unfolding desired_rules
has-desired_rules local_listen p n m [] t = refl
has-desired_rules local_listen p n m (x ∷ nodes) t =
    elim (Bool-cases (not x.enabled || local_listen x.listen)) [
      | inl skip ↦ ground (arith, has-desired_rules local_listen p n m nodes t, skip)
      | inr take ↦
          let more = want (firewall_protocols x.protocol) x.port m in
          ground (
            arith,
            take,
            has-desired_rules local_listen p n more nodes t,
            has-want (firewall_protocols x.protocol) p n x.port m t
                (firewall_protocols-IsTransport x.protocol),
          )
    ]
