-- ===== src/Node/Ports/Search.antt =====
-- The searches for a free port in internal/node/service.go.
use Prim.Native.Nat.{ℕ, zero, suc, ◌+◌, ◌-◌, ◌≤◌, ◌<◌}
use Prim.Native.String.{String}
use mathlib.Core.Path.{◌≡◌}
use mathlib.Core.Logic.{◌⊎◌, inl, inr, ◌≢◌}
use mathlib.Core.Bool.{Bool, true, false, not, ◌&&◌}
use mathlib.Core.List.{List, [], ◌∷◌}
use mathlib.Core.Option.{none, some}
use native.Mathlib.Omega.{arith}
use text.Mathlib.TextEquality.{eq_iff}
use j_ui.Base.{◌==◌, nat_equality, string_equality, elem, Bool-cases, Option-cases, nat_same_iff}
use j_ui.Model.{Node, cloudflare_https_ports, cloudflare_https_port}
use j_ui.Model.Protocol
use j_ui.Node.Ports.{
  max_port, scan_ports, pick_port, used_ports, next_configured_port, next_protocol_port,
}

-- A port that the search may return: the first free one of a range.
pub record IsFirst (lo hi : ℕ) (free : ℕ → Bool) (port : ℕ) : Type 0 where
  pub above : lo ≤ port
  pub below : port < hi
  pub is_free : free port ≡ true
  pub first : (p : ℕ) → lo ≤ p → p < port → free p ≡ false

first_or_later :
    (port : ℕ) (free : ℕ → Bool) (p : ℕ)
    → free port ≡ false
    → ((q : ℕ) → port + 1 ≤ q → q < p → free q ≡ false)
    → (q : ℕ) → port ≤ q
    → q < p
    → free q ≡ false
first_or_later port free p h k q lo hi = elim (Bool-cases (q == port)) [
  | inl same ↦ let e : q ≡ port = ground arith in rw e h
  | inr other ↦ k q (ground arith) hi
]

pub scan_ports-IsFirst :
    (rounds lo hi : ℕ) (free : ℕ → Bool) (port : ℕ)
    → hi ≡ lo + rounds
    → scan_ports rounds lo free ≡ some port
    → IsFirst lo hi free port
unfolding scan_ports
scan_ports-IsFirst zero lo hi free port e h = cc
scan_ports-IsFirst (suc rounds) lo hi free port e h = elim (Bool-cases (free lo)) [
  | inl free_here ↦
      let same : lo ≡ port = ground arith in
      record {
        above = omega arith;
        below = omega arith;
        is_free = rw (← same) free_here;
        first = λ p a b. absurd (omega arith);
      }
  | inr taken ↦
      let later = scan_ports-IsFirst rounds (lo + 1) hi free port (omega arith) (rw taken at h) in
      record {
        above = omega (arith, later.above);
        below = later.below;
        is_free = later.is_free;
        first = first_or_later lo free port taken later.first;
      }
]

pub scan_ports-none :
    (rounds lo hi : ℕ) (free : ℕ → Bool)
    → hi ≡ lo + rounds
    → scan_ports rounds lo free ≡ none
    → (p : ℕ) → lo ≤ p
    → p < hi
    → free p ≡ false
unfolding scan_ports
scan_ports-none zero lo hi free e h = λ p a b. absurd (omega arith)
scan_ports-none (suc rounds) lo hi free e h = elim (Bool-cases (free lo)) [
  | inl free_here ↦ cc
  | inr taken ↦
      first_or_later lo free hi taken
        (scan_ports-none rounds (lo + 1) hi free (omega arith) (rw taken at h))
]

-- From a start port up to 65535, `nextConfiguredPort` returns the first port that no node uses, and
-- it fails only if the nodes use every one of them.
pub next_configured_port_lem :
    (start : ℕ) (nodes : List Node)
    → start ≤ max_port
    → ((port : ℕ) × (next_configured_port start nodes ≡ some port)
        × IsFirst start 65536 (λ p. not (elem p (used_ports nodes))) port)
      ⊎ ((next_configured_port start nodes ≡ none)
          × ((p : ℕ) → start ≤ p → p < 65536 → elem p (used_ports nodes) ≡ true))
unfolding next_configured_port
next_configured_port_lem start nodes h =
    elim (Option-cases (scan_ports (65536 - start) start (λ p. not (elem p (used_ports nodes))))) [
      | inl e ↦ inr (
        e,
        λ p a b. ground (
          arith,
          scan_ports-none (65536 - start) start 65536 (λ q. not (elem q (used_ports nodes)))
              (omega arith) e p a b,
        ),
      )
      | inr (port, e) ↦
          inl (port, e, scan_ports-IsFirst (65536 - start) start 65536 _ port (omega arith) e)
    ]

-- What `nextProtocolPort` may return: for VLESS-WS one of the Cloudflare ports, and else a port from
-- the start port up to 65535; in both cases one that is not used and passes the caller's test.
pub record IsPick (start : ℕ) (protocol : String) (used : List ℕ) (available : ℕ → Bool) (port : ℕ)
    : Type 0 where
  pub unused : elem port used ≡ false
  pub passes : available port ≡ true
  pub in_set :
      ((protocol ≡ Protocol.vless_ws_tls) × (cloudflare_https_port port ≡ true))
      ⊎ ((protocol ≢ Protocol.vless_ws_tls) × (start ≤ port) × (port ≤ max_port))

pick_port-found :
    (ports : List ℕ) (free : ℕ → Bool) (port : ℕ)
    → pick_port ports free ≡ some port
    → (free port ≡ true) × (elem port ports ≡ true)
unfolding pick_port
pick_port-found [] free port h = cc
pick_port-found (p ∷ ports) free port h =
    ground (arith, nat_same_iff p port, pick_port-found ports free port)

pick_port-none :
    (ports : List ℕ) (free : ℕ → Bool)
    → pick_port ports free ≡ none
    → (p : ℕ) → elem p ports ≡ true
    → free p ≡ false
unfolding pick_port
pick_port-none [] free h = λ p e. cc
pick_port-none (q ∷ ports) free h = λ p e. elim (Bool-cases (q == p)) [
  | inl same ↦ let e' : q ≡ p = ground arith in rw (← e') (ground arith)
  | inr other ↦ pick_port-none ports free (ground arith) p (ground arith)
]

cloudflare_of_elem :
    (port : ℕ) → elem port cloudflare_https_ports ≡ true → cloudflare_https_port port ≡ true
unfolding cloudflare_https_port
cloudflare_of_elem port h = ground arith

-- The test that both searches make.
abbrev pub is_free_in : List ℕ → (ℕ → Bool) → ℕ → Bool
is_free_in used available port = not (elem port used) && available port

pub next_protocol_port-IsPick :
    (start : ℕ) (protocol : String) (used : List ℕ) (available : ℕ → Bool) (port : ℕ)
    → start ≤ 65536
    → next_protocol_port start protocol used available ≡ some port
    → IsPick start protocol used available port
unfolding next_protocol_port
next_protocol_port-IsPick start protocol used available port h e =
    elim (Bool-cases (protocol == Protocol.vless_ws_tls)) [
      | inl ws ↦
          let found =
            pick_port-found cloudflare_https_ports (is_free_in used available) port (rw ws at e) in
          record {
            unused = ground arith;
            passes = ground arith;
            in_set = inl ((eq_iff _ _).0 ws, cloudflare_of_elem port found.1);
          }
      | inr other ↦
          let found =
            scan_ports-IsFirst (65536 - start) start 65536 (is_free_in used available) port
              (omega arith) (rw other at e) in
          record {
            unused = ground (arith, found.is_free);
            passes = ground (arith, found.is_free);
            in_set =
                inr (
                  λ same. cc (other, (eq_iff _ _).1 same),
                  found.above,
                  omega (arith, found.below),
                );
          }
    ]
