-- ===== src/Vpngate/Sanitize/Remotes.antt =====
-- The choice of the remote in internal/vpngate/sanitize.go, and what is known of the remotes.
use Prim.Native.Nat.{ℕ, ◌≤◌, ◌<◌}
use mathlib.Core.Path.{◌≡◌, refl, sym, subst}
use mathlib.Core.Logic.{◌⊎◌, inl, inr}
use mathlib.Core.Bool.{Bool, true, false}
use mathlib.Core.List.{List, [], ◌∷◌}
use mathlib.Core.Option.{Option, none, some}
use native.Mathlib.Omega.{arith}
use j_ui.Base.{◌==◌, ltb, if◌then◌else◌, nat_equality, All, Bool-cases}
use j_ui.Base.Text.{Text, text_equality}
use j_ui.Base.Int.{digits_value}
use j_ui.Vpngate.Sanitize.{
  Remote, udp, tcp_client, in_port_range, port_of, normalize_proto, remote_protocol, better_remote,
  choose_among, fill_protocols, default_text,
}

-- The values that a protocol may have, before and after the missing ones are filled in.
abbrev pub IsProtocol : Text → Type 0
IsProtocol p = (p ≡ udp) ⊎ (p ≡ tcp_client)

abbrev pub IsKind : Text → Type 0
IsKind p = (p ≡ []) ⊎ IsProtocol p

pub record IsRemote (ip : Text) (Kind : Text → Type 0) (r : Remote) : Type 0 where
  pub same_ip : r.ip ≡ ip
  pub low : 1 ≤ r.port
  pub high : r.port ≤ 65535
  pub kind : Kind r.protocol

in_port_range-le : (o : Option ℕ) (n : ℕ) → in_port_range o ≡ some n → (1 ≤ n) × (n ≤ 65535)
unfolding in_port_range
in_port_range-le none n h = cc
in_port_range-le (some m) n h = ground arith

pub port_of-le : (t : Text) (n : ℕ) → port_of t ≡ some n → (1 ≤ n) × (n ≤ 65535)
unfolding port_of
port_of-le [] n h = cc
port_of-le (c ∷ s) n h =
    ground
      (arith, in_port_range-le (digits_value 0 s) n, in_port_range-le (digits_value 0 (c ∷ s)) n)

pub normalize_proto-IsKind :
    (is_ipv4 : Text → Bool) (lower : ℕ → ℕ) (same_fold : ℕ → ℕ → Bool) (t : Text)
    → IsKind (normalize_proto is_ipv4 lower same_fold t)
unfolding normalize_proto
normalize_proto-IsKind is_ipv4 lower same_fold t = ground arith

pub remote_protocol-IsKind :
    (is_ipv4 : Text → Bool) (lower : ℕ → ℕ) (same_fold : ℕ → ℕ → Bool) (inherited : Text)
    (more : List Text)
    → IsKind inherited
    → IsKind (remote_protocol is_ipv4 lower same_fold inherited more)
unfolding remote_protocol
remote_protocol-IsKind is_ipv4 lower same_fold inherited [] k = k
remote_protocol-IsKind is_ipv4 lower same_fold inherited (p ∷ rest) k =
    normalize_proto-IsKind is_ipv4 lower same_fold p

fill_kind : (p q : Text) → IsKind p → IsKind q → IsProtocol (default_text (default_text p q) udp)
fill_kind p q h k = elim h [
  | inl e ↦ elim k [
    | inl e' ↦ rw (e, e') (inl refl)
    | inr (inl e') ↦ rw (e, e') (inl refl)
    | inr (inr e') ↦ rw (e, e') (inr refl)
  ]
  | inr (inl e) ↦ rw e (inl refl)
  | inr (inr e) ↦ rw e (inr refl)
]

-- No protocol is missing once the missing ones are filled in.
pub fill_protocols-IsRemote :
    (ip protocol : Text) (remotes : List Remote)
    → IsKind protocol
    → All (IsRemote ip IsKind) remotes
    → All (IsRemote ip IsProtocol) (fill_protocols protocol remotes)
unfolding fill_protocols
fill_protocols-IsRemote ip protocol [] k a = tt
fill_protocols-IsRemote ip protocol (r ∷ remotes) k (h, a) = (
  record {
    same_ip = h.same_ip;
    low = h.low;
    high = h.high;
    kind = fill_kind r.protocol protocol h.kind k;
  },
  fill_protocols-IsRemote ip protocol remotes k a,
)

pub choose_among-holds {κ} :
    (P : Remote → Type κ) (selected : Remote) (remotes : List Remote)
    → P selected
    → All P remotes
    → P (choose_among selected remotes)
unfolding choose_among
choose_among-holds P selected [] p a = p
choose_among-holds P selected (r ∷ remotes) p (q, a) =
    elim (Bool-cases (better_remote r selected)) [
      | inl better ↦ rw (better, choose_among) (choose_among-holds P r remotes q a)
      | inr worse ↦ rw (worse, choose_among) (choose_among-holds P selected remotes p a)
    ]

-- How good a remote is: UDP with a port below 2000, UDP, anything else.
abbrev pub rank : Remote → ℕ
rank r = if r.protocol == udp then if ltb r.port 2000 then 2 else 1 else 0

-- The remote is one of the list.
abbrev pub Among : Remote → List Remote → Type 0
Among r [] = ⊥
Among r (x ∷ l) = (r ≡ x) ⊎ Among r l

better_remote-rank :
    (r selected : Remote)
    → (better_remote r selected ≡ true) × (rank selected < rank r)
      ⊎ (better_remote r selected ≡ false) × (rank r ≤ rank selected)
unfolding better_remote
better_remote-rank r selected = ground arith

-- Best of the selected one and the list.
abbrev pub IsBest : Remote → List Remote → Remote → Type 0
IsBest selected remotes out =
    ((out ≡ selected) ⊎ Among out remotes)
    × (rank selected ≤ rank out)
    × All (λ r. rank r ≤ rank out) remotes

choose_among-better :
    (selected r : Remote) (remotes : List Remote)
    → better_remote r selected ≡ true
    → choose_among selected (r ∷ remotes) ≡ choose_among r remotes
unfolding choose_among
choose_among-better selected r remotes h = rw h refl

choose_among-worse :
    (selected r : Remote) (remotes : List Remote)
    → better_remote r selected ≡ false
    → choose_among selected (r ∷ remotes) ≡ choose_among selected remotes
unfolding choose_among
choose_among-worse selected r remotes h = rw h refl

IsBest-better :
    (selected r out : Remote) (remotes : List Remote)
    → rank selected < rank r
    → IsBest r remotes out
    → IsBest selected (r ∷ remotes) out
IsBest-better selected r out remotes more (source, low, rest) =
    (inr source, omega (arith, low, more), (low, rest))

IsBest-worse :
    (selected r out : Remote) (remotes : List Remote)
    → rank r ≤ rank selected
    → IsBest selected remotes out
    → IsBest selected (r ∷ remotes) out
IsBest-worse selected r out remotes less (source, low, rest) =
    (elim source [ inl e ↦ inl e | inr e ↦ inr (inr e) ], low, (omega (arith, low, less), rest))

-- `chooseRemote` returns one of its remotes (its first is where the loop starts), and none of them is
-- better: none with UDP and a port below 2000 where the result is not such, and none with UDP where
-- the result is not.
pub choose_among_lem :
    (selected : Remote) (remotes : List Remote)
    → IsBest selected remotes (choose_among selected remotes)
choose_among_lem selected [] = unfold choose_among in (inl refl, omega arith, tt)
choose_among_lem selected (r ∷ remotes) = elim (better_remote-rank r selected) [
  | inl (better, more) ↦
      subst (IsBest selected (r ∷ remotes)) (sym (choose_among-better selected r remotes better))
        (IsBest-better selected r _ remotes more (choose_among_lem r remotes))
  | inr (worse, less) ↦
      subst (IsBest selected (r ∷ remotes)) (sym (choose_among-worse selected r remotes worse))
        (IsBest-worse selected r _ remotes less (choose_among_lem selected remotes))
]
