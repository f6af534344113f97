-- ===== src/Vpngate/Sanitize/Lines.antt =====
-- What the text helpers of the sanitizer keep: a code point that they did not get they do not make.
use Prim.Native.Nat.{ℕ, zero, suc, ◌+◌, ◌%◌, ◌/◌}
use mathlib.Core.Path.{◌≡◌, refl}
use mathlib.Core.Logic.{inl, inr}
use mathlib.Core.Bool.{true, false}
use mathlib.Core.List.{List, [], ◌∷◌, ◌++◌, reverse, reverse_aux}
use mathlib.Core.Option.{some}
use native.Mathlib.Omega.{arith}
use j_ui.Base.{if◌then◌else◌, nat_equality, nat_same_iff, elem, All, Option-cases}
use j_ui.Base.Text.{
  Text, text_equality, digits_of, itoa, strip_prefix, strip_suffix, trim_left, trim_space,
}
use j_ui.Base.Scan.{pieces, drop_cr, scan_pieces, fields, attach, join}

-- The code point does not stand in the text.
abbrev pub Without : ℕ → Text → Type 0
Without c s = elem c s ≡ false

pub elem-append : (c : ℕ) (s t : Text) → elem c (s ++ t) ≡ (if elem c s then true else elem c t)
elem-append c [] t = refl
elem-append c (a ∷ s) t = ground (arith, elem-append c s t)

pub append-Without : (c : ℕ) (s t : Text) → Without c s → Without c t → Without c (s ++ t)
append-Without c s t h k = ground (arith, elem-append c s t)

strip_prefix-Without :
    (c : ℕ) (p s rest : Text) → strip_prefix p s ≡ some rest → Without c s → Without c rest
unfolding strip_prefix
strip_prefix-Without c [] s rest e h = ground arith
strip_prefix-Without c (a ∷ p) [] rest e h = cc
strip_prefix-Without c (a ∷ p) (b ∷ s) rest e h = ground (arith, strip_prefix-Without c p s rest)

reverse_aux-Without : (c : ℕ) (s t : Text) → Without c s → Without c t → Without c (reverse_aux s t)
reverse_aux-Without c [] t h k = k
reverse_aux-Without c (a ∷ s) t h k = reverse_aux-Without c s (a ∷ t) (ground arith) (ground arith)

reverse-Without : (c : ℕ) (s : Text) → Without c s → Without c (reverse s)
reverse-Without c s h = reverse_aux-Without c s [] h refl

strip_suffix-Without :
    (c : ℕ) (p s rest : Text) → strip_suffix p s ≡ some rest → Without c s → Without c rest
unfolding strip_suffix
strip_suffix-Without c p s rest e h = elim (Option-cases (strip_prefix (reverse p) (reverse s))) [
  | inl other ↦ ground (arith, other)
  | inr (r, found) ↦
      let same : reverse r ≡ rest = ground (arith, found) in
      rw (← same) (
        reverse-Without c r
          (strip_prefix-Without c (reverse p) (reverse s) r found (reverse-Without c s h)))
]

trim_left-Without : (c : ℕ) (s : Text) → Without c s → Without c (trim_left s)
unfolding trim_left
trim_left-Without c [] h = refl
trim_left-Without c (a ∷ s) h = ground (arith, trim_left-Without c s)

pub trim_space-Without : (c : ℕ) (s : Text) → Without c s → Without c (trim_space s)
unfolding trim_space
trim_space-Without c s h =
    reverse-Without c _ (trim_left-Without c _ (reverse-Without c _ (trim_left-Without c s h)))

drop_cr-Without : (c : ℕ) (s : Text) → Without c s → Without c (drop_cr s)
unfolding drop_cr
drop_cr-Without c s h = elim (Option-cases (strip_suffix (b'\r' ∷ []) s)) [
  | inl other ↦ ground (arith, other)
  | inr (r, found) ↦ ground (arith, strip_suffix-Without c (b'\r' ∷ []) s r found)
]

pub pieces-Without : (s : Text) → All (Without b'\n') (pieces s)
unfolding pieces
pieces-Without [] = tt
pieces-Without (c ∷ s) = ground (arith, pieces-Without s)

pub scan_pieces-Without :
    (c : ℕ) (ps : List Text) → All (Without c) ps → All (Without c) (scan_pieces ps).0
unfolding scan_pieces
scan_pieces-Without c [] h = tt
scan_pieces-Without c (p ∷ ps) h =
    ground (arith, drop_cr-Without c p h.0, scan_pieces-Without c ps h.1)

attach-All :
    (c : ℕ) (P : Text → Type 0) (ws : List Text)
    → P (c ∷ [])
    → ((w : Text) → P w → P (c ∷ w))
    → All P ws
    → All P (attach c ws)
attach-All c P [] h k a = (h, tt)
attach-All c P (w ∷ ws) h k a = (k w a.0, a.1)

pub fields-Without : (c : ℕ) (s : Text) → Without c s → All (Without c) (fields s)
unfolding fields
fields-Without c [] h = tt
fields-Without c (a ∷ s) h = ground (
  arith,
  fields-Without c s,
  attach-All a (Without c) (fields s) (ground arith) (λ (w : Text) (k : Without c w). ground arith),
)

abbrev pub NonEmpty : Text → Type 0
NonEmpty [] = ⊥
NonEmpty (c ∷ s) = Unit

pub fields-NonEmpty : (s : Text) → All NonEmpty (fields s)
unfolding fields
fields-NonEmpty [] = tt
fields-NonEmpty (a ∷ s) = ground (
  arith,
  fields-NonEmpty s,
  attach-All a NonEmpty (fields s) tt (λ (w : Text) (k : NonEmpty w). tt),
)

pub join-Without :
    (c : ℕ) (sep : Text) (ws : List Text)
    → Without c sep
    → All (Without c) ws
    → Without c (join sep ws)
unfolding join
join-Without c sep [] h a = refl
join-Without c sep (w ∷ []) h a = a.0
join-Without c sep (w ∷ v ∷ ws) h a =
    append-Without c w (sep ++ join sep (v ∷ ws)) a.0
      (append-Without c sep (join sep (v ∷ ws)) h (join-Without c sep (v ∷ ws) h a.1))

digits_of-Without :
    (fuel n : ℕ) (acc : Text) → Without b'\n' acc → Without b'\n' (digits_of fuel n acc)
unfolding digits_of
digits_of-Without zero n acc h = h
digits_of-Without (suc fuel) n acc h = ground (
  arith,
  nat_same_iff (b'0' + n) b'\n',
  nat_same_iff (b'0' + n % 10) b'\n',
  digits_of-Without fuel (n / 10) ((b'0' + n % 10) ∷ acc),
)

pub itoa-Without : (n : ℕ) → Without b'\n' (itoa n)
unfolding itoa
itoa-Without n = digits_of-Without (suc n) n [] refl
