-- ===== src/Firewall/Ufw/Marker.antt =====
-- The marker of J-UI in a line of UFW's status.
use Prim.Native.Nat.{ℕ}
use Prim.Native.String.{String}
use mathlib.Core.Path.{◌≡◌, refl, ◌∙◌, sym, ap}
use mathlib.Core.Logic.{inl, inr, ◌↔◌}
use mathlib.Core.Bool.{Bool, true, false}
use mathlib.Core.List.{[], ◌∷◌, ◌++◌}
use mathlib.Core.Option.{none}
use native.Mathlib.Omega.{arith}
use text.Mathlib.TextEquality.{eq_iff}
use j_ui.Base.{
  ◌==◌, if◌then◌else◌, nat_equality, string_equality, nat_same_iff, elem, Bool-cases, Option-cases,
}
use j_ui.Base.Numbers.{AllDigits, itoa-AllDigits, itoa_injective}
use j_ui.Base.Affixes.{strip_prefix-append}
use j_ui.Base.Text.{Text, codes, text_equality, strip_prefix, after_first, itoa}
use j_ui.Base.Transport.{IsTransport}
use j_ui.Firewall.{rule_marker}
use j_ui.Firewall.Ufw.{ufw_line_has_marker, ends_word, ends_after}

-- A part that begins with a letter that the text has not is found where it stands behind the text.
after_first-append :
    (c : ℕ) (part s t : Text)
    → elem c s ≡ false
    → after_first (c ∷ part) (s ++ (c ∷ t)) ≡ after_first (c ∷ part) (c ∷ t)
unfolding after_first strip_prefix
after_first-append c part [] t h = refl
after_first-append c part (d ∷ s) t h =
    ground (arith, after_first-append c part s t, nat_same_iff c d, nat_same_iff d c)

after_first-none : (c : ℕ) (part s : Text) → elem c s ≡ false → after_first (c ∷ part) s ≡ none
unfolding after_first strip_prefix
after_first-none c part [] h = refl
after_first-none c part (d ∷ s) h =
    ground (arith, after_first-none c part s, nat_same_iff c d, nat_same_iff d c)

-- Behind a number that is written out stands no other number's rest.
digits_injective :
    (s t tail : Text)
    → AllDigits s
    → AllDigits t
    → ends_word tail ≡ true
    → ends_after (strip_prefix s (t ++ tail)) ≡ true
    → s ≡ t
unfolding strip_prefix
digits_injective [] [] tail a b w h = refl
digits_injective [] (d ∷ t) tail a b w h = ground (arith, b.0, h)
digits_injective (c ∷ s) [] [] a b w h = cc
digits_injective (c ∷ s) [] (d ∷ tail) a b w h = ground (arith, a.0, w, h, nat_same_iff c d)
digits_injective (c ∷ s) (d ∷ t) tail a b w h = elim (Bool-cases (c == d)) [
  | inl same ↦
      let rest = digits_injective s t tail a.1 b.1 w (rw same at h) in
      let here = (nat_same_iff c d).0 same in ground (arith, rest, here)
  | inr other ↦ ground (arith, other, h)
]

-- The test on the text behind "# ".
is_marker : Text → Text → Bool
is_marker marker rest = ends_after (strip_prefix marker rest)

number_iff :
    (n m : ℕ) (tail : Text)
    → ends_word tail ≡ true
    → (is_marker (itoa n) (itoa m ++ tail) ≡ true) ↔ (n ≡ m)
unfolding is_marker
number_iff n m tail w = (
  λ h.
      itoa_injective n m
        (digits_injective (itoa n) (itoa m) tail (itoa-AllDigits n) (itoa-AllDigits m) w h),
  λ e.
      ap (λ (k : ℕ). ends_after (strip_prefix (itoa n) (itoa k ++ tail))) (sym e)
      ∙ ap ends_after (strip_prefix-append (itoa n) tail)
      ∙ w,
)

AllDigits-without : (s : Text) → AllDigits s → elem b'#' s ≡ false
AllDigits-without [] h = refl
AllDigits-without (c ∷ s) h = ground (arith, h.0, AllDigits-without s h.1, nat_same_iff c b'#')

elem-append : (c : ℕ) (s t : Text) → elem c (s ++ t) ≡ (if elem c s then true else elem c t)
elem-append c [] t = refl
elem-append c (a ∷ s) t = ground (arith, elem-append c s t)

-- Where "# " stands once, the line has a marker if the text behind it has.
line-marker :
    (pre rest marker : Text)
    → elem b'#' pre ≡ false
    → elem b'#' rest ≡ false
    → ufw_line_has_marker (pre ++ (b'#' ∷ b' ' ∷ rest)) marker ≡ is_marker marker rest
unfolding ufw_line_has_marker is_marker after_first strip_prefix
line-marker pre rest marker h k =
    ap ends_after (after_first-append b'#' (b' ' ∷ marker) pre (b' ' ∷ rest) h)
    ∙ ground (
      arith,
      Option-cases (strip_prefix marker rest),
      after_first-none b'#' (b' ' ∷ marker) (b' ' ∷ rest),
      k,
    )

number-without : (n : ℕ) (tail : Text) → elem b'#' tail ≡ false → elem b'#' (itoa n ++ tail) ≡ false
number-without n tail h =
    ground (arith, elem-append b'#' (itoa n) tail, AllDigits-without (itoa n) (itoa-AllDigits n), h)

rule_marker-without :
    (p : String) (n : ℕ) (tail : Text)
    → IsTransport p
    → elem b'#' tail ≡ false
    → elem b'#' (rule_marker p n ++ tail) ≡ false
unfolding rule_marker
rule_marker-without p n tail (inl e) h =
    ap (λ (q : String). elem b'#' (rule_marker q n ++ tail)) e ∙ number-without n tail h
rule_marker-without p n tail (inr e) h =
    ap (λ (q : String). elem b'#' (rule_marker q n ++ tail)) e ∙ number-without n tail h

marker_at : String → ℕ → String → ℕ → Text → Bool
marker_at p n q m tail = is_marker (rule_marker p n) (rule_marker q m ++ tail)

marker_at-tcp :
    (n m : ℕ) (tail : Text) → marker_at "tcp" n "tcp" m tail ≡ is_marker (itoa n) (itoa m ++ tail)
unfolding marker_at is_marker rule_marker strip_prefix
marker_at-tcp n m tail = refl

marker_at-udp :
    (n m : ℕ) (tail : Text) → marker_at "udp" n "udp" m tail ≡ is_marker (itoa n) (itoa m ++ tail)
unfolding marker_at is_marker rule_marker strip_prefix
marker_at-udp n m tail = refl

marker_at-apart :
    (n m : ℕ) (tail : Text)
    → (marker_at "tcp" n "udp" m tail ≡ false) × (marker_at "udp" n "tcp" m tail ≡ false)
unfolding marker_at is_marker rule_marker strip_prefix
marker_at-apart n m tail = (refl, refl)

marker_at_iff :
    (p q : String) (n m : ℕ) (tail : Text)
    → IsTransport p
    → IsTransport q
    → ends_word tail ≡ true
    → (marker_at p n q m tail ≡ true) ↔ ((p ≡ q) × (n ≡ m))
marker_at_iff p q n m tail (inl a) (inl b) w =
    let e : marker_at p n q m tail ≡ is_marker (itoa n) (itoa m ++ tail) =
      rw (a, b) (marker_at-tcp n m tail) in
    let i = number_iff n m tail w in (λ h. (a ∙ sym b, i.0 (sym e ∙ h)), λ same. e ∙ i.1 same.1)
marker_at_iff p q n m tail (inl a) (inr b) w =
    let e : marker_at p n q m tail ≡ false = rw (a, b) (marker_at-apart n m tail).0 in
    (λ h. cc (e, h), λ same. absurd (ground (arith, a, b, same.0, eq_iff "tcp" "udp")))
marker_at_iff p q n m tail (inr a) (inl b) w =
    let e : marker_at p n q m tail ≡ false = rw (a, b) (marker_at-apart n m tail).1 in
    (λ h. cc (e, h), λ same. absurd (ground (arith, a, b, same.0, eq_iff "udp" "tcp")))
marker_at_iff p q n m tail (inr a) (inr b) w =
    let e : marker_at p n q m tail ≡ is_marker (itoa n) (itoa m ++ tail) =
      rw (a, b) (marker_at-udp n m tail) in
    let i = number_iff n m tail w in (λ h. (a ∙ sym b, i.0 (sym e ∙ h)), λ same. e ∙ i.1 same.1)

-- In a line whose one "#" begins the comment that J-UI gave a rule for TCP or UDP, with nothing or a
-- blank behind it, the marker of a port and protocol is found exactly when the rule is theirs; so no
-- port is taken for one whose digits it begins.
pub ufw_line_has_marker_iff :
    (pre tail : Text) (p q : String) (n m : ℕ)
    → elem b'#' pre ≡ false
    → elem b'#' tail ≡ false
    → ends_word tail ≡ true
    → IsTransport p
    → IsTransport q
    → (ufw_line_has_marker (pre ++ (codes "# " ++ (rule_marker q m ++ tail))) (rule_marker p n)
        ≡ true)
      ↔ ((p ≡ q) × (n ≡ m))
unfolding marker_at
ufw_line_has_marker_iff pre tail p q n m h k w t u =
    let e =
      line-marker pre (rule_marker q m ++ tail) (rule_marker p n) h
        (rule_marker-without q m tail u k) in
    let i = marker_at_iff p q n m tail t u w in (λ x. i.0 (sym e ∙ x), λ x. e ∙ i.1 x)
