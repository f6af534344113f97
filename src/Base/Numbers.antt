-- ===== src/Base/Numbers.antt =====
-- Decimal numbers as text: their digits, and that a text is of one number only.
use Prim.Native.Nat.{ℕ, zero, suc, ◌+◌, ◌-◌, ◌*◌, ◌/◌, ◌%◌, ◌<◌}
use mathlib.Core.Path.{◌≡◌, refl, ◌∙◌, sym, ap}
use mathlib.Core.Logic.{inl, inr}
use mathlib.Core.Bool.{true, ◌&&◌}
use mathlib.Core.List.{[], ◌∷◌}
use native.Mathlib.Omega.{arith}
use j_ui.Base.Tests.{leb, ltb, Bool-cases}
use j_ui.Base.Text.{Text, digits_of, itoa}

-- The number that decimal digits write, after a number that stands before them.
abbrev value : ℕ → Text → ℕ
value n [] = n
value n (c ∷ s) = value (10 * n + (c - b'0')) s

value-digits_of :
    (fuel n : ℕ) (acc : Text) → n < fuel → value 0 (digits_of fuel n acc) ≡ value n acc
unfolding digits_of
value-digits_of zero n acc h = absurd (omega arith)
value-digits_of (suc fuel) n acc h = elim (Bool-cases (ltb n 10)) [
  | inl small ↦
      let e : 10 * 0 + ((b'0' + n) - b'0') ≡ n = omega arith in
      rw (small, digits_of) (ap (λ (m : ℕ). value m acc) e)
  | inr big ↦
      let e : 10 * (n / 10) + ((b'0' + n % 10) - b'0') ≡ n = omega arith in
      let less : n / 10 < fuel = ground arith in
      rw (big, digits_of)
        (value-digits_of fuel (n / 10) ((b'0' + n % 10) ∷ acc) less ∙ ap (λ (m : ℕ). value m acc) e)
]

pub itoa_injective : (n m : ℕ) → itoa n ≡ itoa m → n ≡ m
unfolding itoa
itoa_injective n m h =
    sym (value-digits_of (suc n) n [] (omega arith))
    ∙ ap (value 0) h
    ∙ value-digits_of (suc m) m [] (omega arith)

-- Digits only.
abbrev pub AllDigits : Text → Type 0
AllDigits [] = Unit
AllDigits (c ∷ s) = ((leb b'0' c && leb c b'9') ≡ true) × AllDigits s

digits_of-AllDigits : (fuel n : ℕ) (acc : Text) → AllDigits acc → AllDigits (digits_of fuel n acc)
unfolding digits_of
digits_of-AllDigits zero n acc h = h
digits_of-AllDigits (suc fuel) n acc h =
    ground (arith, digits_of-AllDigits fuel (n / 10) ((b'0' + n % 10) ∷ acc))

pub itoa-AllDigits : (n : ℕ) → AllDigits (itoa n)
unfolding itoa
itoa-AllDigits n = digits_of-AllDigits (suc n) n [] tt

digits_of-cons :
    (fuel n d : ℕ) (acc : Text) → (c : ℕ) × (s : Text) × (digits_of fuel n (d ∷ acc) ≡ c ∷ s)
unfolding digits_of
digits_of-cons zero n d acc = (d, acc, refl)
digits_of-cons (suc fuel) n d acc = elim (Bool-cases (ltb n 10)) [
  | inl small ↦ (b'0' + n, d ∷ acc, rw (small, digits_of) refl)
  | inr big ↦
      let (c, s, e) = digits_of-cons fuel (n / 10) (b'0' + n % 10) (d ∷ acc) in
      (c, s, rw (big, digits_of) e)
]

-- A number has a digit.
pub itoa-cons : (n : ℕ) → (c : ℕ) × (s : Text) × (itoa n ≡ c ∷ s)
unfolding itoa
itoa-cons n = elim (Bool-cases (ltb n 10)) [
  | inl small ↦ (b'0' + n, [], rw (small, digits_of) refl)
  | inr big ↦
      let (c, s, e) = digits_of-cons n (n / 10) (b'0' + n % 10) [] in (c, s, rw (big, digits_of) e)
]
