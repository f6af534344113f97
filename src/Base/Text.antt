-- ===== src/Base/Text.antt =====
-- Text as the list of its code points, for the code that walks a string: equality, decimal numbers,
-- prefixes and suffixes, the spaces that Go trims.
use Prim.Native.Char.{code}
use Prim.Native.Nat.{ℕ, zero, suc, ◌+◌, ◌/◌, ◌%◌}
use Prim.Native.String.{String}
use mathlib.Core.Path.{◌≡◌, refl}
use mathlib.Core.Logic.{◌↔◌}
use mathlib.Core.Bool.{Bool, true, false, ◌&&◌, ◌||◌}
use mathlib.Core.List.{List, [], ◌∷◌, reverse}
use mathlib.Core.Option.{Option, none, some}
use native.Mathlib.Omega.{arith}
use j_ui.Base.Tests.{Equality, ◌==◌, nat_equality, nat_same_iff, if◌then◌else◌, leb, ltb}

abbrev pub Text : Type 0
Text = List ℕ

abbrev pub codes : String → Text
codes String.[] = []
codes (String.◌∷◌ letter rest) = code letter ∷ codes rest

abbrev pub texts : List String → List Text
texts [] = []
texts (s ∷ l) = codes s ∷ texts l

unfoldable pub text_same : Text → Text → Bool
text_same [] [] = true
text_same [] (b ∷ t) = false
text_same (a ∷ s) [] = false
text_same (a ∷ s) (b ∷ t) = a == b && text_same s t

pub text_same_iff : (s t : Text) → (text_same s t ≡ true) ↔ (s ≡ t)
unfolding text_same
text_same_iff [] [] = (λ h. refl, λ h. refl)
text_same_iff [] (b ∷ t) = (λ h. cc, λ h. cc)
text_same_iff (a ∷ s) [] = (λ h. cc, λ h. cc)
text_same_iff (a ∷ s) (b ∷ t) = ground (arith, nat_same_iff a b, text_same_iff s t)

instance abbrev pub text_equality : Equality Text
text_equality = record { same = text_same; same_iff = text_same_iff }

-- `strconv.Itoa` at a number that is not negative: the digits, with fuel for their count.
unfoldable pub digits_of : ℕ → ℕ → Text → Text
digits_of zero n acc = acc
digits_of (suc fuel) n acc =
    let more = digits_of fuel (n / 10) ((b'0' + n % 10) ∷ acc) in
    if ltb n 10 then (b'0' + n) ∷ acc else more

unfoldable pub itoa : ℕ → Text
unfolding digits_of
itoa n = digits_of (suc n) n []

-- `strings.TrimPrefix` with the test `strings.HasPrefix`.
unfoldable pub strip_prefix : Text → Text → Option Text
strip_prefix [] s = some s
strip_prefix (p ∷ ps) [] = none
strip_prefix (p ∷ ps) (c ∷ s) = if p == c then strip_prefix ps s else none

-- `strings.TrimSuffix` with the test `strings.HasSuffix`.
unfoldable pub strip_suffix : Text → Text → Option Text
strip_suffix suffix s = elim (strip_prefix (reverse suffix) (reverse s)) [
  | none ↦ none
  | some rest ↦ some (reverse rest)
]

-- `unicode.IsSpace`.
unfoldable pub is_space : ℕ → Bool
is_space c =
    (leb 9 c && leb c 13)
    || c == 32
    || c == 0x85
    || c == 0xA0
    || c == 0x1680
    || (leb 0x2000 c && leb c 0x200A)
    || c == 0x2028
    || c == 0x2029
    || c == 0x202F
    || c == 0x205F
    || c == 0x3000

unfoldable pub trim_left : Text → Text
unfolding is_space
trim_left [] = []
trim_left (c ∷ s) = if is_space c then trim_left s else c ∷ s

-- `strings.TrimSpace`.
unfoldable pub trim_space : Text → Text
unfolding trim_left
trim_space s = reverse (trim_left (reverse (trim_left s)))

-- The text behind the first occurrence of a part: `strings.Index`, and the slice from its end on.
unfoldable pub after_first : Text → Text → Option Text
after_first part [] = strip_prefix part []
after_first part (c ∷ s) =
    let later = after_first part s in
    elim (strip_prefix part (c ∷ s)) [ none ↦ later | some rest ↦ some rest ]

-- The order of Go's strings.
unfoldable pub text_before : Text → Text → Bool
text_before [] [] = false
text_before [] (b ∷ t) = true
text_before (a ∷ s) [] = false
text_before (a ∷ s) (b ∷ t) = if a == b then text_before s t else ltb a b
