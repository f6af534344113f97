-- ===== src/Base/Int.antt =====
-- Go's `int`, for the code that reads and writes signed numbers.
use Prim.Native.Nat.{ℕ, zero, suc, ◌+◌, ◌-◌, ◌*◌, ◌^◌}
use mathlib.Core.Bool.{Bool, true, false, ◌&&◌, ◌||◌}
use mathlib.Core.List.{[], ◌∷◌}
use mathlib.Core.Option.{Option, none, some}
use j_ui.Base.Tests.{◌==◌, leb, ltb, if◌then◌else◌, nat_equality}
use j_ui.Base.Text.{Text, itoa}

-- `negsuc n` is -(n + 1).
pub data ℤ : Type 0 where
  pos : ℕ → ℤ
  negsuc : ℕ → ℤ

abbrev pub negate : ℕ → ℤ
negate zero = pos 0
negate (suc n) = negsuc n

abbrev pub int_leb : ℤ → ℤ → Bool
int_leb (pos a) (pos b) = leb a b
int_leb (pos a) (negsuc b) = false
int_leb (negsuc a) (pos b) = true
int_leb (negsuc a) (negsuc b) = leb b a

-- The number that a text of decimal digits writes, after a number that stands before them.
unfoldable pub digits_value : ℕ → Text → Option ℕ
digits_value n [] = some n
digits_value n (c ∷ s) =
    let rest = digits_value (10 * n + (c - b'0')) s in
    if leb b'0' c && leb c b'9' then rest else none

-- `strconv.ParseUint` with base 10 and 64 bits.
unfoldable pub parse_uint : Text → Option ℕ
unfolding digits_value
parse_uint [] = none
parse_uint (c ∷ s) = elim (digits_value 0 (c ∷ s)) [
  | none ↦ none
  | some n ↦ if ltb n (2 ^ 64) then some n else none
]

-- A magnitude with its sign, in 64 bits.
unfoldable pub signed : Bool → Option ℕ → Option ℤ
signed negative none = none
signed negative (some n) =
    if negative
    then (if leb n (2 ^ 63) then some (negate n) else none)
    else if ltb n (2 ^ 63)
    then some (pos n)
    else none

-- `strconv.Atoi`.
unfoldable pub atoi : Text → Option ℤ
unfolding parse_uint signed
atoi [] = none
atoi (c ∷ s) =
    if c == b'+' || c == b'-'
    then signed (c == b'-') (parse_uint s)
    else signed false (parse_uint (c ∷ s))

-- `strconv.Itoa`.
unfoldable pub int_text : ℤ → Text
int_text (pos n) = itoa n
int_text (negsuc n) = b'-' ∷ itoa (suc n)
