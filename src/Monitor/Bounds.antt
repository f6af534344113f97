-- ===== src/Monitor/Bounds.antt =====
-- Bounds on what the monitor reads.
use Prim.Native.Nat.{ℕ, ◌+◌, ◌-◌, ◌*◌, ◌%◌, ◌^◌, ◌≤◌, ◌<◌}
use Prim.Native.String.{String}
use mathlib.Core.Path.{◌≡◌, refl, ◌∙◌, subst}
use mathlib.Core.Logic.{inl, inr}
use mathlib.Core.List.{List, [], ◌∷◌}
use mathlib.Core.Option.{some}
use native.Mathlib.Omega.{arith}
use j_ui.Base.{◌==◌, ltb, nat_equality, Bool-cases}
use j_ui.Base.Map.{Map, lookup, lookup-insert, get_or}
use j_ui.Base.Scan.{fields, split}
use j_ui.Base.Text.{Text, codes, text_equality}
use j_ui.Monitor.{
  word, uint_value, trim_suffix, with_line, CpuTimes, sum_words, value_at, cpu_times, memory_values,
  Usage, percent, parse_memory,
}

-- The value of a name, 0 where it has none.
abbrev value_of : String → Map Text ℕ → ℕ
value_of name values = get_or (lookup (codes name) values) 0

with_line-lt :
    (name : String) (words : List Text) (values : Map Text ℕ)
    → value_of name values < 2 ^ 64
    → value_of name (with_line words values) < 2 ^ 64
with_line-lt name [] values h = h
with_line-lt name (word ∷ []) values h = h
with_line-lt name (word ∷ number ∷ more) values h =
    let key = trim_suffix (codes ":") word in
    let size = uint_value number * 1024 % 2 ^ 64 in
    elim (Bool-cases (key == codes name)) [
      | inl same ↦ rw (lookup-insert key (codes name) size values, same) (omega arith)
      | inr other ↦ rw (lookup-insert key (codes name) size values, other) h
    ]

memory_values-lt :
    (name : String) (lines : List Text) (values : Map Text ℕ)
    → value_of name values < 2 ^ 64
    → value_of name (memory_values values lines) < 2 ^ 64
unfolding memory_values
memory_values-lt name [] values h = h
memory_values-lt name (line ∷ lines) values h =
    memory_values-lt name lines (with_line (fields line) values)
      (with_line-lt name (fields line) values h)

-- What a line of /proc/meminfo says of a name, in bytes.
pub memory_value : String → Text → ℕ
memory_value name content = value_of name (memory_values [] (split b'\n' content))

memory_value-lt : (name : String) (content : Text) → memory_value name content < 2 ^ 64
unfolding memory_value lookup
memory_value-lt name content = memory_values-lt name (split b'\n' content) [] (omega arith)

module _ (Float : Type 0) (zero_percent : Float) (percentage : ℕ → ℕ → Float) where
  -- Memory that is read: the total is positive, what is used and what /proc/meminfo says is available
  -- make up the total, so no more is used than there is, and the percentage is that of the two.
  pub parse_memory-le :
      (content : Text) (m : Usage Float zero_percent percentage)
      → parse_memory Float zero_percent percentage content ≡ some m
      → (1 ≤ m.total)
        × (m.total ≡ memory_value "MemTotal" content)
        × (m.used + memory_value "MemAvailable" content ≡ m.total)
        × (m.used ≤ m.total)
        × (m.percent ≡ percentage m.used m.total)
  unfolding parse_memory percent memory_value
  parse_memory-le content m e =
      let total = memory_value "MemTotal" content in
      let available = memory_value "MemAvailable" content in
      let few : total < 2 ^ 64 = memory_value-lt "MemTotal" content in
      elim (Bool-cases (total == 0)) [
        | inl empty ↦ absurd (ground (arith, rw empty at e))
        | inr some_total ↦ elim (Bool-cases (ltb total available)) [
          | inl more ↦ absurd (ground (arith, rw (some_total, more) at e))
          | inr enough ↦
              let used = word (2 ^ 64 + total - available) in
              let usage : Usage Float zero_percent percentage = record {
                total = total;
                used = used;
                percent = percentage used total;
              } in
              let same : usage ≡ m = ground (arith, rw (some_total, enough) at e) in
              let rest : used + available ≡ total = ground (arith, enough, few) in
              subst
                (λ u.
                  (1 ≤ u.total)
                  × (u.total ≡ total)
                  × (u.used + available ≡ u.total)
                  × (u.used ≤ u.total)
                  × (u.percent ≡ percentage u.used u.total))
                same (ground (arith, some_total), refl, rest, omega (arith, rest), refl)
        ]
      ]

-- The exact sum.
abbrev pub sum : List ℕ → ℕ
sum [] = 0
sum (value ∷ values) = value + sum values

sum_words-sum :
    (total : ℕ) (values : List ℕ)
    → total + sum values < 2 ^ 64
    → sum_words total values ≡ total + sum values
unfolding sum_words
sum_words-sum total [] h = omega arith
sum_words-sum total (value ∷ values) h =
    let small : word (total + value) ≡ total + value = omega (arith, h) in
    rw small (sum_words-sum (total + value) values (omega (arith, h)) ∙ omega arith)

value_at-le : (values : List ℕ) → value_at values 3 + value_at values 4 ≤ sum values
unfolding value_at
value_at-le [] = omega arith
value_at-le (a ∷ []) = omega arith
value_at-le (a ∷ b ∷ []) = omega arith
value_at-le (a ∷ b ∷ c ∷ []) = omega arith
value_at-le (a ∷ b ∷ c ∷ d ∷ []) = omega arith
value_at-le (a ∷ b ∷ c ∷ d ∷ e ∷ values) = omega arith

-- As long as the counters together stay below 2^64, the total is their sum and the idle time a part of
-- it.
pub cpu_times-le :
    (values : List ℕ) (t : CpuTimes)
    → sum values < 2 ^ 64
    → cpu_times (some values) ≡ some t
    → (t.total ≡ sum values) × (t.idle ≤ t.total)
cpu_times-le values t h e =
    let some_sum = sum_words-sum 0 values (omega (arith, h)) in
    let part = value_at-le values in ground (arith, some_sum, part, h, e)
