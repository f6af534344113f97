-- ===== src/Monitor.antt =====
-- internal/monitor/service.go: the readings of /proc and the summary of nodes and exits. Go's floating
-- point is a parameter: a type with the quotient of two integers as a percentage.
pub mod Bounds
pub mod Summary
mod Tests
use Prim.Native.Nat.{ℕ, zero, suc, ◌+◌, ◌-◌, ◌*◌, ◌%◌, ◌^◌}
use Prim.Native.String.{String}
use mathlib.Core.Bool.{Bool, true, false, not, ◌&&◌, ◌||◌}
use mathlib.Core.List.{List, [], ◌∷◌, ◌++◌}
use mathlib.Core.Option.{Option, none, some}
use j_ui.Base.{◌==◌, leb, ltb, if◌then◌else◌, nat_equality, length}
use j_ui.Base.Int.{parse_uint}
use j_ui.Base.Map.{Map, insert, lookup, get_or}
use j_ui.Base.Scan.{fields, split}
use j_ui.Base.Text.{Text, codes, text_equality, strip_suffix}

-- `uint64` arithmetic.
abbrev pub word : ℕ → ℕ
word n = n % 2 ^ 64

-- The value that `strconv.ParseUint` returns, beside an error too: 0 for a text that is no number, and
-- the greatest value as soon as the number is too large.
unfoldable pub uint_loop : ℕ → Text → ℕ
uint_loop n [] = n
uint_loop n (c ∷ s) =
    let m = 10 * n + (c - b'0') in
    let rest = uint_loop m s in
    if not (leb b'0' c && leb c b'9') then 0 else if leb (2 ^ 64) m then 2 ^ 64 - 1 else rest

unfoldable pub uint_value : Text → ℕ
unfolding uint_loop
uint_value text = uint_loop 0 text

pub record CpuTimes : Type 0 where
  pub total : ℕ
  pub idle : ℕ

-- The numbers of the fields; one that is no `uint64` is an error.
unfoldable pub parse_values : List Text → Option (List ℕ)
unfolding parse_uint
parse_values [] = some []
parse_values (field ∷ more) =
    let rest = parse_values more in
    elim (parse_uint field) [
      | none ↦ none
      | some value ↦ elim rest [ none ↦ none | some values ↦ some (value ∷ values) ]
    ]

unfoldable pub sum_words : ℕ → List ℕ → ℕ
sum_words total [] = total
sum_words total (value ∷ values) = sum_words (word (total + value)) values

unfoldable pub value_at : List ℕ → ℕ → ℕ
value_at [] index = 0
value_at (value ∷ values) zero = value
value_at (value ∷ values) (suc index) = value_at values index

abbrev pub cpu_times : Option (List ℕ) → Option CpuTimes
cpu_times none = none
cpu_times (some values) =
    some
      (record { total = sum_words 0 values; idle = word (value_at values 3 + value_at values 4) })

-- The names and values of a line of /proc/stat.
abbrev pub cpu_fields : List Text → Option CpuTimes
cpu_fields [] = none
cpu_fields (name ∷ more) =
    if ltb (length more) 4 || not (name == codes "cpu") then none else cpu_times (parse_values more)

unfoldable pub parse_cpu : Text → Option CpuTimes
unfolding fields parse_values
parse_cpu line = cpu_fields (fields line)

-- `strings.TrimSuffix`.
abbrev pub trim_suffix : Text → Text → Text
trim_suffix suffix text = get_or (strip_suffix suffix text) text

abbrev pub with_line : List Text → Map Text ℕ → Map Text ℕ
with_line (name ∷ value ∷ more) values =
    insert (trim_suffix (codes ":") name) (word (uint_value value * 1024)) values
with_line (name ∷ []) values = values
with_line [] values = values

unfoldable pub memory_values : Map Text ℕ → List Text → Map Text ℕ
unfolding fields uint_value
memory_values values [] = values
memory_values values (line ∷ lines) = memory_values (with_line (fields line) values) lines

-- Two texts with every ":" as a blank: `strings.ReplaceAll`.
unfoldable pub replace_colons : Text → Text
replace_colons [] = []
replace_colons (c ∷ s) = (if c == b':' then b' ' else c) ∷ replace_colons s

abbrev pub field_at : List Text → ℕ → Text
field_at [] index = []
field_at (field ∷ more) zero = field
field_at (field ∷ more) (suc index) = field_at more index

-- The bytes received and sent, over the interfaces.
unfoldable pub network_loop : ℕ → ℕ → List Text → Option (ℕ × ℕ)
unfolding replace_colons fields
network_loop rx tx [] = some (rx, tx)
network_loop rx tx (line ∷ lines) =
    let words = fields (replace_colons line) in
    let skip = network_loop rx tx lines in
    if ltb (length words) 17 || field_at words 0 == codes "lo"
    then skip
    else elim (parse_uint (field_at words 1)) [
      | none ↦ none
      | some received ↦ elim (parse_uint (field_at words 9)) [
        | none ↦ none
        | some transmitted ↦ network_loop (word (rx + received)) (word (tx + transmitted)) lines
      ]
    ]

unfoldable pub parse_network : Text → Option (ℕ × ℕ)
unfolding network_loop split
parse_network content = network_loop 0 0 (split b'\n' content)

-- `percentage a b` is `float64(a) / float64(b) * 100`.
module _ (Float : Type 0) (zero_percent : Float) (percentage : ℕ → ℕ → Float) where
  pub record Usage : Type 0 where
    pub total : ℕ
    pub used : ℕ
    pub percent : Float

  unfoldable pub percent : ℕ → ℕ → Float
  percent used total = if total == 0 then zero_percent else percentage used total

  unfoldable pub parse_memory : Text → Option Usage
  unfolding memory_values split lookup percent
  parse_memory content =
      let values = memory_values [] (split b'\n' content) in
      let total = get_or (lookup (codes "MemTotal") values) 0 in
      let available = get_or (lookup (codes "MemAvailable") values) 0 in
      let used = word (2 ^ 64 + total - available) in
      if total == 0 || ltb total available
      then none
      else some (record { total = total; used = used; percent = percent used total })

  -- `readDisk`, from what `Statfs` answers.
  unfoldable pub disk_usage : ℕ → ℕ → ℕ → Usage
  unfolding percent
  disk_usage blocks available size =
      let total = word (blocks * size) in
      let free = word (available * size) in
      let used = word (2 ^ 64 + total - free) in
      record { total = total; used = used; percent = percent used total }

  pub record Rates : Type 0 where
    pub cpu : Float
    pub upload : ℕ
    pub download : ℕ

  abbrev pub cpu_percent : CpuTimes → CpuTimes → Float
  cpu_percent current previous =
      let total_delta = current.total - previous.total in
      let idle_delta = current.idle - previous.idle in
      if leb previous.total current.total
        && leb previous.idle current.idle
        && (ltb 0 total_delta && leb idle_delta total_delta)
      then percentage (total_delta - idle_delta) total_delta
      else zero_percent

  abbrev pub rate : Bool → (ℕ → ℕ) → ℕ → ℕ → ℕ
  rate timed per_second current previous =
      if timed && leb previous current then per_second (current - previous) else 0

  -- `timed` is `seconds > 0`, and `per_second d` is `uint64(float64(d) / seconds)`.
  unfoldable pub calculate_rates : CpuTimes → CpuTimes → ℕ → ℕ → ℕ → ℕ → Bool → (ℕ → ℕ) → Rates
  calculate_rates current previous tx previous_tx rx previous_rx timed per_second = record {
    cpu = cpu_percent current previous;
    upload = rate timed per_second tx previous_tx;
    download = rate timed per_second rx previous_rx;
  }
