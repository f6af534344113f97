-- ===== src/Base/Scan.antt =====
-- The lines and the words of a text, as the Go library splits and joins them.
use Prim.Native.Nat.{ℕ, ◌+◌, ◌^◌}
use mathlib.Core.Bool.{Bool, true, false, not}
use mathlib.Core.List.{List, [], ◌∷◌, ◌++◌}
use mathlib.Core.Option.{none, some}
use j_ui.Base.Tests.{◌==◌, leb, ltb, if◌then◌else◌, nat_equality}
use j_ui.Base.Text.{Text, strip_suffix, is_space}

-- The pieces of a text between newlines; a last one that is empty is none.
unfoldable pub pieces : Text → List Text
pieces [] = []
pieces (c ∷ s) =
    let rest = pieces s in
    if c == b'\n' then [] ∷ rest else elim rest [ [] ↦ (c ∷ []) ∷ [] | w ∷ ws ↦ (c ∷ w) ∷ ws ]

-- The bytes of a text in UTF-8.
unfoldable pub utf8_length : Text → ℕ
utf8_length [] = 0
utf8_length (c ∷ s) =
    (if ltb c 0x80 then 1 else if ltb c 0x800 then 2 else if ltb c 0x10000 then 3 else 4)
    + utf8_length s

unfoldable pub drop_cr : Text → Text
drop_cr line = elim (strip_suffix (b'\r' ∷ []) line) [ none ↦ line | some rest ↦ rest ]

-- `bufio.Scanner` with a buffer of 2 MiB: the lines, and whether one did not fit.
unfoldable pub scan_pieces : List Text → List Text × Bool
unfolding utf8_length drop_cr
scan_pieces [] = ([], false)
scan_pieces (p ∷ ps) =
    let rest = scan_pieces ps in
    if leb (2 ^ 21) (utf8_length p) then ([], true) else (drop_cr p ∷ rest.0, rest.1)

-- The words of a line, by `strings.Fields`: a letter goes to the word of the letter behind it.
abbrev pub starts_word : Text → Bool
starts_word [] = false
starts_word (c ∷ s) = not (is_space c)

abbrev pub attach : ℕ → List Text → List Text
attach c [] = (c ∷ []) ∷ []
attach c (w ∷ ws) = (c ∷ w) ∷ ws

unfoldable pub fields : Text → List Text
unfolding is_space
fields [] = []
fields (c ∷ s) =
    let rest = fields s in
    if is_space c then rest else if starts_word s then attach c rest else (c ∷ []) ∷ rest

-- `strings.Join`.
unfoldable pub join : Text → List Text → Text
join sep [] = []
join sep (w ∷ []) = w
join sep (w ∷ v ∷ ws) = w ++ (sep ++ join sep (v ∷ ws))

-- `strings.Split` at one code point.
unfoldable pub split : ℕ → Text → List Text
split sep [] = [] ∷ []
split sep (c ∷ s) = let rest = split sep s in if c == sep then [] ∷ rest else attach c rest
