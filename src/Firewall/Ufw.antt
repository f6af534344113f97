-- ===== src/Firewall/Ufw.antt =====
-- The commands of internal/firewall/firewall.go for UFW, and the reading of its status.
pub mod Marker
pub mod Status
pub mod Delete
use Prim.Native.Nat.{ℕ, zero, suc, ◌+◌, ◌-◌}
use Prim.Native.String.{String}
use mathlib.Core.Bool.{Bool, true, false, not, ◌&&◌, ◌||◌}
use mathlib.Core.List.{List, [], ◌∷◌, ◌++◌, map}
use mathlib.Core.Option.{Option, none, some}
use j_ui.Base.{◌==◌, ltb, if◌then◌else◌, nat_equality, keep}
use j_ui.Base.Int.{ℤ, pos, negsuc, int_leb, int_text, atoi}
use j_ui.Base.Map.{is_some}
use j_ui.Base.Run.{Run, pure, fail, attempt, ◌>>=◌, ◌>>◌}
use j_ui.Base.Scan.{fields, split}
use j_ui.Base.Text.{Text, codes, texts, text_equality, after_first, trim_space, itoa}
use j_ui.Firewall.Manager.{Opening}
use j_ui.Firewall.{Runner, Command, command, owned, borrowed, backend_ufw, rule_marker, port_spec}

-- Nothing may follow the marker but a blank.
abbrev pub ends_word : Text → Bool
ends_word [] = true
ends_word (c ∷ s) = c == b' ' || c == b'\t'

abbrev pub ends_after : Option Text → Bool
ends_after none = false
ends_after (some rest) = ends_word rest

unfoldable pub ufw_line_has_marker : Text → Text → Bool
unfolding after_first
ufw_line_has_marker line marker = ends_after (after_first (codes "# " ++ marker) line)

abbrev pub any_has_marker : Text → List Text → Bool
any_has_marker marker [] = false
any_has_marker marker (line ∷ lines) =
    if ufw_line_has_marker line marker then true else any_has_marker marker lines

unfoldable pub ufw_output_has_marker : Text → Text → Bool
unfolding split
ufw_output_has_marker output marker = any_has_marker marker (split b'\n' output)

-- The words of a line of the status, without "(v6)".
abbrev pub status_fields : Text → List Text
status_fields line = keep (λ w. not (w == codes "(v6)")) (fields (trim_space line))

-- The rest of the tests on a line for the port: "ALLOW", perhaps "IN", and "Anywhere".
abbrev pub is_anywhere : List Text → Bool
is_anywhere [] = false
is_anywhere (w ∷ ws) = w == codes "Anywhere"

abbrev pub allows_from : List Text → Bool
allows_from [] = false
allows_from (w ∷ ws) = if w == codes "IN" then is_anywhere ws else w == codes "Anywhere"

abbrev pub is_global_allow : List Text → Bool
is_global_allow [] = false
is_global_allow (action ∷ ws) = action == codes "ALLOW" && allows_from ws

-- The pair that `ufwBorrowedRule` returns, from the lines that are left and the variables of its loop.
unfoldable pub borrowed_loop : Text → Text → Bool → Bool → Bool → List Text → Bool × Bool
borrowed_loop spec all matched has4 has6 [] = (matched, has4 && has6)
borrowed_loop spec all matched has4 has6 (line ∷ lines) =
    let ipv6 = is_some (after_first (codes "(v6)") line) in
    let skip = borrowed_loop spec all matched has4 has6 lines in
    elim (status_fields line) [
      | [] ↦ skip
      | w ∷ ws ↦
          let next = borrowed_loop spec all true (has4 || not ipv6) (has6 || ipv6) lines in
          if w == spec || w == all then if is_global_allow ws then next else (true, false) else skip
    ]

unfoldable pub ufw_borrowed_rule : Text → String → ℕ → Bool × Bool
unfolding split
ufw_borrowed_rule output protocol port =
    borrowed_loop (port_spec protocol port) (itoa port) false false false (split b'\n' output)

-- `strings.IndexByte`.
unfoldable pub index_byte : ℕ → Text → Option ℕ
index_byte b [] = none
index_byte b (c ∷ s) =
    let later = index_byte b s in
    if c == b then some 0 else elim later [ none ↦ none | some n ↦ some (suc n) ]

abbrev pub take : ℕ → Text → Text
take zero s = []
take (suc n) [] = []
take (suc n) (c ∷ s) = c ∷ take n s

abbrev pub drop : ℕ → Text → Text
drop zero s = s
drop (suc n) [] = []
drop (suc n) (c ∷ s) = drop n s

-- The number between the brackets of a line of the numbered status.
unfoldable pub rule_number : Text → Option ℤ
unfolding index_byte atoi trim_space
rule_number line = elim (index_byte b'[' line) [
  | none ↦ none
  | some left ↦ elim (index_byte b']' line) [
    | none ↦ none
    | some right ↦
        if ltb left right then atoi (trim_space (drop (left + 1) (take right line))) else none
  ]
]

-- The numbers of the lines with the marker; a line that cannot be read is an error.
unfoldable pub rule_numbers : Text → List Text → Option (List ℤ)
unfolding rule_number ufw_line_has_marker
rule_numbers marker [] = some []
rule_numbers marker (line ∷ lines) =
    let rest = rule_numbers marker lines in
    if not (ufw_line_has_marker line marker) then rest else elim (rule_number line) [
      | none ↦ none
      | some n ↦ elim rest [ none ↦ none | some ns ↦ some (n ∷ ns) ]
    ]

-- `sort.Sort(sort.Reverse(…))`: the greatest first.
unfoldable pub insert_down : ℤ → List ℤ → List ℤ
insert_down n [] = n ∷ []
insert_down n (m ∷ ns) = if int_leb m n then n ∷ m ∷ ns else m ∷ insert_down n ns

unfoldable pub sort_down : List ℤ → List ℤ
unfolding insert_down
sort_down [] = []
sort_down (n ∷ ns) = insert_down n (sort_down ns)

-- `lower` is `unicode.ToLower`.
module _ {Host : Type 0} (runner : Runner Host) (lower : ℕ → ℕ) where
  -- What follows the reading of the status.
  unfoldable pub ufw_decide : String → ℕ → Bool × Bool → Command Host Opening
  ufw_decide protocol port rule =
      if rule.1
      then pure (record { ownership = borrowed; backend = backend_ufw })
      else if rule.0
      then fail
      else command runner (
          codes "ufw"
          ∷ codes "allow"
          ∷ port_spec protocol port
          ∷ codes "comment"
          ∷ rule_marker protocol port
          ∷ [])
        >> pure (record { ownership = owned; backend = backend_ufw })

  unfoldable pub ufw_ensure : String → ℕ → Command Host Opening
  unfolding ufw_output_has_marker ufw_borrowed_rule
  ufw_ensure protocol port = do
    output ← command runner (texts ("ufw" ∷ "status" ∷ []))
    if ufw_output_has_marker output (rule_marker protocol port)
        then pure (record { ownership = owned; backend = backend_ufw })
        else ufw_decide protocol port (ufw_borrowed_rule output protocol port)

  unfoldable pub ufw_delete_all : List ℤ → Command Host (Unit {0})
  ufw_delete_all [] = pure tt
  ufw_delete_all (n ∷ ns) =
      command runner (codes "ufw" ∷ codes "--force" ∷ codes "delete" ∷ int_text n ∷ [])
      >> ufw_delete_all ns

  abbrev pub ufw_delete_numbers : Option (List ℤ) → Command Host (Unit {0})
  ufw_delete_numbers none = fail
  ufw_delete_numbers (some ns) = ufw_delete_all (sort_down ns)

  unfoldable pub ufw_close : String → ℕ → Command Host (Unit {0})
  unfolding split
  ufw_close protocol port = do
    output ← command runner (texts ("ufw" ∷ "status" ∷ "numbered" ∷ []))
    if is_some (after_first (codes "status: inactive") (map lower output))
        then fail
        else ufw_delete_numbers (rule_numbers (rule_marker protocol port) (split b'\n' output))
