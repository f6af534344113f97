-- ===== src/Firewall/Ufw/Status.antt =====
-- The rules that UFW has already for a port, and the deletion of J-UI's own.
use Prim.Native.Nat.{ℕ}
use Prim.Native.String.{String}
use mathlib.Core.Path.{◌≡◌, refl, ◌∙◌}
use mathlib.Core.Logic.{◌⊎◌, inl, inr}
use mathlib.Core.Bool.{Bool, true, false, not, ◌&&◌, ◌||◌}
use mathlib.Core.List.{List, [], ◌∷◌}
use native.Mathlib.Omega.{arith}
use j_ui.Base.{◌==◌, if◌then◌else◌, nat_equality, Bool-cases}
use j_ui.Base.Map.{is_some}
use j_ui.Base.Scan.{split}
use j_ui.Base.Text.{Text, codes, text_equality, after_first, itoa}
use j_ui.Firewall.{port_spec}
use j_ui.Firewall.Ufw.{status_fields, is_global_allow, borrowed_loop, ufw_borrowed_rule}

-- The line speaks of the port, for its protocol or for all.
abbrev is_about : Text → Text → List Text → Bool
is_about spec all [] = false
is_about spec all (w ∷ ws) = w == spec || w == all

abbrev about : Text → Text → Text → Bool
about spec all line = is_about spec all (status_fields line)

abbrev rest_of : List Text → List Text
rest_of [] = []
rest_of (w ∷ ws) = ws

-- It allows the port from anywhere.
abbrev allows : Text → Bool
allows line = is_global_allow (rest_of (status_fields line))

abbrev is_v6 : Text → Bool
is_v6 line = is_some (after_first (codes "(v6)") line)

abbrev any_line : (Text → Bool) → List Text → Bool
any_line test [] = false
any_line test (line ∷ lines) = test line || any_line test lines

-- What the result says, line by line: some line is about the port; and each such line allows it from
-- anywhere, with one for IPv4 and one for IPv6 among them.
abbrev pub reference : Text → Text → List Text → Bool × Bool
reference spec all lines = (
  any_line (about spec all) lines,
  not (any_line (λ l. about spec all l && not (allows l)) lines)
      && (any_line (λ l. about spec all l && not (is_v6 l)) lines
          && any_line (λ l. about spec all l && is_v6 l) lines),
)

List-cases {ℓ} : {A : Type ℓ} (l : List A) → (l ≡ []) ⊎ ((x : A) × (xs : List A) × (l ≡ x ∷ xs))
List-cases [] = inl refl
List-cases (x ∷ xs) = inr (x, xs, refl)

abbrev bad : Text → Text → Text → Bool
bad spec all l = about spec all l && not (allows l)

abbrev good4 : Text → Text → Text → Bool
good4 spec all l = about spec all l && not (is_v6 l)

abbrev good6 : Text → Text → Text → Bool
good6 spec all l = about spec all l && is_v6 l

-- What one line does to the loop.
borrowed_step :
    (spec all : Text) (matched has4 has6 : Bool) (line : Text) (lines : List Text)
    → borrowed_loop spec all matched has4 has6 (line ∷ lines) ≡ (
        if about spec all line
        then if allows line
          then borrowed_loop spec all true (has4 || not (is_v6 line)) (has6 || is_v6 line) lines
          else (true, false)
        else borrowed_loop spec all matched has4 has6 lines)
unfolding borrowed_loop
borrowed_step spec all matched has4 has6 line lines = elim (List-cases (status_fields line)) [
  | inl e ↦ rw (e, borrowed_loop) refl
  | inr (w, ws, e) ↦ rw (e, borrowed_loop) refl
]

borrowed_loop_reference :
    (spec all : Text) (matched has4 has6 : Bool) (lines : List Text)
    → borrowed_loop spec all matched has4 has6 lines ≡ (
      matched || any_line (about spec all) lines,
      not (any_line (bad spec all) lines)
          && ((has4 || any_line (good4 spec all) lines)
              && (has6 || any_line (good6 spec all) lines)),
    )
borrowed_loop_reference spec all matched has4 has6 [] = unfold borrowed_loop in ground arith
borrowed_loop_reference spec all matched has4 has6 (line ∷ lines) =
    borrowed_step spec all matched has4 has6 line lines ∙ elim (Bool-cases (about spec all line)) [
      | inr other ↦ rw other (borrowed_loop_reference spec all matched has4 has6 lines)
      | inl ours ↦ elim (Bool-cases (allows line)) [
        | inr refused ↦ ground (arith, ours, refused)
        | inl allowed ↦ ground (
          arith,
          ours,
          allowed,
          borrowed_loop_reference spec all true (has4 || not (is_v6 line)) (has6 || is_v6 line)
              lines,
        )
      ]
    ]

-- `ufwBorrowedRule` returns what its result is to say of the lines of the status: whether some line is
-- about the port, for its protocol or for all; and whether each such line is an allowance from anywhere
-- with one for IPv4 and one for IPv6 among them.
pub ufw_borrowed_rule-reference :
    (output : Text) (protocol : String) (port : ℕ)
    → ufw_borrowed_rule output protocol port
      ≡ reference (port_spec protocol port) (itoa port) (split b'\n' output)
unfolding ufw_borrowed_rule
ufw_borrowed_rule-reference output protocol port =
    borrowed_loop_reference (port_spec protocol port) (itoa port) false false false
      (split b'\n' output)
