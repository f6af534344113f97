-- ===== src/Vpngate/Sanitize/Prefix.antt =====
-- The sanitizer of internal/vpngate/sanitize.go against a reader that ends a block at any line that
-- begins with the closing tag.
use Prim.Native.Nat.{ℕ}
use mathlib.Core.Path.{◌≡◌, refl, ◌∙◌, ap}
use mathlib.Core.Bool.{Bool, false}
use mathlib.Core.List.{List, [], ◌∷◌, ◌++◌}
use native.Mathlib.Omega.{arith}
use j_ui.Base.{if◌then◌else◌, nat_equality}
use j_ui.Base.Map.{is_some}
use j_ui.Base.Text.{Text, codes, text_equality, text_same, strip_prefix}
use j_ui.Vpngate.Sanitize.{State, closing_tag, equal_fold, block_line, begins}
use j_ui.Vpngate.Sanitize.Reading.{
  Reading, fresh, read_line, read_lines, read_lines-append, read_line-inside, read_line-directive,
  block_name-none,
}

abbrev pub closes_by_prefix : Text → Text → Bool
closes_by_prefix block line = is_some (strip_prefix (closing_tag block) line)

-- A closing tag with more behind it.
abbrev pub long_tag : Text
long_tag = codes "</ca> x"

module _ (is_ipv4 : Text → Bool) (lower : ℕ → ℕ) (same_fold : ℕ → ℕ → Bool) where
  abbrev pub step : State → Text → State
  step = block_line is_ipv4 lower same_fold

  kept_open :
      (s : State) (line : Text)
      → s.block ≡ codes "ca"
      → equal_fold is_ipv4 lower same_fold line (codes "</ca>") ≡ false
      → (step s line).block ≡ codes "ca"
  unfolding block_line
  kept_open s line h k =
      ap (λ b. if equal_fold is_ipv4 lower same_fold line (closing_tag b) then [] else b) h
      ∙ ground (arith, k)

  output_lem : (s : State) (line : Text) → (step s line).output ≡ s.output ++ line ∷ []
  unfolding block_line
  output_lem s line = refl

  read_more :
      (s : State) (line : Text) (r : Reading)
      → read_lines closes_by_prefix fresh s.output ≡ r
      → read_lines closes_by_prefix fresh (step s line).output ≡ read_line closes_by_prefix r line
  unfolding read_lines
  read_more s line r h =
      ap (read_lines closes_by_prefix fresh) (output_lem s line)
      ∙ read_lines-append closes_by_prefix fresh s.output (line ∷ [])
      ∙ ap (λ x. read_line closes_by_prefix x line) h

  -- Inside a `<ca>` block, a line `</ca> x` and then any line that does not begin with `<` are both
  -- written to the output, while the sanitizer takes the block to be open still; a reader that ends a
  -- block at a line that begins with the closing tag takes the second line for a directive, whatever it
  -- says.
  pub block_line-directive :
      (s : State) (ds : List Text) (line : Text)
      → s.block ≡ codes "ca"
      → read_lines closes_by_prefix fresh s.output ≡ record { block = codes "ca"; directives = ds }
      → begins b'<' line ≡ false
      → equal_fold is_ipv4 lower same_fold long_tag (codes "</ca>") ≡ false
      → equal_fold is_ipv4 lower same_fold line (codes "</ca>") ≡ false
      → ((step (step s long_tag) line).block ≡ codes "ca")
        × (read_lines closes_by_prefix fresh (step (step s long_tag) line).output
            ≡ record { block = []; directives = ds ++ line ∷ [] })
  unfolding strip_prefix text_same
  block_line-directive s ds line h r plain long other = (
    kept_open (step s long_tag) line (kept_open s long_tag h long) other,
    read_more (step s long_tag) line (record { block = []; directives = ds })
          (read_more s long_tag _ r
            ∙ read_line-inside closes_by_prefix ds (codes "ca") long_tag refl)
        ∙ read_line-directive closes_by_prefix ds line (block_name-none line plain),
  )
