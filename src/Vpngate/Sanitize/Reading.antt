-- ===== src/Vpngate/Sanitize/Reading.antt =====
-- How a reader of the lines takes them: a line `<name>` opens a block, up to the line that closes it,
-- and any other line is a directive.
use Prim.Native.Nat.{ℕ}
use mathlib.Core.Path.{◌≡◌, refl, ap}
use mathlib.Core.Logic.{inl, inr}
use mathlib.Core.Bool.{Bool, true, false, not}
use mathlib.Core.List.{List, [], ◌∷◌, ◌++◌, append_assoc}
use mathlib.Core.Option.{none, some}
use native.Mathlib.Omega.{arith}
use j_ui.Base.{◌==◌, if◌then◌else◌, nat_equality, nat_same_iff, elem, All, Bool-cases}
use j_ui.Base.Text.{
  Text, codes, text_same, text_equality, text_same_iff, strip_prefix, strip_suffix,
}
use j_ui.Base.Scan.{join}
use j_ui.Vpngate.Sanitize.{Remote, allowed_blocks, block_name, begins, final_lines}
use j_ui.Vpngate.Sanitize.Lines.{Without, NonEmpty}

pub record Reading : Type 0 where
  pub block : Text
  pub directives : List Text

abbrev pub fresh : Reading
fresh = record { block = []; directives = [] }

module _ (closes : Text → Text → Bool) where
  abbrev pub read_line : Reading → Text → Reading
  read_line r line =
      if not (r.block == [])
      then record r { block = if closes r.block line then [] else r.block }
      else elim (block_name line) [
        | some name ↦ record r { block = name }
        | none ↦ record r { directives = r.directives ++ line ∷ [] }
      ]

  unfoldable pub read_lines : Reading → List Text → Reading
  read_lines r [] = r
  read_lines r (line ∷ lines) = read_lines (read_line r line) lines

  pub read_lines-append :
      (r : Reading) (xs ys : List Text) → read_lines r (xs ++ ys) ≡ read_lines (read_lines r xs) ys
  unfolding read_lines
  read_lines-append r [] ys = refl
  read_lines-append r (x ∷ xs) ys = read_lines-append (read_line r x) xs ys

  -- A line that opens no block, read where none is open, is one more directive.
  pub read_line-directive :
      (ds : List Text) (line : Text)
      → block_name line ≡ none
      → read_line (record { block = []; directives = ds }) line
        ≡ record { block = []; directives = ds ++ line ∷ [] }
  unfolding text_same
  read_line-directive ds line h = rw h refl

  pub read_line-open :
      (ds : List Text) (line name : Text)
      → block_name line ≡ some name
      → read_line (record { block = []; directives = ds }) line
        ≡ record { block = name; directives = ds }
  unfolding text_same
  read_line-open ds line name h = rw h refl

  pub read_line-inside :
      (ds : List Text) (block line : Text)
      → (block == []) ≡ false
      → read_line (record { block = block; directives = ds }) line
        ≡ record { block = if closes block line then [] else block; directives = ds }
  read_line-inside ds block line h = rw h refl

  -- The closing lines are directives, all of them.
  pub read_lines-final :
      (ds : List Text) (r : Remote)
      → read_lines (record { block = []; directives = ds }) (final_lines r)
        ≡ record { block = []; directives = ds ++ final_lines r }
  unfolding read_lines final_lines block_name strip_prefix text_same
  read_lines-final ds r = ap (λ l. record { block = []; directives = l }) (simp append_assoc)

-- A line that does not begin with `<` opens no block.
pub block_name-none : (line : Text) → begins b'<' line ≡ false → block_name line ≡ none
unfolding block_name strip_prefix
block_name-none [] h = refl
block_name-none (c ∷ s) h = ground (arith, nat_same_iff c b'<', nat_same_iff b'<' c)

-- The first letter of a line is that of its first word.
pub begins-join :
    (c : ℕ) (word : Text) (args : List Text)
    → NonEmpty word
    → begins c (join (b' ' ∷ []) (word ∷ args)) ≡ begins c word
unfolding join
begins-join c [] args h = absurd h
begins-join c (d ∷ word) [] h = refl
begins-join c (d ∷ word) (v ∷ args) h = refl

-- What holds of each text of a list holds of one that stands in it.
pub All-elem : (P : Text → Type 0) (l : List Text) (t : Text) → All P l → elem t l ≡ true → P t
All-elem P [] t a h = cc
All-elem P (x ∷ l) t a h = elim (Bool-cases (x == t)) [
  | inl same ↦ let e = (text_same_iff x t).0 same in rw (← e) a.0
  | inr other ↦ All-elem P l t a.1 (rw other at h)
]

-- What the sanitizer writes to open a block.
pub record Opens (name : Text) : Type 0 where
  pub is_name : block_name (b'<' ∷ (name ++ b'>' ∷ [])) ≡ some name
  pub is_open : (name == []) ≡ false
  pub one_line : Without b'\n' (b'<' ∷ (name ++ b'>' ∷ []))

allowed_blocks-Opens : All Opens allowed_blocks
unfolding block_name strip_prefix strip_suffix text_same
allowed_blocks-Opens =
    let one : (name : Text) (p : block_name (b'<' ∷ (name ++ b'>' ∷ [])) ≡ some name)
        → (name == []) ≡ false
        → Without b'\n' (b'<' ∷ (name ++ b'>' ∷ []))
        → Opens name =
      λ name p q r. record { is_name = p; is_open = q; one_line = r } in
    (
      one (codes "ca") refl refl refl,
      (
        one (codes "cert") refl refl refl,
        (
          one (codes "key") refl refl refl,
          (one (codes "tls-auth") refl refl refl, (one (codes "tls-crypt") refl refl refl, tt)),
        ),
      ),
    )

pub open_block-Opens : (name : Text) → elem name allowed_blocks ≡ true → Opens name
open_block-Opens name h = All-elem Opens allowed_blocks name allowed_blocks-Opens h
