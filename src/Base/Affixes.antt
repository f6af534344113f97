-- ===== src/Base/Affixes.antt =====
-- What `strings.TrimPrefix` and `strings.TrimSuffix` find: the text is the affix and what they leave.
use mathlib.Core.Path.{◌≡◌, refl, ◌∙◌, sym, ap}
use mathlib.Core.Logic.{inl, inr}
use mathlib.Core.List.{◌∷◌, [], ◌++◌, reverse, reverse-append, reverse-reverse}
use mathlib.Core.Option.{some}
use native.Mathlib.Omega.{arith}
use j_ui.Base.Tests.{nat_equality, nat_same_iff, Option-cases}
use j_ui.Base.Text.{Text, strip_prefix, strip_suffix}

pub strip_prefix-append : (p r : Text) → strip_prefix p (p ++ r) ≡ some r
unfolding strip_prefix
strip_prefix-append [] r = refl
strip_prefix-append (c ∷ p) r = ground (arith, nat_same_iff c c, strip_prefix-append p r)

pub strip_prefix-some : (p s r : Text) → strip_prefix p s ≡ some r → s ≡ p ++ r
unfolding strip_prefix
strip_prefix-some [] s r e = ground (arith, e)
strip_prefix-some (c ∷ p) [] r e = cc
strip_prefix-some (c ∷ p) (d ∷ s) r e = ground (arith, e, nat_same_iff c d, strip_prefix-some p s r)

pub strip_suffix-append : (stem suffix : Text) → strip_suffix suffix (stem ++ suffix) ≡ some stem
unfolding strip_suffix
strip_suffix-append stem suffix =
    rw
      (
        strip_suffix,
        reverse-append stem suffix,
        strip_prefix-append (reverse suffix) (reverse stem),
      )
      (ap some (reverse-reverse stem))

pub strip_suffix-some :
    (suffix s stem : Text) → strip_suffix suffix s ≡ some stem → s ≡ stem ++ suffix
unfolding strip_suffix
strip_suffix-some suffix s stem e =
    elim (Option-cases (strip_prefix (reverse suffix) (reverse s))) [
      | inl other ↦ absurd (ground (arith, rw (other, strip_suffix) at e))
      | inr (rest, found) ↦
          let same : reverse rest ≡ stem = ground (arith, rw (found, strip_suffix) at e) in
          sym (reverse-reverse s)
          ∙ ap reverse (strip_prefix-some (reverse suffix) (reverse s) rest found)
          ∙ reverse-append (reverse suffix) rest
          ∙ rw (reverse-reverse suffix, same) refl
    ]
