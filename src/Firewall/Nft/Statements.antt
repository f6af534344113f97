-- ===== src/Firewall/Nft/Statements.antt =====
-- What nft makes of the arguments that `nftClose` passes. How nft reads its command is a parameter.
pub mod Words
use Prim.Native.Nat.{ℕ, suc}
use mathlib.Core.Path.{◌≡◌, refl, ◌∙◌, sym, ap}
use mathlib.Core.Logic.{inl, inr}
use mathlib.Core.Bool.{Bool, true, false, not, ◌&&◌, ◌||◌}
use mathlib.Core.List.{List, [], ◌∷◌, ◌++◌, append_assoc, append-nil}
use mathlib.Core.Option.{none, some}
use native.Mathlib.Omega.{arith}
use j_ui.Base.{◌==◌, leb, nat_equality, nat_same_iff, All, All-append, Bool-cases, Option-cases}
use j_ui.Base.Int.{ℤ, pos, negsuc, int_text}
use j_ui.Base.Numbers.{AllDigits, itoa-AllDigits, itoa-cons}
use j_ui.Base.Text.{Text, codes, text_equality, text_same, text_same_iff, itoa, is_space}
use j_ui.Firewall.Nft.Statements.Words.{
  is_plain, all_plain, word_letters, IsWord, IsStatement, sequence, then_command-sequence,
  run_statements, run_statements-sequence,
}
use j_ui.Firewall.Nft.{
  NftObject, NftRule, is_identifier_letter, all_letters, valid_nft_identifier, valid_nft_reference,
  then_command, owned_rule, delete_args,
}

letter-plain : (c : ℕ) → is_identifier_letter c ≡ true → (not (is_space c) && is_plain c) ≡ true
unfolding is_space
letter-plain c h = ground (arith, h)

letters-word : (s : Text) → all_letters s ≡ true → word_letters s ≡ true
letters-word [] h = refl
letters-word (c ∷ s) h = ground (arith, letter-plain c, letters-word s, h)

identifier-IsWord : (s : Text) → valid_nft_identifier s ≡ true → IsWord s
unfolding valid_nft_identifier text_same
identifier-IsWord [] h = ground (arith, h)
identifier-IsWord (c ∷ s) h = letters-word (c ∷ s) (ground (arith, h))

family-IsWord :
    (family : Text)
    → (family == codes "inet" || family == codes "ip" || family == codes "ip6") ≡ true
    → IsWord family
unfolding is_space
family-IsWord family h = elim (Bool-cases (family == codes "inet")) [
  | inl inet ↦ rw ((text_same_iff family (codes "inet")).0 inet) refl
  | inr other ↦ elim (Bool-cases (family == codes "ip")) [
    | inl ip ↦ rw ((text_same_iff family (codes "ip")).0 ip) refl
    | inr neither ↦
        rw ((text_same_iff family (codes "ip6")).0 (ground (arith, h, other, neither))) refl
  ]
]

digits-letters : (s : Text) → AllDigits s → all_letters s ≡ true
digits-letters [] h = refl
digits-letters (c ∷ s) (h, k) = ground (arith, h, digits-letters s k)

itoa-word : (n : ℕ) → word_letters (itoa n) ≡ true
itoa-word n = letters-word (itoa n) (digits-letters (itoa n) (itoa-AllDigits n))

-- The statement that deletes a rule.
abbrev pub delete_statement : NftRule → List Text
delete_statement r =
    codes "delete"
    ∷ codes "rule"
    ∷ r.family
    ∷ r.table
    ∷ r.chain
    ∷ codes "handle"
    ∷ int_text r.handle
    ∷ []

abbrev pub owned_rules : Text → List NftObject → List NftRule
owned_rules marker [] = []
owned_rules marker (o ∷ objects) = elim (owned_rule marker o.rule) [
  | none ↦ owned_rules marker objects
  | some r ↦ r ∷ owned_rules marker objects
]

abbrev pub delete_statements : List NftRule → List (List Text)
delete_statements [] = []
delete_statements (r ∷ rules) = delete_statement r ∷ delete_statements rules

int_text-IsWord : (n : ℤ) → IsWord (int_text n)
unfolding int_text is_space
int_text-IsWord (pos n) =
    let (c, s, e) = itoa-cons n in rw e (ap word_letters (sym e) ∙ itoa-word n)
int_text-IsWord (negsuc n) = itoa-word (suc n)

delete_statement-IsStatement :
    (r : NftRule)
    → valid_nft_reference r.family r.table r.chain ≡ true
    → IsStatement (delete_statement r)
unfolding valid_nft_reference is_space
delete_statement-IsStatement r h = (
  refl,
  (
    refl,
    (
      family-IsWord r.family (ground (arith, h)),
      (
        identifier-IsWord r.table (ground (arith, h)),
        (identifier-IsWord r.chain (ground (arith, h)), (refl, (int_text-IsWord r.handle, tt))),
      ),
    ),
  ),
)

owned_rules-none :
    (marker : Text) (o : NftObject) (objects : List NftObject)
    → owned_rule marker o.rule ≡ none
    → owned_rules marker (o ∷ objects) ≡ owned_rules marker objects
owned_rules-none marker o objects h = rw (h, owned_rules) refl

owned_rules-some :
    (marker : Text) (o : NftObject) (r : NftRule) (objects : List NftObject)
    → owned_rule marker o.rule ≡ some r
    → owned_rules marker (o ∷ objects) ≡ r ∷ owned_rules marker objects
owned_rules-some marker o r objects h = rw (h, owned_rules) refl

-- The arguments are a sequence of the deletions, whose words are plain.
delete_args-sequence :
    (marker : Text) (before : List (List Text)) (out : List Text) (objects : List NftObject)
    → All IsStatement before
    → delete_args marker (sequence before) objects ≡ some out
    → (out ≡ sequence (before ++ delete_statements (owned_rules marker objects)))
      × All IsStatement (before ++ delete_statements (owned_rules marker objects))
unfolding delete_args
delete_args-sequence marker before out [] h e = rw (append-nil before) (ground (arith, e), h)
delete_args-sequence marker before out (o ∷ objects) h e =
    elim (Option-cases (owned_rule marker o.rule)) [
      | inl foreign ↦
          rw (owned_rules-none marker o objects foreign)
            (delete_args-sequence marker before out objects h (rw (foreign, delete_args) at e))
      | inr (r, ours) ↦ elim (Bool-cases (valid_nft_reference r.family r.table r.chain)) [
        | inr bad ↦ absurd (ground (arith, rw (ours, bad, delete_args) at e))
        | inl good ↦
            let here = delete_statement-IsStatement r good in
            let next =
              ap (λ l. delete_args marker l objects)
                (sym (then_command-sequence before (delete_statement r) h))
              ∙ rw (ours, good, delete_args) at e in
            rw
              (
                owned_rules-some marker o r objects ours,
                sym (
                    append_assoc before (delete_statement r ∷ [])
                      (delete_statements (owned_rules marker objects))),
              )
              (delete_args-sequence marker (before ++ delete_statement r ∷ []) out objects
                (All-append IsStatement before (delete_statement r ∷ []) h (here, tt)) next)
      ]
    ]

module _ (read : Text → List Text) (read_plain : (s : Text) → all_plain s ≡ true → read s ≡ s ∷ [])
    (read_separated : (s t : Text) → all_plain s ≡ true → read (s ++ (b';' ∷ t)) ≡ s ∷ read t) where
  -- nft joins its arguments with blanks and cuts their text into statements. As long as it reads text
  -- without newline, quote, comment, block, escape and variable as one statement and ends it at ";",
  -- the arguments that `nftClose` passes, where it accepts the ruleset, are read as one deletion for
  -- each rule with J-UI's comment and a positive handle, in the order of the ruleset and of exactly
  -- the words of that deletion, and as nothing else: no name in the ruleset can add a word or a
  -- statement. Without such a rule nothing is run.
  pub delete_args-statements :
      (marker : Text) (out : List Text) (objects : List NftObject)
      → delete_args marker [] objects ≡ some out
      → run_statements read out ≡ delete_statements (owned_rules marker objects)
  delete_args-statements marker out objects e =
      let (same, words) = delete_args-sequence marker [] out objects tt e in
      ap (run_statements read) same
      ∙ run_statements-sequence read read_plain read_separated
          (delete_statements (owned_rules marker objects)) words
