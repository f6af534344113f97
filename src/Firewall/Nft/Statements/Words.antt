-- ===== src/Firewall/Nft/Statements/Words.antt =====
-- Words that are plain text, the arguments of several statements, and the text of a command.
use Prim.Native.Nat.{ℕ}
use mathlib.Core.Path.{◌≡◌, refl, ◌∙◌, sym, ap}
use mathlib.Core.Bool.{Bool, true, false, not, ◌&&◌, ◌||◌}
use mathlib.Core.List.{List, [], ◌∷◌, ◌++◌, append_assoc, append-nil, map}
use native.Mathlib.Omega.{arith}
use j_ui.Base.{◌==◌, nat_equality, All}
use j_ui.Base.Scan.{fields, join, starts_word, attach}
use j_ui.Base.Text.{Text, codes, is_space}
use j_ui.Firewall.Nft.{then_command}

-- A letter that is no separator and begins no quote, comment, block, escape or variable.
abbrev pub is_plain : ℕ → Bool
is_plain c = not (
    c == b';'
    || c == b'\n'
    || c == b'"'
    || c == b'#'
    || c == b'{'
    || c == b'}'
    || c == b'\\'
    || c == b'$')

abbrev pub all_plain : Text → Bool
all_plain [] = true
all_plain (c ∷ s) = is_plain c && all_plain s

-- A word has letters, all of them plain and none of them a blank.
abbrev pub word_letters : Text → Bool
word_letters [] = true
word_letters (c ∷ s) = (not (is_space c) && is_plain c) && word_letters s

abbrev pub IsWord : Text → Type 0
IsWord [] = ⊥
IsWord (c ∷ s) = word_letters (c ∷ s) ≡ true

abbrev pub IsStatement : List Text → Type 0
IsStatement [] = ⊥
IsStatement (w ∷ ws) = All IsWord (w ∷ ws)

-- The text of a command: its arguments joined with blanks.
abbrev pub command_text : List Text → Text
command_text words = join (b' ' ∷ []) words

-- The arguments that follow those of a first statement.
abbrev pub more_statements : List (List Text) → List Text
more_statements [] = []
more_statements (s ∷ statements) = codes ";" ∷ (s ++ more_statements statements)

abbrev pub sequence : List (List Text) → List Text
sequence [] = []
sequence (s ∷ statements) = s ++ more_statements statements

more_statements-snoc :
    (statements : List (List Text)) (s : List Text)
    → more_statements (statements ++ (s ∷ [])) ≡ more_statements statements ++ (codes ";" ∷ s)
more_statements-snoc [] s = ap (λ l. codes ";" ∷ l) (append-nil s)
more_statements-snoc (t ∷ statements) s =
    ap (λ l. codes ";" ∷ l)
      (ap (λ l. t ++ l) (more_statements-snoc statements s)
        ∙ sym (append_assoc t (more_statements statements) (codes ";" ∷ s)))

pub then_command-sequence :
    (statements : List (List Text)) (s : List Text)
    → All IsStatement statements
    → then_command (sequence statements) s ≡ sequence (statements ++ (s ∷ []))
then_command-sequence [] s h = sym (append-nil s)
then_command-sequence ([] ∷ statements) s (h, k) = absurd h
then_command-sequence ((w ∷ ws) ∷ statements) s h =
    append_assoc (w ∷ ws) (more_statements statements) (codes ";" ∷ s)
    ∙ ap (λ l. (w ∷ ws) ++ l) (sym (more_statements-snoc statements s))

-- What stands behind the text of some arguments.
abbrev behind : List Text → Text
behind [] = []
behind (w ∷ ws) = b' ' ∷ command_text (w ∷ ws)

command_text-append :
    (w : Text) (ws more : List Text)
    → command_text ((w ∷ ws) ++ more) ≡ command_text (w ∷ ws) ++ behind more
unfolding join
command_text-append w [] [] = sym (append-nil w)
command_text-append w [] (v ∷ more) = refl
command_text-append w (v ∷ ws) more =
    ap (λ l. w ++ (b' ' ∷ l)) (command_text-append v ws more)
    ∙ sym (append_assoc w (b' ' ∷ command_text (v ∷ ws)) (behind more))

fields-last :
    (c : ℕ) (s : Text)
    → is_space c ≡ false
    → starts_word s ≡ false
    → fields (c ∷ s) ≡ (c ∷ []) ∷ fields s
unfolding fields
fields-last c s h k = rw (h, k, fields) refl

fields-next :
    (c : ℕ) (s : Text)
    → is_space c ≡ false
    → starts_word s ≡ true
    → fields (c ∷ s) ≡ attach c (fields s)
unfolding fields
fields-next c s h k = rw (h, k, fields) refl

-- The words of a text are those of its parts.
fields-word : (w t : Text) → IsWord w → starts_word t ≡ false → fields (w ++ t) ≡ w ∷ fields t
fields-word [] t h k = absurd h
fields-word (c ∷ []) t h k = fields-last c t (ground (arith, h)) k
fields-word (c ∷ d ∷ s) t h k =
    fields-next c (d ∷ (s ++ t)) (ground (arith, h)) (ground (arith, h))
    ∙ ap (attach c) (fields-word (d ∷ s) t (ground (arith, h)) k)

fields-nil : fields [] ≡ []
unfolding fields
fields-nil = refl

fields-blank : (t : Text) → fields (b' ' ∷ t) ≡ fields t
unfolding fields is_space
fields-blank t = refl

starts-blank : (t : Text) → starts_word (b' ' ∷ t) ≡ false
unfolding is_space
starts-blank t = refl

pub fields-command_text :
    (w : Text) (ws : List Text) (t : Text)
    → All IsWord (w ∷ ws)
    → starts_word t ≡ false
    → fields (command_text (w ∷ ws) ++ t) ≡ (w ∷ ws) ++ fields t
unfolding join
fields-command_text w [] t (h, _) k = fields-word w t h k
fields-command_text w (v ∷ ws) t (h, hs) k =
    ap fields (append_assoc w (b' ' ∷ command_text (v ∷ ws)) t)
    ∙ fields-word w (b' ' ∷ (command_text (v ∷ ws) ++ t)) h
        (starts-blank (command_text (v ∷ ws) ++ t))
    ∙ ap (λ l. w ∷ l) (fields-blank (command_text (v ∷ ws) ++ t) ∙ fields-command_text v ws t hs k)

all_plain-append :
    (a b : Text) → all_plain a ≡ true → all_plain b ≡ true → all_plain (a ++ b) ≡ true
all_plain-append [] b h k = k
all_plain-append (c ∷ a) b h k = ground (arith, all_plain-append a b, h, k)

word_letters-plain : (w : Text) → word_letters w ≡ true → all_plain w ≡ true
word_letters-plain [] h = refl
word_letters-plain (c ∷ s) h = ground (arith, word_letters-plain s, h)

word-plain : (w : Text) → IsWord w → all_plain w ≡ true
word-plain [] h = absurd h
word-plain (c ∷ s) h = word_letters-plain (c ∷ s) h

command_text-plain :
    (w : Text) (ws : List Text) → All IsWord (w ∷ ws) → all_plain (command_text (w ∷ ws)) ≡ true
unfolding join
command_text-plain w [] (h, _) = word-plain w h
command_text-plain w (v ∷ ws) (h, hs) =
    all_plain-append w (b' ' ∷ command_text (v ∷ ws)) (word-plain w h) (command_text-plain v ws hs)

first-plain :
    (pre w : Text) (ws : List Text) (post : Text)
    → all_plain pre ≡ true
    → All IsWord (w ∷ ws)
    → all_plain post ≡ true
    → all_plain (pre ++ (command_text (w ∷ ws) ++ post)) ≡ true
first-plain pre w ws post h k l =
    all_plain-append pre (command_text (w ∷ ws) ++ post) h
      (all_plain-append (command_text (w ∷ ws)) post (command_text-plain w ws k) l)

-- The words of the statements that are run, where `read` gives the statements of a command's text: none
-- for no arguments.
abbrev pub run_statements : (Text → List Text) → List Text → List (List Text)
run_statements read [] = []
run_statements read (w ∷ words) = map fields (read (command_text (w ∷ words)))

-- `read` gives the statements of a command's text. Relied on is only what it makes of plain text: that
-- is one statement, and ";" ends it.
module _ (read : Text → List Text) (read_plain : (s : Text) → all_plain s ≡ true → read s ≡ s ∷ [])
    (read_separated : (s t : Text) → all_plain s ≡ true → read (s ++ (b';' ∷ t)) ≡ s ∷ read t) where
  -- Behind a blank or nothing.
  read-statements :
      (pre : Text) (s : List Text) (statements : List (List Text))
      → all_plain pre ≡ true
      → ((t : Text) → fields (pre ++ t) ≡ fields t)
      → IsStatement s
      → All IsStatement statements
      → map fields (read (pre ++ command_text (s ++ more_statements statements))) ≡ s ∷ statements
  unfolding join
  read-statements pre [] statements h k l m = absurd l
  read-statements pre (w ∷ ws) [] h k l m =
      let text = command_text (w ∷ ws) in
      ap (λ t. map fields (read (pre ++ t))) (command_text-append w ws [])
      ∙ ap (map fields) (read_plain (pre ++ (text ++ [])) (first-plain pre w ws [] h l refl))
      ∙ ap (λ t. t ∷ [])
          (k (text ++ [])
            ∙ fields-command_text w ws [] l refl
            ∙ ap (λ t. (w ∷ ws) ++ t) fields-nil
            ∙ append-nil (w ∷ ws))
  read-statements pre (w ∷ ws) ([] ∷ statements) h k l (m, ms) = absurd m
  read-statements pre (w ∷ ws) ((v ∷ vs) ∷ statements) h k l (m, ms) =
      let text = command_text (w ∷ ws) in
      let rest = command_text ((v ∷ vs) ++ more_statements statements) in
      let cut : pre ++ (text ++ (b' ' ∷ b';' ∷ b' ' ∷ rest))
          ≡ (pre ++ (text ++ (b' ' ∷ []))) ++ (b';' ∷ b' ' ∷ rest) =
        ap (λ t. pre ++ t) (sym (append_assoc text (b' ' ∷ []) (b';' ∷ b' ' ∷ rest)))
        ∙ sym (append_assoc pre (text ++ (b' ' ∷ [])) (b';' ∷ b' ' ∷ rest)) in
      let words : fields (pre ++ (text ++ (b' ' ∷ []))) ≡ w ∷ ws =
        k (text ++ (b' ' ∷ []))
        ∙ fields-command_text w ws (b' ' ∷ []) l (starts-blank [])
        ∙ ap (λ t. (w ∷ ws) ++ t) (fields-blank [] ∙ fields-nil)
        ∙ append-nil (w ∷ ws) in
      ap (λ t. map fields (read (pre ++ t)))
        (command_text-append w ws (more_statements ((v ∷ vs) ∷ statements)))
      ∙ ap (λ t. map fields (read t)) cut
      ∙ ap (map fields) (
          read_separated (pre ++ (text ++ (b' ' ∷ []))) (b' ' ∷ rest)
            (first-plain pre w ws (b' ' ∷ []) h l refl))
      ∙ ap (λ t. t ∷ map fields (read (b' ' ∷ rest))) words
      ∙ ap (λ t. (w ∷ ws) ∷ t)
          (read-statements (b' ' ∷ []) (v ∷ vs) statements refl fields-blank m ms)

  pub run_statements-sequence :
      (statements : List (List Text))
      → All IsStatement statements
      → run_statements read (sequence statements) ≡ statements
  run_statements-sequence [] h = refl
  run_statements-sequence ([] ∷ statements) (h, k) = absurd h
  run_statements-sequence ((w ∷ ws) ∷ statements) (h, k) =
      read-statements [] (w ∷ ws) statements refl (λ t. refl) h k
