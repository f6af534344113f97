-- ===== src/Engine/Sockets/Owners.antt =====
-- Whom a line of ss names as the owner of a socket, and how many answers `ListenerStatuses` gives.
use Prim.Native.Nat.{ℕ, zero, suc, ◌+◌, ◌-◌, ◌*◌, ◌^◌, ◌≤◌}
use mathlib.Core.Path.{◌≡◌, refl, ◌∙◌, sym, ap}
use mathlib.Core.Logic.{inl, inr}
use mathlib.Core.Bool.{Bool, true, false, ◌&&◌, ◌||◌}
use mathlib.Core.List.{List, [], ◌∷◌}
use mathlib.Core.Option.{Option, none, some}
use native.Mathlib.Omega.{arith}
use j_ui.Base.{
  ◌==◌, ltb, nat_equality, if◌then◌else◌, nat_same_iff, length, Bool-cases, Option-cases,
}
use j_ui.Base.Run.{Answers, answers_rules}
use j_ui.Base.Int.{digits_value, parse_uint, signed, atoi}
use j_ui.Base.Affixes.{strip_prefix-some}
use j_ui.Base.Text.{Text, codes, strip_prefix, after_first}
use j_ui.Engine.Sockets.{
  is_digit, leading_digits, is_int, drop_digits, begins_with, owned_loop, socket_owned_by_pid,
  match_listeners, listener_statuses,
}
use j_ui.Firewall.{Runner, Shell}
use j_ui.Node.Panel.{Listener}

-- The number that digits write.
abbrev decimal : ℕ → Text → ℕ
decimal n [] = n
decimal n (c ∷ s) = decimal (10 * n + (c - b'0')) s

-- Some digits write a number that is an `int`.
abbrev pub writes : ℕ → Text → Bool
writes expected [] = false
writes expected (c ∷ s) = decimal 0 (c ∷ s) == expected && ltb expected (2 ^ 63)

digits_value-decimal :
    (n : ℕ) (s : Text) → digits_value n (leading_digits s) ≡ some (decimal n (leading_digits s))
unfolding digits_value
digits_value-decimal n [] = refl
digits_value-decimal n (c ∷ s) = ground (arith, digits_value-decimal (10 * n + (c - b'0')) s)

is_int-signed :
    (expected n : ℕ)
    → is_int expected (signed false (if ltb n (2 ^ 64) then some n else none))
      ≡ (n == expected && ltb expected (2 ^ 63))
unfolding signed
is_int-signed expected n = ground (arith, nat_same_iff n expected)

leading-digit :
    (c : ℕ) (s : Text) → is_digit c ≡ true → leading_digits (c ∷ s) ≡ c ∷ leading_digits s
leading-digit c s h = rw h refl

begins_with-writes :
    (expected : ℕ) (s : Text) → begins_with expected s ≡ writes expected (leading_digits s)
unfolding begins_with atoi parse_uint
begins_with-writes expected [] = refl
begins_with-writes expected (c ∷ s) = elim (Bool-cases (is_digit c)) [
  | inl digit ↦
      let unsigned : (c == b'+' || c == b'-') ≡ false = ground (arith, digit) in
      let value : digits_value 0 (c ∷ leading_digits s) ≡ some (decimal 0 (c ∷ leading_digits s)) =
        ap (λ l. digits_value 0 l) (sym (leading-digit c s digit))
        ∙ digits_value-decimal 0 (c ∷ s)
        ∙ ap (λ l. some (decimal 0 l)) (leading-digit c s digit) in
      rw (digit, atoi, unsigned, parse_uint, value)
        (is_int-signed expected (decimal 0 (c ∷ leading_digits s)))
  | inr other ↦ rw other refl
]

-- "pid=" and the digits of the number stand at the beginning, and no digit more.
abbrev names_here : ℕ → Option Text → Bool
names_here expected none = false
names_here expected (some rest) = writes expected (leading_digits rest)

-- The line names a process if "pid=" and the digits of its number stand anywhere in it.
abbrev pub names : ℕ → Text → Bool
names expected [] = false
names expected (c ∷ s) =
    names_here expected (strip_prefix (codes "pid=") (c ∷ s)) || names expected s

names-drop_digits : (expected : ℕ) (s : Text) → names expected (drop_digits s) ≡ names expected s
unfolding strip_prefix
names-drop_digits expected [] = refl
names-drop_digits expected (c ∷ s) =
    ground (arith, names-drop_digits expected s, nat_same_iff b'p' c)

drop_digits-le : (s : Text) → length (drop_digits s) ≤ length s
drop_digits-le [] = omega arith
drop_digits-le (c ∷ s) = ground (arith, drop_digits-le s)

-- Behind "pid=" the search goes on where the digits begin.
names-found :
    (expected : ℕ) (line rest : Text)
    → strip_prefix (codes "pid=") line ≡ some rest
    → (names expected line ≡ (writes expected (leading_digits rest) || names expected rest))
      × (4 + length rest ≡ length line)
unfolding strip_prefix
names-found expected line rest h =
    let same = strip_prefix-some (codes "pid=") line rest h in rw same (refl, omega arith)

names-none :
    (expected : ℕ) (line : Text)
    → after_first (codes "pid=") line ≡ none
    → names expected line ≡ false
unfolding after_first
names-none expected [] h = refl
names-none expected (c ∷ s) h = elim (Option-cases (strip_prefix (codes "pid=") (c ∷ s))) [
  | inl other ↦ rw other (names-none expected s (rw (other, after_first) at h))
  | inr (rest, found) ↦ absurd (ground (arith, rw (found, after_first) at h))
]

names-some :
    (expected : ℕ) (line rest : Text)
    → after_first (codes "pid=") line ≡ some rest
    → (names expected line ≡ (writes expected (leading_digits rest) || names expected rest))
      × (4 + length rest ≤ length line)
unfolding after_first strip_prefix
names-some expected [] rest h = absurd (cc h)
names-some expected (c ∷ s) rest h = elim (Option-cases (strip_prefix (codes "pid=") (c ∷ s))) [
  | inl other ↦
      let (same, shorter) = names-some expected s rest (rw (other, after_first) at h) in
      (rw other same, omega (arith, shorter))
  | inr (rest', found) ↦
      let this : rest' ≡ rest = ground (arith, rw (found, after_first) at h) in
      let (same, shorter) = names-found expected (c ∷ s) rest (found ∙ ap some this) in
      (same, omega (arith, shorter))
]

owned_loop-names :
    (fuel expected : ℕ) (line : Text)
    → length line ≤ fuel
    → owned_loop fuel expected line ≡ names expected line
unfolding owned_loop
owned_loop-names zero expected [] h = refl
owned_loop-names zero expected (c ∷ s) h = absurd (omega (arith, h))
owned_loop-names (suc fuel) expected line h =
    elim (Option-cases (after_first (codes "pid=") line)) [
      | inl missing ↦ rw (missing, owned_loop) (sym (names-none expected line missing))
      | inr (rest, found) ↦
          let (same, shorter) = names-some expected line rest found in
          let later =
            owned_loop-names fuel expected (drop_digits rest)
              (omega (arith, h, shorter, drop_digits-le rest))
            ∙ names-drop_digits expected rest in
          rw (found, owned_loop) (ground (arith, same, later, begins_with-writes expected rest))
    ]

-- The loop over the occurrences of "pid=", for which the length of the line is enough fuel, finds a
-- process exactly when somewhere in the line stand "pid=" and digits, as many as there are, that write
-- its number, and the number is a 64-bit `int`.
pub socket_owned_by_pid-names :
    (line : Text) (expected : ℕ) → socket_owned_by_pid line expected ≡ names expected line
unfolding socket_owned_by_pid
socket_owned_by_pid-names line expected = owned_loop-names (length line) expected line (omega arith)

module _ {Address : Type 0} (parse : Text → Option Address) (unspecified four : Address → Bool)
    (equal : Address → Address → Bool) where
  length-match_listeners :
      (pid : ℕ) (lines : List Text) (listeners : List Listener)
      → length (match_listeners parse unspecified four equal pid lines listeners) ≡ length listeners
  unfolding match_listeners
  length-match_listeners pid lines [] = refl
  length-match_listeners pid lines (l ∷ listeners) =
      ap suc (length-match_listeners pid lines listeners)

  module _ {Host : Type 0} (runner : Runner Host) where
    statuses-length :
        (unit : Text) (listeners : List Listener)
        → Answers
            (λ statuses. length statuses ≡ length listeners)
            (listener_statuses parse unspecified four equal runner unit listeners)
    unfolding listener_statuses
    statuses-length unit [] = search answers_rules
    statuses-length unit (l ∷ listeners) = search (answers_rules, length-match_listeners) depth 9

    -- `ListenerStatuses` answers once for each listener.
    pub length-listener_statuses :
        (unit : Text) (listeners : List Listener) (shell : Shell Host) (statuses : List Bool)
        → (listener_statuses parse unspecified four equal runner unit listeners shell).0
          ≡ some statuses
        → length statuses ≡ length listeners
    length-listener_statuses unit listeners shell statuses e =
        (statuses-length unit listeners).at shell statuses e
