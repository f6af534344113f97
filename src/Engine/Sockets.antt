-- ===== src/Engine/Sockets.antt =====
-- `ListenerStatuses` of internal/engine/engine.go: the sockets that ss lists against the listeners that
-- the configuration wants. Addresses, which net.ParseIP reads, are a parameter.
pub mod Owners
use Prim.Native.Nat.{ℕ, zero, suc, ◌-◌, ◌^◌}
use mathlib.Core.Bool.{Bool, true, false, not, ◌&&◌, ◌||◌}
use mathlib.Core.List.{List, [], ◌∷◌, ◌++◌, reverse}
use mathlib.Core.Option.{Option, none, some}
use j_ui.Base.{◌==◌, leb, ltb, if◌then◌else◌, nat_equality, length}
use j_ui.Base.Int.{ℤ, pos, negsuc, atoi}
use j_ui.Base.Map.{is_some}
use j_ui.Base.Run.{pure, fail, attempt, ◌>>=◌}
use j_ui.Base.Scan.{fields, split}
use j_ui.Base.Text.{Text, codes, texts, text_equality, trim_space, after_first}
use j_ui.Firewall.{Runner, Command, command}
use j_ui.Monitor.{uint_value, field_at}
use j_ui.Monitor.Summary.{all_healthy}
use j_ui.Node.Panel.{Listener}

abbrev pub is_digit : ℕ → Bool
is_digit c = leb b'0' c && leb c b'9'

-- The digits that a text begins with, and the text behind them.
abbrev pub leading_digits : Text → Text
leading_digits [] = []
leading_digits (c ∷ s) = if is_digit c then c ∷ leading_digits s else []

abbrev pub drop_digits : Text → Text
drop_digits [] = []
drop_digits (c ∷ s) = if is_digit c then drop_digits s else c ∷ s

abbrev pub is_int : ℕ → Option ℤ → Bool
is_int n none = false
is_int n (some (pos m)) = m == n
is_int n (some (negsuc m)) = false

-- A text begins with the digits of a number; without digits `Atoi` fails.
unfoldable pub begins_with : ℕ → Text → Bool
unfolding atoi
begins_with n s = is_int n (atoi (leading_digits s))

-- The loop; each round takes at least "pid=" from the line, so that its length is enough fuel.
unfoldable pub owned_loop : ℕ → ℕ → Text → Bool
unfolding begins_with after_first
owned_loop zero expected line = false
owned_loop (suc fuel) expected line = elim (after_first (codes "pid=") line) [
  | none ↦ false
  | some rest ↦
      let later = owned_loop fuel expected (drop_digits rest) in
      if begins_with expected rest then true else later
]

unfoldable pub socket_owned_by_pid : Text → ℕ → Bool
unfolding owned_loop
socket_owned_by_pid line expected = owned_loop (length line) expected line

-- The text before the last occurrence of a letter, and the text behind it: `strings.LastIndex`.
unfoldable pub last_split : ℕ → Text → Option (Text × Text)
last_split letter [] = none
last_split letter (c ∷ s) = elim (last_split letter s) [
  | some parts ↦ some (c ∷ parts.0, parts.1)
  | none ↦ if c == letter then some ([], s) else none
]

-- The value of `Atoi`, beside an error too: 0 for a text that is no number, and the nearest `int` for one
-- that is too large. Whether that is a number that is not negative.
abbrev pub at_most : ℕ → ℕ → ℕ
at_most limit n = if leb n limit then n else limit

unfoldable pub int_value_is : ℕ → Text → Bool
unfolding uint_value
int_value_is n [] = n == 0
int_value_is n (c ∷ s) =
    if c == b'-'
    then n == 0 && uint_value s == 0
    else at_most (2 ^ 63 - 1) (uint_value (if c == b'+' then s else c ∷ s)) == n

-- `socketPort(address) == port`.
abbrev pub port_is : ℕ → Option (Text × Text) → Bool
port_is port none = port == 0
port_is port (some (host, [])) = port == 0
port_is port (some (host, c ∷ s)) = int_value_is port (c ∷ s)

unfoldable pub socket_port_is : Text → ℕ → Bool
unfolding last_split int_value_is
socket_port_is address port = port_is port (last_split b':' address)

abbrev pub is_bracket : ℕ → Bool
is_bracket c = c == b'[' || c == b']'

abbrev pub trim_left_brackets : Text → Text
trim_left_brackets [] = []
trim_left_brackets (c ∷ s) = if is_bracket c then trim_left_brackets s else c ∷ s

-- `strings.Trim` of brackets behind `strings.TrimSpace`, and without a zone.
abbrev pub without_zone : Text → Option (Text × Text) → Text
without_zone host none = host
without_zone host (some parts) = parts.0

unfoldable pub bare_host : Text → Text
unfolding trim_space last_split
bare_host text =
    let host = reverse (trim_left_brackets (reverse (trim_left_brackets (trim_space text)))) in
    without_zone host (last_split b'%' host)

abbrev pub same_truth : Bool → Bool → Bool
same_truth true b = b
same_truth false b = not b

-- ss writes the IPv6 wildcard as "*".
abbrev pub actual_host : Text → Text
actual_host text = let host = bare_host text in if host == codes "*" then codes "::" else host

abbrev pub expected_host : Text → Text
expected_host text = let host = bare_host text in if host == [] then codes "0.0.0.0" else host

-- `ServiceUnit`, or the default.
unfoldable pub unit_or_default : Text → Text
unfolding trim_space
unit_or_default unit = if trim_space unit == [] then codes "j-ui-sing-box.service" else unit

-- `parse` is `net.ParseIP`, and the others what the code asks of an address: `IsUnspecified`,
-- `To4() != nil` and `Equal`.
module _ {Address : Type 0} (parse : Text → Option Address) (unspecified four : Address → Bool)
    (equal : Address → Address → Bool) where
  abbrev pub addresses_match : Option Address → Option Address → Bool → Bool
  addresses_match none expected same_text = same_text
  addresses_match (some actual) none same_text = same_text
  addresses_match (some actual) (some expected) same_text =
      if unspecified actual then same_truth (four actual) (four expected) else equal actual expected

  abbrev pub host_matches : Option (Text × Text) → Text → Bool
  host_matches none expected = false
  host_matches (some parts) expected =
      let actual = actual_host parts.0 in
      let wanted = expected_host expected in
      addresses_match (parse actual) (parse wanted) (actual == wanted)

  unfoldable pub socket_host_matches : Text → Text → Bool
  unfolding last_split bare_host
  socket_host_matches address expected = host_matches (last_split b':' address) expected

  -- A line of ss that shows the listener in the process.
  unfoldable pub shows : ℕ → Listener → Text → Bool
  unfolding fields socket_port_is socket_host_matches socket_owned_by_pid
  shows pid l line =
      let words = fields line in
      not (ltb (length words) 5)
      && (field_at words 0 == codes l.network
          && (socket_port_is (field_at words 4) l.port
              && (socket_host_matches (field_at words 4) l.host && socket_owned_by_pid line pid)))

  unfoldable pub any_shows : ℕ → Listener → List Text → Bool
  unfolding shows
  any_shows pid l [] = false
  any_shows pid l (line ∷ lines) = if shows pid l line then true else any_shows pid l lines

  -- The loop over the listeners.
  unfoldable pub match_listeners : ℕ → List Text → List Listener → List Bool
  unfolding any_shows
  match_listeners pid lines [] = []
  match_listeners pid lines (l ∷ listeners) =
      any_shows pid l lines ∷ match_listeners pid lines listeners

  module _ {Host : Type 0} (runner : Runner Host) where
    abbrev pub main_pid : Option ℤ → Command Host ℕ
    main_pid none = fail
    main_pid (some (pos zero)) = fail
    main_pid (some (pos (suc n))) = pure (suc n)
    main_pid (some (negsuc n)) = fail

    unfoldable pub listener_statuses : Text → List Listener → Command Host (List Bool)
    unfolding unit_or_default atoi trim_space split match_listeners
    listener_statuses unit [] = pure []
    listener_statuses unit (l ∷ listeners) = do
      answer ← command runner (
          texts ("systemctl" ∷ "show" ∷ "--property=MainPID" ∷ "--value" ∷ [])
          ++ (unit_or_default unit ∷ []))
      pid ← main_pid (atoi (trim_space answer))
      output ← command runner (texts ("ss" ∷ "-H" ∷ "-ltnup" ∷ []))
      pure (match_listeners pid (split b'\n' output) (l ∷ listeners))

    -- `Healthy`.
    unfoldable pub healthy : Text → Command Host Bool
    unfolding unit_or_default
    healthy unit =
        attempt (
          command runner
            (texts ("systemctl" ∷ "is-active" ∷ "--quiet" ∷ []) ++ (unit_or_default unit ∷ [])))
        >>= λ answer. pure (is_some answer)

    -- `ListenersHealthy`: the error is for the first listener that is not up.
    unfoldable pub listeners_healthy : Text → List Listener → Command Host (Unit {0})
    unfolding listener_statuses
    listeners_healthy unit listeners = do
      statuses ← listener_statuses unit listeners
      if all_healthy statuses then pure tt else fail
