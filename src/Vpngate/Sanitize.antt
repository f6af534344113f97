-- ===== src/Vpngate/Sanitize.antt =====
-- `SanitizeOpenVPN` of internal/vpngate/sanitize.go, which rewrites a foreign OpenVPN configuration.
-- Go's tables of Unicode case and its parser of addresses are parameters.
pub mod Lines
pub mod Reading
pub mod Permitted
pub mod Steps
pub mod Safety
pub mod Remotes
pub mod Prefix
use Prim.Native.Nat.{ℕ, zero, suc, ◌+◌, ◌*◌, ◌-◌, ◌^◌}
use Prim.Native.String.{String}
use mathlib.Core.Bool.{Bool, true, false, not, ◌&&◌, ◌||◌}
use mathlib.Core.List.{List, [], ◌∷◌, ◌++◌, map}
use mathlib.Core.Option.{Option, none, some}
use j_ui.Base.{◌==◌, leb, ltb, if◌then◌else◌, nat_equality, elem}
use j_ui.Base.Map.{is_some}
use j_ui.Base.Text.{
  texts, Text, codes, text_equality, itoa, strip_prefix, strip_suffix, is_space, trim_space,
}
use j_ui.Base.Int.{digits_value}
use j_ui.Base.Scan.{pieces, scan_pieces, fields, join}

pub record Remote : Type 0 where
  pub protocol : Text
  pub ip : Text
  pub port : ℕ

abbrev pub udp : Text
udp = codes "udp"

abbrev pub tcp_client : Text
tcp_client = codes "tcp-client"

abbrev pub forbidden_directives : List Text
forbidden_directives = texts (
    "script-security" ∷ "up" ∷ "down" ∷ "route-up" ∷ "route-pre-down" ∷ "plugin" ∷ "management"
    ∷ "client-connect" ∷ "client-disconnect" ∷ "learn-address" ∷ "daemon" ∷ "log" ∷ "log-append"
    ∷ "writepid" ∷ "chroot" ∷ "cd" ∷ "config" ∷ "setenv" ∷ [])

abbrev pub allowed_directives : List Text
allowed_directives = texts (
    "client" ∷ "dev" ∷ "dev-type" ∷ "proto" ∷ "resolv-retry" ∷ "nobind" ∷ "persist-key"
    ∷ "persist-tun" ∷ "cipher" ∷ "data-ciphers" ∷ "data-ciphers-fallback" ∷ "auth" ∷ "auth-nocache"
    ∷ "remote-cert-tls" ∷ "tls-client" ∷ "tls-version-min" ∷ "key-direction" ∷ "verb" ∷ "mute"
    ∷ "ping" ∷ "ping-restart" ∷ "connect-retry" ∷ "connect-timeout" ∷ [])

abbrev pub allowed_blocks : List Text
allowed_blocks = texts ("ca" ∷ "cert" ∷ "key" ∷ "tls-auth" ∷ "tls-crypt" ∷ [])

-- The error returns, in the order of the source.
pub data Fault : Type 0 where
  bad_address block_refused directive_forbidden remote_incomplete remote_port proto_invalid : Fault
  transport_refused not_allowlisted not_tun line_too_long block_not_closed no_remote : Fault

pub data Result {ℓ} (A : Type ℓ) : Type ℓ where
  ok : A → Result A
  err : Fault → Result A

infixl 5 ◌>>=◌
abbrev pub ◌>>=◌ {ℓ κ} : {A : Type ℓ} {B : Type κ} → Result A → (A → Result B) → Result B
ok a >>= f = f a
err e >>= f = err e

-- `strconv.Atoi` and the test of a port: a sign may stand in front, and a number that is out of range
-- for `int` is out of range for a port.
unfoldable pub in_port_range : Option ℕ → Option ℕ
in_port_range none = none
in_port_range (some n) = if leb 1 n && leb n 65535 then some n else none

unfoldable pub port_of : Text → Option ℕ
unfolding digits_value in_port_range
port_of [] = none
port_of (c ∷ s) =
    if c == b'+' || c == b'-'
    then if c == b'-' || s == [] then none else in_port_range (digits_value 0 s)
    else in_port_range (digits_value 0 (c ∷ s))

-- The variables of the loop; no block is open where `block` is empty.
pub record State : Type 0 where
  pub output : List Text
  pub protocol : Text
  pub remotes : List Remote
  pub block : Text

abbrev pub begins : ℕ → Text → Bool
begins c [] = false
begins c (d ∷ s) = d == c

-- A line `<name>`.
unfoldable pub block_name : Text → Option Text
block_name line = elim (strip_prefix (b'<' ∷ []) line) [
  | none ↦ none
  | some rest ↦ strip_suffix (b'>' ∷ []) rest
]

-- The argument that `dev` must have.
abbrev pub is_tun : List Text → Bool
is_tun [] = false
is_tun (w ∷ []) = w == codes "tun"
is_tun (w ∷ v ∷ ws) = false

abbrev pub closing_tag : Text → Text
closing_tag block = b'<' ∷ b'/' ∷ (block ++ b'>' ∷ [])

-- The rules for one remote of the list against the one selected so far.
unfoldable pub better_remote : Remote → Remote → Bool
better_remote r selected =
    r.protocol == udp
    && (not (selected.protocol == udp) || (ltb r.port 2000 && leb 2000 selected.port))

unfoldable pub choose_among : Remote → List Remote → Remote
unfolding better_remote
choose_among selected [] = selected
choose_among selected (r ∷ remotes) =
    choose_among (if better_remote r selected then r else selected) remotes

abbrev pub default_text : Text → Text → Text
default_text [] other = other
default_text (c ∷ s) other = c ∷ s

-- The loop that fills in missing protocols.
unfoldable pub fill_protocols : Text → List Remote → List Remote
fill_protocols protocol [] = []
fill_protocols protocol (r ∷ remotes) =
    record r { protocol = default_text (default_text r.protocol protocol) udp }
    ∷ fill_protocols protocol remotes

-- The lines that close every output.
unfoldable pub final_lines : Remote → List Text
final_lines r =
    (codes "proto " ++ r.protocol)
    ∷ (codes "remote " ++ r.ip ++ b' ' ∷ itoa r.port)
    ∷ codes "route-nopull"
    ∷ codes "redirect-gateway def1"
    ∷ codes "pull-filter ignore \"dhcp-option\""
    ∷ codes "pull-filter ignore \"route\""
    ∷ codes "auth-nocache"
    ∷ codes "verb 3"
    ∷ []

-- `is_ipv4` is the test of the address, `lower` is `unicode.ToLower`, `same_fold` the equality of two
-- code points under `unicode.SimpleFold`.
module _ (is_ipv4 : Text → Bool) (lower : ℕ → ℕ) (same_fold : ℕ → ℕ → Bool) where
  abbrev pub to_lower : Text → Text
  to_lower = map lower

  unfoldable pub equal_fold : Text → Text → Bool
  equal_fold [] [] = true
  equal_fold [] (d ∷ t) = false
  equal_fold (c ∷ s) [] = false
  equal_fold (c ∷ s) (d ∷ t) = same_fold c d && equal_fold s t

  unfoldable pub normalize_proto : Text → Text
  normalize_proto value =
      let v = to_lower value in
      if v == codes "udp" || v == codes "udp4"
      then udp
      else if v == codes "tcp" || v == codes "tcp4" || v == codes "tcp-client"
      then tcp_client
      else []

  -- A line inside a block.
  unfoldable pub block_line : State → Text → State
  unfolding equal_fold
  block_line s line = record s {
    output = s.output ++ line ∷ [];
    block = if equal_fold line (closing_tag s.block) then [] else s.block;
  }

  -- A line `<name>`, with the name in lower case; `unicode.ToLower` leaves the brackets alone.
  unfoldable pub open_block : State → Text → Result State
  open_block s name =
      if begins b'/' name || not (elem name allowed_blocks)
      then err block_refused
      else ok (record s { output = s.output ++ (b'<' ∷ (name ++ b'>' ∷ [])) ∷ []; block = name })

  -- The protocol of a remote: its third argument, or the one set so far.
  unfoldable pub remote_protocol : Text → List Text → Text
  unfolding normalize_proto
  remote_protocol inherited [] = inherited
  remote_protocol inherited (p ∷ rest) = normalize_proto p

  -- `remote`, with its arguments.
  unfoldable pub add_remote : Text → State → List Text → Result State
  unfolding remote_protocol port_of
  add_remote ip s [] = err remote_incomplete
  add_remote ip s (host ∷ []) = err remote_incomplete
  add_remote ip s (host ∷ port ∷ more) = elim (port_of port) [
    | none ↦ err remote_port
    | some n ↦
        let r : Remote = record { protocol = remote_protocol s.protocol more; ip = ip; port = n } in
        ok (record s { remotes = s.remotes ++ r ∷ [] })
  ]

  -- `proto`, with its arguments.
  unfoldable pub set_proto : State → List Text → Result State
  unfolding normalize_proto
  set_proto s [] = err proto_invalid
  set_proto s (p ∷ []) =
      if normalize_proto p == []
      then err transport_refused
      else ok (record s { protocol = normalize_proto p })
  set_proto s (p ∷ q ∷ more) = err proto_invalid

  -- A line outside a block, in its words.
  unfoldable pub directive : Text → State → List Text → Result State
  directive ip s [] = ok s
  directive ip s (word ∷ args) =
      let name = to_lower word in
      if elem name forbidden_directives
      then err directive_forbidden
      else if name == codes "remote"
      then add_remote ip s args
      else if name == codes "proto"
      then set_proto s args
      else if not (elem name allowed_directives)
      then err not_allowlisted
      else if name == codes "dev" && not (is_tun args)
      then err not_tun
      else ok (record s { output = s.output ++ join (b' ' ∷ []) (word ∷ args) ∷ [] })

  -- The rest of the loop's body for a trimmed line that is no comment.
  unfoldable pub config_line : Text → State → Text → Result State
  config_line ip s line =
      if not (s.block == []) then ok (block_line s line) else elim (block_name line) [
        | some name ↦ open_block s (to_lower name)
        | none ↦ directive ip s (fields line)
      ]

  -- The body of the loop.
  unfoldable pub scan_line : Text → State → Text → Result State
  scan_line ip s raw =
      let line = trim_space raw in
      if line == [] || begins b'#' line || begins b';' line then ok s else config_line ip s line

  unfoldable pub scan_lines : Text → State → List Text → Result State
  scan_lines ip s [] = ok s
  scan_lines ip s (l ∷ lines) = scan_line ip s l >>= λ s'. scan_lines ip s' lines

  -- The choice among the remotes, and the text.
  unfoldable pub choose_and_write : State → List Remote → Result (Text × Remote)
  unfolding choose_among
  choose_and_write s [] = err no_remote
  choose_and_write s (r ∷ remotes) =
      let selected = choose_among r (r ∷ remotes) in
      ok (join (b'\n' ∷ []) (s.output ++ final_lines selected) ++ b'\n' ∷ [], selected)

  -- What follows the loop.
  unfoldable pub finish : State → Bool → Result (Text × Remote)
  unfolding fill_protocols
  finish s too_long =
      if too_long
      then err line_too_long
      else if not (s.block == [])
      then err block_not_closed
      else choose_and_write s (fill_protocols s.protocol s.remotes)

  unfoldable pub sanitize_open_vpn : Text → Text → Result (Text × Remote)
  sanitize_open_vpn raw ip = if not (is_ipv4 ip) then err bad_address else do
    s ←
        scan_lines ip (record { output = []; protocol = []; remotes = []; block = [] })
          (scan_pieces (pieces raw)).0
    finish s (scan_pieces (pieces raw)).1
