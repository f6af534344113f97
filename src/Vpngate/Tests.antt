-- ===== src/Vpngate/Tests.antt =====
-- Runs of internal/vpngate on concrete inputs, and the theorems at those inputs.
use Prim.Native.Nat.{ℕ, ◌+◌}
use Prim.Native.String.{String}
use mathlib.Core.Path.{◌≡◌, refl}
use mathlib.Core.Bool.{Bool, true, false, ◌&&◌}
use mathlib.Core.List.{List, [], ◌∷◌, ◌++◌}
use j_ui.Base.{◌==◌, leb, if◌then◌else◌, nat_equality, elem}
use j_ui.Base.Text.{
  Text, codes, text_equality, text_same, text_same_iff, itoa, digits_of, strip_prefix, strip_suffix,
  is_space, trim_left, trim_space,
}
use j_ui.Base.Scan.{pieces, utf8_length, drop_cr, scan_pieces, fields, join}
use j_ui.Vpngate.Sanitize.Safety
use j_ui.Vpngate.Sanitize.Prefix
use j_ui.Vpngate.Sanitize.Remotes
use j_ui.Vpngate.Sanitize.Reading.{fresh, read_lines}
use j_ui.Base.Int.{digits_value}
use j_ui.Vpngate.Sanitize.{
  Remote, State, ok, err, directive_forbidden, udp, equal_fold, normalize_proto, remote_protocol,
  in_port_range, port_of, block_name, better_remote, choose_among, fill_protocols, final_lines,
  block_line, open_block, add_remote, set_proto, directive, config_line, scan_line, scan_lines,
  choose_and_write, finish, sanitize_open_vpn,
}

-- The address of the runs.
abbrev address : Text
address = codes "1.2.3.4"

abbrev is_address : Text → Bool
is_address t = t == address

-- The ASCII letters.
abbrev ascii_lower : ℕ → ℕ
ascii_lower c = if leb b'A' c && leb c b'Z' then c + 32 else c

abbrev ascii_same : ℕ → ℕ → Bool
ascii_same c d = ascii_lower c == ascii_lower d

abbrev joined : List String → Text
joined [] = []
joined (s ∷ l) = codes s ++ (b'\n' ∷ joined l)

abbrev raw : Text
raw = joined (
    "# a comment" ∷ "DEV tun" ∷ "proto tcp" ∷ "remote h 443" ∷ "remote h 1195 udp" ∷ "<CA>" ∷ "up"
    ∷ "</ca>" ∷ [])

abbrev clean : Text
clean = joined (
    "DEV tun" ∷ "<ca>" ∷ "up" ∷ "</ca>" ∷ "proto udp" ∷ "remote 1.2.3.4 1195" ∷ "route-nopull"
    ∷ "redirect-gateway def1" ∷ "pull-filter ignore \"dhcp-option\""
    ∷ "pull-filter ignore \"route\"" ∷ "auth-nocache" ∷ "verb 3" ∷ [])

abbrev chosen : Remote
chosen = record { protocol = udp; ip = address; port = 1195 }

cleaned : sanitize_open_vpn is_address ascii_lower ascii_same raw address ≡ ok (clean, chosen)
unfolding sanitize_open_vpn finish choose_and_write scan_lines scan_line config_line directive
    set_proto add_remote remote_protocol open_block block_line final_lines fill_protocols
    choose_among better_remote block_name port_of in_port_range digits_value normalize_proto
    equal_fold pieces utf8_length drop_cr scan_pieces fields join text_same itoa digits_of
    strip_prefix strip_suffix is_space trim_left trim_space
cleaned = refl

address_without : (t : Text) → is_address t ≡ true → elem b'\n' t ≡ false
address_without t h = let e = (text_same_iff t address).0 h in rw e refl

sanitize_open_vpn_example : Safety.Sanitized is_address ascii_lower ascii_same address clean chosen
sanitize_open_vpn_example =
    Safety.sanitize_open_vpn_lem is_address ascii_lower ascii_same raw address clean chosen refl
      address_without cleaned

refused :
    sanitize_open_vpn is_address ascii_lower ascii_same (joined ("dev tun" ∷ "Up x" ∷ [])) address
    ≡ err directive_forbidden
unfolding sanitize_open_vpn scan_lines scan_line config_line directive block_name pieces utf8_length
    drop_cr scan_pieces fields join text_same strip_prefix strip_suffix is_space trim_left
    trim_space
refused = refl

abbrev tcp_remote : Remote
tcp_remote = record { protocol = codes "tcp-client"; ip = address; port = 443 }

choose_among_example :
    Remotes.IsBest tcp_remote (chosen ∷ []) (choose_among tcp_remote (chosen ∷ []))
choose_among_example = Remotes.choose_among_lem tcp_remote (chosen ∷ [])

abbrev in_ca : State
in_ca = record { output = codes "<ca>" ∷ []; protocol = []; remotes = []; block = codes "ca" }

in_ca_read :
    read_lines Prefix.closes_by_prefix fresh in_ca.output
    ≡ record { block = codes "ca"; directives = [] }
unfolding read_lines block_name strip_prefix strip_suffix text_same
in_ca_read = refl

not_folded :
    (equal_fold is_address ascii_lower ascii_same Prefix.long_tag (codes "</ca>") ≡ false)
    × (equal_fold is_address ascii_lower ascii_same (codes "up /bin/sh") (codes "</ca>") ≡ false)
unfolding equal_fold
not_folded = (refl, refl)

abbrev smuggled : State
smuggled =
    Prefix.step is_address ascii_lower ascii_same
      (Prefix.step is_address ascii_lower ascii_same in_ca Prefix.long_tag) (codes "up /bin/sh")

block_line-directive_example :
    (smuggled.block ≡ codes "ca")
    × (read_lines Prefix.closes_by_prefix fresh smuggled.output
        ≡ record { block = []; directives = codes "up /bin/sh" ∷ [] })
block_line-directive_example =
    Prefix.block_line-directive is_address ascii_lower ascii_same in_ca [] (codes "up /bin/sh") refl
      in_ca_read refl not_folded.0 not_folded.1
