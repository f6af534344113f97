-- ===== src/Base/Transport.antt =====
-- The transport protocols for which ports are opened.
use Prim.Native.String.{String}
use mathlib.Core.Path.{◌≡◌}
use mathlib.Core.Logic.{◌⊎◌}

abbrev pub IsTransport : String → Type 0
IsTransport p = (p ≡ "tcp") ⊎ (p ≡ "udp")
