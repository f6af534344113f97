-- ===== src/Model/Protocol.antt =====
-- The protocol constants of internal/model/model.go.
use Prim.Native.String.{String}

abbrev pub vless_reality : String
vless_reality = "vless_reality"

abbrev pub vless_h2_reality : String
vless_h2_reality = "vless_h2_reality"

abbrev pub vless_grpc_reality : String
vless_grpc_reality = "vless_grpc_reality"

abbrev pub vless_ws_tls : String
vless_ws_tls = "vless_ws_tls"

abbrev pub vless_argo : String
vless_argo = "vless_argo"

abbrev pub trojan_tls : String
trojan_tls = "trojan_tls"

abbrev pub hysteria2 : String
hysteria2 = "hysteria2"

abbrev pub tuic : String
tuic = "tuic"

abbrev pub anytls : String
anytls = "anytls"

abbrev pub anytls_reality : String
anytls_reality = "anytls_reality"

abbrev pub socks5 : String
socks5 = "socks5"
