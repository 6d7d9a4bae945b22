-- ===== src/Endpoint/Tests.antt =====
-- The hosts of the source's own tests.
use mathlib.Core.Bool.{true, false}
use frpc_multi.Base.Text.{codes}
use frpc_multi.Base.Assoc.{nat_eq, contains}
use frpc_multi.Endpoint.{cut_at, is_port, bracketed, before_port, probe_endpoint_host}
use frpc_multi.Endpoint.Laws.{probe_endpoint_host-endpoint_text, endpoint_text}
use mathlib.Core.Path.{◌≡◌, refl}
use mathlib.Core.Bool.{true, false}

bare_address : probe_endpoint_host (codes "2001:db8::1") ≡ codes "2001:db8::1"
unfolding probe_endpoint_host bracketed before_port cut_at is_port contains
bare_address = refl

in_brackets : probe_endpoint_host (codes "[2001:db8::1]:7001") ≡ codes "2001:db8::1"
unfolding probe_endpoint_host bracketed before_port cut_at is_port contains
in_brackets = refl

named : probe_endpoint_host (codes "frps.example.com:7000") ≡ codes "frps.example.com"
unfolding probe_endpoint_host bracketed before_port cut_at is_port contains
named = refl

without_port : probe_endpoint_host (codes "192.0.2.1") ≡ codes "192.0.2.1"
unfolding probe_endpoint_host bracketed before_port cut_at is_port contains
without_port = refl

no_left : contains b'[' (codes "2001:db8::1") ≡ false
unfolding contains
no_left = refl

no_right : contains b']' (codes "2001:db8::1") ≡ false
unfolding contains
no_right = refl

digits : is_port (codes "7001") ≡ true
unfolding is_port
digits = refl

probe_endpoint_host-endpoint_text_example :
    probe_endpoint_host (endpoint_text (codes "2001:db8::1") (codes "7001")) ≡ codes "2001:db8::1"
probe_endpoint_host-endpoint_text_example =
    probe_endpoint_host-endpoint_text (codes "2001:db8::1") (codes "7001") refl no_left no_right
      digits
