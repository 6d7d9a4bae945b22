-- ===== src/Endpoint.antt =====
-- webui/frontend/src/lib/probeEndpoint.ts: the host of an endpoint.
pub mod Laws
pub mod Tests
use frpc_multi.Base.Text.{Text}
use frpc_multi.Base.Assoc.{nat_eq, contains}
use Prim.Native.Nat.{ℕ}
use mathlib.Core.Bool.{Bool, true, not, ◌&&◌}
use mathlib.Core.Option.{Option, none, some}
use mathlib.Core.List.{[], ◌∷◌}
use native.Mathlib.Omega.{arith}
use frpc_multi.Base.Tests.{leb, ◌==◌, if◌then◌else◌, or_else}
use frpc_multi.Base.Lists.{is_empty, all}

-- What is before and behind the first occurrence of a code.
unfoldable pub cut_at : ℕ → Text → Option (Text × Text)
cut_at k [] = none
cut_at k (c ∷ s) =
    let later = elim (cut_at k s) as (λ x. Option (Text × Text)) [
      | none ↦ none
      | some (front, rest) ↦ some (c ∷ front, rest)
    ] in
    if c == k then some ([], s) else later

-- `\d+` up to the end.
unfoldable pub is_port : Text → Bool
is_port s = not (is_empty s) && all (λ (c : ℕ). leb 48 c && leb c 57) s

-- `(?::\d+)?` up to the end.
abbrev pub is_port_part : Text → Bool
is_port_part [] = true
is_port_part (c ∷ s) = c == b':' && is_port s

abbrev pub host_if : (Text → Bool) → Option (Text × Text) → Option Text
host_if accepts none = none
host_if accepts (some (host, rest)) =
    if not (is_empty host) && accepts rest then some host else none

-- The host of an endpoint that starts with a bracket.
unfoldable pub bracketed : Text → Option Text
bracketed [] = none
bracketed (c ∷ s) = if c == b'[' then host_if is_port_part (cut_at b']' s) else none

-- The first colon is the last one, and has digits up to the end behind it.
abbrev pub is_only_port : Text → Bool
is_only_port rest = not (contains b':' rest) && is_port rest

unfoldable pub before_port : Text → Option Text
before_port s = host_if is_only_port (cut_at b':' s)

abbrev pub first_host : Option Text → Option Text → Text → Text
first_host (some host) before endpoint = host
first_host none before endpoint = or_else before endpoint

unfoldable pub probe_endpoint_host : Text → Text
probe_endpoint_host endpoint = first_host (bracketed endpoint) (before_port endpoint) endpoint
