-- ===== src/Endpoint/Laws.antt =====
-- The host of an endpoint that is written from a host and a port.
use frpc_multi.Base.Text.{Text}
use frpc_multi.Base.Assoc.{nat_eq, contains}
use frpc_multi.Endpoint.{
  first_host, is_only_port, cut_at, is_port, is_port_part, host_if, bracketed, before_port,
  probe_endpoint_host,
}
use Prim.Native.Nat.{ℕ}
use mathlib.Core.Path.{◌≡◌, refl, ap, ap₂, ◌∙◌}
use mathlib.Core.Logic.{inl, inr}
use mathlib.Core.Bool.{true, false, ◌&&◌}
use mathlib.Core.Option.{Option, none, some}
use mathlib.Core.List.{[], ◌∷◌, ◌++◌}
use native.Mathlib.Omega.{arith}
use frpc_multi.Base.Tests.{leb, if◌then◌else◌, ==_refl, Bool-cases}
use frpc_multi.Base.Lists.{is_empty, all}

cut_at-append :
    (k : ℕ) (front rest : Text)
    → contains k front ≡ false
    → cut_at k (front ++ k ∷ rest) ≡ some (front, rest)
unfolding cut_at contains
cut_at-append k [] rest h = ground (arith, ==_refl k)
cut_at-append k (c ∷ front) rest h = ground (arith, cut_at-append k front rest (ground arith))

digits_without_colon :
    (s : Text) → all (λ (c : ℕ). leb 48 c && leb c 57) s ≡ true → contains b':' s ≡ false
unfolding contains
digits_without_colon [] h = refl
digits_without_colon (c ∷ s) h = ground (arith, digits_without_colon s (ground arith))

-- How an endpoint is written: a host with a colon in brackets.
unfoldable pub endpoint_text : Text → Text → Text
endpoint_text host port =
    if contains b':' host then b'[' ∷ host ++ b']' ∷ b':' ∷ port else host ++ b':' ∷ port

bracketed-append :
    (host rest : Text)
    → is_empty host ≡ false
    → contains b']' host ≡ false
    → is_port_part rest ≡ true
    → bracketed (b'[' ∷ host ++ b']' ∷ rest) ≡ some host
unfolding bracketed
bracketed-append host rest given closed port =
    ap (host_if is_port_part) (cut_at-append b']' host rest closed) ∙ ground arith

bracketed-none :
    (host rest : Text)
    → is_empty host ≡ false
    → contains b'[' host ≡ false
    → bracketed (host ++ rest) ≡ none
unfolding bracketed contains
bracketed-none [] rest given left = ground arith
bracketed-none (c ∷ host) rest given left = ground arith

before_port-append :
    (host port : Text)
    → is_empty host ≡ false
    → contains b':' host ≡ false
    → is_port port ≡ true
    → before_port (host ++ b':' ∷ port) ≡ some host
unfolding before_port is_port
before_port-append host port given bare digits =
    ap (host_if is_only_port) (cut_at-append b':' host port bare)
    ∙ ground (arith, digits_without_colon port)

bracketed_colon : (s : Text) → bracketed (b':' ∷ s) ≡ none
unfolding bracketed
bracketed_colon s = refl

first_host-before :
    (endpoint host : Text) {inside before : Option Text}
    → inside ≡ none
    → before ≡ some host
    → first_host inside before endpoint ≡ host
first_host-before endpoint host e f = ap₂ (λ i b. first_host i b endpoint) e f

first_host-none :
    (endpoint : Text) {inside before : Option Text}
    → inside ≡ none
    → before ≡ none
    → first_host inside before endpoint ≡ endpoint
first_host-none endpoint e f = ap₂ (λ i b. first_host i b endpoint) e f

-- The host of an endpoint is the one that it was written from, for each host that is not empty and has
-- no bracket: a name or an IPv4 address with a port behind a colon, and an IPv6 address in brackets.
pub probe_endpoint_host-endpoint_text :
    (host port : Text)
    → is_empty host ≡ false
    → contains b'[' host ≡ false
    → contains b']' host ≡ false
    → is_port port ≡ true
    → probe_endpoint_host (endpoint_text host port) ≡ host
unfolding probe_endpoint_host endpoint_text
probe_endpoint_host-endpoint_text host port given left closed digits =
    elim (Bool-cases (contains b':' host)) [
      | inl e ↦ rw e (
          ap
            (λ o.
              first_host o (before_port (b'[' ∷ host ++ b']' ∷ b':' ∷ port))
                (b'[' ∷ host ++ b']' ∷ b':' ∷ port))
            (bracketed-append host (b':' ∷ port) given closed (ground arith)))
      | inr e ↦ rw e (
          first_host-before (host ++ b':' ∷ port) host
            (bracketed-none host (b':' ∷ port) given left)
            (before_port-append host port given e digits))
    ]

contains_between : (k : ℕ) (middle rest : Text) → contains k (middle ++ k ∷ rest) ≡ true
unfolding contains
contains_between k [] rest = ground (arith, ==_refl k)
contains_between k (c ∷ middle) rest = ground (arith, contains_between k middle rest)

before_port-none :
    (front middle rest : Text)
    → contains b':' front ≡ false
    → before_port (front ++ b':' ∷ (middle ++ b':' ∷ rest)) ≡ none
unfolding before_port
before_port-none front middle rest h =
    ap (host_if is_only_port) (cut_at-append b':' front (middle ++ b':' ∷ rest) h)
    ∙ ground (arith, contains_between b':' middle rest)

-- An address with more than one colon and no bracket in front is the host itself: a bare IPv6 address
-- loses nothing.
pub probe_endpoint_host_bare :
    (front middle rest : Text)
    → contains b':' front ≡ false
    → contains b'[' front ≡ false
    → let endpoint = front ++ b':' ∷ (middle ++ b':' ∷ rest) in
      probe_endpoint_host endpoint ≡ endpoint
unfolding probe_endpoint_host
probe_endpoint_host_bare [] middle rest h left =
    first_host-none (b':' ∷ (middle ++ b':' ∷ rest)) (bracketed_colon (middle ++ b':' ∷ rest))
      (before_port-none [] middle rest h)
probe_endpoint_host_bare (c ∷ front) middle rest h left =
    first_host-none (c ∷ front ++ b':' ∷ (middle ++ b':' ∷ rest))
      (bracketed-none (c ∷ front) (b':' ∷ middle ++ b':' ∷ rest) refl left)
      (before_port-none (c ∷ front) middle rest h)
