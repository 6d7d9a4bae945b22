-- ===== src/Toml/Draft.antt =====
-- The drafts of proxyToml.ts, reading the proxies section (`splitTomlAtProxies`, `parseProxies`)
-- and writing it (`serializeProxies`, `rewriteProxies`).
pub mod Domains
pub mod Lines
pub mod Canonical
pub mod Blocks
pub mod RoundTrip
use Prim.Native.Nat.{suc}
use Prim.Native.String.{String}
use mathlib.Core.Bool.{Bool, not, ◌&&◌, ◌||◌}
use mathlib.Core.Option.{Option, none, some}
use mathlib.Core.List.{List, [], ◌∷◌, ◌++◌, map}
use frpc_multi.Base.Tests.{if◌then◌else◌}
use frpc_multi.Base.Lists.{is_empty, all, filter, take, drop}
use frpc_multi.Base.Text.{
  Text, codes, ◌===◌, is_space, trim, trim_start, trim_end, starts_with, index_of, split_on,
  split_lines, join,
}
use frpc_multi.Base.Decimal.{Numbers}
use frpc_multi.Toml.Value.{toml_string, parse_toml_string, parse_toml_int, parse_toml_string_array}

pub record ProxyDraft : Type 0 where
  pub name : Text
  pub type : Text
  pub local_ip : Text
  pub local_port : Text
  pub remote_port : Text
  pub subdomain : Text
  pub custom_domains : Text

unfoldable pub create_empty_proxy : ProxyDraft
create_empty_proxy = record {
  name = [];
  type = codes "tcp";
  local_ip = codes "127.0.0.1";
  local_port = [];
  remote_port = [];
  subdomain = [];
  custom_domains = [];
}

abbrev pub header : Text
header = codes "[[proxies]]"

-- `PROXY_BLOCK_RE.test(line)`: white space, the header, white space
unfoldable pub is_proxy_block : Text → Bool
is_proxy_block line =
    let rest = trim_start line in starts_with header rest && all is_space (drop 11 rest)

-- The loop of `splitTomlAtProxies`: the lines before the first block, and the others.
unfoldable pub cut_lines : List Text → List Text × List Text
cut_lines [] = ([], [])
cut_lines (line ∷ lines) =
    let (before, after) = cut_lines lines in
    if is_proxy_block line then ([], line ∷ lines) else (line ∷ before, after)

abbrev pub newline : Text
newline = b'\n' ∷ []

-- `{ preface, proxiesBody }`
unfoldable pub split_toml_at_proxies : Text → Text × Text
split_toml_at_proxies text =
    let (before, after) = cut_lines (split_lines text) in (join newline before, join newline after)

-- The array `drafts`, whose last element `current` may still point to.
pub record Reader : Type 0 where
  pub closed : List ProxyDraft
  pub current : Option ProxyDraft

abbrev pub drafts_of : Reader → List ProxyDraft
drafts_of r = r.closed ++ elim r.current [ none ↦ [] | some draft ↦ draft ∷ [] ]

abbrev pub assign : String → Text → Text
assign key value = codes key ++ (codes " = " ++ value)

-- `if (draft.subdomain.trim()) …`
unfoldable pub string_line : String → Text → List Text
string_line key value =
    if is_empty (trim value) then [] else assign key (toml_string (trim value)) ∷ []

-- `customDomains.split(',').map(trim).filter(Boolean)`
unfoldable pub domains_of : Text → List Text
domains_of value = filter (λ d. not (is_empty d)) (map trim (split_on b',' value))

unfoldable pub domains_line : List Text → List Text
domains_line domains =
    if is_empty domains
    then []
    else assign "customDomains" (b'[' ∷ (join (codes ", ") (map toml_string domains) ++ b']' ∷ []))
      ∷ []

abbrev pub start : Reader
start = record { closed = []; current = none }

module _ (js : Numbers) where
  open js use {show, parse, is_finite}

  -- The assignment of one field. `serverName`, which no draft shows, and other keys change nothing
  -- that is read later.
  unfoldable pub set_field : Text → Text → ProxyDraft → ProxyDraft
  set_field key value draft =
      let string = parse_toml_string value in
      let int : Text = elim (parse_toml_int js value) [ none ↦ [] | some num ↦ show num ] in
      let array = join (codes ", ") (parse_toml_string_array value) in
      if key === codes "name"
      then record draft { name = string }
      else if key === codes "type"
      then record draft { type = string }
      else if key === codes "localIP"
      then record draft { local_ip = string }
      else if key === codes "subdomain"
      then record draft { subdomain = string }
      else if key === codes "localPort"
      then record draft { local_port = int }
      else if key === codes "remotePort"
      then record draft { remote_port = int }
      else if key === codes "customDomains"
      then record draft { custom_domains = array }
      else draft

  -- A line `key = value` inside a block.
  unfoldable pub read_field : Text → ProxyDraft → ProxyDraft
  read_field line draft = elim (index_of b'=' line) [
    | none ↦ draft
    | some eq ↦ set_field (trim (take eq line)) (trim (drop (suc eq) line)) draft
  ]

  -- One round of the loop of `parseProxies`.
  unfoldable pub read_line : Text → Reader → Reader
  read_line raw r =
      let line = trim raw in
      if is_empty line || starts_with (codes "#") line
      then r
      else if is_proxy_block raw
      then record { closed = drafts_of r; current = some create_empty_proxy }
      else if starts_with (codes "[") line
      then record { closed = drafts_of r; current = none }
      else record r {
        current = elim r.current [ none ↦ none | some draft ↦ some (read_field line draft) ];
      }

  unfoldable pub read_lines : List Text → Reader → Reader
  read_lines [] r = r
  read_lines (line ∷ lines) r = read_lines lines (read_line line r)

  unfoldable pub parse_proxies : Text → List ProxyDraft
  parse_proxies body =
      if is_empty (trim body) then [] else drafts_of (read_lines (split_lines body) start)

  -- `if (draft.localPort.trim()) …`
  unfoldable pub port_line : String → Text → List Text
  port_line key value =
      let port = parse (trim value) in
      if is_empty (trim value)
      then []
      else if is_finite port
      then assign key (show port) ∷ []
      else []

  -- The lines of one block.
  unfoldable pub block_lines : ProxyDraft → List Text
  block_lines draft =
      header
      ∷ assign "name" (toml_string (trim draft.name))
      ∷ ((if is_empty draft.type then [] else assign "type" (toml_string (trim draft.type)) ∷ [])
          ++ (string_line "localIP" draft.local_ip
              ++ (port_line "localPort" draft.local_port
                  ++ (port_line "remotePort" draft.remote_port
                      ++ (string_line "subdomain" draft.subdomain
                          ++ domains_line (domains_of draft.custom_domains))))))

  unfoldable pub serialize_proxies : List ProxyDraft → Text
  serialize_proxies drafts =
      join (codes "\n\n") (map (λ draft. join newline (block_lines draft)) drafts)

  unfoldable pub rewrite_proxies : Text → List ProxyDraft → Text
  rewrite_proxies text drafts =
      let proxies_text = serialize_proxies drafts in
      let trimmed = trim_end (split_toml_at_proxies text).0 in
      if is_empty proxies_text
      then trimmed ++ newline
      else trimmed ++ (codes "\n\n" ++ (proxies_text ++ newline))
