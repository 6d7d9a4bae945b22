-- ===== src/Toml/Config.antt =====
-- The whole frpc.toml of the create form in proxyToml.ts: `parseFrpcConfig`, `serializeFrpcConfig`,
-- the two tests `canEdit…Structurally` and `validateFrpcDraft`.
pub mod Valid
use Prim.Native.Nat.{ℕ, suc, ◌+◌}
use mathlib.Core.Bool.{Bool, true, false, not, ◌&&◌, ◌||◌}
use mathlib.Core.Option.{Option, none, some}
use mathlib.Core.List.{List, [], ◌∷◌, ◌++◌}
use frpc_multi.Base.Tests.{leb, if◌then◌else◌}
use frpc_multi.Base.Lists.{is_empty, all, any, take, drop}
use frpc_multi.Base.Text.{
  Text, codes, ◌===◌, trim, trim_start, starts_with, ends_with, index_of, inner, split_lines, join,
}
use frpc_multi.Base.Decimal.{Numbers, decimal}
use frpc_multi.Toml.Value.{toml_string, parse_toml_string, parse_toml_int}
use frpc_multi.Toml.Draft.{
  ProxyDraft, header, newline, split_toml_at_proxies, parse_proxies, serialize_proxies, assign,
}
use frpc_multi.Toml.Validate.{ProxyError, is_port, validate_proxy}

pub record FrpcConfigDraft : Type 0 where
  pub server_addr : Text
  pub server_port : Text
  pub auth_token : Text
  pub proxies : List ProxyDraft

abbrev pub empty_frpc_config : FrpcConfigDraft
empty_frpc_config = record { server_addr = []; server_port = []; auth_token = []; proxies = [] }

-- The local variables of `parseFrpcConfig`; `section` is `none` above the first table header.
pub record Preface : Type 0 where
  pub server_addr : Text
  pub server_port : Text
  pub auth_token : Text
  pub section : Option Text

pub data FrpcError : Type 0 where
  server_addr_empty bad_server_port : FrpcError
  proxy_issues : (name : Text) (issues : List ProxyError) → FrpcError

abbrev key_fields : List Text
key_fields =
    codes "name"
    ∷ codes "type"
    ∷ codes "localIP"
    ∷ codes "localPort"
    ∷ codes "remotePort"
    ∷ codes "subdomain"
    ∷ codes "customDomains"
    ∷ []

abbrev is_letter : ℕ → Bool
is_letter c = (leb b'A' c && leb c b'Z') || (leb b'a' c && leb c b'z')

abbrev is_word : ℕ → Bool
is_word c = is_letter c || (leb b'0' c && leb c b'9')

-- the part of a text up to the first code unit that fails the test, and the rest
unfoldable pub span : (ℕ → Bool) → Text → Text × Text
span p [] = ([], [])
span p (c ∷ s) = let (front, rest) = span p s in if p c then (c ∷ front, rest) else ([], c ∷ s)

-- `match[1]` of /^([A-Za-z][A-Za-z0-9]*)\s*=/
unfoldable pub key_match : Text → Option Text
key_match [] = none
key_match (c ∷ s) =
    let (word, rest) = span is_word (c ∷ s) in
    if is_letter c && starts_with (codes "=") (trim_start rest) then some word else none

-- The body of the loop of `canEditProxiesStructurally`; false where it returns.
unfoldable pub line_editable : Text → Bool
line_editable line =
    let value = trim line in
    if is_empty value || value === header
    then true
    else if starts_with (codes "#") value || starts_with (codes "[") value
    then false
    else elim (key_match value) [
      | none ↦ false
      | some key ↦ any (λ field. field === key) key_fields
    ]

abbrev pub address_lines : Text → List Text
address_lines server_addr =
    if is_empty server_addr
    then codes "# serverAddr 必填，请填写 frps 服务器地址" ∷ codes "serverAddr = \"\"" ∷ []
    else assign "serverAddr" (toml_string server_addr) ∷ []

abbrev pub auth_lines : Text → List Text
auth_lines token =
    if is_empty token
    then codes "# 未配置认证密钥；若 frps 端要求 token，请取消下面三行的注释并填写 token"
      ∷ codes "# [auth]"
      ∷ codes "# method = \"token\""
      ∷ codes "# token = \"\""
      ∷ []
    else codes "[auth]" ∷ codes "method = \"token\"" ∷ assign "token" (toml_string token) ∷ []

abbrev pub log_lines : List Text
log_lines =
    codes "[log]" ∷ codes "to = \"console\"" ∷ codes "level = \"info\"" ∷ codes "maxDays = 3" ∷ []

abbrev pub empty_preface : Preface
empty_preface = record { server_addr = []; server_port = []; auth_token = []; section = none }

module _ (js : Numbers) where
  open js use {show, parse, of_ℕ}

  unfoldable pub can_edit_proxies_structurally : Text → Bool
  can_edit_proxies_structurally text =
      let body = (split_toml_at_proxies text).1 in
      is_empty (trim body)
      || (all line_editable (split_lines body)
          && (trim body === trim (serialize_proxies js (parse_proxies js body))))

  -- The assignments of the loop of `parseFrpcConfig`, by section.
  unfoldable pub set_preface : Option Text → Text → Text → Preface → Preface
  set_preface none key value p =
      let int : Text = elim (parse_toml_int js value) [ none ↦ [] | some num ↦ show num ] in
      if key === codes "serverAddr"
      then record p { server_addr = parse_toml_string value }
      else if key === codes "serverPort"
      then record p { server_port = int }
      else p
  set_preface (some section) key value p =
      if section === codes "auth" && key === codes "token"
      then record p { auth_token = parse_toml_string value }
      else p

  unfoldable pub preface_line : Text → Preface → Preface
  preface_line raw p =
      let line = trim raw in
      let field : Preface = elim (index_of b'=' line) [
        | none ↦ p
        | some eq ↦ set_preface p.section (trim (take eq line)) (trim (drop (suc eq) line)) p
      ] in
      if is_empty line || starts_with (codes "#") line
      then p
      else if starts_with (codes "[") line
          && ends_with b']' line
          && not (starts_with (codes "[[") line)
      then record p { section = some (trim (inner line)) }
      else field

  unfoldable pub preface_lines : List Text → Preface → Preface
  preface_lines [] p = p
  preface_lines (line ∷ lines) p = preface_lines lines (preface_line line p)

  unfoldable pub parse_frpc_config : Text → FrpcConfigDraft
  parse_frpc_config text =
      let (preface, body) = split_toml_at_proxies text in
      let p = preface_lines (split_lines preface) empty_preface in
      record {
        server_addr = p.server_addr;
        server_port = p.server_port;
        auth_token = p.auth_token;
        proxies = parse_proxies js body;
      }

  abbrev pub port_lines : Text → List Text
  port_lines input =
      let number = if is_empty input then of_ℕ 7000 else parse input in
      assign "serverPort" (show (if is_port js number then number else of_ℕ 7000)) ∷ []

  -- The lines above the proxies section.
  unfoldable pub config_lines : FrpcConfigDraft → List Text
  config_lines draft =
      address_lines (trim draft.server_addr)
      ++ (port_lines (trim draft.server_port)
          ++ ([] ∷ (auth_lines (trim draft.auth_token) ++ ([] ∷ log_lines))))

  unfoldable pub serialize_frpc_config : FrpcConfigDraft → Text
  serialize_frpc_config draft =
      let proxies_text = serialize_proxies js draft.proxies in
      join newline
        (config_lines draft ++ (if is_empty proxies_text then [] else [] ∷ proxies_text ∷ []))
      ++ newline

  unfoldable pub can_edit_full_config_structurally : Text → Bool
  can_edit_full_config_structurally text =
      trim text === trim (serialize_frpc_config (parse_frpc_config text))

  -- The loop of `validateFrpcDraft` over the proxies, from index `index`.
  unfoldable pub proxy_errors : List ProxyDraft → ℕ → List ProxyDraft → List FrpcError
  proxy_errors proxies index [] = []
  proxy_errors proxies index (proxy ∷ rest) =
      let issues = validate_proxy js proxy index proxies in
      let name =
        if is_empty (trim proxy.name) then b'#' ∷ decimal (index + 1) else trim proxy.name in
      (if is_empty issues then [] else proxy_issues name issues ∷ [])
      ++ proxy_errors proxies (suc index) rest

  unfoldable pub validate_frpc_draft : FrpcConfigDraft → List FrpcError
  validate_frpc_draft draft =
      let port = trim draft.server_port in
      (if is_empty (trim draft.server_addr) then server_addr_empty ∷ [] else [])
      ++ ((if not (is_empty port) && not (is_port js (parse port))
            then bad_server_port ∷ []
            else [])
          ++ proxy_errors draft.proxies 0 draft.proxies)
