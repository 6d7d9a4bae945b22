-- ===== src/Toml/Tests.antt =====
-- Runs of the functions of proxyToml.ts on concrete texts.
use frpc_multi.Samples.{numbers, number_of, number_text, number_lt}
use frpc_multi.Base.Text.{
  codes, ◌===◌, is_space, trim_start, trim_end, trim, starts_with, ends_with, index_of, drop_last,
  inner, replace_all, split_on, split_lines, join,
}
use frpc_multi.Base.Decimal.{decimal_from, decimal}
use frpc_multi.Base.Json.{escape_char, hex_digit, json_chars, json_string}
use frpc_multi.Toml.Value.{
  toml_string, find_comment, find_comment_start, strip_comment, parse_toml_string, safe_json_parse,
  array_items, parse_toml_string_array, parse_toml_int,
}
use frpc_multi.Toml.Draft.{
  ProxyDraft, create_empty_proxy, is_proxy_block, cut_lines, split_toml_at_proxies, string_line,
  domains_of, domains_line, set_field, read_field, read_line, read_lines, parse_proxies, port_line,
  block_lines, serialize_proxies, rewrite_proxies,
}
use mathlib.Core.Path.{◌≡◌, refl}
use mathlib.Core.Logic.{◌≢◌, inr}
use mathlib.Core.Bool.{true, false}
use mathlib.Core.List.{List, [], ◌∷◌, ◌++◌}
use native.Mathlib.Omega.{arith}
use frpc_multi.Base.Lists.{All}
use frpc_multi.Toml.Config.Valid.{IsValid, validate_frpc_draft-IsValid, validate_frpc_draft-names}
use frpc_multi.Toml.Draft.Canonical.{IsCanonical}
use frpc_multi.Toml.Draft.RoundTrip.{parse_proxies-serialize_proxies}
use frpc_multi.Toml.Validate.{others_than, name_taken, is_port_string, validate_proxy}
use frpc_multi.Toml.Config.{
  empty_frpc_config, FrpcConfigDraft, span, key_match, line_editable, can_edit_proxies_structurally,
  set_preface, preface_line, preface_lines, parse_frpc_config, config_lines, serialize_frpc_config,
  can_edit_full_config_structurally, proxy_errors, validate_frpc_draft,
}

-- All that the tests compute with.
unfoldable pub toml : Unit {0}
unfolding ◌===◌ is_space trim_start trim_end trim starts_with ends_with index_of drop_last inner
    replace_all split_on split_lines join decimal_from decimal escape_char hex_digit json_chars
    json_string toml_string find_comment find_comment_start strip_comment parse_toml_string
    safe_json_parse array_items parse_toml_string_array parse_toml_int create_empty_proxy
    is_proxy_block cut_lines split_toml_at_proxies string_line domains_of domains_line set_field
    read_field read_line read_lines parse_proxies port_line block_lines serialize_proxies
    rewrite_proxies others_than name_taken is_port_string validate_proxy span key_match
    line_editable can_edit_proxies_structurally set_preface preface_line preface_lines
    parse_frpc_config config_lines serialize_frpc_config can_edit_full_config_structurally
    proxy_errors validate_frpc_draft number_of number_text number_lt
toml = tt

abbrev web : ProxyDraft
web = record {
  name = codes "web\"1\\";
  type = codes "http";
  local_ip = codes "10.0.0.2";
  local_port = codes "8080";
  remote_port = [];
  subdomain = codes "a#b";
  custom_domains = codes "a.example.com, b.example.com";
}

web_round : parse_proxies numbers (serialize_proxies numbers (web ∷ web ∷ [])) ≡ web ∷ web ∷ []
unfolding toml
web_round = refl

config_editable :
    can_edit_full_config_structurally numbers (serialize_frpc_config numbers empty_frpc_config)
    ≡ true
unfolding toml
config_editable = refl

comment_kept :
    can_edit_proxies_structurally numbers
      (codes "[[proxies]]\nname = \"demo\"\n# keep this comment")
    ≡ false
unfolding toml
comment_kept = refl

plugin_kept :
    can_edit_proxies_structurally numbers
      (codes "[[proxies]]\nname = \"demo\"\nplugin = \"http_proxy\"")
    ≡ false
unfolding toml
plugin_kept = refl

demo_editable :
    can_edit_proxies_structurally numbers (
      codes
        "a = 1\n\n[[proxies]]\nname = \"demo\"\ntype = \"tcp\"\nlocalIP = \"127.0.0.1\"\nremotePort = 80\n")
    ≡ true
unfolding toml
demo_editable = refl

-- A quotation mark in a member of an array does not come back as it was written.
quoted_domain :
    parse_toml_string_array (b'[' ∷ (toml_string (codes "a\"b") ++ b']' ∷ [])) ≡ codes "a\\\"b" ∷ []
unfolding toml
quoted_domain = refl

abbrev drafts : List ProxyDraft
drafts =
    record {
      name = codes "web\"1";
      type = codes "tcp";
      local_ip = codes "10.0.0.2";
      local_port = codes "8080";
      remote_port = codes "80";
      subdomain = codes "a#b";
      custom_domains = codes "a.b, c.d";
    }
    ∷ []

drafts-IsCanonical : All IsCanonical drafts
unfolding toml
drafts-IsCanonical = (
  record {
    name = (refl, ground arith);
    type = (refl, ground arith);
    type_given = refl;
    local_ip = (refl, ground arith);
    local_ip_given = refl;
    local_port = inr (8080, omega arith, refl);
    remote_port = inr (80, omega arith, refl);
    subdomain = (refl, ground arith);
    domains = codes "a.b" ∷ codes "c.d" ∷ [];
    domains_IsDomain = (
      record {
        trimmed = refl;
        not_nil = ground arith;
        item = (ground arith, ground arith);
        no_comma = ground arith;
      },
      (
        record {
          trimmed = refl;
          not_nil = ground arith;
          item = (ground arith, ground arith);
          no_comma = ground arith;
        },
        tt,
      ),
    );
    custom_domains = refl;
  },
  tt,
)

parse_proxies-serialize_proxies_example :
    parse_proxies numbers (serialize_proxies numbers drafts) ≡ drafts
parse_proxies-serialize_proxies_example =
    parse_proxies-serialize_proxies numbers drafts drafts-IsCanonical

abbrev first : ProxyDraft
first = record {
  name = codes " a ";
  type = codes "tcp";
  local_ip = codes "10.0.0.2";
  local_port = codes "8080";
  remote_port = codes "80";
  subdomain = [];
  custom_domains = [];
}

abbrev second : ProxyDraft
second = record first { name = codes "b"; type = codes "http"; remote_port = [] }

abbrev config : FrpcConfigDraft
config = record {
  server_addr = codes "example.com";
  server_port = codes "7000";
  auth_token = [];
  proxies = first ∷ second ∷ [];
}

config_without_errors : validate_frpc_draft numbers config ≡ []
unfolding toml
config_without_errors = refl

validate_frpc_draft-IsValid_example : IsValid numbers second
validate_frpc_draft-IsValid_example =
    validate_frpc_draft-IsValid numbers config (first ∷ []) second [] config_without_errors refl

validate_frpc_draft-names_example : trim (codes "b") ≢ trim (codes " a ")
validate_frpc_draft-names_example =
    validate_frpc_draft-names numbers config [] first [] second [] config_without_errors refl
