-- ===== src/Pages/CreateInstance/Tests.antt =====
-- The theorems on the form that creates an instance, at a concrete form.
use frpc_multi.Toml.Tests.{toml}
use frpc_multi.Samples.{numbers}
use frpc_multi.Base.Decimal.{decimal, decimal_from}
use frpc_multi.Base.Text.{Text, codes, starts_with}
use frpc_multi.Base.Digits.{read_digits}
use frpc_multi.Console.{Node, InstanceRef}
use frpc_multi.Toml.Draft.{ProxyDraft}
use frpc_multi.Toml.Config.{parse_frpc_config}
use frpc_multi.Toml.Config.Valid.{IsValid}
use frpc_multi.Pages.CreateInstance.{
  Form, Payload, create_start, name_error, structured, follow_name, follow_node, client_numbers,
  next_number, has_node, payload_of, structured_errors, node_error, is_instance_name, is_name_tail,
  next_client_name, client_number, maximum, pad_start,
}
use frpc_multi.Pages.CreateInstance.Name.{name_error-follow_name}
use frpc_multi.Pages.CreateInstance.Laws.{IsName, IsFree, create_start-IsValid, follow_node_listed}
use Prim.Native.Nat.{◌<◌}
use mathlib.Core.Path.{◌≡◌, refl, sym, subst}
use mathlib.Core.Bool.{true, false}
use mathlib.Core.Option.{none, some}
use mathlib.Core.List.{List, [], ◌∷◌, ◌++◌}
use native.Mathlib.Omega.{arith}

abbrev instances : List InstanceRef
instances =
    record { name = codes "client-007"; node_id = 1; node_name = []; enabled = true }
    ∷ record { name = codes "web"; node_id = 1; node_name = []; enabled = true }
    ∷ []

abbrev node : Node
node = record {
  id = 4;
  name = codes "n";
  uuid = [];
  status = codes "online";
  online = true;
  last_seen_at = none;
  created_at = [];
  updated_at = [];
}

abbrev form : Form
form = record {
  name = [];
  name_dirty = false;
  display_name = [];
  description = [];
  enabled = true;
  config_text = [];
  step = 1;
  mode = structured;
  submitting = false;
  node_id = 1;
  node_dirty = false;
}

eight : next_number (client_numbers instances) ≡ 8
unfolding next_number client_numbers client_number maximum starts_with read_digits
eight = refl

proposal : next_client_name instances ≡ codes "client-008"
unfolding next_client_name next_number client_numbers client_number maximum starts_with read_digits
    pad_start decimal decimal_from
proposal = refl

name_error-follow_name_example : name_error instances (follow_name instances form) ≡ none
name_error-follow_name_example =
    name_error-follow_name instances form refl (subst (λ n. n < 1000000) (sym eight) (omega arith))

follow_node_listed_example :
    has_node (follow_node (some 9) (node ∷ []) form).node_id (node ∷ []) ≡ true
follow_node_listed_example = follow_node_listed (some 9) (node ∷ []) form refl refl

abbrev text : Text
text =
    codes
      "serverAddr = \"h\"\nserverPort = 7000\n\n[[proxies]]\nname = \"b\"\ntype = \"tcp\"\nlocalIP = \"127.0.0.1\"\nlocalPort = 22\nremotePort = 6000\n"

abbrev proxy : ProxyDraft
proxy = record {
  name = codes "b";
  type = codes "tcp";
  local_ip = codes "127.0.0.1";
  local_port = codes "22";
  remote_port = codes "6000";
  subdomain = [];
  custom_domains = [];
}

abbrev filled : Form
filled = record form { name = codes " my-web "; config_text = text }

abbrev payload : Payload
payload = record {
  name = codes "my-web";
  display_name = [];
  description = [];
  config_text = text;
  enabled = true;
  start_after_create = true;
}

filled_sends : (create_start numbers true instances (node ∷ []) filled).0 ≡ some (1, payload)
unfolding toml create_start structured_errors payload_of name_error node_error is_instance_name
    is_name_tail
filled_sends = refl

filled_proxies : (parse_frpc_config numbers text).proxies ≡ [] ++ proxy ∷ []
unfolding toml
filled_proxies = refl

create_start-IsValid_example :
    IsName (codes "my-web") × IsFree 1 (codes "my-web") instances × IsValid numbers proxy
create_start-IsValid_example =
    create_start-IsValid numbers true instances (node ∷ []) filled 1 payload [] proxy []
      filled_sends filled_proxies
