-- ===== src/Pages/CreateInstance.antt =====
-- webui/frontend/src/pages/CreateInstance.tsx: the form that creates an instance. The node of
-- the workspace is `none` for all nodes, and 0 is no node. `js` are JavaScript's numbers.
pub mod Name
pub mod Laws
pub mod Tests
use frpc_multi.Format.{age_text}
use frpc_multi.Base.Digits.{read_digits}
use frpc_multi.Base.Text.{trim, ◌===◌, Text, codes, starts_with}
use frpc_multi.Base.Answers.{Answer, answered, refused}
use frpc_multi.Base.Assoc.{text_eq, get, distinct}
use frpc_multi.Base.Decimal.{Numbers, decimal}
use frpc_multi.Console.{Node, InstanceRef}
use frpc_multi.Domains.{LbDomain}
use frpc_multi.Servers.Query.{Params}
use frpc_multi.Toml.Draft.{ProxyDraft}
use frpc_multi.Toml.Config.{
  FrpcConfigDraft, FrpcError, empty_frpc_config, serialize_frpc_config, parse_frpc_config,
  validate_frpc_draft, can_edit_full_config_structurally,
}
use Prim.Native.Nat.{ℕ, zero, suc, ◌+◌, ◌-◌}
use mathlib.Core.Bool.{Bool, true, false, not, ◌&&◌, ◌||◌}
use mathlib.Core.Option.{Option, none, some}
use mathlib.Core.List.{List, [], ◌∷◌, ◌++◌, map}
use native.Mathlib.Omega.{arith}
use frpc_multi.Base.Tests.{ltb, leb, ◌==◌, if◌then◌else◌, or_else, is_some}
use frpc_multi.Base.Lists.{length, drop, is_empty, all, any, filter, push_some}

-- `^\d+$`
unfoldable pub is_number_text : Text → Bool
is_number_text [] = false
is_number_text (c ∷ s) = all (λ d. leb 48 d && leb d 57) (c ∷ s)

abbrev pub is_lower : ℕ → Bool
is_lower c = (leb b'a' c && leb c b'z') || (leb 48 c && leb c 57)

-- What stands between the first and the last code unit of a name, and the last one.
unfoldable pub is_name_tail : Text → Bool
is_name_tail [] = false
is_name_tail (c ∷ []) = is_lower c
is_name_tail (c ∷ d ∷ s) = (is_lower c || c == b'-') && is_name_tail (d ∷ s)

-- `INSTANCE_NAME_RE`
unfoldable pub is_instance_name : Text → Bool
is_instance_name [] = false
is_instance_name (c ∷ s) = is_lower c && leb 2 (length s) && leb (length s) 39 && is_name_tail s

-- the match of `^client-(\d{1,6})$`, as a number
unfoldable pub client_number : Text → Option ℕ
client_number name =
    let digits = drop 7 name in
    if starts_with (codes "client-") name && leb 1 (length digits) && leb (length digits) 6
    then read_digits 0 digits
    else none

unfoldable pub client_numbers : List InstanceRef → List ℕ
client_numbers [] = []
client_numbers (item ∷ items) = push_some (client_number item.name) (client_numbers items)

unfoldable pub maximum : ℕ → List ℕ → ℕ
maximum n [] = n
maximum n (m ∷ ms) = maximum (if ltb n m then m else n) ms

unfoldable pub next_number : List ℕ → ℕ
next_number [] = 1
next_number (n ∷ ns) = maximum n ns + 1

abbrev pub zeros : ℕ → Text
zeros zero = []
zeros (suc n) = b'0' ∷ zeros n

-- `padStart(n, '0')`
unfoldable pub pad_start : ℕ → Text → Text
pad_start n t = zeros (n - length t) ++ t

unfoldable pub next_client_name : List InstanceRef → Text
next_client_name instances =
    codes "client-" ++ pad_start 3 (decimal (next_number (client_numbers instances)))

pub data EditorMode : Type 0 where
  structured raw : EditorMode

pub record Form : Type 0 where
  pub name : Text
  pub name_dirty : Bool
  pub display_name : Text
  pub description : Text
  pub enabled : Bool
  pub config_text : Text
  pub step : ℕ
  pub mode : EditorMode
  pub submitting : Bool
  pub node_id : ℕ
  pub node_dirty : Bool

abbrev pub node_is_online : Node → Bool
node_is_online node = node.online || node.status === codes "online"

abbrev pub has_node : ℕ → List Node → Bool
has_node id nodes = any (λ (node : Node). node.id == id) nodes

-- `a || b` on numbers
abbrev pub or_number : ℕ → ℕ → ℕ
or_number a b = if a == 0 then b else a

unfoldable pub first_online : List Node → ℕ
first_online [] = 0
first_online (node ∷ nodes) =
    let rest = first_online nodes in if node_is_online node then node.id else rest

abbrev first_id : List Node → ℕ
first_id [] = 0
first_id (node ∷ _) = node.id

unfoldable pub resolved_initial_node_id : Option ℕ → List Node → ℕ
resolved_initial_node_id workspace nodes =
    let initial = or_else workspace 0 in
    if not (initial == 0) && has_node initial nodes
    then initial
    else or_number (first_online nodes) (first_id nodes)

unfoldable pub node_label : Node → Text
node_label node =
    if node_is_online node
    then codes "在线"
    else if node.status === codes "pending"
    then codes "待接入"
    else if node.status === codes "offline"
    then codes "离线"
    else if node.status === codes "error"
    then codes "异常"
    else codes "未知"

-- `formatLastSeen`; `parse_date` is `Date.parse`, with NaN as `none`.
unfoldable pub last_seen_label : (Text → Option ℕ) → ℕ → Text → Text
last_seen_label parse_date now value = elim (parse_date value) [
  | none ↦ value
  | some timestamp ↦ if ltb now timestamp then codes "刚刚" else age_text (now - timestamp)
]

-- The effect that keeps the name that nobody edited.
unfoldable pub follow_name : List InstanceRef → Form → Form
follow_name instances s = if s.name_dirty then s else record s { name = next_client_name instances }

-- The effect that keeps the node.
unfoldable pub follow_node : Option ℕ → List Node → Form → Form
follow_node workspace nodes s =
    let resolved = resolved_initial_node_id workspace nodes in
    if not s.node_dirty
    then record s { node_id = resolved }
    else if not (s.node_id == 0) && not (has_node s.node_id nodes)
    then record s { node_id = resolved; node_dirty = false }
    else s

-- The domains that the effect on the balancer keeps, and the one of the address that is edited.
unfoldable pub lb_answer : Answer (List LbDomain) → List LbDomain → List LbDomain
lb_answer (answered domains) old = filter (λ (domain : LbDomain). domain.enabled) domains
lb_answer (refused message) old = old

unfoldable pub selected_lb_domain : Text → List LbDomain → Option LbDomain
selected_lb_domain addr [] = none
selected_lb_domain addr (domain ∷ domains) =
    let rest = selected_lb_domain addr domains in if domain.name === addr then some domain else rest

unfoldable pub remote_ports : List ProxyDraft → List Text
remote_ports proxies =
    distinct
      (filter (λ port. not (is_empty port)) (map (λ (p : ProxyDraft). trim p.remote_port) proxies))

unfoldable pub name_error : List InstanceRef → Form → Option Text
name_error instances s =
    let name = trim s.name in
    if is_empty name
    then some (codes "请填写实例名")
    else if not (is_instance_name name)
    then some (codes "只能包含小写字母、数字和短横线，长度 3-40，且不能以短横线开头或结尾")
    else if any (λ (item : InstanceRef). item.node_id == s.node_id && item.name === name) instances
    then some (codes "该实例名已存在")
    else none

unfoldable pub node_error : List Node → Form → Option Text
node_error nodes s = if not (is_empty nodes) && s.node_id == 0 then some (codes "请选择节点") else none

-- The body of the call that creates, and its path: that of the node, or that of the console for 0.
pub record Payload : Type 0 where
  pub name : Text
  pub display_name : Text
  pub description : Text
  pub config_text : Text
  pub enabled : Bool
  pub start_after_create : Bool

unfoldable pub payload_of : Bool → Form → Payload
payload_of start_immediately s = record {
  name = trim s.name;
  display_name = s.display_name;
  description = s.description;
  config_text = s.config_text;
  enabled = s.enabled;
  start_after_create = s.enabled && start_immediately;
}

module _ (js : Numbers) where
  -- `initialConfigText`
  unfoldable pub initial_config_text : Params → Text
  initial_config_text params =
      let server = trim (or_else (get (codes "server") params) []) in
      let port = trim (or_else (get (codes "port") params) []) in
      let with_server = record empty_frpc_config { server_addr = server } in
      if is_empty server
      then serialize_frpc_config js empty_frpc_config
      else if is_number_text port
      then serialize_frpc_config js (record with_server { server_port = port })
      else serialize_frpc_config js with_server

  unfoldable pub initial_form : List InstanceRef → Option ℕ → List Node → Params → Form
  initial_form instances workspace nodes params = record {
    name = next_client_name instances;
    name_dirty = false;
    display_name = [];
    description = [];
    enabled = true;
    config_text = initial_config_text params;
    step = 1;
    mode = structured;
    submitting = false;
    node_id = resolved_initial_node_id workspace nodes;
    node_dirty = false;
  }

  unfoldable pub draft_dirty : Params → Form → Bool
  draft_dirty params s =
      s.name_dirty
      || s.node_dirty
      || not (is_empty s.display_name)
      || not (is_empty s.description)
      || not (s.config_text === initial_config_text params)
      || not s.enabled

  abbrev pub structured_safe : Form → Bool
  structured_safe s = can_edit_full_config_structurally js s.config_text

  -- The effect that leaves the structured editor.
  unfoldable pub follow_mode : Form → Form
  follow_mode s = if structured_safe s then s else record s { mode = raw }

  -- `updateStructured`; the patch is the change that it makes.
  unfoldable pub update_structured : (FrpcConfigDraft → FrpcConfigDraft) → Form → Form
  update_structured patch s =
      let next = patch (parse_frpc_config js s.config_text) in
      if structured_safe s
      then record s { config_text = serialize_frpc_config js next }
      else record s { mode = raw }

  unfoldable pub update_proxies : List ProxyDraft → Form → Form
  update_proxies proxies =
      update_structured (λ (draft : FrpcConfigDraft). record draft { proxies = proxies })

  unfoldable pub structured_errors : Form → List FrpcError
  structured_errors s = validate_frpc_draft js (parse_frpc_config js s.config_text)

  abbrev count_some : Option Text → ℕ
  count_some none = 0
  count_some (some _) = 1

  unfoldable pub validation_count : List InstanceRef → List Node → Form → ℕ
  validation_count instances nodes s =
      length (structured_errors s)
      + count_some (name_error instances s)
      + count_some (node_error nodes s)

  unfoldable pub can_submit : List InstanceRef → List Node → Form → Bool
  can_submit instances nodes s =
      not s.submitting
      && not (is_some (node_error nodes s))
      && not (is_some (name_error instances s))
      && is_empty (structured_errors s)

  -- `create` up to its first `await`, with the node and the payload of the call.
  unfoldable pub create_start :
      Bool → List InstanceRef → List Node → Form → Option (ℕ × Payload) × Form
  create_start start_immediately instances nodes s =
      if is_some (name_error instances s)
        || is_some (node_error nodes s)
        || not (is_empty (structured_errors s))
      then (none, s)
      else (some (s.node_id, payload_of start_immediately s), record s { submitting = true })

-- `create` behind its `await`s, with the node and the name of the address that it leads to.
unfoldable pub create_answer : Answer Unit → Form → Option (ℕ × Text) × Form
create_answer (answered done) s = (some (s.node_id, trim s.name), record s { submitting = false })
create_answer (refused message) s = (none, record s { submitting = false })
