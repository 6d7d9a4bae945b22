-- ===== src/Pages/Workspace.antt =====
-- webui/frontend/src/pages/Overview.tsx: the workspace: the nodes with their counts, the instances that
-- the filters leave, and the summaries that are read for them. `lower` is `toLowerCase`.
pub mod Laws
pub mod Tests
use frpc_multi.Base.Text.{Text, trim, codes, join, ◌===◌}
use frpc_multi.Base.Assoc.{text_eq, get, has, put}
use frpc_multi.Base.Decimal.{decimal}
use frpc_multi.Console.{
  InstanceStats, InstanceRef, InstanceTone, success, danger, warning, muted, Node, NodeHealth,
  no_health, tone_of, instance_key,
}
use frpc_multi.Domains.{includes}
use Prim.Native.Nat.{ℕ, zero, suc, ◌+◌, ◌-◌}
use mathlib.Core.Bool.{Bool, true, false, not, ◌&&◌, ◌||◌}
use mathlib.Core.Option.{Option, none, some}
use mathlib.Core.List.{List, [], ◌∷◌, ◌++◌, map}
use native.Mathlib.Omega.{arith}
use frpc_multi.Base.Tests.{◌==◌, if◌then◌else◌, or_else}
use frpc_multi.Base.Lists.{length, take, is_empty, any, filter}

pub record InstanceSummary : Type 0 where
  pub server_addr : Option Text
  pub server_port : Option ℕ
  pub proxy_types : List (Text × ℕ)
  pub remote_ports : List ℕ

-- An instance with the texts that the search reads beside its reference.
pub record Row : Type 0 where
  pub item : InstanceRef
  pub display_name : Text
  pub description : Text
  pub config_path : Text

pub data StatusFilter : Type 0 where
  any_status running error stopped disabled : StatusFilter

pub data EnabledFilter : Type 0 where
  any_enabled only_enabled only_disabled : EnabledFilter

abbrev pub Stats : Type 0
Stats = List (Text × InstanceStats)

-- `null` is a summary that could not be read.
abbrev pub Cache : Type 0
Cache = List (Text × Option InstanceSummary)

pub record Filters : Type 0 where
  pub keyword : Text
  pub status : StatusFilter
  pub enabled : EnabledFilter
  pub proxy_type : Option Text

-- The body of the loop of `nodeSummaries` over the instances of a node, which leaves the total.
unfoldable pub count_one : InstanceTone → Bool → NodeHealth → NodeHealth
count_one tone enabled h =
    let counted = record h { disabled = if enabled then h.disabled else h.disabled + 1 } in
    elim tone [
      | success ↦ record counted { running = counted.running + 1 }
      | danger ↦ record counted { error = counted.error + 1 }
      | warning ↦ record counted { stopped = counted.stopped + 1 }
      | muted ↦ record counted { stopped = counted.stopped + 1 }
    ]

unfoldable pub count_items : Stats → List InstanceRef → NodeHealth → NodeHealth
count_items stats [] h = h
count_items stats (item ∷ items) h =
    count_items stats items (count_one (tone_of stats item) item.enabled h)

abbrev pub instances_of : ℕ → List InstanceRef → List InstanceRef
instances_of id items = filter (λ (item : InstanceRef). item.node_id == id) items

-- What `nodeSummaries` adds to a node.
unfoldable pub node_summary : Stats → List InstanceRef → ℕ → NodeHealth
node_summary stats items id = record (count_items stats (instances_of id items) no_health) {
  total = length (instances_of id items);
}

-- The effect on the node of the workspace; `none` is all nodes.
unfoldable pub follow_selected : List Node → Option ℕ → Option ℕ
follow_selected nodes none = none
follow_selected nodes (some id) =
    if any (λ (node : Node). node.id == id) nodes then some id else none

abbrev in_node : Option ℕ → List Row → List Row
in_node none rows = rows
in_node (some id) rows = filter (λ (row : Row). row.item.node_id == id) rows

-- A node that is not among the nodes selects none, as in `selectedNode`.
unfoldable pub selected_instances : List Node → Option ℕ → List Row → List Row
selected_instances nodes selected rows = in_node (follow_selected nodes selected) rows

abbrev pub key_of : Row → Text
key_of row = instance_key row.item.node_id row.item.name

-- A port 0 is no text.
abbrev port_text : Option ℕ → Text
port_text none = []
port_text (some zero) = []
port_text (some (suc n)) = decimal (suc n)

abbrev summary_texts : Option (Option InstanceSummary) → List Text
summary_texts (some (some summary)) =
    or_else summary.server_addr []
    ∷ port_text summary.server_port
    ∷ join (codes " ") (map decimal summary.remote_ports)
    ∷ join (codes " ") (map (λ (p : Text × ℕ). p.0) summary.proxy_types)
    ∷ []
summary_texts _ = []

abbrev stat_texts : Option InstanceStats → List Text
stat_texts none = []
stat_texts (some stat) = stat.container_name ∷ stat.status ∷ []

unfoldable pub searchable : Stats → Cache → Row → Text
searchable stats cache row = join (codes " ") (
    filter (λ (t : Text). not (is_empty t))
      ((row.item.name ∷ row.display_name ∷ row.description ∷ row.item.node_name ∷ row.config_path
          ∷ [])
        ++ summary_texts (get (key_of row) cache)
        ++ stat_texts (get (key_of row) stats)))

abbrev pub is_success : InstanceTone → Bool
is_success success = true
is_success _ = false

abbrev pub is_danger : InstanceTone → Bool
is_danger danger = true
is_danger _ = false

unfoldable pub has_status : StatusFilter → InstanceTone → Bool → Bool
has_status any_status tone enabled = true
has_status running tone enabled = is_success tone
has_status error tone enabled = is_danger tone
has_status stopped tone enabled = enabled && not (is_success tone) && not (is_danger tone)
has_status disabled tone enabled = not enabled

unfoldable pub has_enabled : EnabledFilter → Bool → Bool
has_enabled any_enabled enabled = true
has_enabled only_enabled enabled = enabled
has_enabled only_disabled enabled = not enabled

module _ (lower : Text → Text) where
  unfoldable pub base_visible : Stats → Cache → Filters → List Row → List Row
  base_visible stats cache filters rows =
      let keyword = lower (trim filters.keyword) in
      filter
        (λ (row : Row).
          (is_empty keyword || includes keyword (lower (searchable stats cache row)))
          && has_enabled filters.enabled row.item.enabled
          && has_status filters.status (tone_of stats row.item) row.item.enabled)
        rows

  unfoldable pub filtered_nodes : Text → List Node → List Node
  filtered_nodes keyword nodes =
      let wanted = lower (trim keyword) in
      let matches =
        filter
          (λ (node : Node).
            includes wanted (lower (join (codes " ") (node.name ∷ node.uuid ∷ node.status ∷ []))))
          nodes in
      if is_empty wanted then nodes else matches

abbrev counts_type : Text → Option (Option InstanceSummary) → Bool
counts_type type (some (some summary)) = not (or_else (get type summary.proxy_types) 0 == 0)
counts_type type _ = false

unfoldable pub visible_instances : Cache → Option Text → List Row → List Row
visible_instances cache none rows = rows
visible_instances cache (some type) rows =
    filter (λ (row : Row). counts_type type (get (key_of row) cache)) rows

-- The instances whose summaries the effect reads: of the first 25, those that have none.
unfoldable pub summary_targets : Cache → List Row → List Row
summary_targets cache visible =
    filter (λ (row : Row). not (has (key_of row) cache)) (take 25 visible)

-- The effect behind its calls; `ask` is what each call gives, `none` for one that fails.
unfoldable pub summaries_answer : Bool → (Row → Option InstanceSummary) → List Row → Cache → Cache
summaries_answer cancelled ask [] cache = cache
summaries_answer cancelled ask (row ∷ rows) cache =
    let rest = summaries_answer cancelled ask rows (put (key_of row) (ask row) cache) in
    if cancelled then cache else rest

unfoldable pub node_status_label : Text → Text
node_status_label status =
    if status === codes "pending"
    then codes "待连接"
    else if status === codes "offline"
    then codes "离线"
    else if status === codes "error"
    then codes "异常"
    else codes "未知"

-- A port 0 is no port.
abbrev server_text : Text → Option ℕ → Text
server_text addr none = addr
server_text addr (some zero) = addr
server_text addr (some (suc n)) = addr ++ codes ":" ++ decimal (suc n)

unfoldable pub format_server : Option InstanceSummary → Text
format_server none = codes "--"
format_server (some summary) =
    let addr = or_else summary.server_addr [] in
    if is_empty addr then codes "--" else server_text addr summary.server_port

unfoldable pub format_ports : Option InstanceSummary → Text
format_ports none = codes "--"
format_ports (some summary) =
    if is_empty summary.remote_ports
    then codes "--"
    else join (codes ", ") (map decimal summary.remote_ports)
