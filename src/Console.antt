-- ===== src/Console.antt =====
-- webui/frontend/src/context/ConsoleContext.tsx, with `parsePercent`, `instanceStateBadge` and
-- `actionLabel` of lib/format.ts: the summary that the console polls, the recent load of each
-- instance, the actions that run, and the health of each node.
pub mod Tests
pub mod Health
pub mod Summary
use mathlib.Core.Logic.{◌⊎◌, inl, inr}
use Prim.Native.Nat.{ℕ, ◌+◌, ◌-◌}
use mathlib.Core.Bool.{Bool, true, false, ◌||◌, not}
use mathlib.Core.Option.{Option, none, some}
use mathlib.Core.List.{List, [], ◌∷◌, ◌++◌, map}
use frpc_multi.Base.Tests.{◌==◌, if◌then◌else◌, or_else, is_some}
use frpc_multi.Base.Lists.{length, drop, is_empty}
use frpc_multi.Base.Text.{Text, codes, ◌===◌, trim}
use frpc_multi.Base.Decimal.{decimal}
use frpc_multi.Base.Assoc.{text_eq, nat_eq, get, put, delete}

pub record InstanceStats : Type 0 where
  pub service : Text
  pub container_name : Text
  pub container_id : Text
  pub state : Text
  pub status : Text
  pub health : Text
  pub exit_code : Option ℕ
  pub cpu_percent : Text
  pub mem_usage : Text
  pub mem_percent : Text
  pub net_io : Text
  pub block_io : Text
  pub pids : Text
  pub restart_count : ℕ

pub record InstanceRef : Type 0 where
  pub name : Text
  pub node_id : ℕ
  pub node_name : Text
  pub enabled : Bool

pub data InstanceTone : Type 0 where
  success warning danger muted : InstanceTone

pub record Badge : Type 0 where
  pub label : Text
  pub tone : InstanceTone

abbrev stopped_badge : InstanceStats → Badge
stopped_badge stat =
    let stopped : Badge = record { label = codes "已停止"; tone = muted } in
    elim stat.exit_code [
      | none ↦ stopped
      | some code ↦
          let crashed : Badge = record {
            label = codes "异常退出 (" ++ decimal code ++ codes ")";
            tone = danger;
          } in
          if code == 0 then stopped else crashed
    ]

-- The badge of a container in a state.
abbrev state_badge : InstanceStats → Badge
state_badge stat =
    let running : Badge = record { label = codes "运行中"; tone = success } in
    let restarting : Badge = record { label = codes "重启中"; tone = warning } in
    let paused : Badge = record { label = codes "已暂停"; tone = warning } in
    let other : Badge = record {
      label = if is_empty stat.status then stat.state else stat.status;
      tone = muted;
    } in
    if stat.state === codes "running"
    then running
    else if stat.state === codes "restarting"
    then restarting
    else if stat.state === codes "paused"
    then paused
    else if stat.state === codes "exited" || stat.state === codes "dead"
    then stopped_badge stat
    else other

abbrev absent_badge : Bool → Badge
absent_badge enabled = record { label = if enabled then codes "未运行" else codes "未启用"; tone = muted }

unfoldable pub instance_state_badge : Option InstanceStats → Bool → Badge
instance_state_badge none enabled = absent_badge enabled
instance_state_badge (some stat) enabled =
    if is_empty stat.state then absent_badge enabled else state_badge stat

unfoldable pub action_label : Text → Text
action_label verb =
    if verb === codes "start"
    then codes "启动"
    else if verb === codes "stop"
    then codes "停止"
    else if verb === codes "restart"
    then codes "重启"
    else if verb === codes "recreate"
    then codes "重建"
    else verb

unfoldable pub instance_key : ℕ → Text → Text
instance_key node_id name = decimal node_id ++ codes ":" ++ name

-- `NodeInstanceHealth`
pub record NodeHealth : Type 0 where
  pub total : ℕ
  pub running : ℕ
  pub stopped : ℕ
  pub error : ℕ
  pub disabled : ℕ

abbrev pub no_health : NodeHealth
no_health = record { total = 0; running = 0; stopped = 0; error = 0; disabled = 0 }

unfoldable pub count_instance : InstanceTone → Bool → NodeHealth → NodeHealth
count_instance tone enabled health =
    let counted = record health {
      total = health.total + 1;
      disabled = if enabled then health.disabled else health.disabled + 1;
    } in
    elim tone [
      | success ↦ record counted { running = counted.running + 1 }
      | danger ↦ record counted { error = counted.error + 1 }
      | warning ↦ record counted { stopped = counted.stopped + 1 }
      | muted ↦ record counted { stopped = counted.stopped + 1 }
    ]

abbrev pub tone_of : List (Text × InstanceStats) → InstanceRef → InstanceTone
tone_of stats item =
    (instance_state_badge (get (instance_key item.node_id item.name) stats) item.enabled).tone

-- `nodeHealthById`, from what is counted so far.
unfoldable pub node_health :
    List (Text × InstanceStats) → List InstanceRef → List (ℕ × NodeHealth) → List (ℕ × NodeHealth)
node_health stats [] by_node = by_node
node_health stats (item ∷ items) by_node = node_health stats items (
    put item.node_id
      (count_instance (tone_of stats item) item.enabled
        (or_else (get item.node_id by_node) no_health))
      by_node)

-- What `loadSummary` reads of the two answers; an empty `runtime` is `none`.
pub record Node : Type 0 where
  pub id : ℕ
  pub name : Text
  pub uuid : Text
  pub status : Text
  pub online : Bool
  pub last_seen_at : Option Text
  pub created_at : Text
  pub updated_at : Text

pub record SummaryNode : Type 0 where
  pub id : ℕ
  pub name : Text
  pub uuid : Text
  pub status : Text
  pub last_seen_at : Option Text
  pub error : Option Text
  pub total : ℕ
  pub running : ℕ
  pub stopped : ℕ
  pub error_count : ℕ

pub record SummaryItem : Type 0 where
  pub name : Text
  pub node_id : Option ℕ
  pub node_name : Option Text
  pub enabled : Bool
  pub runtime : Option InstanceStats

pub record Counts : Type 0 where
  pub total : ℕ
  pub running : ℕ
  pub stopped : ℕ
  pub error : ℕ

pub record SummaryResponse : Type 0 where
  pub nodes : List SummaryNode
  pub instances : List SummaryItem
  pub counts : Counts
  pub docker_available : Bool
  pub docker_error : Option Text

unfoldable pub summary_by_id : List SummaryNode → List (ℕ × SummaryNode) → List (ℕ × SummaryNode)
summary_by_id [] m = m
summary_by_id (x ∷ xs) m = summary_by_id xs (put x.id x m)

unfoldable pub merge_node : List (ℕ × SummaryNode) → Node → Node
merge_node summaries node = elim (get node.id summaries) [
  | none ↦ node
  | some x ↦ record node {
    status = x.status;
    online = x.status === codes "online";
    last_seen_at = x.last_seen_at;
  }
]

unfoldable pub instance_of : SummaryItem → InstanceRef
instance_of item = record {
  name = item.name;
  node_id = or_else item.node_id 0;
  node_name = elim item.node_name [
    | none ↦ codes "本机"
    | some name ↦ if is_empty name then codes "本机" else name
  ];
  enabled = item.enabled;
}

abbrev pub add_stat :
    Text → Option InstanceStats → List (Text × InstanceStats) → List (Text × InstanceStats)
add_stat key none m = m
add_stat key (some runtime) m = put key runtime m

unfoldable pub stat_map :
    List SummaryItem → List (Text × InstanceStats) → List (Text × InstanceStats)
stat_map [] m = m
stat_map (item ∷ items) m =
    stat_map items (add_stat (instance_key (or_else item.node_id 0) item.name) item.runtime m)

-- `STATS_HISTORY_LEN`
unfoldable pub stats_history_len : ℕ
stats_history_len = 12

-- `points.slice(-STATS_HISTORY_LEN)`
unfoldable pub recent : {A : Type 0} → List A → List A
recent points = drop (length points - stats_history_len) points

unfoldable pub remove_percent : Text → Text
remove_percent [] = []
remove_percent (c ∷ s) = if c == b'%' then s else c ∷ remove_percent s

-- `parse_float` stands for `Number.parseFloat`, where `none` is a result that is not finite.
module _ {Num : Type 0} (zero_num : Num) (parse_float : Text → Option Num) where
  unfoldable pub parse_percent : Text → Num
  parse_percent value =
      if is_empty value
      then zero_num
      else or_else (parse_float (trim (remove_percent value))) zero_num

  -- A `StatsPoint` is the pair of the processor's and the memory's load.
  unfoldable pub stats_history :
      List (Text × InstanceStats) → List (Text × List (Num × Num)) → List (Text × List (Num × Num))
  stats_history [] prev = []
  stats_history ((key, stat) ∷ stats) prev =
      (
        key,
        recent (
            or_else (get key prev) []
            ++ (parse_percent stat.cpu_percent, parse_percent stat.mem_percent) ∷ []),
      )
      ∷ stats_history stats prev

pub record ConsoleState (Num : Type 0) : Type 0 where
  pub nodes : List Node
  pub instances : List InstanceRef
  pub summary_loading : Bool
  pub summary_loaded : Bool
  pub summary_error : Text
  pub stats : List (Text × InstanceStats)
  pub history : List (Text × List (Num × Num))
  pub counts : Counts
  pub docker_available : Bool
  pub docker_error : Text
  pub pending_action : List (Text × Text)

module _ {Num : Type 0} (zero_num : Num) (parse_float : Text → Option Num) where
  unfoldable pub summary_start : ConsoleState Num → ConsoleState Num
  summary_start s = record s { summary_loading = true }

  -- `loadSummary` behind its `await`; `none` is a failure of either call.
  unfoldable pub summary_answer :
      Option (List Node × SummaryResponse) → ConsoleState Num → ConsoleState Num
  summary_answer none s = record s {
    docker_error = codes "无法访问 /api/summary；显示上次成功的数据";
    summary_error = codes "无法访问 /api/summary；显示上次成功的数据";
    summary_loaded = true;
    summary_loading = false;
  }
  summary_answer (some (node_list, response)) s =
      let stats = stat_map response.instances [] in
      record s {
        nodes = map (merge_node (summary_by_id response.nodes [])) node_list;
        instances = map instance_of response.instances;
        stats = stats;
        history = stats_history zero_num parse_float stats s.history;
        counts = response.counts;
        docker_available = response.docker_available;
        docker_error = or_else response.docker_error [];
        summary_error = [];
        summary_loaded = true;
        summary_loading = false;
      }

  -- `setPendingAction` at the start and in the `finally` of `action`, `patchInstance` and
  -- `deleteInstance`.
  unfoldable pub action_start : InstanceRef → Text → ConsoleState Num → ConsoleState Num
  action_start item verb s = record s {
    pending_action = put (instance_key item.node_id item.name) verb s.pending_action;
  }

  unfoldable pub action_end : InstanceRef → ConsoleState Num → ConsoleState Num
  action_end item s = record s {
    pending_action = delete (instance_key item.node_id item.name) s.pending_action;
  }

  -- The verbs of `patchInstance`, by whether the patch has `enabled`, and of `deleteInstance`.
  unfoldable pub patch_start : InstanceRef → Option Bool → ConsoleState Num → ConsoleState Num
  patch_start item enabled =
      action_start item (if is_some enabled then codes "toggle" else codes "patch")

  unfoldable pub delete_start : InstanceRef → ConsoleState Num → ConsoleState Num
  delete_start item = action_start item (codes "delete")

-- An entry of `nodeSystems`: the information of a node or an error.
pub data NodeSystem (S : Type 0) : Type 0 where
  system_info : S → NodeSystem S
  system_error : Text → NodeSystem S

abbrev pub is_online : Node → Bool
is_online node = node.online || node.status === codes "online"

-- The effect that loads them, where `ask` gives what `nodesApi.system` answers for a node: its
-- information or the message of its error, if it has one. `area` is `instanceArea`.
module _ {S : Type 0} (ask : ℕ → S ⊎ Option Text) where
  unfoldable pub node_system : Node → NodeSystem S
  node_system node =
      if not (is_online node) then system_error (codes "节点未在线") else elim (ask node.id) [
        | inl info ↦ system_info info
        | inr message ↦ system_error (or_else message (codes "节点系统信息不可达"))
      ]

  unfoldable pub put_systems : List Node → List (ℕ × NodeSystem S) → List (ℕ × NodeSystem S)
  put_systems [] m = m
  put_systems (node ∷ nodes) m = put_systems nodes (put node.id (node_system node) m)

  unfoldable pub load_node_systems : Bool → List Node → List (ℕ × NodeSystem S)
  load_node_systems area nodes = if area then put_systems nodes [] else []
