-- ===== src/Pages/TestNodes.antt =====
-- webui/frontend/src/pages/TestNodesPage.tsx: the nodes that run tests, their order of primary and
-- backups as a draft, the policy that is read and saved, and the history of transfers. An asynchronous
-- function is cut at its `await`s. `index` is a position of the list that is shown.
pub mod Laws
pub mod Steps
pub mod Tests
use frpc_multi.Base.Exchange.{exchange}
use frpc_multi.Base.Answers.{Answer, answered, refused}
use frpc_multi.Base.Assoc.{text_eq, contains}
use frpc_multi.Base.Decimal.{decimal}
use frpc_multi.Base.Text.{Text, codes, ◌===◌}
use Prim.Native.Nat.{ℕ, ◌+◌, ◌-◌}
use mathlib.Core.Bool.{Bool, true, false, not, ◌&&◌, ◌||◌}
use mathlib.Core.Option.{Option, none, some}
use mathlib.Core.List.{List, [], ◌∷◌, ◌++◌, map}
use native.Mathlib.Omega.{arith}
use frpc_multi.Base.Tests.{ltb, ◌==◌, if◌then◌else◌, or_else}
use frpc_multi.Base.Lists.{length, is_empty, all, filter}

pub data TestNodeKind : Type 0 where
  console worker legacy : TestNodeKind

pub record TestNode : Type 0 where
  pub id : Text
  pub name : Text
  pub kind : TestNodeKind
  pub version : Text
  pub capabilities : List Text
  pub protocol_features : Option (List Text)
  pub online : Bool
  pub last_seen : Option Text
  pub created_at : Text
  pub token_masked : Text
  pub install_command : Text

-- `ProbeFailover`.
pub record Failover : Type 0 where
  pub id : ℕ
  pub task_id : Text
  pub job_id : Text
  pub from_node_id : Text
  pub to_node_id : Text
  pub generation : ℕ
  pub reason : Text
  pub transferred_at : Text

-- `TestNodeExecutionPolicy`.
pub record Policy : Type 0 where
  pub configured : Bool
  pub primary_node_id : Option Text
  pub backup_node_ids : List Text
  pub suggested_primary_node_id : Option Text

-- A page of `failoversPage`.
pub record FailoverPage : Type 0 where
  pub items : List Failover
  pub total : ℕ

pub record TestNodesState : Type 0 where
  pub nodes : List TestNode
  pub failovers : List Failover
  pub failover_page : ℕ
  pub failover_total : ℕ
  pub failover_error : Text
  pub failover_loading : Bool
  pub error : Text
  pub policy_error : Text
  pub dialog_open : Bool
  pub primary_node_id : Text
  pub backup_node_ids : List Text
  pub suggested_primary_node_id : Option Text
  pub policy_configured : Option Bool
  pub policy_loaded : Bool
  pub saving : Bool
  pub notice : Text
  pub dirty : Bool
  pub saving_ref : Bool
  pub policy_request_revision : ℕ
  pub failover_request_revision : ℕ

unfoldable pub initial_state : TestNodesState
initial_state = record {
  nodes = [];
  failovers = [];
  failover_page = 1;
  failover_total = 0;
  failover_error = [];
  failover_loading = true;
  error = [];
  policy_error = [];
  dialog_open = false;
  primary_node_id = [];
  backup_node_ids = [];
  suggested_primary_node_id = none;
  policy_configured = none;
  policy_loaded = false;
  saving = false;
  notice = [];
  dirty = false;
  saving_ref = false;
  policy_request_revision = 0;
  failover_request_revision = 0;
}

abbrev pub required_capabilities : List Text
required_capabilities = codes "discover" ∷ codes "route" ∷ codes "connectivity" ∷ codes "speed" ∷ []

abbrev is_worker : TestNodeKind → Bool
is_worker worker = true
is_worker _ = false

unfoldable pub is_eligible_role_node : TestNode → Bool
is_eligible_role_node node =
    is_worker node.kind && all (λ c. contains c node.capabilities) required_capabilities

-- `load` behind its `await`.
unfoldable pub nodes_answer : Answer (List TestNode) → TestNodesState → TestNodesState
nodes_answer (answered items) s = record s { nodes = items; error = [] }
nodes_answer (refused message) s = record s { error = or_else message (codes "测试节点加载失败") }

unfoldable pub apply_policy : Policy → Bool → TestNodesState → TestNodesState
apply_policy policy preserve_draft s =
    let shown = record s {
      policy_error = [];
      policy_loaded = true;
      policy_configured = some policy.configured;
    } in
    let suggested = if policy.configured then none else policy.suggested_primary_node_id in
    if preserve_draft && s.dirty then shown else record shown {
      suggested_primary_node_id = suggested;
      primary_node_id = or_else policy.primary_node_id (or_else suggested []);
      backup_node_ids = policy.backup_node_ids;
      dirty = false;
    }

-- `loadPolicy` up to its `await`, with the revision of the call.
unfoldable pub policy_start : TestNodesState → ℕ × TestNodesState
policy_start s =
    let revision = s.policy_request_revision + 1 in
    (revision, record s { policy_request_revision = revision })

-- `loadPolicy` behind its `await`, with what it returns.
unfoldable pub policy_answer : ℕ → Bool → Answer Policy → TestNodesState → Bool × TestNodesState
policy_answer revision preserve_draft (answered policy) s =
    if revision == s.policy_request_revision
    then (true, apply_policy policy preserve_draft s)
    else (false, s)
policy_answer revision preserve_draft (refused message) s =
    if revision == s.policy_request_revision
    then (
      false,
      record s { policy_loaded = true; policy_error = or_else message (codes "主备测试策略加载失败") },
    )
    else (false, s)

-- `loadFailovers` up to its `await`, and the effect's cleanup.
unfoldable pub failovers_start : TestNodesState → ℕ × TestNodesState
failovers_start s =
    let revision = s.failover_request_revision + 1 in
    (revision, record s { failover_request_revision = revision; failover_loading = true })

unfoldable pub failovers_leave : TestNodesState → TestNodesState
failovers_leave s = record s { failover_request_revision = s.failover_request_revision + 1 }

abbrev failovers_handle : Answer FailoverPage → TestNodesState → TestNodesState
failovers_handle (answered result) s = record s {
  failovers = result.items;
  failover_total = result.total;
  failover_error = [];
}
failovers_handle (refused message) s = record s {
  failover_error = or_else message (codes "任务转移历史加载失败");
}

-- `loadFailovers` behind its `await`.
unfoldable pub failovers_answer : ℕ → Answer FailoverPage → TestNodesState → TestNodesState
failovers_answer revision a s =
    if revision == s.failover_request_revision
    then record (failovers_handle a s) { failover_loading = false }
    else s

unfoldable pub eligible_nodes : List TestNode → List TestNode
eligible_nodes nodes = filter is_eligible_role_node nodes

-- The memo of `orderedBackupIds`, over what it depends on: `eligibleIds`, `savedOrder` and the result.
unfoldable pub eligible_ids : List TestNode → Text → List Text
eligible_ids nodes primary =
    map (λ (node : TestNode). node.id)
      (filter (λ (node : TestNode). not (node.id === primary)) (eligible_nodes nodes))

unfoldable pub saved_order : List TestNode → Text → List Text → List Text
saved_order nodes primary backups =
    filter (λ id. not (id === primary) && contains id (eligible_ids nodes primary)) backups

unfoldable pub ordered_ids : List TestNode → Text → List Text → List Text
ordered_ids nodes primary backups =
    saved_order nodes primary backups
    ++ filter (λ id. not (contains id (saved_order nodes primary backups)))
        (eligible_ids nodes primary)

abbrev pub ordered_backup_ids : TestNodesState → List Text
ordered_backup_ids s = ordered_ids s.nodes s.primary_node_id s.backup_node_ids

unfoldable pub mark_dirty : TestNodesState → TestNodesState
mark_dirty s = record s { dirty = true; notice = [] }

unfoldable pub choose_primary : Text → TestNodesState → TestNodesState
choose_primary node_id s = record (mark_dirty s) {
  primary_node_id = node_id;
  backup_node_ids = filter (λ id. not (id === node_id)) s.backup_node_ids;
}

-- `-1` and `1`
pub data Offset : Type 0 where
  up down : Offset

-- the position that `moveBackup` exchanges with, if it is in range
unfoldable pub next_index : ℕ → Offset → ℕ → Option ℕ
next_index index up n =
    if index == 0 then none else if ltb (index - 1) n then some (index - 1) else none
next_index index down n = if ltb (index + 1) n then some (index + 1) else none

-- `moveBackup` behind its test
unfoldable pub move_to : Option ℕ → ℕ → TestNodesState → TestNodesState
move_to none index s = s
move_to (some next) index s = record (mark_dirty s) {
  backup_node_ids = exchange index next (ordered_backup_ids s);
}

unfoldable pub move_backup : ℕ → Offset → TestNodesState → TestNodesState
move_backup index offset s =
    move_to (next_index index offset (length (ordered_backup_ids s))) index s

-- `savePolicy` up to its first `await`, with the arguments of `saveExecutionPolicy`.
unfoldable pub save_start : TestNodesState → Option (Text × List Text) × TestNodesState
save_start s =
    let begun = record s {
      saving_ref = true;
      policy_request_revision = s.policy_request_revision + 1;
      saving = true;
      notice = [];
    } in
    if is_empty s.primary_node_id || s.saving_ref
    then (none, s)
    else (some (s.primary_node_id, ordered_backup_ids s), begun)

abbrev save_end : TestNodesState → TestNodesState
save_end s = record s { saving_ref = false; saving = false }

-- Between the two `await`s: a saved policy is read back, under the revision given.
unfoldable pub save_answer : Answer Policy → TestNodesState → Option ℕ × TestNodesState
save_answer (answered saved) s =
    let applied = record (apply_policy saved false s) { notice = codes "主备测试策略已保存。" } in
    let (revision, reading) = policy_start applied in (some revision, reading)
save_answer (refused message) s =
    (none, save_end (record s { policy_error = or_else message (codes "主备测试策略保存失败") }))

-- `savePolicy` behind its second `await`.
unfoldable pub save_refreshed : ℕ → Answer Policy → TestNodesState → TestNodesState
save_refreshed revision a s =
    let (ok, read) = policy_answer revision false a s in
    let failed = record read { notice = codes "主备测试策略已保存；状态刷新失败，请重试读取。" } in
    save_end (if ok then read else failed)

-- the place of a text in a list
unfoldable pub position : Text → List Text → Option ℕ
position id [] = none
position id (x ∷ xs) =
    let rest = position id xs in
    if x === id then some 0 else elim rest [ none ↦ none | some i ↦ some (i + 1) ]

unfoldable pub role_for : Text → TestNodesState → Text
role_for node_id s =
    if node_id === s.primary_node_id
    then codes "主用"
    else elim (position node_id s.backup_node_ids) [
      | none ↦ []
      | some index ↦ codes "备用 " ++ decimal (index + 1)
    ]

unfoldable pub supports_task_generation : TestNode → Bool
supports_task_generation node = elim node.protocol_features [
  | none ↦ false
  | some features ↦ contains (codes "task-generation-v1") features
]

unfoldable pub failover_reason : Text → Text
failover_reason reason =
    if reason === codes "lease_expired_owner_offline"
    then codes "主用节点离线且任务租约到期"
    else if reason === codes "owner_protocol_feature_lost"
    then codes "主用节点未声明所需协议能力"
    else if reason === codes "pending_owner_offline"
    then codes "主用节点离线时转移待处理任务"
    else reason
