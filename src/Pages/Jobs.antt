-- ===== src/Pages/Jobs.antt =====
-- webui/frontend/src/pages/probe/ProbeJobsPanel.tsx: the panel of the batches: its list, the batch that
-- is watched, and the actions on tasks. `J` is a row of the list. The object that owns a watched page
-- is known by a number: another batch or page has another owner. `signature` is the text that the panel
-- makes of the counts and the progress of a batch.
pub mod Groups
pub mod Laws
pub mod Tests
use frpc_multi.Base.Text.{Text, ◌===◌, codes, join}
use frpc_multi.Base.Answers.{Answer, answered, refused}
use frpc_multi.Base.Assoc.{text_eq, delete, contains, distinct}
use frpc_multi.Base.Decimal.{decimal}
use frpc_multi.Discovery.{last_page}
use frpc_multi.Servers.Query.{Params, set_or_delete}
use frpc_multi.Pages.TestNodes.{TestNode}
use Prim.Native.Nat.{ℕ, ◌+◌, ◌-◌, ◌/◌}
use mathlib.Core.Bool.{Bool, true, false, not, ◌&&◌, ◌||◌}
use mathlib.Core.Option.{Option, none, some}
use mathlib.Core.List.{List, [], ◌∷◌, ◌++◌, map}
use native.Mathlib.Omega.{arith}
use frpc_multi.Base.Tests.{ltb, ◌==◌, if◌then◌else◌, or_else, is_some}
use frpc_multi.Base.Lists.{is_empty, filter}

pub data TaskState : Type 0 where
  pending running cancelling done failed skipped stopped : TaskState

-- The values of `progress` that are texts or numbers.
pub record TaskProgress : Type 0 where
  pub step : Option Text
  pub text : Option Text
  pub message : Option Text
  pub scanned : ℕ
  pub found_count : ℕ

-- What the panel reads of a `ProbeTask`.
pub record Task : Type 0 where
  pub task_id : Text
  pub node_id : Text
  pub stage : Text
  pub state : TaskState
  pub progress : TaskProgress

pub record StageCount : Type 0 where
  pub node_id : Text
  pub stage : Text
  pub state : TaskState
  pub count : ℕ

pub data ProducerState : Type 0 where
  queued active waiting ended : ProducerState

-- `targetProducer`; a state that is not queued, running or waiting is `ended`.
pub record Producer : Type 0 where
  pub state : ProducerState
  pub failover_waiting : Bool

-- What the panel reads of a `ProbeJobDetail`.
pub record JobDetail : Type 0 where
  pub id : Text
  pub is_running : Bool
  pub counts : List (TaskState × ℕ)
  pub task_total : ℕ
  pub target_total : Option ℕ
  pub target_materialized : Option ℕ
  pub target_remaining : Option ℕ
  pub target_producer : Option Producer
  pub stage_counts : List StageCount
  pub tasks : List Task
  pub page : ℕ
  pub page_size : ℕ
  pub filtered_task_total : Option ℕ
  pub failover_waiting_count : Option ℕ

pub record JobPage (J : Type 0) : Type 0 where
  pub items : List J
  pub total : ℕ

pub record Panel (J : Type 0) : Type 0 where
  pub jobs : List J
  pub list_total : ℕ
  pub job_id : Text
  pub loaded_detail : Option JobDetail
  pub page : ℕ
  pub selected : List Text
  pub error : Text
  pub busy : Bool
  pub loading : Bool
  pub previous : Text
  pub request_id : ℕ
  pub mounted : Bool
  pub pending_action : Option ℕ
  pub owner : ℕ

unfoldable pub state_name : TaskState → Text
state_name pending = codes "待执行"
state_name running = codes "执行中"
state_name cancelling = codes "收尾中"
state_name done = codes "完成"
state_name failed = codes "失败"
state_name skipped = codes "已跳过"
state_name stopped = codes "已停止"

unfoldable pub is_active : Task → Bool
is_active task = elim task.state [ pending ↦ true | running ↦ true | _ ↦ false ]

unfoldable pub retryable : Task → Bool
retryable task = elim task.state [ failed ↦ true | skipped ↦ true | stopped ↦ true | _ ↦ false ]

abbrev given_texts : List (Option Text) → List Text
given_texts [] = []
given_texts (none ∷ ts) = given_texts ts
given_texts (some t ∷ ts) = if is_empty t then given_texts ts else t ∷ given_texts ts

unfoldable pub progress_text : Task → Text
progress_text task =
    let values = task.progress in
    let scan =
      codes "已扫描 " ++ decimal values.scanned ++ codes " · 命中 " ++ decimal values.found_count in
    let parts =
      join (codes " · ") (given_texts (values.step ∷ values.text ∷ values.message ∷ [])) in
    if task.stage === codes "discover"
    then scan
    else if is_empty parts
    then codes "等待阶段更新"
    else parts

unfoldable pub error_name : Text → Text
error_name error =
    if error === codes "dependency"
    then codes "等待连通性通过后恢复速率阶段"
    else if error === codes "waiting for an online backup"
    then codes "等待在线备用节点接管"
    else if error === codes "skipped"
    then codes "已按指令跳过"
    else if error === codes "stopped"
    then codes "已按指令停止"
    else if error === codes "lease expired"
    then codes "节点连接超时，等待重新领取"
    else error

abbrev is_at_work : ProducerState → Bool
is_at_work ended = false
is_at_work _ = true

abbrev is_waiting : ProducerState → Bool
is_waiting waiting = true
is_waiting _ = false

unfoldable pub target_producer_progress : JobDetail → Option Text
target_producer_progress job = elim job.target_producer [
  | none ↦ none
  | some producer ↦
      let materialized = or_else job.target_materialized 0 in
      let total = or_else job.target_total 0 in
      let remaining = or_else job.target_remaining (total - materialized) in
      let front =
        if producer.failover_waiting || is_waiting producer.state
        then codes "等待备用节点接管 · "
        else [] in
      let shown =
        front
        ++ codes "目标物化 "
        ++ decimal materialized
        ++ codes "/"
        ++ decimal total
        ++ codes " · 剩余 "
        ++ decimal remaining in
      if not (is_at_work producer.state) && not producer.failover_waiting then none else some shown
]

-- `nodeName`
unfoldable pub node_name : List TestNode → Text → Text
node_name [] id = id
node_name (node ∷ nodes) id =
    let rest = node_name nodes id in
    if node.id === id then if is_empty node.name then id else node.name else rest

-- `changeFilter`, on the address
unfoldable pub change_filter_params : Text → Text → Params → Params
change_filter_params key value params = delete (codes "page") (set_or_delete key value params)

-- A call of `load`, by its owner and its number.
pub record Ticket : Type 0 where
  pub owner : ℕ
  pub generation : ℕ

-- the last page, if the page lies beyond it
abbrev pub beyond : ℕ → Option ℕ → Option ℕ
beyond page none = none
beyond page (some last) = if ltb last page then some last else none

abbrev pub is_nothing : Option (List Text) → Bool
is_nothing none = false
is_nothing (some ids) = is_empty ids

abbrev pub is_some_of : ℕ → Option ℕ → Bool
is_some_of id none = false
is_some_of id (some other) = other == id

-- The boxes of the tasks.
unfoldable pub toggle_task : Bool → Text → List Text → List Text
toggle_task checked id selected =
    let without_it = filter (λ (other : Text). not (other === id)) selected in
    if checked then if contains id selected then selected else selected ++ id ∷ [] else without_it

unfoldable pub toggle_all_tasks : Bool → List Task → List Text
toggle_all_tasks checked tasks =
    if checked then distinct (map (λ (task : Task). task.task_id) tasks) else []

unfoldable pub selected_tasks : List Task → List Text → List Task
selected_tasks tasks selected = filter (λ (task : Task). contains task.task_id selected) tasks

-- The ids of the buttons that skip and retry what is selected.
unfoldable pub skip_ids : List Task → List Text → List Text
skip_ids tasks selected =
    map (λ (task : Task). task.task_id) (filter is_active (selected_tasks tasks selected))

unfoldable pub retry_ids : List Task → List Text → List Text
retry_ids tasks selected =
    map (λ (task : Task). task.task_id) (filter retryable (selected_tasks tasks selected))

module _ {J : Type 0} where
  -- `detail`
  unfoldable pub shown_detail : Panel J → Option JobDetail
  shown_detail s = elim s.loaded_detail [
    | none ↦ none
    | some next ↦ if next.id === s.job_id && next.page == s.page then some next else none
  ]

  unfoldable pub set_page : ℕ → Panel J → Panel J
  set_page page s =
      let turned = record s { page = page; owner = s.owner + 1 } in
      if page == s.page then s else turned

  -- Another batch is watched, with the effect on it.
  unfoldable pub set_job : Text → Panel J → Panel J
  set_job id s =
      let other = record s {
        job_id = id;
        page = 1;
        owner = s.owner + 1;
        loaded_detail = none;
        selected = [];
      } in
      if id === s.job_id then s else other

  -- The buttons of the pages.
  unfoldable pub turn_page : ℕ → Panel J → Panel J
  turn_page page s = record (set_page page s) { selected = [] }

  -- The effect on `focusJobId`.
  unfoldable pub focus_job : Text → Panel J → Panel J
  focus_job id s = set_page 1 (set_job id s)

  unfoldable pub unmount : Panel J → Panel J
  unmount s = record s { mounted = false; request_id = s.request_id + 1 }

  -- The cleanup of the effect that polls.
  unfoldable pub stop_polling : Panel J → Panel J
  stop_polling s = record s { request_id = s.request_id + 1 }

  -- `load` of an owner up to its first `await`.
  unfoldable pub load_start : ℕ → Panel J → Option Ticket × Panel J
  load_start owner s =
      let generation = s.request_id + 1 in
      let ticket : Ticket = record { owner = owner; generation = generation } in
      if s.mounted && s.owner == owner
      then (some ticket, record s { request_id = generation })
      else (none, s)

  unfoldable pub is_current : Ticket → Panel J → Bool
  is_current ticket s = s.mounted && s.owner == ticket.owner && ticket.generation == s.request_id

  abbrev load_failed : Option Text → Panel J → Panel J
  load_failed message s = record s { error = or_else message (codes "批次加载失败"); loading = false }

  -- Between the `await`s, with the batch to read; `focus` is `focusJobId`, or the empty text.
  unfoldable pub list_answer : Ticket → Text → Answer (JobPage J) → Panel J → Option Text × Panel J
  list_answer ticket focus (answered list) s =
      let listed = record s { jobs = list.items; list_total = list.total } in
      let id = if is_empty focus then s.job_id else focus in
      let nothing = record listed { loaded_detail = none; error = []; loading = false } in
      if not (is_current ticket s)
      then (none, s)
      else if is_empty id
      then (none, nothing)
      else (some id, listed)
  list_answer ticket focus (refused message) s =
      (none, if is_current ticket s then load_failed message s else s)

  -- A page beyond the last one is moved there, which makes another owner.
  unfoldable pub detail_handle :
      (Text → JobDetail → Text) → Text → JobDetail → Panel J → Bool × Panel J
  detail_handle signature id next s =
      let mark = signature id next in
      let total = or_else next.filtered_task_total next.task_total in
      let shown = record s {
        previous = mark;
        loaded_detail = some next;
        error = [];
        loading = false;
      } in
      let changed = not (is_empty s.previous) && not (s.previous === mark) in
      elim (beyond s.page (last_page total next.page_size)) [
        | some last ↦ (false, record (set_page last s) { loading = false })
        | none ↦ (changed, shown)
      ]

  -- `load` behind its second `await`, with whether it calls `onChanged`.
  unfoldable pub detail_answer :
      (Text → JobDetail → Text) → Ticket → Text → Answer JobDetail → Panel J → Bool × Panel J
  detail_answer signature ticket id (answered next) s =
      if is_current ticket s then detail_handle signature id next s else (false, s)
  detail_answer signature ticket id (refused message) s =
      (false, if is_current ticket s then load_failed message s else s)

  -- `actions` of an owner up to its first `await`; `id` is the new `Symbol`.
  unfoldable pub action_start : ℕ → ℕ → Option (List Text) → Panel J → Bool × Panel J
  action_start id owner ids s =
      let begun = record s { pending_action = some id; busy = true } in
      if is_empty s.job_id
        || s.busy
        || is_some s.pending_action
        || not (is_some (shown_detail s))
        || not (s.owner == owner)
        || is_nothing ids
      then (false, s)
      else (true, begun)

  abbrev owns : ℕ → Panel J → Bool
  owns owner s = s.mounted && s.owner == owner

  -- The end of an action, which leaves another action alone.
  unfoldable pub action_end : ℕ → Panel J → Panel J
  action_end id s =
      let own = is_some_of id s.pending_action in
      let idle = record s { pending_action = none; busy = if s.mounted then false else s.busy } in
      if own then idle else s

  -- `actions` behind its call, with whether it loads again.
  unfoldable pub action_answer : ℕ → ℕ → Answer ℕ → Panel J → Bool × Panel J
  action_answer id owner (answered changed) s =
      if owns owner s then (true, record s { selected = [] }) else (false, action_end id s)
  action_answer id owner (refused message) s = (false, action_end id s)
