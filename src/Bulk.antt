-- ===== src/Bulk.antt =====
-- webui/frontend/src/pages/probe/useServerBulk.ts: bulk jobs over a frozen selection, submitted under
-- an idempotency key that survives a failed call. Each asynchronous function is cut at its `await`s. A
-- payload is the text that `JSON.stringify` makes of it, by which the source compares payloads.
-- The id of a job is not the empty text.
pub mod Tests
pub mod Keys
use Prim.Native.Nat.{ℕ, ◌+◌}
use mathlib.Core.Bool.{Bool, true, false, not, ◌&&◌}
use mathlib.Core.Option.{Option, none, some}
use mathlib.Core.List.{List, [], ◌∷◌, ◌++◌}
use native.Mathlib.Omega.{arith}
pub use frpc_multi.Base.Answers.{Answer, answered, refused}
use frpc_multi.Base.Tests.{◌==◌, if◌then◌else◌, or_else, is_some}
use frpc_multi.Base.Lists.{length}
use native.Mathlib.Decide.{ℕ_discrete}
use frpc_multi.Base.Text.{Text, codes, ◌===◌, trim}
use frpc_multi.Servers.Query.{ServerQuery, ServerConn, TagMode, nonempty}

pub data SelectionState : Type 0 where
  queued building ready failed expired : SelectionState

-- `ServerSelection` of lib/types.ts.
pub record ServerSelection : Type 0 where
  pub selection_id : Text
  pub state : SelectionState
  pub count : ℕ
  pub processed : ℕ
  pub created_at : Text
  pub updated_at : Text
  pub expires_at : Text
  pub error : Option Text

pub data Operation : Type 0 where
  update delete : Operation

pub data JobState : Type 0 where
  queued running done partial failed : JobState

-- `ServerBulkJob`, `ServerBulkFailure`.
pub record BulkJob : Type 0 where
  pub job_id : Text
  pub selection_id : Text
  pub operation : Operation
  pub state : JobState
  pub total : ℕ
  pub processed : ℕ
  pub succeeded : ℕ
  pub failed_count : ℕ
  pub created_at : Text
  pub updated_at : Text
  pub error : Option Text
  pub retry_of : Option Text

pub record BulkFailure : Type 0 where
  pub server_id : ℕ
  pub ip : Text
  pub error : Text

-- `PendingSubmission`.
pub record Pending : Type 0 where
  pub selection_id : Text
  pub operation : Operation
  pub payload : Text
  pub idempotency_key : Text
  pub ids : Option (List ℕ)
  pub retry_job_id : Option Text

pub record BulkState : Type 0 where
  pub selection : Option ServerSelection
  pub job : Option BulkJob
  pub failures : List BulkFailure
  pub failure_cursor : Option ℕ
  pub pending : Option Pending
  pub error : Option Text
  pub failures_loaded_for : Option Text

-- `serverSelectionFilters`; `none` is an absent property.
pub record SelectionFilters : Type 0 where
  pub q : Text
  pub group : Option Text
  pub label : Option Text
  pub group_ids : Option (List Text)
  pub tag_id : Option Text
  pub include_tag_ids : Option (List Text)
  pub exclude_tag_ids : Option (List Text)
  pub tag_mode : Option TagMode
  pub conn : ServerConn

-- a list that has members
abbrev pub listed : Option (List Text) → Option (List Text)
listed none = none
listed (some xs) = nonempty xs

unfoldable pub server_selection_filters : ServerQuery → SelectionFilters
server_selection_filters query = record {
  q = trim (or_else query.q []);
  group = query.group;
  label = query.label;
  group_ids = listed query.group_ids;
  tag_id = query.tag_id;
  include_tag_ids = listed query.include_tag_ids;
  exclude_tag_ids = listed query.exclude_tag_ids;
  tag_mode = query.tag_mode;
  conn = query.conn;
}

-- `freezeAllMatching` behind its `await`.
unfoldable pub freeze_answer : Answer ServerSelection → BulkState → BulkState
freeze_answer (answered next) s = record s { selection = some next; error = none }
freeze_answer (refused message) s = record s { error = some (or_else message (codes "创建选择快照失败")) }

unfoldable pub same_operation : Operation → Operation → Bool
same_operation update update = true
same_operation delete delete = true
same_operation _ _ = false

unfoldable pub same_list : List ℕ → List ℕ → Bool
same_list [] [] = true
same_list (a ∷ xs) (b ∷ ys) = a == b && same_list xs ys
same_list _ _ = false

abbrev pub same_ids : Option (List ℕ) → Option (List ℕ) → Bool
same_ids none none = true
same_ids (some xs) (some ys) = same_list xs ys
same_ids _ _ = false

-- The arguments of `submit`.
pub record Submission : Type 0 where
  pub operation : Operation
  pub payload : Text
  pub ids : Option (List ℕ)

-- `pendingMatches`, with the pending submission that matches.
unfoldable pub pending_match : Option Pending → Submission → Option Pending
pending_match none a = none
pending_match (some p) a =
    if not (is_some p.retry_job_id)
      && same_operation p.operation a.operation
      && p.payload === a.payload
      && same_ids p.ids a.ids
    then some p
    else none

-- The stand-in for the selection of a pending submission with ids.
abbrev pub ready_selection : Text → List ℕ → ServerSelection
ready_selection id ids = record {
  selection_id = id;
  state = ready;
  count = length ids;
  processed = length ids;
  created_at = [];
  updated_at = [];
  expires_at = [];
  error = none;
}

-- The first half of `submit`: the selection to use, or the ids for which one has to be created.
pub data Target : Type 0 where
  use_selection : Option ServerSelection → Target
  create_selection : List ℕ → Target

unfoldable pub submit_target : Submission → BulkState → Target
submit_target a s = elim a.ids [
  | none ↦ use_selection s.selection
  | some ids ↦ elim (pending_match s.pending a) [
    | some p ↦ use_selection (some (ready_selection p.selection_id ids))
    | none ↦ create_selection ids
  ]
]

-- A request to create a bulk job, or the exception that the selection is not ready.
pub data Sent : Type 0 where
  not_ready : Sent
  sent : Pending → Sent

abbrev pub is_ready : SelectionState → Bool
is_ready ready = true
is_ready _ = false

-- `isSame ? pending : { … }`
unfoldable pub request_for : Submission → Text → Text → Option Pending → Pending
request_for a selection_id key match_found =
    let fresh : Pending = record {
      selection_id = selection_id;
      operation = a.operation;
      payload = a.payload;
      idempotency_key = key;
      ids = a.ids;
      retry_job_id = none;
    } in
    elim match_found [
      | none ↦ fresh
      | some p ↦ if p.selection_id === selection_id then p else fresh
    ]

-- The second half of `submit`, up to `createServerBulkJob`; `pendingMatches` was computed before the
-- selection was created.
unfoldable pub submit_with :
    Submission → Text → Option Pending → Option ServerSelection → BulkState → Sent × BulkState
submit_with a key match_found target s = elim target [
  | none ↦ (not_ready, s)
  | some selection ↦
      let request = request_for a selection.selection_id key match_found in
      if is_ready selection.state
      then (sent request, record s { pending = some request; error = none })
      else (not_ready, s)
]

-- `target`, where `created` is the selection that `createServerSelection` answers.
unfoldable pub target_of : Option ServerSelection → Target → Option ServerSelection
target_of created (use_selection t) = t
target_of created (create_selection ids) = created

-- `submit` up to `createServerBulkJob`.
unfoldable pub submit_start :
    Submission → Option ServerSelection → Text → BulkState → Sent × BulkState
submit_start a created key s =
    submit_with a key (pending_match s.pending a) (target_of created (submit_target a s)) s

-- Behind the `await` of `submit`.
unfoldable pub submit_answer : Answer BulkJob → BulkState → BulkState
submit_answer (answered next) s = record s {
  pending = none;
  job = some next;
  failures = [];
  failure_cursor = none;
}
submit_answer (refused message) s = record s { error = some (or_else message (codes "提交批量任务失败")) }

-- `pending?.retryJobId === job.jobId ? pending : { … }`
unfoldable pub retry_request : Text → BulkJob → Option Pending → Pending
retry_request key job pending =
    let fresh : Pending = record {
      selection_id = job.selection_id;
      operation = job.operation;
      payload = codes "{}";
      idempotency_key = key;
      ids = none;
      retry_job_id = some job.job_id;
    } in
    elim pending [
      | none ↦ fresh
      | some p ↦ elim p.retry_job_id [
        | none ↦ fresh
        | some id ↦ if id === job.job_id then p else fresh
      ]
    ]

-- `retryFailed` up to its `await`.
unfoldable pub retry_failed_start : Text → BulkState → Option Pending × BulkState
retry_failed_start key s = elim s.job [
  | none ↦ (none, s)
  | some job ↦
      let request = retry_request key job s.pending in
      (some request, record s { pending = some request; error = none })
]

unfoldable pub retry_failed_answer : Answer BulkJob → BulkState → BulkState
retry_failed_answer (answered next) s = record s {
  pending = none;
  job = some next;
  failures = [];
  failure_cursor = none;
}
retry_failed_answer (refused message) s = record s {
  error = some (or_else message (codes "重试失败项提交失败"));
}

-- What `retryPending` starts: nothing, the retry of a job's failures, or `submit`.
pub data Retrying : Type 0 where
  nothing : Retrying
  failures_of : (job_id key : Text) → Retrying
  submission : Submission → Retrying

unfoldable pub retry_pending : BulkState → Retrying
retry_pending s = elim s.pending [
  | none ↦ nothing
  | some p ↦ elim p.retry_job_id [
    | some id ↦ failures_of id p.idempotency_key
    | none ↦ submission (record { operation = p.operation; payload = p.payload; ids = p.ids })
  ]
]

-- `retryPending` on a retry of failures, behind its `await`; it also clears the error.
unfoldable pub retry_pending_answer : Answer BulkJob → BulkState → BulkState
retry_pending_answer (answered next) s = record s {
  pending = none;
  job = some next;
  failures = [];
  failure_cursor = none;
  error = none;
}
retry_pending_answer (refused message) s = record s {
  error = some (or_else message (codes "重试失败项提交失败"));
}

-- The effect that loads the failures of a finished job: whether it asks for them, and its result.
abbrev is_finished : JobState → Bool
is_finished done = true
is_finished partial = true
is_finished failed = true
is_finished _ = false

abbrev same_text : Option Text → Text → Bool
same_text none x = false
same_text (some y) x = y === x

unfoldable pub load_failures_start : Bool → BulkState → Bool × BulkState
load_failures_start active s = elim s.job [
  | none ↦ (false, s)
  | some job ↦
      if active && is_finished job.state && not (same_text s.failures_loaded_for job.job_id)
      then (true, record s { failures_loaded_for = some job.job_id })
      else (false, s)
]

unfoldable pub load_failures_answer : Answer (List BulkFailure × Option ℕ) → BulkState → BulkState
load_failures_answer (answered result) s = record s {
  failures = result.0;
  failure_cursor = result.1;
}
load_failures_answer (refused message) s = record s {
  failures_loaded_for = none;
  error = some (or_else message (codes "失败明细读取失败"));
}

-- `refreshSelection` and `refreshJob` behind their `await`s, as the poll calls them.
unfoldable pub refresh_selection_answer : Answer ServerSelection → BulkState → BulkState
refresh_selection_answer (answered next) s = record s { selection = some next }
refresh_selection_answer (refused message) s = record s {
  error = some (or_else message (codes "选择快照状态读取失败"));
}

unfoldable pub refresh_job_answer : Answer BulkJob → BulkState → BulkState
refresh_job_answer (answered next) s = record s { job = some next }
refresh_job_answer (refused message) s = record s {
  error = some (or_else message (codes "批量任务状态读取失败"));
}

-- `loadMoreFailures` behind its `await`.
unfoldable pub load_more_answer : List BulkFailure → Option ℕ → BulkState → BulkState
load_more_answer items next s = record s { failures = s.failures ++ items; failure_cursor = next }

unfoldable pub clear_selection : BulkState → BulkState
clear_selection s = record s {
  selection = none;
  job = none;
  failures = [];
  failure_cursor = none;
  pending = none;
  error = none;
}
