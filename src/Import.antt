-- ===== src/Import.antt =====
-- webui/frontend/src/pages/probe/useServerImport.ts: submitting a list of servers once, polling the
-- job, and retrying what failed. Each asynchronous function is cut at its `await`. A callback reads
-- the state of the last render, which is the state here. `stored` says whether the write to the
-- session storage, of whichever call, was accepted. A group is absent rather than empty.
pub mod Tests
pub mod Locks
pub mod Retry
use Prim.Native.Nat.{ℕ, ◌+◌}
use mathlib.Core.Bool.{Bool, true, false, not, ◌&&◌, ◌||◌}
use mathlib.Core.Option.{Option, none, some}
use mathlib.Core.List.{List, [], ◌∷◌, ◌++◌}
use native.Mathlib.Omega.{arith}
use frpc_multi.Base.Tests.{◌==◌, if◌then◌else◌, or_else, is_some}
use frpc_multi.Base.Text.{Text, codes, ◌===◌}
use frpc_multi.Base.Assoc.{text_eq, contains}

pub data JobState : Type 0 where
  queued running done partial failed : JobState

-- `ServerImportJob` of lib/types.ts.
pub record ImportJob : Type 0 where
  pub job_id : Text
  pub state : JobState
  pub total : ℕ
  pub processed : ℕ
  pub inserted : ℕ
  pub skipped : ℕ
  pub failed_count : ℕ
  pub retryable_failed : ℕ
  pub created_at : Text
  pub updated_at : Text
  pub error : Option Text

-- `ServerImportFailure`, `ServerImportFailuresPage`.
pub record ImportFailure : Type 0 where
  pub line : ℕ
  pub input : Text
  pub error : Text
  pub retryable : Bool

pub record FailuresPage : Type 0 where
  pub items : List ImportFailure
  pub next_cursor : Option Text

-- `PendingServerImport`, `PendingRetry`.
pub record PendingImport : Type 0 where
  pub text : Text
  pub group : Option Text
  pub idempotency_key : Text

pub record PendingRetry : Type 0 where
  pub job_id : Text
  pub idempotency_key : Text

unfoldable pub is_terminal : JobState → Bool
is_terminal done = true
is_terminal partial = true
is_terminal failed = true
is_terminal _ = false

unfoldable pub is_unfinished : JobState → Bool
is_unfinished queued = true
is_unfinished running = true
is_unfinished _ = false

unfoldable pub is_active : Option ImportJob → Bool
is_active none = false
is_active (some job) = is_unfinished job.state

-- The state, the references and the three stored values; `completions` counts the calls of
-- `onCompleted`.
pub record ImportState : Type 0 where
  pub job : Option ImportJob
  pub pending_request : Option PendingImport
  pub pending_retry : Option PendingRetry
  pub failures : List ImportFailure
  pub failure_cursor : Option Text
  pub loading_failures_job : Option Text
  pub failure_load_error : Option Text
  pub submitting : Bool
  pub retrying : Bool
  pub error : Option Text
  pub submission_lock : Bool
  pub retry_lock : Bool
  pub poll_locks : List Text
  pub failure_locks : List Text
  pub current_job_id : Option Text
  pub completed_job : Option Text
  pub failures_job : Option Text
  pub completions : ℕ
  pub stored_job : Option ImportJob
  pub stored_request : Option PendingImport
  pub stored_retry : Option PendingRetry

-- The result of an awaited call; a failure carries the message of an `Error`, if it is one.
pub data Answer (A : Type 0) : Type 0 where
  answered : A → Answer A
  refused : (message : Option Text) → Answer A

abbrev pub same_id : Option Text → Text → Bool
same_id none id = false
same_id (some j) id = j === id

-- `savePendingRequest(request)` and `savePendingRetry(retry)`, where the write succeeds or not.
unfoldable pub save_pending_request : Bool → Option PendingImport → ImportState → ImportState
save_pending_request stored request s =
    if stored then record s { pending_request = request; stored_request = request } else s

unfoldable pub save_pending_retry : Bool → Option PendingRetry → ImportState → ImportState
save_pending_retry stored retry s =
    if stored then record s { pending_retry = retry; stored_retry = retry } else s

unfoldable pub accept_job : ImportJob → ImportState → ImportState
accept_job next s = record s {
  current_job_id = some next.job_id;
  stored_job = some next;
  job = some next;
  failures = [];
  failure_cursor = none;
  failure_load_error = none;
  failures_job = none;
  completed_job = none;
}

abbrev pub storage_error : Text
storage_error = codes "无法保存待提交内容，请检查当前浏览器会话存储空间后重试"

-- What the call up to its `await` does: nothing, an exception, or a request to the server.
pub data Sent (R : Type 0) : Type 0 where
  ignored thrown : Sent R
  sent : R → Sent R

abbrev unresolved : ImportState → Bool
unresolved s = is_some s.pending_request || is_some s.pending_retry

unfoldable pub submit_start :
    Bool → Text → Option Text → Text → ImportState → Sent PendingImport × ImportState
submit_start stored text group key s =
    let request : PendingImport = record { text = text; group = group; idempotency_key = key } in
    let saved = save_pending_request stored (some request) s in
    if s.submission_lock || is_active s.job || unresolved s
    then (ignored, s)
    else if stored
    then (sent request, record saved { submission_lock = true; submitting = true; error = none })
    else (
      thrown,
      record s { submission_lock = false; submitting = false; error = some storage_error },
    )

unfoldable pub retry_submit_start : ImportState → Sent PendingImport × ImportState
retry_submit_start s = elim s.pending_request [
  | none ↦ (ignored, s)
  | some request ↦
      if s.submission_lock || is_active s.job || is_some s.pending_retry
      then (ignored, s)
      else (sent request, record s { submission_lock = true; submitting = true; error = none })
]

-- Behind the `await` of `submit` and of `retrySubmit`, with their `finally`.
unfoldable pub submit_answer : Bool → Answer ImportJob → ImportState → ImportState
submit_answer stored (answered next) s =
    record (accept_job next (save_pending_request stored none s)) {
      submission_lock = false;
      submitting = false;
    }
submit_answer stored (refused message) s = record s {
  error = some (or_else message (codes "提交导入任务失败"));
  submission_lock = false;
  submitting = false;
}

-- `pendingRetry?.jobId === job.jobId`
abbrev pub retry_of : Option PendingRetry → Text → Option PendingRetry
retry_of none id = none
retry_of (some retry) id = if retry.job_id === id then some retry else none

abbrev launch_retry : PendingRetry → ImportState → Sent PendingRetry × ImportState
launch_retry request s =
    (sent request, record s { retry_lock = true; retrying = true; error = none })

-- `retryFailed` for the job on display.
abbrev pub retry_job : Bool → Text → ImportJob → ImportState → Sent PendingRetry × ImportState
retry_job stored key job s =
    let fresh : PendingRetry = record { job_id = job.job_id; idempotency_key = key } in
    let kept = retry_of s.pending_retry job.job_id in
    if not (is_terminal job.state)
      || job.retryable_failed == 0
      || s.retry_lock
      || is_some s.pending_request
      || (is_some s.pending_retry && not (is_some kept))
    then (ignored, s)
    else elim kept [
      | some request ↦ launch_retry request s
      | none ↦ if stored then launch_retry fresh (save_pending_retry true (some fresh) s) else (
        ignored,
        record s {
          retry_lock = false;
          retrying = false;
          error = some (codes "无法保存失败项重试请求，请检查当前浏览器会话存储空间后重试");
        },
      )
    ]

unfoldable pub retry_failed_start : Bool → Text → ImportState → Sent PendingRetry × ImportState
retry_failed_start stored key s = elim s.job [
  | none ↦ (ignored, s)
  | some job ↦ retry_job stored key job s
]

unfoldable pub retry_failed_answer : Bool → Answer ImportJob → ImportState → ImportState
retry_failed_answer stored (answered next) s =
    record (accept_job next (save_pending_retry stored none s)) {
      retry_lock = false;
      retrying = false;
    }
retry_failed_answer stored (refused message) s = record s {
  error = some (or_else message (codes "重试失败项提交失败"));
  retry_lock = false;
  retrying = false;
}

-- `lock.delete(id)`
unfoldable pub unlock : Text → List Text → List Text
unlock id [] = []
unlock id (j ∷ locks) = if j === id then unlock id locks else j ∷ unlock id locks

unfoldable pub refresh_start : ImportState → Sent Text × ImportState
refresh_start s = elim s.job [
  | none ↦ (ignored, s)
  | some job ↦
      if contains job.job_id s.poll_locks
      then (ignored, s)
      else (sent job.job_id, record s { poll_locks = job.job_id ∷ s.poll_locks })
]

unfoldable pub show_job : ImportJob → ImportState → ImportState
show_job next s =
    let shown = record s { stored_job = some next; job = some next; error = none } in
    if is_terminal next.state && not (same_id s.completed_job next.job_id)
    then record shown { completed_job = some next.job_id; completions = s.completions + 1 }
    else shown

-- Behind the `await` of `refreshJob` for the job `id`.
unfoldable pub refresh_answer : Text → Answer ImportJob → ImportState → ImportState
refresh_answer id (answered next) s =
    let freed = record s { poll_locks = unlock id s.poll_locks } in
    if same_id s.current_job_id id then show_job next freed else freed
refresh_answer id (refused message) s =
    let freed = record s { poll_locks = unlock id s.poll_locks } in
    if same_id s.current_job_id id
    then record freed { error = some (or_else message (codes "导入任务状态读取失败")) }
    else freed

-- The request of `loadFailures`: the job and the cursor.
pub record FailuresRequest : Type 0 where
  pub job_id : Text
  pub after : Option Text

unfoldable pub load_failures_start : Bool → ImportState → Sent FailuresRequest × ImportState
load_failures_start append s = elim s.job [
  | none ↦ (ignored, s)
  | some job ↦
      if not (is_terminal job.state)
        || (append && not (is_some s.failure_cursor))
        || contains job.job_id s.failure_locks
      then (ignored, s)
      else (
        sent (record { job_id = job.job_id; after = if append then s.failure_cursor else none }),
        record s {
          failure_locks = job.job_id ∷ s.failure_locks;
          loading_failures_job = some job.job_id;
        },
      )
]

unfoldable pub load_failures_answer : Bool → Text → Answer FailuresPage → ImportState → ImportState
load_failures_answer append id answer s =
    let freed = record s {
      failure_locks = unlock id s.failure_locks;
      loading_failures_job =
          if same_id s.loading_failures_job id then none else s.loading_failures_job;
    } in
    let current = same_id s.current_job_id id in
    elim answer [
      | answered page ↦
          if current
          then record freed {
            failures = if append then s.failures ++ page.items else page.items;
            failure_cursor = page.next_cursor;
            failures_job = some id;
            failure_load_error = none;
            error = none;
          }
          else freed
      | refused message ↦
          if current
          then record freed { failure_load_error = some (or_else message (codes "失败明细读取失败")) }
          else freed
    ]

unfoldable pub clear_job : ImportState → ImportState
clear_job s = if unresolved s then s else record s {
  current_job_id = none;
  job = none;
  failures = [];
  failure_cursor = none;
  failure_load_error = none;
  error = none;
  failures_job = none;
  completed_job = none;
  stored_job = none;
}

-- `canStartNew`
unfoldable pub can_start_new : ImportState → Bool
can_start_new s =
    not (is_active s.job) && not (is_some s.pending_request) && not (is_some s.pending_retry)
