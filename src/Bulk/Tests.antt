-- ===== src/Bulk/Tests.antt =====
-- The theorems on bulk jobs at concrete inputs.
use mathlib.Core.Path.{◌≡◌, refl}
use mathlib.Core.Option.{none, some}
use mathlib.Core.List.{[]}
use frpc_multi.Base.Text.{codes}
use frpc_multi.Bulk.{
  BulkState, BulkJob, Pending, Submission, ServerSelection, ready, update, failed, refused, sent,
  submit_start, submit_answer, submit_with, submit_target, target_of, request_for, pending_match,
  retry_failed_start, retry_failed_answer, retry_request, retry_pending, failures_of,
}
use frpc_multi.Bulk.Keys.{submit_start_again, retry_failed_start_again}

abbrev selected : ServerSelection
selected = record {
  selection_id = codes "s1";
  state = ready;
  count = 2;
  processed = 2;
  created_at = [];
  updated_at = [];
  expires_at = [];
  error = none;
}

abbrev job : BulkJob
job = record {
  job_id = codes "j1";
  selection_id = codes "s1";
  operation = update;
  state = failed;
  total = 2;
  processed = 2;
  succeeded = 1;
  failed_count = 1;
  created_at = [];
  updated_at = [];
  error = none;
  retry_of = none;
}

abbrev state : BulkState
state = record {
  selection = some selected;
  job = some job;
  failures = [];
  failure_cursor = none;
  pending = none;
  error = none;
  failures_loaded_for = none;
}

abbrev submission : Submission
submission = record { operation = update; payload = codes "{\"group\":\"a\"}"; ids = none }

abbrev request : Pending
request = record {
  selection_id = codes "s1";
  operation = update;
  payload = codes "{\"group\":\"a\"}";
  idempotency_key = codes "k";
  ids = none;
  retry_job_id = none;
}

sent_once : (submit_start submission none (codes "k") state).0 ≡ sent request
unfolding submit_start submit_with submit_target target_of request_for pending_match
sent_once = refl

submit_start_again_example :
    let s' = submit_answer (refused none) (submit_start submission none (codes "k") state).1 in
    (submit_start submission none (codes "l") s').0 ≡ sent request
submit_start_again_example =
    submit_start_again state submission none none (codes "k") (codes "l") request none sent_once

abbrev retry : Pending
retry = record {
  selection_id = codes "s1";
  operation = update;
  payload = codes "{}";
  idempotency_key = codes "k";
  ids = none;
  retry_job_id = some (codes "j1");
}

retried_once : (retry_failed_start (codes "k") state).0 ≡ some retry
unfolding retry_failed_start retry_request
retried_once = refl

retry_failed_start_again_example :
    let s' = retry_failed_answer (refused none) (retry_failed_start (codes "k") state).1 in
    ((retry_failed_start (codes "l") s').0 ≡ some retry)
    × (retry_pending s' ≡ failures_of (codes "j1") (codes "k"))
retry_failed_start_again_example =
    retry_failed_start_again state (codes "k") (codes "l") retry none job refl retried_once
