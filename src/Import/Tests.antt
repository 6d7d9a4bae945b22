-- ===== src/Import/Tests.antt =====
-- The theorems on imports at concrete inputs.
use mathlib.Core.Path.{◌≡◌, refl}
use mathlib.Core.Bool.{true, false}
use mathlib.Core.Option.{none, some}
use mathlib.Core.List.{[]}
use frpc_multi.Base.Text.{codes}
use frpc_multi.Import.{
  ImportState, ImportJob, PendingImport, done, running, refused, ignored, sent, submit_start,
  retry_submit_start, submit_answer, is_terminal, is_active, save_pending_request,
}
use frpc_multi.Import.Locks.{
  World, Reach, here, more, submit, submitted, IsExclusive, Reach-IsExclusive,
}
use frpc_multi.Import.Retry.{retry_submit_start-submit_answer}

abbrev idle : ImportState
idle = record {
  job = none;
  pending_request = none;
  pending_retry = none;
  failures = [];
  failure_cursor = none;
  loading_failures_job = none;
  failure_load_error = none;
  submitting = false;
  retrying = false;
  error = none;
  submission_lock = false;
  retry_lock = false;
  poll_locks = [];
  failure_locks = [];
  current_job_id = none;
  completed_job = none;
  failures_job = none;
  completions = 0;
  stored_job = none;
  stored_request = none;
  stored_retry = none;
}

abbrev request : PendingImport
request = record { text = codes "10.0.0.1"; group = none; idempotency_key = codes "k" }

sent_once : (submit_start true (codes "10.0.0.1") none (codes "k") idle).0 ≡ sent request
unfolding submit_start is_active save_pending_request
sent_once = refl

retry_submit_start-submit_answer_example :
    let s' =
      submit_answer true
        (refused none)
        (submit_start true (codes "10.0.0.1") none (codes "k") idle).1 in
    ((retry_submit_start s').0 ≡ sent request)
    × (submit_start true (codes "x") none (codes "j") s' ≡ (ignored, s'))
retry_submit_start-submit_answer_example =
    retry_submit_start-submit_answer idle (codes "10.0.0.1") (codes "x") none none (codes "k")
      (codes "j") request true true none sent_once

abbrev finished : ImportJob
finished = record {
  job_id = codes "j1";
  state = done;
  total = 1;
  processed = 1;
  inserted = 1;
  skipped = 0;
  failed_count = 0;
  retryable_failed = 0;
  created_at = [];
  updated_at = [];
  error = none;
}

abbrev watching : ImportState
watching = record idle {
  job = some (record finished { state = running });
  current_job_id = some (codes "j1");
}

finished_is_terminal : is_terminal done ≡ true
unfolding is_terminal
finished_is_terminal = refl

abbrev quiet : World
quiet = record { state = idle; flight = [] }

abbrev sending : ImportState
sending = (submit_start true (codes "10.0.0.1") none (codes "k") idle).1

sent_and_refused :
    Reach quiet (record { state = submit_answer true (refused none) sending; flight = [] })
unfolding submit_start is_active save_pending_request
sent_and_refused =
    more (more here (submit true (codes "10.0.0.1") none (codes "k") quiet))
      (submitted [] [] request true (refused none) sending)

Reach-IsExclusive_example :
    IsExclusive (record { state = submit_answer true (refused none) sending; flight = [] })
Reach-IsExclusive_example =
    Reach-IsExclusive (record { flag = refl; calls = refl; pending = tt; mirrored = refl })
      sent_and_refused
