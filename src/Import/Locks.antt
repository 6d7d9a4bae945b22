-- ===== src/Import/Locks.antt =====
-- The lock on submissions, in every order of clicks, answers, polls and retries.
use mathlib.Core.Path.{◌≡◌, sym, ap, ◌∙◌}
use mathlib.Core.Bool.{Bool, true}
use mathlib.Core.Option.{Option, some}
use mathlib.Core.List.{List, [], ◌∷◌, ◌++◌}
use native.Mathlib.Omega.{arith}
use frpc_multi.Base.Tests.{if◌then◌else◌}
use frpc_multi.Base.Lists.{length, length-append, All}
use frpc_multi.Base.Text.{Text}
use frpc_multi.Import.{
  ImportState, ImportJob, PendingImport, Answer, answered, refused, Sent, ignored, thrown, sent,
  FailuresPage, submit_start, retry_submit_start, submit_answer, retry_failed_start,
  retry_failed_answer, refresh_start, refresh_answer, show_job, load_failures_start,
  load_failures_answer, clear_job, accept_job, save_pending_request, save_pending_retry,
}

-- The hook with its calls of `createServerImportJob` that wait for an answer.
pub record World : Type 0 where
  pub state : ImportState
  pub flight : List PendingImport

abbrev pub launch : Sent PendingImport → List PendingImport → List PendingImport
launch ignored rs = rs
launch thrown rs = rs
launch (sent r) rs = r ∷ rs

abbrev with_state : World → ImportState → World
with_state w s = record w { state = s }

-- Everything that the hook does. The answers to polls and to loads of failures may come for any job.
pub data Step : World → World → Type 0 where
  submit :
      (stored : Bool) (text : Text) (group : Option Text) (key : Text) (w : World)
      → Step w (record {
        state = (submit_start stored text group key w.state).1;
        flight = launch (submit_start stored text group key w.state).0 w.flight;
      })
  resubmit :
      (w : World)
      → Step w (record {
        state = (retry_submit_start w.state).1;
        flight = launch (retry_submit_start w.state).0 w.flight;
      })
  submitted :
      (before after : List PendingImport) (r : PendingImport) (stored : Bool) (a : Answer ImportJob)
      (s : ImportState)
      → Step
          (record { state = s; flight = before ++ r ∷ after })
          (record { state = submit_answer stored a s; flight = before ++ after })
  retry_failed :
      (stored : Bool) (key : Text) (w : World)
      → Step w (with_state w (retry_failed_start stored key w.state).1)
  retried :
      (stored : Bool) (a : Answer ImportJob) (w : World)
      → Step w (with_state w (retry_failed_answer stored a w.state))
  poll : (w : World) → Step w (with_state w (refresh_start w.state).1)
  polled :
      (id : Text) (a : Answer ImportJob) (w : World)
      → Step w (with_state w (refresh_answer id a w.state))
  load : (append : Bool) (w : World) → Step w (with_state w (load_failures_start append w.state).1)
  loaded :
      (append : Bool) (id : Text) (a : Answer FailuresPage) (w : World)
      → Step w (with_state w (load_failures_answer append id a w.state))
  clear : (w : World) → Step w (with_state w (clear_job w.state))

pub data Reach (w : World) : World → Type 0 where
  here : Reach w w
  more : {u v : World} → Reach w u → Step u v → Reach w v

-- What a step that is no submission leaves alone.
pub record SameLock (s s' : ImportState) : Type 0 where
  pub lock : s'.submission_lock ≡ s.submission_lock
  pub submitting : s'.submitting ≡ s.submitting
  pub request : s'.pending_request ≡ s.pending_request
  pub stored : s'.stored_request ≡ s.stored_request

-- At most one call is under way, exactly while the lock and the flag are up; the request of that call
-- is the pending one, and the session storage holds the pending one.
pub record IsExclusive (w : World) : Type 0 where
  pub flag : w.state.submitting ≡ w.state.submission_lock
  pub calls : length w.flight ≡ (if w.state.submission_lock then 1 else 0)
  pub pending : All (λ r. w.state.pending_request ≡ some r) w.flight
  pub mirrored : w.state.stored_request ≡ w.state.pending_request

retry_failed-SameLock :
    (stored : Bool) (key : Text) (s : ImportState) → SameLock s (retry_failed_start stored key s).1
unfolding retry_failed_start save_pending_retry
retry_failed-SameLock stored key s = ground arith

retried-SameLock :
    (stored : Bool) (a : Answer ImportJob) (s : ImportState)
    → SameLock s (retry_failed_answer stored a s)
unfolding retry_failed_answer save_pending_retry accept_job
retried-SameLock stored (answered next) s = ground arith
retried-SameLock stored (refused m) s = ground arith

poll-SameLock : (s : ImportState) → SameLock s (refresh_start s).1
unfolding refresh_start
poll-SameLock s = ground arith

polled-SameLock :
    (id : Text) (a : Answer ImportJob) (s : ImportState) → SameLock s (refresh_answer id a s)
unfolding refresh_answer show_job
polled-SameLock id (answered next) s = ground arith
polled-SameLock id (refused m) s = ground arith

load-SameLock : (append : Bool) (s : ImportState) → SameLock s (load_failures_start append s).1
unfolding load_failures_start
load-SameLock append s = ground arith

loaded-SameLock :
    (append : Bool) (id : Text) (a : Answer FailuresPage) (s : ImportState)
    → SameLock s (load_failures_answer append id a s)
unfolding load_failures_answer
loaded-SameLock append id (answered page) s = ground arith
loaded-SameLock append id (refused m) s = ground arith

clear-SameLock : (s : ImportState) → SameLock s (clear_job s)
unfolding clear_job
clear-SameLock s = ground arith

keep :
    {s : ImportState} (w : World)
    → SameLock w.state s
    → IsExclusive w
    → IsExclusive (with_state w s)
keep w k e = record {
  flag = k.submitting ∙ e.flag ∙ sym k.lock;
  calls = e.calls ∙ ap (λ b. if b then 1 else 0) (sym k.lock);
  pending = rw (k.request) e.pending;
  mirrored = k.stored ∙ e.mirrored ∙ sym k.request;
}

abbrev world : ImportState → List PendingImport → World
world s rs = record { state = s; flight = rs }

-- A call under way holds the lock.
locked :
    (s : ImportState) (r : PendingImport) (rs : List PendingImport)
    → IsExclusive (world s (r ∷ rs))
    → s.submission_lock ≡ true
locked s r rs e = ground (arith, e.calls)

submit_free :
    (stored : Bool) (text : Text) (group : Option Text) (key : Text) (s : ImportState)
    → IsExclusive (world s [])
    → IsExclusive (
        world
          (submit_start stored text group key s).1
          (launch (submit_start stored text group key s).0 []))
unfolding submit_start save_pending_request
submit_free stored text group key s e = ground arith

submit_held :
    (stored : Bool) (text : Text) (group : Option Text) (key : Text) (s : ImportState)
    → s.submission_lock ≡ true
    → submit_start stored text group key s ≡ (ignored, s)
unfolding submit_start
submit_held stored text group key s h = ground arith

submit-IsExclusive :
    (stored : Bool) (text : Text) (group : Option Text) (key : Text) (s : ImportState)
    (rs : List PendingImport)
    → IsExclusive (world s rs)
    → IsExclusive (
        world
          (submit_start stored text group key s).1
          (launch (submit_start stored text group key s).0 rs))
submit-IsExclusive stored text group key s [] e = submit_free stored text group key s e
submit-IsExclusive stored text group key s (r ∷ rs) e =
    rw (submit_held stored text group key s (locked s r rs e)) e

resubmit_free :
    (s : ImportState)
    → IsExclusive (world s [])
    → IsExclusive (world (retry_submit_start s).1 (launch (retry_submit_start s).0 []))
unfolding retry_submit_start
resubmit_free s e = ground arith

resubmit_held : (s : ImportState) → s.submission_lock ≡ true → retry_submit_start s ≡ (ignored, s)
unfolding retry_submit_start
resubmit_held s h = ground arith

resubmit-IsExclusive :
    (s : ImportState) (rs : List PendingImport)
    → IsExclusive (world s rs)
    → IsExclusive (world (retry_submit_start s).1 (launch (retry_submit_start s).0 rs))
resubmit-IsExclusive s [] e = resubmit_free s e
resubmit-IsExclusive s (r ∷ rs) e = rw (resubmit_held s (locked s r rs e)) e

submitted_alone :
    (r : PendingImport) (stored : Bool) (a : Answer ImportJob) (s : ImportState)
    → IsExclusive (world s (r ∷ []))
    → IsExclusive (world (submit_answer stored a s) [])
unfolding submit_answer save_pending_request accept_job
submitted_alone r stored (answered next) s e = ground arith
submitted_alone r stored (refused m) s e = ground arith

-- Only one call is there, so none is left behind it.
submitted-IsExclusive :
    (before after : List PendingImport) (r : PendingImport) (stored : Bool) (a : Answer ImportJob)
    (s : ImportState)
    → IsExclusive (world s (before ++ r ∷ after))
    → IsExclusive (world (submit_answer stored a s) (before ++ after))
submitted-IsExclusive [] [] r stored a s e = submitted_alone r stored a s e
submitted-IsExclusive [] (q ∷ after) r stored a s e = absurd (ground (arith, e.calls))
submitted-IsExclusive (p ∷ before) after r stored a s e =
    absurd (ground (arith, e.calls, length-append before (r ∷ after)))

pub Step-IsExclusive : {w v : World} → Step w v → IsExclusive w → IsExclusive v
Step-IsExclusive (submit stored text group key w) e =
    submit-IsExclusive stored text group key w.state w.flight e
Step-IsExclusive (resubmit w) e = resubmit-IsExclusive w.state w.flight e
Step-IsExclusive (submitted before after r stored a s) e =
    submitted-IsExclusive before after r stored a s e
Step-IsExclusive (retry_failed stored key w) e = keep w (retry_failed-SameLock stored key w.state) e
Step-IsExclusive (retried stored a w) e = keep w (retried-SameLock stored a w.state) e
Step-IsExclusive (poll w) e = keep w (poll-SameLock w.state) e
Step-IsExclusive (polled id a w) e = keep w (polled-SameLock id a w.state) e
Step-IsExclusive (load append w) e = keep w (load-SameLock append w.state) e
Step-IsExclusive (loaded append id a w) e = keep w (loaded-SameLock append id a w.state) e
Step-IsExclusive (clear w) e = keep w (clear-SameLock w.state) e

-- From a state in which at most one call of `createServerImportJob` is under way, as the lock and the
-- flag say, its request being the pending one and the stored one: whatever is clicked and however the
-- answers arrive, this stays so.
pub Reach-IsExclusive : {w v : World} → IsExclusive w → Reach w v → IsExclusive v
Reach-IsExclusive e here = e
Reach-IsExclusive e (more r st) = Step-IsExclusive st (Reach-IsExclusive e r)
