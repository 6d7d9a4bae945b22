-- ===== src/Import/Retry.antt =====
-- A submission that failed is sent again under its own key, and a finished job is reported once.
use Prim.Native.Nat.{◌+◌}
use mathlib.Core.Path.{◌≡◌}
use mathlib.Core.Bool.{Bool, true, false}
use mathlib.Core.Option.{Option, some}
use native.Mathlib.Omega.{arith}
use frpc_multi.Base.Text.{Text, ===_refl}
use frpc_multi.Import.{
  ImportState, ImportJob, PendingImport, answered, refused, ignored, sent, submit_start,
  retry_submit_start, submit_answer, refresh_answer, show_job, is_terminal, same_id,
  save_pending_request,
}

-- If `submit` sends a request and the server does not accept it, then `retrySubmit` sends that request
-- again, idempotency key included, and a new `submit` with whatever text does nothing.
pub retry_submit_start-submit_answer :
    (s : ImportState) (text text' : Text) (group group' : Option Text) (key key' : Text)
    (r : PendingImport) (b stored : Bool) (m : Option Text)
    → (submit_start true text group key s).0 ≡ sent r
    → let s' = submit_answer b (refused m) (submit_start true text group key s).1 in
      ((retry_submit_start s').0 ≡ sent r)
      × (submit_start stored text' group' key' s' ≡ (ignored, s'))
unfolding submit_start retry_submit_start submit_answer save_pending_request
retry_submit_start-submit_answer s text text' group group' key key' r b stored m h =
    (ground arith, ground arith)

-- The first answer to a poll that shows the current job finished reports it, and a second one for the
-- same job, whatever it shows, does not report it again.
pub refresh_answer_once :
    (s : ImportState) (id : Text) (first second : ImportJob)
    → s.current_job_id ≡ some id
    → first.job_id ≡ id
    → second.job_id ≡ id
    → is_terminal first.state ≡ true
    → same_id s.completed_job id ≡ false
    → let s1 = refresh_answer id (answered first) s in
      let s2 = refresh_answer id (answered second) s1 in
      (s1.completions ≡ s.completions + 1) × (s2.completions ≡ s.completions + 1)
unfolding refresh_answer show_job
refresh_answer_once s id first second h e1 e2 t n =
    (ground (arith, ===_refl id), ground (arith, ===_refl id))
