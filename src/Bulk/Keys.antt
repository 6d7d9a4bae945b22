-- ===== src/Bulk/Keys.antt =====
-- Which submissions share an idempotency key.
use Prim.Native.Nat.{ℕ}
use mathlib.Core.Path.{◌≡◌, refl, sym, ◌∙◌}
use mathlib.Core.Logic.{◌↔◌, ◌⊎◌, inl, inr}
use mathlib.Core.Bool.{true, Bool}
use mathlib.Core.Option.{Option, none, some}
use mathlib.Core.List.{List, ◌∷◌}
use native.Mathlib.Omega.{arith}
use frpc_multi.Base.Text.{===_refl, ===_iff, Text}
use frpc_multi.Base.Tests.{Option-cases, if◌then◌else◌}
use mathlib.Core.Bool.{true, false}
use frpc_multi.Bulk.{
  BulkState, BulkJob, Pending, Submission, ServerSelection, refused, sent, Operation, update,
  delete, same_operation, same_list, same_ids, pending_match, submit_target, ready_selection,
  request_for, submit_with, submit_answer, retry_request, retry_failed_start, retry_failed_answer,
  retry_pending, failures_of, submit_start, target_of, is_ready,
}

same_operation_iff : (a b : Operation) → (same_operation a b ≡ true) ↔ (a ≡ b)
unfolding same_operation
same_operation_iff update b = ground arith
same_operation_iff delete b = ground arith

same_list_iff : (xs ys : List ℕ) → (same_list xs ys ≡ true) ↔ (xs ≡ ys)
unfolding same_list
same_list_iff (x ∷ xs) (y ∷ ys) = ground (arith, same_list_iff xs ys)
same_list_iff _ _ = ground arith

same_ids_iff : (xs ys : Option (List ℕ)) → (same_ids xs ys ≡ true) ↔ (xs ≡ ys)
same_ids_iff none none = ground arith
same_ids_iff none (some ys) = ground arith
same_ids_iff (some xs) none = ground arith
same_ids_iff (some xs) (some ys) = ground (arith, same_list_iff xs ys)

abbrev pub submission_of : Pending → Submission
submission_of p = record { operation = p.operation; payload = p.payload; ids = p.ids }

-- A pending submission matches the arguments of `submit` exactly if it is no retry of failures and has
-- the same operation, payload and ids.
pub pending_match_iff :
    (p : Pending) (a : Submission)
    → (pending_match (some p) a ≡ some p) ↔ ((p.retry_job_id ≡ none) × (submission_of p ≡ a))
unfolding pending_match
pending_match_iff p a = ground (
  arith,
  same_operation_iff p.operation a.operation,
  ===_iff p.payload a.payload,
  same_ids_iff p.ids a.ids,
)

-- a fresh request matches the arguments it was made from
fresh_matches :
    (a : Submission) (id key : Text)
    → let r = request_for a id key none in
      (pending_match (some r) a ≡ some r) × (r.selection_id ≡ id)
unfolding request_for
fresh_matches a id key = ((pending_match_iff _ a).1 (refl, refl), refl)

test_cases :
    (b : Bool) (p : Pending)
    → ((if b then some p else none) ≡ none) ⊎ ((if b then some p else none) ≡ some p)
test_cases true p = inr refl
test_cases false p = inl refl

pending_match-cases :
    (pending : Option Pending) (a : Submission)
    → (pending_match pending a ≡ none)
      ⊎ ((p : Pending) × (pending_match pending a ≡ some p) × (pending_match (some p) a ≡ some p))
unfolding pending_match
pending_match-cases none a = inl refl
pending_match-cases (some p) a = elim (test_cases _ p) [ inl e ↦ inl e | inr e ↦ inr (p, e, e) ]

-- the request that `submit` sends matches its arguments and has the selection's id
request_for-matches :
    (a : Submission) (id key : Text) (pending : Option Pending)
    → let r = request_for a id key (pending_match pending a) in
      (pending_match (some r) a ≡ some r) × (r.selection_id ≡ id)
unfolding request_for
request_for-matches a id key pending = elim (pending_match-cases pending a) [
  | inl e ↦ rw e (fresh_matches a id key)
  | inr (p, e, f) ↦ rw e (ground (arith, f, ===_iff p.selection_id id, fresh_matches a id key))
]

submit_with-sent :
    (a : Submission) (key : Text) (t : Option ServerSelection) (s : BulkState) (r : Pending)
    → let out = submit_with a key (pending_match s.pending a) t s in
      out.0 ≡ sent r
      → (x : ServerSelection) × (t ≡ some x)
        × (is_ready x.state ≡ true)
        × (pending_match out.1.pending a ≡ some r)
        × (out.1.selection ≡ s.selection)
        × (r.selection_id ≡ x.selection_id)
unfolding submit_with
submit_with-sent a key none s r h = ground arith
submit_with-sent a key (some x) s r h = (
  x,
  refl,
  ground arith,
  ground (arith, request_for-matches a x.selection_id key s.pending),
  ground arith,
  ground (arith, request_for-matches a x.selection_id key s.pending),
)

submit_with_again :
    (a : Submission) (key : Text) (t : Option ServerSelection) (s : BulkState) (r : Pending)
    (x : ServerSelection)
    → t ≡ some x
    → is_ready x.state ≡ true
    → r.selection_id ≡ x.selection_id
    → (submit_with a key (some r) t s).0 ≡ sent r
unfolding submit_with request_for
submit_with_again a key t s r x e ok i = ground (arith, ===_iff r.selection_id x.selection_id)

target_none :
    (a : Submission) (created : Option ServerSelection) (s : BulkState)
    → a.ids ≡ none
    → target_of created (submit_target a s) ≡ s.selection
unfolding target_of submit_target
target_none a created s n = ground arith

target_some :
    (a : Submission) (created : Option ServerSelection) (s : BulkState) (ids : List ℕ) (p : Pending)
    → a.ids ≡ some ids
    → pending_match s.pending a ≡ some p
    → target_of created (submit_target a s) ≡ some (ready_selection p.selection_id ids)
unfolding target_of submit_target
target_some a created s ids p n e = ground arith

-- If `submit` sends a request and the call fails, then `submit` with the same arguments sends that
-- request again, idempotency key included, whatever key and selection a new call could make.
pub submit_start_again :
    (s : BulkState) (a : Submission) (created created' : Option ServerSelection) (key key' : Text)
    (r : Pending) (m : Option Text)
    → (submit_start a created key s).0 ≡ sent r
    → let s' = submit_answer (refused m) (submit_start a created key s).1 in
      (submit_start a created' key' s').0 ≡ sent r
unfolding submit_start submit_answer
submit_start_again s a created created' key key' r m h =
    let (x, e, ok, f, g, i) =
      submit_with-sent a key (target_of created (submit_target a s)) s r h in
    let s' = submit_answer (refused m) (submit_start a created key s).1 in
    rw f (elim (Option-cases a.ids) [
      | inl n ↦
          submit_with_again a key' (target_of created' (submit_target a s')) s' r x
            (target_none a created' s' n ∙ g ∙ sym (target_none a created s n) ∙ e) ok i
      | inr (ids, n) ↦
          submit_with_again a key' (target_of created' (submit_target a s')) s' r
            (ready_selection r.selection_id ids) (target_some a created' s' ids r n f) refl refl
    ])

-- The first attempt to retry a job's failures and every further one send the same request, as long as
-- the calls fail; `retryPending` also sends its key.
pub retry_failed_start_again :
    (s : BulkState) (key key' : Text) (r : Pending) (m : Option Text) (job : BulkJob)
    → s.job ≡ some job
    → (retry_failed_start key s).0 ≡ some r
    → let s' = retry_failed_answer (refused m) (retry_failed_start key s).1 in
      ((retry_failed_start key' s').0 ≡ some r)
      × (retry_pending s' ≡ failures_of job.job_id r.idempotency_key)
unfolding retry_failed_start retry_failed_answer retry_request retry_pending
retry_failed_start_again s key key' r m job e h = elim (Option-cases s.pending) [
  | inl n ↦ (ground (arith, ===_refl job.job_id), ground (arith, ===_refl job.job_id))
  | inr (p, f) ↦ elim (Option-cases p.retry_job_id) [
    | inl n ↦ (ground (arith, ===_refl job.job_id), ground (arith, ===_refl job.job_id))
    | inr (id, n) ↦ (
      ground (arith, ===_refl job.job_id, ===_iff id job.job_id),
      ground (arith, ===_refl job.job_id, ===_iff id job.job_id),
    )
  ]
]
