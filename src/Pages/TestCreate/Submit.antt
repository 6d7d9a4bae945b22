-- ===== src/Pages/TestCreate/Submit.antt =====
-- webui/frontend/src/pages/TestCreatePage.tsx: the submission of a batch under an idempotency key that
-- the session storage keeps, and the steps towards it. The storage is what `JSON.parse` reads of it.
pub mod Laws
use frpc_multi.Base.Text.{Text, codes, ◌===◌}
use frpc_multi.Base.Answers.{Answer, answered, refused}
use frpc_multi.Base.Assoc.{text_eq}
use frpc_multi.Bulk.{ServerSelection}
use frpc_multi.Pages.TestCreate.{
  CreatePage, Mode, policy_ready, same_scope, mode_text, read_mode, unchosen,
}
use frpc_multi.Pages.TestCreate.Targets.{targets_ready, invalid_manual_port, selection_scope}
use Prim.Native.Nat.{◌+◌}
use mathlib.Core.Bool.{Bool, true, false, not, ◌&&◌, ◌||◌}
use mathlib.Core.Option.{Option, none, some}
use mathlib.Core.List.{List, ◌++◌}
use native.Mathlib.Omega.{arith}
use frpc_multi.Base.Tests.{◌==◌, if◌then◌else◌}
use frpc_multi.Base.Lists.{is_empty}

-- `PendingSelectionSubmission`
pub record Pending : Type 0 where
  pub selection_id : Text
  pub mode : Mode
  pub idempotency_key : Text

-- No item or `null`, a text that does not parse, or a submission.
pub data Stored : Type 0 where
  nothing broken : Stored
  kept : Pending → Stored

unfoldable pub same_mode : Mode → Mode → Bool
same_mode a b = mode_text a === mode_text b

abbrev pub is_for : Text → Mode → Pending → Bool
is_for selection_id mode p = p.selection_id === selection_id && same_mode p.mode mode

abbrev pub kept_key : Text → Mode → Stored → Option Text
kept_key selection_id mode (kept p) =
    if is_for selection_id mode p && not (is_empty p.idempotency_key)
    then some p.idempotency_key
    else none
kept_key selection_id mode _ = none

-- A key that is kept stays; `setItem` throws unless the storage `accepts` the new one.
abbrev pub key_or_new : Bool → Pending → Stored → Option Text → Option Text × Stored
key_or_new accepts pending stored (some key) = (some key, stored)
key_or_new true pending stored none = (some pending.idempotency_key, kept pending)
key_or_new false pending stored none = (none, stored)

-- `uuid` is the random key.
unfoldable pub selection_idempotency_key : Bool → Text → Text → Mode → Stored → Option Text × Stored
selection_idempotency_key accepts uuid selection_id mode stored =
    let pending : Pending = record {
      selection_id = selection_id;
      mode = mode;
      idempotency_key = uuid;
    } in
    key_or_new accepts pending stored (kept_key selection_id mode stored)

unfoldable pub clear_selection_idempotency_key : Text → Mode → Text → Stored → Stored
clear_selection_idempotency_key selection_id mode key nothing = nothing
clear_selection_idempotency_key selection_id mode key broken = nothing
clear_selection_idempotency_key selection_id mode key (kept p) =
    if is_for selection_id mode p && p.idempotency_key === key then nothing else kept p

unfoldable pub rotate_mismatched_selection_idempotency_key : Text → Mode → Stored → Stored
rotate_mismatched_selection_idempotency_key selection_id mode nothing = nothing
rotate_mismatched_selection_idempotency_key selection_id mode broken = nothing
rotate_mismatched_selection_idempotency_key selection_id mode (kept p) =
    if is_for selection_id mode p then kept p else nothing

-- The effect behind `targetsReady`.
unfoldable pub rotate : CreatePage → Stored → Stored
rotate s stored = elim s.server_selection [
  | none ↦ stored
  | some next ↦
      let rotated =
        rotate_mismatched_selection_idempotency_key next.selection_id (read_mode s.params) stored in
      if selection_scope s then rotated else stored
]

-- `next`, with whether it moves on.
unfoldable pub next_step : CreatePage → Bool × CreatePage
next_step s =
    let blocked =
      same_scope s.scope unchosen || s.loading || not (targets_ready s) || invalid_manual_port s in
    if s.step == 1 && blocked
    then (false, s)
    else if s.step == 2 && not (policy_ready s)
    then (false, s)
    else (true, record s { step = s.step + 1 })

-- The payload of `createJob`.
pub data Payload : Type 0 where
  of_selection : (mode : Mode) (selection_id idempotency_key : Text) → Payload
  explicit : (mode : Mode) (ips : List Text) → Payload

-- What the page sends; `unstored` is the error of a storage that takes no key.
pub data Sent : Type 0 where
  ignored unstored : Sent
  sent : Payload → Sent

-- The guard at the head of `submit`.
unfoldable pub can_submit : CreatePage → Bool
can_submit s =
    not s.submitting
    && policy_ready s
    && targets_ready s
    && not s.loading
    && not (invalid_manual_port s)

abbrev pub keyed : Mode → List Text → ServerSelection → Option Text × Stored → Sent × Stored
keyed mode targets next (none, stored) = (unstored, stored)
keyed mode targets next (some key, stored) =
    let payload =
      if is_empty key then explicit mode targets else of_selection mode next.selection_id key in
    (sent payload, stored)

abbrev pub payload_for :
    Bool → Bool → Text → Mode → List Text → Option ServerSelection → Stored → Sent × Stored
payload_for true accepts uuid mode targets (some next) stored =
    keyed mode targets next (selection_idempotency_key accepts uuid next.selection_id mode stored)
payload_for _ accepts uuid mode targets _ stored = (sent (explicit mode targets), stored)

-- The payload of `submit`, and the storage that it leaves.
unfoldable pub submit_payload : Bool → Text → CreatePage → Stored → Sent × Stored
submit_payload accepts uuid s stored =
    payload_for (selection_scope s) accepts uuid (read_mode s.params) s.targets s.server_selection
      stored

abbrev pub submitting_of : Sent → Bool
submitting_of (sent _) = true
submitting_of _ = false

-- `submit` up to its `await`.
unfoldable pub submit_start : Bool → Text → CreatePage → Stored → Sent × CreatePage × Stored
submit_start accepts uuid s stored =
    let (payload, left) = submit_payload accepts uuid s stored in
    let begun = record s { submitting = submitting_of payload } in
    if can_submit s then (payload, begun, left) else (ignored, s, stored)

-- `submit` behind its `await`, with the address that it leads to.
unfoldable pub submit_answer :
    Payload → Answer Text → CreatePage → Stored → Option Text × CreatePage × Stored
submit_answer (of_selection mode selection_id key) (answered job_id) s stored = (
  some (codes "/tests/" ++ job_id),
  record s { submitting = false },
  clear_selection_idempotency_key selection_id mode key stored,
)
submit_answer (explicit mode ips) (answered job_id) s stored =
    (some (codes "/tests/" ++ job_id), record s { submitting = false }, stored)
submit_answer payload (refused message) s stored = (none, record s { submitting = false }, stored)
