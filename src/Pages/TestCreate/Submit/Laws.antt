-- ===== src/Pages/TestCreate/Submit/Laws.antt =====
-- The idempotency key of a batch: kept while the call has not succeeded, dropped behind it.
use frpc_multi.Pages.TestCreate.Targets.{selection_scope}
use frpc_multi.Bulk.{ServerSelection}
use frpc_multi.Base.Answers.{answered, refused}
use frpc_multi.Base.Assoc.{text_eq}
use frpc_multi.Base.Text.{Text, ===_refl, ===_iff}
use frpc_multi.Pages.TestCreate.{CreatePage, Mode, mode_text, read_mode}
use frpc_multi.Pages.TestCreate.Submit.{
  Stored, kept, Pending, Sent, sent, Payload, of_selection, explicit, submit_start, submit_answer,
  submit_payload, payload_for, key_or_new, keyed, submitting_of, can_submit,
  selection_idempotency_key, same_mode, kept_key, clear_selection_idempotency_key,
}
use mathlib.Core.Path.{◌≡◌, refl, sym, ap, ◌∙◌}
use mathlib.Core.Logic.{inl, inr}
use mathlib.Core.Bool.{Bool, true, false}
use mathlib.Core.Option.{Option, none, some}
use native.Mathlib.Omega.{arith}
use frpc_multi.Base.Tests.{Bool-cases, is_some}
use frpc_multi.Base.Lists.{is_empty}

same_mode_refl : (mode : Mode) → same_mode mode mode ≡ true
unfolding same_mode
same_mode_refl mode = ===_refl (mode_text mode)

kept_key_of :
    (p : Pending)
    → is_empty p.idempotency_key ≡ false
    → kept_key p.selection_id p.mode (kept p) ≡ some p.idempotency_key
kept_key_of p h = ground (arith, ===_refl p.selection_id, same_mode_refl p.mode)

-- A key that was given out and stored is given out again.
selection_idempotency_key_again :
    (accepts again : Bool) (uuid other id : Text) (mode : Mode) (stored : Stored)
    → is_empty uuid ≡ false
    → is_some (selection_idempotency_key accepts uuid id mode stored).0 ≡ true
    → selection_idempotency_key again other id mode
        (selection_idempotency_key accepts uuid id mode stored).1
      ≡ selection_idempotency_key accepts uuid id mode stored
unfolding selection_idempotency_key
selection_idempotency_key_again accepts again uuid other id mode stored h given =
    by_kept accepts (kept_key id mode stored) refl given
  where
    p : Pending
    p = record { selection_id = id; mode = mode; idempotency_key = uuid }

    q : Pending
    q = record { selection_id = id; mode = mode; idempotency_key = other }

    by_kept :
        (may : Bool) (found : Option Text)
        → kept_key id mode stored ≡ found
        → is_some (key_or_new may p stored found).0 ≡ true
        → key_or_new again q
            (key_or_new may p stored found).1
            (kept_key id mode (key_or_new may p stored found).1)
          ≡ key_or_new may p stored found
    by_kept may (some key) e g = rw e refl
    by_kept true none e g = rw (kept_key_of p h) refl
    by_kept false none e g = absurd (ground arith)

abbrev pub is_sent : Sent → Bool
is_sent (sent _) = true
is_sent _ = false

submit_payload_again :
    (accepts again : Bool) (uuid other : Text) (s : CreatePage) (stored : Stored)
    → is_empty uuid ≡ false
    → is_sent (submit_payload accepts uuid s stored).0 ≡ true
    → submit_payload again other s (submit_payload accepts uuid s stored).1
      ≡ submit_payload accepts uuid s stored
unfolding submit_payload
submit_payload_again accepts again uuid other s stored h given =
    by_scope (selection_scope s) s.server_selection given
  where
    mode : Mode
    mode = read_mode s.params

    by_key :
        (next : ServerSelection) (r : Option Text × Stored)
        → is_sent (keyed mode s.targets next r).0 ≡ true
        → is_some r.0 ≡ true
    by_key next (some key, left) g = refl
    by_key next (none, left) g = absurd (ground arith)

    keyed_left :
        (next : ServerSelection) (r : Option Text × Stored) → (keyed mode s.targets next r).1 ≡ r.1
    keyed_left next (some key, left) = refl
    keyed_left next (none, left) = refl

    by_scope :
        (scoped : Bool) (selection : Option ServerSelection)
        → is_sent (payload_for scoped accepts uuid mode s.targets selection stored).0 ≡ true
        → payload_for scoped again other mode s.targets selection
            (payload_for scoped accepts uuid mode s.targets selection stored).1
          ≡ payload_for scoped accepts uuid mode s.targets selection stored
    by_scope false selection g = refl
    by_scope true none g = refl
    by_scope true (some next) g =
        let r = selection_idempotency_key accepts uuid next.selection_id mode stored in
        ap
          (λ st.
            keyed mode s.targets next
              (selection_idempotency_key again other next.selection_id mode st))
          (keyed_left next r)
        ∙ ap (λ k. keyed mode s.targets next k)
            (selection_idempotency_key_again accepts again uuid other next.selection_id mode stored
              h (by_key next r g))

refused_leaves :
    (payload : Payload) (message : Option Text) (s : CreatePage) (stored : Stored)
    → submit_answer payload (refused message) s stored
      ≡ (none, record s { submitting = false }, stored)
unfolding submit_answer
refused_leaves (of_selection mode id key) message s stored = refl
refused_leaves (explicit mode ips) message s stored = refl

sent_can :
    (accepts : Bool) (uuid : Text) (s : CreatePage) (stored : Stored) (payload : Payload)
    → (submit_start accepts uuid s stored).0 ≡ sent payload
    → can_submit s ≡ true
unfolding submit_start
sent_can accepts uuid s stored payload h = elim (Bool-cases (can_submit s)) [
  | inl e ↦ e
  | inr e ↦ absurd (ground arith)
]

not_busy : (s : CreatePage) → can_submit s ≡ true → s.submitting ≡ false
unfolding can_submit
not_busy s h = ground arith

-- The result of a submission that may start is its payload.
submit_start_can :
    (accepts : Bool) (uuid : Text) (s : CreatePage) (stored : Stored)
    → can_submit s ≡ true
    → submit_start accepts uuid s stored ≡ (
      (submit_payload accepts uuid s stored).0,
      record s { submitting = submitting_of (submit_payload accepts uuid s stored).0 },
      (submit_payload accepts uuid s stored).1,
    )
unfolding submit_start
submit_start_can accepts uuid s stored h = rw h refl

-- A submission that was refused is sent again with the same payload, under the same idempotency key,
-- whatever the new random key is and whether the storage still takes one, as long as the page is as it
-- was.
pub submit_start_resent :
    (accepts again : Bool) (uuid other : Text) (message : Option Text) (s : CreatePage)
    (stored : Stored) (payload : Payload)
    → is_empty uuid ≡ false
    → (submit_start accepts uuid s stored).0 ≡ sent payload
    → let (_, begun, left) = submit_start accepts uuid s stored in
      let (_, back, still) = submit_answer payload (refused message) begun left in
      (submit_start again other back still).0 ≡ sent payload
submit_start_resent accepts again uuid other message s stored payload h given =
    ap
      (λ (r : Sent × CreatePage × Stored).
        (submit_start again other (submit_answer payload (refused message) r.1 r.2).1
          (submit_answer payload (refused message) r.1 r.2).2).0)
      (submit_start_can accepts uuid s stored can)
    ∙ ap (λ (r : Option Text × CreatePage × Stored). (submit_start again other r.1 r.2).0)
        (refused_leaves payload message (record s { submitting = submitting_of first.0 }) first.1)
    ∙ ap (λ (page : CreatePage). (submit_start again other page first.1).0) same_page
    ∙ ap (λ (r : Sent × CreatePage × Stored). r.0) (submit_start_can again other s first.1 can)
    ∙ ap (λ (r : Sent × Stored). r.0)
        (submit_payload_again accepts again uuid other s stored h (rw payload_sent refl))
    ∙ payload_sent
  where
    can : can_submit s ≡ true
    can = sent_can accepts uuid s stored payload given

    first : Sent × Stored
    first = submit_payload accepts uuid s stored

    payload_sent : (submit_payload accepts uuid s stored).0 ≡ sent payload
    payload_sent =
        ap (λ (r : Sent × CreatePage × Stored). r.0)
          (sym (submit_start_can accepts uuid s stored can))
        ∙ given

    same_page : record s { submitting = false } ≡ s
    same_page = ap (λ (b : Bool). record s { submitting = b }) (sym (not_busy s can))

-- After a job was created from a selection, the storage keeps no key of that selection and mode: with a
-- storage that takes keys, the next submission of it goes out under the new random key.
pub submit_answer_fresh :
    (mode : Mode) (id key uuid job_id : Text) (s : CreatePage) (p : Pending)
    → p.idempotency_key ≡ key
    → let (_, _, left) = submit_answer (of_selection mode id key) (answered job_id) s (kept p) in
      (selection_idempotency_key true uuid id mode left).0 ≡ some uuid
unfolding submit_answer selection_idempotency_key clear_selection_idempotency_key
submit_answer_fresh mode id key uuid job_id s p same = ground (arith, ===_iff p.idempotency_key key)
