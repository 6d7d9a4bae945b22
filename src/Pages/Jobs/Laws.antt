-- ===== src/Pages/Jobs/Laws.antt =====
-- Late answers after the watched batch was changed and changed back, and actions one at a time.
use mathlib.Core.Path.{ap₂}
use frpc_multi.Base.Tests.{==_refl}
use frpc_multi.Base.Answers.{Answer, answered, refused}
use frpc_multi.Base.Text.{Text, ◌===◌}
use frpc_multi.Pages.Jobs.{
  JobDetail, JobPage, Panel, Ticket, load_start, list_answer, detail_answer, is_current, set_job,
  action_start, action_end,
}
use Prim.Native.Nat.{ℕ, ◌+◌}
use mathlib.Core.Path.{◌≡◌, refl, sym, ap, ap₂}
use mathlib.Core.Logic.{◌≢◌}
use mathlib.Core.Bool.{Bool, true, false}
use mathlib.Core.Option.{Option, none, some}
use mathlib.Core.List.{List}
use native.Mathlib.Omega.{arith}
use frpc_multi.Base.Tests.{if◌then◌else◌, ==_refl, is_some}

not_some : (o : Option ℕ) → is_some o ≡ false → o ≡ none
not_some none h = refl
not_some (some id) h = absurd (ground arith)

module _ {J : Type 0} where
  not_current :
      (ticket : Ticket) (s : Panel J) → ticket.owner ≢ s.owner → is_current ticket s ≡ false
  unfolding is_current
  not_current ticket s h = ground arith

  other_owner :
      (signature : Text → JobDetail → Text) (ticket : Ticket) (id focus : Text)
      (list : Answer (JobPage J)) (a : Answer JobDetail) (s : Panel J)
      → ticket.owner ≢ s.owner
      → (list_answer ticket focus list s ≡ (none, s))
        × (detail_answer signature ticket id a s ≡ (false, s))
  unfolding list_answer detail_answer
  other_owner signature ticket id focus (answered list) (answered next) s h =
      (rw (not_current ticket s h) refl, rw (not_current ticket s h) refl)
  other_owner signature ticket id focus (answered list) (refused message) s h =
      (rw (not_current ticket s h) refl, rw (not_current ticket s h) refl)
  other_owner signature ticket id focus (refused why) (answered next) s h =
      (rw (not_current ticket s h) refl, rw (not_current ticket s h) refl)
  other_owner signature ticket id focus (refused why) (refused message) s h =
      (rw (not_current ticket s h) refl, rw (not_current ticket s h) refl)

  load_start_keeps :
      (s : Panel J)
      → ((load_start s.owner s).1.owner ≡ s.owner) × ((load_start s.owner s).1.job_id ≡ s.job_id)
  unfolding load_start
  load_start_keeps s = (ground arith, ground arith)

  load_start-owner :
      (ticket : Ticket) (s : Panel J)
      → (load_start s.owner s).0 ≡ some ticket
      → s.owner ≡ ticket.owner
  unfolding load_start
  load_start-owner ticket s h =
      let made : Ticket = record { owner = s.owner; generation = s.request_id + 1 } in
      let same : made ≡ ticket = ground arith in ap (λ (t : Ticket). t.owner) same

  set_job_moves :
      (id : Text) (s : Panel J)
      → (id === s.job_id) ≡ false
      → ((set_job id s).owner ≡ s.owner + 1) × ((set_job id s).job_id ≡ id)
  unfolding set_job
  set_job_moves id s h = rw h (refl, refl)

  -- A call of the panel is for the batch that is watched: when another batch was watched since, its
  -- answers change nothing, although the panel is back at the same batch.
  pub detail_answer-set_job :
      (signature : Text → JobDetail → Text) (ticket : Ticket) (other id focus : Text)
      (list : Answer (JobPage J)) (a : Answer JobDetail) (s : Panel J)
      → (load_start s.owner s).0 ≡ some ticket
      → (other === s.job_id) ≡ false
      → (s.job_id === other) ≡ false
      → let back = set_job s.job_id (set_job other (load_start s.owner s).1) in
        (back.job_id ≡ s.job_id)
        × (list_answer ticket focus list back ≡ (none, back))
        × (detail_answer signature ticket id a back ≡ (false, back))
  detail_answer-set_job signature ticket other id focus list a s h apart again =
      let called = (load_start s.owner s).1 in
      let away = set_job other called in
      let back = set_job s.job_id away in
      let (same_owner, same_job) = load_start_keeps s in
      let (moved, there) = set_job_moves other called (rw same_job apart) in
      let (moved_back, here) = set_job_moves s.job_id away (rw there again) in
      let later : ticket.owner ≢ back.owner =
        (λ e. omega (arith, e, moved, moved_back, same_owner, load_start-owner ticket s h)) in
      let (listed, detailed) = other_owner signature ticket id focus list a back later in
      (here, listed, detailed)

  begun : ℕ → Panel J → Panel J
  begun id s = record s { pending_action = some id; busy = true }

  action_start-begun :
      (id owner : ℕ) (ids : Option (List Text)) (s : Panel J)
      → (action_start id owner ids s).0 ≡ true
      → ((action_start id owner ids s).1 ≡ begun id s)
        × (s.pending_action ≡ none)
        × (s.busy ≡ false)
  unfolding action_start begun
  action_start-begun id owner ids s h =
      (ground arith, not_some s.pending_action (ground arith), ground arith)

  busy_refuses :
      (id other owner : ℕ) (ids : Option (List Text)) (s : Panel J)
      → action_start other owner ids (begun id s) ≡ (false, begun id s)
  unfolding action_start begun
  busy_refuses id other owner ids s = ground arith

  other_end : (id other : ℕ) (s : Panel J) → id ≢ other → action_end other (begun id s) ≡ begun id s
  unfolding action_end begun
  other_end id other s h = ground arith

  own_end :
      (id : ℕ) (s : Panel J)
      → s.pending_action ≡ none
      → s.busy ≡ false
      → s.mounted ≡ true
      → action_end id (begun id s) ≡ s
  unfolding action_end begun
  own_end id s idle quiet here =
      let freed : (if s.mounted then false else true) ≡ s.busy = ground arith in
      rw (==_refl id) (
        ap₂ (λ (p : Option ℕ) (b : Bool). record s { pending_action = p; busy = b }) (sym idle)
          freed)

  -- While an action waits for its answer, no other action starts, and the end of another one does not
  -- end it; its own end lets the next one start.
  pub action_start_alone :
      (id other owner next : ℕ) (ids more : Option (List Text)) (s : Panel J)
      → (action_start id owner ids s).0 ≡ true
      → id ≢ other
      → s.mounted ≡ true
      → let begun = (action_start id owner ids s).1 in
        (action_start other next more begun ≡ (false, begun))
        × (action_end other begun ≡ begun)
        × (action_end id begun ≡ s)
  action_start_alone id other owner next ids more s started apart here =
      let (same, idle, quiet) = action_start-begun id owner ids s started in
      rw same (
        busy_refuses id other next more s,
        other_end id other s apart,
        own_end id s idle quiet here,
      )
