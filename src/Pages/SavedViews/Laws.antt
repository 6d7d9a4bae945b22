-- ===== src/Pages/SavedViews/Laws.antt =====
-- The saved views under every order of calls, answers and choices.
use frpc_multi.Base.Text.{Text}
use frpc_multi.Base.Answers.{Answer, answered, refused}
use frpc_multi.Servers.Update.{QueryState}
use frpc_multi.Views.{ServerView, ServerViewColumn, DraftSignature}
use frpc_multi.Pages.SavedViews.{
  ViewsState, LoadTicket, CreateCall, DeleteCall, load_start, load_end, load_answer, show_view,
  choose_view, find_view, show_found, begin_views_mutation, finish_views_mutation, create_start,
  created_view, create_end, create_answer, rename_start, rename_end, rename_answer, delete_start,
  rename_view, delete_view, sort_views, without, delete_end, delete_answer, active_saved_view,
}
use Prim.Native.Nat.{◌+◌, ◌≤◌, ◌<◌}
use mathlib.Core.Path.{◌≡◌, refl, ◌∙◌}
use mathlib.Core.Logic.{inl, inr}
use mathlib.Core.Bool.{Bool, true, false}
use mathlib.Core.Option.{Option, none, some}
use mathlib.Core.List.{List, [], ◌∷◌, ◌++◌}
use native.Mathlib.Omega.{arith}
use frpc_multi.Base.Tests.{if◌then◌else◌, Option-cases}
use frpc_multi.Base.Lists.{any}

-- What happens on the page. An answer may be any value, at any time.
pub data Event : Type 0 where
  list_call : Event
  list_answered : LoadTicket → Answer (List ServerView) → Event
  create_call : Event
  create_answered : CreateCall → Answer ServerView → Event
  rename_call : Event
  rename_answered : Answer ServerView → Event
  delete_call : Event
  delete_answered : DeleteCall → Answer Unit → Event
  chosen : Option Text → Event
  edited :
      (server_search saved_view_name rename_view_name : Text)
      → (renaming_view : Bool) → (deleting_view : Option ServerView)
      → (visible_columns : List ServerViewColumn) → (servers : QueryState) → Event

-- The answers behind which a call that changes a view ends.
abbrev pub ends_mutation : Event → Bool
ends_mutation (create_answered call a) = true
ends_mutation (rename_answered a) = true
ends_mutation (delete_answered call a) = true
ends_mutation _ = false

abbrev pub ends_create : Event → Bool
ends_create (create_answered call a) = true
ends_create _ = false

module _ (in_order : Text → Text → Bool) (stringify : DraftSignature → Text) where
  unfoldable pub run : Event → ViewsState → ViewsState
  run list_call s = (load_start s).1
  run (list_answered t a) s = load_answer t a s
  run create_call s = (create_start stringify s).1
  run (create_answered call a) s = create_answer in_order stringify call a s
  run rename_call s = (rename_start s).1
  run (rename_answered a) s = rename_answer in_order a s
  run delete_call s = (delete_start s).1
  run (delete_answered call a) s = delete_answer call a s
  run (chosen value) s = choose_view value s
  run (edited search name renamed renaming deleting columns servers) s = record s {
    server_search = search;
    saved_view_name = name;
    rename_view_name = renamed;
    renaming_view = renaming;
    deleting_view = deleting;
    visible_columns = columns;
    servers = servers;
  }

  unfoldable pub run_all : List Event → ViewsState → ViewsState
  run_all [] s = s
  run_all (e ∷ es) s = run_all es (run e s)

-- What the guards read of a state: the generation of the calls that change views, and the lock.
abbrev Kept : ViewsState → ViewsState → Type 0
Kept s t = (s.mutation_generation ≡ t.mutation_generation) × (s.create_lock ≡ t.create_lock)

show_view-Kept : (view : ServerView) (s : ViewsState) → Kept (show_view view s) s
unfolding show_view
show_view-Kept view s = elim (Option-cases view.filters) [
  | inl e ↦ rw e (refl, refl)
  | inr (filters, e) ↦ rw e (refl, refl)
]

show_found-Kept : (o : Option ServerView) (s : ViewsState) → Kept (show_found o s) s
show_found-Kept none s = (refl, refl)
show_found-Kept (some view) s = show_view-Kept view s

choose_view-Kept : (value : Option Text) (s : ViewsState) → Kept (choose_view value s) s
unfolding choose_view
choose_view-Kept none s = ground arith
choose_view-Kept (some id) s = ground (arith, show_found-Kept (find_view id s.saved_views) s)

load_answer-Kept :
    (t : LoadTicket) (a : Answer (List ServerView)) (s : ViewsState) → Kept (load_answer t a s) s
unfolding load_answer load_end
load_answer-Kept t (answered items) s = ground arith
load_answer-Kept t (refused message) s = ground arith

-- No step takes the generation back, and only the answer of a creation opens its lock.
abbrev Later : ViewsState → ViewsState → Type 0
Later s t =
    (s.mutation_generation ≤ t.mutation_generation) × (s.create_lock ≡ true → t.create_lock ≡ true)

rename_view-Later : (o : Option ServerView) (s : ViewsState) → Later s (rename_view o s).1
unfolding rename_view begin_views_mutation
rename_view-Later none s = (omega arith, λ h. h)
rename_view-Later (some view) s = ground arith

delete_view-Later : (o : Option ServerView) (s : ViewsState) → Later s (delete_view o s).1
unfolding delete_view begin_views_mutation
delete_view-Later none s = (omega arith, λ h. h)
delete_view-Later (some view) s = ground arith

create_start-Later :
    (stringify : DraftSignature → Text) (s : ViewsState) → Later s (create_start stringify s).1
unfolding create_start begin_views_mutation
create_start-Later stringify s = ground arith

create_start-create_lock :
    (stringify : DraftSignature → Text) (s : ViewsState) (call : CreateCall)
    → (create_start stringify s).0 ≡ some call
    → (create_start stringify s).1.create_lock ≡ true
unfolding create_start begin_views_mutation
create_start-create_lock stringify s call sent = ground arith

create_start-locked :
    (stringify : DraftSignature → Text) (s : ViewsState)
    → s.create_lock ≡ true
    → create_start stringify s ≡ (none, s)
unfolding create_start
create_start-locked stringify s locked = ground arith

load_answer-old :
    (t : LoadTicket) (a : Answer (List ServerView)) (s : ViewsState)
    → t.mutation < s.mutation_generation
    → (load_answer t a s).saved_views ≡ s.saved_views
unfolding load_answer load_end
load_answer-old t (answered items) s old = ground arith
load_answer-old t (refused message) s old = ground arith

module _ (in_order : Text → Text → Bool) (stringify : DraftSignature → Text) where
  created_view-Kept :
      (call : CreateCall) (v : ServerView) (s : ViewsState)
      → Kept (created_view in_order stringify call v s) s
  unfolding created_view
  created_view-Kept call v s =
      let listed = record s {
        saved_views = sort_views in_order (without v.id s.saved_views ++ v ∷ []);
        saved_view_name = [];
      } in
      ground (arith, show_view-Kept v listed)

  create_answer-mutation :
      (call : CreateCall) (a : Answer ServerView) (s : ViewsState)
      → s.mutation_generation < (create_answer in_order stringify call a s).mutation_generation
  unfolding create_answer create_end finish_views_mutation
  create_answer-mutation call (answered v) s = omega (arith, (created_view-Kept call v s).0)
  create_answer-mutation call (refused message) s = omega arith

  run-mutation :
      (e : Event) (s : ViewsState)
      → s.mutation_generation + (if ends_mutation e then 1 else 0)
        ≤ (run in_order stringify e s).mutation_generation
  unfolding run load_start rename_start rename_answer rename_end delete_start delete_answer
      delete_end finish_views_mutation
  run-mutation list_call s = omega arith
  run-mutation (list_answered t a) s = omega (arith, (load_answer-Kept t a s).0)
  run-mutation create_call s = omega (arith, (create_start-Later stringify s).0)
  run-mutation (create_answered call a) s = omega (arith, create_answer-mutation call a s)
  run-mutation rename_call s = omega (arith, (rename_view-Later (active_saved_view s) s).0)
  run-mutation (rename_answered (answered v)) s = omega arith
  run-mutation (rename_answered (refused message)) s = omega arith
  run-mutation delete_call s = omega (arith, (delete_view-Later s.deleting_view s).0)
  run-mutation (delete_answered call (answered done)) s = omega arith
  run-mutation (delete_answered call (refused message)) s = omega arith
  run-mutation (chosen value) s = omega (arith, (choose_view-Kept value s).0)
  run-mutation (edited search name renamed renaming deleting columns servers) s = omega arith

  run_all-mutation :
      (es : List Event) (s : ViewsState)
      → s.mutation_generation ≤ (run_all in_order stringify es s).mutation_generation
  unfolding run_all
  run_all-mutation [] s = omega arith
  run_all-mutation (e ∷ es) s =
      omega (arith, run-mutation e s, run_all-mutation es (run in_order stringify e s))

  run_all-ends_mutation :
      (before after : List Event) (e : Event) (s : ViewsState)
      → ends_mutation e ≡ true
      → s.mutation_generation
        < (run_all in_order stringify (before ++ e ∷ after) s).mutation_generation
  unfolding run_all
  run_all-ends_mutation [] after e s h =
      ground (arith, run-mutation e s, run_all-mutation after (run in_order stringify e s))
  run_all-ends_mutation (b ∷ before) after e s h =
      ground (
        arith,
        run-mutation b s,
        run_all-ends_mutation before after e (run in_order stringify b s) h,
      )

  -- A list that was asked for before a creation, a renaming or a deletion ended, whatever its result and
  -- whatever happens before and after, no longer changes the views.
  pub load_answer-ends_mutation :
      (s : ViewsState) (before after : List Event) (e : Event) (a : Answer (List ServerView))
      → ends_mutation e ≡ true
      → let asked = load_start s in
        let now = run_all in_order stringify (before ++ e ∷ after) asked.1 in
        (load_answer asked.0 a now).saved_views ≡ now.saved_views
  unfolding load_start
  load_answer-ends_mutation s before after e a h =
      let asked = load_start s in
      load_answer-old asked.0 a (run_all in_order stringify (before ++ e ∷ after) asked.1)
        (run_all-ends_mutation before after e asked.1 h)

  run-create_lock :
      (e : Event) (s : ViewsState)
      → ends_create e ≡ false
      → s.create_lock ≡ true
      → (run in_order stringify e s).create_lock ≡ true
  unfolding run load_start rename_start rename_answer rename_end delete_start delete_answer
      delete_end finish_views_mutation
  run-create_lock list_call s out h = h
  run-create_lock (list_answered t a) s out h = (load_answer-Kept t a s).1 ∙ h
  run-create_lock create_call s out h = (create_start-Later stringify s).1 h
  run-create_lock (create_answered call a) s out h = ground arith
  run-create_lock rename_call s out h = (rename_view-Later (active_saved_view s) s).1 h
  run-create_lock (rename_answered (answered v)) s out h = h
  run-create_lock (rename_answered (refused message)) s out h = h
  run-create_lock delete_call s out h = (delete_view-Later s.deleting_view s).1 h
  run-create_lock (delete_answered call (answered done)) s out h = h
  run-create_lock (delete_answered call (refused message)) s out h = h
  run-create_lock (chosen value) s out h = (choose_view-Kept value s).1 ∙ h
  run-create_lock (edited search name renamed renaming deleting columns servers) s out h = h

  run_all-create_lock :
      (es : List Event) (s : ViewsState)
      → any ends_create es ≡ false
      → s.create_lock ≡ true
      → (run_all in_order stringify es s).create_lock ≡ true
  unfolding run_all
  run_all-create_lock [] s out h = h
  run_all-create_lock (e ∷ es) s out h =
      run_all-create_lock es (run in_order stringify e s) (ground arith)
        (run-create_lock e s (ground arith) h)

  -- Behind a creation that was sent, until its answer, another press of the button sends nothing and
  -- changes nothing, whatever happens in between.
  pub create_start_alone :
      (s : ViewsState) (call : CreateCall) (es : List Event)
      → (create_start stringify s).0 ≡ some call
      → any ends_create es ≡ false
      → let now = run_all in_order stringify es (create_start stringify s).1 in
        create_start stringify now ≡ (none, now)
  create_start_alone s call es sent out = create_start-locked stringify _ (
      run_all-create_lock es (create_start stringify s).1 out
        (create_start-create_lock stringify s call sent))
