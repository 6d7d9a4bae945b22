-- ===== src/Pages/SavedViews.antt =====
-- webui/frontend/src/pages/Probe.tsx: the saved views of the server page, with the generations that drop
-- late lists and the locks of the three calls that change a view. Each asynchronous function is cut at
-- its `await`. `in_order` is `localeCompare` not above 0, `stringify` is `JSON.stringify`.
pub mod Laws
pub mod Listed
pub mod Tests
use frpc_multi.Base.Text.{Text, ◌===◌, trim}
use frpc_multi.Base.Answers.{Answer, answered, refused}
use frpc_multi.Servers.Update.{QueryState, set_search, apply_saved_view}
use frpc_multi.Views.{
  ServerView, ServerViewColumn, ViewPayload, DraftSignature, saved_view_payload,
  query_from_saved_view, server_view_draft_signature,
}
use Prim.Native.Nat.{ℕ, ◌+◌}
use mathlib.Core.Bool.{Bool, true, false, not, ◌&&◌, ◌||◌}
use mathlib.Core.Option.{Option, none, some}
use mathlib.Core.List.{List, [], ◌∷◌, ◌++◌, map}
use native.Mathlib.Omega.{arith}
use frpc_multi.Base.Tests.{◌==◌, if◌then◌else◌, or_else}
use frpc_multi.Base.Lists.{is_empty, filter}

pub record ViewsState : Type 0 where
  pub server_search : Text
  pub saved_views : List ServerView
  pub saved_view_id : Text
  pub saved_view_name : Text
  pub rename_view_name : Text
  pub renaming_view : Bool
  pub deleting_view : Option ServerView
  pub views_loading : Bool
  pub creating_view : Bool
  pub saving_view_name : Bool
  pub deleting_view_busy : Bool
  pub request_generation : ℕ
  pub mutation_generation : ℕ
  pub create_lock : Bool
  pub rename_lock : Bool
  pub delete_lock : Bool
  pub visible_columns : List ServerViewColumn
  pub servers : QueryState

-- The view with the id of the selection, `activeSavedView`.
unfoldable pub find_view : Text → List ServerView → Option ServerView
find_view id [] = none
find_view id (view ∷ views) = if view.id === id then some view else find_view id views

unfoldable pub active_saved_view : ViewsState → Option ServerView
active_saved_view s = find_view s.saved_view_id s.saved_views

unfoldable pub begin_views_mutation : ViewsState → ViewsState
begin_views_mutation s = record s {
  mutation_generation = s.mutation_generation + 1;
  request_generation = s.request_generation + 1;
  views_loading = false;
}

unfoldable pub finish_views_mutation : ViewsState → ViewsState
finish_views_mutation s = record s {
  mutation_generation = s.mutation_generation + 1;
  request_generation = s.request_generation + 1;
}

-- What `loadSavedViews` keeps across its call.
pub record LoadTicket : Type 0 where
  pub request : ℕ
  pub mutation : ℕ

unfoldable pub load_start : ViewsState → LoadTicket × ViewsState
load_start s = (
  record { request = s.request_generation + 1; mutation = s.mutation_generation },
  record s { request_generation = s.request_generation + 1; views_loading = true },
)

-- The `finally` of `loadSavedViews`.
unfoldable pub load_end : LoadTicket → ViewsState → ViewsState
load_end t s = if t.request == s.request_generation then record s { views_loading = false } else s

unfoldable pub load_answer : LoadTicket → Answer (List ServerView) → ViewsState → ViewsState
load_answer t (answered items) s =
    let kept = record s { saved_views = items } in
    if t.request == s.request_generation && t.mutation == s.mutation_generation
    then load_end t kept
    else load_end t s
load_answer t (refused message) s = load_end t s

-- `applyServerView`, and what a created view is followed by. Without `filters` the reading of `q` throws
-- behind the first two changes.
unfoldable pub show_view : ServerView → ViewsState → ViewsState
show_view view s =
    let named = record s { saved_view_id = view.id; visible_columns = view.visible_columns } in
    elim view.filters [
      | none ↦ named
      | some filters ↦ record named {
        server_search = or_else filters.q [];
        servers = apply_saved_view (query_from_saved_view view) s.servers;
      }
    ]

abbrev pub show_found : Option ServerView → ViewsState → ViewsState
show_found none s = s
show_found (some view) s = show_view view s

-- The choice in the list of views, which is closed while a call runs; `none` is the entry of no view.
unfoldable pub choose_view : Option Text → ViewsState → ViewsState
choose_view none s =
    if s.views_loading || s.creating_view || s.saving_view_name || s.deleting_view_busy
    then s
    else record s { saved_view_id = [] }
choose_view (some id) s =
    if s.views_loading || s.creating_view || s.saving_view_name || s.deleting_view_busy
    then s
    else show_found (find_view id s.saved_views) s

-- What `createServerView` sends and keeps across its call.
pub record CreateCall : Type 0 where
  pub name : Text
  pub payload : ViewPayload
  pub signature : Text

-- What `deleteServerView` keeps across its call: the view and the selection of its render.
pub record DeleteCall : Type 0 where
  pub view : ServerView
  pub selected : Text

abbrev pub without : Text → List ServerView → List ServerView
without id views = filter (λ (view : ServerView). not (view.id === id)) views

unfoldable pub replace_view : ServerView → List ServerView → List ServerView
replace_view updated views =
    map (λ (view : ServerView). if view.id === updated.id then updated else view) views

module _ (in_order : Text → Text → Bool) where
  -- `sort` by the name, which keeps the order of equal ones.
  unfoldable pub insert_view : ServerView → List ServerView → List ServerView
  insert_view v [] = v ∷ []
  insert_view v (w ∷ ws) =
      let later = w ∷ insert_view v ws in if in_order v.name w.name then v ∷ w ∷ ws else later

  unfoldable pub sort_views : List ServerView → List ServerView
  sort_views [] = []
  sort_views (v ∷ vs) = insert_view v (sort_views vs)

module _ (stringify : DraftSignature → Text) where
  -- `createServerView`
  unfoldable pub create_start : ViewsState → Option CreateCall × ViewsState
  create_start s =
      let name = trim s.saved_view_name in
      let query = record s.servers.query { q = some s.server_search } in
      let call : CreateCall = record {
        name = name;
        payload = saved_view_payload query s.visible_columns;
        signature = stringify (server_view_draft_signature query s.server_search s.visible_columns);
      } in
      let begun = begin_views_mutation (record s { create_lock = true; creating_view = true }) in
      if is_empty name
      then (none, s)
      else if s.create_lock
      then (none, s)
      else (some call, record begun { servers = set_search s.server_search s.servers })

unfoldable pub create_end : ViewsState → ViewsState
create_end s = finish_views_mutation (record s { create_lock = false; creating_view = false })

module _ (in_order : Text → Text → Bool) (stringify : DraftSignature → Text) where
  unfoldable pub created_view : CreateCall → ServerView → ViewsState → ViewsState
  created_view call created s =
      let listed = record s {
        saved_views = sort_views in_order (without created.id s.saved_views ++ created ∷ []);
        saved_view_name = [];
      } in
      let signature =
        stringify (server_view_draft_signature s.servers.query s.server_search s.visible_columns) in
      if signature === call.signature
      then show_view created listed
      else record listed { saved_view_id = [] }

  unfoldable pub create_answer : CreateCall → Answer ServerView → ViewsState → ViewsState
  create_answer call (answered created) s = create_end (created_view call created s)
  create_answer call (refused message) s = create_end s

unfoldable pub rename_view : Option ServerView → ViewsState → Option (Text × Text) × ViewsState
rename_view none s = (none, s)
rename_view (some view) s =
    let name = trim s.rename_view_name in
    let begun = begin_views_mutation (record s { rename_lock = true; saving_view_name = true }) in
    if is_empty name || s.rename_lock then (none, s) else (some (view.id, name), begun)

-- `renameServerView`: the id and the new name of the request.
unfoldable pub rename_start : ViewsState → Option (Text × Text) × ViewsState
rename_start s = rename_view (active_saved_view s) s

unfoldable pub rename_end : ViewsState → ViewsState
rename_end s = finish_views_mutation (record s { rename_lock = false; saving_view_name = false })

module _ (in_order : Text → Text → Bool) where
  unfoldable pub rename_answer : Answer ServerView → ViewsState → ViewsState
  rename_answer (answered updated) s = rename_end (record s {
    saved_views = sort_views in_order (replace_view updated s.saved_views);
    renaming_view = false;
  })
  rename_answer (refused message) s = rename_end s

unfoldable pub delete_view : Option ServerView → ViewsState → Option DeleteCall × ViewsState
delete_view none s = (none, s)
delete_view (some view) s =
    let begun = begin_views_mutation (record s { delete_lock = true; deleting_view_busy = true }) in
    if s.delete_lock
    then (none, s)
    else (some (record { view = view; selected = s.saved_view_id }), begun)

-- `deleteServerView`
unfoldable pub delete_start : ViewsState → Option DeleteCall × ViewsState
delete_start s = delete_view s.deleting_view s

unfoldable pub delete_end : ViewsState → ViewsState
delete_end s = finish_views_mutation (record s { delete_lock = false; deleting_view_busy = false })

unfoldable pub delete_answer : DeleteCall → Answer Unit → ViewsState → ViewsState
delete_answer call (answered done) s = delete_end (record s {
  saved_views = without call.view.id s.saved_views;
  saved_view_id = if call.selected === call.view.id then [] else s.saved_view_id;
  deleting_view = none;
})
delete_answer call (refused message) s = delete_end s
