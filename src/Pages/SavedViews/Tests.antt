-- ===== src/Pages/SavedViews/Tests.antt =====
-- The theorems on saved views at concrete views, and a list that stays in loading.
use frpc_multi.Base.Text.{trim, trim_start, trim_end, is_space, Text, codes}
use frpc_multi.Base.Answers.{answered, refused}
use frpc_multi.Servers.Query.{ServerQuery, all_conn, by_ip, asc}
use frpc_multi.Views.{ServerView, DraftSignature, saved_view_payload, server_view_draft_signature}
use frpc_multi.Pages.SavedViews.{
  ViewsState, CreateCall, DeleteCall, load_start, load_answer, load_end, find_view,
  begin_views_mutation, finish_views_mutation, create_start, create_end, create_answer,
  delete_answer,
}
use frpc_multi.Pages.SavedViews.Laws.{
  chosen, create_answered, load_answer-ends_mutation, create_start_alone, run_all,
}
use frpc_multi.Pages.SavedViews.Listed.{find_view-create_answer}
use mathlib.Core.Path.{◌≡◌, refl}
use mathlib.Core.Bool.{Bool, true, false}
use mathlib.Core.Option.{none, some}
use mathlib.Core.List.{[], ◌∷◌, ◌++◌}
use frpc_multi.Base.Tests.{leb}
use frpc_multi.Base.Lists.{length}

abbrev query : ServerQuery
query = record {
  page = 1;
  page_size = 100;
  q = none;
  group = none;
  label = none;
  tag_id = none;
  group_ids = none;
  include_tag_ids = none;
  exclude_tag_ids = none;
  tag_mode = none;
  cursor = none;
  conn = all_conn;
  sort = by_ip;
  order = asc;
}

abbrev fast : ServerView
fast = record {
  id = codes "v1";
  name = codes "fast";
  filters = none;
  sort = by_ip;
  order = asc;
  visible_columns = [];
  created_at = [];
  updated_at = [];
}

abbrev page : ViewsState
page = record {
  server_search = [];
  saved_views = [];
  saved_view_id = [];
  saved_view_name = codes "fast";
  rename_view_name = [];
  renaming_view = false;
  deleting_view = none;
  views_loading = false;
  creating_view = false;
  saving_view_name = false;
  deleting_view_busy = false;
  request_generation = 0;
  mutation_generation = 0;
  create_lock = false;
  rename_lock = false;
  delete_lock = false;
  visible_columns = [];
  servers = record { query = query; tag_search = []; tag_page = 1; push_url = false };
}

abbrev by_length : Text → Text → Bool
by_length a b = leb (length a) (length b)

abbrev as_search : DraftSignature → Text
as_search signature = signature.filters.q

abbrev sent : CreateCall
sent = record {
  name = codes "fast";
  payload = saved_view_payload (record query { q = some [] }) [];
  signature = [];
}

load_answer-ends_mutation_example :
    let asked = load_start page in
    let now =
      run_all by_length as_search ([] ++ create_answered sent (answered fast) ∷ []) asked.1 in
    (load_answer asked.0 (answered []) now).saved_views ≡ now.saved_views
load_answer-ends_mutation_example =
    load_answer-ends_mutation by_length as_search page [] [] (create_answered sent (answered fast))
      (answered []) refl

start_sends : (create_start as_search page).0 ≡ some sent
unfolding create_start server_view_draft_signature saved_view_payload trim trim_end trim_start
    is_space
start_sends = refl

create_start_alone_example :
    let now = run_all by_length as_search (chosen none ∷ []) (create_start as_search page).1 in
    create_start as_search now ≡ (none, now)
create_start_alone_example =
    create_start_alone by_length as_search page sent (chosen none ∷ []) start_sends refl

find_view-create_answer_example :
    let gone : DeleteCall = record { view = fast; selected = [] } in
    let s = record page { saved_views = record fast { name = codes "old" } ∷ [] } in
    (find_view (codes "v1") (create_answer by_length as_search sent (answered fast) s).saved_views
      ≡ some fast)
    × (find_view (codes "v1") (delete_answer gone (answered tt) s).saved_views ≡ none)
find_view-create_answer_example =
    find_view-create_answer by_length as_search sent fast (record { view = fast; selected = [] })
      (record page { saved_views = record fast { name = codes "old" } ∷ [] })

-- A list that is asked for while a view is created, and comes behind it, leaves the page in loading.
still_loading :
    let asked = load_start (create_start as_search page).1 in
    (load_answer asked.0
      (answered [])
      (create_answer by_length as_search sent (refused none) asked.1)).views_loading
    ≡ true
unfolding load_start load_answer load_end create_start begin_views_mutation create_answer create_end
    finish_views_mutation trim trim_end trim_start is_space
still_loading = refl
