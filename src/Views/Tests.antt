-- ===== src/Views/Tests.antt =====
-- The theorem on saved views at a concrete view.
use mathlib.Core.Path.{◌≡◌, refl}
use mathlib.Core.Bool.{false}
use mathlib.Core.Option.{none, some}
use mathlib.Core.List.{List, [], ◌∷◌}
use frpc_multi.Base.Text.{codes}
use frpc_multi.Servers.Query.{ServerQuery, pass, by_speed, by_ip, all_conn, desc, asc, all_tags}
use frpc_multi.Servers.Update.{QueryState, apply_saved_view}
use frpc_multi.Views.{
  ServerView, ServerViewColumn, ip_column, speed_column, saved_view_payload, query_from_saved_view,
  server_view_draft_signature,
}
use frpc_multi.Views.Laws.{apply_saved_view-query_from_saved_view}

abbrev saved : ServerQuery
saved = record {
  page = 3;
  page_size = 100;
  q = none;
  group = none;
  label = some [];
  tag_id = none;
  group_ids = some (codes "g1" ∷ codes "g2" ∷ []);
  include_tag_ids = none;
  exclude_tag_ids = none;
  tag_mode = none;
  cursor = some (codes "c1");
  conn = pass;
  sort = by_speed;
  order = desc;
}

abbrev columns : List ServerViewColumn
columns = ip_column ∷ speed_column ∷ []

abbrev view : ServerView
view = record {
  id = codes "v1";
  name = codes "fast";
  filters = some (saved_view_payload saved columns).filters;
  sort = by_speed;
  order = desc;
  visible_columns = columns;
  created_at = [];
  updated_at = [];
}

abbrev current : QueryState
current = record {
  query = record saved {
    group = some (codes "g");
    conn = all_conn;
    sort = by_ip;
    order = asc;
    tag_mode = some all_tags;
    page_size = 25;
  };
  tag_search = [];
  tag_page = 2;
  push_url = false;
}

apply_saved_view-query_from_saved_view_example :
    let restored = (apply_saved_view (query_from_saved_view view) current).query in
    (server_view_draft_signature restored [] columns ≡ server_view_draft_signature saved [] columns)
    × (restored.q ≡ some [])
    × (restored.page ≡ 1)
    × (restored.cursor ≡ none)
    × (restored.page_size ≡ 25)
apply_saved_view-query_from_saved_view_example =
    apply_saved_view-query_from_saved_view saved columns view current [] refl refl refl
