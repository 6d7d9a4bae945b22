-- ===== src/Servers/Update.antt =====
-- `updateQuery` and the setters of useServers.ts.
pub mod Laws
use Prim.Native.Nat.{ℕ, max}
use mathlib.Core.Bool.{Bool, true, false, not, ◌&&◌, ◌||◌}
use mathlib.Core.Option.{Option, none, some}
use mathlib.Core.List.{List, [], ◌∷◌}
use frpc_multi.Base.Tests.{if◌then◌else◌, or_else, is_some}
use frpc_multi.Base.Lists.{filter}
use frpc_multi.Base.Text.{Text, codes, ◌===◌}
use frpc_multi.Base.Assoc.{text_eq, distinct}
use frpc_multi.Servers.Query.{ServerQuery, ServerConn, ServerSort, Order, TagMode}

-- `Partial<ServerQuery>`: `none` is an absent property, `some none` is `undefined`.
pub record Changes : Type 0 where
  pub page : Option ℕ
  pub page_size : Option ℕ
  pub q : Option (Option Text)
  pub group : Option (Option Text)
  pub label : Option (Option Text)
  pub tag_id : Option (Option Text)
  pub group_ids : Option (Option (List Text))
  pub include_tag_ids : Option (Option (List Text))
  pub exclude_tag_ids : Option (Option (List Text))
  pub tag_mode : Option (Option TagMode)
  pub cursor : Option (Option Text)
  pub conn : Option ServerConn
  pub sort : Option ServerSort
  pub order : Option Order

abbrev pub no_changes : Changes
no_changes = record {
  page = none;
  page_size = none;
  q = none;
  group = none;
  label = none;
  tag_id = none;
  group_ids = none;
  include_tag_ids = none;
  exclude_tag_ids = none;
  tag_mode = none;
  cursor = none;
  conn = none;
  sort = none;
  order = none;
}

-- `{ ...current, ...changes }`
unfoldable pub spread : ServerQuery → Changes → ServerQuery
spread current c = record {
  page = or_else c.page current.page;
  page_size = or_else c.page_size current.page_size;
  q = or_else c.q current.q;
  group = or_else c.group current.group;
  label = or_else c.label current.label;
  tag_id = or_else c.tag_id current.tag_id;
  group_ids = or_else c.group_ids current.group_ids;
  include_tag_ids = or_else c.include_tag_ids current.include_tag_ids;
  exclude_tag_ids = or_else c.exclude_tag_ids current.exclude_tag_ids;
  tag_mode = or_else c.tag_mode current.tag_mode;
  cursor = or_else c.cursor current.cursor;
  conn = or_else c.conn current.conn;
  sort = or_else c.sort current.sort;
  order = or_else c.order current.order;
}

-- The state that the setters write: the query, the page of tag candidates with its search text, and
-- `pushUrlRef`.
pub record QueryState : Type 0 where
  pub query : ServerQuery
  pub tag_search : Text
  pub tag_page : ℕ
  pub push_url : Bool

unfoldable pub update_query : Changes → Bool → QueryState → QueryState
update_query c reset s =
    let next = spread s.query c in
    record s {
      push_url = reset || s.push_url;
      tag_page = if reset then 1 else s.tag_page;
      query = record next {
        cursor = if reset && not (is_some c.cursor) then none else next.cursor;
        page = if reset then 1 else or_else c.page s.query.page;
      };
    }

unfoldable pub set_search : Text → QueryState → QueryState
set_search q s =
    if or_else s.query.q [] === q
    then s
    else update_query (record no_changes { q = some (some q) }) true s

unfoldable pub set_group : Text → QueryState → QueryState
set_group group =
    update_query
      (record no_changes {
        group = some (if group === codes "all" then none else some group);
        group_ids = some none;
      })
      true

unfoldable pub set_group_ids : List Text → QueryState → QueryState
set_group_ids ids =
    update_query (record no_changes { group = some none; group_ids = some (some (distinct ids)) })
      true

unfoldable pub set_label : Option Text → QueryState → QueryState
set_label label = update_query (record no_changes { label = some label }) true

-- `null` and the empty text both leave the include and exclude lists alone.
unfoldable pub set_tag_id : Option Text → QueryState → QueryState
set_tag_id none s =
    update_query (record no_changes { tag_id = some none; label = some none }) true s
set_tag_id (some []) s =
    update_query (record no_changes { tag_id = some (some []); label = some none }) true s
set_tag_id (some (c ∷ t)) s =
    update_query
      (record no_changes {
        tag_id = some (some (c ∷ t));
        label = some none;
        include_tag_ids = some none;
        exclude_tag_ids =
            some (some (filter (λ id. not (id === (c ∷ t))) (or_else s.query.exclude_tag_ids [])));
      })
      true s

unfoldable pub set_include_tag_ids : List Text → QueryState → QueryState
set_include_tag_ids ids =
    update_query
      (record no_changes {
        tag_id = some none;
        label = some none;
        include_tag_ids = some (some (distinct ids));
      })
      true

unfoldable pub set_exclude_tag_ids : List Text → QueryState → QueryState
set_exclude_tag_ids ids =
    update_query (record no_changes { exclude_tag_ids = some (some (distinct ids)) }) true

unfoldable pub set_tag_mode : TagMode → QueryState → QueryState
set_tag_mode mode = update_query (record no_changes { tag_mode = some (some mode) }) true

unfoldable pub set_tag_candidate_search : Text → QueryState → QueryState
set_tag_candidate_search value s = record s { tag_search = value; tag_page = 1 }

unfoldable pub set_tag_candidate_page : ℕ → QueryState → QueryState
set_tag_candidate_page value s = record s { tag_page = max 1 value }

unfoldable pub set_conn : ServerConn → QueryState → QueryState
set_conn conn = update_query (record no_changes { conn = some conn }) true

unfoldable pub set_sort : ServerSort → Order → QueryState → QueryState
set_sort sort order = update_query (record no_changes { sort = some sort; order = some order }) true

unfoldable pub apply_saved_view : Changes → QueryState → QueryState
apply_saved_view changes s = record s {
  push_url = true;
  tag_page = 1;
  query = record (spread s.query changes) { page = 1; cursor = none };
}

unfoldable pub set_page_number : ℕ → QueryState → QueryState
set_page_number next = update_query (record no_changes { page = some next }) false

unfoldable pub set_page_size : ℕ → QueryState → QueryState
set_page_size size = update_query (record no_changes { page_size = some size }) true
