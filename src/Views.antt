-- ===== src/Views.antt =====
-- webui/frontend/src/pages/probe/serverViews.ts: saved views of the server list. A signature is the
-- object that the source passes to `JSON.stringify`, before it becomes text.
pub mod Tests
pub mod Laws
use mathlib.Core.Option.{Option, none, some}
use mathlib.Core.List.{List, []}
use native.Mathlib.Omega.{arith}
use frpc_multi.Base.Tests.{or_else}
use frpc_multi.Base.Text.{Text}
use frpc_multi.Servers.Query.{
  ServerQuery, ServerConn, all_conn, ServerSort, Order, TagMode, any_tag,
}
use frpc_multi.Servers.Update.{Changes}

pub data ServerViewColumn : Type 0 where
  ip_column group_column tags_column route_column : ServerViewColumn
  connectivity_column speed_column last_test_time_column : ServerViewColumn

-- The filters of a view; `none` is an absent property.
pub record ViewFilters : Type 0 where
  pub q : Option Text
  pub group : Option Text
  pub label : Option Text
  pub tag_id : Option Text
  pub group_ids : Option (List Text)
  pub include_tag_ids : Option (List Text)
  pub exclude_tag_ids : Option (List Text)
  pub tag_mode : Option TagMode
  pub conn : Option ServerConn

pub record ViewPayload : Type 0 where
  pub filters : ViewFilters
  pub sort : ServerSort
  pub order : Order
  pub visible_columns : List ServerViewColumn

-- `ServerView`; `filters` is absent in what an old server answers.
pub record ServerView : Type 0 where
  pub id : Text
  pub name : Text
  pub filters : Option ViewFilters
  pub sort : ServerSort
  pub order : Order
  pub visible_columns : List ServerViewColumn
  pub created_at : Text
  pub updated_at : Text

unfoldable pub saved_view_payload : ServerQuery → List ServerViewColumn → ViewPayload
saved_view_payload query columns = record {
  filters = record {
    q = some (or_else query.q []);
    group = query.group;
    label = query.label;
    tag_id = query.tag_id;
    group_ids = some (or_else query.group_ids []);
    include_tag_ids = some (or_else query.include_tag_ids []);
    exclude_tag_ids = some (or_else query.exclude_tag_ids []);
    tag_mode = some (or_else query.tag_mode any_tag);
    conn = some query.conn;
  };
  sort = query.sort;
  order = query.order;
  visible_columns = columns;
}

abbrev no_filters : ViewFilters
no_filters = record {
  q = none;
  group = none;
  label = none;
  tag_id = none;
  group_ids = none;
  include_tag_ids = none;
  exclude_tag_ids = none;
  tag_mode = none;
  conn = none;
}

unfoldable pub query_from_saved_view : ServerView → Changes
query_from_saved_view view =
    let filters = or_else view.filters no_filters in
    record {
      page = none;
      page_size = none;
      q = some (some (or_else filters.q []));
      group = some filters.group;
      label = some filters.label;
      tag_id = some filters.tag_id;
      group_ids = some (some (or_else filters.group_ids []));
      include_tag_ids = some (some (or_else filters.include_tag_ids []));
      exclude_tag_ids = some (some (or_else filters.exclude_tag_ids []));
      tag_mode = some (some (or_else filters.tag_mode any_tag));
      cursor = none;
      conn = some (or_else filters.conn all_conn);
      sort = some view.sort;
      order = some view.order;
    }

pub record DraftFilters : Type 0 where
  pub q : Text
  pub group : Option Text
  pub label : Option Text
  pub tag_id : Option Text
  pub group_ids : List Text
  pub include_tag_ids : List Text
  pub exclude_tag_ids : List Text
  pub tag_mode : TagMode
  pub conn : ServerConn

pub record DraftSignature : Type 0 where
  pub filters : DraftFilters
  pub sort : ServerSort
  pub order : Order
  pub visible_columns : List ServerViewColumn

unfoldable pub server_view_draft_signature :
    ServerQuery → Text → List ServerViewColumn → DraftSignature
server_view_draft_signature query search columns = record {
  filters = record {
    q = search;
    group = query.group;
    label = query.label;
    tag_id = query.tag_id;
    group_ids = or_else query.group_ids [];
    include_tag_ids = or_else query.include_tag_ids [];
    exclude_tag_ids = or_else query.exclude_tag_ids [];
    tag_mode = or_else query.tag_mode any_tag;
    conn = query.conn;
  };
  sort = query.sort;
  order = query.order;
  visible_columns = columns;
}
