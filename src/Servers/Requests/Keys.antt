-- ===== src/Servers/Requests/Keys.antt =====
-- `countKeyFor`, `facetKeyFor` and `facetRequestKeyFor` of useServers.ts. A key is the object that
-- the source passes to `JSON.stringify`, before it becomes text.
use Prim.Native.Nat.{ℕ}
use mathlib.Core.Option.{Option}
use mathlib.Core.List.{List}
use native.Mathlib.Decide.{ℕ_discrete}
use frpc_multi.Base.Text.{Text}
use frpc_multi.Servers.Query.{ServerQuery, ServerConn, ServerSort, TagMode}

pub record FacetKey : Type 0 where
  pub q : Option Text
  pub group : Option Text
  pub group_ids : Option (List Text)
  pub label : Option Text
  pub tag_id : Option Text
  pub include_tag_ids : Option (List Text)
  pub exclude_tag_ids : Option (List Text)
  pub tag_mode : Option TagMode
  pub conn : ServerConn

unfoldable pub facet_key_for : ServerQuery → FacetKey
facet_key_for query = record {
  q = query.q;
  group = query.group;
  group_ids = query.group_ids;
  label = query.label;
  tag_id = query.tag_id;
  include_tag_ids = query.include_tag_ids;
  exclude_tag_ids = query.exclude_tag_ids;
  tag_mode = query.tag_mode;
  conn = query.conn;
}

pub record CountKey : Type 0 where
  pub filters : FacetKey
  pub sort : ServerSort

unfoldable pub count_key_for : ServerQuery → CountKey
count_key_for query = record { filters = facet_key_for query; sort = query.sort }

pub record FacetRequestKey : Type 0 where
  pub filters : FacetKey
  pub tag_search : Text
  pub tag_page : ℕ

unfoldable pub facet_request_key_for : ServerQuery → Text → ℕ → FacetRequestKey
facet_request_key_for query tag_search tag_page = record {
  filters = facet_key_for query;
  tag_search = tag_search;
  tag_page = tag_page;
}

unfoldable pub TagMode-discrete : Discrete TagMode
TagMode-discrete = hlevel

unfoldable pub ServerConn-discrete : Discrete ServerConn
ServerConn-discrete = hlevel

unfoldable pub FacetKey-discrete : Discrete FacetKey
FacetKey-discrete = hlevel (ℕ_discrete, TagMode-discrete, ServerConn-discrete)

unfoldable pub FacetRequestKey-discrete : Discrete FacetRequestKey
FacetRequestKey-discrete = hlevel (ℕ_discrete, FacetKey-discrete)
