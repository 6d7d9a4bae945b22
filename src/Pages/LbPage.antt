-- ===== src/Pages/LbPage.antt =====
-- webui/frontend/src/pages/LbPage.tsx: the page of the balanced domains: its filters in the address,
-- its data, and what it asks the console to do. The child has the dialog of a domain.
pub mod Dialog
pub mod Laws
pub mod Tests
use frpc_multi.Base.Text.{codes, Text, trim, ◌===◌}
use frpc_multi.Base.Answers.{Answer, answered, refused}
use frpc_multi.Base.Assoc.{text_eq, nat_eq, get, put, delete}
use frpc_multi.Domains.{
  LbDomain, LbHealth, DomainRow, DomainFilters, read_domain_filters, domain_rows,
  filter_domain_rows,
}
use frpc_multi.Pages.TestNodes.{TestNode}
use frpc_multi.Servers.Query.{Params, delete_all, set_or_delete}
use Prim.Native.Nat.{ℕ, ◌+◌}
use mathlib.Core.Bool.{Bool, true, false, not, ◌&&◌, ◌||◌}
use mathlib.Core.Option.{Option, none, some}
use mathlib.Core.List.{List, [], ◌∷◌}
use native.Mathlib.Omega.{arith}
use frpc_multi.Base.Tests.{◌==◌, if◌then◌else◌, or_else, is_some}
use frpc_multi.Base.Lists.{is_empty, all}

pub record CloudflareZone : Type 0 where
  pub id : Text
  pub name : Text

-- `healthSource` has one value.
pub record LbSelectionConfig : Type 0 where
  pub node_id : Text
  pub max_age_hours : ℕ

pub record LbPage : Type 0 where
  pub domains : List LbDomain
  pub health : Option LbHealth
  pub token_configured : Bool
  pub zones : List CloudflareZone
  pub loading : Bool
  pub selection_config : Option LbSelectionConfig
  pub primary_node_name : Text
  pub load_error : Text
  pub params : Params
  pub query_text : Text
  pub refreshing : Bool
  pub request_id : ℕ
  pub syncing : List (ℕ × Bool)

-- The effect on the query of the address; `replaced` tells `REPLACE` from other navigations.
unfoldable pub follow_query : Bool → LbPage → LbPage
follow_query replaced s =
    if replaced then s else record s { query_text = or_else (get (codes "q") s.params) [] }

unfoldable pub page_filters : LbPage → DomainFilters
page_filters s = record (read_domain_filters s.params) { q = s.query_text }

unfoldable pub visible_rows : (Text → Text) → LbPage → List DomainRow
visible_rows lower s = filter_domain_rows lower (domain_rows s.domains s.health) (page_filters s)

unfoldable pub inspected : ℕ → List DomainRow → Option DomainRow
inspected id [] = none
inspected id (row ∷ rows) =
    let rest = inspected id rows in if row.domain.id == id then some row else rest

unfoldable pub is_filtered : LbPage → Bool
is_filtered s =
    let filters = page_filters s in
    not (is_empty (trim filters.q))
    || is_some filters.enabled
    || is_some filters.health
    || is_some filters.sync

pub data FilterKey : Type 0 where
  q enabled health sync : FilterKey

abbrev pub key_text : FilterKey → Text
key_text q = codes "q"
key_text enabled = codes "enabled"
key_text health = codes "health"
key_text sync = codes "sync"

abbrev pub is_query : FilterKey → Bool
is_query q = true
is_query _ = false

-- The value that the address keeps for a filter, if any.
abbrev pub kept_value : FilterKey → Text → Option Text
kept_value key value =
    if not (is_empty value) && (is_query key || not (value === codes "all"))
    then some value
    else none

abbrev pub write_value : Text → Option Text → Params → Params
write_value key none params = delete key params
write_value key (some value) params = put key value params

-- `updateFilter`: the new parameters, and whether they replace the entry of the history.
unfoldable pub update_filter : FilterKey → Text → Text → Params → Params × Bool
update_filter key value query_text params =
    let typed = if is_query key then params else set_or_delete (codes "q") query_text params in
    (write_value (key_text key) (kept_value key value) typed, is_query key)

unfoldable pub clear_filters : LbPage → LbPage
clear_filters s = record s {
  query_text = [];
  params = delete_all (codes "q" ∷ codes "enabled" ∷ codes "health" ∷ codes "sync" ∷ []) s.params;
}

-- The parameters of the address of a domain's details.
unfoldable pub list_params : LbPage → Params
list_params s = set_or_delete (codes "q") s.query_text s.params

-- What `load` reads; the nodes are empty where reading them fails.
pub record Loaded : Type 0 where
  pub domains : List LbDomain
  pub configured : Bool
  pub health : LbHealth
  pub selection : LbSelectionConfig
  pub nodes : List TestNode
  pub primary_node_id : Option Text

unfoldable pub name_of : Text → List TestNode → Text
name_of id [] = []
name_of id (node ∷ nodes) =
    let rest = name_of id nodes in if node.id === id then node.name else rest

-- `a || b` on texts
abbrev pub or_text : Text → Text → Text
or_text a b = if is_empty a then b else a

unfoldable pub primary_name : List TestNode → Option Text → Text
primary_name nodes none = codes "未配置"
primary_name nodes (some id) = or_text (name_of id nodes) (or_text id (codes "未配置"))

-- `load` up to its first `await`, the effect's cleanup, and `load` behind its `await`s.
unfoldable pub load_start : LbPage → ℕ × LbPage
load_start s =
    let request = s.request_id + 1 in
    (request, record s { request_id = request; refreshing = true })

unfoldable pub load_leave : LbPage → LbPage
load_leave s = record s { request_id = s.request_id + 1 }

abbrev load_handle : Answer Loaded → LbPage → LbPage
load_handle (answered r) s = record s {
  domains = r.domains;
  token_configured = r.configured;
  health = some r.health;
  selection_config = some r.selection;
  primary_node_name = primary_name r.nodes r.primary_node_id;
  load_error = [];
}
load_handle (refused message) s = record s { load_error = or_else message (codes "域名数据加载失败") }

unfoldable pub load_answer : ℕ → Answer Loaded → LbPage → LbPage
load_answer request a s =
    if request == s.request_id
    then record (load_handle a s) { loading = false; refreshing = false }
    else s

-- `syncNow` up to its first `await`, and its end.
unfoldable pub sync_start : ℕ → LbPage → LbPage
sync_start id s = record s { syncing = put id true s.syncing }

unfoldable pub sync_end : ℕ → LbPage → LbPage
sync_end id s = record s { syncing = delete id s.syncing }
