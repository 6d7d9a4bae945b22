-- ===== src/Pages/TestCreate.antt =====
-- webui/frontend/src/pages/TestCreatePage.tsx: the page that creates a batch of tests. This file has the
-- state, the choices that are kept in the address, the options and the steps; the children have the
-- targets and the submission. A URLSearchParams is its list of decoded pairs.
pub mod Targets
pub mod Submit
pub mod Tests
use frpc_multi.Base.Text.{Text, ◌===◌, codes}
use frpc_multi.Base.Answers.{Answer, answered, refused}
use frpc_multi.Base.Assoc.{text_eq, get, put, delete}
use frpc_multi.Bulk.{ServerSelection}
use frpc_multi.Servers.Query.{Params, is_text, set_or_delete}
use frpc_multi.Pages.TestNodes.{TestNode, Policy}
use Prim.Native.Nat.{ℕ, ◌+◌}
use mathlib.Core.Bool.{Bool, true, false, not, ◌&&◌}
use mathlib.Core.Option.{Option, none, some}
use mathlib.Core.List.{List, [], ◌∷◌}
use native.Mathlib.Omega.{arith}
use frpc_multi.Base.Tests.{◌==◌, if◌then◌else◌, or_else, is_some}
use frpc_multi.Base.Lists.{is_empty, all, push_some}

pub data Scope : Type 0 where
  unchosen selected group manual all_servers selection : Scope

pub data Mode : Type 0 where
  full route connectivity speed : Mode

-- A colour is its name.
pub record GroupInfo : Type 0 where
  pub id : Option Text
  pub name : Text
  pub color : Text

-- The promise of a selection that is being created is known by a number.
pub record CreatePage : Type 0 where
  pub params : Params
  pub step : ℕ
  pub scope : Scope
  pub group : Text
  pub manual : Text
  pub selected : List Text
  pub nodes : List TestNode
  pub nodes_error : Text
  pub policy : Option Policy
  pub policy_error : Text
  pub options_loading : Bool
  pub groups : List GroupInfo
  pub targets : List Text
  pub target_count : Option ℕ
  pub server_selection : Option ServerSelection
  pub target_error : Text
  pub loading : Bool
  pub submitting : Bool
  pub options_request : ℕ
  pub request : ℕ
  pub selection_creation : Option (Text × ℕ)

-- `params.get(key) || ''`
abbrev pub text_of : Text → Params → Text
text_of key params = or_else (get key params) []

abbrev pub deep_link_selection_id : Params → Text
deep_link_selection_id params = text_of (codes "selectionId") params

abbrev pub scope_text : Scope → Text
scope_text unchosen = []
scope_text selected = codes "selected"
scope_text group = codes "group"
scope_text manual = codes "manual"
scope_text all_servers = codes "all"
scope_text selection = codes "selection"

abbrev pub mode_text : Mode → Text
mode_text full = codes "full"
mode_text route = codes "route"
mode_text connectivity = codes "connectivity"
mode_text speed = codes "speed"

unfoldable pub same_scope : Scope → Scope → Bool
same_scope a b = scope_text a === scope_text b

-- The scope of an address that names none.
abbrev pub implied_scope : Params → Scope
implied_scope params =
    if not (is_empty (deep_link_selection_id params))
    then selection
    else if is_some (get (codes "group") params)
    then group
    else if is_text (get (codes "selected") params) (codes "1")
    then selected
    else unchosen

-- The scope of the first render.
unfoldable pub initial_scope : Params → Scope
initial_scope params =
    if is_text (get (codes "scope") params) (codes "group")
    then group
    else if is_text (get (codes "scope") params) (codes "all")
    then all_servers
    else implied_scope params

-- `nextScope` of the layout effect.
unfoldable pub address_scope : Params → Scope
address_scope params =
    let requested = get (codes "scope") params in
    if is_text requested (codes "group")
    then group
    else if is_text requested (codes "all")
    then all_servers
    else if is_text requested (codes "manual")
    then manual
    else if is_text requested (codes "selected")
    then selected
    else if is_text requested (codes "selection")
    then selection
    else implied_scope params

unfoldable pub read_mode : Params → Mode
read_mode params =
    let asked = get (codes "mode") params in
    if is_text asked (codes "route")
    then route
    else if is_text asked (codes "connectivity")
    then connectivity
    else if is_text asked (codes "speed")
    then speed
    else full

-- The layout effect after a change of the address.
unfoldable pub follow_address : CreatePage → CreatePage
follow_address s = record s {
  scope = address_scope s.params;
  group = text_of (codes "group") s.params;
}

unfoldable pub change_scope_params : Scope → Params → Params
change_scope_params next params =
    let scoped =
      set_or_delete (codes "scope") (scope_text next) (delete (codes "selectionId") params) in
    if same_scope next group then scoped else delete (codes "group") scoped

unfoldable pub change_scope : Scope → CreatePage → CreatePage
change_scope next s = record s {
  selection_creation = none;
  scope = next;
  params = change_scope_params next s.params;
}

unfoldable pub change_group : Text → CreatePage → CreatePage
change_group next s = record s {
  selection_creation = none;
  group = next;
  params = set_or_delete (codes "group") next (delete (codes "selectionId") s.params);
}

unfoldable pub change_mode : Mode → CreatePage → CreatePage
change_mode next s = record s { params = put (codes "mode") (mode_text next) s.params }

-- `loadOptions` up to its `await`, and the effect's cleanup.
unfoldable pub options_start : CreatePage → ℕ × CreatePage
options_start s =
    let generation = s.options_request + 1 in
    (generation, record s { options_request = generation; options_loading = true })

unfoldable pub options_leave : CreatePage → CreatePage
options_leave s = record s { options_request = s.options_request + 1 }

abbrev settle_nodes : Answer (List TestNode) → CreatePage → CreatePage
settle_nodes (answered items) s = record s { nodes = items; nodes_error = [] }
settle_nodes (refused message) s = record s { nodes_error = or_else message (codes "节点列表加载失败") }

abbrev settle_groups : Answer (List GroupInfo) → CreatePage → CreatePage
settle_groups (answered items) s = record s { groups = items }
settle_groups (refused message) s = s

abbrev settle_policy : Answer Policy → CreatePage → CreatePage
settle_policy (answered next) s = record s { policy = some next; policy_error = [] }
settle_policy (refused message) s = record s {
  policy = none;
  policy_error = or_else message (codes "执行节点策略加载失败");
}

abbrev settled :
    Answer (List TestNode) → Answer Policy → Answer (List GroupInfo) → CreatePage → CreatePage
settled nodes policy groups s = settle_policy policy (settle_groups groups (settle_nodes nodes s))

-- `loadOptions` behind its `await`, without its toast.
unfoldable pub options_answer :
    ℕ → Answer (List TestNode) → Answer Policy → Answer (List GroupInfo) → CreatePage → CreatePage
options_answer generation nodes policy groups s =
    if generation == s.options_request
    then record (settled nodes policy groups s) { options_loading = false }
    else s

unfoldable pub find_node : Text → List TestNode → Option TestNode
find_node id [] = none
find_node id (node ∷ nodes) =
    let rest = find_node id nodes in if node.id === id then some node else rest

-- `primaryNode`
unfoldable pub primary_node : CreatePage → Option TestNode
primary_node s = elim s.policy [
  | none ↦ none
  | some policy ↦ elim policy.primary_node_id [
    | none ↦ none
    | some id ↦ if is_empty id then none else find_node id s.nodes
  ]
]

-- The nodes of these ids that are known, in their order.
unfoldable pub known_nodes : List Text → List TestNode → List TestNode
known_nodes [] nodes = []
known_nodes (id ∷ ids) nodes = push_some (find_node id nodes) (known_nodes ids nodes)

unfoldable pub backup_nodes : CreatePage → List TestNode
backup_nodes s = elim s.policy [
  | none ↦ []
  | some policy ↦ known_nodes policy.backup_node_ids s.nodes
]

abbrev is_configured : Option Policy → Bool
is_configured none = false
is_configured (some policy) = policy.configured

unfoldable pub policy_ready : CreatePage → Bool
policy_ready s =
    not s.options_loading
    && is_empty s.nodes_error
    && is_empty s.policy_error
    && is_configured s.policy
    && is_some (primary_node s)
