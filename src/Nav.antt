-- ===== src/Nav.antt =====
-- webui/frontend/src/lib/nav.ts: the entries of the navigation and the one of a path. Hints and icons
-- are left out.
pub mod Laws
pub mod Tests
use Prim.Native.Nat.{◌+◌, ◌/◌}
use Prim.Native.String.{String}
use mathlib.Core.Bool.{Bool, ◌||◌}
use mathlib.Core.Option.{Option, none, some}
use mathlib.Core.List.{List, [], ◌∷◌, ◌++◌}
use native.Mathlib.Omega.{arith}
use frpc_multi.Base.Tests.{◌==◌, if◌then◌else◌}
use frpc_multi.Base.Text.{Text, codes, ◌===◌, starts_with}

pub record NavItem : Type 0 where
  pub to : Text
  pub label : Text

pub record NavGroup : Type 0 where
  pub label : Text
  pub items : List NavItem

abbrev item : String → String → NavItem
item to label = record { to = codes to; label = codes label }

abbrev pub instances_item : NavItem
instances_item = item "/instances" "实例"

abbrev pub operations : NavGroup
operations = record { label = codes "部署与运维"; items = instances_item ∷ item "/nodes" "部署节点" ∷ [] }

abbrev pub nav_groups : List NavGroup
nav_groups =
    record { label = codes "总览"; items = item "/workspace" "工作台" ∷ [] }
    ∷ record {
      label = codes "资源与测试";
      items =
          item "/discovery" "网段发现"
          ∷ item "/servers" "服务器库"
          ∷ item "/tests" "测试任务"
          ∷ item "/results" "测试结果"
          ∷ item "/lb" "域名选优"
          ∷ item "/test-nodes" "测试节点"
          ∷ [];
    }
    ∷ operations
    ∷ record { label = codes "系统"; items = item "/audit" "操作记录" ∷ item "/system" "系统设置" ∷ [] }
    ∷ []

-- `pathname === item.to || pathname.startsWith(`${item.to}/`)`
unfoldable pub leads_to : Text → NavItem → Bool
leads_to pathname item = pathname === item.to || starts_with (item.to ++ codes "/") pathname

unfoldable pub first_item : Text → List NavItem → Option NavItem
first_item pathname [] = none
first_item pathname (item ∷ items) =
    let later = first_item pathname items in if leads_to pathname item then some item else later

unfoldable pub first_group : Text → List NavGroup → Option (NavItem × Text)
first_group pathname [] = none
first_group pathname (group ∷ groups) =
    let later = first_group pathname groups in
    elim (first_item pathname group.items) [ none ↦ later | some item ↦ some (item, group.label) ]

unfoldable pub find_active_nav : Text → Option (NavItem × Text)
find_active_nav pathname =
    if pathname === codes "/instances/new"
    then some (instances_item, operations.label)
    else first_group pathname nav_groups
