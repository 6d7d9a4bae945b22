-- ===== src/Nav/Tests.antt =====
-- The theorem on the navigation at a concrete path.
use mathlib.Core.Path.{◌≡◌, refl}
use mathlib.Core.Option.{some}
use frpc_multi.Base.Text.{codes, ◌===◌, starts_with}
use frpc_multi.Nav.{NavItem, leads_to, first_item, first_group, find_active_nav}

abbrev test_nodes : NavItem
test_nodes = record { to = codes "/test-nodes"; label = codes "测试节点" }

found : find_active_nav (codes "/test-nodes/4") ≡ some (test_nodes, codes "资源与测试")
unfolding find_active_nav first_group first_item leads_to ◌===◌ starts_with
found = refl
