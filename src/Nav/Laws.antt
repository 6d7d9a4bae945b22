-- ===== src/Nav/Laws.antt =====
-- The entry of a path.
use mathlib.Core.Path.{◌≡◌, refl}
use mathlib.Core.Logic.{inl, inr}
use mathlib.Core.Bool.{true}
use mathlib.Core.Option.{some}
use mathlib.Core.List.{List, [], ◌∷◌}
use native.Mathlib.Omega.{arith}
use frpc_multi.Base.Tests.{Bool-cases, Option-cases}
use frpc_multi.Base.Text.{Text, codes, ◌===◌, ===_iff, starts_with}
use frpc_multi.Nav.{
  NavItem, NavGroup, nav_groups, leads_to, first_item, first_group, find_active_nav, instances_item,
}

first_item_leads :
    (pathname : Text) (items : List NavItem) (item : NavItem)
    → first_item pathname items ≡ some item
    → leads_to pathname item ≡ true
unfolding first_item
first_item_leads pathname [] item h = ground arith
first_item_leads pathname (x ∷ items) item h = elim (Bool-cases (leads_to pathname x)) [
  | inl e ↦ ground arith
  | inr e ↦ first_item_leads pathname items item (ground arith)
]

first_group_leads :
    (pathname : Text) (groups : List NavGroup) (item : NavItem) (label : Text)
    → first_group pathname groups ≡ some (item, label)
    → leads_to pathname item ≡ true
unfolding first_group
first_group_leads pathname [] item label h = ground arith
first_group_leads pathname (group ∷ groups) item label h =
    elim (Option-cases (first_item pathname group.items)) [
      | inl e ↦ first_group_leads pathname groups item label (ground arith)
      | inr (x, e) ↦ first_item_leads pathname group.items item (ground arith)
    ]

new_instance : leads_to (codes "/instances/new") instances_item ≡ true
unfolding leads_to ◌===◌ starts_with
new_instance = refl

-- The entry of a path is one whose own path it is, or below whose path it lies.
pub find_active_nav-leads_to :
    (pathname : Text) (item : NavItem) (label : Text)
    → find_active_nav pathname ≡ some (item, label)
    → leads_to pathname item ≡ true
unfolding find_active_nav
find_active_nav-leads_to pathname item label h =
    elim (Bool-cases (pathname === codes "/instances/new")) [
      | inl e ↦
          let same = (===_iff pathname (codes "/instances/new")).0 e in
          let found : leads_to pathname instances_item ≡ true = rw same new_instance in ground arith
      | inr e ↦ first_group_leads pathname nav_groups item label (ground arith)
    ]
