-- ===== src/Servers/Selection/Laws.antt =====
-- What the selection holds after each of its operations.
use Prim.Native.Nat.{ℕ, ◌≤◌}
use mathlib.Core.Path.{◌≡◌, refl, sym, ap, ◌∙◌}
use mathlib.Core.Logic.{inl, inr}
use mathlib.Core.Bool.{Bool, true, false}
use mathlib.Core.Option.{none, some}
use mathlib.Core.List.{List, [], ◌∷◌, map}
use native.Mathlib.Omega.{arith}
use frpc_multi.Base.Tests.{◌==◌, if◌then◌else◌, ==_iff, Bool-cases, is_some}
use frpc_multi.Base.Lists.{length}
use frpc_multi.Base.Text.{Text}
use frpc_multi.Base.Assoc.{
  nat_eq, get, put, delete, has, without, contains, get-put, get-delete, get-without,
}
use frpc_multi.Servers.Selection.{
  Selection, Row, toggle_selected, toggle_current_page, remove_selected,
}

-- Toggling selects an unselected server with its address, unselects a selected one, and leaves every
-- other server as it is.
pub get-toggle_selected :
    (id j : ℕ) (ip : Text) (s : Selection)
    → get j (toggle_selected id ip s)
      ≡ (if id == j then (if has id s then none else some ip) else get j s)
unfolding toggle_selected
get-toggle_selected id j ip s = elim (Bool-cases (has id s)) [
  | inl there ↦ rw there (get-delete id j s)
  | inr missing ↦ rw missing (get-put id j ip s)
]

abbrev pub row_ids : List Row → List ℕ
row_ids items = map (λ item. item.id) items

toggle_current_page_other :
    (items : List Row) (checked : Bool) (j : ℕ) (s : Selection)
    → contains j (row_ids items) ≡ false
    → get j (toggle_current_page items checked s) ≡ get j s
unfolding toggle_current_page contains
toggle_current_page_other [] checked j s h = refl
toggle_current_page_other (item ∷ items) true j s h =
    toggle_current_page_other items true j (put item.id item.ip s) (ground arith)
    ∙ get-put item.id j item.ip s
    ∙ ground arith
toggle_current_page_other (item ∷ items) false j s h =
    toggle_current_page_other items false j (delete item.id s) (ground arith)
    ∙ get-delete item.id j s
    ∙ ground arith

has_kept :
    (items : List Row) (j : ℕ) (s : Selection)
    → has j s ≡ true
    → has j (toggle_current_page items true s) ≡ true
unfolding toggle_current_page
has_kept [] j s h = h
has_kept (item ∷ items) j s h =
    has_kept items j (put item.id item.ip s) (ground (arith, get-put item.id j item.ip s))

gone_kept :
    (items : List Row) (j : ℕ) (s : Selection)
    → has j s ≡ false
    → has j (toggle_current_page items false s) ≡ false
unfolding toggle_current_page
gone_kept [] j s h = h
gone_kept (item ∷ items) j s h =
    gone_kept items j (delete item.id s) (ground (arith, get-delete item.id j s))

toggle_current_page_rows :
    (items : List Row) (checked : Bool) (j : ℕ) (s : Selection)
    → contains j (row_ids items) ≡ true
    → has j (toggle_current_page items checked s) ≡ checked
unfolding toggle_current_page contains
toggle_current_page_rows [] checked j s h = cc
toggle_current_page_rows (item ∷ items) true j s h = elim (Bool-cases (item.id == j)) [
  | inl same ↦
      has_kept items j (put item.id item.ip s) (ground (arith, get-put item.id j item.ip s))
  | inr other ↦ toggle_current_page_rows items true j (put item.id item.ip s) (ground arith)
]
toggle_current_page_rows (item ∷ items) false j s h = elim (Bool-cases (item.id == j)) [
  | inl same ↦ gone_kept items j (delete item.id s) (ground (arith, get-delete item.id j s))
  | inr other ↦ toggle_current_page_rows items false j (delete item.id s) (ground arith)
]

-- After the box of the page is set or cleared, a server of the page is selected exactly if the box is
-- set, and any other server exactly if it was selected before.
pub has-toggle_current_page :
    (items : List Row) (checked : Bool) (j : ℕ) (s : Selection)
    → has j (toggle_current_page items checked s)
      ≡ (if contains j (row_ids items) then checked else has j s)
has-toggle_current_page items checked j s = elim (Bool-cases (contains j (row_ids items))) [
  | inl on_page ↦ rw on_page (toggle_current_page_rows items checked j s on_page)
  | inr other ↦ rw other (ap is_some (toggle_current_page_other items checked j s other))
]

length-without-le : (ids : List ℕ) (m : Selection) → length (without ids m) ≤ length m
unfolding without
length-without-le ids [] = omega arith
length-without-le ids ((i, ip) ∷ m) = ground (arith, length-without-le ids m)

without_same :
    (ids : List ℕ) (m : Selection) → length (without ids m) ≡ length m → without ids m ≡ m
unfolding without
without_same ids [] h = refl
without_same ids ((i, ip) ∷ m) h = ground (arith, length-without-le ids m, without_same ids m)

-- The removed servers are gone and the others keep their addresses, on both branches of the test
-- on the sizes.
pub get-remove_selected :
    (ids : List ℕ) (j : ℕ) (s : Selection)
    → get j (remove_selected ids s) ≡ (if contains j ids then none else get j s)
unfolding remove_selected
get-remove_selected ids j s = elim (Bool-cases (length (without ids s) == length s)) [
  | inl same ↦
      rw same (ap (get j) (sym (without_same ids s ((==_iff _ _).0 same))) ∙ get-without ids j s)
  | inr fewer ↦ rw fewer (get-without ids j s)
]
