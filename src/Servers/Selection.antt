-- ===== src/Servers/Selection.antt =====
-- The selection across pages in useServers.ts: a map from server ids to addresses.
pub mod Laws
use Prim.Native.Nat.{ℕ}
use mathlib.Core.Bool.{Bool}
use mathlib.Core.List.{List, [], ◌∷◌}
use frpc_multi.Base.Tests.{◌==◌, if◌then◌else◌}
use frpc_multi.Base.Lists.{length}
use frpc_multi.Base.Text.{Text}
use frpc_multi.Base.Assoc.{nat_eq, put, delete, has, without}

abbrev pub Selection : Type 0
Selection = List (ℕ × Text)

-- The fields of a row that the selection reads.
pub record Row : Type 0 where
  pub id : ℕ
  pub ip : Text

unfoldable pub toggle_selected : ℕ → Text → Selection → Selection
toggle_selected id ip current = if has id current then delete id current else put id ip current

unfoldable pub toggle_current_page : List Row → Bool → Selection → Selection
toggle_current_page [] checked current = current
toggle_current_page (item ∷ items) checked current =
    toggle_current_page items checked
      (if checked then put item.id item.ip current else delete item.id current)

-- The test on the sizes only keeps the object, not its content.
unfoldable pub remove_selected : List ℕ → Selection → Selection
remove_selected ids current =
    let next = without ids current in if length next == length current then current else next
