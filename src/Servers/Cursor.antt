-- ===== src/Servers/Cursor.antt =====
-- The pages behind a cursor in useServers.ts: `loadCursorTrail`, `cursorIndex`, `navigateCursor`.
pub mod Laws
use Prim.Native.Nat.{ℕ, suc, ◌+◌, ◌-◌, max}
use mathlib.Core.Bool.{Bool, true}
use mathlib.Core.Option.{Option, none, some}
use mathlib.Core.List.{List, [], ◌∷◌, ◌++◌}
use frpc_multi.Base.Tests.{ltb, if◌then◌else◌, or_else}
use frpc_multi.Base.Lists.{take, last?}
use frpc_multi.Base.Text.{Text, ◌===◌}
use frpc_multi.Servers.Query.{ServerQuery}

-- What `navigateCursor` reads and writes: the query, the trail of cursors (whose first is the empty
-- text), the answer to the last request, `pushUrlRef` and the stored copy of the trail.
pub record CursorState : Type 0 where
  pub query : ServerQuery
  pub trail : List Text
  pub next_cursor : Option Text
  pub has_more : Bool
  pub push_url : Bool
  pub stored : Option (List Text)

-- `none` is what `JSON.parse` or the tests refuse.
unfoldable pub load_cursor_trail : Option (List Text) → List Text
load_cursor_trail none = [] ∷ []
load_cursor_trail (some []) = [] ∷ []
load_cursor_trail (some (c ∷ trail)) = c ∷ trail

-- `Math.max(0, trail.lastIndexOf(c))`
unfoldable pub last_index_of : Text → List Text → Option ℕ
last_index_of c [] = none
last_index_of c (d ∷ trail) = elim (last_index_of c trail) [
  | none ↦ if d === c then some 0 else none
  | some i ↦ some (suc i)
]

unfoldable pub cursor_index : CursorState → ℕ
cursor_index s = or_else (last_index_of (or_else s.query.cursor []) s.trail) 0

pub data Direction : Type 0 where
  next previous : Direction

-- `x || undefined`
abbrev pub truthy : Option Text → Option Text
truthy none = none
truthy (some []) = none
truthy (some (c ∷ t)) = some (c ∷ t)

abbrev move : CursorState → List Text → Option Text → ℕ → CursorState
move s trail cursor page = record s {
  trail = trail;
  stored = some trail;
  push_url = true;
  query = record s.query { page = page; cursor = cursor };
}

unfoldable pub navigate_cursor : Direction → CursorState → CursorState
navigate_cursor next s =
    let index = cursor_index s in
    let onward = if s.has_more then truthy s.next_cursor else none in
    elim onward [
      | none ↦ s
      | some c ↦ move s (take (suc index) s.trail ++ c ∷ []) (some c) (s.query.page + 1)
    ]
navigate_cursor previous s =
    let index = cursor_index s in
    let back = take index s.trail in
    if ltb 0 index then move s back (truthy (last? back)) (max 1 (s.query.page - 1)) else s
