-- ===== src/Pages/Candidates/Library.antt =====
-- webui/frontend/src/pages/DomainCandidatesDialog.tsx: the library behind a cursor. `none` is the
-- cursor `undefined`, of the first page.
use frpc_multi.Servers.Query.{ServerConn}
use frpc_multi.Base.Text.{codes, Text, trim, ◌===◌}
use frpc_multi.Base.Answers.{Answer, answered, refused}
use frpc_multi.Base.Assoc.{nat_eq, contains}
use Prim.Native.Nat.{ℕ, ◌+◌}
use mathlib.Core.Bool.{Bool, true, false, not, ◌&&◌, ◌||◌}
use mathlib.Core.Option.{Option, none, some}
use mathlib.Core.List.{List, [], ◌∷◌, ◌++◌}
use frpc_multi.Base.Tests.{ltb, ◌==◌, if◌then◌else◌, or_else, leb}
use frpc_multi.Base.Lists.{length, is_empty, last?}

-- `D` is a server of the library.
pub record Library (D : Type 0) : Type 0 where
  pub query_text : Text
  pub query : Text
  pub conn : ServerConn
  pub library : List D
  pub library_total : Option ℕ
  pub library_cursor : Option Text
  pub library_next_cursor : Option Text
  pub cursor_trail : List (Option Text)
  pub library_loading : Bool
  pub library_error : Text
  pub library_request : ℕ
  pub aborted : List ℕ

-- The two answers that the effect waits for.
pub record LibraryPage (D : Type 0) : Type 0 where
  pub items : List D
  pub next_cursor : Option Text
  pub total : ℕ

-- What the effect captures: its number, and the cursor and the trail of its render.
pub record LibraryTicket : Type 0 where
  pub request : ℕ
  pub cursor : Option Text
  pub trail : List (Option Text)

-- `trail.slice(0, -1)`
unfoldable pub drop_end : List (Option Text) → List (Option Text)
drop_end [] = []
drop_end (x ∷ []) = []
drop_end (x ∷ y ∷ xs) = x ∷ drop_end (y ∷ xs)

-- `trail[trail.length - 1]`, and `undefined` of an empty trail
abbrev pub end_of : List (Option Text) → Option Text
end_of trail = or_else (last? trail) none

-- A cursor that is not the empty text.
abbrev pub is_cursor : Option Text → Bool
is_cursor none = false
is_cursor (some t) = not (is_empty t)

module _ {D : Type 0} where
  -- The timer that takes over the query that is typed.
  unfoldable pub take_query : Library D → Library D
  take_query s =
      if trim s.query_text === s.query
      then s
      else record s { query = trim s.query_text; cursor_trail = none ∷ []; library_cursor = none }

  unfoldable pub change_conn : ServerConn → Library D → Library D
  change_conn conn s = record s { conn = conn; cursor_trail = none ∷ []; library_cursor = none }

  -- The buttons of the page before and the next page.
  unfoldable pub back_page : Library D → Library D
  back_page s =
      let back = record s {
        cursor_trail = drop_end s.cursor_trail;
        library_cursor = end_of (drop_end s.cursor_trail);
      } in
      if leb (length s.cursor_trail) 1 || s.library_loading then s else back

  unfoldable pub next_page : Library D → Library D
  next_page s =
      let next = record s {
        cursor_trail = s.cursor_trail ++ s.library_next_cursor ∷ [];
        library_cursor = s.library_next_cursor;
      } in
      if s.library_loading || not (is_cursor s.library_next_cursor) then s else next

  unfoldable pub library_start : Library D → LibraryTicket × Library D
  library_start s =
      let request = s.library_request + 1 in
      (
        record { request = request; cursor = s.library_cursor; trail = s.cursor_trail },
        record s { library_request = request; library_loading = true; library_error = [] },
      )

  -- The cleanup of the effect.
  unfoldable pub library_leave : LibraryTicket → Library D → Library D
  library_leave t s = record s { aborted = t.request ∷ s.aborted }

  -- An empty page behind a cursor: the trail of the state loses its end, and the cursor is the one before
  -- the end of the trail that the effect captured.
  unfoldable pub step_back : LibraryTicket → Library D → Library D
  step_back t s = record s {
    cursor_trail = drop_end s.cursor_trail;
    library_cursor = end_of (drop_end t.trail);
  }

  unfoldable pub library_handle : LibraryTicket → Answer (LibraryPage D) → Library D → Library D
  library_handle t (answered result) s =
      let shown = record s {
        library = result.items;
        library_total = some result.total;
        library_next_cursor = result.next_cursor;
      } in
      if is_cursor t.cursor && is_empty result.items && ltb 1 (length t.trail)
      then step_back t shown
      else shown
  library_handle t (refused message) s = record s {
    library_error = or_else message (codes "服务器库加载失败");
  }

  -- The effect behind its calls.
  unfoldable pub library_answer : LibraryTicket → Answer (LibraryPage D) → Library D → Library D
  library_answer t a s =
      let handled = if contains t.request s.aborted then s else library_handle t a s in
      if t.request == s.library_request then record handled { library_loading = false } else s
