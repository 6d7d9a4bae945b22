-- ===== src/Views/Laws.antt =====
-- A saved view gives back the query that it was saved from.
use mathlib.Core.Path.{◌≡◌, refl}
use mathlib.Core.Option.{none, some}
use mathlib.Core.List.{List, []}
use frpc_multi.Base.Tests.{or_else}
use frpc_multi.Base.Text.{Text}
use frpc_multi.Servers.Query.{ServerQuery}
use frpc_multi.Servers.Update.{QueryState, spread, apply_saved_view}
use frpc_multi.Views.{
  ServerView, ServerViewColumn, saved_view_payload, query_from_saved_view,
  server_view_draft_signature,
}

-- If a view holds what was saved from a query, then applying it in any state gives a query with the
-- draft signature of the saved one and the same search text, on page 1 without a cursor, at the state's
-- page size.
pub apply_saved_view-query_from_saved_view :
    (query : ServerQuery) (columns : List ServerViewColumn) (view : ServerView) (s : QueryState)
    (search : Text)
    → view.filters ≡ some (saved_view_payload query columns).filters
    → view.sort ≡ query.sort
    → view.order ≡ query.order
    → let restored = (apply_saved_view (query_from_saved_view view) s).query in
      (server_view_draft_signature restored search columns
        ≡ server_view_draft_signature query search columns)
      × (restored.q ≡ some (or_else query.q []))
      × (restored.page ≡ 1)
      × (restored.cursor ≡ none)
      × (restored.page_size ≡ s.query.page_size)
unfolding apply_saved_view query_from_saved_view saved_view_payload spread
    server_view_draft_signature
apply_saved_view-query_from_saved_view query columns view s search e f g =
    rw (e, f, g) (refl, refl, refl, refl, refl)
