-- ===== src/Pages/SavedViews/Listed.antt =====
-- The list of views behind a creation, a renaming and a deletion.
use frpc_multi.Base.Text.{Text, ◌===◌, ===_refl}
use frpc_multi.Base.Answers.{answered}
use frpc_multi.Views.{ServerView, DraftSignature}
use frpc_multi.Pages.SavedViews.{
  ViewsState, CreateCall, DeleteCall, show_view, find_view, insert_view, sort_views, without,
  finish_views_mutation, created_view, create_end, create_answer, delete_end, delete_answer,
}
use mathlib.Core.Path.{◌≡◌, refl, ap, ◌∙◌}
use mathlib.Core.Logic.{inl, inr}
use mathlib.Core.Bool.{Bool, false}
use mathlib.Core.Option.{none, some}
use mathlib.Core.List.{List, [], ◌∷◌, ◌++◌}
use native.Mathlib.Omega.{arith}
use frpc_multi.Base.Tests.{Bool-cases, Option-cases}

find_view-without : (id : Text) (views : List ServerView) → find_view id (without id views) ≡ none
unfolding find_view
find_view-without id [] = refl
find_view-without id (v ∷ views) = ground (arith, find_view-without id views)

show_view-saved_views :
    (view : ServerView) (s : ViewsState) → (show_view view s).saved_views ≡ s.saved_views
unfolding show_view
show_view-saved_views view s = elim (Option-cases view.filters) [
  | inl e ↦ rw e refl
  | inr (filters, e) ↦ rw e refl
]

module _ (in_order : Text → Text → Bool) where
  find_view-insert_view :
      (id : Text) (v : ServerView) (views : List ServerView)
      → (v.id === id) ≡ false
      → find_view id (insert_view in_order v views) ≡ find_view id views
  unfolding find_view insert_view
  find_view-insert_view id v [] h = ground arith
  find_view-insert_view id v (w ∷ views) h = ground (arith, find_view-insert_view id v views h)

  find_view-sort_views :
      (v : ServerView) (views : List ServerView)
      → find_view v.id (sort_views in_order (without v.id views ++ v ∷ [])) ≡ some v
  unfolding find_view sort_views insert_view
  find_view-sort_views v [] = ground (arith, ===_refl v.id)
  find_view-sort_views v (w ∷ views) = elim (Bool-cases (w.id === v.id)) [
    | inl e ↦ rw e (find_view-sort_views v views)
    | inr e ↦ rw e (
        find_view-insert_view v.id w (sort_views in_order (without v.id views ++ v ∷ [])) e
        ∙ find_view-sort_views v views)
  ]

module _ (in_order : Text → Text → Bool) (stringify : DraftSignature → Text) where
  created_view-saved_views :
      (call : CreateCall) (v : ServerView) (s : ViewsState)
      → (created_view in_order stringify call v s).saved_views
        ≡ sort_views in_order (without v.id s.saved_views ++ v ∷ [])
  unfolding created_view
  created_view-saved_views call v s =
      let listed = record s {
        saved_views = sort_views in_order (without v.id s.saved_views ++ v ∷ []);
        saved_view_name = [];
      } in
      ground (arith, show_view-saved_views v listed)

  -- Behind a creation the view is found under its id with what the call gave, whatever was listed under
  -- that id before; behind a deletion no view is found under the id.
  pub find_view-create_answer :
      (call : CreateCall) (v : ServerView) (gone : DeleteCall) (s : ViewsState)
      → (find_view v.id (create_answer in_order stringify call (answered v) s).saved_views ≡ some v)
        × (find_view gone.view.id (delete_answer gone (answered tt) s).saved_views ≡ none)
  unfolding create_answer create_end delete_answer delete_end finish_views_mutation
  find_view-create_answer call v gone s = (
    ap (find_view v.id) (created_view-saved_views call v s)
        ∙ find_view-sort_views in_order v s.saved_views,
    find_view-without gone.view.id s.saved_views,
  )
