-- ===== src/Servers/Update/Laws.antt =====
-- What the setters of the query have in common.
use native.Mathlib.Omega.{arith}
use Prim.Native.Nat.{ℕ}
use mathlib.Core.Path.{◌≡◌, refl}
use mathlib.Core.Logic.{inl, inr}
use mathlib.Core.Bool.{true, false, not}
use mathlib.Core.Option.{Option, none, some}
use mathlib.Core.List.{List, [], ◌∷◌}
use frpc_multi.Base.Tests.{Bool-cases, or_else}
use frpc_multi.Base.Lists.{filter}
use frpc_multi.Base.Text.{Text, ◌===◌, ===_iff}
use frpc_multi.Base.Assoc.{text_eq, contains}
use frpc_multi.Servers.Query.{ServerConn, ServerSort, Order, TagMode}
use frpc_multi.Servers.Update.{
  set_search, Changes, spread, QueryState, update_query, set_group, set_group_ids, set_label,
  set_tag_id, set_include_tag_ids, set_exclude_tag_ids, set_tag_mode, set_conn, set_sort,
  set_page_size, apply_saved_view,
}

-- The setters that change what is listed.
pub data Setter : Type 0 where
  to_group : Text → Setter
  to_group_ids : List Text → Setter
  to_label : Option Text → Setter
  to_tag_id : Option Text → Setter
  to_include_tag_ids : List Text → Setter
  to_exclude_tag_ids : List Text → Setter
  to_tag_mode : TagMode → Setter
  to_conn : ServerConn → Setter
  to_sort : ServerSort → Order → Setter
  to_page_size : ℕ → Setter
  to_saved_view : Changes → Setter
  to_search : Text → Setter

unfoldable pub run_setter : Setter → QueryState → QueryState
run_setter (to_group group) = set_group group
run_setter (to_group_ids ids) = set_group_ids ids
run_setter (to_label label) = set_label label
run_setter (to_tag_id tag) = set_tag_id tag
run_setter (to_include_tag_ids ids) = set_include_tag_ids ids
run_setter (to_exclude_tag_ids ids) = set_exclude_tag_ids ids
run_setter (to_tag_mode mode) = set_tag_mode mode
run_setter (to_conn conn) = set_conn conn
run_setter (to_sort sort order) = set_sort sort order
run_setter (to_page_size size) = set_page_size size
run_setter (to_saved_view changes) = apply_saved_view changes
run_setter (to_search q) = set_search q

-- The state is at the first page, without a cursor, at the first tag candidates, and the address is
-- going to be pushed.
pub record IsReset (s : QueryState) : Type 0 where
  pub page : s.query.page ≡ 1
  pub cursor : s.query.cursor ≡ none
  pub tag_page : s.tag_page ≡ 1
  pub push_url : s.push_url ≡ true

update_query-IsReset :
    (c : Changes) (s : QueryState) → c.cursor ≡ none → IsReset (update_query c true s)
unfolding update_query spread
update_query-IsReset c s h = record {
  page = refl;
  cursor = ground arith;
  tag_page = refl;
  push_url = refl;
}

-- A search for the text that is already searched for, where no search is the empty text.
abbrev pub SameSearch : Setter → QueryState → Type 0
SameSearch (to_search q) s = or_else s.query.q [] ≡ q
SameSearch _ s = ⊥

-- Every setter that changes what is listed starts again at the first page, unless it is the search with
-- the text that is already searched for: no page number, cursor or page of tag candidates outlives the
-- listing that it belonged to.
pub run_setter-IsReset :
    (setter : Setter) (s : QueryState) → ¬ SameSearch setter s → IsReset (run_setter setter s)
unfolding run_setter set_group set_group_ids set_label set_tag_id set_include_tag_ids
    set_exclude_tag_ids set_tag_mode set_conn set_sort set_page_size apply_saved_view set_search
run_setter-IsReset (to_group group) s h = update_query-IsReset _ s refl
run_setter-IsReset (to_group_ids ids) s h = update_query-IsReset _ s refl
run_setter-IsReset (to_label label) s h = update_query-IsReset _ s refl
run_setter-IsReset (to_tag_id none) s h = update_query-IsReset _ s refl
run_setter-IsReset (to_tag_id (some [])) s h = update_query-IsReset _ s refl
run_setter-IsReset (to_tag_id (some (c ∷ t))) s h = update_query-IsReset _ s refl
run_setter-IsReset (to_include_tag_ids ids) s h = update_query-IsReset _ s refl
run_setter-IsReset (to_exclude_tag_ids ids) s h = update_query-IsReset _ s refl
run_setter-IsReset (to_tag_mode mode) s h = update_query-IsReset _ s refl
run_setter-IsReset (to_conn conn) s h = update_query-IsReset _ s refl
run_setter-IsReset (to_sort sort order) s h = update_query-IsReset _ s refl
run_setter-IsReset (to_page_size size) s h = update_query-IsReset _ s refl
run_setter-IsReset (to_saved_view changes) s h = record {
  page = refl;
  cursor = refl;
  tag_page = refl;
  push_url = refl;
}
run_setter-IsReset (to_search q) s h = elim (Bool-cases (or_else s.query.q [] === q)) [
  | inl e ↦ absurd (h ((===_iff (or_else s.query.q []) q).0 e))
  | inr e ↦ rw e (update_query-IsReset _ s refl)
]

contains-filter_out :
    (t : Text) (ids : List Text) → contains t (filter (λ id. not (id === t)) ids) ≡ false
unfolding contains
contains-filter_out t [] = refl
contains-filter_out t (x ∷ ids) = elim (Bool-cases (x === t)) [
  | inl e ↦ rw e (contains-filter_out t ids)
  | inr e ↦ rw e (rw e (contains-filter_out t ids))
]

-- Choosing a tag to list ends its exclusion and every inclusion, so that the query never asks for a tag
-- and against it.
pub set_tag_id-exclude_tag_ids :
    (c : ℕ) (t : Text) (s : QueryState)
    → let query = (set_tag_id (some (c ∷ t)) s).query in
      (query.tag_id ≡ some (c ∷ t))
      × (query.include_tag_ids ≡ none)
      × (contains (c ∷ t) (or_else query.exclude_tag_ids []) ≡ false)
unfolding set_tag_id update_query spread
set_tag_id-exclude_tag_ids c t s =
    (refl, refl, contains-filter_out (c ∷ t) (or_else s.query.exclude_tag_ids []))
