-- ===== src/Servers/Requests.antt =====
-- The three requests of useServers.ts: `refreshPage`, `refreshCount` and `refreshFacets`, each cut at
-- its `await` into the call and the arrival of the answer, and the effect that hides the tab. A
-- request's AbortController is named by its generation, which starts at 1.
pub mod Keys
pub mod Latest
use Prim.Native.Nat.{ℕ, zero, suc, ◌+◌, ◌/◌, max}
use mathlib.Core.Bool.{Bool, true, false, not, ◌&&◌, ◌||◌}
use mathlib.Core.Option.{Option, none, some}
use mathlib.Core.List.{List, ◌∷◌}
use native.Mathlib.Omega.{arith}
use frpc_multi.Base.Tests.{ltb, ◌==◌, if◌then◌else◌, or_else}
use frpc_multi.Base.Text.{Text}
use frpc_multi.Base.Assoc.{nat_eq, contains}
use frpc_multi.Servers.Query.{ServerQuery, ServerSort, by_ip, Order}
use frpc_multi.Servers.Requests.Keys.{
  FacetKey, CountKey, FacetRequestKey, facet_key_for, count_key_for, facet_request_key_for,
  FacetRequestKey-discrete,
}

-- `ServerPage` of lib/types.ts, over the type of its rows.
pub record ServerPage (D : Type 0) : Type 0 where
  pub items : List D
  pub page : ℕ
  pub page_size : ℕ
  pub total : ℕ
  pub sort : ServerSort
  pub order : Order

-- What an awaited call gives; `aborted` is the `AbortError` of `fetch`.
pub data Answer (A : Type 0) : Type 0 where
  answered : A → Answer A
  aborted : Answer A
  failed : (message : Text) → Answer A

-- The answers of `serversCursor` and of `servers`.
pub data PageAnswer (D : Type 0) : Type 0 where
  cursor_page : (items : List D) (next_cursor : Option Text) (has_more : Bool) → PageAnswer D
  server_page : ServerPage D → PageAnswer D

-- What the rest of an asynchronous call has captured.
pub record Ticket : Type 0 where
  pub generation : ℕ
  pub requested : ServerQuery

-- `captured_total` is `totalCount` when the callback was made.
pub record PageState (D : Type 0) : Type 0 where
  pub query : ServerQuery
  pub captured_total : Option ℕ
  pub page : ServerPage D
  pub next_cursor : Option Text
  pub has_more : Bool
  pub loading : Bool
  pub error : Option Text
  pub generation : ℕ
  pub aborted_controllers : List ℕ

-- `Math.max(1, Math.ceil(total / pageSize))`; no number is above the result of a division by 0.
unfoldable pub last_page : ℕ → ℕ → Option ℕ
last_page total zero = none
last_page total (suc n) = some (max 1 ((total + n) / suc n))

abbrev is_by_ip : ServerSort → Bool
is_by_ip by_ip = true
is_by_ip _ = false

module _ {D : Type 0} where
  -- `refreshPage` up to its `await`; `visible` is `isVisible()`.
  unfoldable pub page_start : Bool → PageState D → Option Ticket × PageState D
  page_start false s = (none, s)
  page_start true s =
      let generation = s.generation + 1 in
      (
        some (record { generation = generation; requested = s.query }),
        record s {
          aborted_controllers = s.generation ∷ s.aborted_controllers;
          generation = generation;
          loading = true;
          error = none;
        },
      )

  -- The statements behind the two tests on `aborted` and `generation`.
  unfoldable pub page_accept : Ticket → Bool → PageAnswer D → PageState D → PageState D
  page_accept t recover (cursor_page items next_cursor has_more) s = record s {
    page = record {
      items = items;
      page = t.requested.page;
      page_size = t.requested.page_size;
      total = or_else s.captured_total 0;
      sort = t.requested.sort;
      order = t.requested.order;
    };
    next_cursor = next_cursor;
    has_more = has_more;
  }
  page_accept t recover (server_page next) s = elim (last_page next.total next.page_size) [
    | none ↦ record s { page = next }
    | some last ↦
        if recover && ltb last t.requested.page
        then record s { query = record s.query { page = last } }
        else record s { page = next }
  ]

  -- `try` and `catch` behind the `await`.
  unfoldable pub page_handle : Ticket → Bool → Answer (PageAnswer D) → PageState D → PageState D
  page_handle t recover (answered next) s =
      if contains t.generation s.aborted_controllers || not (t.generation == s.generation)
      then s
      else page_accept t recover next s
  page_handle t recover aborted s = s
  page_handle t recover (failed message) s =
      if t.generation == s.generation then record s { error = some message } else s

  -- The rest of `refreshPage`, with its `finally`.
  unfoldable pub page_answer : Ticket → Bool → Answer (PageAnswer D) → PageState D → PageState D
  page_answer t recover answer s =
      let s' = page_handle t recover answer s in
      if t.generation == s'.generation then record s' { loading = false } else s'

  -- `pageController.current?.abort()` when the page is hidden.
  unfoldable pub page_hide : PageState D → PageState D
  page_hide s = record s { aborted_controllers = s.generation ∷ s.aborted_controllers }

-- The variables of `refreshCount`.
pub record CountState : Type 0 where
  pub query : ServerQuery
  pub total : Option ℕ
  pub total_key : Option CountKey
  pub loading : Bool
  pub error : Option Text
  pub error_key : Option CountKey
  pub generation : ℕ
  pub aborted_controllers : List ℕ

unfoldable pub count_start : Bool → CountState → Option Ticket × CountState
count_start visible s =
    let generation = s.generation + 1 in
    if not visible || not (is_by_ip s.query.sort) then (none, s) else (
      some (record { generation = generation; requested = s.query }),
      record s {
        aborted_controllers = s.generation ∷ s.aborted_controllers;
        generation = generation;
        loading = true;
        error = none;
        error_key = none;
      },
    )

unfoldable pub count_handle : Ticket → Answer ℕ → CountState → CountState
count_handle t (answered total) s =
    if not (contains t.generation s.aborted_controllers) && t.generation == s.generation
    then record s { total = some total; total_key = some (count_key_for t.requested) }
    else s
count_handle t aborted s = s
count_handle t (failed message) s =
    if t.generation == s.generation
    then record s { error = some message; error_key = some (count_key_for t.requested) }
    else s

unfoldable pub count_answer : Ticket → Answer ℕ → CountState → CountState
count_answer t answer s =
    let s' = count_handle t answer s in
    if t.generation == s'.generation then record s' { loading = false } else s'

-- The variables of `refreshFacets`, over the type of the facets.
pub record FacetState (F : Type 0) : Type 0 where
  pub query : ServerQuery
  pub tag_search : Text
  pub tag_page : ℕ
  pub facets : F
  pub data_key : Option FacetKey
  pub request_key : Option FacetRequestKey
  pub loading : Bool
  pub error : Option Text
  pub error_key : Option FacetRequestKey
  pub generation : ℕ
  pub aborted_controllers : List ℕ

pub record FacetTicket : Type 0 where
  pub generation : ℕ
  pub requested : ServerQuery
  pub tag_search : Text
  pub tag_page : ℕ

abbrev pub ticket_key : FacetTicket → FacetRequestKey
ticket_key t = facet_request_key_for t.requested t.tag_search t.tag_page

module _ {F : Type 0} where
  -- `facetRequestKeyRef.current`
  abbrev pub current_key : FacetState F → FacetRequestKey
  current_key s = facet_request_key_for s.query s.tag_search s.tag_page

  abbrev pub same_key : FacetTicket → FacetState F → Bool
  same_key t s = elim (FacetRequestKey-discrete (ticket_key t) (current_key s)) [
    | yes _ ↦ true
    | no _ ↦ false
  ]

  unfoldable pub facet_start : Bool → FacetState F → Option FacetTicket × FacetState F
  facet_start false s = (none, s)
  facet_start true s =
      let generation = s.generation + 1 in
      (
        some (record {
          generation = generation;
          requested = s.query;
          tag_search = s.tag_search;
          tag_page = s.tag_page;
        }),
        record s {
          aborted_controllers = s.generation ∷ s.aborted_controllers;
          generation = generation;
          loading = true;
          error = none;
          error_key = none;
        },
      )

  unfoldable pub facet_handle : FacetTicket → Answer F → FacetState F → FacetState F
  facet_handle t (answered next) s =
      if not (contains t.generation s.aborted_controllers)
        && t.generation == s.generation
        && same_key t s
      then record s {
        facets = next;
        data_key = some (facet_key_for t.requested);
        request_key = some (ticket_key t);
      }
      else s
  facet_handle t aborted s = s
  facet_handle t (failed message) s =
      if t.generation == s.generation && same_key t s
      then record s { error = some message; error_key = some (ticket_key t) }
      else s

  unfoldable pub facet_answer : FacetTicket → Answer F → FacetState F → FacetState F
  facet_answer t answer s =
      let s' = facet_handle t answer s in
      if t.generation == s'.generation then record s' { loading = false } else s'
