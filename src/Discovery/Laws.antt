-- ===== src/Discovery/Laws.antt =====
-- What a selection of hits holds after each of its operations, and when an answer counts.
use Prim.Native.Nat.{ℕ, ◌+◌, ◌≤◌, ◌<◌}
use mathlib.Core.Path.{◌≡◌, refl, sym, ap, ◌∙◌}
use mathlib.Core.Bool.{Bool, true, false, not, ◌&&◌, ◌||◌}
use mathlib.Core.Option.{Option, none, some}
use mathlib.Core.List.{List, [], ◌∷◌, ◌++◌}
use native.Mathlib.Omega.{arith}
use frpc_multi.Base.Tests.{◌==◌, if◌then◌else◌, ==_iff, ==_refl}
use frpc_multi.Base.Lists.{any, filter}
use frpc_multi.Base.Assoc.{nat_eq, contains}
use frpc_multi.Discovery.{
  FacetsState, facets_start, facets_answer, facets_live, DiscoverResult, DiscoverPage,
  DiscoverTicket, DiscoverState, refresh_start, refresh_answer, is_live, last_page, leave, add,
  remove, toggle_selected, toggle_current_page,
}

contains-append :
    (id : ℕ) (xs ys : List ℕ) → contains id (xs ++ ys) ≡ contains id xs || contains id ys
unfolding contains
contains-append id [] ys = refl
contains-append id (x ∷ xs) ys = ground (arith, contains-append id xs ys)

contains-add : (id j : ℕ) (xs : List ℕ) → contains j (add id xs) ≡ (id == j || contains j xs)
unfolding contains
contains-add id j xs = ground (arith, ==_iff id j, contains-append j xs (id ∷ []))

contains-filter :
    (p : ℕ → Bool) (j : ℕ) (xs : List ℕ) → contains j (filter p xs) ≡ contains j xs && p j
unfolding contains
contains-filter p j [] = refl
contains-filter p j (x ∷ xs) = ground (arith, ==_iff x j, contains-filter p j xs)

-- Toggling a hit turns its own membership round and leaves every other one.
pub contains-toggle_selected :
    (id j : ℕ) (current : List ℕ)
    → contains j (toggle_selected id current)
      ≡ (if id == j then not (contains j current) else contains j current)
unfolding toggle_selected
contains-toggle_selected id j current = ground (
  arith,
  ==_iff id j,
  ==_iff j id,
  contains-add id j current,
  contains-filter (λ x. not (x == id)) j current,
)

-- Some hit of the page that is not in the library has this id.
abbrev pub selectable : ℕ → List DiscoverResult → Bool
selectable j items = any (λ item. not item.in_library && item.id == j) items

-- Checking or unchecking a page selects or deselects just the page's hits that are not in the library.
pub contains-toggle_current_page :
    (items : List DiscoverResult) (checked : Bool) (j : ℕ) (current : List ℕ)
    → contains j (toggle_current_page items checked current)
      ≡ (if selectable j items then checked else contains j current)
unfolding toggle_current_page
contains-toggle_current_page [] checked j current = ground arith
contains-toggle_current_page (item ∷ items) checked j current = ground (
  arith,
  ==_iff item.id j,
  ==_iff j item.id,
  contains-add item.id j current,
  contains-filter (λ x. not (x == item.id)) j current,
  contains-toggle_current_page items checked j current,
  contains-toggle_current_page items checked j (add item.id current),
  contains-toggle_current_page items checked j (remove item.id current),
)

refresh_answer_dead :
    (s : DiscoverState) (t : DiscoverTicket) (next : Option DiscoverPage)
    → is_live t s ≡ false
    → refresh_answer t next s ≡ s
unfolding refresh_answer
refresh_answer_dead s t none h = refl
refresh_answer_dead s t (some next) h = rw h refl

newer_request :
    (s : DiscoverState) (recover recover' visible : Bool) (t : DiscoverTicket)
    → (refresh_start visible recover s).0 ≡ some t
    → is_live t (refresh_start true recover' (refresh_start visible recover s).1).1 ≡ false
unfolding refresh_start is_live
newer_request s recover recover' true t h = ground arith
newer_request s recover recover' false t h = ground arith

-- An answer to a request that a newer one has followed, or during which the page was left, changes
-- nothing.
pub refresh_answer_stale :
    (s : DiscoverState) (recover recover' visible : Bool) (t : DiscoverTicket)
    (next : Option DiscoverPage)
    → (refresh_start visible recover s).0 ≡ some t
    → let s1 = (refresh_start visible recover s).1 in
      let s2 = (refresh_start true recover' s1).1 in
      (refresh_answer t next s2 ≡ s2) × (refresh_answer t next (leave s1) ≡ leave s1)
unfolding leave is_live
refresh_answer_stale s recover recover' visible t next h =
    let s1 = (refresh_start visible recover s).1 in
    (
      refresh_answer_dead (refresh_start true recover' s1).1 t next
          (newer_request s recover recover' visible t h),
      refresh_answer_dead (leave s1) t next refl,
    )

fresh_live :
    (s : DiscoverState) (recover : Bool) (t : DiscoverTicket)
    → t.generation ≡ s.generation + 1
    → is_live t (refresh_start true recover s).1 ≡ true
unfolding refresh_start is_live
fresh_live s recover t h = ground arith

-- the ticket that a poll in this state gets
abbrev pub poll_ticket : DiscoverState → DiscoverTicket
poll_ticket s = record { generation = s.generation + 1; requested = s.query; recover = true }

-- a poll in this state that is answered before anything else happens
abbrev pub poll : DiscoverPage → DiscoverState → DiscoverState
poll next s = refresh_answer (poll_ticket s) (some next) (refresh_start true true s).1

poll_beyond :
    (s : DiscoverState) (next : DiscoverPage) (last : ℕ)
    → last_page next.total next.page_size ≡ some last
    → last < s.query.page
    → poll next s ≡ record s {
      query = record s.query { page = last };
      generation = s.generation + 1;
      live = some (s.generation + 1);
    }
unfolding refresh_start refresh_answer is_live
poll_beyond s next last e h = rw (==_refl (s.generation + 1), e) (ground arith)

poll_within :
    (s : DiscoverState) (next : DiscoverPage) (last : ℕ)
    → last_page next.total next.page_size ≡ some last
    → s.query.page ≤ last
    → (poll next s).page ≡ next × (poll next s).query ≡ s.query
unfolding refresh_start refresh_answer is_live
poll_within s next last e h = rw (==_refl (s.generation + 1), e) (ground arith, ground arith)

-- A poll that asked for a page beyond the last one shows no new rows and sends the query to the last
-- page; the next poll, if its answer is the same, shows that answer and leaves the query alone.
pub poll_twice :
    (s : DiscoverState) (next : DiscoverPage) (last : ℕ)
    → last_page next.total next.page_size ≡ some last
    → last < s.query.page
    → let s1 = poll next s in
      let s2 = poll next s1 in
      (s1.page ≡ s.page) × (s1.query.page ≡ last) × (s2.page ≡ next) × (s2.query ≡ s1.query)
poll_twice s next last e h =
    let moved : DiscoverState = record s {
      query = record s.query { page = last };
      generation = s.generation + 1;
      live = some (s.generation + 1);
    } in
    let b = poll_beyond s next last e h in
    let (shown, kept) = poll_within moved next last e (omega arith) in
    (
      ap (λ x. x.page) b,
      ap (λ x. x.query.page) b,
      ap (λ x. (poll next x).page) b ∙ shown,
      ap (λ x. (poll next x).query) b ∙ kept ∙ sym (ap (λ x. x.query) b),
    )

-- The facets of the latest call are shown, and those of the call before it are not, in whichever order
-- the two answers arrive.
pub facets_answer_order :
    {F : Type 0} (s : FacetsState F) (older newer : F)
    → let s2 = (facets_start true (facets_start true s).1).1 in
      let first = s.generation + 1 in
      let second = first + 1 in
      ((facets_answer second (some newer) (facets_answer first (some older) s2)).facets ≡ newer)
      × ((facets_answer first (some older) (facets_answer second (some newer) s2)).facets ≡ newer)
unfolding facets_start facets_answer facets_live
facets_answer_order s older newer =
    let same = ==_refl (s.generation + 1 + 1) in (ground (arith, same), ground (arith, same))
