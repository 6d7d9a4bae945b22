-- ===== src/Discovery.antt =====
-- webui/frontend/src/pages/probe/useDiscovery.ts: the query of the discovery page, its requests, each
-- cut at its `await`, and its selection. `number` stands for `Number` on the texts of the address,
-- with NaN as 0; fractions, negative numbers and infinities are left out.
pub mod Tests
pub mod Laws
use Prim.Native.Nat.{ℕ, zero, suc, ◌+◌, ◌/◌, max}
use mathlib.Core.Bool.{Bool, true, false, not, ◌&&◌}
use mathlib.Core.Option.{Option, none, some}
use mathlib.Core.List.{List, [], ◌∷◌, ◌++◌}
use native.Mathlib.Omega.{arith}
use frpc_multi.Base.Tests.{ltb, ◌==◌, if◌then◌else◌, or_else}
use frpc_multi.Base.Lists.{all, filter}
use frpc_multi.Base.Text.{Text, codes, ◌===◌}
use frpc_multi.Base.Decimal.{decimal}
use frpc_multi.Base.Assoc.{text_eq, nat_eq, get, put, contains}
use frpc_multi.Servers.Query.{
  Params, number_of, Order, asc, desc, order_text, is_text, page_sizes, delete_all, put_entries,
}

pub data DiscoverLibrary : Type 0 where
  all_hits imported new_hits : DiscoverLibrary

pub data DiscoverSort : Type 0 where
  discovered_at by_ip by_latency : DiscoverSort

pub record DiscoverQuery : Type 0 where
  pub page : ℕ
  pub page_size : ℕ
  pub q : Option Text
  pub group : Option Text
  pub label : Option Text
  pub library : DiscoverLibrary
  pub sort : DiscoverSort
  pub order : Order

unfoldable pub read_library : Option Text → DiscoverLibrary
read_library t =
    if is_text t (codes "imported")
    then imported
    else if is_text t (codes "new")
    then new_hits
    else all_hits

unfoldable pub read_discover_sort : Option Text → DiscoverSort
read_discover_sort t =
    if is_text t (codes "ip")
    then by_ip
    else if is_text t (codes "latency")
    then by_latency
    else discovered_at

unfoldable pub read_discover_order : Option Text → Order
read_discover_order t = if is_text t (codes "asc") then asc else desc

-- The query that the page starts with.
unfoldable pub parse_discover_query : (Text → ℕ) → Params → DiscoverQuery
parse_discover_query number params =
    let page = number_of number (codes "page") params in
    let size = number_of number (codes "pageSize") params in
    record {
      page = max 1 (if page == 0 then 1 else page);
      page_size = if page_sizes size then size else 50;
      q = get (codes "q") params;
      group = get (codes "group") params;
      label = get (codes "label") params;
      library = read_library (get (codes "library") params);
      sort = read_discover_sort (get (codes "sort") params);
      order = read_discover_order (get (codes "order") params);
    }

unfoldable pub library_text : DiscoverLibrary → Text
library_text all_hits = codes "all"
library_text imported = codes "imported"
library_text new_hits = codes "new"

unfoldable pub discover_sort_text : DiscoverSort → Text
discover_sort_text discovered_at = codes "discoveredAt"
discover_sort_text by_ip = codes "ip"
discover_sort_text by_latency = codes "latency"

unfoldable pub discover_keys : List Text
discover_keys =
    codes "page"
    ∷ codes "pageSize"
    ∷ codes "library"
    ∷ codes "sort"
    ∷ codes "order"
    ∷ codes "q"
    ∷ codes "group"
    ∷ codes "label"
    ∷ []

-- What the effect that writes the address sets, in order.
unfoldable pub discover_entries : DiscoverQuery → List (Text × Option Text)
discover_entries query =
    (codes "page", some (decimal query.page))
    ∷ (codes "pageSize", some (decimal query.page_size))
    ∷ (codes "library", some (library_text query.library))
    ∷ (codes "sort", some (discover_sort_text query.sort))
    ∷ (codes "order", some (order_text query.order))
    ∷ (codes "q", query.q)
    ∷ (codes "group", query.group)
    ∷ (codes "label", query.label)
    ∷ []

unfoldable pub write_discover_query : DiscoverQuery → Params → Params
write_discover_query query current =
    put_entries (discover_entries query) (delete_all discover_keys current)

-- `Partial<DiscoverQuery>`: `none` is an absent property, `some none` is `undefined`.
pub record DiscoverChanges : Type 0 where
  pub page : Option ℕ
  pub page_size : Option ℕ
  pub q : Option (Option Text)
  pub group : Option (Option Text)
  pub label : Option (Option Text)
  pub library : Option DiscoverLibrary
  pub sort : Option DiscoverSort
  pub order : Option Order

abbrev pub no_changes : DiscoverChanges
no_changes = record {
  page = none;
  page_size = none;
  q = none;
  group = none;
  label = none;
  library = none;
  sort = none;
  order = none;
}

unfoldable pub update_query : DiscoverChanges → Bool → DiscoverQuery → DiscoverQuery
update_query c reset current = record {
  page = if reset then 1 else or_else c.page current.page;
  page_size = or_else c.page_size current.page_size;
  q = or_else c.q current.q;
  group = or_else c.group current.group;
  label = or_else c.label current.label;
  library = or_else c.library current.library;
  sort = or_else c.sort current.sort;
  order = or_else c.order current.order;
}

unfoldable pub set_search : Text → DiscoverQuery → DiscoverQuery
set_search q query =
    if or_else query.q [] === q
    then query
    else update_query (record no_changes { q = some (some q) }) true query

unfoldable pub set_group : Text → DiscoverQuery → DiscoverQuery
set_group group =
    update_query
      (record no_changes { group = some (if group === codes "all" then none else some group) }) true

-- `null` takes the filter off, the empty text asks for rows without a label.
unfoldable pub set_label : Option Text → DiscoverQuery → DiscoverQuery
set_label label = update_query (record no_changes { label = some label }) true

unfoldable pub set_library : DiscoverLibrary → DiscoverQuery → DiscoverQuery
set_library library = update_query (record no_changes { library = some library }) true

unfoldable pub set_sort : DiscoverSort → Order → DiscoverQuery → DiscoverQuery
set_sort sort order = update_query (record no_changes { sort = some sort; order = some order }) true

unfoldable pub set_page_number : ℕ → DiscoverQuery → DiscoverQuery
set_page_number next = update_query (record no_changes { page = some next }) false

unfoldable pub set_page_size : ℕ → DiscoverQuery → DiscoverQuery
set_page_size size = update_query (record no_changes { page_size = some size }) true

-- The fields of a hit that the page reads.
pub record DiscoverResult : Type 0 where
  pub id : ℕ
  pub ip : Text
  pub port : ℕ
  pub in_library : Bool

pub record DiscoverPage : Type 0 where
  pub items : List DiscoverResult
  pub page_number : ℕ
  pub page_size : ℕ
  pub total : ℕ
  pub sort : DiscoverSort
  pub order : Order

-- A page request keeps its generation and the query it asked with; `recover` is `recoverOutOfRange`.
-- A controller is the generation of its request: it is aborted once a newer request has started or
-- the page was left.
pub record DiscoverTicket : Type 0 where
  pub generation : ℕ
  pub requested : DiscoverQuery
  pub recover : Bool

pub record DiscoverState : Type 0 where
  pub query : DiscoverQuery
  pub page : DiscoverPage
  pub selected : List ℕ
  pub targets : List (ℕ × Text)
  pub generation : ℕ
  pub live : Option ℕ

-- `refreshPage` up to its `await`.
unfoldable pub refresh_start : Bool → Bool → DiscoverState → Option DiscoverTicket × DiscoverState
refresh_start visible recover s =
    let generation = s.generation + 1 in
    let ticket : DiscoverTicket = record {
      generation = generation;
      requested = s.query;
      recover = recover;
    } in
    if visible
    then (some ticket, record s { generation = generation; live = some generation })
    else (none, s)

-- Leaving the page aborts the request.
unfoldable pub leave : DiscoverState → DiscoverState
leave s = record s { live = none }

unfoldable pub is_live : DiscoverTicket → DiscoverState → Bool
is_live ticket s = elim s.live [
  | none ↦ false
  | some g ↦ g == ticket.generation && s.generation == ticket.generation
]

-- `Math.max(1, Math.ceil(total / pageSize))`; without a page size the quotient is not a number or
-- infinite, and no page lies beyond it.
unfoldable pub last_page : ℕ → ℕ → Option ℕ
last_page total zero = none
last_page total (suc n) = some (max 1 ((total + n) / suc n))

unfoldable pub put_targets : List DiscoverResult → List (ℕ × Text) → List (ℕ × Text)
put_targets [] targets = targets
put_targets (item ∷ items) targets =
    put_targets items (put item.id (item.ip ++ codes ":" ++ decimal item.port) targets)

-- `refreshPage` behind its `await`; a failure leaves the state alone, and is thrown if it is no abort.
unfoldable pub refresh_answer : DiscoverTicket → Option DiscoverPage → DiscoverState → DiscoverState
refresh_answer ticket none s = s
refresh_answer ticket (some next) s =
    let shown = record s { page = next; targets = put_targets next.items s.targets } in
    if not (is_live ticket s) then s else elim (last_page next.total next.page_size) [
      | none ↦ shown
      | some last ↦
          if ticket.recover && ltb last ticket.requested.page
          then record s { query = record s.query { page = last } }
          else shown
    ]

-- A `Set` of ids in insertion order.
abbrev pub add : ℕ → List ℕ → List ℕ
add id ids = if contains id ids then ids else ids ++ id ∷ []

abbrev pub remove : ℕ → List ℕ → List ℕ
remove id ids = filter (λ x. not (x == id)) ids

unfoldable pub toggle_selected : ℕ → List ℕ → List ℕ
toggle_selected id current = if contains id current then remove id current else add id current

-- Hits that are in the library already are passed over.
unfoldable pub toggle_current_page : List DiscoverResult → Bool → List ℕ → List ℕ
toggle_current_page [] checked current = current
toggle_current_page (item ∷ items) checked current = toggle_current_page items checked (
    if item.in_library
    then current
    else if checked
    then add item.id current
    else remove item.id current)

unfoldable pub remove_selected : List ℕ → List ℕ → List ℕ
remove_selected ids current = filter (λ id. not (contains id ids)) current

-- What the effect keeps of the addresses: those of selected hits.
unfoldable pub stored_targets : List ℕ → List (ℕ × Text) → List (ℕ × Text)
stored_targets selected [] = []
stored_targets selected ((id, target) ∷ targets) =
    if contains id selected
    then (id, target) ∷ stored_targets selected targets
    else stored_targets selected targets

-- `refreshFacets`, cut at its `await`, over the type of the facets.
pub record FacetsState (F : Type 0) : Type 0 where
  pub facets : F
  pub generation : ℕ
  pub live : Option ℕ

module _ {F : Type 0} where
  unfoldable pub facets_start : Bool → FacetsState F → Option ℕ × FacetsState F
  facets_start visible s =
      let generation = s.generation + 1 in
      if visible
      then (some generation, record s { generation = generation; live = some generation })
      else (none, s)

  unfoldable pub facets_live : ℕ → FacetsState F → Bool
  facets_live ticket s = elim s.live [
    | none ↦ false
    | some g ↦ g == ticket && s.generation == ticket
  ]

  -- A failure leaves the state alone, and is thrown if it is no abort.
  unfoldable pub facets_answer : ℕ → Option F → FacetsState F → FacetsState F
  facets_answer ticket none s = s
  facets_answer ticket (some next) s =
      if facets_live ticket s then record s { facets = next } else s
