-- ===== src/Discovery/Tests.antt =====
-- The theorems on the discovery page at concrete inputs.
use Prim.Native.Nat.{ℕ}
use mathlib.Core.Path.{◌≡◌, refl}
use mathlib.Core.Bool.{Bool, true, false}
use mathlib.Core.Option.{none, some}
use mathlib.Core.List.{[], ◌∷◌}
use native.Mathlib.Omega.{arith}
use frpc_multi.Base.Text.{codes}
use frpc_multi.Base.Assoc.{nat_eq}
use frpc_multi.Servers.Query.{desc}
use frpc_multi.Discovery.{
  FacetsState, DiscoverQuery, DiscoverResult, DiscoverPage, DiscoverTicket, DiscoverState, all_hits,
  discovered_at, refresh_start, last_page,
}
use frpc_multi.Discovery.Laws.{poll, poll_twice}

abbrev query : DiscoverQuery
query = record {
  page = 5;
  page_size = 50;
  q = none;
  group = none;
  label = none;
  library = all_hits;
  sort = discovered_at;
  order = desc;
}

abbrev hit : ℕ → Bool → DiscoverResult
hit id in_library = record { id = id; ip = codes "10.0.0.1"; port = 7000; in_library = in_library }

abbrev next : DiscoverPage
next = record {
  items = hit 3 false ∷ hit 4 true ∷ [];
  page_number = 1;
  page_size = 50;
  total = 2;
  sort = discovered_at;
  order = desc;
}

abbrev state : DiscoverState
state = record {
  query = query;
  page = record next { items = [] };
  selected = 4 ∷ [];
  targets = [];
  generation = 0;
  live = none;
}

abbrev ticket : DiscoverTicket
ticket = record { generation = 1; requested = query; recover = false }

started : (refresh_start true false state).0 ≡ some ticket
unfolding refresh_start
started = refl

one_page : last_page 2 50 ≡ some 1
unfolding last_page
one_page = refl

poll_twice_example :
    let s1 = poll next state in
    let s2 = poll next s1 in
    (s1.page ≡ state.page) × (s1.query.page ≡ 1) × (s2.page ≡ next) × (s2.query ≡ s1.query)
poll_twice_example = poll_twice state next 1 one_page (omega arith)

abbrev facets_state : FacetsState ℕ
facets_state = record { facets = 0; generation = 3; live = some 3 }
