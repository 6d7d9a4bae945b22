-- ===== src/Servers/Tests.antt =====
-- The theorems on the server page at concrete inputs.
use frpc_multi.Base.Decimal.{decimal}
use Prim.Native.Nat.{ℕ, ◌^◌, ◌<◌}
use mathlib.Core.Path.{◌≡◌, refl, ap}
use mathlib.Core.Logic.{inl}
use mathlib.Core.Bool.{true, false, Bool}
use mathlib.Core.Option.{none, some}
use mathlib.Core.List.{List, [], ◌∷◌}
use native.Mathlib.Omega.{arith}
use frpc_multi.Base.Tests.{or_else}
use frpc_multi.Samples.{number_of, number_of-decimal}
use frpc_multi.Base.Text.{trim, trim_start, trim_end, is_space, Text, codes, ◌===◌, ===_refl}
use frpc_multi.Base.Assoc.{text_eq, nat_eq, get, contains}
use frpc_multi.Servers.Address.{AddressState, sync, observe}
use frpc_multi.Servers.Address.Laws.{observe-sync}
use frpc_multi.Base.Tests.{or_else}
use frpc_multi.Servers.Query.{
  ServerQuery, pass, by_speed, by_ip, desc, asc, all_tags, write_query, parse_query, query_keys,
  Params,
}
use frpc_multi.Servers.Query.RoundTrip.{IsCanonical, parse_query-write_query}
use frpc_multi.Servers.Cursor.{CursorState, navigate_cursor, next, previous}
use frpc_multi.Servers.Cursor.Laws.{previous-next}
use frpc_multi.Servers.Selection.{Selection, Row}
use frpc_multi.Servers.Update.{QueryState}
use frpc_multi.Servers.Update.Laws.{IsReset, run_setter, run_setter-IsReset, to_search, SameSearch}
use frpc_multi.Servers.Requests.{
  Answer, answered, PageAnswer, cursor_page, ServerPage, PageState, Ticket, page_start, page_answer,
  page_hide,
}
use frpc_multi.Servers.Requests.Latest.{
  World, Reach, here, more, call, answer, IsOrdered, Reach-IsOrdered,
}

abbrev query : ServerQuery
query = record {
  page = 3;
  page_size = 100;
  q = some (codes "10.0");
  group = none;
  label = some [];
  tag_id = none;
  group_ids = some (codes "g1" ∷ codes "g2" ∷ []);
  include_tag_ids = none;
  exclude_tag_ids = some (codes "t" ∷ []);
  tag_mode = some all_tags;
  cursor = some (codes "c1");
  conn = pass;
  sort = by_speed;
  order = desc;
}

abbrev address : Params
address = (codes "cursor", codes "old") ∷ (codes "tab", codes "x") ∷ []

query-IsCanonical : IsCanonical query
unfolding trim trim_start trim_end is_space
query-IsCanonical = record {
  page_pos = omega arith;
  page_small = omega arith;
  page_size = refl;
  group_ids = (
    record { trimmed = refl; given = refl; unsplit = ground arith },
    (record { trimmed = refl; given = refl; unsplit = ground arith }, tt),
  );
  include_tag_ids = tt;
  exclude_tag_ids = (record { trimmed = refl; given = refl; unsplit = ground arith }, tt);
  cursor = refl;
}

abbrev number : Text → ℕ
number t = or_else (number_of t) 0

number-decimal : (n : ℕ) → n < 2 ^ 53 → number (decimal n) ≡ n
number-decimal n h = ap (λ o. or_else o 0) (number_of-decimal n h)

parse_query-write_query_example : parse_query number (write_query query address) ≡ query
parse_query-write_query_example =
    parse_query-write_query number number-decimal query address query-IsCanonical

not_owned : contains (codes "tab") query_keys ≡ false
unfolding contains query_keys ◌===◌
not_owned = refl

abbrev cursor_state : CursorState
cursor_state = record {
  query = query;
  trail = [] ∷ codes "c1" ∷ [];
  next_cursor = some (codes "c2");
  has_more = true;
  push_url = false;
  stored = none;
}

previous-next_example :
    navigate_cursor previous (navigate_cursor next cursor_state)
    ≡ record cursor_state { stored = some ([] ∷ codes "c1" ∷ []); push_url = true }
previous-next_example =
    previous-next cursor_state (codes "c2")
      (record { front = [] ∷ []; trail_is = refl; cursor_given = refl; page_pos = omega arith })
      (record { more = refl; named = refl; not_nil = refl })

abbrev selection : Selection
selection = (4, codes "a") ∷ (7, codes "b") ∷ []

abbrev rows : List Row
rows = record { id = 4; ip = codes "a" } ∷ record { id = 9; ip = codes "c" } ∷ []

abbrev query_state : QueryState
query_state = record { query = query; tag_search = []; tag_page = 4; push_url = false }

not_searched : ¬ SameSearch (to_search (codes "other")) query_state
unfolding ◌===◌
not_searched h = ground arith

run_setter-IsReset_example : IsReset (run_setter (to_search (codes "other")) query_state)
run_setter-IsReset_example = run_setter-IsReset (to_search (codes "other")) query_state not_searched

abbrev empty_page : ServerPage Text
empty_page = record { items = []; page = 1; page_size = 50; total = 0; sort = by_ip; order = asc }

abbrev idle : PageState Text
idle = record {
  query = query;
  captured_total = none;
  page = empty_page;
  next_cursor = none;
  has_more = false;
  loading = false;
  error = none;
  generation = 0;
  aborted_controllers = [];
}

abbrev one_row : Answer (PageAnswer Text)
one_row = answered (cursor_page (codes "a" ∷ []) none false)

abbrev ticket : ℕ → Ticket
ticket generation = record { generation = generation; requested = query }

abbrev quiet : World Text
quiet = record { state = idle; flight = [] }

abbrev called : PageState Text
called = (page_start true idle).1

-- one call and its answer
answered_once :
    Reach quiet (record { state = page_answer (ticket 1) false one_row called; flight = [] })
unfolding page_start
answered_once = more (more here (call true quiet)) (answer [] [] (ticket 1) false one_row called)

Reach-IsOrdered_example :
    IsOrdered (record { state = page_answer (ticket 1) false one_row called; flight = [] })
Reach-IsOrdered_example = Reach-IsOrdered (record { past = tt; flag = λ _. inl refl }) answered_once

hidden : contains 1 (page_hide called).aborted_controllers ≡ true
unfolding page_hide page_start contains
hidden = refl

abbrev same : Params → Params → Bool
same p q = or_else (get (codes "cursor") p) [] === or_else (get (codes "cursor") q) []

same_refl : (p : Params) → same p p ≡ true
same_refl p = ===_refl (or_else (get (codes "cursor") p) [])

abbrev any_query : ServerQuery → ServerQuery → Bool
any_query p q = true

abbrev address_state : AddressState
address_state = record {
  query = query;
  last_observed = address;
  target = none;
  external = none;
  push_url = true;
}

observe-sync_example :
    let s1 = (sync number same any_query address address_state).1 in
    let s2 = observe number same any_query (write_query query address) s1 in
    (s2.query ≡ query) × (s2.target ≡ none) × (s2.external ≡ none)
observe-sync_example =
    observe-sync number same any_query address_state address same_refl (inl refl) refl
