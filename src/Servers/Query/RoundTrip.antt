-- ===== src/Servers/Query/RoundTrip.antt =====
-- `parseQuery` reads back the query that the effect writes into the address.
use frpc_multi.Base.Text.Split.{IsPart, kept, kept_blank, kept-split_on-join}
use mathlib.Core.Bool.{false, true}
use Prim.Native.Nat.{ℕ, ◌≤◌, ◌<◌, ◌^◌, max}
use frpc_multi.Base.Lists.{is_empty, All}
use mathlib.Core.Path.{◌≡◌, refl, ap, ◌∙◌}
use mathlib.Core.Option.{Option, none, some}
use mathlib.Core.List.{List, [], ◌∷◌}
use native.Mathlib.Omega.{arith}
use frpc_multi.Base.Tests.{if◌then◌else◌, or_else, ◌==◌}
use frpc_multi.Base.Text.{Text, codes, ◌===◌, split_on}
use frpc_multi.Base.Decimal.{decimal}
use frpc_multi.Base.Assoc.{text_eq, get, delete, contains, get-put, get-delete}
use frpc_multi.Servers.Query.{
  ServerQuery, Params, write_query, entries, put_entries, delete_all, query_keys, put_some, given,
  read_sort, order_text, mode_text, nonempty, conn_text, read_conn, sort_text, read_order, joined,
  read_tag_mode, ServerConn, tag_mode_text, ServerSort, Order, TagMode, all_conn, by_ip, asc,
  page_sizes, parse_query, pass, any_tag, desc, by_group, list_of, by_conn, partial, all_tags, fail,
  by_speed, untested, by_time,
}

-- A value that is set, or else what was there.
abbrev either : Option Text → Option Text → Option Text
either none d = d
either (some t) d = some t

get-put_some :
    (k j : Text) (v : Option Text) (m : Params)
    → get j (put_some k v m) ≡ (if k === j then either v (get j m) else get j m)
get-put_some k j none m = ground arith
get-put_some k j (some t) m = get-put k j t m

get-delete_all :
    (ks : List Text) (j : Text) (m : Params)
    → get j (delete_all ks m) ≡ (if contains j ks then none else get j m)
unfolding delete_all contains
get-delete_all [] j m = refl
get-delete_all (k ∷ ks) j m = get-delete_all ks j (delete k m) ∙ ground (arith, get-delete k j m)

-- What a list of settings leaves under a key.
abbrev found : Text → List (Text × Option Text) → Option Text → Option Text
found j [] d = d
found j ((k, v) ∷ es) d = found j es (if k === j then either v d else d)

get-put_entries :
    (es : List (Text × Option Text)) (j : Text) (m : Params)
    → get j (put_entries es m) ≡ found j es (get j m)
unfolding put_entries
get-put_entries [] j m = refl
get-put_entries ((k, v) ∷ es) j m =
    get-put_entries es j (put_some k v m) ∙ ap (found j es) (get-put_some k j v m)

get-write_query :
    (j : Text) (q : ServerQuery) (ps : Params)
    → get j (write_query q ps)
      ≡ found j (entries q) (if contains j query_keys then none else get j ps)
unfolding write_query
get-write_query j q ps =
    get-put_entries (entries q) j (delete_all query_keys ps)
    ∙ ap (found j (entries q)) (get-delete_all query_keys j ps)

-- A key that the query does not own keeps its value in the address.
pub get-write_query_other :
    (j : Text) (q : ServerQuery) (ps : Params)
    → contains j query_keys ≡ false
    → get j (write_query q ps) ≡ get j ps
unfolding entries contains query_keys
get-write_query_other j q ps h = get-write_query j q ps ∙ ground arith

either-none : (o : Option Text) → either o none ≡ o
either-none none = refl
either-none (some t) = refl

-- Under each of the query's keys the address holds the query's value or nothing.
module _ (q : ServerQuery) (ps : Params) where
  abbrev written : Params
  written = write_query q ps

  get_page : get (codes "page") written ≡ some (decimal q.page)
  unfolding ◌===◌ entries contains query_keys
  get_page = get-write_query (codes "page") q ps

  get_page_size : get (codes "pageSize") written ≡ some (decimal q.page_size)
  unfolding ◌===◌ entries contains query_keys
  get_page_size = get-write_query (codes "pageSize") q ps

  get_conn : get (codes "conn") written ≡ some (conn_text q.conn)
  unfolding ◌===◌ entries contains query_keys
  get_conn = get-write_query (codes "conn") q ps

  get_sort : get (codes "sort") written ≡ some (sort_text q.sort)
  unfolding ◌===◌ entries contains query_keys
  get_sort = get-write_query (codes "sort") q ps

  get_order : get (codes "order") written ≡ some (order_text q.order)
  unfolding ◌===◌ entries contains query_keys
  get_order = get-write_query (codes "order") q ps

  get_q : get (codes "q") written ≡ q.q
  unfolding ◌===◌ entries contains query_keys
  get_q = get-write_query (codes "q") q ps ∙ either-none (q.q)

  get_group : get (codes "group") written ≡ q.group
  unfolding ◌===◌ entries contains query_keys
  get_group = get-write_query (codes "group") q ps ∙ either-none (q.group)

  get_label : get (codes "label") written ≡ q.label
  unfolding ◌===◌ entries contains query_keys
  get_label = get-write_query (codes "label") q ps ∙ either-none (q.label)

  get_tag_id : get (codes "tagId") written ≡ q.tag_id
  unfolding ◌===◌ entries contains query_keys
  get_tag_id = get-write_query (codes "tagId") q ps ∙ either-none (q.tag_id)

  get_cursor : get (codes "cursor") written ≡ given q.cursor
  unfolding ◌===◌ entries contains query_keys
  get_cursor = get-write_query (codes "cursor") q ps ∙ either-none (given q.cursor)

  get_group_ids : get (codes "groupIds") written ≡ joined q.group_ids
  unfolding ◌===◌ entries contains query_keys
  get_group_ids = get-write_query (codes "groupIds") q ps ∙ either-none (joined q.group_ids)

  get_include_tag_ids : get (codes "includeTagIds") written ≡ joined q.include_tag_ids
  unfolding ◌===◌ entries contains query_keys
  get_include_tag_ids =
      get-write_query (codes "includeTagIds") q ps ∙ either-none (joined q.include_tag_ids)

  get_exclude_tag_ids : get (codes "excludeTagIds") written ≡ joined q.exclude_tag_ids
  unfolding ◌===◌ entries contains query_keys
  get_exclude_tag_ids =
      get-write_query (codes "excludeTagIds") q ps ∙ either-none (joined q.exclude_tag_ids)

  get_tag_mode : get (codes "tagMode") written ≡ mode_text q.tag_mode
  unfolding ◌===◌ entries contains query_keys
  get_tag_mode = get-write_query (codes "tagMode") q ps ∙ either-none (mode_text q.tag_mode)

-- No list, or one whose members the address can hold.
abbrev pub IsIds : Option (List Text) → Type 0
IsIds none = Unit
IsIds (some []) = ⊥
IsIds (some (d ∷ ds)) = All (IsPart b',') (d ∷ ds)

-- A query that the address can hold.
pub record IsCanonical (q : ServerQuery) : Type 0 where
  pub page_pos : 1 ≤ q.page
  pub page_small : q.page < 2 ^ 53
  pub page_size : page_sizes q.page_size ≡ true
  pub group_ids : IsIds q.group_ids
  pub include_tag_ids : IsIds q.include_tag_ids
  pub exclude_tag_ids : IsIds q.exclude_tag_ids
  pub cursor : given q.cursor ≡ q.cursor

ids_of :
    (o : Option (List Text)) → IsIds o → nonempty (kept (split_on b',' (or_else (joined o) []))) ≡ o
ids_of none h = rw (kept_blank b',')
ids_of (some []) h = absurd h
ids_of (some (d ∷ ds)) h = rw (kept-split_on-join b',' d ds h)

read_conn_lem : (c : ServerConn) → read_conn (some (conn_text c)) ≡ c
unfolding read_conn conn_text ◌===◌
read_conn_lem all_conn = refl
read_conn_lem pass = refl
read_conn_lem partial = refl
read_conn_lem fail = refl
read_conn_lem untested = refl

read_sort_lem : (s : ServerSort) → read_sort (some (sort_text s)) ≡ s
unfolding read_sort sort_text ◌===◌
read_sort_lem by_ip = refl
read_sort_lem by_group = refl
read_sort_lem by_conn = refl
read_sort_lem by_speed = refl
read_sort_lem by_time = refl

read_order_lem : (o : Order) → read_order (some (order_text o)) ≡ o
unfolding read_order order_text ◌===◌
read_order_lem asc = refl
read_order_lem desc = refl

read_tag_mode_lem : (m : Option TagMode) → read_tag_mode (mode_text m) ≡ m
unfolding read_tag_mode tag_mode_text ◌===◌
read_tag_mode_lem none = refl
read_tag_mode_lem (some any_tag) = refl
read_tag_mode_lem (some all_tags) = refl

abbrev read_cursor : Option Text → Option Text
read_cursor o = elim o [ none ↦ none | some c ↦ if is_empty c then none else some c ]

cursor_of : (c : Option Text) → given c ≡ c → read_cursor (given c) ≡ c
cursor_of none h = refl
cursor_of (some []) h = cc
cursor_of (some (x ∷ t)) h = refl

module _ (number : Text → ℕ) (number-decimal : (n : ℕ) → n < 2 ^ 53 → number (decimal n) ≡ n) where
  abbrev num : Option Text → ℕ
  num o = elim o [ none ↦ 0 | some t ↦ number t ]

  abbrev first_page : ℕ → ℕ
  first_page n = max 1 (if n == 0 then 1 else n)

  page_back :
      (q : ServerQuery) (ps : Params)
      → IsCanonical q
      → first_page (num (get (codes "page") (write_query q ps))) ≡ q.page
  page_back q ps c =
      ap (λ o. first_page (num o)) (get_page q ps)
      ∙ ap first_page (number-decimal q.page c.page_small)
      ∙ kept_page q.page c.page_pos
    where
      kept_page : (n : ℕ) → 1 ≤ n → first_page n ≡ n
      kept_page n h = ground arith

  abbrev allowed : ℕ → ℕ
  allowed n = if page_sizes n then n else 50

  page_size_back :
      (q : ServerQuery) (ps : Params)
      → IsCanonical q
      → allowed (num (get (codes "pageSize") (write_query q ps))) ≡ q.page_size
  page_size_back q ps c =
      ap (λ o. allowed (num o)) (get_page_size q ps)
      ∙ ap allowed (number-decimal q.page_size (small q.page_size c.page_size))
      ∙ rw c.page_size
    where
      small : (n : ℕ) → page_sizes n ≡ true → n < 2 ^ 53
      small n h = ground arith

  ids_back :
      {found : Option Text} {ids : Option (List Text)}
      → found ≡ joined ids
      → IsIds ids
      → nonempty (kept (split_on b',' (or_else found []))) ≡ ids
  ids_back {found} {ids} h k =
      ap (λ o. nonempty (kept (split_on b',' (or_else o [])))) h ∙ ids_of ids k

  -- If `Number` reads the decimal digits of every number below 2 ^ 53, a canonical query is read back from
  -- the address that it was written to, whatever the address held before.
  pub parse_query-write_query :
      (q : ServerQuery) (ps : Params) → IsCanonical q → parse_query number (write_query q ps) ≡ q
  unfolding parse_query list_of
  parse_query-write_query q ps c = λ i. record {
    page = page_back q ps c i;
    page_size = page_size_back q ps c i;
    q = get_q q ps i;
    group = get_group q ps i;
    label = get_label q ps i;
    tag_id = get_tag_id q ps i;
    group_ids = ids_back (get_group_ids q ps) c.group_ids i;
    include_tag_ids = ids_back (get_include_tag_ids q ps) c.include_tag_ids i;
    exclude_tag_ids = ids_back (get_exclude_tag_ids q ps) c.exclude_tag_ids i;
    tag_mode = (ap read_tag_mode (get_tag_mode q ps) ∙ read_tag_mode_lem q.tag_mode) i;
    cursor = (ap read_cursor (get_cursor q ps) ∙ cursor_of q.cursor c.cursor) i;
    conn = (ap read_conn (get_conn q ps) ∙ read_conn_lem q.conn) i;
    sort = (ap read_sort (get_sort q ps) ∙ read_sort_lem q.sort) i;
    order = (ap read_order (get_order q ps) ∙ read_order_lem q.order) i;
  }
