-- ===== src/Servers/Query.antt =====
-- `ServerQuery` of lib/types.ts, `parseQuery` of useServers.ts and the effect that writes the query
-- into the address. A URLSearchParams is its list of decoded pairs. `number` stands for `Number` on
-- the texts of the address, with NaN as 0; fractions and infinities are left out.
pub mod RoundTrip
use Prim.Native.Nat.{ℕ, max}
use mathlib.Core.Bool.{Bool, false, not, ◌||◌}
use mathlib.Core.Option.{Option, none, some}
use mathlib.Core.List.{List, [], ◌∷◌, map}
use frpc_multi.Base.Tests.{◌==◌, if◌then◌else◌, or_else}
use frpc_multi.Base.Lists.{is_empty, filter}
use frpc_multi.Base.Text.{Text, codes, ◌===◌, trim, split_on, join}
use frpc_multi.Base.Decimal.{decimal}
use frpc_multi.Base.Assoc.{text_eq, get, put, delete}

pub data ServerConn : Type 0 where
  all_conn pass partial fail untested : ServerConn

pub data ServerSort : Type 0 where
  by_ip by_group by_conn by_speed by_time : ServerSort

pub data Order : Type 0 where
  asc desc : Order

pub data TagMode : Type 0 where
  any_tag all_tags : TagMode

-- `none` is `undefined`.
pub record ServerQuery : Type 0 where
  pub page : ℕ
  pub page_size : ℕ
  pub q : Option Text
  pub group : Option Text
  pub label : Option Text
  pub tag_id : Option Text
  pub group_ids : Option (List Text)
  pub include_tag_ids : Option (List Text)
  pub exclude_tag_ids : Option (List Text)
  pub tag_mode : Option TagMode
  pub cursor : Option Text
  pub conn : ServerConn
  pub sort : ServerSort
  pub order : Order

abbrev pub Params : Type 0
Params = List (Text × Text)

abbrev pub is_text : Option Text → Text → Bool
is_text none t = false
is_text (some s) t = s === t

-- `params.get(key) || ''` if the key is there
abbrev pub present : Text → Params → Option Text
present key params = get key params

-- `list(key)`
unfoldable pub list_of : Text → Params → List Text
list_of key params =
    filter (λ v. not (is_empty v)) (map trim (split_on b',' (or_else (get key params) [])))

abbrev pub nonempty : List Text → Option (List Text)
nonempty xs = if is_empty xs then none else some xs

unfoldable pub read_conn : Option Text → ServerConn
read_conn t =
    if is_text t (codes "pass")
    then pass
    else if is_text t (codes "partial")
    then partial
    else if is_text t (codes "fail")
    then fail
    else if is_text t (codes "untested")
    then untested
    else all_conn

unfoldable pub read_sort : Option Text → ServerSort
read_sort t =
    if is_text t (codes "group")
    then by_group
    else if is_text t (codes "conn")
    then by_conn
    else if is_text t (codes "speed")
    then by_speed
    else if is_text t (codes "time")
    then by_time
    else by_ip

unfoldable pub read_order : Option Text → Order
read_order t = if is_text t (codes "desc") then desc else asc

unfoldable pub read_tag_mode : Option Text → Option TagMode
read_tag_mode none = none
read_tag_mode (some t) = some (if t === codes "all" then all_tags else any_tag)

abbrev pub page_sizes : ℕ → Bool
page_sizes n = n == 25 || n == 50 || n == 100 || n == 200

module _ (number : Text → ℕ) where
  -- `Number(params.get(key))`; the number of `null` is 0
  abbrev pub number_of : Text → Params → ℕ
  number_of key params = elim (get key params) [ none ↦ 0 | some t ↦ number t ]

  unfoldable pub parse_query : Params → ServerQuery
  parse_query params =
      let page = number_of (codes "page") params in
      let size = number_of (codes "pageSize") params in
      record {
        page = max 1 (if page == 0 then 1 else page);
        page_size = if page_sizes size then size else 50;
        q = present (codes "q") params;
        group = present (codes "group") params;
        label = present (codes "label") params;
        tag_id = present (codes "tagId") params;
        group_ids = nonempty (list_of (codes "groupIds") params);
        include_tag_ids = nonempty (list_of (codes "includeTagIds") params);
        exclude_tag_ids = nonempty (list_of (codes "excludeTagIds") params);
        tag_mode = read_tag_mode (get (codes "tagMode") params);
        cursor = elim (get (codes "cursor") params) [
          | none ↦ none
          | some c ↦ if is_empty c then none else some c
        ];
        conn = read_conn (get (codes "conn") params);
        sort = read_sort (get (codes "sort") params);
        order = read_order (get (codes "order") params);
      }

unfoldable pub conn_text : ServerConn → Text
conn_text all_conn = codes "all"
conn_text pass = codes "pass"
conn_text partial = codes "partial"
conn_text fail = codes "fail"
conn_text untested = codes "untested"

unfoldable pub sort_text : ServerSort → Text
sort_text by_ip = codes "ip"
sort_text by_group = codes "group"
sort_text by_conn = codes "conn"
sort_text by_speed = codes "speed"
sort_text by_time = codes "time"

unfoldable pub order_text : Order → Text
order_text asc = codes "asc"
order_text desc = codes "desc"

unfoldable pub tag_mode_text : TagMode → Text
tag_mode_text any_tag = codes "any"
tag_mode_text all_tags = codes "all"

-- The keys that the query owns, in the order in which the effect deletes them.
unfoldable pub query_keys : List Text
query_keys =
    codes "page"
    ∷ codes "pageSize"
    ∷ codes "conn"
    ∷ codes "sort"
    ∷ codes "order"
    ∷ codes "q"
    ∷ codes "group"
    ∷ codes "label"
    ∷ codes "tagId"
    ∷ codes "cursor"
    ∷ codes "groupIds"
    ∷ codes "includeTagIds"
    ∷ codes "excludeTagIds"
    ∷ codes "tagMode"
    ∷ []

unfoldable pub delete_all : List Text → Params → Params
delete_all [] params = params
delete_all (k ∷ ks) params = delete_all ks (delete k params)

-- `if (value !== undefined) next.set(key, value)`
abbrev pub put_some : Text → Option Text → Params → Params
put_some key none params = params
put_some key (some v) params = put key v params

-- `if (query.cursor) …`, `if (query.groupIds?.length) …`
abbrev pub given : Option Text → Option Text
given none = none
given (some []) = none
given (some (c ∷ s)) = some (c ∷ s)

abbrev pub joined : Option (List Text) → Option Text
joined none = none
joined (some []) = none
joined (some (x ∷ xs)) = some (join (codes ",") (x ∷ xs))

abbrev pub mode_text : Option TagMode → Option Text
mode_text none = none
mode_text (some m) = some (tag_mode_text m)

-- What the effect sets, in order; `none` is a value that its test skips.
unfoldable pub entries : ServerQuery → List (Text × Option Text)
entries query =
    (codes "page", some (decimal query.page))
    ∷ (codes "pageSize", some (decimal query.page_size))
    ∷ (codes "conn", some (conn_text query.conn))
    ∷ (codes "sort", some (sort_text query.sort))
    ∷ (codes "order", some (order_text query.order))
    ∷ (codes "q", query.q)
    ∷ (codes "group", query.group)
    ∷ (codes "label", query.label)
    ∷ (codes "tagId", query.tag_id)
    ∷ (codes "cursor", given query.cursor)
    ∷ (codes "groupIds", joined query.group_ids)
    ∷ (codes "includeTagIds", joined query.include_tag_ids)
    ∷ (codes "excludeTagIds", joined query.exclude_tag_ids)
    ∷ (codes "tagMode", mode_text query.tag_mode)
    ∷ []

-- `set` of a text that is not empty, `delete` for the empty one
abbrev pub set_or_delete : Text → Text → Params → Params
set_or_delete key value params = if is_empty value then delete key params else put key value params

unfoldable pub put_entries : List (Text × Option Text) → Params → Params
put_entries [] params = params
put_entries ((key, v) ∷ es) params = put_entries es (put_some key v params)

-- `next` in the callback of `setUrl`.
unfoldable pub write_query : ServerQuery → Params → Params
write_query query current = put_entries (entries query) (delete_all query_keys current)
