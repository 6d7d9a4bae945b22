-- ===== src/Format.antt =====
-- The labels of webui/frontend/src/lib/format.ts that show a node's identity and when it was last seen,
-- and the conditions of webui/frontend/src/pages/probe/serverBulkUi.ts. `parse_date` stands for
-- `Date.parse`, with `none` for NaN; `now` is `Date.now()`, in milliseconds.
pub mod Laws
pub mod Tests
use Prim.Native.Nat.{ℕ, ◌+◌, ◌-◌, ◌/◌}
use mathlib.Core.Bool.{Bool, not, ◌&&◌, ◌||◌}
use mathlib.Core.Option.{Option, none, some}
use mathlib.Core.List.{List, [], ◌++◌}
use native.Mathlib.Omega.{arith}
use frpc_multi.Base.Tests.{ltb, ◌==◌, if◌then◌else◌, or_else}
use frpc_multi.Base.Lists.{length, take, is_empty}
use frpc_multi.Base.Text.{Text, codes, ◌===◌, trim}
use frpc_multi.Base.Decimal.{decimal}

unfoldable pub short_node_uuid : Option Text → ℕ → Text
short_node_uuid value size =
    let normalized = trim (or_else value []) in
    if is_empty normalized
    then codes "未注册"
    else if ltb size (length normalized)
    then take size normalized ++ codes "..."
    else normalized

unfoldable pub age_text : ℕ → Text
age_text diff =
    let seconds = diff / 1000 in
    let minutes = seconds / 60 in
    let hours = minutes / 60 in
    if ltb seconds 60
    then decimal seconds ++ codes " 秒前"
    else if ltb minutes 60
    then decimal minutes ++ codes " 分钟前"
    else if ltb hours 24
    then decimal hours ++ codes " 小时前"
    else decimal (hours / 24) ++ codes " 天前"

unfoldable pub format_last_seen : (Text → Option ℕ) → ℕ → Option Text → Text
format_last_seen parse_date now none = codes "未连接"
format_last_seen parse_date now (some value) = elim (parse_date value) [
  | none ↦ if is_empty value then codes "未连接" else value
  | some timestamp ↦
      if is_empty value
      then codes "未连接"
      else if ltb now timestamp
      then codes "刚刚"
      else age_text (now - timestamp)
]

unfoldable pub can_freeze_server_selection :
    Text → Option Text → Option ℕ → Bool → Option Text → Bool → Option Text → Bool
can_freeze_server_selection input applied total count_loading count_error page_loading page_error =
    input === or_else applied []
    && ltb 0 (or_else total 0)
    && not count_loading
    && is_empty (or_else count_error [])
    && not page_loading
    && is_empty (or_else page_error [])

unfoldable pub can_submit_server_batch : ℕ → Bool → Bool → Bool
can_submit_server_batch ids_count has_bulk_submit apply_discover =
    ltb 0 ids_count || (has_bulk_submit && not apply_discover)

unfoldable pub batch_tag_dialog_title : ℕ → Text
batch_tag_dialog_title count = codes "批量调整分类标签（" ++ decimal count ++ codes " 台）"

pub data BatchKind : Type 0 where
  group_kind label_kind : BatchKind

pub data LegacyPayload : Type 0 where
  group_payload : Text → LegacyPayload
  label_payload : (add_labels remove_labels : List Text) → LegacyPayload

unfoldable pub legacy_server_batch_payload :
    BatchKind → Text → List Text → List Text → Bool → LegacyPayload
legacy_server_batch_payload group_kind group add_labels remove_labels snapshot = group_payload group
legacy_server_batch_payload label_kind group add_labels remove_labels snapshot =
    label_payload add_labels (if snapshot then [] else remove_labels)
