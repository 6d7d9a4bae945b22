-- ===== src/Pages/TestCreate/Targets.antt =====
-- webui/frontend/src/pages/TestCreatePage.tsx: the targets, typed by hand or frozen as a selection of
-- servers. The effect is cut at its `await`s; its cleanup makes its number stale.
pub mod Laws
use frpc_multi.Base.Text.{Text, codes, is_space, trim, ◌===◌}
use frpc_multi.Base.Answers.{Answer, answered, refused}
use frpc_multi.Base.Assoc.{text_eq, put, distinct}
use frpc_multi.Base.Digits.{read_digits}
use frpc_multi.Bulk.{ServerSelection, SelectionState, queued, building, ready}
use frpc_multi.Pages.TestCreate.{
  CreatePage, Scope, group, selection, all_servers, manual, unchosen, selected, same_scope,
  deep_link_selection_id, scope_text, selected, manual, selection, unchosen, all_servers,
}
use Prim.Native.Nat.{ℕ, ◌+◌}
use mathlib.Core.Bool.{Bool, true, false, not, ◌&&◌, ◌||◌}
use mathlib.Core.Option.{Option, none, some}
use mathlib.Core.List.{List, [], ◌∷◌, ◌++◌}
use native.Mathlib.Omega.{arith}
use frpc_multi.Base.Tests.{ltb, ◌==◌, if◌then◌else◌, or_else, is_some}
use frpc_multi.Base.Lists.{length, is_empty, any}

-- `[\s,，]`
unfoldable pub is_separator : ℕ → Bool
is_separator c = is_space c || c == b',' || c == 65292

abbrev pub push_part : Text → List Text → List Text
push_part [] parts = parts
push_part (c ∷ part) parts = (c ∷ part) ∷ parts

-- The parts between runs of separators that are not empty; `part` is what is read of one.
unfoldable pub parts_from : Text → Text → List Text
parts_from part [] = push_part (trim part) []
parts_from part (c ∷ s) =
    let ended = push_part (trim part) (parts_from [] s) in
    let longer = parts_from (part ++ c ∷ []) s in if is_separator c then ended else longer

-- `parsedManual`
unfoldable pub parsed_manual : Text → List Text
parsed_manual text = distinct (parts_from [] text)

-- What follows a first colon behind at least one character, the characters before `stop` being free.
unfoldable pub after_some : ℕ → Bool → Text → Option Text
after_some stop seen [] = none
after_some stop seen (c ∷ s) =
    let later = after_some stop true s in if c == stop then if seen then some s else none else later

-- `\[[^\]]+\]:` and `[^:]+:` at the start
unfoldable pub bracketed : Text → Option Text
bracketed [] = none
bracketed (c ∷ s) =
    if c == b'['
    then elim (after_some b']' false s) [
      | none ↦ none
      | some [] ↦ none
      | some (d ∷ rest) ↦ if d == b':' then some rest else none
    ]
    else none

abbrev all_digits : Text → Option ℕ
all_digits [] = none
all_digits (c ∷ s) = read_digits 0 (c ∷ s)

abbrev digits_of : Option Text → Option ℕ
digits_of none = none
digits_of (some s) = all_digits s

-- The port that the regular expression of `invalidManualPort` captures: its first alternative, or else
-- its second one.
unfoldable pub port_of : Text → Option ℕ
port_of endpoint =
    let bare = digits_of (after_some b':' false endpoint) in
    elim (bracketed endpoint) [
      | none ↦ bare
      | some rest ↦ elim (all_digits rest) [ none ↦ bare | some port ↦ some port ]
    ]

unfoldable pub is_wrong_port : Text → Bool
is_wrong_port endpoint = elim (port_of endpoint) [ none ↦ false | some port ↦ not (port == 7000) ]

unfoldable pub invalid_manual_port : CreatePage → Bool
invalid_manual_port s = same_scope s.scope manual && any is_wrong_port (parsed_manual s.manual)

unfoldable pub selection_scope : CreatePage → Bool
selection_scope s =
    same_scope s.scope selection || same_scope s.scope group || same_scope s.scope all_servers

unfoldable pub too_many_selected : CreatePage → Bool
too_many_selected s = same_scope s.scope selected && ltb 5000 (length s.selected)

unfoldable pub too_many_manual_targets : CreatePage → Bool
too_many_manual_targets s = same_scope s.scope manual && ltb 5000 (length (parsed_manual s.manual))

abbrev is_ready : SelectionState → Bool
is_ready ready = true
is_ready _ = false

abbrev pub is_frozen : Option ServerSelection → Bool
is_frozen none = false
is_frozen (some next) = is_ready next.state && ltb 0 next.count

unfoldable pub targets_ready : CreatePage → Bool
targets_ready s =
    if selection_scope s
    then is_frozen s.server_selection
    else ltb 0 (length s.targets) && not (too_many_selected s) && not (too_many_manual_targets s)

-- What the effect waits for: a selection that exists, or the promise of one. A promise that the effect
-- itself makes comes with the group that it asks for.
pub data TargetCall : Type 0 where
  nothing : TargetCall
  no_selection_id : TargetCall
  read_selection : (id : Text) → TargetCall
  await_creation : (promise : ℕ) (made : Option (Option Text)) → TargetCall

abbrev pub creation_key : CreatePage → Text
creation_key s =
    scope_text s.scope ++ codes ":" ++ (if same_scope s.scope group then s.group else [])

abbrev asked_group : CreatePage → Option Text
asked_group s = if same_scope s.scope group then some s.group else none

abbrev show_targets : List Text → CreatePage → CreatePage
show_targets targets s = record s {
  server_selection = none;
  targets = targets;
  target_count = some (length targets);
  loading = false;
}

abbrev clear_targets : Bool → CreatePage → CreatePage
clear_targets loading s = record s {
  server_selection = none;
  targets = [];
  target_count = none;
  loading = loading;
}

-- The promise of this key, if it is the one that is kept.
unfoldable pub kept_promise : Text → Option (Text × ℕ) → Option ℕ
kept_promise key none = none
kept_promise key (some (other, promise)) = if other === key then some promise else none

-- `fresh` is the number of the promise that a new creation would have.
unfoldable pub resolve_start : ℕ → CreatePage → TargetCall × CreatePage
resolve_start fresh s =
    let id = deep_link_selection_id s.params in
    let key = creation_key s in
    let made = record s { selection_creation = some (key, fresh) } in
    if not (is_empty id)
    then (read_selection id, s)
    else if same_scope s.scope selection
    then (no_selection_id, s)
    else elim (kept_promise key s.selection_creation) [
      | none ↦ (await_creation fresh (some (asked_group s)), made)
      | some promise ↦ (await_creation promise none, s)
    ]

-- The effect up to its first `await`, with its number.
unfoldable pub target_start : ℕ → CreatePage → ℕ × TargetCall × CreatePage
target_start fresh s =
    let id = s.request + 1 in
    let begun = record s { request = id; target_error = [] } in
    if same_scope s.scope selected
    then (id, nothing, show_targets s.selected begun)
    else if same_scope s.scope manual
    then (id, nothing, show_targets (parsed_manual s.manual) begun)
    else if same_scope s.scope unchosen || same_scope s.scope group && is_empty s.group
    then (id, nothing, clear_targets false begun)
    else let (call, left) = resolve_start fresh (clear_targets true begun) in (id, call, left)

unfoldable pub target_leave : CreatePage → CreatePage
target_leave s = record s { request = s.request + 1 }

abbrev forget_creation : Text → CreatePage → CreatePage
forget_creation key s =
    if is_some (kept_promise key s.selection_creation)
    then record s { selection_creation = none }
    else s

abbrev link_selection : Text → Scope → CreatePage → CreatePage
link_selection id scope s = record s {
  params = put (codes "scope") (scope_text scope) (put (codes "selectionId") id s.params);
}

abbrev target_failed : Option Text → CreatePage → CreatePage
target_failed message s = record s {
  target_error = or_else message (codes "目标快照加载失败");
  loading = false;
}

abbrev is_pending : SelectionState → Bool
is_pending queued = true
is_pending building = true
is_pending _ = false

-- One round of the loop, with whether the effect waits and reads the selection again.
unfoldable pub poll_answer : ℕ → Answer ServerSelection → CreatePage → Bool × CreatePage
poll_answer id (answered next) s =
    let shown = record s { server_selection = some next; target_count = some next.count } in
    if not (id == s.request)
    then (false, s)
    else if is_pending next.state
    then (true, shown)
    else (false, record shown { loading = false })
poll_answer id (refused message) s = (false, if id == s.request then target_failed message s else s)

-- A promise of `key`, made in `scope`, settles; then the first round of the loop.
unfoldable pub creation_answer :
    ℕ → Text → Scope → Answer ServerSelection → CreatePage → Bool × CreatePage
creation_answer id key scope (answered next) s =
    let linked = link_selection next.selection_id scope s in
    poll_answer id (answered next) (if id == s.request then linked else s)
creation_answer id key scope (refused message) s =
    let left = forget_creation key s in
    (false, if id == s.request then target_failed message left else left)

-- The effect on an address that asks for a selection and names none.
unfoldable pub missing_selection : CreatePage → CreatePage
missing_selection s = target_failed (some (codes "缺少服务器选择快照 ID")) s
