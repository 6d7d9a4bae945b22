-- ===== src/Pages/Candidates.antt =====
-- webui/frontend/src/pages/DomainCandidatesDialog.tsx: the dialog of the servers that a domain may point
-- to: its members, the library behind a cursor, and the servers that are selected to be added. A Set
-- of ids is the list of its elements.
pub mod Library
pub mod Laws
pub mod Trail
pub mod Steps
pub mod Tests
use frpc_multi.Base.Text.{Text, codes}
use frpc_multi.Base.Answers.{Answer, answered, refused}
use frpc_multi.Base.Assoc.{nat_eq, contains}
use Prim.Native.Nat.{ℕ, ◌+◌, ◌-◌}
use mathlib.Core.Bool.{Bool, true, false, not, ◌&&◌, ◌||◌}
use mathlib.Core.Option.{Option, none, some}
use mathlib.Core.List.{List, [], ◌∷◌, ◌++◌}
use native.Mathlib.Omega.{arith}
use frpc_multi.Base.Tests.{leb, ◌==◌, if◌then◌else◌, or_else}
use frpc_multi.Base.Lists.{length, is_empty, any, filter}

-- What the dialog reads of the latest measurement of a server.
pub record Connectivity : Type 0 where
  pub frps_reachable : Bool
  pub tunnel_established : Bool
  pub firewall_open : Bool

pub record Candidate : Type 0 where
  pub id : ℕ
  pub ip : Text
  pub latest_connectivity : Option Connectivity
  pub preferred : Bool
  pub current : Bool

-- The label of the badge.
unfoldable pub connectivity_label : Option Connectivity → Text
connectivity_label none = codes "未测量"
connectivity_label (some status) =
    if status.frps_reachable && status.tunnel_established && status.firewall_open
    then codes "连通"
    else if status.frps_reachable || status.tunnel_established || status.firewall_open
    then codes "部分可用"
    else codes "失败"

pub record CandidatePage : Type 0 where
  pub items : List Candidate
  pub total : ℕ

pub record Members : Type 0 where
  pub members : List Candidate
  pub member_total : ℕ
  pub member_page : ℕ
  pub member_loading : Bool
  pub member_error : Text
  pub member_busy_id : Option ℕ
  pub removal_target : Option Candidate
  pub selected_ids : List ℕ
  pub adding : Bool
  pub switch_target : Option Candidate
  pub switching : Bool
  pub member_request : ℕ
  pub aborted : List ℕ

abbrev pub max_candidates : ℕ
max_candidates = 5000

abbrev pub known : List Candidate → ℕ → Bool
known members id = any (λ (item : Candidate). item.id == id) members

unfoldable pub selected_to_add : Members → ℕ
selected_to_add s = length s.selected_ids - length (filter (known s.members) s.selected_ids)

unfoldable pub current_ip : Option Text → List Candidate → Option Text
current_ip of_domain [] = of_domain
current_ip of_domain (server ∷ servers) =
    let rest = current_ip of_domain servers in if server.current then some server.ip else rest

-- The effect that reads the members, up to its call, and its cleanup.
unfoldable pub members_start : Members → ℕ × Members
members_start s =
    let request = s.member_request + 1 in
    (request, record s { member_request = request; member_loading = true })

unfoldable pub members_leave : ℕ → Members → Members
members_leave request s = record s { aborted = request ∷ s.aborted }

abbrev members_handle : Answer CandidatePage → Members → Members
members_handle (answered result) s = record s {
  members = result.items;
  member_total = result.total;
  member_error = [];
}
members_handle (refused message) s = record s { member_error = or_else message (codes "候选服务器加载失败") }

-- The effect behind its call; the loading flag falls even for a call that was aborted.
unfoldable pub members_answer : ℕ → Answer CandidatePage → Members → Members
members_answer request a s =
    let handled = if contains request s.aborted then s else members_handle a s in
    if request == s.member_request then record handled { member_loading = false } else s

abbrev pub without_id : ℕ → List ℕ → List ℕ
without_id id ids = filter (λ other. not (other == id)) ids

unfoldable pub toggle_server : ℕ → List ℕ → List ℕ
toggle_server id ids =
    if contains id ids
    then without_id id ids
    else if leb max_candidates (length ids)
    then ids
    else ids ++ id ∷ []

-- `addSelected` up to its first `await`, with the ids that it sends.
unfoldable pub add_start : Members → Option (List ℕ) × Members
add_start s =
    let ids = filter (λ id. not (known s.members id)) s.selected_ids in
    if is_empty ids then (none, s) else (some ids, record s { adding = true })

-- Between its `await`s, with whether the members are read again; and behind them.
unfoldable pub add_answer : Answer Unit → Members → Bool × Members
add_answer (answered result) s = (true, record s { selected_ids = []; member_page = 1 })
add_answer (refused message) s = (false, record s { adding = false })

unfoldable pub add_refreshed : Answer CandidatePage → Members → Members
add_refreshed (answered refreshed) s = record s {
  members = refreshed.items;
  member_total = refreshed.total;
  member_error = [];
  adding = false;
}
add_refreshed (refused message) s = record s { adding = false }

-- `removeMember` up to its `await`, and behind it.
unfoldable pub remove_start : Candidate → Members → Members
remove_start server s = record s { member_busy_id = some server.id }

unfoldable pub remove_answer : Candidate → Answer Unit → Members → Members
remove_answer server (answered result) s = record s {
  members = filter (λ (item : Candidate). not (item.id == server.id)) s.members;
  member_total = s.member_total - 1;
  selected_ids = without_id server.id s.selected_ids;
  removal_target = none;
  member_busy_id = none;
}
remove_answer server (refused message) s = record s { member_busy_id = none }

-- `switchAndSync`: up to its first `await`, with the server that it sends; between its `await`s, where
-- the answer tells whether the switch succeeded; and behind them.
unfoldable pub switch_start : Members → Option ℕ × Members
switch_start s = elim s.switch_target [
  | none ↦ (none, s)
  | some target ↦
      let begun = record s { switching = true } in
      if s.switching then (none, s) else (some target.id, begun)
]

unfoldable pub switch_answer : Answer Bool → Members → Bool × Members
switch_answer (answered true) s = (true, record s { switch_target = none })
switch_answer (answered false) s = (false, record s { switching = false })
switch_answer (refused message) s = (false, record s { switching = false })

unfoldable pub switch_refreshed : Answer CandidatePage → Members → Members
switch_refreshed (answered refreshed) s = record s {
  members = refreshed.items;
  member_total = refreshed.total;
  switching = false;
}
switch_refreshed (refused message) s = record s { switching = false }

-- `removalImpact`, each message that applies.
unfoldable pub removal_impact : Members → List Text
removal_impact s = elim s.removal_target [
  | none ↦ []
  | some target ↦
      let moved = codes "当前 DNS 指向 " ++ target.ip ++ codes "；移除成员本身不会立即修改 DNS，后续同步会按剩余候选处理。" in
      let emptied = codes "移除后候选池为空，下一次同步会清理托管 A 记录。" in
      (if target.current then moved ∷ [] else [])
      ++ (if leb s.member_total 1 then emptied ∷ [] else [])
]
