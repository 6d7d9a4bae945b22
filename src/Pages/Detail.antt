-- ===== src/Pages/Detail.antt =====
-- webui/frontend/src/pages/Detail.tsx: the page of an instance: its details, logs and records, and the
-- texts of its ports and proxies. Each asynchronous function is cut at its `await`.
pub mod Laws
pub mod Ansi
pub mod Tests
use frpc_multi.Base.Text.{Text, trim, codes, split_on, join}
use frpc_multi.Base.Answers.{Answer, answered, refused}
use frpc_multi.Base.Assoc.{nat_eq, get, put}
use frpc_multi.Base.Decimal.{decimal}
use frpc_multi.Console.{InstanceRef}
use frpc_multi.Servers.Query.{is_text}
use frpc_multi.Toml.Draft.{ProxyDraft}
use Prim.Native.Nat.{ℕ, zero, suc, ◌+◌}
use mathlib.Core.Bool.{Bool, true, false, not, ◌&&◌, ◌||◌}
use mathlib.Core.Option.{Option, none, some}
use mathlib.Core.List.{List, [], ◌∷◌, ◌++◌, map}
use native.Mathlib.Omega.{arith}
use frpc_multi.Base.Tests.{ltb, leb, ◌==◌, if◌then◌else◌, or_else, is_some}
use frpc_multi.Base.Lists.{length, is_empty, filter}

pub data DetailTab : Type 0 where
  logs_tab config_tab proxies_tab audit_tab : DetailTab

unfoldable pub parse_detail_tab : Option Text → DetailTab
parse_detail_tab value =
    if is_text value (codes "config")
    then config_tab
    else if is_text value (codes "proxies")
    then proxies_tab
    else if is_text value (codes "audit")
    then audit_tab
    else logs_tab

-- What the filter reads of an `AuditLog`.
pub record AuditLog : Type 0 where
  pub id : ℕ
  pub instance_name : Option Text
  pub node_id : Option ℕ

-- The node of a record: that of the instance, or none or 0 for an instance of the console.
abbrev is_node : Option ℕ → ℕ → Bool
is_node none zero = true
is_node none (suc n) = false
is_node (some id) n = id == n

unfoldable pub audit_matches_instance : AuditLog → InstanceRef → Bool
audit_matches_instance log instance_ref =
    is_text log.instance_name instance_ref.name && is_node log.node_id instance_ref.node_id

-- `I` is the details of an instance.
pub record Detail (I : Type 0) : Type 0 where
  pub current : Option InstanceRef
  pub detail : Option I
  pub detail_loading : Bool
  pub tab : DetailTab
  pub logs : List Text
  pub keyword_input : Text
  pub applied_keyword : Text
  pub tail : ℕ
  pub logs_loading : Bool
  pub logs_paused : Bool
  pub view_logs : List Text
  pub follow_logs : Bool
  pub newest_first : Bool
  pub proxy_drafts : List ProxyDraft
  pub audit_logs : List AuditLog
  pub audit_loading : Bool

-- The characters `[0-9;]` at the start of a text, at most `n`, up to an `m` that follows them, with how
-- many there are and what is behind the `m`.
unfoldable pub ansi_body : ℕ → ℕ → Text → Option (ℕ × Text)
ansi_body fuel seen [] = none
ansi_body zero seen (c ∷ s) = if c == b'm' then some (seen, s) else none
ansi_body (suc fuel) seen (c ∷ s) =
    let longer = ansi_body fuel (seen + 1) s in
    if c == b'm' then some (seen, s) else if leb 48 c && leb c 57 || c == b';' then longer else none

-- The match of `ANSI_RE` at the start of a text, as what is behind it: any number of characters behind
-- an escape and a bracket, one to eight behind a bracket alone.
unfoldable pub ansi_match : Text → Option Text
ansi_match [] = none
ansi_match (c ∷ []) = none
ansi_match (c ∷ d ∷ s) =
    let escaped = ansi_body (length s) 0 s in
    let bare = ansi_body 8 0 (d ∷ s) in
    if c == 27
    then if d == b'[' then elim escaped [ none ↦ none | some (n, rest) ↦ some rest ] else none
    else if c == b'['
    then elim bare [ none ↦ none | some (n, rest) ↦ if n == 0 then none else some rest ]
    else none

-- On fuel: each round takes at least one character.
unfoldable pub strip_from : ℕ → Text → Text
strip_from zero s = []
strip_from (suc fuel) [] = []
strip_from (suc fuel) (c ∷ s) =
    let kept = strip_from fuel s in
    elim (ansi_match (c ∷ s)) [ none ↦ c ∷ kept | some rest ↦ strip_from fuel rest ]

unfoldable pub strip_ansi : Text → Text
strip_ansi line = strip_from (length line) line

-- The request for the logs.
pub record LogsCall : Type 0 where
  pub instance_of : InstanceRef
  pub tail : ℕ
  pub keyword : Option Text

module _ {I : Type 0} where
  -- `loadDetail`
  unfoldable pub detail_start : Detail I → Option InstanceRef × Detail I
  detail_start s = elim s.current [
    | none ↦ (none, record s { detail = none })
    | some item ↦ (some item, record s { detail_loading = true })
  ]

  unfoldable pub detail_answer : Answer I → Detail I → Detail I
  detail_answer (answered data_of) s = record s { detail = some data_of; detail_loading = false }
  detail_answer (refused message) s = record s { detail = none; detail_loading = false }

  -- `loadAuditLogs`
  unfoldable pub audit_start : Detail I → Bool × Detail I
  audit_start s =
      if is_some s.current then (true, record s { audit_loading = true }) else (false, s)

  unfoldable pub audit_answer : Answer (List AuditLog) → Detail I → Detail I
  audit_answer (answered items) s = record s { audit_logs = items; audit_loading = false }
  audit_answer (refused message) s = record s { audit_loading = false }

  -- `loadLogs`
  unfoldable pub logs_start : Detail I → Option LogsCall × Detail I
  logs_start s = elim s.current [
    | none ↦ (none, s)
    | some item ↦
        let call : LogsCall = record {
          instance_of = item;
          tail = s.tail;
          keyword = if is_empty s.applied_keyword then none else some s.applied_keyword;
        } in
        if s.logs_paused then (none, s) else (some call, record s { logs_loading = true })
  ]

  unfoldable pub logs_answer : Answer (List Text) → Detail I → Detail I
  logs_answer (answered lines) s = record s {
    logs = map strip_ansi lines;
    view_logs = map strip_ansi lines;
    logs_loading = false;
  }
  logs_answer (refused message) s = record s { logs = []; logs_loading = false }

  -- The effect of another instance or another tab in the address.
  unfoldable pub show_instance : Option InstanceRef → DetailTab → Detail I → Detail I
  show_instance item tab s = record s {
    current = item;
    tab = tab;
    logs = [];
    view_logs = [];
    keyword_input = [];
    applied_keyword = [];
    audit_logs = [];
    logs_paused = false;
    follow_logs = false;
    newest_first = true;
    proxy_drafts = [];
  }

  unfoldable pub filtered_audit_logs : Detail I → List AuditLog
  filtered_audit_logs s = elim s.current [
    | none ↦ []
    | some item ↦ filter (λ (log : AuditLog). audit_matches_instance log item) s.audit_logs
  ]

-- The map of `portEntries`.
unfoldable pub count_ports : List ℕ → List (ℕ × ℕ) → List (ℕ × ℕ)
count_ports [] counts = counts
count_ports (port ∷ ports) counts =
    count_ports ports (put port (or_else (get port counts) 0 + 1) counts)

-- `sort` by the port, which keeps the order of equal ones.
unfoldable pub insert_port : ℕ × ℕ → List (ℕ × ℕ) → List (ℕ × ℕ)
insert_port p [] = p ∷ []
insert_port p (q ∷ qs) =
    let later = q ∷ insert_port p qs in if leb p.0 q.0 then p ∷ q ∷ qs else later

unfoldable pub sort_ports : List (ℕ × ℕ) → List (ℕ × ℕ)
sort_ports [] = []
sort_ports (p ∷ ps) = insert_port p (sort_ports ps)

unfoldable pub port_label : ℕ × ℕ → Text
port_label p = if ltb 1 p.1 then decimal p.0 ++ codes " x" ++ decimal p.1 else decimal p.0

unfoldable pub port_entries : List ℕ → List (Text × Text)
port_entries ports =
    map (λ (p : ℕ × ℕ). (decimal p.0, port_label p)) (sort_ports (count_ports ports []))

unfoldable pub format_proxy_local_target : ProxyDraft → Text
format_proxy_local_target proxy =
    let ip = trim proxy.local_ip in
    let port = trim proxy.local_port in
    if not (is_empty ip) && not (is_empty port)
    then ip ++ codes ":" ++ port
    else if not (is_empty port)
    then codes ":" ++ port
    else if is_empty ip
    then codes "不可用"
    else ip

abbrev part_of : Text → Text → List Text
part_of front t = if is_empty t then [] else (front ++ t) ∷ []

unfoldable pub format_proxy_remote_target : ProxyDraft → Text
format_proxy_remote_target proxy =
    let domains =
      filter (λ (t : Text). not (is_empty t)) (map trim (split_on b',' proxy.custom_domains)) in
    let parts =
      part_of (codes "端口 ") (trim proxy.remote_port)
      ++ part_of (codes "子域名 ") (trim proxy.subdomain)
      ++ (if is_empty domains then [] else join (codes ", ") domains ∷ []) in
    if is_empty parts then codes "不可用" else join (codes " · ") parts
