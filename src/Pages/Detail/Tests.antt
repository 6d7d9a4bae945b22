-- ===== src/Pages/Detail/Tests.antt =====
-- The theorems on the page of an instance at concrete texts, and a late answer.
use mathlib.Core.List.{Perm}
use frpc_multi.Base.Answers.{answered}
use frpc_multi.Base.Text.{codes}
use frpc_multi.Console.{InstanceRef}
use frpc_multi.Pages.Detail.{
  Detail, logs_tab, logs_answer, show_instance, strip_ansi, strip_from, ansi_match, ansi_body,
  count_ports, sort_ports,
}
use frpc_multi.Pages.Detail.Laws.{count_ports-sort_ports, count_of, occurrences, IsSorted}
use Prim.Native.Nat.{ℕ}
use frpc_multi.Pages.Detail.Ansi.{
  Piece, plain, escaped, bare, line_of, plain_of, strip_ansi-line_of,
}
use mathlib.Core.Logic.{inl, inr}
use mathlib.Core.List.{List}
use mathlib.Core.Path.{◌≡◌, refl}
use mathlib.Core.Bool.{true, false}
use mathlib.Core.Option.{none, some}
use mathlib.Core.List.{[], ◌∷◌}
use native.Mathlib.Omega.{arith}

stripped : strip_ansi (codes "[1;31merr[0m [x] []m") ≡ codes "err [x] []m"
unfolding strip_ansi strip_from ansi_match ansi_body
stripped = refl

abbrev pieces : List Piece
pieces = escaped (codes "1;31") ∷ plain b'e' ∷ plain b'm' ∷ bare (codes "0") ∷ []

strip_ansi-line_of_example : strip_ansi (line_of pieces) ≡ plain_of pieces
strip_ansi-line_of_example = strip_ansi-line_of pieces (
  (
    inl (omega arith, omega arith),
    (inr refl, (inl (omega arith, omega arith), (inl (omega arith, omega arith), tt))),
  ),
  (
    (omega arith, omega arith),
    (
      (omega arith, omega arith),
      (((inl (omega arith, omega arith), tt), omega arith, omega arith), tt),
    ),
  ),
)

abbrev web : InstanceRef
web = record { name = codes "web"; node_id = 1; node_name = []; enabled = true }

abbrev db : InstanceRef
db = record { name = codes "db"; node_id = 1; node_name = []; enabled = true }

abbrev shown : Detail ℕ
shown = record {
  current = some web;
  detail = none;
  detail_loading = false;
  tab = logs_tab;
  logs = [];
  keyword_input = [];
  applied_keyword = [];
  tail = 300;
  logs_loading = true;
  logs_paused = false;
  view_logs = [];
  follow_logs = false;
  newest_first = true;
  proxy_drafts = [];
  audit_logs = [];
  audit_loading = false;
}

-- The logs of one instance that arrive when another one is shown are shown as its logs.
late_logs :
    (logs_answer
      (answered (codes "of web" ∷ []))
      (show_instance (some db) logs_tab shown)).view_logs
    ≡ codes "of web" ∷ []
unfolding logs_answer show_instance strip_ansi strip_from ansi_match ansi_body
late_logs = refl

count_ports-sort_ports_example :
    let counts = count_ports (80 ∷ 22 ∷ 80 ∷ []) [] in
    (count_of 80 counts ≡ occurrences 80 (80 ∷ 22 ∷ 80 ∷ []))
    × IsSorted (sort_ports counts)
    × Perm (sort_ports counts) counts
count_ports-sort_ports_example = count_ports-sort_ports 80 (80 ∷ 22 ∷ 80 ∷ [])
