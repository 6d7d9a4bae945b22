-- ===== src/Console/Tests.antt =====
-- The theorems on the console at a concrete summary.
use Prim.Native.Nat.{ℕ, ◌+◌, ◌≤◌}
use mathlib.Core.Path.{◌≡◌}
use mathlib.Core.Logic.{◌⊎◌}
use mathlib.Core.Bool.{true, false, not}
use mathlib.Core.Option.{Option, none, some}
use mathlib.Core.List.{List, [], ◌∷◌}
use frpc_multi.Base.Lists.{length, last?}
use frpc_multi.Samples.{number_of}
use frpc_multi.Base.Text.{Text, codes}
use frpc_multi.Base.Assoc.{text_eq, nat_eq, get}
use frpc_multi.Console.{
  InstanceStats, InstanceRef, SummaryResponse, Counts, ConsoleState, node_health, tone_of,
  summary_answer, parse_percent,
}
use frpc_multi.Console.Health.{
  health_at, instances_at, is_running, is_stopped, is_failed, node_health-counts,
}
use frpc_multi.Console.Summary.{Shows, ShowsNone, summary_answer-history}

abbrev stat : InstanceStats
stat = record {
  service = codes "frpc";
  container_name = codes "frpc-web";
  container_id = [];
  health = [];
  mem_usage = [];
  net_io = [];
  block_io = [];
  pids = [];
  restart_count = 0;
  state = codes "running";
  status = codes "Up";
  exit_code = none;
  cpu_percent = codes "3%";
  mem_percent = codes "5%";
}

abbrev web : InstanceRef
web = record { name = codes "web"; node_id = 4; node_name = codes "n"; enabled = true }

abbrev db : InstanceRef
db = record web { name = codes "db"; enabled = false }

abbrev stats : List (Text × InstanceStats)
stats = (codes "4:web", stat) ∷ []

abbrev items : List InstanceRef
items = web ∷ db ∷ []

node_health-counts_example :
    let h' = health_at 4 (node_health stats items []) in
    (h'.total ≡ 0 + instances_at (λ x. true) 4 items)
    × (h'.running ≡ 0 + instances_at (λ x. is_running (tone_of stats x)) 4 items)
    × (h'.stopped ≡ 0 + instances_at (λ x. is_stopped (tone_of stats x)) 4 items)
    × (h'.error ≡ 0 + instances_at (λ x. is_failed (tone_of stats x)) 4 items)
    × (h'.disabled ≡ 0 + instances_at (λ x. not x.enabled) 4 items)
unfolding get
node_health-counts_example = node_health-counts stats 4 items []

abbrev no_counts : Counts
no_counts = record { total = 0; running = 0; stopped = 0; error = 0 }

abbrev start : ConsoleState (Option ℕ)
start = record {
  nodes = [];
  instances = [];
  summary_loading = false;
  summary_loaded = false;
  summary_error = [];
  stats = [];
  history = [];
  counts = no_counts;
  docker_available = false;
  docker_error = [];
  pending_action = [];
}

abbrev response : SummaryResponse
response = record {
  nodes = [];
  instances =
      record {
        name = codes "web";
        node_id = some 4;
        node_name = none;
        enabled = true;
        runtime = some stat;
      }
      ∷ [];
  counts = no_counts;
  docker_available = true;
  docker_error = none;
}

abbrev parse_float : Text → Option (Option ℕ)
parse_float t = some (number_of t)

summary_answer-history_example :
    let history = (summary_answer none parse_float (some ([], response)) start).history in
    (ShowsNone (codes "4:web") response.instances × (get (codes "4:web") history ≡ none))
    ⊎ ((found : InstanceStats) × (points : List (Option ℕ × Option ℕ)) × Shows
          (codes "4:web")
          found
          response.instances
        × (get (codes "4:web") history ≡ some points)
        × (length points ≤ 12)
        × (last? points
            ≡ some (
              parse_percent none parse_float found.cpu_percent,
              parse_percent none parse_float found.mem_percent,
            )))
summary_answer-history_example =
    summary_answer-history none parse_float [] response start (codes "4:web")
