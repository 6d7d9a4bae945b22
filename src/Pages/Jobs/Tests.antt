-- ===== src/Pages/Jobs/Tests.antt =====
-- The theorems on the panel of the batches at a concrete panel.
use frpc_multi.Base.Answers.{answered, refused}
use frpc_multi.Base.Assoc.{text_eq, get}
use frpc_multi.Base.Text.{Text, codes, ◌===◌}
use frpc_multi.Pages.Jobs.{
  JobDetail, Panel, StageCount, Ticket, load_start, list_answer, detail_answer, set_job,
  action_start, done, running, failed, shown_detail,
}
use frpc_multi.Pages.Jobs.Groups.{
  groups_from, total_of, finished_of, sum_of, all_tasks, over_tasks, groups_from-sums, group_key,
}
use frpc_multi.Pages.Jobs.Laws.{detail_answer-set_job}
use Prim.Native.Nat.{ℕ, ◌≤◌}
use mathlib.Core.Path.{◌≡◌, refl}
use mathlib.Core.Bool.{true, false}
use mathlib.Core.Option.{none, some}
use mathlib.Core.List.{List, [], ◌∷◌}

abbrev entries : List StageCount
entries =
    record { node_id = codes "n"; stage = codes "route"; state = done; count = 3 }
    ∷ record { node_id = codes "m"; stage = codes "route"; state = failed; count = 9 }
    ∷ record { node_id = codes "n"; stage = codes "route"; state = running; count = 2 }
    ∷ []

five : sum_of all_tasks (codes "n:route") entries ≡ 5
unfolding sum_of group_key ◌===◌
five = refl

three : sum_of over_tasks (codes "n:route") entries ≡ 3
unfolding sum_of group_key ◌===◌
three = refl

abbrev detail : JobDetail
detail = record {
  id = codes "a";
  is_running = true;
  counts = [];
  task_total = 14;
  target_total = none;
  target_materialized = none;
  target_remaining = none;
  target_producer = none;
  stage_counts = entries;
  tasks = [];
  page = 1;
  page_size = 200;
  filtered_task_total = none;
  failover_waiting_count = none;
}

abbrev panel : Panel ℕ
panel = record {
  jobs = [];
  list_total = 0;
  job_id = codes "a";
  loaded_detail = some detail;
  page = 1;
  selected = [];
  error = [];
  busy = false;
  loading = false;
  previous = [];
  request_id = 6;
  mounted = true;
  pending_action = none;
  owner = 2;
}

abbrev called : Ticket
called = record { owner = 2; generation = 7 }

calls : (load_start 2 panel).0 ≡ some called
unfolding load_start
calls = refl

abbrev no_signature : Text → JobDetail → Text
no_signature id next = []

different : ((codes "b" === codes "a") ≡ false) × ((codes "a" === codes "b") ≡ false)
unfolding ◌===◌
different = (refl, refl)

detail_answer-set_job_example :
    let back = set_job (codes "a") (set_job (codes "b") (load_start 2 panel).1) in
    (back.job_id ≡ codes "a")
    × (list_answer called [] (refused none) back ≡ (none, back))
    × (detail_answer no_signature called (codes "a") (answered detail) back ≡ (false, back))
detail_answer-set_job_example =
    detail_answer-set_job no_signature called (codes "b") (codes "a") [] (refused none)
      (answered detail) panel calls different.0 different.1

starts : (action_start 1 2 none panel).0 ≡ true
unfolding action_start shown_detail ◌===◌
starts = refl

groups_from-sums_example :
    let shown = get (codes "n:route") (groups_from entries []) in
    (total_of shown ≡ sum_of all_tasks (codes "n:route") entries)
    × (finished_of shown ≡ sum_of over_tasks (codes "n:route") entries)
    × (finished_of shown ≤ total_of shown)
groups_from-sums_example = groups_from-sums (codes "n:route") entries
