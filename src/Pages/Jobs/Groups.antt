-- ===== src/Pages/Jobs/Groups.antt =====
-- webui/frontend/src/pages/probe/ProbeJobsPanel.tsx: the tasks of a batch by node and stage, and how
-- many of them are done.
use frpc_multi.Base.Assoc.{text_eq, get, put, get-put}
use frpc_multi.Base.Text.{Text, codes, ◌===◌, ===_iff}
use frpc_multi.Pages.Jobs.{
  StageCount, TaskState, pending, running, cancelling, done, failed, skipped, stopped,
}
use Prim.Native.Nat.{ℕ, ◌+◌, ◌≤◌}
use mathlib.Core.Path.{◌≡◌, refl, ap, ◌∙◌}
use mathlib.Core.Logic.{inl, inr}
use mathlib.Core.Bool.{Bool, true, false}
use mathlib.Core.Option.{Option, none, some}
use mathlib.Core.List.{List, [], ◌∷◌, ◌++◌, map}
use native.Mathlib.Omega.{arith}
use frpc_multi.Base.Tests.{if◌then◌else◌, Bool-cases}

pub record Group : Type 0 where
  pub node_id : Text
  pub stage : Text
  pub total : ℕ
  pub finished : ℕ

unfoldable pub group_key : StageCount → Text
group_key entry = entry.node_id ++ codes ":" ++ entry.stage

-- A task that is not pending, running or being stopped.
abbrev pub is_over : TaskState → Bool
is_over state = elim state [ pending ↦ false | running ↦ false | cancelling ↦ false | _ ↦ true ]

unfoldable pub add_entry : StageCount → Option Group → Group
add_entry entry none = record {
  node_id = entry.node_id;
  stage = entry.stage;
  total = entry.count;
  finished = if is_over entry.state then entry.count else 0;
}
add_entry entry (some group) = record group {
  total = group.total + entry.count;
  finished = if is_over entry.state then group.finished + entry.count else group.finished;
}

unfoldable pub groups_from : List StageCount → List (Text × Group) → List (Text × Group)
groups_from [] m = m
groups_from (entry ∷ entries) m =
    let key = group_key entry in groups_from entries (put key (add_entry entry (get key m)) m)

unfoldable pub groups : List StageCount → List Group
groups entries = map (λ (p : Text × Group). p.1) (groups_from entries [])

abbrev is_ended : TaskState → Bool
is_ended state = elim state [
  | done ↦ true
  | failed ↦ true
  | skipped ↦ true
  | stopped ↦ true
  | _ ↦ false
]

-- `done`
unfoldable pub done_count : List (TaskState × ℕ) → ℕ
done_count [] = 0
done_count ((state, n) ∷ counts) = (if is_ended state then n else 0) + done_count counts

-- What the entries of a node and stage count together.
unfoldable pub sum_of : (StageCount → ℕ) → Text → List StageCount → ℕ
sum_of count key [] = 0
sum_of count key (entry ∷ entries) =
    (if (entry.node_id ++ codes ":" ++ entry.stage) === key then count entry else 0)
    + sum_of count key entries

abbrev pub all_tasks : StageCount → ℕ
all_tasks entry = entry.count

-- The tasks that ended: all but those that wait, run or are being stopped.
abbrev pub ended_tasks : TaskState → ℕ → ℕ
ended_tasks pending n = 0
ended_tasks running n = 0
ended_tasks cancelling n = 0
ended_tasks done n = n
ended_tasks failed n = n
ended_tasks skipped n = n
ended_tasks stopped n = n

abbrev pub over_tasks : StageCount → ℕ
over_tasks entry = ended_tasks entry.state entry.count

ended_tasks-is_over :
    (state : TaskState) (n m : ℕ) → (if is_over state then n + m else n) ≡ n + ended_tasks state m
ended_tasks-is_over pending n m = omega arith
ended_tasks-is_over running n m = omega arith
ended_tasks-is_over cancelling n m = omega arith
ended_tasks-is_over done n m = refl
ended_tasks-is_over failed n m = refl
ended_tasks-is_over skipped n m = refl
ended_tasks-is_over stopped n m = refl

ended_tasks-le : (state : TaskState) (n : ℕ) → ended_tasks state n ≤ n
ended_tasks-le pending n = omega arith
ended_tasks-le running n = omega arith
ended_tasks-le cancelling n = omega arith
ended_tasks-le done n = omega arith
ended_tasks-le failed n = omega arith
ended_tasks-le skipped n = omega arith
ended_tasks-le stopped n = omega arith

abbrev pub total_of : Option Group → ℕ
total_of none = 0
total_of (some group) = group.total

abbrev pub finished_of : Option Group → ℕ
finished_of none = 0
finished_of (some group) = group.finished

add_entry-sums :
    (entry : StageCount) (o : Option Group)
    → (total_of (some (add_entry entry o)) ≡ total_of o + all_tasks entry)
      × (finished_of (some (add_entry entry o)) ≡ finished_of o + over_tasks entry)
unfolding add_entry
add_entry-sums entry none =
    (omega arith, ground (arith, ended_tasks-is_over entry.state 0 entry.count))
add_entry-sums entry (some group) =
    (refl, ended_tasks-is_over entry.state group.finished entry.count)

module _ (value : Option Group → ℕ) (count : StageCount → ℕ)
    (adds : (entry : StageCount) (o : Option Group)
      → value (some (add_entry entry o)) ≡ value o + count entry) where
  value-put :
      (key : Text) (entry : StageCount) (m : List (Text × Group))
      → value (get key (put (group_key entry) (add_entry entry (get (group_key entry) m)) m))
        ≡ value (get key m) + (if group_key entry === key then count entry else 0)
  value-put key entry m =
      let added = add_entry entry (get (group_key entry) m) in
      let there = ap value (get-put (group_key entry) key added m) in
      elim (Bool-cases (group_key entry === key)) [
        | inl e ↦
            let same = (===_iff (group_key entry) key).0 e in
            there
            ∙ rw e (
                adds entry (get (group_key entry) m)
                ∙ ap (λ (k : Text). value (get k m) + count entry) same)
        | inr e ↦ there ∙ rw e (omega arith)
      ]

  value-groups_from :
      (key : Text) (entries : List StageCount) (m : List (Text × Group))
      → value (get key (groups_from entries m)) ≡ value (get key m) + sum_of count key entries
  unfolding groups_from sum_of group_key
  value-groups_from key [] m = omega arith
  value-groups_from key (entry ∷ entries) m =
      let put_first = put (group_key entry) (add_entry entry (get (group_key entry) m)) m in
      omega (arith, value-groups_from key entries put_first, value-put key entry m)

sum_of-le :
    (key : Text) (entries : List StageCount)
    → sum_of over_tasks key entries ≤ sum_of all_tasks key entries
unfolding sum_of
sum_of-le key [] = omega arith
sum_of-le key (entry ∷ entries) =
    ground (arith, sum_of-le key entries, ended_tasks-le entry.state entry.count)

-- For every key of a node and a stage the group that is shown counts all tasks with this key, and as done
-- those that are neither pending nor running nor being stopped; it never shows more done than there are.
pub groups_from-sums :
    (key : Text) (entries : List StageCount)
    → let shown = get key (groups_from entries []) in
      (total_of shown ≡ sum_of all_tasks key entries)
      × (finished_of shown ≡ sum_of over_tasks key entries)
      × (finished_of shown ≤ total_of shown)
unfolding get
groups_from-sums key entries =
    let total =
      value-groups_from total_of all_tasks (λ entry o. (add_entry-sums entry o).0) key entries [] in
    let over =
      value-groups_from finished_of over_tasks (λ entry o. (add_entry-sums entry o).1) key entries
        [] in
    (omega (arith, total), omega (arith, over), omega (arith, total, over, sum_of-le key entries))
