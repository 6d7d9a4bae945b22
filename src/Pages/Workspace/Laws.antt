-- ===== src/Pages/Workspace/Laws.antt =====
-- The counts of a node, the filters by status, and summaries that are read once.
use frpc_multi.Base.Text.{Text, ===_refl}
use frpc_multi.Base.Assoc.{text_eq, nat_eq, get, has, put, get-put}
use frpc_multi.Console.{
  InstanceRef, InstanceTone, NodeHealth, no_health, node_health, tone_of, success, danger, warning,
  muted,
}
use frpc_multi.Console.Health.{
  health_at, instances_at, is_running, is_failed, is_stopped, node_health-counts,
}
use frpc_multi.Pages.Workspace.{
  Stats, Cache, Row, InstanceSummary, running, error, stopped, count_one, count_items, node_summary,
  instances_of, has_status, summary_targets, summaries_answer, key_of,
}
use Prim.Native.Nat.{ℕ, ◌+◌}
use mathlib.Core.Path.{◌≡◌, refl}
use mathlib.Core.Logic.{inl, inr}
use mathlib.Core.Bool.{Bool, true, false, not}
use mathlib.Core.Option.{Option}
use mathlib.Core.List.{List, [], ◌∷◌}
use native.Mathlib.Omega.{arith}
use frpc_multi.Base.Tests.{if◌then◌else◌, Bool-cases}
use frpc_multi.Base.Lists.{length, take, filter, All}

abbrev counted : (InstanceRef → Bool) → List InstanceRef → ℕ
counted class items = length (filter class items)

counted_of :
    (class : InstanceRef → Bool) (id : ℕ) (items : List InstanceRef)
    → counted class (instances_of id items) ≡ instances_at class id items
counted_of class id [] = refl
counted_of class id (item ∷ items) = ground (arith, counted_of class id items)

abbrev one : Bool → ℕ
one b = if b then 1 else 0

count_one-counts :
    (tone : InstanceTone) (enabled : Bool) (h : NodeHealth)
    → let h' = count_one tone enabled h in
      (h'.running ≡ h.running + one (is_running tone))
      × (h'.stopped ≡ h.stopped + one (is_stopped tone))
      × (h'.error ≡ h.error + one (is_failed tone))
      × (h'.disabled ≡ h.disabled + one (not enabled))
unfolding count_one
count_one-counts success enabled h = (ground arith, ground arith, ground arith, ground arith)
count_one-counts warning enabled h = (ground arith, ground arith, ground arith, ground arith)
count_one-counts danger enabled h = (ground arith, ground arith, ground arith, ground arith)
count_one-counts muted enabled h = (ground arith, ground arith, ground arith, ground arith)

counted-cons :
    (class : InstanceRef → Bool) (item : InstanceRef) (items : List InstanceRef)
    → counted class (item ∷ items) ≡ one (class item) + counted class items
counted-cons class item items = ground arith

count_items-counts :
    (stats : Stats) (items : List InstanceRef) (h : NodeHealth)
    → let h' = count_items stats items h in
      (h'.running ≡ h.running + counted (λ x. is_running (tone_of stats x)) items)
      × (h'.stopped ≡ h.stopped + counted (λ x. is_stopped (tone_of stats x)) items)
      × (h'.error ≡ h.error + counted (λ x. is_failed (tone_of stats x)) items)
      × (h'.disabled ≡ h.disabled + counted (λ x. not x.enabled) items)
unfolding count_items
count_items-counts stats [] h = (omega arith, omega arith, omega arith, omega arith)
count_items-counts stats (item ∷ items) h =
    let next = count_one (tone_of stats item) item.enabled h in
    let (a, b, c, d) = count_one-counts (tone_of stats item) item.enabled h in
    let (a', b', c', d') = count_items-counts stats items next in
    (
      omega (arith, a, a', counted-cons (λ x. is_running (tone_of stats x)) item items),
      omega (arith, b, b', counted-cons (λ x. is_stopped (tone_of stats x)) item items),
      omega (arith, c, c', counted-cons (λ x. is_failed (tone_of stats x)) item items),
      omega (arith, d, d', counted-cons (λ x. not x.enabled) item items),
    )

counted_all :
    (items : List InstanceRef) (id : ℕ)
    → length (instances_of id items) ≡ instances_at (λ x. true) id items
counted_all [] id = refl
counted_all (item ∷ items) id = ground (arith, counted_all items id)

-- The workspace and the health of the nodes count alike: for every node, the workspace shows the total,
-- the running, stopped, failed and disabled instances that the console's map of health has for it.
pub node_summary-node_health :
    (stats : Stats) (items : List InstanceRef) (id : ℕ)
    → let shown = node_summary stats items id in
      let h = health_at id (node_health stats items []) in
      (shown.total ≡ h.total)
      × (shown.running ≡ h.running)
      × (shown.stopped ≡ h.stopped)
      × (shown.error ≡ h.error)
      × (shown.disabled ≡ h.disabled)
unfolding node_summary get
node_summary-node_health stats items id =
    let (a, b, c, d, e) = node_health-counts stats id items [] in
    let own = instances_of id items in
    let (b', c', d', e') = count_items-counts stats own no_health in
    (
      omega (arith, a, counted_all items id),
      omega (arith, b, b', counted_of (λ x. is_running (tone_of stats x)) id items),
      omega (arith, c, c', counted_of (λ x. is_stopped (tone_of stats x)) id items),
      omega (arith, d, d', counted_of (λ x. is_failed (tone_of stats x)) id items),
      omega (arith, e, e', counted_of (λ x. not x.enabled) id items),
    )

-- An enabled instance is shown under exactly one of the filters for running, failed and stopped.
pub has_status_once :
    (tone : InstanceTone)
    → one (has_status running tone true)
        + one (has_status error tone true)
        + one (has_status stopped tone true)
      ≡ 1
unfolding has_status
has_status_once success = refl
has_status_once warning = refl
has_status_once danger = refl
has_status_once muted = refl

has-put :
    (key other : Text) (value : Option InstanceSummary) (cache : Cache)
    → has other cache ≡ true
    → has other (put key value cache) ≡ true
has-put key other value cache h = ground (arith, get-put key other value cache)

has-put_same :
    (key : Text) (value : Option InstanceSummary) (cache : Cache)
    → has key (put key value cache) ≡ true
has-put_same key value cache = ground (arith, get-put key key value cache, ===_refl key)

has-summaries_answer :
    (ask : Row → Option InstanceSummary) (rows : List Row) (key : Text) (cache : Cache)
    → has key cache ≡ true
    → has key (summaries_answer false ask rows cache) ≡ true
unfolding summaries_answer
has-summaries_answer ask [] key cache h = h
has-summaries_answer ask (row ∷ rows) key cache h =
    has-summaries_answer ask rows key (put (key_of row) (ask row) cache)
      (has-put (key_of row) key (ask row) cache h)

abbrev missing : Cache → List Row → List Row
missing cache rows = filter (λ (row : Row). not (has (key_of row) cache)) rows

-- Every row that had no summary has one behind the answers.
none_missing :
    (ask : Row → Option InstanceSummary) (rows : List Row) (cache now : Cache)
    → ((key : Text) → has key cache ≡ true → has key now ≡ true)
    → All (λ (row : Row). has (key_of row) now ≡ true) (missing cache rows)
    → missing now rows ≡ []
none_missing ask [] cache now h k = refl
none_missing ask (row ∷ rows) cache now h k = elim (Bool-cases (has (key_of row) cache)) [
  | inl e ↦ rw (h (key_of row) e) (none_missing ask rows cache now h (rw e at k))
  | inr e ↦
      let (found, rest) : (has (key_of row) now ≡ true)
          × All (λ (row : Row). has (key_of row) now ≡ true) (missing cache rows) =
        rw e at k in
      rw found (none_missing ask rows cache now h rest)
]

all_read :
    (ask : Row → Option InstanceSummary) (rows : List Row) (cache : Cache)
    → All (λ (row : Row). has (key_of row) (summaries_answer false ask rows cache) ≡ true) rows
unfolding summaries_answer
all_read ask [] cache = tt
all_read ask (row ∷ rows) cache = (
  has-summaries_answer ask rows (key_of row) (put (key_of row) (ask row) cache)
      (has-put_same (key_of row) (ask row) cache),
  all_read ask rows (put (key_of row) (ask row) cache),
)

-- When the summaries that the workspace asked for have arrived, be they read or failed, it asks for no
-- other one while the same instances are shown.
pub summary_targets_once :
    (ask : Row → Option InstanceSummary) (cache : Cache) (visible : List Row)
    → summary_targets (summaries_answer false ask (summary_targets cache visible) cache) visible
      ≡ []
unfolding summary_targets
summary_targets_once ask cache visible =
    let asked = missing cache (take 25 visible) in
    none_missing ask (take 25 visible) cache (summaries_answer false ask asked cache)
      (λ key. has-summaries_answer ask asked key cache) (all_read ask asked cache)
