-- ===== src/Console/Health.antt =====
-- The health of the nodes counts every instance once.
use Prim.Native.Nat.{ℕ, ◌+◌}
use mathlib.Core.Path.{◌≡◌, ap, ◌∙◌}
use mathlib.Core.Bool.{Bool, true, false, not, ◌&&◌}
use mathlib.Core.List.{List, [], ◌∷◌}
use native.Mathlib.Omega.{arith}
use frpc_multi.Base.Tests.{◌==◌, if◌then◌else◌, ==_iff, or_else}
use frpc_multi.Base.Lists.{length, filter}
use frpc_multi.Base.Text.{Text}
use frpc_multi.Base.Assoc.{nat_eq, get, put, get-put}
use frpc_multi.Console.{
  InstanceStats, InstanceRef, InstanceTone, NodeHealth, no_health, count_instance, node_health,
  tone_of, success, danger, warning, muted,
}

-- what a node's entry shows, with no entry as nothing counted
abbrev pub health_at : ℕ → List (ℕ × NodeHealth) → NodeHealth
health_at id by_node = or_else (get id by_node) no_health

-- The instances of a node that are counted in a class.
abbrev pub instances_at : (InstanceRef → Bool) → ℕ → List InstanceRef → ℕ
instances_at class id items = length (filter (λ item. item.node_id == id && class item) items)

abbrev pub is_running : InstanceTone → Bool
is_running success = true
is_running _ = false

abbrev pub is_failed : InstanceTone → Bool
is_failed danger = true
is_failed _ = false

abbrev pub is_stopped : InstanceTone → Bool
is_stopped tone = not (is_running tone) && not (is_failed tone)

health_at-put :
    (id j : ℕ) (h : NodeHealth) (m : List (ℕ × NodeHealth))
    → health_at id (put j h m) ≡ (if j == id then h else health_at id m)
health_at-put id j h m = ground (arith, get-put j id h m)

abbrev pub one : Bool → ℕ
one b = if b then 1 else 0

-- one more instance, if it is at the node
step :
    (same : Bool) (tone : InstanceTone) (enabled : Bool) (h : NodeHealth)
    → let h' = if same then count_instance tone enabled h else h in
      (h'.total ≡ h.total + one (same && true))
      × (h'.running ≡ h.running + one (same && is_running tone))
      × (h'.stopped ≡ h.stopped + one (same && is_stopped tone))
      × (h'.error ≡ h.error + one (same && is_failed tone))
      × (h'.disabled ≡ h.disabled + one (same && not enabled))
unfolding count_instance
step false tone enabled h = (omega arith, omega arith, omega arith, omega arith, omega arith)
step true success enabled h = (ground arith, ground arith, ground arith, ground arith, ground arith)
step true warning enabled h = (ground arith, ground arith, ground arith, ground arith, ground arith)
step true danger enabled h = (ground arith, ground arith, ground arith, ground arith, ground arith)
step true muted enabled h = (ground arith, ground arith, ground arith, ground arith, ground arith)

health_at-counted :
    (id j : ℕ) (tone : InstanceTone) (enabled : Bool) (m : List (ℕ × NodeHealth))
    → health_at id (put j (count_instance tone enabled (health_at j m)) m)
      ≡ (if j == id then count_instance tone enabled (health_at id m) else health_at id m)
health_at-counted id j tone enabled m =
    ground (arith, ==_iff j id, health_at-put id j (count_instance tone enabled (health_at j m)) m)

instances_at-cons :
    (class : InstanceRef → Bool) (id : ℕ) (item : InstanceRef) (items : List InstanceRef)
    → instances_at class id (item ∷ items)
      ≡ one (item.node_id == id && class item) + instances_at class id items
instances_at-cons class id item items = ground arith

added : (x y z p q r : ℕ) → x ≡ y + q → y ≡ z + p → r ≡ p + q → x ≡ z + r
added x y z p q r e f g = omega arith

-- Counting the instances adds, to what was counted for a node before, all its instances, those whose
-- badge shows success, those whose badge shows danger, the other ones, and those that are disabled.
pub node_health-counts :
    (stats : List (Text × InstanceStats)) (id : ℕ) (items : List InstanceRef)
    (m : List (ℕ × NodeHealth))
    → let h = health_at id m in
      let h' = health_at id (node_health stats items m) in
      (h'.total ≡ h.total + instances_at (λ x. true) id items)
      × (h'.running ≡ h.running + instances_at (λ x. is_running (tone_of stats x)) id items)
      × (h'.stopped ≡ h.stopped + instances_at (λ x. is_stopped (tone_of stats x)) id items)
      × (h'.error ≡ h.error + instances_at (λ x. is_failed (tone_of stats x)) id items)
      × (h'.disabled ≡ h.disabled + instances_at (λ x. not x.enabled) id items)
unfolding node_health
node_health-counts stats id [] m = (omega arith, omega arith, omega arith, omega arith, omega arith)
node_health-counts stats id (item ∷ items) m =
    let tone = tone_of stats item in
    let next = put item.node_id (count_instance tone item.enabled (health_at item.node_id m)) m in
    let e = health_at-counted id item.node_id tone item.enabled m in
    let (a, b, c, d, f) = step (item.node_id == id) tone item.enabled (health_at id m) in
    let (a', b', c', d', f') = node_health-counts stats id items next in
    (
      added _ _ _ _ _ _ a' (ap (λ h. h.total) e ∙ a) (instances_at-cons (λ x. true) id item items),
      added _ _ _ _ _ _ b' (ap (λ h. h.running) e ∙ b)
          (instances_at-cons (λ x. is_running (tone_of stats x)) id item items),
      added _ _ _ _ _ _ c' (ap (λ h. h.stopped) e ∙ c)
          (instances_at-cons (λ x. is_stopped (tone_of stats x)) id item items),
      added _ _ _ _ _ _ d' (ap (λ h. h.error) e ∙ d)
          (instances_at-cons (λ x. is_failed (tone_of stats x)) id item items),
      added _ _ _ _ _ _ f' (ap (λ h. h.disabled) e ∙ f)
          (instances_at-cons (λ x. not x.enabled) id item items),
    )
