-- ===== src/Pages/TestNodes/Steps.antt =====
-- Every order of calls, answers and edits of the page of test nodes, and what is saved.
use frpc_multi.Base.Text.{Text}
use frpc_multi.Pages.TestNodes.{
  Policy, TestNodesState, policy_answer, TestNode, nodes_answer, apply_policy, policy_start,
  failovers_start, FailoverPage, failovers_answer, failovers_leave, choose_primary, Offset,
  move_backup, save_start, move_to, mark_dirty, next_index, ordered_backup_ids, up, down,
}
use frpc_multi.Base.Answers.{Answer, answered, refused}
use frpc_multi.Base.Assoc.{text_eq, contains}
use frpc_multi.Base.Members.{NoDup, filter-NoDup}
use frpc_multi.Base.Exchange.{swap_at-NoDup, exchange, exchange_up, exchange_down}
use frpc_multi.Pages.TestNodes.{save_start, save_answer, save_refreshed}
use frpc_multi.Pages.TestNodes.Laws.{
  may_back_up, ordered_ids-NoDup, contains-ordered_ids, contains-eligible_ids,
}
use Prim.Native.Nat.{ℕ, suc, ◌≤◌}
use mathlib.Core.Path.{◌≡◌, refl, ◌∙◌}
use mathlib.Core.Logic.{◌≢◌, ◌⊎◌, inl, inr}
use mathlib.Core.Bool.{Bool, false, ◌&&◌}
use mathlib.Core.Option.{none, some}
use mathlib.Core.List.{List, map}
use native.Mathlib.Omega.{arith}
use frpc_multi.Base.Tests.{◌==◌, Bool-cases, Option-cases}
use frpc_multi.Base.Lists.{length, is_empty, any}

abbrev pub HasDistinctIds : List TestNode → Type 0
HasDistinctIds nodes = NoDup (map (λ (node : TestNode). node.id) nodes)

-- The nodes are listed once each, and so are the backups of a policy.
abbrev pub IsNodes : Answer (List TestNode) → Type 0
IsNodes (answered items) = HasDistinctIds items
IsNodes (refused _) = Unit

abbrev pub IsPolicy : Answer Policy → Type 0
IsPolicy (answered policy) = NoDup policy.backup_node_ids
IsPolicy (refused _) = Unit

pub data Step (s : TestNodesState) : TestNodesState → Type 0 where
  nodes_arrive : (a : Answer (List TestNode)) → IsNodes a → Step s (nodes_answer a s)
  policy_call : Step s (policy_start s).1
  policy_arrives :
      (revision : ℕ) (preserve_draft : Bool) (a : Answer Policy)
      → IsPolicy a
      → Step s (policy_answer revision preserve_draft a s).1
  failovers_call : Step s (failovers_start s).1
  failovers_arrive :
      (revision : ℕ) (a : Answer FailoverPage) → Step s (failovers_answer revision a s)
  failovers_left : Step s (failovers_leave s)
  choose : (node_id : Text) → Step s (choose_primary node_id s)
  move : (index : ℕ) (offset : Offset) → Step s (move_backup index offset s)
  save : Step s (save_start s).1
  saved : (a : Answer Policy) → IsPolicy a → Step s (save_answer a s).1
  refreshed : (revision : ℕ) (a : Answer Policy) → IsPolicy a → Step s (save_refreshed revision a s)

pub data Reach (s : TestNodesState) : TestNodesState → Type 0 where
  here : Reach s s
  more : {t u : TestNodesState} → Reach s t → Step t u → Reach s u

pub record IsValid (s : TestNodesState) : Type 0 where
  pub nodes : HasDistinctIds s.nodes
  pub backups : NoDup s.backup_node_ids

kept :
    (s t : TestNodesState)
    → t.nodes ≡ s.nodes
    → t.backup_node_ids ≡ s.backup_node_ids
    → IsValid s
    → IsValid t
kept s t n b v = record { nodes = rw n v.nodes; backups = rw b v.backups }

apply_policy-IsValid :
    (policy : Policy) (preserve_draft : Bool) (s : TestNodesState)
    → NoDup policy.backup_node_ids
    → IsValid s
    → IsValid (apply_policy policy preserve_draft s)
unfolding apply_policy
apply_policy-IsValid policy preserve_draft s p v = elim (Bool-cases (preserve_draft && s.dirty)) [
  | inl e ↦ rw e record { nodes = v.nodes; backups = v.backups }
  | inr e ↦ rw e record { nodes = v.nodes; backups = p }
]

policy_answer-IsValid :
    (revision : ℕ) (preserve_draft : Bool) (a : Answer Policy) (s : TestNodesState)
    → IsPolicy a
    → IsValid s
    → IsValid (policy_answer revision preserve_draft a s).1
unfolding policy_answer
policy_answer-IsValid revision preserve_draft (answered policy) s p v =
    elim (Bool-cases (revision == s.policy_request_revision)) [
      | inl e ↦ rw e (apply_policy-IsValid policy preserve_draft s p v)
      | inr e ↦ rw e v
    ]
policy_answer-IsValid revision preserve_draft (refused message) s p v =
    kept s _ (ground arith) (ground arith) v

save_refreshed-IsValid :
    (revision : ℕ) (a : Answer Policy) (s : TestNodesState)
    → IsPolicy a
    → IsValid s
    → IsValid (save_refreshed revision a s)
unfolding save_refreshed
save_refreshed-IsValid revision a s p v =
    kept (policy_answer revision false a s).1 _ (ground arith) (ground arith)
      (policy_answer-IsValid revision false a s p v)

neighbours :
    (index : ℕ) (offset : Offset) (n next : ℕ)
    → next_index index offset n ≡ some next
    → (index ≡ suc next) ⊎ (next ≡ suc index)
unfolding next_index
neighbours index up n next h = inl (ground arith)
neighbours index down n next h = inr (ground arith)

exchange-NoDup :
    (index next : ℕ) (xs : List Text)
    → (index ≡ suc next) ⊎ (next ≡ suc index)
    → NoDup xs
    → NoDup (exchange index next xs)
exchange-NoDup index next xs (inl e) h = rw (e, exchange_up next xs) (swap_at-NoDup next xs h)
exchange-NoDup index next xs (inr e) h = rw (e, exchange_down index xs) (swap_at-NoDup index xs h)

move_backup-IsValid :
    (index : ℕ) (offset : Offset) (s : TestNodesState)
    → IsValid s
    → IsValid (move_backup index offset s)
unfolding move_backup move_to mark_dirty
move_backup-IsValid index offset s v =
    let order = ordered_backup_ids s in
    elim (Option-cases (next_index index offset (length order))) [
      | inl e ↦ rw e v
      | inr (next, e) ↦ rw e record {
        nodes = v.nodes;
        backups =
            exchange-NoDup index next order (neighbours index offset (length order) next e)
              (ordered_ids-NoDup s.nodes s.primary_node_id s.backup_node_ids v.nodes v.backups);
      }
    ]

Step-IsValid : {s t : TestNodesState} → Step s t → IsValid s → IsValid t
unfolding nodes_answer policy_start failovers_start failovers_leave failovers_answer choose_primary
    mark_dirty save_start save_answer move_backup
Step-IsValid (nodes_arrive (answered items) h) v = record { nodes = h; backups = v.backups }
Step-IsValid (nodes_arrive (refused message) h) v = record { nodes = v.nodes; backups = v.backups }
Step-IsValid policy_call v = record { nodes = v.nodes; backups = v.backups }
Step-IsValid {s} (policy_arrives revision preserve_draft a h) v =
    policy_answer-IsValid revision preserve_draft a s h v
Step-IsValid failovers_call v = record { nodes = v.nodes; backups = v.backups }
Step-IsValid {s} (failovers_arrive revision (answered result)) v =
    kept s _ (ground arith) (ground arith) v
Step-IsValid {s} (failovers_arrive revision (refused message)) v =
    kept s _ (ground arith) (ground arith) v
Step-IsValid failovers_left v = record { nodes = v.nodes; backups = v.backups }
Step-IsValid {s} (choose node_id) v = record {
  nodes = v.nodes;
  backups = filter-NoDup _ s.backup_node_ids v.backups;
}
Step-IsValid {s} (move index offset) v = move_backup-IsValid index offset s v
Step-IsValid {s} save v = kept s _ (ground arith) (ground arith) v
Step-IsValid {s} (saved (answered policy) h) v =
    kept (apply_policy policy false s) _ refl refl (apply_policy-IsValid policy false s h v)
Step-IsValid (saved (refused message) h) v = record { nodes = v.nodes; backups = v.backups }
Step-IsValid {s} (refreshed revision a h) v = save_refreshed-IsValid revision a s h v

pub Reach-IsValid : {s t : TestNodesState} → IsValid s → Reach s t → IsValid t
Reach-IsValid v here = v
Reach-IsValid v (more r st) = Step-IsValid st (Reach-IsValid v r)

-- From a page whose nodes and backups are listed once each, by every order of calls, answers that list
-- them once, and edits: what `savePolicy` sends names a primary, lists no backup twice, and lists an id
-- exactly if it is that of a node eligible for the role other than the primary.
pub save_start-request :
    {s t : TestNodesState} (primary : Text) (backups : List Text) (id : Text)
    → IsValid s
    → Reach s t
    → (save_start t).0 ≡ some (primary, backups)
    → (is_empty primary ≡ false)
      × NoDup backups
      × (contains id backups ≡ any (may_back_up t.nodes primary id) t.nodes)
unfolding save_start
save_start-request {s} {t} primary backups id v r sent =
    let valid = Reach-IsValid v r in
    let named : is_empty t.primary_node_id ≡ false = ground arith in
    let of_state : t.primary_node_id ≡ primary = ground arith in
    let ordered : ordered_backup_ids t ≡ backups = ground arith in
    (
      rw (← of_state) named,
      rw (← ordered)
          (ordered_ids-NoDup t.nodes t.primary_node_id t.backup_node_ids valid.nodes valid.backups),
      rw (← ordered, ← of_state)
          (contains-ordered_ids t.nodes t.primary_node_id t.backup_node_ids id
            ∙ contains-eligible_ids t.nodes t.primary_node_id id),
    )

-- A policy that was asked for before a save was sent, and arrives while no later call was made, changes
-- nothing, whether it was read or refused.
pub policy_answer-save_start :
    (revision : ℕ) (preserve_draft : Bool) (a : Answer Policy) (s : TestNodesState)
    → revision ≤ s.policy_request_revision
    → (save_start s).0 ≢ none
    → policy_answer revision preserve_draft a (save_start s).1 ≡ (false, (save_start s).1)
unfolding policy_answer save_start
policy_answer-save_start revision preserve_draft (answered policy) s old sent = ground arith
policy_answer-save_start revision preserve_draft (refused message) s old sent = ground arith
