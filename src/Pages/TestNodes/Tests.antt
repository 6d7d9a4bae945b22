-- ===== src/Pages/TestNodes/Tests.antt =====
-- The theorems on the page of test nodes at three workers.
use frpc_multi.Base.Members.{NoDup}
use frpc_multi.Base.Exchange.{exchange}
use frpc_multi.Base.Decimal.{decimal}
use frpc_multi.Base.Text.{codes, Text}
use frpc_multi.Base.Text.{Text, codes, ◌===◌}
use frpc_multi.Base.Assoc.{text_eq, contains}
use frpc_multi.Pages.TestNodes.{
  TestNode, TestNodesState, initial_state, worker, save_start, ordered_ids, role_for, position,
  saved_order, required_capabilities, eligible_ids, eligible_nodes, is_eligible_role_node,
  move_backup, ordered_backup_ids, move_to, next_index, up, down, mark_dirty,
}
use frpc_multi.Pages.TestNodes.Laws.{move_all_refines, may_back_up, move_all, move_all_shown}
use frpc_multi.Pages.TestNodes.Steps.{here, more, move, IsValid, save_start-request}
use mathlib.Core.Path.{◌≡◌, refl}
use mathlib.Core.Bool.{true, false}
use mathlib.Core.Option.{none, some}
use mathlib.Core.List.{[], ◌∷◌}
use native.Mathlib.Omega.{arith}
use frpc_multi.Base.Lists.{is_empty, any}

abbrev worker_node : Text → TestNode
worker_node id = record {
  id = id;
  name = id;
  kind = worker;
  version = codes "1";
  capabilities = required_capabilities;
  protocol_features = some (codes "task-generation-v1" ∷ []);
  online = true;
  last_seen = none;
  created_at = [];
  token_masked = [];
  install_command = [];
}

-- `b` is the primary, and `d` is a saved backup that is gone.
abbrev sample : TestNodesState
sample = record initial_state {
  nodes = worker_node (codes "a") ∷ worker_node (codes "b") ∷ worker_node (codes "c") ∷ [];
  primary_node_id = codes "b";
  backup_node_ids = codes "c" ∷ codes "d" ∷ [];
}

sample_order : ordered_backup_ids sample ≡ codes "c" ∷ codes "a" ∷ []
unfolding initial_state ordered_ids saved_order eligible_ids eligible_nodes is_eligible_role_node
    contains ◌===◌
sample_order = refl

sample_moved : ordered_backup_ids (move_backup 1 up sample) ≡ codes "a" ∷ codes "c" ∷ []
unfolding initial_state ordered_ids saved_order eligible_ids eligible_nodes is_eligible_role_node
    contains move_backup move_to next_index exchange mark_dirty ◌===◌
sample_moved = refl

sample_roles : role_for (codes "c") sample ≡ codes "备用 1"
unfolding initial_state role_for position decimal ◌===◌
sample_roles = refl

move_all_refines_example :
    ordered_backup_ids (move_all ((1, up) ∷ (0, down) ∷ []) sample)
    ≡ move_all_shown ((1, up) ∷ (0, down) ∷ []) (ordered_backup_ids sample)
unfolding initial_state ordered_ids saved_order eligible_ids eligible_nodes is_eligible_role_node
    contains ◌===◌
move_all_refines_example =
    move_all_refines ((1, up) ∷ (0, down) ∷ []) sample (omega arith, (omega arith, tt))

sample-IsValid : IsValid sample
unfolding initial_state contains ◌===◌
sample-IsValid = record { nodes = (refl, (refl, (refl, tt))); backups = (refl, (refl, tt)) }

save_start-request_example :
    (is_empty (codes "b") ≡ false)
    × NoDup (codes "a" ∷ codes "c" ∷ [])
    × (contains (codes "a") (codes "a" ∷ codes "c" ∷ [])
        ≡ any
            (may_back_up (move_backup 1 up sample).nodes (codes "b") (codes "a"))
            (move_backup 1 up sample).nodes)
unfolding initial_state ordered_ids saved_order eligible_ids eligible_nodes is_eligible_role_node
    contains move_backup move_to next_index exchange mark_dirty save_start ◌===◌
save_start-request_example =
    save_start-request (codes "b") (codes "a" ∷ codes "c" ∷ []) (codes "a") sample-IsValid
      (more here (move 1 up)) refl
