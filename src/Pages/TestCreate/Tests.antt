-- ===== src/Pages/TestCreate/Tests.antt =====
-- The theorems on the page that creates a batch, at a concrete page.
use frpc_multi.Base.Digits.{read_digits}
use frpc_multi.Base.Answers.{answered, refused}
use frpc_multi.Base.Assoc.{text_eq, get, distinct_from, contains}
use frpc_multi.Base.Members.{NoDup}
use frpc_multi.Base.Text.{codes, ◌===◌, is_space, trim, trim_start, trim_end}
use frpc_multi.Bulk.{ServerSelection, ready}
use frpc_multi.Pages.TestNodes.{TestNode, worker, Policy}
use frpc_multi.Pages.TestCreate.{
  CreatePage, group, all_servers, unchosen, route, speed, change_scope, change_mode, follow_address,
  read_mode, same_scope, policy_ready, primary_node, find_node,
}
use frpc_multi.Pages.TestCreate.Targets.{
  await_creation, target_start, target_leave, parsed_manual, port_of, resolve_start, parts_from,
  bracketed, after_some, is_separator, kept_promise, targets_ready, selection_scope,
  invalid_manual_port,
}
use frpc_multi.Pages.TestCreate.Targets.Laws.{
  IsEndpoint, parsed_manual-IsEndpoint, target_start_shared, follow_address-change_scope,
}
use frpc_multi.Pages.TestCreate.Submit.{
  nothing, kept, Pending, sent, of_selection, submit_start, submit_answer,
  selection_idempotency_key, submit_payload, can_submit, same_mode,
}
use frpc_multi.Pages.TestCreate.Submit.Laws.{submit_start_resent, submit_answer_fresh}
use mathlib.Core.Path.{◌≡◌, refl}
use mathlib.Core.Bool.{true, false}
use mathlib.Core.Option.{none, some}
use mathlib.Core.List.{[], ◌∷◌}
use frpc_multi.Base.Lists.{All}

abbrev node : TestNode
node = record {
  id = codes "n";
  name = codes "n";
  kind = worker;
  version = [];
  capabilities = [];
  protocol_features = none;
  online = true;
  last_seen = none;
  created_at = [];
  token_masked = [];
  install_command = [];
}

abbrev policy : Policy
policy = record {
  configured = true;
  primary_node_id = some (codes "n");
  backup_node_ids = [];
  suggested_primary_node_id = none;
}

abbrev frozen : ServerSelection
frozen = record {
  selection_id = codes "sel";
  state = ready;
  count = 3;
  processed = 3;
  created_at = [];
  updated_at = [];
  expires_at = [];
  error = none;
}

-- Everything is ready to submit a frozen selection of a group.
abbrev page : CreatePage
page = record {
  params = (codes "mode", codes "route") ∷ [];
  step = 3;
  scope = group;
  group = codes "g";
  manual = [];
  selected = [];
  nodes = node ∷ [];
  nodes_error = [];
  policy = some policy;
  policy_error = [];
  options_loading = false;
  groups = [];
  targets = [];
  target_count = some 3;
  server_selection = some frozen;
  target_error = [];
  loading = false;
  submitting = false;
  options_request = 1;
  request = 4;
  selection_creation = none;
}

endpoints : parsed_manual (codes "a.b:7000, a.b:7000\nc") ≡ codes "a.b:7000" ∷ codes "c" ∷ []
unfolding parsed_manual parts_from is_separator is_space trim trim_start trim_end distinct_from
    contains ◌===◌
endpoints = refl

wrong_port : port_of (codes "[::1]:70") ≡ some 70
unfolding port_of bracketed after_some read_digits
wrong_port = refl

no_port : port_of (codes "::1") ≡ none
unfolding port_of bracketed after_some read_digits
no_port = refl

page_sends :
    (submit_start true (codes "k") page nothing).0
    ≡ sent (of_selection route (codes "sel") (codes "k"))
unfolding submit_start submit_payload selection_idempotency_key can_submit policy_ready primary_node
    find_node targets_ready selection_scope invalid_manual_port same_scope same_mode read_mode get
    ◌===◌
page_sends = refl

submit_start_resent_example :
    let (_, begun, left) = submit_start true (codes "k") page nothing in
    let (_, back, still) =
      submit_answer (of_selection route (codes "sel") (codes "k")) (refused none) begun left in
    (submit_start false (codes "other") back still).0
    ≡ sent (of_selection route (codes "sel") (codes "k"))
submit_start_resent_example =
    submit_start_resent true false (codes "k") (codes "other") none page nothing
      (of_selection route (codes "sel") (codes "k")) refl page_sends

abbrev pending : Pending
pending = record { selection_id = codes "sel"; mode = route; idempotency_key = codes "k" }

submit_answer_fresh_example :
    let (_, _, left) =
      submit_answer
        (of_selection route (codes "sel") (codes "k"))
        (answered (codes "job"))
        page
        (kept pending) in
    (selection_idempotency_key true (codes "new") (codes "sel") route left).0 ≡ some (codes "new")
submit_answer_fresh_example =
    submit_answer_fresh route (codes "sel") (codes "k") (codes "new") (codes "job") page pending
      refl

parsed_manual-IsEndpoint_example :
    All IsEndpoint (parsed_manual (codes "a, b a")) × NoDup (parsed_manual (codes "a, b a"))
parsed_manual-IsEndpoint_example = parsed_manual-IsEndpoint (codes "a, b a")

page_creates : (target_start 7 page).1 ≡ await_creation 7 (some (some (codes "g")))
unfolding target_start resolve_start kept_promise same_scope get ◌===◌
page_creates = refl

target_start_shared_example :
    (target_start 8 (target_leave (target_start 7 page).2)).1 ≡ await_creation 7 none
target_start_shared_example = target_start_shared 7 8 7 (some (codes "g")) page page_creates

all_chosen : same_scope all_servers unchosen ≡ false
unfolding same_scope ◌===◌
all_chosen = refl

follow_address-change_scope_example :
    ((follow_address (change_scope all_servers page)).scope ≡ all_servers)
    × (read_mode (change_mode speed page).params ≡ speed)
follow_address-change_scope_example = follow_address-change_scope all_servers speed page all_chosen
