-- ===== src/Pages/Candidates/Tests.antt =====
-- The theorems on the candidates' dialog at a concrete dialog.
use frpc_multi.Base.Assoc.{nat_eq, contains}
use frpc_multi.Base.Members.{NoDup}
use frpc_multi.Base.Text.{codes}
use frpc_multi.Servers.Query.{all_conn, pass}
use frpc_multi.Pages.Candidates.{
  Members, Candidate, add_start, known, toggle_server, max_candidates,
}
use frpc_multi.Pages.Candidates.Library.{
  Library, LibraryPage, library_start, library_answer, library_handle, step_back, change_conn,
  drop_end,
}
use frpc_multi.Pages.Candidates.Steps.{here, more, call, arrive, Reach-IsValid}
use frpc_multi.Base.Answers.{Answer, answered}
use frpc_multi.Pages.Candidates.Laws.{toggle_all, add_start-toggle_all}
use frpc_multi.Pages.Candidates.Trail.{IsValid, empty_rounds, empty_rounds_end}
use Prim.Native.Nat.{ℕ, ◌≤◌}
use mathlib.Core.Path.{◌≡◌, refl}
use mathlib.Core.Bool.{true, false}
use mathlib.Core.Option.{none, some}
use mathlib.Core.List.{[], ◌∷◌}
use native.Mathlib.Omega.{arith}

abbrev member : Candidate
member = record {
  id = 4;
  ip = codes "1.1.1.1";
  latest_connectivity = none;
  preferred = false;
  current = true;
}

abbrev dialog : Members
dialog = record {
  members = member ∷ [];
  member_total = 1;
  member_page = 1;
  member_loading = false;
  member_error = [];
  member_busy_id = none;
  removal_target = none;
  selected_ids = 5 ∷ 4 ∷ [];
  adding = false;
  switch_target = none;
  switching = false;
  member_request = 1;
  aborted = [];
}

clicked : dialog.selected_ids ≡ toggle_all (5 ∷ 6 ∷ 6 ∷ 4 ∷ []) []
unfolding toggle_all toggle_server contains
clicked = refl

sends : (add_start dialog).0 ≡ some (5 ∷ [])
unfolding add_start
sends = refl

five : contains {K = ℕ} 5 (5 ∷ []) ≡ true
unfolding contains
five = refl

add_start-toggle_all_example :
    NoDup {K = ℕ} (5 ∷ []) × (1 ≤ max_candidates) × (known dialog.members 5 ≡ false)
add_start-toggle_all_example =
    add_start-toggle_all (5 ∷ 6 ∷ 6 ∷ 4 ∷ []) (5 ∷ []) 5 dialog clicked sends five

abbrev library : Library ℕ
library = record {
  query_text = [];
  query = [];
  conn = all_conn;
  library = [];
  library_total = none;
  library_cursor = some (codes "c2");
  library_next_cursor = none;
  cursor_trail = none ∷ some (codes "c1") ∷ some (codes "c2") ∷ [];
  library_loading = false;
  library_error = [];
  library_request = 3;
  aborted = 2 ∷ [];
}

abbrev empty : Answer (LibraryPage ℕ)
empty = answered (record { items = []; next_cursor = none; total = 0 })

library-IsValid : IsValid library
library-IsValid = record {
  trail = (refl, (refl, (refl, tt)));
  shown = refl;
  past = (omega arith, tt);
}

empty_rounds_end_example :
    ((empty_rounds 2 0 library).library_cursor ≡ none)
    × ((empty_rounds 2 0 library).cursor_trail ≡ none ∷ [])
empty_rounds_end_example = empty_rounds_end 0 2 library library-IsValid (omega arith)

-- An empty page arrives, the effect runs again, and the answer of the call for the page before is late.
Reach-IsValid_example :
    IsValid (library_answer (library_start library).0 empty (library_start library).1)
Reach-IsValid_example =
    Reach-IsValid {w = record { state = library; live = none }} library-IsValid tt (
      more (more here (call library))
        (arrive (library_start library).0 empty (library_start library).1))

-- An empty page that arrives between the choice of another state and the cleanup of the effect leaves an
-- empty trail behind.
trail_lost :
    (library_answer
      (library_start library).0
      empty
      (change_conn pass (library_start library).1)).cursor_trail
    ≡ []
unfolding library_answer library_start library_handle step_back change_conn drop_end contains
trail_lost = refl
