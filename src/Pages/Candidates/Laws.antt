-- ===== src/Pages/Candidates/Laws.antt =====
-- The selection of candidates, and what is sent to be added.
use frpc_multi.Base.Assoc.{nat_eq, contains}
use frpc_multi.Base.Members.{NoDup, filter-NoDup, append-NoDup, contains-filter}
use frpc_multi.Pages.Candidates.{Members, add_start, known, toggle_server, max_candidates}
use Prim.Native.Nat.{ℕ, ◌≤◌}
use mathlib.Core.Path.{◌≡◌, refl, ap}
use mathlib.Core.Logic.{inl, inr}
use mathlib.Core.Bool.{true, false, not}
use mathlib.Core.Option.{some}
use mathlib.Core.List.{List, [], ◌∷◌}
use native.Mathlib.Omega.{arith}
use frpc_multi.Base.Tests.{◌==◌, Bool-cases}
use frpc_multi.Base.Lists.{length, filter, length-append, length-filter-le}

-- The clicks on the boxes of the library, from an empty selection.
unfoldable pub toggle_all : List ℕ → List ℕ → List ℕ
toggle_all [] ids = ids
toggle_all (id ∷ clicks) ids = toggle_all clicks (toggle_server id ids)

toggle_server-NoDup : (id : ℕ) (ids : List ℕ) → NoDup ids → NoDup (toggle_server id ids)
unfolding toggle_server contains
toggle_server-NoDup id ids h = elim (Bool-cases (contains id ids)) [
  | inl e ↦ rw e (filter-NoDup _ ids h)
  | inr e ↦
      let apart : (k : ℕ) → contains k (id ∷ []) ≡ true → contains k ids ≡ false =
        (λ k m. let same : k ≡ id = ground arith in rw same e) in
      ground (arith, h, append-NoDup ids (id ∷ []) h (refl, tt) apart)
]

toggle_server_bound :
    (id : ℕ) (ids : List ℕ)
    → length ids ≤ max_candidates
    → length (toggle_server id ids) ≤ max_candidates
unfolding toggle_server
toggle_server_bound id ids h =
    ground (arith, length-filter-le (λ other. not (other == id)) ids, length-append ids (id ∷ []))

toggle_all-IsBounded :
    (clicks ids : List ℕ)
    → NoDup ids
    → length ids ≤ max_candidates
    → NoDup (toggle_all clicks ids) × (length (toggle_all clicks ids) ≤ max_candidates)
unfolding toggle_all
toggle_all-IsBounded [] ids h k = (h, k)
toggle_all-IsBounded (id ∷ clicks) ids h k =
    toggle_all-IsBounded clicks (toggle_server id ids) (toggle_server-NoDup id ids h)
      (toggle_server_bound id ids k)

-- Whatever boxes were clicked, in whatever order, the ids that are sent to be added are 5000 at most,
-- are listed once each, and are none of the members that are shown.
pub add_start-toggle_all :
    (clicks ids : List ℕ) (id : ℕ) (s : Members)
    → s.selected_ids ≡ toggle_all clicks []
    → (add_start s).0 ≡ some ids
    → contains id ids ≡ true
    → NoDup ids × (length ids ≤ max_candidates) × (known s.members id ≡ false)
unfolding add_start
add_start-toggle_all clicks ids id s selected sent m =
    let chosen = toggle_all clicks [] in
    let (once, few) = toggle_all-IsBounded clicks [] tt (omega arith) in
    let new = (λ (k : ℕ). not (known s.members k)) in
    let same : filter new s.selected_ids ≡ ids = ground arith in
    let of_clicks : filter new chosen ≡ ids = rw (← selected) same in
    (
      rw (← of_clicks) (filter-NoDup new chosen once),
      rw (← of_clicks) (omega (arith, length-filter-le new chosen, few)),
      ground (arith, contains-filter new id chosen, ap (λ (xs : List ℕ). contains id xs) of_clicks),
    )
