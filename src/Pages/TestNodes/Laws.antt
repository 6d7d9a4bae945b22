-- ===== src/Pages/TestNodes/Laws.antt =====
-- The order of primary and backups: what it holds, how moves change it, and what is saved.
use frpc_multi.Base.Assoc.{text_eq, contains}
use frpc_multi.Base.Members.{
  NoDup, contains-append, contains-filter, append-NoDup, filter-NoDup, map-filter-NoDup,
  filter-true, filter-false,
}
use frpc_multi.Base.Exchange.{
  exchange, swap_at, contains-swap_at, exchange_up, exchange_down, swap_at_end, swap_at-perm,
  length-swap_at,
}
use frpc_multi.Base.Text.{Text, ◌===◌, ===_iff}
use frpc_multi.Pages.TestNodes.{
  TestNode, TestNodesState, Offset, up, down, ordered_backup_ids, saved_order, eligible_ids,
  eligible_nodes, move_backup, mark_dirty, next_index, move_to, is_eligible_role_node, ordered_ids,
}
use mathlib.Core.List.{Perm}
use mathlib.Core.List.Perm
use native.Mathlib.Decide.{dec_lt}
use Prim.Native.Nat.{ℕ, zero, suc, ◌+◌, ◌≤◌, ◌<◌}
use mathlib.Core.Path.{◌≡◌, refl, sym, ap, ◌∙◌, subst}
use mathlib.Core.Bool.{Bool, true, false, not, ◌&&◌}
use mathlib.Core.Option.{Option, none, some}
use mathlib.Core.List.{List, [], ◌∷◌, map, append-nil}
use native.Mathlib.Omega.{arith}
use frpc_multi.Base.Lists.{length, any, filter}

module _ (nodes : List TestNode) (primary : Text) where
  abbrev pub may_back_up : Text → TestNode → Bool
  may_back_up id node = is_eligible_role_node node && node.id === id && not (id === primary)

  pub contains-eligible_ids :
      (id : Text) → contains id (eligible_ids nodes primary) ≡ any (may_back_up id) nodes
  unfolding eligible_ids eligible_nodes contains
  contains-eligible_ids id = go nodes
    where
      go :
          (rest : List TestNode)
          → contains id (
              map
                (λ (node : TestNode). node.id)
                (filter
                  (λ (node : TestNode). not (node.id === primary))
                  (filter is_eligible_role_node rest)))
            ≡ any (may_back_up id) rest
      go [] = refl
      go (node ∷ rest) = ground (
        arith,
        go rest,
        ===_iff node.id id,
        λ (same : node.id ≡ id). ap (λ k. k === primary) same,
      )

  eligible_not_primary :
      (id : Text) → contains id (eligible_ids nodes primary) ≡ true → (id === primary) ≡ false
  eligible_not_primary id m = go nodes (rw (← contains-eligible_ids id) m)
    where
      go : (rest : List TestNode) → any (may_back_up id) rest ≡ true → (id === primary) ≡ false
      go [] h = absurd (ground arith)
      go (node ∷ rest) h = ground (arith, go rest)

  eligible_ids-NoDup :
      NoDup (map (λ (node : TestNode). node.id) nodes) → NoDup (eligible_ids nodes primary)
  unfolding eligible_ids eligible_nodes
  eligible_ids-NoDup h =
      map-filter-NoDup (λ (node : TestNode). node.id)
        (λ (node : TestNode). not (node.id === primary)) (filter is_eligible_role_node nodes)
        (map-filter-NoDup (λ (node : TestNode). node.id) is_eligible_role_node nodes h)

  module _ (backups : List Text) where
    contains-saved_order :
        (id : Text)
        → contains id (saved_order nodes primary backups) ≡ (
            contains id backups && not (id === primary) && contains id (eligible_ids nodes primary))
    unfolding saved_order
    contains-saved_order id = ground (
      arith,
      contains-filter (λ k. not (k === primary) && contains k (eligible_ids nodes primary)) id
          backups,
    )

    pub contains-ordered_ids :
        (id : Text)
        → contains id (ordered_ids nodes primary backups) ≡ contains id (eligible_ids nodes primary)
    unfolding ordered_ids
    contains-ordered_ids id = ground (
      arith,
      contains-append id (saved_order nodes primary backups) (
          filter (λ k. not (contains k (saved_order nodes primary backups)))
            (eligible_ids nodes primary)),
      contains-filter (λ k. not (contains k (saved_order nodes primary backups))) id
          (eligible_ids nodes primary),
      contains-saved_order id,
    )

    pub ordered_ids-NoDup :
        NoDup (map (λ (node : TestNode). node.id) nodes)
        → NoDup backups
        → NoDup (ordered_ids nodes primary backups)
    unfolding ordered_ids saved_order
    ordered_ids-NoDup h k =
        append-NoDup (saved_order nodes primary backups) _ (filter-NoDup _ backups k)
          (filter-NoDup _ (eligible_ids nodes primary) (eligible_ids-NoDup h))
          (λ id m. ground (
            arith,
            contains-filter (λ k. not (contains k (saved_order nodes primary backups))) id
                (eligible_ids nodes primary),
          ))

  -- An order that holds only eligible ids, and all of them, is shown as it is.
  ordered_ids_kept :
      (order : List Text)
      → ((id : Text) → contains id order ≡ contains id (eligible_ids nodes primary))
      → ordered_ids nodes primary order ≡ order
  unfolding ordered_ids saved_order
  ordered_ids_kept order same = rw (kept, none_left) (append-nil order)
    where
      kept :
          filter (λ id. not (id === primary) && contains id (eligible_ids nodes primary)) order
          ≡ order
      kept =
          filter-true (λ id. not (id === primary) && contains id (eligible_ids nodes primary)) order
            (λ id m. ground (arith, eligible_not_primary id, same id))

      none_left : filter (λ id. not (contains id order)) (eligible_ids nodes primary) ≡ []
      none_left =
          filter-false (λ id. not (contains id order)) (eligible_ids nodes primary)
            (λ id m. ground (arith, same id))

  ordered_ids-swap_at :
      (i : ℕ) (backups : List Text)
      → ordered_ids nodes primary (swap_at i (ordered_ids nodes primary backups))
        ≡ swap_at i (ordered_ids nodes primary backups)
  ordered_ids-swap_at i backups =
      ordered_ids_kept (swap_at i (ordered_ids nodes primary backups)) (λ id.
        contains-swap_at id i (ordered_ids nodes primary backups) ∙ contains-ordered_ids backups id)

-- The move of a row: up by one place, or down by one.
abbrev pub move_shown : ℕ → Offset → List Text → List Text
move_shown zero up xs = xs
move_shown (suc i) up xs = swap_at i xs
move_shown i down xs = swap_at i xs

next_index_up : (i n : ℕ) → suc i < n → next_index (suc i) up n ≡ some i
unfolding next_index
next_index_up i n h = ground arith

next_index_down : (i n : ℕ) → i + 1 < n → next_index i down n ≡ some (suc i)
unfolding next_index
next_index_down i n h = ground arith

next_index_last : (i n : ℕ) → n ≤ i + 1 → next_index i down n ≡ none
unfolding next_index
next_index_last i n h = ground arith

-- The order that is shown behind the test of `moveBackup`.
abbrev order_to : Option ℕ → ℕ → TestNodesState → List Text
order_to none index s = ordered_backup_ids s
order_to (some next) index s =
    ordered_ids s.nodes s.primary_node_id (exchange index next (ordered_backup_ids s))

moved_to :
    (index : ℕ) (next : Option ℕ) (s : TestNodesState)
    → ordered_backup_ids (move_to next index s) ≡ order_to next index s
unfolding move_to mark_dirty
moved_to index none s = refl
moved_to index (some next) s = refl

-- After a move the list that is shown is the one before with two neighbours exchanged; a move up of the
-- first and one down of the last change nothing.
pub ordered_backup_ids-move_backup :
    (index : ℕ) (offset : Offset) (s : TestNodesState)
    → index < length (ordered_backup_ids s)
    → ordered_backup_ids (move_backup index offset s)
      ≡ move_shown index offset (ordered_backup_ids s)
unfolding move_backup next_index
ordered_backup_ids-move_backup zero up s h = moved_to zero none s
ordered_backup_ids-move_backup (suc i) up s h =
    ap (λ o. ordered_backup_ids (move_to o (suc i) s))
      (next_index_up i (length (ordered_backup_ids s)) h)
    ∙ moved_to (suc i) (some i) s
    ∙ rw (exchange_up i (ordered_backup_ids s))
        (ordered_ids-swap_at s.nodes s.primary_node_id i s.backup_node_ids)
ordered_backup_ids-move_backup i down s h = elim (dec_lt (i + 1) (length (ordered_backup_ids s))) [
  | yes inside ↦
      ap (λ o. ordered_backup_ids (move_to o i s))
        (next_index_down i (length (ordered_backup_ids s)) inside)
      ∙ moved_to i (some (suc i)) s
      ∙ rw (exchange_down i (ordered_backup_ids s))
          (ordered_ids-swap_at s.nodes s.primary_node_id i s.backup_node_ids)
  | no outside ↦
      ap (λ o. ordered_backup_ids (move_to o i s))
        (next_index_last i (length (ordered_backup_ids s)) (omega arith))
      ∙ moved_to i none s
      ∙ sym (swap_at_end i (ordered_backup_ids s) (omega arith))
]

-- The moves that a user makes, one after the other.
unfoldable pub move_all : List (ℕ × Offset) → TestNodesState → TestNodesState
move_all [] s = s
move_all ((index, offset) ∷ moves) s = move_all moves (move_backup index offset s)

-- The same moves on a list of ids alone.
unfoldable pub move_all_shown : List (ℕ × Offset) → List Text → List Text
move_all_shown [] xs = xs
move_all_shown ((index, offset) ∷ moves) xs = move_all_shown moves (move_shown index offset xs)

abbrev pub InRange : ℕ → List (ℕ × Offset) → Type 0
InRange n [] = Unit
InRange n ((index, _) ∷ moves) = (index < n) × InRange n moves

length-move_shown :
    (index : ℕ) (offset : Offset) (xs : List Text) → length (move_shown index offset xs) ≡ length xs
length-move_shown zero up xs = refl
length-move_shown (suc i) up xs = length-swap_at i xs
length-move_shown i down xs = length-swap_at i xs

move_shown-perm :
    (index : ℕ) (offset : Offset) (xs : List Text) → Perm (move_shown index offset xs) xs
move_shown-perm zero up xs = Perm.refl xs
move_shown-perm (suc i) up xs = swap_at-perm i xs
move_shown-perm i down xs = swap_at-perm i xs

pub move_all_shown-perm :
    (moves : List (ℕ × Offset)) (xs : List Text) → Perm (move_all_shown moves xs) xs
unfolding move_all_shown
move_all_shown-perm [] xs = Perm.refl xs
move_all_shown-perm ((index, offset) ∷ moves) xs =
    Perm.trans (move_all_shown-perm moves (move_shown index offset xs))
      (move_shown-perm index offset xs)

-- For every list of moves of rows that are shown, the order that the page shows after them is the order
-- before them under the same exchanges of neighbours on a plain list.
pub move_all_refines :
    (moves : List (ℕ × Offset)) (s : TestNodesState)
    → InRange (length (ordered_backup_ids s)) moves
    → ordered_backup_ids (move_all moves s) ≡ move_all_shown moves (ordered_backup_ids s)
unfolding move_all move_all_shown
move_all_refines [] s h = refl
move_all_refines ((index, offset) ∷ moves) s (inside, h) =
    let moved = ordered_backup_ids-move_backup index offset s inside in
    let same = ap length moved ∙ length-move_shown index offset (ordered_backup_ids s) in
    move_all_refines moves (move_backup index offset s) (subst (λ n. InRange n moves) (sym same) h)
    ∙ ap (λ xs. move_all_shown moves xs) moved
