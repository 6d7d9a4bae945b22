-- ===== src/Format/Laws.antt =====
-- The length of a node's label.
use Prim.Native.Nat.{ℕ, zero, suc, ◌+◌, ◌≤◌}
use mathlib.Core.Path.{◌≡◌}
use mathlib.Core.Option.{Option}
use mathlib.Core.List.{List, [], ◌∷◌, ◌++◌}
use native.Mathlib.Omega.{arith}
use frpc_multi.Base.Tests.{leb, if◌then◌else◌, or_else}
use frpc_multi.Base.Lists.{length, take, is_empty, length-append}
use frpc_multi.Base.Text.{Text, codes, trim}
use frpc_multi.Format.{short_node_uuid}

length-take : {A : Type 0} (n : ℕ) (xs : List A) → length (take n xs) ≤ n
length-take zero xs = ground arith
length-take (suc n) [] = ground arith
length-take (suc n) (x ∷ xs) = ground (arith, length-take n xs)

-- A node's label is at most three characters longer than the given size, and, unless there is no
-- identity to show, a text no longer than the size is shown as it is, blanks at its ends aside.
pub length-short_node_uuid :
    (value : Option Text) (size : ℕ)
    → let normalized = trim (or_else value []) in
      (length (short_node_uuid value size) ≤ size + 3)
      × (short_node_uuid value size ≡ (
          if is_empty normalized
          then codes "未注册"
          else if leb (length normalized) size
          then normalized
          else take size normalized ++ codes "..."))
unfolding short_node_uuid
length-short_node_uuid value size =
    let normalized = trim (or_else value []) in
    (
      ground
          (arith, length-append (take size normalized) (codes "..."), length-take size normalized),
      ground arith,
    )
