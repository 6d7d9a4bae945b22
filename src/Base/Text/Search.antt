-- ===== src/Base/Text/Search.antt =====
-- The first occurrence of a character, and the slices around it.
use Prim.Native.Nat.{ℕ, suc}
use mathlib.Core.Path.{◌≡◌, refl, ap}
use mathlib.Core.Logic.{◌≢◌}
use mathlib.Core.Option.{some}
use mathlib.Core.List.{[], ◌∷◌, ◌++◌}
use native.Mathlib.Omega.{arith}
use frpc_multi.Base.Lists.{length, take, drop, All}
use frpc_multi.Base.Text.{Text, index_of, some, arith}

pub index_of-append :
    (c : ℕ) (s rest : Text) → All (λ d. d ≢ c) s → index_of c (s ++ c ∷ rest) ≡ some (length s)
unfolding index_of
index_of-append c [] rest h = ground arith
index_of-append c (d ∷ s) rest (k, h) = ground (arith, index_of-append c s rest h)

pub take-length-append : (s rest : Text) → take (length s) (s ++ rest) ≡ s
take-length-append [] rest = refl
take-length-append (c ∷ s) rest = ap (◌∷◌ c) (take-length-append s rest)

pub drop-length-append :
    (s : Text) (c : ℕ) (rest : Text) → drop (suc (length s)) (s ++ c ∷ rest) ≡ rest
drop-length-append [] c rest = refl
drop-length-append (d ∷ s) c rest = drop-length-append s c rest
