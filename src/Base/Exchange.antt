-- ===== src/Base/Exchange.antt =====
-- The exchange of two neighbours of a list, as assignments write it and by recursion.
use Prim.Native.Nat.{ℕ, zero, suc, ◌+◌, ◌≤◌}
use mathlib.Core.Path.{◌≡◌, refl, ap, ◌∙◌}
use mathlib.Core.Option.{none, some}
use mathlib.Core.List.{List, [], ◌∷◌, Perm, perm_middle}
use mathlib.Core.List.Perm
use native.Mathlib.Omega.{arith}
use frpc_multi.Base.Lists.{get_elem?, set, length}
use frpc_multi.Base.Assoc.{Eq, contains, beq_comm}
use frpc_multi.Base.Members.{NoDup}

module _ {ℓ} {A : Type ℓ} where
  -- `[xs[i], xs[j]] = [xs[j], xs[i]]` at positions of the list; elsewhere it does nothing
  unfoldable pub exchange : ℕ → ℕ → List A → List A
  exchange i j xs = elim (get_elem? xs i) [
    | none ↦ xs
    | some a ↦ elim (get_elem? xs j) [ none ↦ xs | some b ↦ set (set xs i b) j a ]
  ]

  -- The elements at `i` and `i + 1` change places, if both are there.
  unfoldable pub swap_at : ℕ → List A → List A
  swap_at i [] = []
  swap_at zero (x ∷ []) = x ∷ []
  swap_at zero (x ∷ y ∷ xs) = y ∷ x ∷ xs
  swap_at (suc i) (x ∷ xs) = x ∷ swap_at i xs

  pub exchange-cons :
      (i j : ℕ) (x : A) (xs : List A) → exchange (suc i) (suc j) (x ∷ xs) ≡ x ∷ exchange i j xs
  unfolding exchange
  exchange-cons i j x xs = ground arith

  pub exchange_down : (i : ℕ) (xs : List A) → exchange i (suc i) xs ≡ swap_at i xs
  unfolding swap_at exchange
  exchange_down i [] = refl
  exchange_down zero (x ∷ []) = refl
  exchange_down zero (x ∷ y ∷ xs) = refl
  exchange_down (suc i) (x ∷ xs) =
      exchange-cons i (suc i) x xs ∙ ap (λ l. x ∷ l) (exchange_down i xs)

  pub exchange_up : (i : ℕ) (xs : List A) → exchange (suc i) i xs ≡ swap_at i xs
  unfolding swap_at exchange
  exchange_up i [] = refl
  exchange_up zero (x ∷ []) = refl
  exchange_up zero (x ∷ y ∷ xs) = refl
  exchange_up (suc i) (x ∷ xs) = exchange-cons (suc i) i x xs ∙ ap (λ l. x ∷ l) (exchange_up i xs)

  pub swap_at_twice : (i : ℕ) (xs : List A) → swap_at i (swap_at i xs) ≡ xs
  unfolding swap_at
  swap_at_twice i [] = refl
  swap_at_twice zero (x ∷ []) = refl
  swap_at_twice zero (x ∷ y ∷ xs) = refl
  swap_at_twice (suc i) (x ∷ xs) = ap (λ l. x ∷ l) (swap_at_twice i xs)

  pub swap_at_end : (i : ℕ) (xs : List A) → length xs ≤ i + 1 → swap_at i xs ≡ xs
  unfolding swap_at
  swap_at_end i [] h = refl
  swap_at_end zero (x ∷ []) h = refl
  swap_at_end zero (x ∷ y ∷ xs) h = absurd (omega arith)
  swap_at_end (suc i) (x ∷ xs) h = ap (λ l. x ∷ l) (swap_at_end i xs (omega arith))

  pub length-swap_at : (i : ℕ) (xs : List A) → length (swap_at i xs) ≡ length xs
  unfolding swap_at
  length-swap_at i [] = refl
  length-swap_at zero (x ∷ []) = refl
  length-swap_at zero (x ∷ y ∷ xs) = refl
  length-swap_at (suc i) (x ∷ xs) = ap suc (length-swap_at i xs)

  pub swap_at-perm : (i : ℕ) (xs : List A) → Perm (swap_at i xs) xs
  unfolding swap_at
  swap_at-perm i [] = Perm.refl []
  swap_at-perm zero (x ∷ []) = Perm.refl (x ∷ [])
  swap_at-perm zero (x ∷ y ∷ xs) = perm_middle (y ∷ []) xs
  swap_at-perm (suc i) (x ∷ xs) = Perm.cons x (swap_at-perm i xs)

module _ {ℓ} {K : Type ℓ} ⦃e : Eq K⦄ where
  pub contains-swap_at : (k : K) (i : ℕ) (xs : List K) → contains k (swap_at i xs) ≡ contains k xs
  unfolding swap_at contains
  contains-swap_at k i [] = refl
  contains-swap_at k zero (x ∷ []) = refl
  contains-swap_at k zero (x ∷ y ∷ xs) = ground arith
  contains-swap_at k (suc i) (x ∷ xs) = ground (arith, contains-swap_at k i xs)

  pub swap_at-NoDup : (i : ℕ) (xs : List K) → NoDup xs → NoDup (swap_at i xs)
  unfolding swap_at contains
  swap_at-NoDup i [] h = tt
  swap_at-NoDup zero (x ∷ []) h = h
  swap_at-NoDup zero (x ∷ y ∷ xs) (out, h) = ground (arith, beq_comm x y)
  swap_at-NoDup (suc i) (x ∷ xs) (out, h) = (rw (contains-swap_at x i xs) out, swap_at-NoDup i xs h)
