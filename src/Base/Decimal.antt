-- ===== src/Base/Decimal.antt =====
-- Decimal digits of a number, and JavaScript's `Number` as an interface. The floating-point
-- numbers of the language are a parameter: the laws are ECMAScript's, for integers below 2^53.
use Prim.Native.Nat.{ℕ, zero, suc, ◌+◌, ◌/◌, ◌%◌, ◌^◌, ◌≤◌, ◌<◌}
use mathlib.Core.Path.{◌≡◌}
use mathlib.Core.Logic.{◌≢◌}
use mathlib.Core.Bool.{Bool, true}
use mathlib.Core.List.{[], ◌∷◌, ◌++◌}
use native.Mathlib.Omega.{arith}
use frpc_multi.Base.Tests.{ltb, if◌then◌else◌}
use frpc_multi.Base.Lists.{All, All-append}
use frpc_multi.Base.Text.{Text}

-- On fuel: a number has at most as many digits as it is large.
unfoldable pub decimal_from : ℕ → ℕ → Text
decimal_from zero n = []
decimal_from (suc f) n =
    let high = decimal_from f (n / 10) in
    if ltb n 10 then (n + 48) ∷ [] else high ++ (n % 10 + 48) ∷ []

unfoldable pub decimal : ℕ → Text
unfolding decimal_from
decimal n = decimal_from (suc n) n

-- A code unit between "0" and "9".
abbrev pub IsDigit : ℕ → Type 0
IsDigit c = (48 ≤ c) × (c ≤ 57)

decimal_from-IsDigit : (f n : ℕ) → All IsDigit (decimal_from f n)
unfolding decimal_from
decimal_from-IsDigit zero n = tt
decimal_from-IsDigit (suc f) n = ground (
  arith,
  All-append IsDigit (decimal_from f (n / 10)) ((n % 10 + 48) ∷ [])
      (decimal_from-IsDigit f (n / 10)) (omega arith),
)

pub decimal-IsDigit : (n : ℕ) → All IsDigit (decimal n)
unfolding decimal
decimal-IsDigit n = decimal_from-IsDigit (suc n) n

snoc_ne_nil : (s : Text) (c : ℕ) → s ++ c ∷ [] ≢ []
snoc_ne_nil [] c = cc
snoc_ne_nil (x ∷ s) c = cc

pub decimal-ne-nil : (n : ℕ) → decimal n ≢ []
unfolding decimal
decimal-ne-nil n = ground (arith, snoc_ne_nil (decimal_from n (n / 10)) (n % 10 + 48))

-- `Number`, `String` of a number, `Number.isFinite`, `Number.isInteger` and `<`.
pub record Numbers : Type 1 where
  pub Num : Type 0
  pub parse : Text → Num
  pub show : Num → Text
  pub is_finite : Num → Bool
  pub is_integer : Num → Bool
  pub lt : Num → Num → Bool
  pub of_ℕ : ℕ → Num
  pub parse-decimal : (n : ℕ) → n < 2 ^ 53 → parse (decimal n) ≡ of_ℕ n
  pub show-of_ℕ : (n : ℕ) → n < 2 ^ 53 → show (of_ℕ n) ≡ decimal n
  pub of_ℕ-is_finite : (n : ℕ) → is_finite (of_ℕ n) ≡ true
  pub of_ℕ-is_integer : (n : ℕ) → is_integer (of_ℕ n) ≡ true
  pub lt-of_ℕ : (a b : ℕ) → a < 2 ^ 53 → b < 2 ^ 53 → lt (of_ℕ a) (of_ℕ b) ≡ ltb a b
