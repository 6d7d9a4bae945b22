-- ===== src/Base/Digits.antt =====
-- Decimal digits are no white space, and reading them back gives the number.
use Prim.Native.Nat.{ℕ, zero, suc, ◌+◌, ◌-◌, ◌*◌, ◌/◌, ◌%◌, ◌<◌}
use mathlib.Core.Path.{◌≡◌, sym, ap, ◌∙◌}
use mathlib.Core.Logic.{inl, inr}
use mathlib.Core.Bool.{false, ◌&&◌}
use mathlib.Core.Option.{Option, none, some}
use mathlib.Core.List.{[], ◌∷◌, ◌++◌, append_assoc, append-nil}
use native.Mathlib.Omega.{arith}
use frpc_multi.Base.Tests.{leb, ltb, if◌then◌else◌, Bool-cases}
use frpc_multi.Base.Lists.{All}
use frpc_multi.Base.Text.{Text, is_space, trim}
use frpc_multi.Base.Text.Trim.{HasNoSpace, trim-HasNoSpace}
use frpc_multi.Base.Decimal.{IsDigit, decimal, decimal_from, decimal-IsDigit}

pub is_space-IsDigit : (c : ℕ) → IsDigit c → is_space c ≡ false
unfolding is_space
is_space-IsDigit c h = ground arith

pub HasNoSpace-IsDigit : (s : Text) → All IsDigit s → HasNoSpace s
HasNoSpace-IsDigit [] h = tt
HasNoSpace-IsDigit (c ∷ s) (k, h) = (is_space-IsDigit c k, HasNoSpace-IsDigit s h)

pub decimal-HasNoSpace : (n : ℕ) → HasNoSpace (decimal n)
decimal-HasNoSpace n = HasNoSpace-IsDigit (decimal n) (decimal-IsDigit n)

pub trim-decimal : (n : ℕ) → trim (decimal n) ≡ decimal n
trim-decimal n = trim-HasNoSpace (decimal n) (decimal-HasNoSpace n)

-- A number with these digits, most significant first, and those of `acc` in front.
unfoldable pub read_digits : ℕ → Text → Option ℕ
read_digits acc [] = some acc
read_digits acc (c ∷ s) =
    let longer = read_digits (acc * 10 + (c - 48)) s in
    if leb 48 c && leb c 57 then longer else none

read_digits-decimal_from :
    (f n : ℕ) (rest : Text) → n < f → read_digits 0 (decimal_from f n ++ rest) ≡ read_digits n rest
unfolding decimal_from read_digits
read_digits-decimal_from zero n rest h = absurd (omega arith)
read_digits-decimal_from (suc f) n rest h = elim (Bool-cases (ltb n 10)) [
  | inl small ↦ rw small (ground arith)
  | inr large ↦ rw large (
      rw append_assoc (
        read_digits-decimal_from f (n / 10) ((n % 10 + 48) ∷ rest) (ground arith) ∙ ground (arith)))
]

pub read_digits-decimal : (n : ℕ) → read_digits 0 (decimal n) ≡ some n
unfolding decimal read_digits
read_digits-decimal n =
    ap (read_digits 0) (sym (append-nil (decimal_from (suc n) n)))
    ∙ read_digits-decimal_from (suc n) n [] (omega arith)
