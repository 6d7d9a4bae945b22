-- ===== src/Samples.antt =====
-- Concrete inputs for the tests, and an instance of the number interface: the natural numbers and
-- NaN, read from decimal digits as `Number` reads them.
use Prim.Native.Nat.{ℕ, ◌<◌, ◌^◌}
use mathlib.Core.Path.{◌≡◌, refl, ◌∙◌}
use mathlib.Core.Logic.{◌≢◌}
use mathlib.Core.Bool.{Bool, true, false}
use mathlib.Core.Option.{Option, none, some}
use mathlib.Core.List.{[], ◌∷◌}
use frpc_multi.Base.Tests.{ltb, if◌then◌else◌}
use frpc_multi.Base.Lists.{is_empty}
use frpc_multi.Base.Text.{Text, codes, trim, trim_start, trim_end, is_space}
use frpc_multi.Base.Decimal.{Numbers, decimal, decimal-ne-nil}
use frpc_multi.Base.Digits.{read_digits, read_digits-decimal, trim-decimal}

unfoldable pub number_of : Text → Option ℕ
unfolding trim trim_start trim_end is_space read_digits
number_of s = let t = trim s in if is_empty t then some 0 else read_digits 0 t

unfoldable pub number_text : Option ℕ → Text
unfolding decimal
number_text none = codes "NaN"
number_text (some n) = decimal n

unfoldable pub number_lt : Option ℕ → Option ℕ → Bool
number_lt (some a) (some b) = ltb a b
number_lt _ _ = false

abbrev pub is_number : Option ℕ → Bool
is_number none = false
is_number (some n) = true

read_digits_if :
    (t : Text) → t ≢ [] → (if is_empty t then some 0 else read_digits 0 t) ≡ read_digits 0 t
read_digits_if [] h = absurd (h refl)
read_digits_if (c ∷ t) h = refl

pub number_of-decimal : (n : ℕ) → n < 2 ^ 53 → number_of (decimal n) ≡ some n
unfolding number_of
number_of-decimal n h =
    rw (trim-decimal n) (read_digits_if (decimal n) (decimal-ne-nil n) ∙ read_digits-decimal n)

pub number_text-some : (n : ℕ) → n < 2 ^ 53 → number_text (some n) ≡ decimal n
unfolding number_text
number_text-some n h = refl

pub number_lt-some : (a b : ℕ) → a < 2 ^ 53 → b < 2 ^ 53 → number_lt (some a) (some b) ≡ ltb a b
unfolding number_lt
number_lt-some a b h k = refl

abbrev pub numbers : Numbers
numbers = record {
  Num = Option ℕ;
  parse = number_of;
  show = number_text;
  is_finite = is_number;
  is_integer = is_number;
  lt = number_lt;
  of_ℕ = some;
  parse-decimal = number_of-decimal;
  show-of_ℕ = number_text-some;
  of_ℕ-is_finite = λ n. refl;
  of_ℕ-is_integer = λ n. refl;
  lt-of_ℕ = number_lt-some;
}
