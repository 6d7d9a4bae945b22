-- ===== src/Toml/Value/Ints.antt =====
-- `parseTomlInt` reads back a number written in decimal.
use Prim.Native.Nat.{ℕ, suc, ◌^◌, ◌<◌}
use mathlib.Core.Path.{◌≡◌, refl}
use mathlib.Core.Option.{none, some}
use mathlib.Core.List.{[], ◌∷◌}
use native.Mathlib.Omega.{arith}
use frpc_multi.Base.Lists.{All}
use frpc_multi.Base.Text.{Text}
use frpc_multi.Base.Decimal.{Numbers, decimal, IsDigit, decimal-IsDigit}
use frpc_multi.Base.Digits.{trim-decimal}
use frpc_multi.Toml.Value.{outside, find_comment, find_comment_start, strip_comment, parse_toml_int}
use frpc_multi.Toml.Value.Strings.{strip_comment_id}

find_comment-IsDigit : (s : Text) (i : ℕ) → All IsDigit s → find_comment outside i s ≡ none
unfolding find_comment
find_comment-IsDigit [] i h = refl
find_comment-IsDigit (c ∷ s) i (k, h) = ground (arith, find_comment-IsDigit s (suc i) h)

pub strip_comment-decimal : (n : ℕ) → strip_comment (decimal n) ≡ decimal n
unfolding find_comment_start
strip_comment-decimal n =
    strip_comment_id (decimal n) (trim-decimal n)
      (find_comment-IsDigit (decimal n) 0 (decimal-IsDigit n))

module _ (js : Numbers) where
  open js use {of_ℕ, parse-decimal, of_ℕ-is_integer}

  pub parse_toml_int-decimal : (n : ℕ) → n < 2 ^ 53 → parse_toml_int js (decimal n) ≡ some (of_ℕ n)
  unfolding parse_toml_int
  parse_toml_int-decimal n h = rw (strip_comment-decimal n, parse-decimal n h, of_ℕ-is_integer n)
