-- ===== src/Toml/Value/Strings.antt =====
-- `parseTomlString` reads back what `tomlString` writes.
use frpc_multi.Base.Text.Trim.{trim-append}
use mathlib.Core.Bool.{◌&&◌, false, true}
use Prim.Native.Nat.{ℕ, suc, ◌≤◌}
use mathlib.Core.Path.{◌≡◌, refl}
use mathlib.Core.Option.{none, some}
use mathlib.Core.List.{[], ◌∷◌, ◌++◌}
use native.Mathlib.Omega.{arith}
use frpc_multi.Base.Lists.{All}
use frpc_multi.Base.Text.{Text, replace_all, is_space, ends_with, trim_end, trim, starts_with}
use frpc_multi.Base.Json.{json_chars, plain, escape_char, json_string}
use frpc_multi.Toml.Value.{
  backslash, quotation, outside, inside, find_comment, toml_string, parse_toml_string,
  strip_comment, find_comment_start,
}

-- No control character: what JSON allows unescaped between quotation marks.
abbrev pub IsPlain : Text → Type 0
IsPlain s = All (λ c. 32 ≤ c) s

-- The two replacements of `tomlString`.
abbrev pub escaped : Text → Text
escaped s =
    replace_all quotation (backslash ∷ quotation ∷ [])
      (replace_all backslash (backslash ∷ backslash ∷ []) s)

pub json_chars-escaped :
    (s : Text) → IsPlain s → json_chars plain (escaped s ++ quotation ∷ []) ≡ some s
unfolding json_chars escape_char replace_all
json_chars-escaped [] h = refl
json_chars-escaped (c ∷ s) (k, h) = ground (arith, json_chars-escaped s h)

pub find_comment-escaped :
    (s rest : Text) (i : ℕ)
    → ((j : ℕ) → find_comment outside j rest ≡ none)
    → find_comment (inside quotation) i (escaped s ++ quotation ∷ rest) ≡ none
unfolding find_comment replace_all
find_comment-escaped [] rest i h = h (suc i)
find_comment-escaped (c ∷ s) rest i h =
    ground
      (arith, find_comment-escaped s rest (suc i) h, find_comment-escaped s rest (suc (suc i)) h)

find_comment_nil : (j : ℕ) → find_comment outside j [] ≡ none
unfolding find_comment
find_comment_nil j = refl

-- Nothing in a written string starts a comment.
pub find_comment_start-toml_string : (s : Text) → find_comment_start (toml_string s) ≡ none
unfolding find_comment_start toml_string find_comment
find_comment_start-toml_string s = find_comment-escaped s [] 1 find_comment_nil

pub trim_end-quotation : trim_end (quotation ∷ []) ≡ quotation ∷ []
unfolding trim_end is_space
trim_end-quotation = refl

pub quotation-not-space : is_space quotation ≡ false
unfolding is_space
quotation-not-space = refl

pub trim-toml_string : (s : Text) → trim (toml_string s) ≡ toml_string s
unfolding toml_string
trim-toml_string s =
    trim-append quotation (escaped s) (quotation ∷ []) quotation-not-space trim_end-quotation (cc)

-- What stands on both ends, and has no comment, is left as it is.
pub strip_comment_id : (s : Text) → trim s ≡ s → find_comment_start s ≡ none → strip_comment s ≡ s
unfolding strip_comment
strip_comment_id s h k = rw (h, k, strip_comment) h

pub ends_with-snoc : (c : ℕ) (s : Text) → ends_with c (s ++ c ∷ []) ≡ true
unfolding ends_with
ends_with-snoc c [] = ground arith
ends_with-snoc c (d ∷ []) = ground arith
ends_with-snoc c (d ∷ e ∷ s) = ends_with-snoc c (e ∷ s)

toml_string_quoted :
    (s : Text)
    → (starts_with (quotation ∷ []) (toml_string s) && ends_with quotation (toml_string s)) ≡ true
unfolding toml_string starts_with
toml_string_quoted s = ends_with-snoc quotation (quotation ∷ escaped s)

json_string-toml_string : (s : Text) → IsPlain s → json_string (toml_string s) ≡ some s
unfolding json_string toml_string
json_string-toml_string s h = json_chars-escaped s h

-- A text without control characters is read back from its quoted form, whatever quotation marks,
-- backslashes and number signs it holds.
pub parse_toml_string-toml_string : (s : Text) → IsPlain s → parse_toml_string (toml_string s) ≡ s
unfolding parse_toml_string
parse_toml_string-toml_string s h = rw (
  strip_comment_id (toml_string s) (trim-toml_string s) (find_comment_start-toml_string s),
  toml_string_quoted s,
  json_string-toml_string s h,
)
