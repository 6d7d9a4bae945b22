-- ===== src/Toml/Value/Arrays.antt =====
-- `parseTomlStringArray` reads back an array of strings without quotation marks, and doubles the
-- backslash of a quotation mark.
use frpc_multi.Base.Text.Trim.{trim-append}
use frpc_multi.Base.Json.{json_string}
use Prim.Native.Nat.{ℕ, suc}
use mathlib.Core.Path.{◌≡◌, refl, ◌∙◌, ap, ap₂}
use mathlib.Core.Logic.{◌≢◌}
use mathlib.Core.Bool.{false, not, ◌||◌}
use mathlib.Core.Option.{none}
use mathlib.Core.List.{List, [], ◌∷◌, ◌++◌, map, append_assoc, append-nil}
use native.Mathlib.Omega.{arith}
use frpc_multi.Base.Lists.{All, is_empty}
use frpc_multi.Base.Text.{
  Text, codes, replace_all, join, starts_with, trim_end, is_space, drop_last, inner, ends_with,
}
use frpc_multi.Toml.Value.{
  backslash, quotation, toml_string, outside, inside, find_comment, safe_json_parse, array_items,
  parse_toml_string_array, find_comment_start, json_string, strip_comment, not,
}
use frpc_multi.Toml.Value.Strings.{
  escaped, find_comment-escaped, IsPlain, strip_comment_id, json_chars-escaped, ends_with-snoc,
}

-- No quotation mark.
abbrev pub IsUnquoted : Text → Type 0
IsUnquoted s = All (λ c. c ≢ quotation) s

abbrev pub comma : Text
comma = codes ", "

-- The text between the brackets.
abbrev pub items_text : List Text → Text
items_text ds = join comma (map toml_string ds)

-- `tomlString` of an array, as `serializeProxies` writes it.
abbrev pub array_text : List Text → Text
array_text ds = b'[' ∷ (items_text ds ++ b']' ∷ [])

find_comment-items :
    (ds : List Text) (i : ℕ) → find_comment outside i (items_text ds ++ b']' ∷ []) ≡ none
unfolding find_comment join toml_string
find_comment-items [] i = refl
find_comment-items (d ∷ []) i =
    rw append_assoc (find_comment-escaped d (b']' ∷ []) (suc i) (λ j. refl))
find_comment-items (d ∷ e ∷ ds) i = simp append_assoc (
    find_comment-escaped d (comma ++ (items_text (e ∷ ds) ++ b']' ∷ [])) (suc i)
      (λ j. find_comment-items (e ∷ ds) (suc (suc j))))

-- A backslash inside quotation marks is never the last character.
append_ne_nil : (s rest : Text) → is_empty (escaped s ++ quotation ∷ rest) ≡ false
append_ne_nil s rest = ends (escaped s)
  where
    ends : (t : Text) → is_empty (t ++ quotation ∷ rest) ≡ false
    ends [] = refl
    ends (c ∷ t) = refl

array_items-escaped :
    (s buf rest : Text)
    → array_items (inside quotation) buf (escaped s ++ quotation ∷ rest)
      ≡ safe_json_parse (buf ++ escaped s) ∷ array_items outside [] rest
unfolding array_items replace_all
array_items-escaped [] buf rest = rw append-nil
array_items-escaped (c ∷ s) buf rest = ground (
  arith,
  append_ne_nil s rest,
  array_items-escaped s (buf ++ c ∷ []) rest,
  array_items-escaped s ((buf ++ backslash ∷ []) ++ c ∷ []) rest,
  append_assoc buf (c ∷ []) (escaped s),
  append_assoc (buf ++ backslash ∷ []) (c ∷ []) (escaped s),
  append_assoc buf (backslash ∷ []) (c ∷ escaped s),
)

-- Without quotation marks the second replacement has nothing to do.
replace_quotation :
    (s : Text)
    → IsUnquoted s
    → replace_all quotation (backslash ∷ quotation ∷ []) (escaped s) ≡ escaped s
unfolding replace_all
replace_quotation [] h = refl
replace_quotation (c ∷ s) (k, h) = ground (arith, replace_quotation s h)

safe_json_parse-escaped : (s : Text) → IsPlain s → IsUnquoted s → safe_json_parse (escaped s) ≡ s
unfolding safe_json_parse json_string
safe_json_parse-escaped s p u = rw (replace_quotation s u, json_chars-escaped s p)

abbrev pub IsItem : Text → Type 0
IsItem s = IsPlain s × IsUnquoted s

array_items-items : (ds : List Text) → All IsItem ds → array_items outside [] (items_text ds) ≡ ds
unfolding join toml_string array_items
array_items-items [] h = refl
array_items-items (d ∷ []) ((p, u), _) =
    array_items-escaped d [] [] ∙ ap (λ x. x ∷ []) (safe_json_parse-escaped d p u)
array_items-items (d ∷ e ∷ ds) ((p, u), h) = rw append_assoc (
    array_items-escaped d [] (comma ++ items_text (e ∷ ds))
    ∙ ap₂ (λ x y. x ∷ y) (safe_json_parse-escaped d p u) (array_items-items (e ∷ ds) h))

drop_last-snoc : (s : Text) (c : ℕ) → drop_last (s ++ c ∷ []) ≡ s
unfolding drop_last
drop_last-snoc [] c = refl
drop_last-snoc (d ∷ []) c = refl
drop_last-snoc (d ∷ e ∷ s) c = ap (◌∷◌ d) (drop_last-snoc (e ∷ s) c)

bracket_trimmed : trim_end (b']' ∷ []) ≡ b']' ∷ []
unfolding trim_end is_space
bracket_trimmed = refl

bracket-not-space : is_space b'[' ≡ false
unfolding is_space
bracket-not-space = refl

find_comment_start-array_text : (ds : List Text) → find_comment_start (array_text ds) ≡ none
unfolding find_comment_start find_comment
find_comment_start-array_text ds = find_comment-items ds 1

pub strip_comment-array_text : (ds : List Text) → strip_comment (array_text ds) ≡ array_text ds
strip_comment-array_text ds =
    strip_comment_id (array_text ds)
      (trim-append b'[' (items_text ds) (b']' ∷ []) bracket-not-space bracket_trimmed (cc))
      (find_comment_start-array_text ds)

array_text_bracketed :
    (ds : List Text)
    → (not (starts_with (b'[' ∷ []) (array_text ds)) || not (ends_with b']' (array_text ds)))
      ≡ false
unfolding starts_with
array_text_bracketed ds = rw (ends_with-snoc b']' (b'[' ∷ items_text ds))

-- An array of strings without quotation marks and control characters is read back.
pub parse_toml_string_array-array_text :
    (ds : List Text) → All IsItem ds → parse_toml_string_array (array_text ds) ≡ ds
unfolding parse_toml_string_array inner
parse_toml_string_array-array_text ds h =
    rw (strip_comment-array_text ds, array_text_bracketed ds, drop_last-snoc (items_text ds) b']')
      (array_items-items ds h)
