-- ===== src/Toml/Value.antt =====
-- The value syntax of proxyToml.ts: `tomlString`, `findCommentStart`, `parseTomlString`,
-- `parseTomlInt`, `parseTomlStringArray` and `safeJsonParse`.
pub mod Strings
pub mod Ints
pub mod Arrays
use Prim.Native.Nat.{ℕ, suc}
use mathlib.Core.Bool.{not, ◌&&◌, ◌||◌}
use mathlib.Core.Option.{Option, none, some}
use mathlib.Core.List.{List, [], ◌∷◌, ◌++◌}
use frpc_multi.Base.Tests.{◌==◌, if◌then◌else◌, or_else}
use frpc_multi.Base.Lists.{is_empty, take}
use frpc_multi.Base.Text.{Text, trim, starts_with, ends_with, inner, replace_all}
use frpc_multi.Base.Json.{json_string}
use frpc_multi.Base.Decimal.{Numbers}

abbrev pub backslash : ℕ
backslash = b'\\'

abbrev pub quotation : ℕ
quotation = b'"'

abbrev pub apostrophe : ℕ
apostrophe = 39

unfoldable pub toml_string : Text → Text
toml_string value =
    quotation
    ∷ (replace_all quotation (backslash ∷ quotation ∷ [])
          (replace_all backslash (backslash ∷ backslash ∷ []) value)
        ++ quotation ∷ [])

-- The variables `inString` and `quote` of the two loops; `skipped` stands behind a backslash, whose
-- next character the loops pass over by `i += 1`.
pub data Scan : Type 0 where
  outside : Scan
  inside skipped : (quote : ℕ) → Scan

-- The loop of `findCommentStart` from index `i`; `none` is -1.
unfoldable pub find_comment : Scan → ℕ → Text → Option ℕ
find_comment _ i [] = none
find_comment outside i (ch ∷ s) =
    let quoted = find_comment (inside ch) (suc i) s in
    let plain = find_comment outside (suc i) s in
    if ch == quotation || ch == apostrophe then quoted else if ch == b'#' then some i else plain
find_comment (inside quote) i (ch ∷ s) =
    let skip = find_comment (skipped quote) (suc i) s in
    let closed = find_comment outside (suc i) s in
    let longer = find_comment (inside quote) (suc i) s in
    if ch == backslash then skip else if ch == quote then closed else longer
find_comment (skipped quote) i (ch ∷ s) = find_comment (inside quote) (suc i) s

unfoldable pub find_comment_start : Text → Option ℕ
find_comment_start value = find_comment outside 0 value

-- The first two statements of the three parsers: trim, and cut a trailing comment.
unfoldable pub strip_comment : Text → Text
strip_comment raw =
    let value = trim raw in
    elim (find_comment_start value) [ none ↦ value | some i ↦ trim (take i value) ]

unfoldable pub parse_toml_string : Text → Text
parse_toml_string raw =
    let value = strip_comment raw in
    if starts_with (quotation ∷ []) value && ends_with quotation value
    then or_else (json_string value) (inner value)
    else if starts_with (apostrophe ∷ []) value && ends_with apostrophe value
    then inner value
    else value

unfoldable pub safe_json_parse : Text → Text
safe_json_parse buf =
    let quoted = replace_all quotation (backslash ∷ quotation ∷ []) buf in
    or_else (json_string (quotation ∷ (quoted ++ quotation ∷ []))) buf

-- The loop of `parseTomlStringArray` over `inner`, with `buf` so far; the result is what it pushes.
unfoldable pub array_items : Scan → Text → Text → List Text
array_items _ buf [] = []
array_items outside buf (ch ∷ s) =
    array_items (if ch == quotation || ch == apostrophe then inside ch else outside) buf s
array_items (inside quote) buf (ch ∷ s) =
    let skip = array_items (skipped quote) (buf ++ ch ∷ []) s in
    let closed = array_items outside [] s in
    let longer = array_items (inside quote) (buf ++ ch ∷ []) s in
    if ch == backslash && not (is_empty s)
    then skip
    else if ch == quote
    then safe_json_parse buf ∷ closed
    else longer
array_items (skipped quote) buf (ch ∷ s) = array_items (inside quote) (buf ++ ch ∷ []) s

unfoldable pub parse_toml_string_array : Text → List Text
parse_toml_string_array raw =
    let value = strip_comment raw in
    if not (starts_with (b'[' ∷ []) value) || not (ends_with b']' value)
    then []
    else array_items outside [] (inner value)

module _ (js : Numbers) where
  open js use {Num, parse, is_integer}

  unfoldable pub parse_toml_int : Text → Option Num
  parse_toml_int raw =
      let num = parse (strip_comment raw) in if is_integer num then some num else none
