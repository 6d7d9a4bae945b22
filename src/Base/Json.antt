-- ===== src/Base/Json.antt =====
-- `JSON.parse` on a text that begins with a quotation mark: by the grammar of ECMA-404 it is a
-- string value, or the call throws (`none`).
use Prim.Native.Nat.{ℕ, ◌+◌, ◌-◌, ◌*◌}
use mathlib.Core.Bool.{◌&&◌}
use mathlib.Core.Option.{Option, none, some}
use mathlib.Core.List.{[], ◌∷◌}
use frpc_multi.Base.Tests.{ltb, leb, ◌==◌, if◌then◌else◌}
use frpc_multi.Base.Lists.{is_empty}
use frpc_multi.Base.Text.{Text}

-- Between characters, behind a backslash, or with some digits of \uXXXX to come.
pub data JsonState : Type 0 where
  plain escape : JsonState
  hex : (left value : ℕ) → JsonState

-- The character of a two-character escape.
unfoldable pub escape_char : ℕ → Option ℕ
escape_char c =
    if c == b'"'
    then some b'"'
    else if c == b'\\'
    then some b'\\'
    else if c == b'/'
    then some b'/'
    else if c == b'b'
    then some 8
    else if c == b'f'
    then some 12
    else if c == b'n'
    then some 10
    else if c == b'r'
    then some 13
    else if c == b't'
    then some 9
    else none

unfoldable pub hex_digit : ℕ → Option ℕ
hex_digit c =
    if leb b'0' c && leb c b'9'
    then some (c - 48)
    else if leb b'a' c && leb c b'f'
    then some (c - 87)
    else if leb b'A' c && leb c b'F'
    then some (c - 55)
    else none

abbrev with_char : ℕ → Option Text → Option Text
with_char c none = none
with_char c (some s) = some (c ∷ s)

-- The characters after the opening quotation mark, up to the closing one, which ends the text.
unfoldable pub json_chars : JsonState → Text → Option Text
json_chars state [] = none
json_chars plain (c ∷ s) =
    let escaped = json_chars escape s in
    let longer = with_char c (json_chars plain s) in
    if c == b'"'
    then (if is_empty s then some [] else none)
    else if c == b'\\'
    then escaped
    else if ltb c 32
    then none
    else longer
json_chars escape (c ∷ s) =
    let unicode = json_chars (hex 4 0) s in
    elim (escape_char c) [
      | none ↦ if c == b'u' then unicode else none
      | some d ↦ with_char d (json_chars plain s)
    ]
json_chars (hex left value) (c ∷ s) = elim (hex_digit c) [
  | none ↦ none
  | some d ↦
      let done = with_char (value * 16 + d) (json_chars plain s) in
      let more = json_chars (hex (left - 1) (value * 16 + d)) s in if leb left 1 then done else more
]

unfoldable pub json_string : Text → Option Text
json_string [] = none
json_string (c ∷ s) = if c == b'"' then json_chars plain s else none
