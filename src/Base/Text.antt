-- ===== src/Base/Text.antt =====
-- Strings as lists of UTF-16 code units, and the operations of JavaScript's `String` that the
-- sources call: `===`, `trim`, `startsWith`, `indexOf`, `slice`, `split`, `join`, `replace`.
pub mod Trim
pub mod Lines
pub mod Search
pub mod Split
use Prim.Native.Char.{code}
use Prim.Native.Nat.{ℕ, suc, ◌+◌}
use Prim.Native.String.{String}
use mathlib.Core.Path.{◌≡◌, refl}
use mathlib.Core.Logic.{◌↔◌}
use mathlib.Core.Bool.{Bool, true, false, ◌&&◌, ◌||◌}
use mathlib.Core.Option.{Option, none, some}
use mathlib.Core.List.{List, [], ◌∷◌, ◌++◌}
use native.Mathlib.Omega.{arith}
use frpc_multi.Base.Tests.{leb, ◌==◌, if◌then◌else◌}
use frpc_multi.Base.Lists.{is_empty}

abbrev pub Text : Type 0
Text = List ℕ

-- The code units of a literal (every literal of the sources lies in the basic plane).
abbrev pub codes : String → Text
codes String.[] = []
codes (String.◌∷◌ c s) = code c ∷ codes s

infix 50 ◌===◌
unfoldable pub ◌===◌ : Text → Text → Bool
[] === [] = true
(a ∷ s) === (b ∷ t) = a == b && s === t
_ === _ = false

pub ===_iff : (s t : Text) → ((s === t) ≡ true) ↔ (s ≡ t)
unfolding ◌===◌
===_iff (a ∷ s) (b ∷ t) = ground (arith, ===_iff s t)
===_iff _ _ = ground arith

pub ===_refl : (s : Text) → (s === s) ≡ true
===_refl s = (===_iff s s).1 refl

-- The white space of `trim` and of `\s`: WhiteSpace and LineTerminator of ECMAScript.
unfoldable pub is_space : ℕ → Bool
is_space c =
    (leb 9 c && leb c 13)
    || c == 32
    || c == 160
    || c == 5760
    || (leb 8192 c && leb c 8202)
    || c == 8232
    || c == 8233
    || c == 8239
    || c == 8287
    || c == 12288
    || c == 65279

unfoldable pub trim_start : Text → Text
trim_start [] = []
trim_start (c ∷ s) = let rest = trim_start s in if is_space c then rest else c ∷ s

unfoldable pub trim_end : Text → Text
trim_end [] = []
trim_end (c ∷ s) = let rest = trim_end s in if is_space c && is_empty rest then [] else c ∷ rest

unfoldable pub trim : Text → Text
trim s = trim_end (trim_start s)

unfoldable pub starts_with : Text → Text → Bool
starts_with [] s = true
starts_with (p ∷ ps) [] = false
starts_with (p ∷ ps) (c ∷ s) = p == c && starts_with ps s

unfoldable pub ends_with : ℕ → Text → Bool
ends_with q [] = false
ends_with q (c ∷ []) = c == q
ends_with q (c ∷ d ∷ s) = ends_with q (d ∷ s)

-- `s.indexOf(c)`, with `none` for -1
unfoldable pub index_of : ℕ → Text → Option ℕ
index_of c [] = none
index_of c (d ∷ s) =
    let later = index_of c s in
    if c == d then some 0 else elim later [ none ↦ none | some i ↦ some (suc i) ]

-- `s.slice(0, -1)`
unfoldable pub drop_last : Text → Text
drop_last [] = []
drop_last (c ∷ []) = []
drop_last (c ∷ d ∷ s) = c ∷ drop_last (d ∷ s)

-- `s.slice(1, -1)`
unfoldable pub inner : Text → Text
inner [] = []
inner (c ∷ s) = drop_last s

-- `s.replace(/c/g, r)`
unfoldable pub replace_all : ℕ → Text → Text → Text
replace_all c r [] = []
replace_all c r (d ∷ s) = (if c == d then r else d ∷ []) ++ replace_all c r s

-- in front of the first part
abbrev pub push_first : ℕ → List Text → List Text
push_first c [] = (c ∷ []) ∷ []
push_first c (p ∷ ps) = (c ∷ p) ∷ ps

-- `s.split(c)`
unfoldable pub split_on : ℕ → Text → List Text
split_on c [] = [] ∷ []
split_on c (d ∷ s) = let rest = split_on c s in if c == d then [] ∷ rest else push_first d rest

abbrev starts_newline : Text → Bool
starts_newline [] = false
starts_newline (c ∷ _) = c == b'\n'

-- `s.split(/\r?\n/)`: a carriage return belongs to the separator only before a newline
unfoldable pub split_lines : Text → List Text
split_lines [] = [] ∷ []
split_lines (c ∷ s) =
    let rest = split_lines s in
    if c == b'\n'
    then [] ∷ rest
    else if c == b'\r' && starts_newline s
    then rest
    else push_first c rest

-- `parts.join(sep)`
unfoldable pub join : Text → List Text → Text
join sep [] = []
join sep (p ∷ []) = p
join sep (p ∷ q ∷ ps) = p ++ (sep ++ join sep (q ∷ ps))
