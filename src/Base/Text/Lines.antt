-- ===== src/Base/Text/Lines.antt =====
-- Splitting a text into lines undoes joining lines.
use mathlib.Core.Path.{◌≡◌, refl, ap, ◌∙◌}
use mathlib.Core.Logic.{◌≢◌}
use mathlib.Core.List.{List, [], ◌∷◌, ◌++◌}
use native.Mathlib.Omega.{arith}
use frpc_multi.Base.Lists.{All}
use frpc_multi.Base.Text.{Text, split_lines, join}

-- No line break of either kind.
abbrev pub IsLine : Text → Type 0
IsLine s = All (λ c. (c ≢ b'\n') × (c ≢ b'\r')) s

abbrev pub newline : Text
newline = b'\n' ∷ []

pub split_lines-IsLine : (s : Text) → IsLine s → split_lines s ≡ s ∷ []
unfolding split_lines
split_lines-IsLine [] h = refl
split_lines-IsLine (c ∷ s) ((p, q), h) = ground (arith, split_lines-IsLine s h)

pub split_lines-append : (s t : Text) → IsLine s → split_lines (s ++ b'\n' ∷ t) ≡ s ∷ split_lines t
unfolding split_lines
split_lines-append [] t h = refl
split_lines-append (c ∷ s) t ((p, q), h) = ground (arith, split_lines-append s t h)

-- Lines that are joined by newlines are found again.
pub split_lines-join :
    (l : Text) (ls : List Text)
    → IsLine l
    → All IsLine ls
    → split_lines (join newline (l ∷ ls)) ≡ l ∷ ls
unfolding join
split_lines-join l [] h _ = split_lines-IsLine l h
split_lines-join l (m ∷ ls) h (k, ks) =
    split_lines-append l (join newline (m ∷ ls)) h ∙ ap (◌∷◌ l) (split_lines-join m ls k ks)
