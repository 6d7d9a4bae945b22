-- ===== src/Pages/Detail/Ansi.antt =====
-- The escape sequences of a line, written out and stripped.
use frpc_multi.Base.Text.{Text}
use frpc_multi.Pages.Detail.{ansi_body, ansi_match, strip_from, strip_ansi}
use Prim.Native.Nat.{ℕ, zero, suc, ◌+◌, ◌≤◌}
use mathlib.Core.Path.{◌≡◌, refl, ap, ◌∙◌}
use mathlib.Core.Logic.{◌≢◌, ◌⊎◌}
use mathlib.Core.Option.{none, some}
use mathlib.Core.List.{List, [], ◌∷◌, ◌++◌}
use native.Mathlib.Omega.{arith}
use frpc_multi.Base.Lists.{length, length-append, All}

-- A character, a sequence with its escape, or one whose escape was lost.
pub data Piece : Type 0 where
  plain : ℕ → Piece
  escaped bare : (params : Text) → Piece

-- A digit or a semicolon.
abbrev pub IsParam : ℕ → Type 0
IsParam c = ((48 ≤ c) × (c ≤ 57)) ⊎ (c ≡ b';')

abbrev pub IsPiece : Piece → Type 0
IsPiece (plain c) = (c ≢ 27) × (c ≢ b'[')
IsPiece (escaped params) = All IsParam params
IsPiece (bare params) = All IsParam params × (1 ≤ length params) × (length params ≤ 8)

unfoldable pub line_of : List Piece → Text
line_of [] = []
line_of (plain c ∷ pieces) = c ∷ line_of pieces
line_of (escaped params ∷ pieces) = 27 ∷ b'[' ∷ (params ++ b'm' ∷ line_of pieces)
line_of (bare params ∷ pieces) = b'[' ∷ (params ++ b'm' ∷ line_of pieces)

unfoldable pub plain_of : List Piece → Text
plain_of [] = []
plain_of (plain c ∷ pieces) = c ∷ plain_of pieces
plain_of (escaped params ∷ pieces) = plain_of pieces
plain_of (bare params ∷ pieces) = plain_of pieces

ansi_body-append :
    (fuel seen : ℕ) (params rest : Text)
    → All IsParam params
    → length params ≤ fuel
    → ansi_body fuel seen (params ++ b'm' ∷ rest) ≡ some (seen + length params, rest)
unfolding ansi_body
ansi_body-append zero seen [] rest h k = ground arith
ansi_body-append (suc fuel) seen [] rest h k = ground arith
ansi_body-append zero seen (c ∷ params) rest h k = absurd (omega arith)
ansi_body-append (suc fuel) seen (c ∷ params) rest (p, h) k =
    ground (arith, ansi_body-append fuel (seen + 1) params rest h (omega arith))

ansi_match-escaped :
    (params rest : Text)
    → All IsParam params
    → ansi_match (27 ∷ b'[' ∷ (params ++ b'm' ∷ rest)) ≡ some rest
unfolding ansi_match
ansi_match-escaped params rest h =
    let s = params ++ b'm' ∷ rest in
    ground (
      arith,
      ansi_body-append (length s) 0 params rest h
          (omega (arith, length-append params (b'm' ∷ rest))),
    )

ansi_match-bare :
    (params rest : Text)
    → IsPiece (bare params)
    → ansi_match (b'[' ∷ (params ++ b'm' ∷ rest)) ≡ some rest
unfolding ansi_match
ansi_match-bare [] rest (h, low, high) = absurd (omega arith)
ansi_match-bare (d ∷ params) rest (h, low, high) =
    ground (arith, ansi_body-append 8 0 (d ∷ params) rest h high)

ansi_match-plain : (c : ℕ) (s : Text) → IsPiece (plain c) → ansi_match (c ∷ s) ≡ none
unfolding ansi_match
ansi_match-plain c [] h = refl
ansi_match-plain c (d ∷ s) h = ground arith

strip_from-none :
    (fuel c : ℕ) (s : Text)
    → ansi_match (c ∷ s) ≡ none
    → strip_from (suc fuel) (c ∷ s) ≡ c ∷ strip_from fuel s
unfolding strip_from
strip_from-none fuel c s e =
    ap
      (λ o. elim o as (λ x. Text) [
        | none ↦ c ∷ strip_from fuel s
        | some rest ↦ strip_from fuel rest
      ])
      e

strip_from-some :
    (fuel c : ℕ) (s rest : Text)
    → ansi_match (c ∷ s) ≡ some rest
    → strip_from (suc fuel) (c ∷ s) ≡ strip_from fuel rest
unfolding strip_from
strip_from-some fuel c s rest e =
    ap (λ o. elim o as (λ x. Text) [ none ↦ c ∷ strip_from fuel s | some t ↦ strip_from fuel t ]) e

strip_from-line_of :
    (fuel : ℕ) (pieces : List Piece)
    → All IsPiece pieces
    → length (line_of pieces) ≤ fuel
    → strip_from fuel (line_of pieces) ≡ plain_of pieces
unfolding line_of plain_of strip_from
strip_from-line_of zero [] h k = refl
strip_from-line_of zero (plain c ∷ pieces) h k = absurd (omega arith)
strip_from-line_of zero (escaped params ∷ pieces) h k = absurd (omega arith)
strip_from-line_of zero (bare params ∷ pieces) h k = absurd (omega arith)
strip_from-line_of (suc fuel) [] h k = refl
strip_from-line_of (suc fuel) (plain c ∷ pieces) (p, h) k =
    strip_from-none fuel c (line_of pieces) (ansi_match-plain c (line_of pieces) p)
    ∙ ap (λ s. c ∷ s) (strip_from-line_of fuel pieces h (omega arith))
strip_from-line_of (suc fuel) (escaped params ∷ pieces) (p, h) k =
    strip_from-some fuel 27 (b'[' ∷ (params ++ b'm' ∷ line_of pieces)) (line_of pieces)
      (ansi_match-escaped params (line_of pieces) p)
    ∙ strip_from-line_of fuel pieces h (omega (arith, length-append params (b'm' ∷ line_of pieces)))
strip_from-line_of (suc fuel) (bare params ∷ pieces) (p, h) k =
    strip_from-some fuel b'[' (params ++ b'm' ∷ line_of pieces) (line_of pieces)
      (ansi_match-bare params (line_of pieces) p)
    ∙ strip_from-line_of fuel pieces h (omega (arith, length-append params (b'm' ∷ line_of pieces)))

-- Of a line that is made of characters other than the escape and the opening bracket, of sequences of an
-- escape, a bracket, digits and semicolons and an m, and of such sequences without the escape and with
-- one to eight digits and semicolons, just the characters are left, in their order.
pub strip_ansi-line_of :
    (pieces : List Piece) → All IsPiece pieces → strip_ansi (line_of pieces) ≡ plain_of pieces
unfolding strip_ansi
strip_ansi-line_of pieces h = strip_from-line_of (length (line_of pieces)) pieces h (omega arith)
