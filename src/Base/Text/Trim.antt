-- ===== src/Base/Text/Trim.antt =====
-- What `trim` leaves alone.
use Prim.Native.Nat.{ℕ, ◌≤◌}
use mathlib.Core.Path.{◌≡◌, refl, ap, sym, ◌∙◌}
use mathlib.Core.Logic.{◌≢◌}
use mathlib.Core.Bool.{false}
use mathlib.Core.List.{[], ◌∷◌, ◌++◌}
use native.Mathlib.Omega.{arith}
use frpc_multi.Base.Lists.{is_empty, All, length}
use frpc_multi.Base.Text.{Text, is_space, trim_start, trim_end, trim}

append_ne_nil : (s t : Text) → t ≢ [] → is_empty (s ++ t) ≡ false
append_ne_nil [] [] n = absurd (n refl)
append_ne_nil [] (x ∷ t) n = refl
append_ne_nil (x ∷ s) t n = refl

pub trim_end-append : (s t : Text) → trim_end t ≡ t → t ≢ [] → trim_end (s ++ t) ≡ s ++ t
unfolding trim_end
trim_end-append [] t e ne = e
trim_end-append (c ∷ s) t e ne =
    rw (trim_end-append s t e ne) (ground (arith, append_ne_nil s t ne))

pub trim_start-cons : (c : ℕ) (s : Text) → is_space c ≡ false → trim_start (c ∷ s) ≡ c ∷ s
unfolding trim_start
trim_start-cons c s h = rw h

-- A text that begins with no space and ends in a trimmed one is trimmed.
pub trim-append :
    (c : ℕ) (s t : Text)
    → is_space c ≡ false
    → trim_end t ≡ t
    → t ≢ []
    → trim (c ∷ (s ++ t)) ≡ c ∷ (s ++ t)
unfolding trim
trim-append c s t h e ne = rw (trim_start-cons c (s ++ t) h) (trim_end-append (c ∷ s) t e ne)

-- No code unit of the text is white space.
abbrev pub HasNoSpace : Text → Type 0
HasNoSpace s = All (λ c. is_space c ≡ false) s

pub trim_end-HasNoSpace : (s : Text) → HasNoSpace s → trim_end s ≡ s
unfolding trim_end
trim_end-HasNoSpace [] h = refl
trim_end-HasNoSpace (c ∷ s) (k, h) = rw (k, trim_end-HasNoSpace s h)

pub trim-HasNoSpace : (s : Text) → HasNoSpace s → trim s ≡ s
unfolding trim trim_start trim_end
trim-HasNoSpace [] h = refl
trim-HasNoSpace (c ∷ s) (k, h) = rw (trim_start-cons c s k) (trim_end-HasNoSpace (c ∷ s) (k, h))

-- A space in front is dropped.
pub trim-space : (s : Text) → trim (b' ' ∷ s) ≡ trim s
unfolding trim trim_start is_space
trim-space s = refl

trim_start_fixed : (s : Text) → trim_start (trim_start s) ≡ trim_start s
unfolding trim_start
trim_start_fixed [] = refl
trim_start_fixed (c ∷ s) = ground (arith, trim_start_fixed s)

trim_end_fixed : (s : Text) → trim_end (trim_end s) ≡ trim_end s
unfolding trim_end
trim_end_fixed [] = refl
trim_end_fixed (c ∷ s) = ground (arith, trim_end_fixed s)

length-trim_start-le : (s : Text) → length (trim_start s) ≤ length s
unfolding trim_start
length-trim_start-le [] = omega arith
length-trim_start-le (c ∷ s) = ground (arith, length-trim_start-le s)

no_space_first : (c : ℕ) (s : Text) → trim_start (c ∷ s) ≡ c ∷ s → is_space c ≡ false
unfolding trim_start
no_space_first c s h = ground (arith, length-trim_start-le s, ap length h)

-- What is left starts with no space, so it stays when the end is cut.
trim_start-trim_end : (s : Text) → trim_start s ≡ s → trim_start (trim_end s) ≡ trim_end s
unfolding trim_start trim_end
trim_start-trim_end [] h = refl
trim_start-trim_end (c ∷ s) h = rw (no_space_first c s h) (rw (no_space_first c s h))

pub trim_idempotent : (s : Text) → trim (trim s) ≡ trim s
unfolding trim
trim_idempotent s =
    rw (trim_start-trim_end (trim_start s) (trim_start_fixed s)) (trim_end_fixed (trim_start s))

-- A trimmed text ends in no space.
pub trim_end_of_trim : (s : Text) → trim s ≡ s → trim_end s ≡ s
unfolding trim
trim_end_of_trim s h = ap trim_end (sym h) ∙ trim_end_fixed (trim_start s) ∙ h

trim_end-snoc : (s : Text) → HasNoSpace s → trim_end (s ++ b' ' ∷ []) ≡ s
unfolding trim_end is_space
trim_end-snoc [] h = refl
trim_end-snoc (c ∷ s) (k, h) = rw (trim_end-snoc s h) (ground (arith, k))

-- A space behind is dropped.
pub trim-snoc : (s : Text) → HasNoSpace s → trim (s ++ b' ' ∷ []) ≡ s
unfolding trim trim_start trim_end is_space
trim-snoc [] h = refl
trim-snoc (c ∷ s) (k, h) =
    ap trim_end (trim_start-cons c (s ++ b' ' ∷ []) k) ∙ trim_end-snoc (c ∷ s) (k, h)
