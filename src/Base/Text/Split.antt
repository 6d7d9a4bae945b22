-- ===== src/Base/Text/Split.antt =====
-- Splitting at a character undoes joining with it.
use Prim.Native.Nat.{ℕ}
use mathlib.Core.Path.{◌≡◌, refl, ap, ◌∙◌}
use mathlib.Core.Logic.{◌≢◌}
use mathlib.Core.Bool.{false, not}
use mathlib.Core.List.{List, [], ◌∷◌, ◌++◌, map}
use native.Mathlib.Omega.{arith}
use frpc_multi.Base.Lists.{is_empty, filter, All}
use frpc_multi.Base.Text.{Text, split_on, join, trim, trim_start, trim_end}

pub split_on_none : (k : ℕ) (d : Text) → All (λ c. c ≢ k) d → split_on k d ≡ d ∷ []
unfolding split_on
split_on_none k [] h = refl
split_on_none k (c ∷ d) (n, h) = ground (arith, split_on_none k d h)

pub split_on-append :
    (k : ℕ) (d rest : Text) → All (λ c. c ≢ k) d → split_on k (d ++ k ∷ rest) ≡ d ∷ split_on k rest
unfolding split_on
split_on-append k [] rest h = ground arith
split_on-append k (c ∷ d) rest (n, h) = ground (arith, split_on-append k d rest h)

-- A part that `split` and `trim` give back.
pub record IsPart (k : ℕ) (d : Text) : Type 0 where
  pub trimmed : trim d ≡ d
  pub given : is_empty d ≡ false
  pub unsplit : All (λ c. c ≢ k) d

split_on-join :
    (k : ℕ) (d : Text) (ds : List Text)
    → All (IsPart k) (d ∷ ds)
    → split_on k (join (k ∷ []) (d ∷ ds)) ≡ d ∷ ds
unfolding join
split_on-join k d [] (h, _) = split_on_none k d h.unsplit
split_on-join k d (e ∷ ds) (h, hs) =
    split_on-append k d (join (k ∷ []) (e ∷ ds)) h.unsplit ∙ ap (◌∷◌ d) (split_on-join k e ds hs)

-- The parts that are left when blank ones are dropped.
abbrev pub kept : List Text → List Text
kept parts = filter (λ v. not (is_empty v)) (map trim parts)

kept-IsPart : (k : ℕ) (ds : List Text) → All (IsPart k) ds → kept ds ≡ ds
kept-IsPart k [] h = refl
kept-IsPart k (d ∷ ds) (h, hs) = rw (h.trimmed, h.given) (ap (◌∷◌ d) (kept-IsPart k ds hs))

pub kept-split_on-join :
    (k : ℕ) (d : Text) (ds : List Text)
    → All (IsPart k) (d ∷ ds)
    → kept (split_on k (join (k ∷ []) (d ∷ ds))) ≡ d ∷ ds
kept-split_on-join k d ds h = ap kept (split_on-join k d ds h) ∙ kept-IsPart k (d ∷ ds) h

pub kept_blank : (k : ℕ) → kept (split_on k []) ≡ []
kept_blank k = unfold split_on trim trim_start trim_end in refl
