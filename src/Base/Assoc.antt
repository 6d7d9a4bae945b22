-- ===== src/Base/Assoc.antt =====
-- JavaScript's `Map` in insertion order, as an association list; keys are compared by an instance.
use Prim.Native.Nat.{ℕ}
use mathlib.Core.Path.{◌≡◌, refl}
use mathlib.Core.Logic.{◌↔◌}
use mathlib.Core.Bool.{Bool, true, false, ◌||◌}
use mathlib.Core.Option.{Option, none, some}
use mathlib.Core.List.{List, [], ◌∷◌}
use native.Mathlib.Omega.{arith}
use frpc_multi.Base.Tests.{◌==◌, if◌then◌else◌, ==_iff, is_some}
use frpc_multi.Base.Text.{Text, ◌===◌, ===_iff}

pub record Eq {ℓ} (A : Type ℓ) : Type ℓ where
  pub beq : A → A → Bool
  pub beq_iff : (a b : A) → (beq a b ≡ true) ↔ (a ≡ b)

instance abbrev pub nat_eq : Eq ℕ
nat_eq = record { beq = ◌==◌; beq_iff = ==_iff }

instance abbrev pub text_eq : Eq Text
text_eq = record { beq = ◌===◌; beq_iff = ===_iff }

module _ {ℓ} {K : Type ℓ} ⦃e : Eq K⦄ where
  pub beq_refl : (k : K) → e.beq k k ≡ true
  beq_refl k = (e.beq_iff k k).1 refl

  pub beq_comm : (k j : K) → e.beq k j ≡ e.beq j k
  beq_comm k j = ground (arith, e.beq_iff k j, e.beq_iff j k)

  unfoldable pub contains : K → List K → Bool
  contains k [] = false
  contains k (j ∷ js) = e.beq j k || contains k js

  -- `[...new Set(xs)]`: the first occurrence of each element, in order
  unfoldable pub distinct_from : List K → List K → List K
  distinct_from seen [] = []
  distinct_from seen (k ∷ ks) =
      let kept = k ∷ distinct_from (k ∷ seen) ks in
      let dropped = distinct_from seen ks in if contains k seen then dropped else kept

  abbrev pub distinct : List K → List K
  distinct = distinct_from []

module _ {ℓ κ} {K : Type ℓ} {V : Type κ} ⦃e : Eq K⦄ where
  unfoldable pub get : K → List (K × V) → Option V
  get k [] = none
  get k ((j, v) ∷ m) = if e.beq j k then some v else get k m

  abbrev pub has : K → List (K × V) → Bool
  has k m = is_some (get k m)

  -- A key that is there keeps its place.
  unfoldable pub put : K → V → List (K × V) → List (K × V)
  put k v [] = (k, v) ∷ []
  put k v ((j, w) ∷ m) = if e.beq j k then (j, v) ∷ m else (j, w) ∷ put k v m

  unfoldable pub delete : K → List (K × V) → List (K × V)
  delete k [] = []
  delete k ((j, w) ∷ m) = if e.beq j k then delete k m else (j, w) ∷ delete k m

  pub get-put :
      (k j : K) (v : V) (m : List (K × V))
      → get j (put k v m) ≡ (if e.beq k j then some v else get j m)
  unfolding get put
  get-put k j v [] = refl
  get-put k j v ((i, w) ∷ m) =
      ground (arith, e.beq_iff i k, e.beq_iff i j, e.beq_iff k j, get-put k j v m)

  pub get-delete :
      (k j : K) (m : List (K × V)) → get j (delete k m) ≡ (if e.beq k j then none else get j m)
  unfolding get delete
  get-delete k j [] = ground arith
  get-delete k j ((i, w) ∷ m) =
      ground (arith, e.beq_iff i k, e.beq_iff i j, e.beq_iff k j, get-delete k j m)

  -- `new Map([...m].filter(([k]) => !ks.has(k)))`
  unfoldable pub without : List K → List (K × V) → List (K × V)
  without ks [] = []
  without ks ((j, w) ∷ m) = if contains j ks then without ks m else (j, w) ∷ without ks m

  pub get-without :
      (ks : List K) (j : K) (m : List (K × V))
      → get j (without ks m) ≡ (if contains j ks then none else get j m)
  unfolding get without
  get-without ks j [] = ground arith
  get-without ks j ((i, w) ∷ m) = ground (arith, e.beq_iff i j, get-without ks j m)
