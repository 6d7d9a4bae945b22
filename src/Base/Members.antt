-- ===== src/Base/Members.antt =====
-- Membership by an equality instance, lists without repetitions, and exchanges of neighbours.
use mathlib.Core.Path.{◌≡◌, refl, ap}
use mathlib.Core.Bool.{Bool, true, false, ◌&&◌, ◌||◌, not}
use mathlib.Core.List.{List, [], ◌∷◌, ◌++◌, map}
use native.Mathlib.Omega.{arith}
use frpc_multi.Base.Lists.{filter}
use frpc_multi.Base.Assoc.{Eq, beq_refl, contains, distinct, distinct_from}

module _ {ℓ} {K : Type ℓ} ⦃e : Eq K⦄ where
  pub contains-append :
      (k : K) (xs ys : List K) → contains k (xs ++ ys) ≡ (contains k xs || contains k ys)
  unfolding contains
  contains-append k [] ys = refl
  contains-append k (x ∷ xs) ys = ground (arith, contains-append k xs ys)

  pub contains-filter :
      (p : K → Bool) (k : K) (xs : List K) → contains k (filter p xs) ≡ (contains k xs && p k)
  unfolding contains
  contains-filter p k [] = refl
  contains-filter p k (x ∷ xs) =
      ground (arith, contains-filter p k xs, e.beq_iff x k, λ (same : x ≡ k). ap p same)

  abbrev pub NoDup : List K → Type 0
  NoDup [] = Unit
  NoDup (x ∷ xs) = (contains x xs ≡ false) × NoDup xs

  pub filter-NoDup : (p : K → Bool) (xs : List K) → NoDup xs → NoDup (filter p xs)
  filter-NoDup p [] h = tt
  filter-NoDup p (x ∷ xs) (out, h) = ground (arith, contains-filter p x xs, filter-NoDup p xs h)

  -- No member of the second list is in the first one.
  pub append-NoDup :
      (xs ys : List K)
      → NoDup xs
      → NoDup ys
      → ((k : K) → contains k ys ≡ true → contains k xs ≡ false)
      → NoDup (xs ++ ys)
  unfolding contains
  append-NoDup [] ys h i apart = i
  append-NoDup (x ∷ xs) ys (out, h) i apart =
      let rest = append-NoDup xs ys h i (λ k m. ground (arith, apart k m)) in
      (ground (arith, contains-append x xs ys, apart x, beq_refl x), rest)

  pub filter-true :
      (p : K → Bool) (xs : List K)
      → ((k : K) → contains k xs ≡ true → p k ≡ true)
      → filter p xs ≡ xs
  unfolding contains
  filter-true p [] h = refl
  filter-true p (x ∷ xs) h =
      let rest = filter-true p xs (λ k m. h k (ground arith)) in
      ground (arith, h x, beq_refl x, rest)

  pub filter-false :
      (p : K → Bool) (xs : List K)
      → ((k : K) → contains k xs ≡ true → p k ≡ false)
      → filter p xs ≡ []
  unfolding contains
  filter-false p [] h = refl
  filter-false p (x ∷ xs) h =
      let rest = filter-false p xs (λ k m. h k (ground arith)) in
      ground (arith, h x, beq_refl x, rest)

module _ {ℓ} {K : Type ℓ} ⦃e : Eq K⦄ where
  contains-distinct_from :
      (k : K) (seen xs : List K)
      → contains k (distinct_from seen xs) ≡ (contains k xs && not (contains k seen))
  unfolding contains distinct_from
  contains-distinct_from k seen [] = refl
  contains-distinct_from k seen (x ∷ xs) = ground (
    arith,
    contains-distinct_from k seen xs,
    contains-distinct_from k (x ∷ seen) xs,
    e.beq_iff x k,
    λ (same : x ≡ k). ap (λ a. contains a seen) same,
  )

  pub contains-distinct : (k : K) (xs : List K) → contains k (distinct xs) ≡ contains k xs
  unfolding contains
  contains-distinct k xs = ground (arith, contains-distinct_from k [] xs)

  distinct_from-NoDup : (seen xs : List K) → NoDup (distinct_from seen xs)
  unfolding distinct_from contains
  distinct_from-NoDup seen [] = tt
  distinct_from-NoDup seen (x ∷ xs) =
      let out : contains x (distinct_from (x ∷ seen) xs) ≡ false =
        ground (arith, contains-distinct_from x (x ∷ seen) xs, beq_refl x) in
      ground (arith, out, distinct_from-NoDup seen xs, distinct_from-NoDup (x ∷ seen) xs)

  pub distinct-NoDup : (xs : List K) → NoDup (distinct xs)
  distinct-NoDup xs = distinct_from-NoDup [] xs

module _ {ℓ κ} {A : Type ℓ} {K : Type κ} ⦃e : Eq K⦄ (f : A → K) (p : A → Bool) where
  pub contains-map-filter :
      (k : K) (xs : List A)
      → contains k (map f xs) ≡ false
      → contains k (map f (filter p xs)) ≡ false
  unfolding contains
  contains-map-filter k [] h = refl
  contains-map-filter k (x ∷ xs) h = ground (arith, contains-map-filter k xs)

  pub map-filter-NoDup : (xs : List A) → NoDup (map f xs) → NoDup (map f (filter p xs))
  map-filter-NoDup [] h = tt
  map-filter-NoDup (x ∷ xs) (out, h) =
      ground (arith, contains-map-filter (f x) xs out, map-filter-NoDup xs h)
