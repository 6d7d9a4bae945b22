-- ===== src/Pages/Candidates/Trail.antt =====
-- The trail of cursors of the candidates' dialog, and the way back over empty pages.
use frpc_multi.Base.Tests.{==_refl}
use mathlib.Core.Path.{ap}
use frpc_multi.Base.Answers.{Answer, answered, refused}
use frpc_multi.Base.Assoc.{nat_eq, contains}
use frpc_multi.Base.Text.{Text}
use frpc_multi.Pages.Candidates.Library.{
  Library, LibraryPage, LibraryTicket, drop_end, end_of, is_cursor, library_start, library_answer,
  library_handle, step_back,
}
use Prim.Native.Nat.{ℕ, zero, suc, ◌+◌, ◌≤◌, ◌<◌}
use mathlib.Core.Path.{◌≡◌, refl, ap, ◌∙◌}
use mathlib.Core.Logic.{inl, inr}
use mathlib.Core.Bool.{true, false, ◌&&◌}
use mathlib.Core.Option.{Option, none}
use mathlib.Core.List.{List, [], ◌∷◌, ◌++◌}
use native.Mathlib.Omega.{arith}
use frpc_multi.Base.Tests.{ltb, ◌==◌, if◌then◌else◌, ==_refl, Bool-cases}
use frpc_multi.Base.Lists.{length, is_empty, All, All-append}

abbrev pub IsTrail : List (Option Text) → Type 0
IsTrail [] = ⊥
IsTrail (x ∷ xs) = (x ≡ none) × All (λ c. is_cursor c ≡ true) xs

All-drop_end :
    (xs : List (Option Text))
    → All (λ c. is_cursor c ≡ true) xs
    → All (λ c. is_cursor c ≡ true) (drop_end xs)
unfolding drop_end
All-drop_end [] h = tt
All-drop_end (x ∷ []) h = tt
All-drop_end (x ∷ y ∷ xs) (k, h) = (k, All-drop_end (y ∷ xs) h)

IsTrail-drop_end :
    (trail : List (Option Text)) → 1 < length trail → IsTrail trail → IsTrail (drop_end trail)
unfolding drop_end
IsTrail-drop_end [] h v = v
IsTrail-drop_end (x ∷ []) h v = absurd (omega arith)
IsTrail-drop_end (x ∷ y ∷ xs) h (first, v) = (first, All-drop_end (y ∷ xs) v)

pub IsTrail-append :
    (trail : List (Option Text)) (c : Option Text)
    → is_cursor c ≡ true
    → IsTrail trail
    → IsTrail (trail ++ c ∷ [])
IsTrail-append [] c h v = absurd v
IsTrail-append (x ∷ xs) c h (first, v) =
    (first, All-append (λ k. is_cursor k ≡ true) xs (c ∷ []) v (h, tt))

pub end_of-append : (trail : List (Option Text)) (c : Option Text) → end_of (trail ++ c ∷ []) ≡ c
end_of-append [] c = refl
end_of-append (x ∷ []) c = refl
end_of-append (x ∷ y ∷ xs) c = end_of-append (y ∷ xs) c

length-drop_end :
    (trail : List (Option Text)) → 1 < length trail → length (drop_end trail) + 1 ≡ length trail
unfolding drop_end
length-drop_end [] h = absurd (omega arith)
length-drop_end (x ∷ []) h = absurd (omega arith)
length-drop_end (x ∷ y ∷ []) h = refl
length-drop_end (x ∷ y ∷ z ∷ xs) h = omega (arith, length-drop_end (y ∷ z ∷ xs) (omega arith))

end_of-IsTrail :
    (trail : List (Option Text))
    → 1 < length trail
    → IsTrail trail
    → is_cursor (end_of trail) ≡ true
end_of-IsTrail [] h v = absurd v
end_of-IsTrail (x ∷ []) h v = absurd (omega arith)
end_of-IsTrail (x ∷ y ∷ xs) h (_, v) = last_cursor y xs v
  where
    last_cursor :
        (y : Option Text) (xs : List (Option Text))
        → All (λ c. is_cursor c ≡ true) (y ∷ xs)
        → is_cursor (end_of (y ∷ xs)) ≡ true
    last_cursor y [] (k, _) = k
    last_cursor y (z ∷ xs) (_, k) = last_cursor z xs k

later :
    (n : ℕ) (requests : List ℕ)
    → All (λ request. request ≤ n) requests
    → All (λ request. request ≤ n + 1) requests
later n [] h = tt
later n (r ∷ rs) (k, h) = (omega arith, later n rs h)

only_first : (trail : List (Option Text)) → length trail ≤ 1 → IsTrail trail → trail ≡ none ∷ []
only_first [] h v = absurd v
only_first (x ∷ []) h (first, _) = ap (λ c. c ∷ []) first
only_first (x ∷ y ∷ xs) h v = absurd (omega arith)

fresh :
    (n : ℕ) (requests : List ℕ)
    → All (λ request. request ≤ n) requests
    → contains (n + 1) requests ≡ false
unfolding contains
fresh n [] h = refl
fresh n (r ∷ rs) (k, h) = ground (arith, fresh n rs h)

module _ {D : Type 0} where
  -- The trail starts at the first page, the rest of it are cursors, and it ends at the page that is
  -- shown; no call from the future is aborted.
  pub record IsValid (s : Library D) : Type 0 where
    pub trail : IsTrail s.cursor_trail
    pub shown : s.library_cursor ≡ end_of s.cursor_trail
    pub past : All (λ request. request ≤ s.library_request) s.aborted

  pub kept :
      (s t : Library D)
      → t.cursor_trail ≡ s.cursor_trail
      → t.library_cursor ≡ s.library_cursor
      → t.library_request ≡ s.library_request
      → t.aborted ≡ s.aborted
      → IsValid s
      → IsValid t
  kept s t a b c d v = record {
    trail = rw a v.trail;
    shown = rw (a, b) v.shown;
    past = rw (c, d) v.past;
  }

  -- The trail without its end, with the page that it then ends at.
  pub stepped :
      (s t : Library D)
      → 1 < length s.cursor_trail
      → t.cursor_trail ≡ drop_end s.cursor_trail
      → t.library_cursor ≡ end_of (drop_end s.cursor_trail)
      → t.library_request ≡ s.library_request
      → t.aborted ≡ s.aborted
      → IsValid s
      → IsValid t
  stepped s t h a b c d v = record {
    trail = rw a (IsTrail-drop_end s.cursor_trail h v.trail);
    shown = rw (a, b) refl;
    past = rw (c, d) v.past;
  }

  -- The call was made for the page that is shown.
  pub record IsCurrent (t : LibraryTicket) (s : Library D) : Type 0 where
    pub cursor : t.cursor ≡ s.library_cursor
    pub trail : t.trail ≡ s.cursor_trail
    pub past : t.request ≤ s.library_request

  library_handle-IsValid :
      (t : LibraryTicket) (a : Answer (LibraryPage D)) (s : Library D)
      → IsCurrent t s
      → IsValid s
      → IsValid (library_handle t a s)
  unfolding library_handle step_back
  library_handle-IsValid t (answered result) s now v =
      elim (Bool-cases (is_cursor t.cursor && is_empty result.items && ltb 1 (length t.trail))) [
        | inl e ↦
            let long : 1 < length t.trail = ground arith in
            rw e (
              stepped s _ (rw (← now.trail) long) refl (ap (λ c. end_of (drop_end c)) now.trail)
                refl refl v)
        | inr e ↦ rw e (kept s _ refl refl refl refl v)
      ]
  library_handle-IsValid t (refused message) s now v = kept s _ refl refl refl refl v

  pub library_answer-IsValid :
      (t : LibraryTicket) (a : Answer (LibraryPage D)) (s : Library D)
      → IsCurrent t s
      → IsValid s
      → IsValid (library_answer t a s)
  unfolding library_answer
  library_answer-IsValid t a s now v = elim (Bool-cases (t.request == s.library_request)) [
    | inr e ↦ rw e v
    | inl e ↦ elim (Bool-cases (contains t.request s.aborted)) [
      | inl f ↦ rw (e, f) (kept s _ refl refl refl refl v)
      | inr f ↦
          rw (e, f)
            (kept (library_handle t a s) _ refl refl refl refl (library_handle-IsValid t a s now v))
    ]
  ]

  pub library_start-IsValid : (s : Library D) → IsValid s → IsValid (library_start s).1
  unfolding library_start
  library_start-IsValid s v = record {
    trail = v.trail;
    shown = v.shown;
    past = later s.library_request s.aborted v.past;
  }

  pub library_start-IsCurrent : (s : Library D) → IsCurrent (library_start s).0 (library_start s).1
  unfolding library_start
  library_start-IsCurrent s = record { cursor = refl; trail = refl; past = omega arith }

  -- A call that is answered with an empty page, and `n` of them, one after the other.
  unfoldable pub empty_round : ℕ → Library D → Library D
  empty_round total s =
      let (ticket, called) = library_start s in
      let empty : LibraryPage D = record { items = []; next_cursor = none; total = total } in
      library_answer ticket (answered empty) called

  unfoldable pub empty_rounds : ℕ → ℕ → Library D → Library D
  empty_rounds zero total s = s
  empty_rounds (suc n) total s = empty_rounds n total (empty_round total s)

  empty_round-IsValid : (total : ℕ) (s : Library D) → IsValid s → IsValid (empty_round total s)
  unfolding empty_round
  empty_round-IsValid total s v =
      library_answer-IsValid _ _ (library_start s).1 (library_start-IsCurrent s)
        (library_start-IsValid s v)

  -- What an empty page does to the trail.
  empty_round-trail :
      (total : ℕ) (s : Library D)
      → IsValid s
      → (empty_round total s).cursor_trail ≡ (
          if is_cursor s.library_cursor && is_empty {A = D} [] && ltb 1 (length s.cursor_trail)
          then drop_end s.cursor_trail
          else s.cursor_trail)
  unfolding empty_round library_start library_answer library_handle step_back
  empty_round-trail total s v =
      elim (Bool-cases
        (is_cursor s.library_cursor && is_empty {A = D} [] && ltb 1 (length s.cursor_trail))) [
          | inl e ↦
              rw (==_refl (s.library_request + 1), fresh s.library_request s.aborted v.past, e) refl
          | inr e ↦
              rw (==_refl (s.library_request + 1), fresh s.library_request s.aborted v.past, e) refl
        ]

  empty_round_shorter :
      (total n : ℕ) (s : Library D)
      → IsValid s
      → length s.cursor_trail ≤ suc (suc n)
      → length (empty_round total s).cursor_trail ≤ suc n
  empty_round_shorter total n s v h = rw (empty_round-trail total s v) (
      ground (
        arith,
        length-drop_end s.cursor_trail,
        λ (k : 1 < length s.cursor_trail). end_of-IsTrail s.cursor_trail k v.trail,
        ap is_cursor v.shown,
      ))

  -- If every page of the library is empty from now on, then the dialog is back at the first page, with a
  -- trail of this page alone, after as many answers as the trail has pages behind the first.
  pub empty_rounds_end :
      (total n : ℕ) (s : Library D)
      → IsValid s
      → length s.cursor_trail ≤ suc n
      → ((empty_rounds n total s).library_cursor ≡ none)
        × ((empty_rounds n total s).cursor_trail ≡ none ∷ [])
  unfolding empty_rounds
  empty_rounds_end total zero s v h =
      let first = only_first s.cursor_trail h v.trail in (v.shown ∙ ap end_of first, first)
  empty_rounds_end total (suc n) s v h =
      empty_rounds_end total n (empty_round total s) (empty_round-IsValid total s v)
        (empty_round_shorter total n s v h)
