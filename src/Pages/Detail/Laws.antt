-- ===== src/Pages/Detail/Laws.antt =====
-- The escape sequences that are stripped, and the counts of the ports.
use mathlib.Core.List.{Perm, perm_middle}
use mathlib.Core.List.Perm
use frpc_multi.Base.Assoc.{nat_eq, get, put, get-put}
use frpc_multi.Base.Text.{Text}
use frpc_multi.Pages.Detail.{
  ansi_body, ansi_match, strip_from, strip_ansi, count_ports, insert_port, sort_ports,
}
use Prim.Native.Nat.{ℕ, zero, suc, ◌+◌, ◌≤◌}
use mathlib.Core.Path.{◌≡◌, refl, ap}
use mathlib.Core.Logic.{inl, inr}
use mathlib.Core.Option.{Option, none, some}
use mathlib.Core.List.{List, [], ◌∷◌}
use native.Mathlib.Omega.{arith}
use frpc_multi.Base.Tests.{leb, ◌==◌, if◌then◌else◌, Bool-cases, or_else}
use frpc_multi.Base.Lists.{length}

abbrev body_size : Option (ℕ × Text) → ℕ
body_size none = 0
body_size (some (n, rest)) = length rest + 1

abbrev match_size : Option Text → ℕ
match_size none = 0
match_size (some rest) = length rest + 1

body_size-ansi_body : (fuel seen : ℕ) (s : Text) → body_size (ansi_body fuel seen s) ≤ length s
unfolding ansi_body
body_size-ansi_body fuel seen [] = omega arith
body_size-ansi_body zero seen (c ∷ s) = ground arith
body_size-ansi_body (suc fuel) seen (c ∷ s) = ground (arith, body_size-ansi_body fuel (seen + 1) s)

match_size-ansi_match : (c : ℕ) (s : Text) → match_size (ansi_match (c ∷ s)) ≤ length s + 1
unfolding ansi_match
match_size-ansi_match c [] = omega arith
match_size-ansi_match c (d ∷ s) =
    ground (arith, body_size-ansi_body (length s) 0 s, body_size-ansi_body 8 0 (d ∷ s))

strip_from_same :
    (f g : ℕ) (s : Text) → length s ≤ f → length s ≤ g → strip_from f s ≡ strip_from g s
unfolding strip_from
strip_from_same zero zero s h k = refl
strip_from_same zero (suc g) [] h k = refl
strip_from_same zero (suc g) (c ∷ s) h k = absurd (omega arith)
strip_from_same (suc f) zero [] h k = refl
strip_from_same (suc f) zero (c ∷ s) h k = absurd (omega arith)
strip_from_same (suc f) (suc g) [] h k = refl
strip_from_same (suc f) (suc g) (c ∷ s) h k =
    by_match (λ (t : Text) (h' : length t ≤ f) (k' : length t ≤ g). strip_from_same f g t h' k')
      (ansi_match (c ∷ s)) (match_size-ansi_match c s)
  where
    by_match :
        (again : (t : Text) → length t ≤ f → length t ≤ g → strip_from f t ≡ strip_from g t)
        → (o : Option Text) → match_size o ≤ length s + 1
        → elim o as (λ x. Text) [ none ↦ c ∷ strip_from f s | some rest ↦ strip_from f rest ]
          ≡ elim o as (λ x. Text) [ none ↦ c ∷ strip_from g s | some rest ↦ strip_from g rest ]
    by_match again none shorter = ap (λ t. c ∷ t) (again s (omega arith) (omega arith))
    by_match again (some rest) shorter = again rest (omega arith) (omega arith)

-- Fuel: a round for each character of a line is enough, and more rounds give the same text.
pub strip_from-strip_ansi :
    (fuel : ℕ) (s : Text) → length s ≤ fuel → strip_from fuel s ≡ strip_ansi s
unfolding strip_ansi
strip_from-strip_ansi fuel s h = strip_from_same fuel (length s) s h (omega arith)

pub occurrences : ℕ → List ℕ → ℕ
occurrences port [] = 0
occurrences port (p ∷ ps) = (if p == port then 1 else 0) + occurrences port ps

abbrev pub count_of : ℕ → List (ℕ × ℕ) → ℕ
count_of port counts = or_else (get port counts) 0

count_of-count_ports :
    (port : ℕ) (ports : List ℕ) (counts : List (ℕ × ℕ))
    → count_of port (count_ports ports counts) ≡ count_of port counts + occurrences port ports
unfolding count_ports occurrences
count_of-count_ports port [] counts = omega arith
count_of-count_ports port (p ∷ ports) counts = ground (
  arith,
  count_of-count_ports port ports (put p (count_of p counts + 1) counts),
  get-put p port (count_of p counts + 1) counts,
)

abbrev pub IsSorted : List (ℕ × ℕ) → Type 0
IsSorted [] = Unit
IsSorted (p ∷ []) = Unit
IsSorted (p ∷ q ∷ qs) = (p.0 ≤ q.0) × IsSorted (q ∷ qs)

insert_port-IsSorted : (p : ℕ × ℕ) (qs : List (ℕ × ℕ)) → IsSorted qs → IsSorted (insert_port p qs)
unfolding insert_port
insert_port-IsSorted p [] h = tt
insert_port-IsSorted p (q ∷ []) h = ground arith
insert_port-IsSorted p (q ∷ r ∷ rs) (le, h) = ground (arith, insert_port-IsSorted p (r ∷ rs) h)

sort_ports-IsSorted : (ps : List (ℕ × ℕ)) → IsSorted (sort_ports ps)
unfolding sort_ports
sort_ports-IsSorted [] = tt
sort_ports-IsSorted (p ∷ ps) = insert_port-IsSorted p (sort_ports ps) (sort_ports-IsSorted ps)

insert_port-perm : (p : ℕ × ℕ) (qs : List (ℕ × ℕ)) → Perm (insert_port p qs) (p ∷ qs)
unfolding insert_port
insert_port-perm p [] = Perm.refl (p ∷ [])
insert_port-perm p (q ∷ qs) = elim (Bool-cases (leb p.0 q.0)) [
  | inl e ↦ rw e (Perm.refl (p ∷ q ∷ qs))
  | inr e ↦ rw e (Perm.trans (Perm.cons q (insert_port-perm p qs)) (perm_middle (q ∷ []) qs))
]

sort_ports-perm : (ps : List (ℕ × ℕ)) → Perm (sort_ports ps) ps
unfolding sort_ports
sort_ports-perm [] = Perm.refl []
sort_ports-perm (p ∷ ps) =
    Perm.trans (insert_port-perm p (sort_ports ps)) (Perm.cons p (sort_ports-perm ps))

-- The ports are counted as often as they occur, and shown in the order of the ports: the sorted list is
-- the map's entries in another order, none left out.
pub count_ports-sort_ports :
    (port : ℕ) (ports : List ℕ)
    → let counts = count_ports ports [] in
      (count_of port counts ≡ occurrences port ports)
      × IsSorted (sort_ports counts)
      × Perm (sort_ports counts) counts
unfolding get
count_ports-sort_ports port ports =
    let counts = count_ports ports [] in
    (
      omega (arith, count_of-count_ports port ports []),
      sort_ports-IsSorted counts,
      sort_ports-perm counts,
    )
