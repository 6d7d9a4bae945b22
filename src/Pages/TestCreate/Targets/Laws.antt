-- ===== src/Pages/TestCreate/Targets/Laws.antt =====
-- The endpoints that are read, the creation of a selection, answers that are late, and the choices that
-- the address keeps.
use frpc_multi.Base.Answers.{Answer, answered, refused}
use frpc_multi.Base.Assoc.{text_eq, get, put, contains, get-put, get-delete, distinct_from}
use frpc_multi.Base.Members.{NoDup, distinct-NoDup}
use frpc_multi.Base.Text.Trim.{HasNoSpace, trim-HasNoSpace}
use frpc_multi.Base.Text.{Text, codes, ◌===◌, ===_refl, is_space}
use frpc_multi.Bulk.{ServerSelection}
use frpc_multi.Servers.Query.{Params}
use frpc_multi.Pages.TestCreate.{
  CreatePage, Scope, Mode, selected, group, manual, all_servers, selection, unchosen, full, route,
  connectivity, speed, change_scope, change_mode, change_scope_params, follow_address,
  address_scope, read_mode, same_scope, mode_text, scope_text,
}
use frpc_multi.Pages.TestCreate.Targets.{
  await_creation, target_start, target_leave, poll_answer, creation_answer, parsed_manual,
  parts_from, is_separator, kept_promise, push_part, resolve_start, creation_key,
}
use Prim.Native.Nat.{ℕ}
use mathlib.Core.Path.{◌≡◌, refl}
use mathlib.Core.Logic.{◌≢◌, inl, inr}
use mathlib.Core.Bool.{false}
use mathlib.Core.Option.{Option, none, some}
use mathlib.Core.List.{List, [], ◌∷◌, ◌++◌}
use native.Mathlib.Omega.{arith}
use frpc_multi.Base.Tests.{Bool-cases}
use frpc_multi.Base.Lists.{All, All-append}

abbrev IsPlain : Text → Type 0
IsPlain part = All (λ c. is_separator c ≡ false) part

-- No white space, no comma and no full-width comma.
abbrev pub IsEndpointCode : ℕ → Type 0
IsEndpointCode c = (is_space c ≡ false) × (c ≢ b',') × (c ≢ 65292)

pub record IsEndpoint (t : Text) : Type 0 where
  pub given : t ≢ []
  pub plain : All IsEndpointCode t

All-IsPlain : (t : Text) → IsPlain t → All IsEndpointCode t
unfolding is_separator
All-IsPlain [] h = tt
All-IsPlain (c ∷ t) (k, h) = ((ground arith, ground arith, ground arith), All-IsPlain t h)

HasNoSpace-IsPlain : (t : Text) → IsPlain t → HasNoSpace t
unfolding is_separator
HasNoSpace-IsPlain [] h = tt
HasNoSpace-IsPlain (c ∷ t) (k, h) = (ground arith, HasNoSpace-IsPlain t h)

push_part-IsEndpoint :
    (part : Text) (parts : List Text)
    → IsPlain part
    → All IsEndpoint parts
    → All IsEndpoint (push_part part parts)
push_part-IsEndpoint [] parts h k = k
push_part-IsEndpoint (c ∷ part) parts h k =
    (record { given = ground arith; plain = All-IsPlain (c ∷ part) h }, k)

parts_from-IsEndpoint : (part s : Text) → IsPlain part → All IsEndpoint (parts_from part s)
unfolding parts_from
parts_from-IsEndpoint part [] h =
    rw (trim-HasNoSpace part (HasNoSpace-IsPlain part h)) (push_part-IsEndpoint part [] h tt)
parts_from-IsEndpoint part (c ∷ s) h = elim (Bool-cases (is_separator c)) [
  | inl e ↦
      rw (e, trim-HasNoSpace part (HasNoSpace-IsPlain part h))
        (push_part-IsEndpoint part (parts_from [] s) h (parts_from-IsEndpoint [] s tt))
  | inr e ↦ rw e (
      parts_from-IsEndpoint (part ++ c ∷ []) s
        (All-append (λ k. is_separator k ≡ false) part (c ∷ []) h (e, tt)))
]

distinct_from-All :
    (P : Text → Type 0) (seen xs : List Text) → All P xs → All P (distinct_from seen xs)
unfolding distinct_from
distinct_from-All P seen [] h = tt
distinct_from-All P seen (x ∷ xs) (p, h) = elim (Bool-cases (contains x seen)) [
  | inl e ↦ rw e (distinct_from-All P seen xs h)
  | inr e ↦ rw e (p, distinct_from-All P (x ∷ seen) xs h)
]

-- Whatever is typed, the endpoints that are read from it are not empty, hold no white space and no comma,
-- be it plain or full-width, and are listed once each.
pub parsed_manual-IsEndpoint :
    (text : Text) → All IsEndpoint (parsed_manual text) × NoDup (parsed_manual text)
unfolding parsed_manual
parsed_manual-IsEndpoint text = (
  distinct_from-All IsEndpoint [] (parts_from [] text) (parts_from-IsEndpoint [] text tt),
  distinct-NoDup (parts_from [] text),
)

-- While the creation of a selection for a scope and group is kept, a second run of the effect for them
-- waits for the same promise and creates no other selection.
pub target_start_shared :
    (fresh other promise : ℕ) (asked : Option Text) (s : CreatePage)
    → (target_start fresh s).1 ≡ await_creation promise (some asked)
    → (target_start other (target_leave (target_start fresh s).2)).1 ≡ await_creation promise none
unfolding target_start target_leave kept_promise resolve_start
target_start_shared fresh other promise asked s h = ground (arith, ===_refl (creation_key s))

-- An answer for a run of the effect that is no longer the latest one changes nothing, be it of a
-- selection that is read or of one that was created.
pub creation_answer_stale :
    (id : ℕ) (key : Text) (scope : Scope) (next : ServerSelection) (a : Answer ServerSelection)
    (s : CreatePage)
    → id ≢ s.request
    → (poll_answer id a s ≡ (false, s))
      × (creation_answer id key scope (answered next) s ≡ (false, s))
unfolding poll_answer creation_answer
creation_answer_stale id key scope next (answered other) s h = (ground arith, ground arith)
creation_answer_stale id key scope next (refused message) s h = (ground arith, ground arith)

scope_of_address :
    (next : Scope) (params : Params)
    → same_scope next unchosen ≡ false
    → get (codes "scope") params ≡ some (scope_text next)
    → address_scope params ≡ next
unfolding address_scope same_scope ◌===◌
scope_of_address unchosen params h e = absurd (ground arith)
scope_of_address selected params h e = rw e refl
scope_of_address group params h e = rw e refl
scope_of_address manual params h e = rw e refl
scope_of_address all_servers params h e = rw e refl
scope_of_address selection params h e = rw e refl

kept_scope :
    (next : Scope) (params : Params)
    → same_scope next unchosen ≡ false
    → get (codes "scope") (change_scope_params next params) ≡ some (scope_text next)
unfolding change_scope_params same_scope ◌===◌
kept_scope unchosen params h = absurd (ground arith)
kept_scope selected params h = rw (get-delete, get-put) refl
kept_scope group params h = rw get-put refl
kept_scope manual params h = rw (get-delete, get-put) refl
kept_scope all_servers params h = rw (get-delete, get-put) refl
kept_scope selection params h = rw (get-delete, get-put) refl

mode_of_address :
    (mode : Mode) (params : Params)
    → get (codes "mode") params ≡ some (mode_text mode)
    → read_mode params ≡ mode
unfolding read_mode ◌===◌
mode_of_address full params e = rw e refl
mode_of_address route params e = rw e refl
mode_of_address connectivity params e = rw e refl
mode_of_address speed params e = rw e refl

-- The address gives back the scope that was chosen, unless it is the empty one, and the mode that was
-- chosen.
pub follow_address-change_scope :
    (next : Scope) (mode : Mode) (s : CreatePage)
    → same_scope next unchosen ≡ false
    → ((follow_address (change_scope next s)).scope ≡ next)
      × (read_mode (change_mode mode s).params ≡ mode)
unfolding follow_address change_scope change_mode ◌===◌
follow_address-change_scope next mode s h = (
  scope_of_address next (change_scope_params next s.params) h (kept_scope next s.params h),
  mode_of_address mode (put (codes "mode") (mode_text mode) s.params) (rw get-put refl),
)
