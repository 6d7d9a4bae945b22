-- ===== src/Servers/Cursor/Laws.antt =====
-- Going on and back behind a cursor.
use Prim.Native.Nat.{suc, ◌+◌, ◌≤◌, ◌<◌}
use mathlib.Core.Path.{◌≡◌, refl, sym, ap, ◌∙◌, subst}
use mathlib.Core.Bool.{true, false}
use mathlib.Core.Option.{Option, none, some}
use mathlib.Core.List.{List, [], ◌∷◌, ◌++◌}
use native.Mathlib.Omega.{arith}
use frpc_multi.Base.Tests.{or_else}
use frpc_multi.Base.Lists.{length, take, is_empty, last?, length-append}
use frpc_multi.Base.Text.{Text, ===_refl}
use frpc_multi.Servers.Cursor.{
  CursorState, last_index_of, cursor_index, next, previous, navigate_cursor, truthy,
}

last_index_of-snoc :
    (c : Text) (trail : List Text) → last_index_of c (trail ++ c ∷ []) ≡ some (length trail)
unfolding last_index_of
last_index_of-snoc c [] = ground (arith, ===_refl c)
last_index_of-snoc c (d ∷ trail) = rw (last_index_of-snoc c trail)

take_all :
    (trail : List Text) (c : Text) → take (suc (length trail)) (trail ++ c ∷ []) ≡ trail ++ c ∷ []
take_all [] c = refl
take_all (d ∷ trail) c = ap (◌∷◌ d) (take_all trail c)

take_front : (trail rest : List Text) → take (length trail) (trail ++ rest) ≡ trail
take_front [] rest = refl
take_front (d ∷ trail) rest = ap (◌∷◌ d) (take_front trail rest)

last?-snoc : (trail : List Text) (c : Text) → last? (trail ++ c ∷ []) ≡ some c
last?-snoc [] c = refl
last?-snoc (d ∷ []) c = refl
last?-snoc (d ∷ e ∷ trail) c = last?-snoc (e ∷ trail) c

-- The trail ends with the cursor of the page that is shown, and no cursor but the first is empty.
pub record IsAtEnd (s : CursorState) : Type 0 where
  pub front : List Text
  pub trail_is : s.trail ≡ front ++ or_else s.query.cursor [] ∷ []
  pub cursor_given : truthy s.query.cursor ≡ s.query.cursor
  pub page_pos : 1 ≤ s.query.page

-- The answer names a further page.
pub record HasNext (s : CursorState) (c : Text) : Type 0 where
  pub more : s.has_more ≡ true
  pub named : s.next_cursor ≡ some c
  pub not_nil : is_empty c ≡ false

index_at_end : (s : CursorState) (e : IsAtEnd s) → cursor_index s ≡ length e.front
unfolding cursor_index
index_at_end s e = rw (e.trail_is, last_index_of-snoc (or_else s.query.cursor []) e.front)

truthy-some : (c : Text) → is_empty c ≡ false → truthy (some c) ≡ some c
truthy-some [] h = cc
truthy-some (x ∷ c) h = refl

take_kept : (s : CursorState) (e : IsAtEnd s) → take (suc (cursor_index s)) s.trail ≡ s.trail
take_kept s e =
    ap (λ i. take (suc i) s.trail) (index_at_end s e)
    ∙ subst (λ t. take (suc (length e.front)) t ≡ t) (sym e.trail_is)
        (take_all e.front (or_else s.query.cursor []))

next_lem :
    (s : CursorState) (c : Text)
    → IsAtEnd s
    → HasNext s c
    → navigate_cursor next s ≡ record s {
      trail = s.trail ++ c ∷ [];
      stored = some (s.trail ++ c ∷ []);
      push_url = true;
      query = record s.query { page = s.query.page + 1; cursor = some c };
    }
unfolding navigate_cursor
next_lem s c e h = ground (arith, truthy-some c h.not_nil, take_kept s e)

length-trail : (s : CursorState) (e : IsAtEnd s) → 0 < length s.trail
length-trail s e =
    rw (e.trail_is) (omega (arith, length-append {0} e.front (or_else s.query.cursor [] ∷ [])))

-- The state behind the step to cursor `c`.
abbrev beyond : CursorState → Text → CursorState
beyond s c = record s {
  trail = s.trail ++ c ∷ [];
  stored = some (s.trail ++ c ∷ []);
  push_url = true;
  query = record s.query { page = s.query.page + 1; cursor = some c };
}

index_beyond : (s : CursorState) (c : Text) → cursor_index (beyond s c) ≡ length s.trail
unfolding cursor_index
index_beyond s c = rw (last_index_of-snoc c s.trail)

last_cursor : (s : CursorState) (e : IsAtEnd s) → truthy (last? s.trail) ≡ s.query.cursor
last_cursor s e =
    rw (e.trail_is, last?-snoc e.front (or_else s.query.cursor []))
      (cursor_back (s.query.cursor) e.cursor_given)
  where
    cursor_back : (c : Option Text) → truthy c ≡ c → truthy (some (or_else c [])) ≡ c
    cursor_back none h = refl
    cursor_back (some c) h = h

previous_beyond :
    (s : CursorState) (c : Text)
    → IsAtEnd s
    → navigate_cursor previous (beyond s c) ≡ record s { stored = some s.trail; push_url = true }
unfolding navigate_cursor
previous_beyond s c e = ground (
  arith,
  index_beyond s c,
  length-trail s e,
  take_front s.trail (c ∷ []),
  last_cursor s e,
  e.page_pos,
)

-- From a page whose cursor ends the trail, if there is a next page, going on and then back shows the
-- same query, page number, cursor and trail; only the stored trail and the push flag are written.
pub previous-next :
    (s : CursorState) (c : Text)
    → IsAtEnd s
    → HasNext s c
    → navigate_cursor previous (navigate_cursor next s)
      ≡ record s { stored = some s.trail; push_url = true }
previous-next s c e h = ap (navigate_cursor previous) (next_lem s c e h) ∙ previous_beyond s c e
