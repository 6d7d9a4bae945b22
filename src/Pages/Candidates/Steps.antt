-- ===== src/Pages/Candidates/Steps.antt =====
-- The dialog in every order of edits, changes, calls and answers. A change of what the effect depends on
-- runs the cleanup of the effect before an answer arrives; a run without a change stands for another
-- domain.
use frpc_multi.Base.Answers.{Answer}
use frpc_multi.Base.Assoc.{nat_eq, contains}
use frpc_multi.Base.Text.{Text, ◌===◌, trim}
use frpc_multi.Servers.Query.{ServerConn}
use frpc_multi.Pages.Candidates.Library.{
  Library, LibraryPage, LibraryTicket, is_cursor, take_query, change_conn, back_page, next_page,
  library_start, library_leave, library_answer,
}
use frpc_multi.Pages.Candidates.Trail.{
  IsValid, IsCurrent, kept, stepped, IsTrail-append, end_of-append, library_answer-IsValid,
  library_start-IsValid, library_start-IsCurrent,
}
use mathlib.Core.Path.{◌≡◌, refl, sym, ◌∙◌}
use mathlib.Core.Logic.{inl, inr}
use mathlib.Core.Bool.{true, not, ◌||◌}
use mathlib.Core.Option.{Option, none, some}
use native.Mathlib.Omega.{arith}
use frpc_multi.Base.Tests.{leb, ◌==◌, Bool-cases}
use frpc_multi.Base.Lists.{length}

-- The query that is typed is taken over, another state is chosen, or the page is turned.
pub data Change : Type 0 where
  adopt : Change
  choose : ServerConn → Change
  back next : Change

-- The dialog with the call that waits for its answer, if there is one that was not aborted.
pub record World (D : Type 0) : Type 0 where
  pub state : Library D
  pub live : Option LibraryTicket

module _ {D : Type 0} where
  unfoldable pub run_change : Change → Library D → Library D
  run_change adopt s = take_query s
  run_change (choose conn) s = change_conn conn s
  run_change back s = back_page s
  run_change next s = next_page s

  abbrev pub leave_live : Option LibraryTicket → Library D → Library D
  leave_live none s = s
  leave_live (some t) s = library_leave t s

  pub data Step : World D → World D → Type 0 where
    type :
        (text : Text) (w : World D)
        → Step w (record w { state = record w.state { query_text = text } })
    change :
        (c : Change) (w : World D)
        → Step w (record { state = leave_live w.live (run_change c w.state); live = none })
    call :
        (s : Library D)
        → Step
            (record { state = s; live = none })
            (record { state = (library_start s).1; live = some (library_start s).0 })
    arrive :
        (t : LibraryTicket) (a : Answer (LibraryPage D)) (s : Library D)
        → Step
            (record { state = s; live = some t })
            (record { state = library_answer t a s; live = none })
    late :
        (t : LibraryTicket) (a : Answer (LibraryPage D)) (w : World D)
        → contains t.request w.state.aborted ≡ true
        → Step w (record w { state = library_answer t a w.state })

  pub data Reach (w : World D) : World D → Type 0 where
    here : Reach w w
    more : {u v : World D} → Reach w u → Step u v → Reach w v

  -- The call that waits was made for the page that is shown.
  abbrev pub IsLive : Option LibraryTicket → Library D → Type 0
  IsLive none s = Unit
  IsLive (some t) s = IsCurrent t s

  run_change-IsValid : (c : Change) (s : Library D) → IsValid s → IsValid (run_change c s)
  unfolding run_change take_query change_conn back_page next_page
  run_change-IsValid adopt s v = elim (Bool-cases (trim s.query_text === s.query)) [
    | inl e ↦ rw e v
    | inr e ↦ rw e record { trail = (refl, tt); shown = refl; past = v.past }
  ]
  run_change-IsValid (choose conn) s v = record { trail = (refl, tt); shown = refl; past = v.past }
  run_change-IsValid back s v =
      elim (Bool-cases (leb (length s.cursor_trail) 1 || s.library_loading)) [
        | inl e ↦ rw e v
        | inr e ↦ rw e (stepped s _ (ground arith) refl refl refl refl v)
      ]
  run_change-IsValid next s v =
      elim (Bool-cases (s.library_loading || not (is_cursor s.library_next_cursor))) [
        | inl e ↦ rw e v
        | inr e ↦ rw e record {
          trail = IsTrail-append s.cursor_trail s.library_next_cursor (ground arith) v.trail;
          shown = sym (end_of-append s.cursor_trail s.library_next_cursor);
          past = v.past;
        }
      ]

  run_change-request :
      (c : Change) (s : Library D) → (run_change c s).library_request ≡ s.library_request
  unfolding run_change take_query change_conn back_page next_page
  run_change-request adopt s = ground arith
  run_change-request (choose conn) s = refl
  run_change-request back s = ground arith
  run_change-request next s = ground arith

  leave_live-IsValid :
      (o : Option LibraryTicket) (c : Change) (s : Library D)
      → IsLive o s
      → IsValid (run_change c s)
      → IsValid (leave_live o (run_change c s))
  unfolding library_leave
  leave_live-IsValid none c s l v = v
  leave_live-IsValid (some t) c s l v = record {
    trail = v.trail;
    shown = v.shown;
    past = (omega (arith, l.past, run_change-request c s), v.past);
  }

  library_answer-aborted :
      (t : LibraryTicket) (a : Answer (LibraryPage D)) (s : Library D)
      → contains t.request s.aborted ≡ true
      → let s' = library_answer t a s in
        (s'.cursor_trail ≡ s.cursor_trail)
        × (s'.library_cursor ≡ s.library_cursor)
        × (s'.library_request ≡ s.library_request)
        × (s'.aborted ≡ s.aborted)
  unfolding library_answer
  library_answer-aborted t a s h = elim (Bool-cases (t.request == s.library_request)) [
    | inl e ↦ rw (e, h) (refl, refl, refl, refl)
    | inr e ↦ rw (e, h) (refl, refl, refl, refl)
  ]

  kept-IsLive :
      (o : Option LibraryTicket) (s u : Library D)
      → u.cursor_trail ≡ s.cursor_trail
      → u.library_cursor ≡ s.library_cursor
      → u.library_request ≡ s.library_request
      → IsLive o s
      → IsLive o u
  kept-IsLive none s u a b c l = tt
  kept-IsLive (some t) s u a b c l = record {
    cursor = l.cursor ∙ sym b;
    trail = l.trail ∙ sym a;
    past = omega (arith, l.past);
  }

  abbrev IsSound : World D → Type 0
  IsSound w = IsValid w.state × IsLive w.live w.state

  Step-IsSound : {w v : World D} → Step w v → IsSound w → IsSound v
  Step-IsSound (type text w) (v, l) =
      (kept w.state _ refl refl refl refl v, kept-IsLive w.live w.state _ refl refl refl l)
  Step-IsSound (change c w) (v, l) =
      (leave_live-IsValid w.live c w.state l (run_change-IsValid c w.state v), tt)
  Step-IsSound (call s) (v, l) = (library_start-IsValid s v, library_start-IsCurrent s)
  Step-IsSound (arrive t a s) (v, l) = (library_answer-IsValid t a s l v, tt)
  Step-IsSound (late t a w h) (v, l) =
      let (trail, cursor, request, aborted) = library_answer-aborted t a w.state h in
      (
        kept w.state _ trail cursor request aborted v,
        kept-IsLive w.live w.state _ trail cursor request l,
      )

  Reach-IsSound : {w v : World D} → IsSound w → Reach w v → IsSound v
  Reach-IsSound s here = s
  Reach-IsSound s (more r st) = Step-IsSound st (Reach-IsSound s r)

  -- If the dialog is valid, that is, its trail starts at the first page, has cursors behind it, and ends at
  -- the page that is shown, and no call from the future is aborted, and if a call that waits was made for
  -- that page, then the dialog is valid after every order of edits, changes, page turns, calls and
  -- answers in which a change aborts the call that waits before its answer arrives.
  pub Reach-IsValid :
      {w v : World D} → IsValid w.state → IsLive w.live w.state → Reach w v → IsValid v.state
  Reach-IsValid v l r = (Reach-IsSound (v, l) r).0
