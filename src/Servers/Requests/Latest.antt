-- ===== src/Servers/Requests/Latest.antt =====
-- The races between the page requests: every order of calls, answers, hidden tabs and changes of
-- the query.
use Prim.Native.Nat.{ℕ, ◌≤◌}
use mathlib.Core.Path.{◌≡◌, refl}
use mathlib.Core.Logic.{◌≢◌, ◌⊎◌, inl, inr}
use mathlib.Core.Bool.{Bool, true, false}
use mathlib.Core.Option.{Option, none, some}
use mathlib.Core.List.{List, ◌∷◌, ◌++◌, []}
use native.Mathlib.Omega.{arith}
use frpc_multi.Base.Tests.{◌==◌}
use frpc_multi.Base.Lists.{any, All, All-map, All-drop_mid}
use frpc_multi.Base.Assoc.{nat_eq, contains}
use frpc_multi.Servers.Query.{ServerQuery}
use frpc_multi.Servers.Requests.{
  Answer, answered, aborted, failed, PageAnswer, server_page, PageState, Ticket, page_start,
  page_handle, page_answer, page_hide, page_accept,
}

module _ {D : Type 0} where
  -- For every answer whose request is not the latest one, the state stays as it is: page, cursor,
  -- query, error message and loading flag.
  pub page_answer_stale :
      (t : Ticket) (recover : Bool) (a : Answer (PageAnswer D)) (s : PageState D)
      → t.generation ≢ s.generation
      → page_answer t recover a s ≡ s
  unfolding page_answer page_handle
  page_answer_stale t recover (answered next) s h = ground arith
  page_answer_stale t recover aborted s h = ground arith
  page_answer_stale t recover (failed message) s h = ground arith

  -- A page that arrives for a request whose controller was aborted leaves the page that is shown, the
  -- query and the error message alone.
  pub page_answer_aborted :
      (t : Ticket) (recover : Bool) (next : PageAnswer D) (s : PageState D)
      → contains t.generation s.aborted_controllers ≡ true
      → ((page_answer t recover (answered next) s).page ≡ s.page)
        × ((page_answer t recover (answered next) s).query ≡ s.query)
        × ((page_answer t recover (answered next) s).error ≡ s.error)
  unfolding page_answer page_handle
  page_answer_aborted t recover next s h = (ground arith, ground arith, ground arith)

-- The component with the calls that wait for an answer.
pub record World (D : Type 0) : Type 0 where
  pub state : PageState D
  pub flight : List Ticket

abbrev pub in_flight : ℕ → List Ticket → Bool
in_flight g ts = any (λ t. t.generation == g) ts

abbrev launch : Option Ticket → List Ticket → List Ticket
launch none ts = ts
launch (some t) ts = t ∷ ts

in_flight-drop_mid :
    (g : ℕ) (before after : List Ticket) (t : Ticket)
    → t.generation ≢ g
    → in_flight g (before ++ t ∷ after) ≡ true
    → in_flight g (before ++ after) ≡ true
in_flight-drop_mid g [] after t h k = ground arith
in_flight-drop_mid g (u ∷ before) after t h k =
    ground (arith, in_flight-drop_mid g before after t h)

module _ {D : Type 0} where
  pub data Step : World D → World D → Type 0 where
    call :
        (visible : Bool) (w : World D)
        → Step w (record {
          state = (page_start visible w.state).1;
          flight = launch (page_start visible w.state).0 w.flight;
        })
    answer :
        (before after : List Ticket) (t : Ticket) (recover : Bool) (a : Answer (PageAnswer D))
        (s : PageState D)
        → Step
            (record { state = s; flight = before ++ t ∷ after })
            (record { state = page_answer t recover a s; flight = before ++ after })
    hide : (w : World D) → Step w (record w { state = page_hide w.state })
    change :
        (q : ServerQuery) (w : World D) → Step w (record w { state = record w.state { query = q } })

  pub data Reach (w : World D) : World D → Type 0 where
    here : Reach w w
    more : {u v : World D} → Reach w u → Step u v → Reach w v

  abbrev IsPast : PageState D → Ticket → Type 0
  IsPast s t =
      (t.generation ≤ s.generation)
      × ((t.generation ≡ s.generation) ⊎ (contains t.generation s.aborted_controllers ≡ true))

  -- No call is from the future, every call but the latest has been aborted, and the loading flag is
  -- only up while the latest call, if there is one, waits for its answer.
  pub record IsOrdered (w : World D) : Type 0 where
    pub past : All (IsPast w.state) w.flight
    pub flag :
        w.state.loading ≡ true
        → (w.state.generation ≡ 0) ⊎ (in_flight w.state.generation w.flight ≡ true)

  page_start-IsPast :
      (visible : Bool) (s : PageState D) (t : Ticket)
      → IsPast s t
      → IsPast (page_start visible s).1 t
  unfolding page_start contains
  page_start-IsPast false s t h = h
  page_start-IsPast true s t h = (omega arith, ground arith)

  page_handle_keeps :
      (t : Ticket) (recover : Bool) (a : Answer (PageAnswer D)) (s : PageState D)
      → ((page_handle t recover a s).generation ≡ s.generation)
        × ((page_handle t recover a s).aborted_controllers ≡ s.aborted_controllers)
  unfolding page_handle page_accept
  page_handle_keeps t recover (answered (server_page next)) s = ground arith
  page_handle_keeps t recover (answered _) s = ground arith
  page_handle_keeps t recover aborted s = ground arith
  page_handle_keeps t recover (failed message) s = ground arith

  page_answer_keeps :
      (t : Ticket) (recover : Bool) (a : Answer (PageAnswer D)) (s : PageState D)
      → ((page_answer t recover a s).generation ≡ s.generation)
        × ((page_answer t recover a s).aborted_controllers ≡ s.aborted_controllers)
  unfolding page_answer
  page_answer_keeps t recover a s = ground (arith, page_handle_keeps t recover a s)

  page_answer_flag :
      (t : Ticket) (recover : Bool) (a : Answer (PageAnswer D)) (s : PageState D)
      → (page_answer t recover a s).loading ≡ true
      → t.generation ≢ s.generation
  unfolding page_answer
  page_answer_flag t recover a s h same = ground (arith, page_handle_keeps t recover a s)

  page_answer-IsPast :
      (t u : Ticket) (recover : Bool) (a : Answer (PageAnswer D)) (s : PageState D)
      → IsPast s u
      → IsPast (page_answer t recover a s) u
  page_answer-IsPast t u recover a s h =
      let (same, kept) = page_answer_keeps t recover a s in (rw same h.0, rw (same, kept) h.1)

  waits :
      (before after : List Ticket) (t : Ticket) (s : PageState D)
      → t.generation ≢ s.generation
      → (s.generation ≡ 0) ⊎ (in_flight s.generation (before ++ t ∷ after) ≡ true)
      → (s.generation ≡ 0) ⊎ (in_flight s.generation (before ++ after) ≡ true)
  waits before after t s stale (inl e) = inl e
  waits before after t s stale (inr e) =
      inr (in_flight-drop_mid s.generation before after t stale e)

  page_hide-IsPast : (s : PageState D) (t : Ticket) → IsPast s t → IsPast (page_hide s) t
  unfolding page_hide contains
  page_hide-IsPast s t h = (h.0, ground arith)

  hide_flag :
      (w : World D)
      → IsOrdered w
      → (page_hide w.state).loading ≡ true
      → ((page_hide w.state).generation ≡ 0)
        ⊎ (in_flight (page_hide w.state).generation w.flight ≡ true)
  unfolding page_hide
  hide_flag w o = o.flag

  pub Step-IsOrdered : {w v : World D} → Step w v → IsOrdered w → IsOrdered v
  unfolding page_start
  Step-IsOrdered (call false w) o = o
  Step-IsOrdered (call true w) o = record {
    past = (
      (omega arith, inl refl),
      All-map (IsPast w.state) (IsPast (page_start true w.state).1) (page_start-IsPast true w.state)
          w.flight o.past,
    );
    flag = λ _. inr (ground arith);
  }
  Step-IsOrdered (answer before after t recover a s) o = record {
    past =
        All-map (IsPast s) (IsPast (page_answer t recover a s))
          (λ u. page_answer-IsPast t u recover a s) (before ++ after)
          (All-drop_mid (IsPast s) before after t o.past);
    flag = λ up.
        let stale = page_answer_flag t recover a s up in
        let same = page_answer_stale t recover a s stale in
        rw same (waits before after t s stale (o.flag (rw same at up)));
  }
  Step-IsOrdered (hide w) o = record {
    past =
        All-map (IsPast w.state) (IsPast (page_hide w.state)) (page_hide-IsPast w.state) w.flight
          o.past;
    flag = hide_flag w o;
  }
  Step-IsOrdered (change q w) o = record { past = o.past; flag = o.flag }

  -- Every order of calls, answers, hidden tabs and changes of the query keeps the requests ordered: no
  -- call is from the future, every call but the latest has been aborted, and the loading flag is up only
  -- while the latest call waits for its answer or before any call.
  pub Reach-IsOrdered : {w v : World D} → IsOrdered w → Reach w v → IsOrdered v
  Reach-IsOrdered o here = o
  Reach-IsOrdered o (more r st) = Step-IsOrdered st (Reach-IsOrdered o r)
