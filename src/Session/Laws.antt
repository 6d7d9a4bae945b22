-- ===== src/Session/Laws.antt =====
-- A sign-in lasts until it expires, and what a response means for it.
use Prim.Native.Nat.{ℕ, ◌*◌}
use mathlib.Core.Path.{◌≡◌, refl}
use mathlib.Core.Bool.{Bool, true, false}
use mathlib.Core.Option.{Option, none, some}
use native.Mathlib.Omega.{arith}
use frpc_multi.Base.Tests.{ltb, ◌==◌, if◌then◌else◌}
use frpc_multi.Base.Lists.{is_empty}
use frpc_multi.Base.Text.{Text}
use frpc_multi.Session.{
  AuthState, Session, ErrorBody, Response, Outcome, load_auth, save_auth, clear_auth,
  notify_unauthorized, api_answer, is_ok, json_value, text_value, no_value, auth_error,
  request_error,
}

-- A saved sign-in with a token is loaded, unchanged, until the second in which it expires, not from
-- then on, and not after it was cleared.
pub load_auth-save_auth :
    (auth : AuthState) (now : ℕ) (s : Session)
    → is_empty auth.token ≡ false
    → (load_auth now (save_auth auth s)
        ≡ (if ltb now (auth.expires_at * 1000) then some auth else none))
      × (load_auth now (clear_auth (save_auth auth s)) ≡ none)
unfolding load_auth save_auth clear_auth
load_auth-save_auth auth now s h = (ground arith, refl)

abbrev pub is_value : Outcome → Bool
is_value (json_value body) = true
is_value (text_value body) = true
is_value no_value = true
is_value auth_error = false
is_value (request_error message) = false

-- A request gives a value exactly if the status of its response is from 200 to 299, and it reports a
-- lost sign-in, once, exactly if that status is 401.
pub api_answer_lem :
    (parse : Text → Option ErrorBody) (response : Response) (s : Session)
    → let (outcome, s') = api_answer parse response s in
      (is_value outcome ≡ is_ok response.status)
      × (s' ≡ (if response.status == 401 then notify_unauthorized s else s))
unfolding api_answer
api_answer_lem parse response s = (ground arith, ground arith)
