-- ===== src/Session.antt =====
-- webui/frontend/src/lib/auth.ts and `extractMessage` and `api` of lib/api.ts: the stored sign-in, and
-- one request, cut at `fetch`. The stored text is taken as what `JSON.parse` makes of it, and a body as
-- what the code reads of its JSON.
pub mod Laws
pub mod Tests
use Prim.Native.Nat.{ℕ, ◌+◌, ◌*◌}
use mathlib.Core.Bool.{Bool, false, not, ◌&&◌, ◌||◌}
use mathlib.Core.Option.{Option, none, some}
use mathlib.Core.List.{List, [], ◌++◌}
use native.Mathlib.Omega.{arith}
use frpc_multi.Base.Tests.{ltb, leb, ◌==◌, if◌then◌else◌, or_else, is_some}
use frpc_multi.Base.Lists.{is_empty}
use frpc_multi.Base.Text.{Text, codes, ◌===◌, trim, join}
use frpc_multi.Base.Assoc.{text_eq, get, put}
use frpc_multi.Domains.{includes}

pub record AuthState : Type 0 where
  pub token : Text
  pub username : Text
  pub expires_at : ℕ

-- The storage, `currentToken`, and how often the handler of `notifyUnauthorized` was called.
pub record Session : Type 0 where
  pub stored : Option AuthState
  pub current_token : Option Text
  pub notified : ℕ

-- `now` is `Date.now()`, in milliseconds; `expires_at` is in seconds.
unfoldable pub load_auth : ℕ → Session → Option AuthState
load_auth now s = elim s.stored [
  | none ↦ none
  | some auth ↦
      if is_empty auth.token || auth.expires_at == 0
      then none
      else if leb (auth.expires_at * 1000) now
      then none
      else some auth
]

unfoldable pub save_auth : AuthState → Session → Session
save_auth auth s = record s { stored = some auth }

unfoldable pub clear_auth : Session → Session
clear_auth s = record s { stored = none }

unfoldable pub set_auth_token : Option Text → Session → Session
set_auth_token token s = record s { current_token = token }

unfoldable pub notify_unauthorized : Session → Session
notify_unauthorized s = record s { notified = s.notified + 1 }

-- What `extractMessage` reads of a JSON value: its `detail` and its `message`, if that is a text.
pub data Detail : Type 0 where
  no_detail : Detail
  text_detail : Text → Detail
  object_detail : (errors : List Text) (stderr : Option Text) → Detail

pub record ErrorBody : Type 0 where
  pub detail : Detail
  pub message : Option Text

-- The texts behind the test on `detail`.
abbrev pub message_or : Option Text → Text → Text
message_or none text = text
message_or (some message) text = message

abbrev pub stderr_or : Option Text → Text → Text
stderr_or none text = text
stderr_or (some stderr) text = if is_empty (trim stderr) then text else trim stderr

-- `parse` stands for `JSON.parse`, with `none` for its exception.
unfoldable pub extract_message : (Text → Option ErrorBody) → Text → Text → Text
extract_message parse text fallback = if is_empty text then fallback else elim (parse text) [
  | none ↦ text
  | some body ↦
      let other = message_or body.message text in
      elim body.detail [
        | no_detail ↦ other
        | text_detail t ↦ t
        | object_detail errors stderr ↦
            if is_empty errors then stderr_or stderr other else join (codes "；") errors
      ]
]

-- `RequestInit`; `body` is a body that is a text.
pub record RequestInit : Type 0 where
  pub method : Option Text
  pub body : Option Text
  pub headers : List (Text × Text)

-- A value that is there and not the empty text.
abbrev pub filled : Option Text → Bool
filled none = false
filled (some t) = not (is_empty t)

abbrev pub is_write : Option Text → Bool
is_write none = false
is_write (some method) = not (is_empty method) && not (method === codes "GET")

unfoldable pub request_headers : RequestInit → Option Text → List (Text × Text)
request_headers init token =
    let typed =
      if not (filled (get (codes "Content-Type") init.headers))
        && is_write init.method
        && is_some init.body
      then put (codes "Content-Type") (codes "application/json") init.headers
      else init.headers in
    elim token [
      | none ↦ typed
      | some t ↦
          if is_empty t then typed else put (codes "Authorization") (codes "Bearer " ++ t) typed
    ]

pub record Response : Type 0 where
  pub status : ℕ
  pub status_text : Text
  pub content_type : Option Text
  pub body : Text

-- The promise of `api`: a body to read as JSON or as a text, nothing, or one of its two errors.
pub data Outcome : Type 0 where
  json_value : Text → Outcome
  text_value : Text → Outcome
  no_value : Outcome
  auth_error : Outcome
  request_error : Text → Outcome

-- `response.ok`
abbrev pub is_ok : ℕ → Bool
is_ok status = leb 200 status && ltb status 300

-- `api` behind `fetch`.
unfoldable pub api_answer : (Text → Option ErrorBody) → Response → Session → Outcome × Session
api_answer parse response s =
    let fallback = if is_empty response.status_text then codes "请求失败" else response.status_text in
    if response.status == 401
    then (auth_error, notify_unauthorized s)
    else if not (is_ok response.status)
    then (request_error (extract_message parse response.body fallback), s)
    else if response.status == 204
    then (no_value, s)
    else if includes (codes "application/json") (or_else response.content_type [])
    then (json_value response.body, s)
    else (text_value response.body, s)
