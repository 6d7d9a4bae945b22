-- ===== src/Session/Tests.antt =====
-- The theorems on sign-ins and requests at concrete inputs.
use mathlib.Core.Path.{◌≡◌, refl}
use mathlib.Core.Option.{Option, none, some}
use mathlib.Core.List.{[]}
use frpc_multi.Base.Tests.{ltb, if◌then◌else◌}
use frpc_multi.Base.Text.{Text, codes}
use frpc_multi.Session.{
  AuthState, Session, ErrorBody, Response, load_auth, save_auth, clear_auth, no_detail,
}
use frpc_multi.Session.Laws.{load_auth-save_auth}

abbrev auth : AuthState
auth = record { token = codes "t"; username = codes "admin"; expires_at = 10 }

abbrev session : Session
session = record { stored = none; current_token = none; notified = 0 }

load_auth-save_auth_example :
    (load_auth 9999 (save_auth auth session) ≡ (if ltb 9999 10000 then some auth else none))
    × (load_auth 9999 (clear_auth (save_auth auth session)) ≡ none)
load_auth-save_auth_example = load_auth-save_auth auth 9999 session refl

abbrev parse : Text → Option ErrorBody
parse t = some (record { detail = no_detail; message = some t })

abbrev response : Response
response = record {
  status = 401;
  status_text = [];
  content_type = some (codes "application/json");
  body = codes "{}";
}
