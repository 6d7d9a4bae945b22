-- ===== src/Pages/LbPage/Dialog.antt =====
-- webui/frontend/src/pages/LbPage.tsx: the dialogs of the domain page and the card of the Cloudflare
-- token. `lower` is `toLowerCase`.
use frpc_multi.Base.Text.{Text, trim, ◌===◌, codes}
use frpc_multi.Base.Answers.{Answer, answered, refused}
use frpc_multi.Base.Decimal.{decimal}
use frpc_multi.Base.Digits.{read_digits}
use frpc_multi.Domains.{LbDomain, SyncMode, by_hand, scheduled}
use frpc_multi.Pages.CreateInstance.{is_number_text}
use frpc_multi.Pages.LbPage.{CloudflareZone}
use Prim.Native.Nat.{ℕ, ◌+◌, ◌-◌, ◌*◌, ◌/◌}
use mathlib.Core.Bool.{Bool, true, false, not, ◌&&◌, ◌||◌}
use mathlib.Core.Option.{Option, none, some}
use mathlib.Core.List.{List, [], ◌∷◌}
use frpc_multi.Base.Tests.{ltb, leb, if◌then◌else◌}
use frpc_multi.Base.Lists.{is_empty}

-- `CloudflareCard`
pub record TokenCard : Type 0 where
  pub token : Text
  pub verifying : Bool
  pub saving : Bool

-- `save` up to its first `await`, with the token that it sends, and behind it.
unfoldable pub save_token_start : TokenCard → Option Text × TokenCard
save_token_start s =
    if is_empty (trim s.token) then (none, s) else (some (trim s.token), record s { saving = true })

-- The token is saved, and verified while the card still saves.
unfoldable pub save_token_answer : Answer Unit → TokenCard → Bool × TokenCard
save_token_answer (answered info) s = (true, record s { token = []; verifying = true })
save_token_answer (refused message) s = (false, record s { saving = false })

unfoldable pub verify_start : TokenCard → TokenCard
verify_start s = record s { verifying = true }

unfoldable pub verify_answer :
    Answer (List CloudflareZone) → List CloudflareZone → TokenCard → List CloudflareZone × TokenCard
verify_answer (answered zones) old s = (zones, record s { verifying = false })
verify_answer (refused message) old s = (old, record s { verifying = false })

unfoldable pub save_token_end : TokenCard → TokenCard
save_token_end s = record s { saving = false }

-- `DomainDialog`
pub record Dialog : Type 0 where
  pub zone_id : Text
  pub name : Text
  pub ttl : Text
  pub mode : SyncMode
  pub interval : Text
  pub enabled : Bool
  pub saving : Bool
  pub zone_list : List CloudflareZone

-- `Math.round(seconds / 60)`
abbrev pub rounded_minutes : ℕ → ℕ
rounded_minutes seconds = (seconds + 30) / 60

unfoldable pub open_dialog : Option LbDomain → List CloudflareZone → Dialog
open_dialog none zones = record {
  zone_id = [];
  name = [];
  ttl = decimal 60;
  mode = by_hand;
  interval = decimal (rounded_minutes 300);
  enabled = true;
  saving = false;
  zone_list = zones;
}
open_dialog (some domain) zones = record {
  zone_id = domain.zone_id;
  name = domain.name;
  ttl = decimal domain.ttl;
  mode = domain.sync_mode;
  interval = decimal (rounded_minutes domain.interval_seconds);
  enabled = domain.enabled;
  saving = false;
  zone_list = zones;
}

unfoldable pub find_zone : Text → List CloudflareZone → Option CloudflareZone
find_zone id [] = none
find_zone id (zone ∷ zones) =
    let rest = find_zone id zones in if zone.id === id then some zone else rest

-- `text.endsWith(part)`
unfoldable pub has_suffix : Text → Text → Bool
has_suffix part [] = part === []
has_suffix part (c ∷ s) = (c ∷ s) === part || has_suffix part s

-- `Math.round(Number(t) * 60)` of a text that matches `^\d+(\.5)?$`
unfoldable pub seconds_from : ℕ → Text → Option ℕ
seconds_from acc [] = some (60 * acc)
seconds_from acc (c ∷ s) =
    let longer = seconds_from (acc * 10 + (c - 48)) s in
    if leb 48 c && leb c 57
    then longer
    else if (c ∷ s) === codes ".5"
    then some (60 * acc + 30)
    else none

unfoldable pub interval_seconds : Text → Option ℕ
interval_seconds [] = none
interval_seconds (c ∷ s) = if leb 48 c && leb c 57 then seconds_from 0 (c ∷ s) else none

unfoldable pub ttl_of : Text → Option ℕ
ttl_of t = elim (if is_number_text t then read_digits 0 t else none) [
  | none ↦ none
  | some n ↦ if ltb n 30 || ltb 3600 n then none else some n
]

abbrev pub is_scheduled : SyncMode → Bool
is_scheduled scheduled = true
is_scheduled by_hand = false

abbrev pub is_interval : Option ℕ → Bool
is_interval none = false
is_interval (some n) = not (ltb n 60) && not (ltb 86400 n)

-- The fields that both calls send. `interval_seconds` is `none` for a text outside of the form, which
-- only the manual mode sends.
pub record DomainInput : Type 0 where
  pub ttl : ℕ
  pub sync_mode : SyncMode
  pub interval_seconds : Option ℕ
  pub enabled : Bool

pub data DomainCall : Type 0 where
  update_domain : (id : ℕ) → DomainInput → DomainCall
  create_domain : (name zone_id zone_name : Text) → DomainInput → DomainCall

-- `none` is the error of reading the name of no zone.
abbrev call_for : Option LbDomain → Dialog → Option CloudflareZone → DomainInput → Option DomainCall
call_for (some domain) s chosen input = some (update_domain domain.id input)
call_for none s none input = none
call_for none s (some chosen) input = some (create_domain (trim s.name) s.zone_id chosen.name input)

unfoldable pub input_of : ℕ → Dialog → DomainInput
input_of ttl s = record {
  ttl = ttl;
  sync_mode = s.mode;
  interval_seconds = interval_seconds s.interval;
  enabled = s.enabled;
}

module _ (lower : Text → Text) where
  abbrev pub in_zone : Text → Option CloudflareZone → Bool
  in_zone name none = true
  in_zone name (some zone) =
      lower name === lower zone.name || has_suffix (b'.' ∷ lower zone.name) (lower name)

  -- The checks at the head of `submit`, with the fields to send.
  unfoldable pub checked_input : Dialog → Option DomainInput
  checked_input s =
      let seconds = interval_seconds s.interval in
      if is_empty s.zone_id
        || is_empty (trim s.name)
        || not (in_zone (trim s.name) (find_zone s.zone_id s.zone_list))
        || is_scheduled s.mode && not (is_interval seconds)
      then none
      else elim (ttl_of s.ttl) [ none ↦ none | some ttl ↦ some (input_of ttl s) ]

  -- `submit` up to its `await`.
  unfoldable pub submit_start : Option LbDomain → Dialog → Option DomainCall × Dialog
  submit_start domain s = elim (checked_input s) [
    | none ↦ (none, s)
    | some input ↦ elim (call_for domain s (find_zone s.zone_id s.zone_list) input) [
      | none ↦ (none, s)
      | some call ↦ (some call, record s { saving = true })
    ]
  ]

unfoldable pub submit_end : Dialog → Dialog
submit_end s = record s { saving = false }

-- `DeleteDomainDialog`
pub record DeleteDialog : Type 0 where
  pub remove_records : Bool
  pub deleting : Bool

unfoldable pub confirm_start : ℕ → DeleteDialog → (ℕ × Bool) × DeleteDialog
confirm_start id s = ((id, s.remove_records), record s { deleting = true })

unfoldable pub confirm_end : DeleteDialog → DeleteDialog
confirm_end s = record s { deleting = false }
