-- ===== src/Pages/LbPage/Tests.antt =====
-- The theorems on the domain page at a concrete domain.
use frpc_multi.Base.Assoc.{text_eq}
use frpc_multi.Base.Decimal.{decimal, decimal_from}
use frpc_multi.Base.Digits.{read_digits}
use frpc_multi.Base.Text.{Text, codes, ◌===◌, trim, trim_start, trim_end, is_space}
use frpc_multi.Domains.{LbDomain, scheduled}
use frpc_multi.Pages.CreateInstance.{is_number_text}
use frpc_multi.Pages.LbPage.{CloudflareZone, LbPage}
use frpc_multi.Pages.LbPage.Dialog.{
  DomainInput, checked_input, open_dialog, find_zone, has_suffix, interval_seconds, seconds_from,
  ttl_of, input_of,
}
use frpc_multi.Pages.LbPage.Laws.{IsTimed, IsZoned, checked_input_bounds, checked_input-open_dialog}
use mathlib.Core.Logic.{◌≢◌, ◌↔◌}
use Prim.Native.Nat.{ℕ, ◌%◌, ◌≤◌}
use mathlib.Core.Path.{◌≡◌, refl}
use mathlib.Core.Bool.{true, false}
use mathlib.Core.Option.{none, some}
use mathlib.Core.List.{[], ◌∷◌}

abbrev domain_every : ℕ → LbDomain
domain_every seconds = record {
  id = 1;
  name = codes "a.example.com";
  zone_id = codes "z";
  zone_name = codes "example.com";
  group = [];
  group_id = none;
  ttl = 60;
  sync_mode = scheduled;
  interval_seconds = seconds;
  last_sync_message = [];
  created_at = [];
  preferred_server_id = none;
  enabled = true;
  last_sync_at = none;
  last_sync_ok = none;
  current_ip = none;
  pool_size = 3;
}

abbrev zone : CloudflareZone
zone = record { id = codes "z"; name = codes "example.com" }

abbrev same_text : Text → Text
same_text t = t

abbrev input_every : ℕ → DomainInput
input_every seconds = record {
  ttl = 60;
  sync_mode = scheduled;
  interval_seconds = some seconds;
  enabled = true;
}

saved_as_is :
    checked_input same_text (open_dialog (some (domain_every 300)) (zone ∷ []))
    ≡ some (input_every 300)
unfolding checked_input open_dialog input_of find_zone has_suffix interval_seconds seconds_from
    ttl_of is_number_text read_digits decimal decimal_from ◌===◌ trim trim_start trim_end is_space
saved_as_is = refl

-- An interval of a minute and a half, which the dialog takes as "1.5", is saved as two minutes when the
-- domain is opened and saved.
half_minute_lost :
    checked_input same_text (open_dialog (some (domain_every 90)) (zone ∷ []))
    ≡ some (input_every 120)
unfolding checked_input open_dialog input_of find_zone has_suffix interval_seconds seconds_from
    ttl_of is_number_text read_digits decimal decimal_from ◌===◌ trim trim_start trim_end is_space
half_minute_lost = refl

half_minute_taken : interval_seconds (codes "1.5") ≡ some 90
unfolding interval_seconds seconds_from ◌===◌
half_minute_taken = refl

checked_input-open_dialog_example :
    let saved = input_every 300 in
    let domain = domain_every 300 in
    (saved.sync_mode ≡ domain.sync_mode)
    × (saved.ttl ≡ domain.ttl)
    × (saved.enabled ≡ domain.enabled)
    × ((saved.interval_seconds ≡ some domain.interval_seconds) ↔ (domain.interval_seconds % 60 ≡ 0))
checked_input-open_dialog_example =
    checked_input-open_dialog same_text (domain_every 300) (zone ∷ []) (input_every 300) saved_as_is

checked_input_bounds_example :
    (30 ≤ 60)
    × (60 ≤ 3600)
    × IsTimed scheduled (some 300)
    × (trim (codes "a.example.com") ≢ [])
    × IsZoned same_text (codes "z") (trim (codes "a.example.com")) (zone ∷ [])
unfolding open_dialog
checked_input_bounds_example =
    checked_input_bounds same_text (open_dialog (some (domain_every 300)) (zone ∷ []))
      (input_every 300) saved_as_is

abbrev left : LbPage
left = record {
  domains = [];
  health = none;
  token_configured = false;
  zones = [];
  loading = true;
  selection_config = none;
  primary_node_name = [];
  load_error = [];
  params = [];
  query_text = [];
  refreshing = true;
  request_id = 2;
  syncing = [];
}
