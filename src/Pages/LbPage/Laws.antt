-- ===== src/Pages/LbPage/Laws.antt =====
-- The filters in the address, late answers, and what the dialog of a domain sends.
use frpc_multi.Base.Answers.{Answer}
use frpc_multi.Base.Assoc.{text_eq, nat_eq, get, get-put, get-delete}
use frpc_multi.Base.Decimal.{decimal, decimal-IsDigit, decimal-ne-nil, IsDigit}
use frpc_multi.Base.Digits.{read_digits, read_digits-decimal}
use frpc_multi.Base.Text.{Text, codes, ◌===◌, ===_refl, ===_iff, trim}
use frpc_multi.Domains.{LbDomain, SyncMode, by_hand, scheduled}
use frpc_multi.Servers.Query.{Params}
use frpc_multi.Pages.CreateInstance.{is_number_text}
use frpc_multi.Pages.LbPage.{
  CloudflareZone, write_value, LbPage, Loaded, FilterKey, q, enabled, health, sync, key_text,
  kept_value, update_filter, load_answer, is_query, set_or_delete,
}
use frpc_multi.Pages.LbPage.Dialog.{
  input_of, Dialog, DomainInput, checked_input, open_dialog, in_zone, has_suffix, find_zone,
  interval_seconds, ttl_of, seconds_from, is_interval, is_scheduled, rounded_minutes,
}
use Prim.Native.Nat.{ℕ, ◌%◌, ◌+◌, ◌-◌, ◌*◌, ◌≤◌}
use mathlib.Core.Path.{◌≡◌, refl, sym, ap, ◌∙◌}
use mathlib.Core.Logic.{◌≢◌, ◌⊎◌, ◌↔◌, inl, inr}
use mathlib.Core.Bool.{true, false, not, ◌&&◌}
use mathlib.Core.Option.{Option, none, some}
use mathlib.Core.List.{List, [], ◌∷◌, ◌++◌}
use native.Mathlib.Omega.{arith}
use frpc_multi.Base.Tests.{leb, if◌then◌else◌, Option-cases, Bool-cases, or_else}
use frpc_multi.Base.Lists.{is_empty, all, All}

get-write_value :
    (key other : Text) (value : Option Text) (params : Params)
    → get other (write_value key value params) ≡ (if key === other then value else get other params)
get-write_value key other none params = get-delete key other params
get-write_value key other (some value) params = get-put key other value params

get-set_or_delete :
    (key other value : Text) (params : Params)
    → (key === other) ≡ false
    → get other (set_or_delete key value params) ≡ get other params
get-set_or_delete key other value params h =
    ground (arith, get-delete key other params, get-put key other value params)

not_query : (key : FilterKey) → is_query key ≡ false → (codes "q" === key_text key) ≡ false
unfolding ◌===◌
not_query q h = absurd (ground arith)
not_query enabled h = refl
not_query health h = refl
not_query sync h = refl

-- After a change of a filter the address has its value, or none for an empty text and for "all"; it has
-- the text that is typed as its query if another filter was changed; and it has the two other filters
-- as they were.
pub get-update_filter :
    (key other : FilterKey) (value query_text : Text) (params : Params)
    → (key_text key === key_text other) ≡ false
    → is_query other ≡ false
    → (get (key_text key) (update_filter key value query_text params).0 ≡ kept_value key value)
      × (get (key_text other) (update_filter key value query_text params).0
          ≡ get (key_text other) params)
unfolding update_filter
get-update_filter key other value query_text params apart h =
    let typed = if is_query key then params else set_or_delete (codes "q") query_text params in
    let kept = kept_value key value in
    (
      get-write_value (key_text key) (key_text key) kept typed ∙ rw (===_refl (key_text key)) refl,
      get-write_value (key_text key) (key_text other) kept typed
          ∙ ground (
            arith,
            get-set_or_delete (codes "q") (key_text other) query_text params (not_query other h),
          ),
    )

-- An answer to a load that is no longer the latest one, or that comes after the page was left, changes
-- nothing.
pub load_answer_stale :
    (request : ℕ) (a : Answer Loaded) (s : LbPage)
    → request ≢ s.request_id
    → load_answer request a s ≡ s
unfolding load_answer
load_answer_stale request a s h = ground arith

ttl_of_bounds : (t : Text) (n : ℕ) → ttl_of t ≡ some n → (30 ≤ n) × (n ≤ 3600)
unfolding ttl_of
ttl_of_bounds t n h = ground arith

-- On a schedule the interval is from a minute to a day.
abbrev pub IsTimed : SyncMode → Option ℕ → Type 0
IsTimed by_hand interval = Unit
IsTimed scheduled interval = (n : ℕ) × (interval ≡ some n) × (60 ≤ n) × (n ≤ 86400)

interval-IsTimed :
    (mode : SyncMode) (interval : Option ℕ)
    → (is_scheduled mode && not (is_interval interval)) ≡ false
    → IsTimed mode interval
interval-IsTimed by_hand interval h = tt
interval-IsTimed scheduled none h = ground arith
interval-IsTimed scheduled (some n) h = (n, refl, ground arith, ground arith)

has_suffix-append :
    (part t : Text) → has_suffix part t ≡ true → (front : Text) × (t ≡ front ++ part)
unfolding has_suffix
has_suffix-append part [] h = ([], sym ((===_iff part []).0 h))
has_suffix-append part (c ∷ t) h = elim (Bool-cases ((c ∷ t) === part)) [
  | inl e ↦ ([], (===_iff (c ∷ t) part).0 e)
  | inr e ↦
      let (front, same) = has_suffix-append part t (ground arith) in
      (c ∷ front, ap (λ xs. c ∷ xs) same)
]

module _ (lower : Text → Text) where
  -- The name is that of the zone, or ends in a dot and it, capitals aside.
  abbrev pub IsUnder : Text → CloudflareZone → Type 0
  IsUnder name zone =
      (lower name ≡ lower zone.name)
      ⊎ ((front : Text) × (lower name ≡ front ++ b'.' ∷ lower zone.name))

  -- No zone of the list has the id, or the first one that has it is above the name.
  abbrev pub IsZoned : Text → Text → List CloudflareZone → Type 0
  IsZoned id name [] = Unit
  IsZoned id name (zone ∷ zones) =
      ((zone.id ≡ id) × IsUnder name zone) ⊎ ((zone.id ≢ id) × IsZoned id name zones)

  in_zone-IsUnder :
      (name : Text) (zone : CloudflareZone)
      → in_zone lower name (some zone) ≡ true
      → IsUnder name zone
  in_zone-IsUnder name zone h = elim (Bool-cases (lower name === lower zone.name)) [
    | inl e ↦ inl ((===_iff (lower name) (lower zone.name)).0 e)
    | inr e ↦ inr (has_suffix-append (b'.' ∷ lower zone.name) (lower name) (ground arith))
  ]

  in_zone-IsZoned :
      (id name : Text) (zones : List CloudflareZone)
      → in_zone lower name (find_zone id zones) ≡ true
      → IsZoned id name zones
  unfolding find_zone
  in_zone-IsZoned id name [] h = tt
  in_zone-IsZoned id name (zone ∷ zones) h = elim (Bool-cases (zone.id === id)) [
    | inl e ↦ inl ((===_iff zone.id id).0 e, in_zone-IsUnder name zone (rw e at h))
    | inr e ↦ inr (
      λ same. ground (arith, (===_iff zone.id id).1 same),
      in_zone-IsZoned id name zones (rw e at h),
    )
  ]

-- What the dialog of a domain sends has a time to live from 30 to 3600 seconds, and, if the domain is to
-- be synchronised on a schedule, an interval from a minute to a day; the name is not blank, and if a zone
-- of the list has the id that is chosen, it is the name of the first such zone or ends in a dot and it,
-- capitals aside.
pub checked_input_bounds :
    (lower : Text → Text) (s : Dialog) (input : DomainInput)
    → checked_input lower s ≡ some input
    → (30 ≤ input.ttl)
      × (input.ttl ≤ 3600)
      × IsTimed input.sync_mode input.interval_seconds
      × (trim s.name ≢ [])
      × IsZoned lower s.zone_id (trim s.name) s.zone_list
unfolding checked_input input_of
checked_input_bounds lower s input h =
    let zoned : in_zone lower (trim s.name) (find_zone s.zone_id s.zone_list) ≡ true =
      ground arith in
    let timed : (is_scheduled s.mode && not (is_interval (interval_seconds s.interval))) ≡ false =
      ground arith in
    elim (Option-cases (ttl_of s.ttl)) [
      | inl e ↦ absurd (ground arith)
      | inr (n, e) ↦
          let same : input_of n s ≡ input = ground arith in
          let (low, high) = ttl_of_bounds s.ttl n e in
          (
            rw (← same) low,
            rw (← same) high,
            rw (← same) (interval-IsTimed s.mode (interval_seconds s.interval) timed),
            λ blank. ground (arith, ap is_empty blank),
            in_zone-IsZoned lower s.zone_id (trim s.name) s.zone_list zoned,
          )
    ]

seconds_from-read_digits :
    (acc n : ℕ) (t : Text) → read_digits acc t ≡ some n → seconds_from acc t ≡ some (60 * n)
unfolding read_digits seconds_from
seconds_from-read_digits acc n [] h = ground arith
seconds_from-read_digits acc n (c ∷ t) h =
    ground (arith, seconds_from-read_digits (acc * 10 + (c - 48)) n t)

all_digits : (t : Text) → All IsDigit t → all (λ d. leb 48 d && leb d 57) t ≡ true
all_digits [] h = refl
all_digits (c ∷ t) (k, h) = ground (arith, all_digits t h)

is_number_text-decimal : (t : Text) → t ≢ [] → All IsDigit t → is_number_text t ≡ true
unfolding is_number_text
is_number_text-decimal [] given h = absurd (given refl)
is_number_text-decimal (c ∷ t) given h = all_digits (c ∷ t) h

interval_seconds_digits :
    (n : ℕ) (t : Text)
    → t ≢ []
    → All IsDigit t
    → read_digits 0 t ≡ some n
    → interval_seconds t ≡ some (60 * n)
unfolding interval_seconds
interval_seconds_digits n [] given h e = absurd (given refl)
interval_seconds_digits n (c ∷ t) given (k, h) e =
    ground (arith, seconds_from-read_digits 0 n (c ∷ t) e)

interval_seconds-decimal : (n : ℕ) → interval_seconds (decimal n) ≡ some (60 * n)
interval_seconds-decimal n =
    interval_seconds_digits n (decimal n) (decimal-ne-nil n) (decimal-IsDigit n)
      (read_digits-decimal n)

ttl_of-decimal : (ttl n : ℕ) → ttl_of (decimal ttl) ≡ some n → n ≡ ttl
unfolding ttl_of
ttl_of-decimal ttl n e = ground (
  arith,
  is_number_text-decimal (decimal ttl) (decimal-ne-nil ttl) (decimal-IsDigit ttl),
  read_digits-decimal ttl,
)

minutes_whole :
    (seconds : ℕ) → ((some (60 * rounded_minutes seconds) ≡ some seconds) ↔ (seconds % 60 ≡ 0))
minutes_whole seconds =
    (λ e. omega (arith, ap (λ (o : Option ℕ). or_else o 0) e), λ e. ap (λ n. some n) (omega arith))

-- A domain that is opened in the dialog and saved as it is keeps its mode, its time to live and whether
-- it is enabled, and it keeps its interval just if that is a number of whole minutes.
pub checked_input-open_dialog :
    (lower : Text → Text) (domain : LbDomain) (zones : List CloudflareZone) (input : DomainInput)
    → checked_input lower (open_dialog (some domain) zones) ≡ some input
    → (input.sync_mode ≡ domain.sync_mode)
      × (input.ttl ≡ domain.ttl)
      × (input.enabled ≡ domain.enabled)
      × ((input.interval_seconds ≡ some domain.interval_seconds)
          ↔ (domain.interval_seconds % 60 ≡ 0))
unfolding open_dialog input_of checked_input
checked_input-open_dialog lower domain zones input h =
    elim (Option-cases (ttl_of (decimal domain.ttl))) [
      | inl e ↦ absurd (ground arith)
      | inr (n, e) ↦
          let kept : n ≡ domain.ttl = ttl_of-decimal domain.ttl n e in
          let same : input_of n (open_dialog (some domain) zones) ≡ input = ground arith in
          rw (← same) (
            refl,
            kept,
            refl,
            rw (interval_seconds-decimal (rounded_minutes domain.interval_seconds))
                (minutes_whole domain.interval_seconds),
          )
    ]
