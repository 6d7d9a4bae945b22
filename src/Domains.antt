-- ===== src/Domains.antt =====
-- webui/frontend/src/lib/lbDomainView.ts: the rows of the domain page and their filters. `lower` stands
-- for `toLowerCase`.
-- A snapshot's `selection`, which the view does not read, is left out.
pub mod Tests
pub mod Laws
use Prim.Native.Nat.{ℕ, zero, suc, ◌-◌, min}
use mathlib.Core.Bool.{Bool, true, false, not, ◌&&◌, ◌||◌}
use mathlib.Core.Option.{Option, none, some}
use mathlib.Core.List.{List, [], ◌∷◌, map}
use native.Mathlib.Omega.{arith}
use frpc_multi.Base.Tests.{◌==◌, if◌then◌else◌, or_else}
use frpc_multi.Base.Lists.{length, is_empty, filter}
use frpc_multi.Base.Text.{Text, codes, ◌===◌, trim, starts_with}
use frpc_multi.Base.Assoc.{text_eq, nat_eq, get, put, contains, distinct}
use frpc_multi.Servers.Query.{given, Params}

pub data SyncMode : Type 0 where
  by_hand scheduled : SyncMode

pub record LbDomain : Type 0 where
  pub id : ℕ
  pub name : Text
  pub zone_id : Text
  pub zone_name : Text
  pub group : Text
  pub group_id : Option Text
  pub ttl : ℕ
  pub sync_mode : SyncMode
  pub interval_seconds : ℕ
  pub enabled : Bool
  pub last_sync_at : Option Text
  pub last_sync_ok : Option Bool
  pub last_sync_message : Text
  pub current_ip : Option Text
  pub created_at : Text
  pub pool_size : ℕ
  pub preferred_server_id : Option ℕ

pub record LbHealthState : Type 0 where
  pub ip : Text
  pub ok : Option Bool
  pub consecutive_fail : ℕ
  pub last_check : Option Text
  pub last_ok : Option Text
  pub detail : Text
  pub port : ℕ

pub record LbHealthDomain : Type 0 where
  pub domain_id : ℕ
  pub name : Text
  pub group : Text
  pub current_ip : Option Text
  pub best_ip : Option Text
  pub pool_ips : List Text

pub record LbHealth : Type 0 where
  pub states : List LbHealthState
  pub domains : List LbHealthDomain

pub data CurrentHealth : Type 0 where
  healthy unhealthy unknown_health unassigned : CurrentHealth

pub data SyncState : Type 0 where
  success failed never unknown_sync : SyncState

-- `none` is "all".
pub record DomainFilters : Type 0 where
  pub q : Text
  pub enabled : Option Bool
  pub health : Option CurrentHealth
  pub sync : Option SyncState

pub record DomainRow : Type 0 where
  pub domain : LbDomain
  pub health : Option LbHealthDomain
  pub current_health : CurrentHealth
  pub sync_state : SyncState
  pub healthy_count : ℕ
  pub unhealthy_count : ℕ
  pub unknown_count : ℕ
  pub pending_switch : Bool

-- The value of a list of choices that the parameter names; a value that is not listed is the first one.
unfoldable pub choice : {A : Type 0} → List (Text × A) → A → Option Text → A
choice values first none = first
choice values first (some t) = or_else (get t values) first

unfoldable pub read_domain_filters : Params → DomainFilters
read_domain_filters params = record {
  q = or_else (get (codes "q") params) [];
  enabled =
      choice ((codes "enabled", some true) ∷ (codes "disabled", some false) ∷ []) none
        (get (codes "enabled") params);
  health =
      choice
        ((codes "healthy", some healthy)
          ∷ (codes "unhealthy", some unhealthy)
          ∷ (codes "unknown", some unknown_health)
          ∷ (codes "unassigned", some unassigned)
          ∷ [])
        none (get (codes "health") params);
  sync =
      choice
        ((codes "success", some success)
          ∷ (codes "failed", some failed)
          ∷ (codes "never", some never)
          ∷ (codes "unknown", some unknown_sync)
          ∷ [])
        none (get (codes "sync") params);
}

-- `new Map(items.map((item) => [key, item]))`: the last of two items with one key counts.
unfoldable pub by_ip :
    List LbHealthState → List (Text × LbHealthState) → List (Text × LbHealthState)
by_ip [] m = m
by_ip (x ∷ xs) m = by_ip xs (put x.ip x m)

unfoldable pub by_domain :
    List LbHealthDomain → List (ℕ × LbHealthDomain) → List (ℕ × LbHealthDomain)
by_domain [] m = m
by_domain (x ∷ xs) m = by_domain xs (put x.domain_id x m)

abbrev pub same_result : Bool → Option Bool → Bool
same_result value none = false
same_result value (some ok) = if value then ok else not ok

abbrev pub ok_of : Option LbHealthState → Option Bool
ok_of none = none
ok_of (some x) = x.ok

-- `states.get(ip)?.ok === value`
unfoldable pub ok_is : Bool → List (Text × LbHealthState) → Text → Bool
ok_is value states ip = same_result value (ok_of (get ip states))

-- `domain.poolSize ? [...new Set(snapshot?.poolIps ?? [])] : []`
unfoldable pub pool_of : ℕ → Option LbHealthDomain → List Text
pool_of zero snapshot = []
pool_of (suc n) none = []
pool_of (suc n) (some snapshot) = distinct snapshot.pool_ips

unfoldable pub current_health_of :
    Option Text → List Text → List (Text × LbHealthState) → CurrentHealth
current_health_of none pool states = unassigned
current_health_of (some ip) pool states =
    let known = contains ip pool in
    if known && ok_is true states ip
    then healthy
    else if known && ok_is false states ip
    then unhealthy
    else unknown_health

unfoldable pub sync_state_of : Option Text → Option Bool → SyncState
sync_state_of none ok = never
sync_state_of (some at) (some true) = success
sync_state_of (some at) (some false) = failed
sync_state_of (some at) none = unknown_sync

unfoldable pub switch_pending : Option LbHealthDomain → Option Text → Bool
switch_pending none current = false
switch_pending (some snapshot) current = elim (given snapshot.best_ip) [
  | none ↦ false
  | some best ↦ elim (given current) [ none ↦ false | some ip ↦ not (best === ip) ]
]

unfoldable pub domain_row :
    List (Text × LbHealthState) → List (ℕ × LbHealthDomain) → LbDomain → DomainRow
domain_row states snapshots domain =
    let snapshot = if domain.enabled then get domain.id snapshots else none in
    let pool = pool_of domain.pool_size snapshot in
    let good = min domain.pool_size (length (filter (ok_is true states) pool)) in
    let bad = min (domain.pool_size - good) (length (filter (ok_is false states) pool)) in
    record {
      domain = domain;
      health = snapshot;
      current_health = current_health_of (given domain.current_ip) pool states;
      sync_state = sync_state_of (given domain.last_sync_at) domain.last_sync_ok;
      healthy_count = good;
      unhealthy_count = bad;
      unknown_count = domain.pool_size - good - bad;
      pending_switch = switch_pending snapshot domain.current_ip;
    }

unfoldable pub domain_rows : List LbDomain → Option LbHealth → List DomainRow
domain_rows domains none = map (domain_row [] []) domains
domain_rows domains (some health) =
    map (domain_row (by_ip health.states []) (by_domain health.domains [])) domains

-- `text.includes(part)`
unfoldable pub includes : Text → Text → Bool
includes part [] = starts_with part []
includes part (c ∷ s) = starts_with part (c ∷ s) || includes part s

unfoldable pub same_health : CurrentHealth → CurrentHealth → Bool
same_health healthy healthy = true
same_health unhealthy unhealthy = true
same_health unknown_health unknown_health = true
same_health unassigned unassigned = true
same_health _ _ = false

unfoldable pub same_sync : SyncState → SyncState → Bool
same_sync success success = true
same_sync failed failed = true
same_sync never never = true
same_sync unknown_sync unknown_sync = true
same_sync _ _ = false

-- `wanted === 'all' || value === wanted`
abbrev pub allows : {A : Type 0} → (A → A → Bool) → Option A → A → Bool
allows same none value = true
allows same (some wanted) value = same value wanted

abbrev pub same_bool : Bool → Bool → Bool
same_bool a b = if b then a else not a

module _ (lower : Text → Text) where
  unfoldable pub row_matches : Text → DomainFilters → DomainRow → Bool
  row_matches query filters row =
      (is_empty query
        || includes query (lower row.domain.name)
        || elim row.domain.current_ip [ none ↦ false | some ip ↦ includes query (lower ip) ])
      && allows same_bool filters.enabled row.domain.enabled
      && allows same_health filters.health row.current_health
      && allows same_sync filters.sync row.sync_state

  unfoldable pub filter_domain_rows : List DomainRow → DomainFilters → List DomainRow
  filter_domain_rows rows filters = filter (row_matches (lower (trim filters.q)) filters) rows
