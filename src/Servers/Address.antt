-- ===== src/Servers/Address.antt =====
-- The two effects of useServers.ts that keep the query and the address in step: one reads an address
-- that changed outside, the other writes the query. `number` stands for `Number`; an address is its
-- list of pairs, whose text is taken to determine it. `querySignature` compares queries by their
-- properties that are not undefined, which is their equality here.
pub mod Laws
use Prim.Native.Nat.{ℕ}
use mathlib.Core.Bool.{Bool, false}
use mathlib.Core.Option.{Option, none, some}
use native.Mathlib.Omega.{arith}
use frpc_multi.Base.Tests.{if◌then◌else◌}
use frpc_multi.Base.Text.{Text}
use frpc_multi.Servers.Query.{ServerQuery, Params, parse_query, write_query}

pub record AddressState : Type 0 where
  pub query : ServerQuery
  pub last_observed : Params
  pub target : Option Params
  pub external : Option ServerQuery
  pub push_url : Bool

-- What the effect does to the browser's history; the updater that leaves the address as it is still
-- navigates to it.
pub data Navigation : Type 0 where
  stay : Navigation
  push_to : Params → Navigation
  replace_with : Params → Navigation

abbrev pub go : Bool → Params → Navigation
go pushed url = if pushed then push_to url else replace_with url

module _ (number : Text → ℕ) (same : Params → Params → Bool)
    (same_query : ServerQuery → ServerQuery → Bool) where
  abbrev is_target : Option Params → Params → Bool
  is_target none url = false
  is_target (some target) url = same target url

  -- The effect on a change of `urlKey`.
  unfoldable pub observe : Params → AddressState → AddressState
  observe url s =
      let seen = record s { last_observed = url } in
      let from_url = parse_query number url in
      if same url s.last_observed
      then s
      else if is_target s.target url
      then record seen { target = none }
      else record seen { external = some from_url; query = from_url }

  -- The write to the address behind the test on the hydrated query.
  unfoldable pub write_address : Params → AddressState → Navigation × AddressState
  write_address current s =
      let target = write_query s.query current in
      if same target current
      then (go s.push_url current, record s { target = none; push_url = false })
      else (go s.push_url target, record s { target = some target; push_url = false })

  -- The effect on a change of the query, on a page that is active.
  unfoldable pub sync : Params → AddressState → Navigation × AddressState
  sync current s = elim s.external [
    | none ↦ write_address current s
    | some hydrated ↦
        if same_query s.query hydrated
        then write_address current (record s { external = none })
        else (stay, s)
  ]
