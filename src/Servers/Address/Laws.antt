-- ===== src/Servers/Address/Laws.antt =====
-- The page does not take its own writes for changes from outside.
use mathlib.Core.Logic.{◌⊎◌}
use Prim.Native.Nat.{ℕ}
use mathlib.Core.Path.{◌≡◌}
use mathlib.Core.Bool.{Bool, true}
use mathlib.Core.Logic.{◌⊎◌, inl, inr}
use mathlib.Core.Option.{some, none, some}
use native.Mathlib.Omega.{arith}
use frpc_multi.Base.Text.{Text}
use frpc_multi.Servers.Query.{ServerQuery, Params, write_query}
use frpc_multi.Servers.Address.{AddressState, observe, write_address, sync}

module _ (number : Text → ℕ) (same : Params → Params → Bool)
    (same_query : ServerQuery → ServerQuery → Bool) where
  -- If the page awaits no query that was read from outside, or awaits just the one it has, and writes it
  -- to the address that it last saw, then seeing the written address arrive does not read it back as a
  -- change from outside: the query stays, and nothing more is awaited. The test on addresses has to
  -- accept an address as the same as itself.
  pub observe-sync :
      (s : AddressState) (current : Params)
      → ((p : Params) → same p p ≡ true)
      → (s.external ≡ none)
        ⊎ ((awaited : ServerQuery) × (s.external ≡ some awaited)
            × (same_query s.query awaited ≡ true))
      → s.last_observed ≡ current
      → let s1 = (sync number same same_query current s).1 in
        let s2 = observe number same same_query (write_query s.query current) s1 in
        (s2.query ≡ s.query) × (s2.target ≡ none) × (s2.external ≡ none)
  unfolding sync write_address observe
  observe-sync s current eq (inl e) now =
      let self = eq (write_query s.query current) in
      (ground (arith, self), ground (arith, self), ground (arith, self))
  observe-sync s current eq (inr (awaited, e, k)) now =
      let self = eq (write_query s.query current) in
      (ground (arith, self), ground (arith, self), ground (arith, self))
