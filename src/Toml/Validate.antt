-- ===== src/Toml/Validate.antt =====
-- `isPortString`, `validateProxy` of proxyToml.ts.
use Prim.Native.Nat.{ℕ, zero, suc}
use mathlib.Core.Bool.{Bool, not, ◌&&◌}
use mathlib.Core.List.{List, [], ◌∷◌, ◌++◌}
use frpc_multi.Base.Tests.{if◌then◌else◌}
use frpc_multi.Base.Lists.{is_empty, any}
use frpc_multi.Base.Text.{Text, codes, ◌===◌, trim}
use frpc_multi.Base.Decimal.{Numbers}
use frpc_multi.Toml.Draft.{ProxyDraft}

-- The messages that `validateProxy` pushes.
pub data ProxyError : Type 0 where
  name_empty name_repeated type_empty bad_local_port bad_remote_port tcp_without_remote : ProxyError

abbrev pub when : Bool → ProxyError → List ProxyError
when b e = if b then e ∷ [] else []

-- The objects of `others` that are not the one at index `own`.
unfoldable pub others_than {ℓ} : {A : Type ℓ} → ℕ → List A → List A
others_than own [] = []
others_than zero (other ∷ others) = others
others_than (suc own) (other ∷ others) = other ∷ others_than own others

-- `others.some((other) => other !== draft && other.name.trim() === name)`, where `draft` is the
-- object at index `own` of `others`
unfoldable pub name_taken : Text → ℕ → List ProxyDraft → Bool
name_taken name own others = any (λ other. trim other.name === name) (others_than own others)

module _ (js : Numbers) where
  open js use {Num, parse, is_integer, lt, of_ℕ}

  -- `Number.isInteger(num) && num > 0 && num < 65536`
  abbrev pub is_port : Num → Bool
  is_port num = is_integer num && lt (of_ℕ 0) num && lt num (of_ℕ 65536)

  unfoldable pub is_port_string : Text → Bool
  is_port_string value = is_port (parse (trim value))

  -- `own` is the index of `draft` in `others`.
  unfoldable pub validate_proxy : ProxyDraft → ℕ → List ProxyDraft → List ProxyError
  validate_proxy draft own others =
      let name = trim draft.name in
      let local = trim draft.local_port in
      let remote = trim draft.remote_port in
      (if is_empty name then name_empty ∷ [] else when (name_taken name own others) name_repeated)
      ++ (when (is_empty draft.type) type_empty
          ++ (when (not (is_empty local) && not (is_port_string draft.local_port)) bad_local_port
              ++ (when (not (is_empty remote) && not (is_port_string draft.remote_port))
                    bad_remote_port
                  ++ when (draft.type === codes "tcp" && is_empty remote) tcp_without_remote)))
