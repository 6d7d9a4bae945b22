-- ===== src/Toml/Draft/Canonical.antt =====
-- The drafts that a text can hold: those on which `serializeProxies` loses nothing.
use Prim.Native.Nat.{ℕ, ◌^◌, ◌≤◌, ◌<◌}
use mathlib.Core.Path.{◌≡◌, refl}
use mathlib.Core.Logic.{◌⊎◌}
use mathlib.Core.Bool.{false}
use mathlib.Core.List.{List, [], ◌∷◌, ◌++◌}
use native.Mathlib.Omega.{arith}
use frpc_multi.Base.Lists.{is_empty, All, All-append}
use frpc_multi.Base.Text.{Text, codes, trim, trim_end, is_space, join, replace_all}
use frpc_multi.Base.Decimal.{decimal, IsDigit, decimal-IsDigit, decimal-ne-nil}
use frpc_multi.Base.Digits.{trim-decimal}
use frpc_multi.Base.Text.Trim.{trim-append}
use frpc_multi.Base.Text.Lines.{IsLine}
use frpc_multi.Toml.Value.{quotation, toml_string}
use frpc_multi.Toml.Value.Strings.{IsPlain, escaped, trim-toml_string}
use frpc_multi.Toml.Value.Arrays.{comma, items_text, array_text}
use frpc_multi.Toml.Draft.{ProxyDraft}
use frpc_multi.Toml.Draft.Domains.{IsDomain}
use frpc_multi.Toml.Draft.Lines.{IsValue, line_of}

-- Empty, or a number in decimal that floating point holds exactly.
abbrev pub IsPortText : Text → Type 0
IsPortText t = (t ≡ []) ⊎ ((n : ℕ) × (n < 2 ^ 53) × (t ≡ decimal n))

-- Trimmed, and without control characters.
abbrev pub IsClean : Text → Type 0
IsClean s = (trim s ≡ s) × IsPlain s

pub record IsCanonical (d : ProxyDraft) : Type 0 where
  pub name : IsClean d.name
  pub type : IsClean d.type
  pub type_given : is_empty d.type ≡ false
  pub local_ip : IsClean d.local_ip
  pub local_ip_given : is_empty d.local_ip ≡ false
  pub local_port : IsPortText d.local_port
  pub remote_port : IsPortText d.remote_port
  pub subdomain : IsClean d.subdomain
  pub domains : List Text
  pub domains_IsDomain : All IsDomain domains
  pub custom_domains : d.custom_domains ≡ join comma domains

pub IsLine-IsPlain : (s : Text) → IsPlain s → IsLine s
IsLine-IsPlain [] h = tt
IsLine-IsPlain (c ∷ s) (k, h) = (omega arith, IsLine-IsPlain s h)

escaped-IsPlain : (s : Text) → IsPlain s → IsPlain (escaped s)
unfolding replace_all
escaped-IsPlain [] h = tt
escaped-IsPlain (c ∷ s) (k, h) = ground (arith, escaped-IsPlain s h)

pub toml_string-IsPlain : (s : Text) → IsPlain s → IsPlain (toml_string s)
unfolding toml_string
toml_string-IsPlain s h = (
  omega arith,
  All-append (λ c. 32 ≤ c) (escaped s) (quotation ∷ []) (escaped-IsPlain s h) (omega arith),
)

IsPlain-IsDigit : (s : Text) → All IsDigit s → IsPlain s
IsPlain-IsDigit [] h = tt
IsPlain-IsDigit (c ∷ s) (k, h) = (omega arith, IsPlain-IsDigit s h)

pub decimal-IsPlain : (n : ℕ) → IsPlain (decimal n)
decimal-IsPlain n = IsPlain-IsDigit (decimal n) (decimal-IsDigit n)

items_text-IsPlain : (ds : List Text) → All IsDomain ds → IsPlain (items_text ds)
unfolding join
items_text-IsPlain [] h = tt
items_text-IsPlain (d ∷ []) (k, h) = toml_string-IsPlain d k.item.0
items_text-IsPlain (d ∷ e ∷ ds) (k, h) =
    All-append (λ c. 32 ≤ c) (toml_string d) (comma ++ items_text (e ∷ ds))
      (toml_string-IsPlain d k.item.0) (omega arith, (omega arith, items_text-IsPlain (e ∷ ds) h))

pub array_text-IsPlain : (ds : List Text) → All IsDomain ds → IsPlain (array_text ds)
array_text-IsPlain ds h = (
  omega arith,
  All-append (λ c. 32 ≤ c) (items_text ds) (b']' ∷ []) (items_text-IsPlain ds h) (omega arith),
)

pub toml_string-IsValue : (s : Text) → IsValue (toml_string s)
unfolding toml_string
toml_string-IsValue s = (trim-toml_string s, cc)

pub decimal-IsValue : (n : ℕ) → IsValue (decimal n)
decimal-IsValue n = (trim-decimal n, decimal-ne-nil n)

bracket_trimmed : trim_end (b']' ∷ []) ≡ b']' ∷ []
unfolding trim_end is_space
bracket_trimmed = refl

bracket-not-space : is_space b'[' ≡ false
unfolding is_space
bracket-not-space = refl

pub array_text-IsValue : (ds : List Text) → IsValue (array_text ds)
array_text-IsValue ds =
    (trim-append b'[' (items_text ds) (b']' ∷ []) bracket-not-space bracket_trimmed (cc), cc)

pub line_of-IsPlain : (key v : Text) → IsPlain key → IsPlain v → IsPlain (line_of key v)
line_of-IsPlain key v h k =
    All-append (λ c. 32 ≤ c) key (codes " = " ++ v) h (omega arith, (omega arith, (omega arith, k)))
