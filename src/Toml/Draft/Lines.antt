-- ===== src/Toml/Draft/Lines.antt =====
-- Reading one line `key = value`.
use Prim.Native.Nat.{ℕ, ◌≤◌}
use mathlib.Core.Path.{◌≡◌, sym, ap, ◌∙◌}
use mathlib.Core.Logic.{◌≢◌, ◌⊎◌}
use mathlib.Core.Bool.{false, ◌||◌}
use mathlib.Core.Option.{some}
use mathlib.Core.List.{[], ◌∷◌, ◌++◌, append_assoc}
use native.Mathlib.Omega.{arith}
use frpc_multi.Base.Lists.{is_empty, All}
use frpc_multi.Base.Text.{Text, codes, is_space, trim, starts_with}
use frpc_multi.Base.Text.Trim.{
  HasNoSpace, trim-append, trim-space, trim-snoc, trim_start-cons, trim_end_of_trim,
}
use frpc_multi.Base.Text.Search.{index_of-append, take-length-append, drop-length-append}
use frpc_multi.Base.Decimal.{Numbers}
use frpc_multi.Toml.Draft.{
  ProxyDraft, Reader, is_proxy_block, set_field, read_field, read_line, some,
}

abbrev pub IsLetter : ℕ → Type 0
IsLetter c = ((65 ≤ c) × (c ≤ 90)) ⊎ ((97 ≤ c) × (c ≤ 122))

-- A key made of letters.
abbrev pub IsKey : Text → Type 0
IsKey [] = ⊥
IsKey (c ∷ s) = IsLetter c × All IsLetter s

-- A value that stands for itself behind the equals sign.
abbrev pub IsValue : Text → Type 0
IsValue v = (trim v ≡ v) × (v ≢ [])

is_space-IsLetter : (c : ℕ) → IsLetter c → is_space c ≡ false
unfolding is_space
is_space-IsLetter c h = ground arith

HasNoSpace-IsLetter : (s : Text) → All IsLetter s → HasNoSpace s
HasNoSpace-IsLetter [] h = tt
HasNoSpace-IsLetter (c ∷ s) (k, h) = (is_space-IsLetter c k, HasNoSpace-IsLetter s h)

no_equals : (s : Text) → All IsLetter s → All (λ c. c ≢ b'=') (s ++ b' ' ∷ [])
no_equals [] h = (omega arith, tt)
no_equals (c ∷ s) (k, h) = (omega arith, no_equals s h)

IsKey-All : (s : Text) → IsKey s → All IsLetter s
IsKey-All [] h = tt
IsKey-All (c ∷ s) h = h

abbrev pub line_of : Text → Text → Text
line_of key v = key ++ (codes " = " ++ v)

pub trim-line_of : (key v : Text) → IsKey key → IsValue v → trim (line_of key v) ≡ line_of key v
trim-line_of [] v k h = absurd k
trim-line_of (c ∷ key) v k h =
    ap trim (ap (◌∷◌ c) (sym (append_assoc key (codes " = ") v)))
    ∙ trim-append c (key ++ codes " = ") v (is_space-IsLetter c k.0) (trim_end_of_trim v h.0) h.1
    ∙ ap (◌∷◌ c) (append_assoc key (codes " = ") v)

equals_found : (key v : Text) → IsKey key → line_of key v ≡ (key ++ b' ' ∷ []) ++ b'=' ∷ (b' ' ∷ v)
equals_found key v k = sym (append_assoc key (b' ' ∷ []) (b'=' ∷ (b' ' ∷ v)))

-- A line of a letter key is no comment and no header.
not_comment :
    (key v : Text)
    → IsKey key
    → (is_empty (line_of key v) || starts_with (codes "#") (line_of key v)) ≡ false
unfolding starts_with
not_comment [] v k = absurd k
not_comment (c ∷ key) v k = ground arith

not_table : (key v : Text) → IsKey key → starts_with (codes "[") (line_of key v) ≡ false
unfolding starts_with
not_table [] v k = absurd k
not_table (c ∷ key) v k = ground arith

not_block : (key v : Text) → IsKey key → is_proxy_block (line_of key v) ≡ false
unfolding is_proxy_block
not_block [] v k = absurd k
not_block (c ∷ key) v k =
    rw (trim_start-cons c (line_of key v) (is_space-IsLetter c k.0))
      (unfold starts_with in ground arith)

module _ (js : Numbers) where
  pub read_field-assign :
      (key v : Text) (draft : ProxyDraft)
      → IsKey key
      → IsValue v
      → read_field js (line_of key v) draft ≡ set_field js key v draft
  unfolding read_field
  read_field-assign key v draft k h =
      let front = key ++ b' ' ∷ [] in
      let letters = IsKey-All key k in
      rw (equals_found key v k) (
        rw (index_of-append b'=' front (b' ' ∷ v) (no_equals key letters), read_field)
          (rw (
            take-length-append front (b'=' ∷ (b' ' ∷ v)),
            drop-length-append front b'=' (b' ' ∷ v),
            trim-snoc key (HasNoSpace-IsLetter key letters),
            trim-space v,
            h.0,
          )))

  -- A field's line changes the draft that is being read.
  pub read_line-assign :
      (key v : Text) (draft : ProxyDraft) (r : Reader)
      → IsKey key
      → IsValue v
      → r.current ≡ some draft
      → read_line js (line_of key v) r ≡ record r { current = some (set_field js key v draft) }
  unfolding read_line
  read_line-assign key v draft r k h e =
      rw (trim-line_of key v k h, not_comment key v k, not_block key v k, not_table key v k, e)
        (rw (trim-line_of key v k h, read_field-assign key v draft k h))
