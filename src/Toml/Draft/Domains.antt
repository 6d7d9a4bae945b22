-- ===== src/Toml/Draft/Domains.antt =====
-- The list of domains in a draft's text, split as `serializeProxies` splits it.
use mathlib.Core.Bool.{not}
use mathlib.Core.Path.{◌≡◌, ap, refl, ◌∙◌}
use mathlib.Core.List.{◌∷◌, List, [], map}
use mathlib.Core.Logic.{◌≢◌}
use frpc_multi.Base.Lists.{All, is_empty, filter}
use frpc_multi.Base.Text.{Text, trim, trim_start, trim_end, is_space, split_on, push_first, join}
use frpc_multi.Base.Text.Split.{split_on_none, split_on-append}
use frpc_multi.Base.Text.Trim.{trim-space}
use frpc_multi.Toml.Value.Arrays.{comma, IsItem}
use frpc_multi.Toml.Draft.{domains_of, List, not, [], map}

-- A domain that the text of a draft can hold: trimmed, not empty, and without commas.
pub record IsDomain (d : Text) : Type 0 where
  pub trimmed : trim d ≡ d
  pub not_nil : d ≢ []
  pub item : IsItem d
  pub no_comma : All (λ c. c ≢ b',') d

split_on-space : (s : Text) → split_on b',' (b' ' ∷ s) ≡ push_first b' ' (split_on b',' s)
unfolding split_on
split_on-space s = refl

-- The parts of a joined list, behind the space of ", " in all but the first.
keep : List Text → List Text
keep parts = filter (λ d. not (is_empty d)) (map trim parts)

keep-cons : (d : Text) (parts : List Text) → IsDomain d → keep (d ∷ parts) ≡ d ∷ keep parts
unfolding keep
keep-cons [] parts h = absurd (h.not_nil refl)
keep-cons (c ∷ d) parts h = rw (h.trimmed)

keep-push_first : (parts : List Text) → keep (push_first b' ' parts) ≡ keep parts
unfolding keep trim trim_start trim_end is_space
keep-push_first [] = refl
keep-push_first (d ∷ parts) = rw (trim-space d)

keep_none : keep (split_on b',' []) ≡ []
unfolding keep split_on trim trim_start trim_end
keep_none = refl

keep-split_on-join : (ds : List Text) → All IsDomain ds → keep (split_on b',' (join comma ds)) ≡ ds
unfolding join keep
keep-split_on-join [] h = keep_none
keep-split_on-join (d ∷ []) (k, h) = ap keep (split_on_none b',' d k.no_comma) ∙ keep-cons d [] k
keep-split_on-join (d ∷ e ∷ ds) (k, h) =
    let rest = join comma (e ∷ ds) in
    ap keep (split_on-append b',' d (b' ' ∷ rest) k.no_comma ∙ ap (◌∷◌ d) (split_on-space rest))
    ∙ keep-cons d _ k
    ∙ ap (◌∷◌ d) (keep-push_first (split_on b',' rest) ∙ keep-split_on-join (e ∷ ds) h)

-- Domains joined by ", " are found again.
pub domains_of-join : (ds : List Text) → All IsDomain ds → domains_of (join comma ds) ≡ ds
unfolding domains_of keep
domains_of-join ds h = keep-split_on-join ds h
