-- ===== src/Tags/Laws.antt =====
-- Every tag's name is either read-only or the name of a tag that may be edited.
use mathlib.Core.Path.{◌≡◌, refl, ◌∙◌}
use mathlib.Core.Logic.{inl, inr}
use mathlib.Core.Bool.{Bool, true, false, not, ◌&&◌}
use mathlib.Core.List.{List, [], ◌∷◌}
use native.Mathlib.Omega.{arith}
use frpc_multi.Base.Tests.{Bool-cases}
use frpc_multi.Base.Lists.{filter}
use frpc_multi.Base.Text.{Text, ===_iff}
use frpc_multi.Base.Assoc.{text_eq, contains, distinct_from}
use frpc_multi.Tags.{
  ManagedTag, TagCategory, is_read_only_tag, editable_tags, names_of, read_only_tag_names,
}

contains-distinct_from :
    (x : Text) (seen xs : List Text)
    → contains x (distinct_from seen xs) ≡ contains x xs && not (contains x seen)
unfolding contains distinct_from
contains-distinct_from x seen [] = refl
contains-distinct_from x seen (y ∷ xs) =
    ground
      (arith, ===_iff y x, contains-distinct_from x seen xs, contains-distinct_from x (y ∷ seen) xs)

module _ (p : ManagedTag → Bool) (manual_names : List Text) (x : Text) where
  abbrev automatic : ManagedTag → Bool
  automatic tag = p tag && not (contains tag.name manual_names)

  automatic_none :
      (tags : List ManagedTag)
      → contains x manual_names ≡ true
      → contains x (names_of (filter automatic tags)) ≡ false
  unfolding contains names_of
  automatic_none [] h = refl
  automatic_none (tag ∷ tags) h = ground (arith, ===_iff tag.name x, automatic_none tags h)

  automatic_all :
      (tags : List ManagedTag)
      → contains x manual_names ≡ false
      → contains x (names_of (filter (λ tag. not (p tag)) tags)) ≡ false
      → contains x (names_of (filter automatic tags)) ≡ contains x (names_of tags)
  unfolding contains names_of
  automatic_all [] h k = refl
  automatic_all (tag ∷ tags) h k = ground (arith, ===_iff tag.name x, automatic_all tags h)

-- A name is read-only exactly if a tag has it and no tag with that name may be edited: a name that a
-- manual and an automatic tag share is not read-only.
pub contains-read_only_tag_names :
    (x : Text) (tags : List ManagedTag) (categories : List TagCategory)
    → contains x (read_only_tag_names tags categories)
      ≡ contains x (names_of tags) && not (contains x (names_of (editable_tags tags categories)))
unfolding read_only_tag_names editable_tags contains
contains-read_only_tag_names x tags categories =
    let p : ManagedTag → Bool = λ tag. is_read_only_tag tag categories tag.category_id in
    let m = names_of (editable_tags tags categories) in
    contains-distinct_from x [] (names_of (filter (automatic p m x) tags))
    ∙ elim (Bool-cases (contains x m)) [
      | inl e ↦ ground (arith, e, automatic_none p m x tags e)
      | inr e ↦ ground (arith, e, automatic_all p m x tags e e)
    ]
